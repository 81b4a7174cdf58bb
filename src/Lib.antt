-- ===== src/Lib.antt =====
-- Yadakchi, a comparison of car parts: verification of the core of its services.
--
-- Billing (services/billing/src/billing) is what sellers pay by. A redirect link carries a signed
-- token (tokens.py, Billing/Tokens.antt). A click on it goes through a Lua script into a queue in
-- Redis (click_queue.py, Billing/Queue.antt), and a job drains the queue (drain.py, Billing/Drain.antt)
-- into the database: process_queued_click, record_topup and adjust_wallet (wallet.py,
-- Billing/Wallet.antt and Billing/Topup.antt) charge and credit the prepaid wallets at the rates of rates.py
-- (Billing/Rates.antt) and write events to an outbox (events.py, Billing/Events.antt), which
-- producer.py sends to Kafka (Billing/Producer.antt). consumer.py keeps the read model of the sellers
-- (Billing/Consumer.antt), reporting.py compares clicks with transactions (Billing/Reporting.antt).
-- Billing/Models.antt and Billing/Database.antt are the tables, Billing/History.antt the transactions
-- one after another.
--
-- Fitment (services/fitment/src/fitment) decides which vehicles a part fits: resolver.py finds the
-- vehicle of a hint (Fitment/Resolver.antt), inference.py computes verdicts from sellers' claims
-- (Fitment/Inference.antt) and stores them for each offer of a group (Fitment/Recompute.antt),
-- producer.py queues the events (Fitment/Outbox.antt), and consumers.py applies the decisions of
-- reviewers (Fitment/Decisions.antt). The tables are in Fitment/Models.antt.
--
-- Catalog (services/catalog/src/catalog): pricing.py (Catalog/Pricing.antt), the tier and the counters
-- of trust.py (Catalog/Trust.antt), and the handlers of consumers/handlers.py for the events about
-- fitments, vehicles, cross-references and clicks (Catalog/Feed.antt, with the rows in
-- Catalog/Tables.antt); their calls of rebuild_product are a list of the model.
--
-- Search (services/search/src/search): indexer.py keeps a row for each product and vehicle and a
-- document for each published product in a search engine (Search/Indexer.antt, Search/Documents.antt); the
-- codes of a document are all those that cross-references connect to the product's own
-- (Search/Graph.antt), so an event about a cross-reference indexes products again (Search/Crossrefs.antt),
-- as does a decision on a synonym (Search/Synonyms.antt). The tables, payloads and documents are in
-- Search/Models.antt.
--
-- AI (services/ai/src/ai): service.py answers a request from the cache of cache.py (Ai/Cache.antt) or,
-- if the guard of budget.py allows it (Ai/Budget.antt), calls a model, asks it once for a repair of an
-- answer that does not validate (Ai/Schema.antt, with offer_fields.py), and stores what does
-- (Ai/Service.antt, Ai/Repair.antt, Ai/Extract.antt and Ai/Judge.antt). JSON values are in Ai/Json.antt.
--
-- How state corresponds: a database is a record of lists of rows, newest first; code under
-- `transaction.atomic` is a function of the database that gives a result and the new database, or an
-- exception and no change. A UUID is a number, an instant a number of microseconds (of seconds in
-- tokens.py and click_queue.py), toman are signed integers, decimals are millionths and the confidence
-- of a verdict is in hundredths. An f-string that serves as a key is a constructor with its parts, and
-- its parts determine it. Rows that an `order_by` leaves equal are taken in the order of the table,
-- and so are rows that the code reads in the default order of their model (Meta.ordering of Offer and
-- Vehicle in the fitment service): the model takes these tables to be stored in that order. The issue
-- time of a token is not negative. A float of the daily budget is the number of its IEEE 754 bits, none
-- of which is negative or not a number.
--
-- Parameters: the parsers and printers of dates and UUIDs, fresh UUIDs and the clock (the records Env,
-- Draws), JSON, base64 and HMAC (Codec), Redis (the record Redis, with its documented behaviour in
-- IsKeyStore and IsQueueStore), the JSON schema of a message, the Kafka publisher, regular expressions
-- and Unicode normalization; the embeddings and hashes of the search service (Env); and what the AI
-- service is answered from outside: Redis, the model, the clock, pydantic's conversions (Outside, Coercion)
-- and the arithmetic of floats (Floats).
--
-- Fuel: the loop that recovers clicks in flight runs on one more step than there are such clicks,
-- which is enough for it to find the queue empty. The walk over cross-references runs on one more step
-- than the seeds and the ends of the edges are together. All other loops are structural.
--
-- Not modelled: the ranges of integer columns, timestamps that the database sets, the unique request
-- ids of the fitment service, logging and metrics, HTTP handlers, admin pages and settings,
-- floating-point scores, the rebuild of products, the queries of the search service, embeddings, and the
-- crawler, and the catalog's handlers of offers.enriched and clusters.changed.
pub mod Prelude
pub mod Ai
pub mod Billing
pub mod Catalog
pub mod Fitment
pub mod Search
