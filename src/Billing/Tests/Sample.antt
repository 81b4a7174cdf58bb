-- ===== src/Billing/Tests/Sample.antt =====
-- A seller, its rate and its clicks.
use yadakchi.Prelude.{ℕ, String, true, false, Option, none, some, [], ◌∷◌, str_eq, if◌then◌else◌}
use yadakchi.Prelude.Int.{pos}
use yadakchi.Billing.Models.{
  Seller, CpcRate, QueuedClick, OutboxEvent, plain, clicks_recorded, no_payload,
}
use yadakchi.Billing.Database.{Db}
use yadakchi.Billing.Events.{Datetime, Env}
use yadakchi.Billing.Wallet.{Draws}
use yadakchi.Billing.Queue.{Limits}
use yadakchi.Billing.Consumer.{SellerMessage}

-- `"u1"`, `"u2"` and `"u3"` stand for UUIDs.
abbrev uuid_at : String → Option ℕ
uuid_at t =
    if str_eq t "u1"
    then some 1
    else if str_eq t "u2"
    then some 2
    else if str_eq t "u3"
    then some 3
    else none

abbrev time_at : String → Option Datetime
time_at t =
    if str_eq t "noon"
    then some (record { has_tzinfo = true; instant = 500 })
    else if str_eq t "evening"
    then some (record { has_tzinfo = true; instant = 900 })
    else none

abbrev pub sample_env : Env
sample_env = record {
  parse_uuid = uuid_at;
  show_uuid = λ n. "u";
  parse_datetime = time_at;
  utc_string = λ t. "t";
  velocity_window = 60;
}

abbrev pub sample_draws : ℕ → Draws
sample_draws n = record { transaction = n; state_event = n; click_event = n; review_event = n }

abbrev pub ali : Seller
ali = record {
  seller_key = "ali";
  name = "Ali";
  domain = "ali.example";
  source_key = none;
  is_panel = true;
  tier = "gold";
  trust_score = 900000;
  price_accuracy = none;
  stock_accuracy = none;
  source_updated_at = some 400;
  is_deleted = false;
  wallet_balance_toman = pos 0;
  panel_offers_active = true;
  billing_state_version = 0;
}

abbrev pub band : ℕ → ℕ → CpcRate
band from cost = record {
  rate_id = from;
  name = "band";
  min_price_toman = pos from;
  max_price_toman = none;
  cost_toman = pos cost;
  active = true;
  effective_from = 0;
  effective_to = none;
}

-- A table with the seller and two rates.
abbrev pub sample_db : Db
sample_db = record {
  sellers = ali ∷ [];
  rates = band 0 30 ∷ band 500 70 ∷ [];
  clicks = [];
  transactions = [];
  processed = [];
  outbox = [];
}

abbrev pub sample_click : String → QueuedClick
sample_click id = record {
  click_id = id;
  product_uid = "u3";
  offer_uid = "offer";
  seller_key = "ali";
  price_toman = some (pos 900);
  is_panel_offer = true;
  occurred_at = "noon";
  trace_id = "trace";
  ip_hash = "ip";
  user_agent_hash = "agent";
  fingerprint_hash = "print";
  fraud_reasons = [];
  is_suspicious = false;
  velocity_anomaly = false;
  velocity_count = 1;
  velocity_bucket = "8";
}

abbrev pub sample_limits : Limits
sample_limits = record {
  token_ttl = 300;
  ip_window = 60;
  ip_limit = 20;
  repeat_seconds = 600;
  velocity_window = 60;
  velocity_limit = 100;
}

-- A queue entry is the id of its click, and `"broken"` does not parse.
abbrev pub parse_sample : String → Option QueuedClick
parse_sample raw = if str_eq raw "broken" then none else some (sample_click raw)

abbrev pub sample_event : ℕ → OutboxEvent
sample_event n = record {
  event_id = n;
  topic = clicks_recorded;
  message_key = plain "u3";
  natural_key = plain "u1";
  body = record {
    event_id = n;
    event_type = "clicks.recorded";
    version = 1;
    occurred_at = "t";
    producer = "billing";
    trace_id = "trace";
    payload = no_payload;
  };
  published_at = none;
  publish_attempts = 0;
  last_error = "";
}

abbrev pub sample_message : SellerMessage
sample_message = record {
  event_id = "u1";
  occurred_at = "noon";
  trace_id = "trace";
  payload = some (record {
    seller_key = "ali";
    name = "Ali and sons";
    domain = "ali.example";
    source_key = none;
    is_panel = true;
    tier = "gold";
    trust_score = 800000;
    price_accuracy = none;
    stock_accuracy = none;
    updated_at = "noon";
  });
}
