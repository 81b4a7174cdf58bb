-- ===== src/Billing/Consumer/Order.antt =====
-- Messages of billing/consumer.py that come twice.
use yadakchi.Prelude.{
  ◌≡◌, refl, inl, inr, ℕ, String, Bool, true, false, some, List, ◌∷◌, arith, Bool-cases,
  Option-cases,
}
use yadakchi.Billing.Models.{ProcessedEvent}
use yadakchi.Billing.Database.{Db, Result, ok, err, pure, ◌>>◌}
use yadakchi.Billing.Events.{Env}
use yadakchi.Billing.Consumer.{
  SellerMessage, is_processed, apply_payload, process_seller_event, sellers_changed_topic,
  mark_processed,
}

-- A database that has processed the event leaves a message about it alone.
known-again :
    (env : Env) (is_valid : SellerMessage → Bool) (draw id : ℕ) (message : SellerMessage)
    (key : String) (db : Db)
    → is_valid message ≡ true
    → env.parse_uuid message.event_id ≡ some id
    → is_processed id db.processed ≡ true
    → process_seller_event env is_valid draw message key db ≡ ok (false, db)
unfolding process_seller_event
known-again env is_valid draw id message key db good parsed known =
    rw (process_seller_event, good, parsed, known) refl

-- The marker of an event makes it known.
is_processed-head :
    (id : ℕ) (topic key : String) (done : List ProcessedEvent)
    → is_processed id (record { event_id = id; topic = topic; natural_key = key } ∷ done) ≡ true
unfolding is_processed
is_processed-head id topic key done = ground arith

-- The end of the transaction, after the payload was applied.
abbrev finish : ℕ → String → Result (Unit × Db) → Result (Bool × Db)
finish id key (ok (a, db)) = (do mark_processed id key; pure true) db
finish id key (err e) = err e

-- After the marker is written the event is known.
marked :
    (id : ℕ) (key : String) (r : Result (Unit × Db)) (db' : Db)
    → finish id key r ≡ ok (true, db')
    → is_processed id db'.processed ≡ true
marked id key (err e) db' h = absurd (cc h)
marked id key (ok (a, db)) db' h =
    let written : record db {
      processed =
          record { event_id = id; topic = sellers_changed_topic; natural_key = key } ∷ db.processed;
    }
        ≡ db' =
      cc h in
    rw (← written) (is_processed-head id sellers_changed_topic key db.processed)

-- A message about a seller that was applied, and comes again, is recognised by its event id: it is
-- not applied, and the tables stay as they are.
pub process_seller_event_again :
    (env : Env) (is_valid : SellerMessage → Bool) (draw draw' : ℕ) (message : SellerMessage)
    (key : String) (db db' : Db)
    → process_seller_event env is_valid draw message key db ≡ ok (true, db')
    → process_seller_event env is_valid draw' message key db' ≡ ok (false, db')
unfolding process_seller_event is_processed
process_seller_event_again env is_valid draw draw' message key db db' done =
    elim (Bool-cases (is_valid message)) [
      | inr bad ↦ absurd (cc (rw (process_seller_event, bad) at done))
      | inl good ↦ elim (Option-cases (env.parse_uuid message.event_id)) [
        | inl unparsed ↦ absurd (cc (rw (process_seller_event, good, unparsed) at done))
        | inr (id, parsed) ↦ elim (Bool-cases (is_processed id db.processed)) [
          | inl known ↦ absurd (cc (rw (process_seller_event, good, parsed, known) at done))
          | inr fresh ↦ known-again env is_valid draw' id message key db' good parsed (
              marked id key (apply_payload env message key id draw message.payload db) db'
                (rw (process_seller_event, good, parsed, fresh) at done))
        ]
      ]
    ]
