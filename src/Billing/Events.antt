-- ===== src/Billing/Events.antt =====
-- billing/events.py, and what the service takes from outside: parsers and printers of the standard
-- library and Django, settings, and fresh UUIDs.
use yadakchi.Prelude.{ℕ, String, Bool, Option, none, ◌&&◌, ◌∷◌, if◌then◌else◌, exists}
use yadakchi.Billing.Models.{
  Seller, EventKey, plain, state_of, Topic, seller_billing_changed, Payload, billing_payload,
}
use yadakchi.Billing.Database.{Db, Tx, ok, err, integrity_error, topic_eq, event_key_eq}

-- A parsed `datetime`: its instant, and whether it names its time zone.
pub record Datetime : Type 0 where
  pub has_tzinfo : Bool
  pub instant : ℕ

-- `UUID(text)`, `str(uuid)`, Django's `parse_datetime`, the ISO text of an instant, and
-- `SELLER_VELOCITY_WINDOW_SECONDS`.
pub record Env : Type 0 where
  pub parse_uuid : String → Option ℕ
  pub show_uuid : ℕ → String
  pub parse_datetime : String → Option Datetime
  pub utc_string : ℕ → String
  pub velocity_window : ℕ

-- Whether the unique constraint on (topic, natural_key) is taken.
abbrev pub is_queued : Topic → EventKey → Db → Bool
is_queued topic key db =
    exists (λ e. topic_eq e.topic topic && event_key_eq e.natural_key key) db.outbox

-- `event_id` is the UUID that the call draws.
unfoldable pub add_outbox_event :
    Env → Topic → EventKey → EventKey → String → ℕ → String → Payload → ℕ → Tx Unit
add_outbox_event env topic message_key natural_key event_type occurred_at trace_id payload event_id
      db =
    if is_queued topic natural_key db
    then err integrity_error
    else ok (
      tt,
      record db {
        outbox =
            record {
              event_id = event_id;
              topic = topic;
              message_key = message_key;
              natural_key = natural_key;
              body = record {
                event_id = event_id;
                event_type = event_type;
                version = 1;
                occurred_at = env.utc_string occurred_at;
                producer = "billing";
                trace_id = trace_id;
                payload = payload;
              };
              published_at = none;
              publish_attempts = 0;
              last_error = "";
            }
            ∷ db.outbox;
      },
    )

unfoldable pub add_seller_billing_state_event :
    Env → Seller → Option String → ℕ → String → ℕ → Tx Unit
unfolding add_outbox_event
add_seller_billing_state_event env seller reason occurred_at trace_id event_id =
    add_outbox_event env seller_billing_changed (plain seller.seller_key)
      (state_of seller.seller_key seller.billing_state_version) "seller_billing.changed" occurred_at
      trace_id
      (billing_payload (record {
        seller_key = seller.seller_key;
        panel_offers_active = seller.panel_offers_active;
        suspension_reason = reason;
        updated_at = env.utc_string occurred_at;
      }))
      event_id
