-- ===== src/Billing/Consumer.antt =====
-- billing/consumer.py: the read model of sellers, from the topic `sellers.changed`.
pub mod Invariants
pub mod Order
use yadakchi.Prelude.{
  ℕ, String, Bool, true, false, not, Option, none, some, List, [], ◌∷◌, ltb, ◌==◌, if◌then◌else◌,
  str_eq, find, is_some,
}
use yadakchi.Prelude.Int.{pos}
use yadakchi.Billing.Models.{
  Seller, ProcessedEvent, plain, tombstone_of, seller_billing_changed, Payload,
}
use yadakchi.Billing.Database.{
  Db, Tx, value_error, validation_error, pure, raise, or_raise, raise_if, ◌>>=◌, ◌>>◌, seller_of,
  save_seller, save_row, ok,
}
use yadakchi.Billing.Events.{Env, add_outbox_event}
use yadakchi.Billing.Wallet.{parse_occurred_at}

-- The payload of a message; the decimals in millionths.
pub record SellerPayload : Type 0 where
  pub seller_key : String
  pub name : String
  pub domain : String
  pub source_key : Option String
  pub is_panel : Bool
  pub tier : String
  pub trust_score : ℕ
  pub price_accuracy : Option ℕ
  pub stock_accuracy : Option ℕ
  pub updated_at : String

pub record SellerMessage : Type 0 where
  pub event_id : String
  pub occurred_at : String
  pub trace_id : String
  pub payload : Option SellerPayload

abbrev pub sellers_changed_topic : String
sellers_changed_topic = "yadakchi.sellers.changed.v1"

-- `ProcessedEvent.objects.filter(event_id=event_id).exists()`
unfoldable pub is_processed : ℕ → List ProcessedEvent → Bool
is_processed event_id rows = is_some (find (λ e. e.event_id == event_id) rows)

-- `source_updated_at is None or updated_at > source_updated_at`
abbrev pub is_newer : ℕ → Option ℕ → Bool
is_newer at none = true
is_newer at (some old) = ltb old at

abbrev pub deleted_at : ℕ → Seller → Seller
deleted_at at s = record s {
  is_deleted = true;
  is_panel = false;
  panel_offers_active = false;
  source_updated_at = some at;
}

-- The branch of a tombstone, `payload is None`.
unfoldable pub apply_tombstone : Env → String → String → ℕ → ℕ → ℕ → Option Seller → Tx Unit
apply_tombstone env key trace_id event_id draw at none = pure tt
apply_tombstone env key trace_id event_id draw at (some s) =
    if is_newer at s.source_updated_at
    then (do
      save_seller (deleted_at at s)
      add_outbox_event env seller_billing_changed (plain key) (tombstone_of key event_id)
          "seller_billing.changed" at trace_id Payload.no_payload draw)
    else pure tt

-- The columns in `defaults`, over a row that keeps the others.
abbrev pub refreshed : SellerPayload → ℕ → Seller → Seller
refreshed p at s = record s {
  name = p.name;
  domain = p.domain;
  source_key = p.source_key;
  is_panel = p.is_panel;
  tier = p.tier;
  trust_score = p.trust_score;
  price_accuracy = p.price_accuracy;
  stock_accuracy = p.stock_accuracy;
  source_updated_at = some at;
  is_deleted = false;
}

-- A row with the defaults of the model for the columns that billing owns.
abbrev pub new_seller : SellerPayload → ℕ → Seller
new_seller p at = record {
  seller_key = p.seller_key;
  name = p.name;
  domain = p.domain;
  source_key = p.source_key;
  is_panel = p.is_panel;
  tier = p.tier;
  trust_score = p.trust_score;
  price_accuracy = p.price_accuracy;
  stock_accuracy = p.stock_accuracy;
  source_updated_at = some at;
  is_deleted = false;
  wallet_balance_toman = pos 0;
  panel_offers_active = true;
  billing_state_version = 0;
}

-- `Seller.objects.update_or_create` under the test of the timestamps.
unfoldable pub upsert_seller : SellerPayload → ℕ → Option Seller → Tx Unit
upsert_seller p at none db = ok (tt, record db { sellers = new_seller p at ∷ db.sellers })
upsert_seller p at (some s) db =
    if is_newer at s.source_updated_at then save_seller (refreshed p at s) db else ok (tt, db)

-- The branches on `payload`.
unfoldable pub apply_payload : Env → SellerMessage → String → ℕ → ℕ → Option SellerPayload → Tx Unit
apply_payload env message key event_id draw none db =
    (do
      at ← parse_occurred_at env message.occurred_at
      apply_tombstone env key message.trace_id event_id draw at (seller_of key db.sellers))
      db
apply_payload env message key event_id draw (some p) db =
    (do
      raise_if (not (str_eq p.seller_key key)) value_error
      at ← parse_occurred_at env p.updated_at
      upsert_seller p at (seller_of p.seller_key db.sellers))
      db

abbrev mark_processed : ℕ → String → Tx Unit
mark_processed event_id key db = ok (
  tt,
  record db {
    processed =
        record { event_id = event_id; topic = sellers_changed_topic; natural_key = key }
        ∷ db.processed;
  },
)

-- `is_valid` is the JSON schema of the consumed contract; `draw` is a fresh UUID. The result tells
-- whether the message was applied now.
unfoldable pub process_seller_event :
    Env → (SellerMessage → Bool) → ℕ → SellerMessage → String → Tx Bool
process_seller_event env is_valid draw message key db =
    (do
      raise_if (not (is_valid message)) validation_error
      event_id ← or_raise (env.parse_uuid message.event_id) value_error
      if is_processed event_id db.processed then pure false else do
        apply_payload env message key event_id draw message.payload
        mark_processed event_id key
        pure true)
      db
