-- ===== src/Billing/Models.antt =====
-- The rows of billing/models.py, the queued click of billing/click_queue.py and the bodies of the
-- events of billing/events.py. A UUID is its 128-bit number, an instant a number of microseconds,
-- an amount in toman a signed integer. The columns `created_at`, `updated_at` and `processed_at`
-- (auto_now) are written and never read, and are left out.
use yadakchi.Prelude.{ℕ, String, Bool, Option, List}
use yadakchi.Prelude.Int.{ℤ}

-- Trust and accuracy are decimals with six places: a number of millionths.
pub record Seller : Type 0 where
  pub seller_key : String
  pub name : String
  pub domain : String
  pub source_key : Option String
  pub is_panel : Bool
  pub tier : String
  pub trust_score : ℕ
  pub price_accuracy : Option ℕ
  pub stock_accuracy : Option ℕ
  pub source_updated_at : Option ℕ
  pub is_deleted : Bool
  pub wallet_balance_toman : ℤ
  pub panel_offers_active : Bool
  pub billing_state_version : ℕ

pub record CpcRate : Type 0 where
  pub rate_id : ℕ
  pub name : String
  pub min_price_toman : ℤ
  pub max_price_toman : Option ℤ
  pub cost_toman : ℤ
  pub active : Bool
  pub effective_from : ℕ
  pub effective_to : Option ℕ

pub record ClickEvent : Type 0 where
  pub click_id : ℕ
  pub product_uid : ℕ
  pub offer_uid : String
  pub seller_key : String
  pub price_toman : Option ℤ
  pub is_panel_offer : Bool
  pub cost_toman : ℤ
  pub is_suspicious : Bool
  pub fraud_reasons : List String
  pub ip_hash : String
  pub user_agent_hash : String
  pub fingerprint_hash : String
  pub rate : Option ℕ
  pub occurred_at : ℕ

pub data Kind : Type 0 where
  charge topup manual : Kind

pub record WalletTransaction : Type 0 where
  pub transaction_id : ℕ
  pub seller : String
  pub kind : Kind
  pub amount_toman : ℤ
  pub balance_after_toman : ℤ
  pub click : Option ℕ
  pub reference : Option String
  pub occurred_at : ℕ

pub record ProcessedEvent : Type 0 where
  pub event_id : ℕ
  pub topic : String
  pub natural_key : String

-- The f-strings that serve as message and natural keys, by their parts. Two of them are the same
-- text only if they are the same value here: a version and a bucket are digits, and a UUID has a
-- fixed length.
pub data EventKey : Type 0 where
  plain : String → EventKey
  state_of : String → ℕ → EventKey
  tombstone_of : String → ℕ → EventKey
  velocity_of : String → String → EventKey

pub data Topic : Type 0 where
  clicks_recorded seller_billing_changed review_requested : Topic

pub record ClickPayload : Type 0 where
  pub click_id : String
  pub product_uid : String
  pub offer_uid : String
  pub seller_key : String
  pub cost_toman : ℤ
  pub is_suspicious : Bool
  pub occurred_at : String

pub record BillingPayload : Type 0 where
  pub seller_key : String
  pub panel_offers_active : Bool
  pub suspension_reason : Option String
  pub updated_at : String

pub record ReviewPayload : Type 0 where
  pub request_uid : EventKey
  pub kind : String
  pub priority : ℕ
  pub seller_key : String
  pub click_count : ℕ
  pub window_seconds : ℕ
  pub rule : String
  pub requested_at : String

pub data Payload : Type 0 where
  no_payload : Payload
  click_payload : ClickPayload → Payload
  billing_payload : BillingPayload → Payload
  review_payload : ReviewPayload → Payload

pub record EventBody : Type 0 where
  pub event_id : ℕ
  pub event_type : String
  pub version : ℕ
  pub occurred_at : String
  pub producer : String
  pub trace_id : String
  pub payload : Payload

pub record OutboxEvent : Type 0 where
  pub event_id : ℕ
  pub topic : Topic
  pub message_key : EventKey
  pub natural_key : EventKey
  pub body : EventBody
  pub published_at : Option ℕ
  pub publish_attempts : ℕ
  pub last_error : String

pub record QueuedClick : Type 0 where
  pub click_id : String
  pub product_uid : String
  pub offer_uid : String
  pub seller_key : String
  pub price_toman : Option ℤ
  pub is_panel_offer : Bool
  pub occurred_at : String
  pub trace_id : String
  pub ip_hash : String
  pub user_agent_hash : String
  pub fingerprint_hash : String
  pub fraud_reasons : List String
  pub is_suspicious : Bool
  pub velocity_anomaly : Bool
  pub velocity_count : ℕ
  pub velocity_bucket : String
