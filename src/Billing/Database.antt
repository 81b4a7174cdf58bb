-- ===== src/Billing/Database.antt =====
-- The tables of billing/models.py as lists of rows, newest first, and a database transaction: code
-- under `transaction.atomic` gives a result and the new tables, or raises and changes nothing.
-- The queries of the code (`filter`, `first`, `exists`, `create`, `save`) are list operations.
pub mod Ensures
use yadakchi.Prelude.{
  ℕ, Bool, true, false, ◌&&◌, Option, none, some, List, ◌∷◌, String, str_eq, ◌==◌, if◌then◌else◌,
  find, update_where,
}
use yadakchi.Billing.Models.{
  Seller, CpcRate, ClickEvent, WalletTransaction, ProcessedEvent, OutboxEvent, EventKey, plain,
  state_of, tombstone_of, velocity_of, Topic, clicks_recorded, seller_billing_changed,
  review_requested,
}

pub record Db : Type 0 where
  pub sellers : List Seller
  pub rates : List CpcRate
  pub clicks : List ClickEvent
  pub transactions : List WalletTransaction
  pub processed : List ProcessedEvent
  pub outbox : List OutboxEvent

-- The exceptions that the code raises, or lets through.
pub data Fault : Type 0 where
  seller_unavailable : String → Fault
  value_error does_not_exist integrity_error validation_error : Fault

pub data Result (A : Type 0) : Type 0 where
  ok : A → Result A
  err : Fault → Result A

abbrev pub Tx : Type 0 → Type 0
Tx A = Db → Result (A × Db)

module _ {A : Type 0} where
  abbrev pub pure : A → Tx A
  pure a db = ok (a, db)

  abbrev pub raise : Fault → Tx A
  raise e db = err e

  abbrev pub or_raise : Option A → Fault → Tx A
  or_raise none e = raise e
  or_raise (some a) e = pure a

infixl 5 ◌>>=◌ ◌>>◌
abbrev pub ◌>>=◌ : {A B : Type 0} → Tx A → (A → Tx B) → Tx B
◌>>=◌ m f db = elim (m db) [ ok (a, db') ↦ f a db' | err e ↦ err e ]

abbrev pub ◌>>◌ : {A B : Type 0} → Tx A → Tx B → Tx B
m >> k = m >>= λ _. k

abbrev pub raise_if : Bool → Fault → Tx Unit
raise_if c e db = if c then err e else ok (tt, db)

-- The tables after a call: a fault rolls back.
abbrev pub after : {A : Type 0} → Result (A × Db) → Db → Db
after (ok (a, db')) db = db'
after (err e) db = db

-- `Seller.objects.filter(seller_key=key).first()`
abbrev pub seller_of : String → List Seller → Option Seller
seller_of key = find (λ s. str_eq s.seller_key key)

-- `seller.save(...)` writes the row with the seller's primary key.
abbrev pub save_row : Seller → List Seller → List Seller
save_row seller = update_where (λ s. str_eq s.seller_key seller.seller_key) (λ _. seller)

abbrev pub save_seller : Seller → Tx Unit
save_seller seller db = ok (tt, record db { sellers = save_row seller db.sellers })

-- `ClickEvent.objects.filter(click_id=click_id).first()`
abbrev pub click_of : ℕ → List ClickEvent → Option ClickEvent
click_of click_id = find (λ c. c.click_id == click_id)

abbrev has_reference : String → Option String → Bool
has_reference reference none = false
has_reference reference (some r) = str_eq r reference

-- `WalletTransaction.objects.filter(reference=reference).first()`
abbrev pub transaction_of : String → List WalletTransaction → Option WalletTransaction
transaction_of reference = find (λ t. has_reference reference t.reference)

abbrev pub create_click : ClickEvent → Tx Unit
create_click click db = ok (tt, record db { clicks = click ∷ db.clicks })

abbrev pub create_transaction : WalletTransaction → Tx Unit
create_transaction t db = ok (tt, record db { transactions = t ∷ db.transactions })

abbrev pub topic_eq : Topic → Topic → Bool
topic_eq clicks_recorded clicks_recorded = true
topic_eq seller_billing_changed seller_billing_changed = true
topic_eq review_requested review_requested = true
topic_eq _ _ = false

abbrev pub event_key_eq : EventKey → EventKey → Bool
event_key_eq (plain a) (plain b) = str_eq a b
event_key_eq (state_of k v) (state_of j w) = str_eq k j && (v == w)
event_key_eq (tombstone_of k v) (tombstone_of j w) = str_eq k j && (v == w)
event_key_eq (velocity_of k v) (velocity_of j w) = str_eq k j && str_eq v w
event_key_eq _ _ = false
