-- ===== src/Billing/Consumer/Invariants.antt =====
-- billing/consumer.py and the books of billing/wallet.py.
use yadakchi.Prelude.{
  ◌≡◌, refl, ℕ, String, Bool, true, not, Option, none, some, List, [], ◌∷◌, arith, str_eq,
  str_eq_iff, All, All-find, inl, inr, Bool-cases, is_some,
}
use native.Mathlib.Nat.{le_refl}
use yadakchi.Prelude.Int.{pos}
use yadakchi.Billing.Models.{Seller, WalletTransaction, OutboxEvent, ProcessedEvent}
use yadakchi.Billing.Database.{Db, seller_of, save_row, value_error, validation_error}
use yadakchi.Billing.Database.Ensures.{
  Ensures, Ensures-bind, Ensures-if, Ensures-raise_if, Ensures-or_raise,
}
use yadakchi.Billing.Events.{Env}
use yadakchi.Billing.Wallet.{parse_occurred_at}
use yadakchi.Billing.Wallet.Rules.{add_outbox_event-keeps, parse_occurred_at-Ensures}
use yadakchi.Billing.Wallet.Ledger.{IsLedger, IsSettled, ledger_sum, save_row-IsSettled}
use yadakchi.Billing.Wallet.Owned.{IsOwned, owned-save_row, owned-cons}
use yadakchi.Billing.Consumer.{
  SellerPayload, SellerMessage, is_processed, is_newer, deleted_at, refreshed, new_seller,
  apply_tombstone, upsert_seller, apply_payload, process_seller_event,
}

-- An invariant that reads neither the outbox nor the processed messages, and survives the three
-- writes of a seller row.
module _ (I : Db → Type 0)
    (frame : (db : Db) (rows : List OutboxEvent) → I db → I (record db { outbox = rows }))
    (mark : (db : Db) (rows : List ProcessedEvent) → I db → I (record db { processed = rows }))
    (env : Env) (db : Db) (h : I db)
    (remove : (key : String) (s : Seller) (at : ℕ)
      → seller_of key db.sellers ≡ some s
      → I (record db { sellers = save_row (deleted_at at s) db.sellers }))
    (refresh : (s : Seller) (p : SellerPayload) (at : ℕ)
      → seller_of p.seller_key db.sellers ≡ some s
      → I (record db { sellers = save_row (refreshed p at s) db.sellers }))
    (create : (p : SellerPayload) (at : ℕ)
      → seller_of p.seller_key db.sellers ≡ none
      → I (record db { sellers = new_seller p at ∷ db.sellers })) where
  apply_tombstone-keeps :
      (key trace : String) (event_id draw at : ℕ) (o : Option Seller)
      → seller_of key db.sellers ≡ o
      → Ensures (λ _. I) (apply_tombstone env key trace event_id draw at o db)
  unfolding apply_tombstone
  apply_tombstone-keeps key trace event_id draw at none e = h
  apply_tombstone-keeps key trace event_id draw at (some s) e =
      Ensures-if (λ _. I) (is_newer at s.source_updated_at) _ _ db
        (λ _. add_outbox_event-keeps I frame env _ _ _ _ _ _ _ _ _ (remove key s at e)) (λ _. h)

  upsert_seller-keeps :
      (p : SellerPayload) (at : ℕ) (o : Option Seller)
      → seller_of p.seller_key db.sellers ≡ o
      → Ensures (λ _. I) (upsert_seller p at o db)
  unfolding upsert_seller
  upsert_seller-keeps p at none e = create p at e
  upsert_seller-keeps p at (some s) e = grind (arith, refresh s p at e)

  apply_payload-keeps :
      (message : SellerMessage) (key : String) (event_id draw : ℕ) (o : Option SellerPayload)
      → Ensures (λ _. I) (apply_payload env message key event_id draw o db)
  unfolding apply_payload
  apply_payload-keeps message key event_id draw none =
      Ensures-bind (λ _ db'. db' ≡ db) (λ _. I) (parse_occurred_at env message.occurred_at db) _
        (parse_occurred_at-Ensures env message.occurred_at db)
        λ at db' same. rw same (apply_tombstone-keeps key message.trace_id event_id draw at _ refl)
  apply_payload-keeps message key event_id draw (some p) =
      Ensures-raise_if (λ _. I) (not (str_eq p.seller_key key)) value_error _ db
        λ _.
          Ensures-bind (λ _ db'. db' ≡ db) (λ _. I) (parse_occurred_at env p.updated_at db) _
            (parse_occurred_at-Ensures env p.updated_at db)
            λ at db' same. rw same (upsert_seller-keeps p at _ refl)

  pub process_seller_event-keeps :
      (is_valid : SellerMessage → Bool) (draw : ℕ) (message : SellerMessage) (key : String)
      → Ensures (λ _. I) (process_seller_event env is_valid draw message key db)
  unfolding process_seller_event
  process_seller_event-keeps is_valid draw message key =
      Ensures-raise_if (λ _. I) (not (is_valid message)) validation_error _ db
        λ _.
          Ensures-or_raise (λ _. I) (env.parse_uuid message.event_id) value_error _ db
            λ event_id _.
              Ensures-if (λ _. I) (is_processed event_id db.processed) _ _ db (λ _. h)
                λ _.
                  Ensures-bind (λ _. I) (λ _. I)
                    (apply_payload env message key event_id draw message.payload db) _
                    (apply_payload-keeps message key event_id draw message.payload)
                    (λ _ db' h'. mark db' _ h')

-- No transaction is on the wallet of a seller that is not in the table.
unowned-ledger_sum :
    (key : String) (rows : List Seller) (ts : List WalletTransaction)
    → seller_of key rows ≡ none
    → All (λ t. is_some (seller_of t.seller rows) ≡ true) ts
    → ledger_sum key ts ≡ pos 0
unfolding ledger_sum
unowned-ledger_sum key rows [] absent h = refl
unowned-ledger_sum key rows (t ∷ ts) absent h = elim (Bool-cases (str_eq t.seller key)) [
  | inl same ↦ let e = (str_eq_iff t.seller key).0 same in absurd (cc (absent, rw e at h.0))
  | inr other ↦ rw other (unowned-ledger_sum key rows ts absent h.1)
]

abbrev IsBalanced : Db → Type 0
IsBalanced db = IsLedger db × IsOwned db

-- A message about a seller leaves the balances equal to the sums of the transactions.
pub process_seller_event-IsBalanced :
    (env : Env) (is_valid : SellerMessage → Bool) (draw : ℕ) (message : SellerMessage)
    (key : String) (db : Db)
    → IsLedger db
    → IsOwned db
    → Ensures (λ _. IsBalanced) (process_seller_event env is_valid draw message key db)
process_seller_event-IsBalanced env is_valid draw message key db h o =
    process_seller_event-keeps IsBalanced (λ _ _ k. k) (λ _ _ k. k) env db (h, o)
      (λ key' s at found. rewritten key' s (deleted_at at s) refl refl found)
      (λ s p at found. rewritten p.seller_key s (refreshed p at s) refl refl found)
      (λ p at absent. (
        ((le_refl 0, unowned-ledger_sum p.seller_key db.sellers db.transactions absent o), h),
        owned-cons (new_seller p at) db.sellers db.transactions o,
      ))
      is_valid draw message key
  where
    rewritten :
        (key' : String) (s s' : Seller)
        → s'.seller_key ≡ s.seller_key
        → s'.wallet_balance_toman ≡ s.wallet_balance_toman
        → seller_of key' db.sellers ≡ some s
        → IsBalanced (record db { sellers = save_row s' db.sellers })
    rewritten key' s s' k b found =
        let settled : IsSettled db.transactions s =
          All-find (IsSettled db.transactions) _ db.sellers h found in
        (
          save_row-IsSettled db.transactions s' db.sellers (rw (k, b) settled) h,
          owned-save_row s' db.sellers db.transactions o,
        )
