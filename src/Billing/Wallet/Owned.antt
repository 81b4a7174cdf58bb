-- ===== src/Billing/Wallet/Owned.antt =====
-- The foreign key of billing/models.py from a wallet transaction to its seller.
use yadakchi.Prelude.{
  ◌≡◌, refl, ℕ, String, true, some, List, [], ◌∷◌, arith, str_eq_iff, All, is_some, ◌∙◌,
}
use yadakchi.Prelude.Int.{ℤ}
use yadakchi.Billing.Models.{Seller, WalletTransaction, QueuedClick, topup, manual}
use yadakchi.Billing.Database.{Db, seller_of, save_row}
use yadakchi.Billing.Database.Ensures.{Ensures}
use yadakchi.Billing.Rates.{resolve_cpc_rate}
use yadakchi.Billing.Events.{Env}
use yadakchi.Billing.Wallet.{Draws, charge_row, charged, suspended, new_click, process_queued_click}
use yadakchi.Billing.Topup.{wallet_row, credited, adjusted, record_topup, adjust_wallet}
use yadakchi.Billing.Wallet.Rules.{
  after_charge, after_suspension, settle-keeps, write_click-keeps, record_click-Ensures,
  process_queued_click-Ensures, credit-keeps, adjust-keeps, record_topup-Ensures,
  adjust_wallet-Ensures,
}

-- Every transaction is on the wallet of a seller in the table.
abbrev pub IsOwned : Db → Type 0
IsOwned db = All (λ t. is_some (seller_of t.seller db.sellers) ≡ true) db.transactions

pub seller_of-save_row :
    (key : String) (s : Seller) (rows : List Seller)
    → is_some (seller_of key (save_row s rows)) ≡ is_some (seller_of key rows)
seller_of-save_row key s [] = refl
seller_of-save_row key s (x ∷ rows) = ground (
  arith,
  seller_of-save_row key s rows,
  str_eq_iff x.seller_key s.seller_key,
  str_eq_iff x.seller_key key,
  str_eq_iff s.seller_key key,
)

pub owned-save_row :
    (s : Seller) (rows : List Seller) (ts : List WalletTransaction)
    → All (λ t. is_some (seller_of t.seller rows) ≡ true) ts
    → All (λ t. is_some (seller_of t.seller (save_row s rows)) ≡ true) ts
owned-save_row s rows [] h = tt
owned-save_row s rows (t ∷ ts) h =
    (seller_of-save_row t.seller s rows ∙ h.0, owned-save_row s rows ts h.1)

pub owned-cons :
    (s : Seller) (rows : List Seller) (ts : List WalletTransaction)
    → All (λ t. is_some (seller_of t.seller rows) ≡ true) ts
    → All (λ t. is_some (seller_of t.seller (s ∷ rows)) ≡ true) ts
owned-cons s rows [] h = tt
owned-cons s rows (t ∷ ts) h = (ground arith, owned-cons s rows ts h.1)

found-is_some :
    (key : String) (rows : List Seller) (s : Seller)
    → seller_of key rows ≡ some s
    → is_some (seller_of s.seller_key rows) ≡ true
found-is_some key [] s e = absurd (cc)
found-is_some key (x ∷ rows) s e =
    ground (arith, found-is_some key rows s, str_eq_iff x.seller_key s.seller_key)

-- One more transaction, on the wallet of a seller that was found and is saved as `s'`.
IsOwned-post :
    (key : String) (s s' : Seller) (t : WalletTransaction) (db : Db)
    → seller_of key db.sellers ≡ some s
    → t.seller ≡ s.seller_key
    → IsOwned db
    → IsOwned (record db { sellers = save_row s' db.sellers; transactions = t ∷ db.transactions })
IsOwned-post key s s' t db found e h = (
  seller_of-save_row t.seller s' db.sellers ∙ rw e (found-is_some key db.sellers s found),
  owned-save_row s' db.sellers db.transactions h,
)

IsOwned-suspension : (s : Seller) (db : Db) → IsOwned db → IsOwned (after_suspension s db)
IsOwned-suspension s db h = owned-save_row (suspended s) db.sellers db.transactions h

pub process_queued_click-IsOwned :
    (env : Env) (draws : Draws) (queued : QueuedClick) (db : Db)
    → IsOwned db
    → Ensures (λ _. IsOwned) (process_queued_click env draws queued db)
process_queued_click-IsOwned env draws queued db h =
    process_queued_click-Ensures (λ _. IsOwned) env draws queued db (λ _ _ _ _. h)
      λ click_id _ absent.
        record_click-Ensures (λ _. IsOwned) env draws queued click_id db
          λ s at product_uid found.
            let rate = resolve_cpc_rate queued.price_toman at db.rates in
            let click = new_click queued click_id product_uid at s rate in
            let s' = charged s click.cost_toman in
            let posted =
              IsOwned-post queued.seller_key s s' (charge_row draws s click) db found refl h in
            write_click-keeps IsOwned (λ _ _ k. k) env draws queued s rate click db
              (settle-keeps IsOwned (λ _ _ k. k) env draws queued s rate click _ (λ _. posted)
                (λ _. IsOwned-suspension s' (after_charge draws s click db) posted) (λ _. h)
                (λ _. IsOwned-suspension s db h))

pub record_topup-IsOwned :
    (env : Env) (draws : Draws) (key : String) (amount : ℤ) (reference : String) (now : ℕ) (db : Db)
    → IsOwned db
    → Ensures (λ _. IsOwned) (record_topup env draws key amount reference now db)
record_topup-IsOwned env draws key amount reference now db h =
    record_topup-Ensures (λ _. IsOwned) env draws key amount reference now db (λ _ _ _ _. h)
      λ s _ found _.
        credit-keeps IsOwned (λ _ _ k. k) env draws s amount reference now db
          (IsOwned-post key s (credited s amount) (wallet_row draws s topup amount reference now) db
            found refl h)

pub adjust_wallet-IsOwned :
    (env : Env) (draws : Draws) (key : String) (amount : ℤ) (reference : String) (now : ℕ) (db : Db)
    → IsOwned db
    → Ensures (λ _. IsOwned) (adjust_wallet env draws key amount reference now db)
adjust_wallet-IsOwned env draws key amount reference now db h =
    adjust_wallet-Ensures (λ _. IsOwned) env draws key amount reference now db
      λ s _ found _.
        adjust-keeps IsOwned (λ _ _ k. k) env draws s amount reference now db
          λ _.
            IsOwned-post key s (adjusted s amount) (wallet_row draws s manual amount reference now)
              db found refl h
