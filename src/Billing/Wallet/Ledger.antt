-- ===== src/Billing/Wallet/Ledger.antt =====
-- Balances and transactions in billing/wallet.py.
use yadakchi.Prelude.{
  ◌≡◌, refl, ◌≢◌, ℕ, String, Option, some, List, [], ◌∷◌, arith, str_eq, str_eq_iff, if◌then◌else◌,
  All, All-find,
}
use yadakchi.Prelude.Int.{ℤ, pos, ◌+ℤ◌, ◌-ℤ◌, ◌≤ℤ◌, ◌<ℤ◌, int_laws}
use yadakchi.Billing.Models.{
  Seller, WalletTransaction, topup, manual, QueuedClick, ClickEvent, CpcRate,
}
use yadakchi.Billing.Database.{Db, seller_of, save_row}
use yadakchi.Billing.Database.Ensures.{Ensures}
use yadakchi.Billing.Rates.{resolve_cpc_rate}
use yadakchi.Billing.Events.{Env}
use yadakchi.Billing.Wallet.Rules.{
  after_charge, settle-keeps, credit-keeps, adjust-keeps, record_topup-Ensures,
  adjust_wallet-Ensures, write_click-keeps, record_click-Ensures, process_queued_click-Ensures,
}
use yadakchi.Billing.Wallet.{
  Draws, suspended, charged, charge_row, click_cost, settle, process_queued_click, new_click,
}
use yadakchi.Billing.Topup.{credited, adjusted, wallet_row, record_topup, adjust_wallet}

-- The sum of the amounts on the wallet of one seller.
unfoldable pub ledger_sum : String → List WalletTransaction → ℤ
ledger_sum key [] = pos 0
ledger_sum key (t ∷ ts) =
    if str_eq t.seller key then t.amount_toman +ℤ ledger_sum key ts else ledger_sum key ts

-- The balance is not negative, and is the sum of the seller's transactions.
abbrev pub IsSettled : List WalletTransaction → Seller → Type 0
IsSettled ts s =
    (pos 0 ≤ℤ s.wallet_balance_toman) × (ledger_sum s.seller_key ts ≡ s.wallet_balance_toman)

abbrev pub IsLedger : Db → Type 0
IsLedger db = All (IsSettled db.transactions) db.sellers

pub save_row-IsSettled :
    (ts : List WalletTransaction) (s : Seller) (rows : List Seller)
    → IsSettled ts s
    → All (IsSettled ts) rows
    → All (IsSettled ts) (save_row s rows)
save_row-IsSettled ts s [] h hs = tt
save_row-IsSettled ts s (x ∷ rows) h hs =
    (ground (arith, str_eq_iff x.seller_key s.seller_key), save_row-IsSettled ts s rows h hs.1)

ledger_sum-post :
    (key : String) (t : WalletTransaction) (ts : List WalletTransaction)
    → t.seller ≡ key
    → ledger_sum key (t ∷ ts) ≡ t.amount_toman +ℤ ledger_sum key ts
unfolding ledger_sum
ledger_sum-post key t ts e = ground (arith, str_eq_iff t.seller key)

-- The seller `s'` is `s` with the amount of `t` added to its balance.
posted-IsSettled :
    (ts : List WalletTransaction) (t : WalletTransaction) (s s' : Seller)
    → t.seller ≡ s.seller_key
    → s'.seller_key ≡ s.seller_key
    → s'.wallet_balance_toman ≡ s.wallet_balance_toman +ℤ t.amount_toman
    → pos 0 ≤ℤ s'.wallet_balance_toman
    → IsSettled ts s
    → IsSettled (t ∷ ts) s'
posted-IsSettled ts t s s' e k b p h =
    (p, rw (k, ledger_sum-post s.seller_key t ts e, b, h.1) (omega int_laws))

-- One more transaction on the wallet of the seller that is saved.
pub post-IsSettled :
    (ts : List WalletTransaction) (t : WalletTransaction) (s : Seller) (rows : List Seller)
    → t.seller ≡ s.seller_key
    → IsSettled (t ∷ ts) s
    → All (IsSettled ts) rows
    → All (IsSettled (t ∷ ts)) (save_row s rows)
unfolding ledger_sum
post-IsSettled ts t s [] e h hs = tt
post-IsSettled ts t s (x ∷ rows) e h hs = (
  ground (arith, str_eq_iff x.seller_key s.seller_key, str_eq_iff t.seller x.seller_key),
  post-IsSettled ts t s rows e h hs.1,
)

pub seller_of-key :
    (key : String) (rows : List Seller) {s : Seller}
    → seller_of key rows ≡ some s
    → s.seller_key ≡ key
seller_of-key key [] e = ground arith
seller_of-key key (x ∷ rows) {s} e =
    ground (arith, seller_of-key key rows {s = s}, str_eq_iff x.seller_key key)

-- A click is charged only what the wallet holds.
charge_covered :
    (queued : QueuedClick) (s : Seller) (rate : Option CpcRate) (click : ClickEvent)
    → click.cost_toman ≡ click_cost queued s rate
    → click.cost_toman ≢ pos 0
    → pos 0 ≤ℤ s.wallet_balance_toman -ℤ click.cost_toman
unfolding click_cost ◌-ℤ◌
charge_covered queued s rate click e n = ground arith

settle-IsLedger :
    (env : Env) (draws : Draws) (queued : QueuedClick) (s : Seller) (rate : Option CpcRate)
    (click : ClickEvent) (db : Db)
    → click.cost_toman ≡ click_cost queued s rate
    → IsSettled db.transactions s
    → IsLedger db
    → Ensures (λ _. IsLedger) (settle env draws queued s rate click db)
settle-IsLedger env draws queued s rate click db e hs h =
    let s' = charged s click.cost_toman in
    let row = charge_row draws s click in
    let settled : click.cost_toman ≢ pos 0 → IsSettled (row ∷ db.transactions) s' = λ n.
      posted-IsSettled db.transactions row s s' refl refl (omega int_laws)
        (charge_covered queued s rate click e n) hs in
    let posted : click.cost_toman ≢ pos 0 → IsLedger (after_charge draws s click db) =
      λ n. post-IsSettled db.transactions row s' db.sellers refl (settled n) h in
    settle-keeps IsLedger (λ _ _ k. k) env draws queued s rate click db posted
      (λ n. save_row-IsSettled _ (suspended s') _ (settled n) (posted n)) (λ _. h)
      (λ _. save_row-IsSettled _ (suspended s) _ hs h)

cost-new_click :
    (queued : QueuedClick) (click_id product_uid at : ℕ) (s : Seller) (rate : Option CpcRate)
    → (new_click queued click_id product_uid at s rate).cost_toman ≡ click_cost queued s rate
unfolding new_click
cost-new_click queued click_id product_uid at s rate = refl

-- Processing a click from balanced books leaves balanced books, whatever the click.
pub process_queued_click-IsLedger :
    (env : Env) (draws : Draws) (queued : QueuedClick) (db : Db)
    → IsLedger db
    → Ensures (λ _. IsLedger) (process_queued_click env draws queued db)
process_queued_click-IsLedger env draws queued db h =
    process_queued_click-Ensures (λ _. IsLedger) env draws queued db (λ _ _ _ _. h)
      λ click_id _ _.
        record_click-Ensures (λ _. IsLedger) env draws queued click_id db
          λ s at product_uid found.
            let rate = resolve_cpc_rate queued.price_toman at db.rates in
            write_click-keeps IsLedger (λ _ _ k. k) env draws queued s rate _ db
              (settle-IsLedger env draws queued s rate _ _
                (cost-new_click queued click_id product_uid at s rate)
                (All-find (IsSettled db.transactions) _ db.sellers h found) h)

-- The books after a transaction that raises or lowers a balance by hand.
module _ (draws : Draws) (s : Seller) (amount : ℤ) (reference : String) (now : ℕ) (db : Db)
    (key : String) (h : IsLedger db) (found : seller_of key db.sellers ≡ some s) where
  IsSettled-before : IsSettled db.transactions s
  IsSettled-before = All-find (IsSettled db.transactions) _ db.sellers h found

  credited-IsSettled :
      pos 0 <ℤ amount
      → All
          (IsSettled (wallet_row draws s topup amount reference now ∷ db.transactions))
          (save_row (credited s amount) db.sellers)
  credited-IsSettled p =
      let row = wallet_row draws s topup amount reference now in
      post-IsSettled db.transactions row (credited s amount) db.sellers refl
        (posted-IsSettled db.transactions row s (credited s amount) refl refl refl
          (omega (int_laws, IsSettled-before)) IsSettled-before)
        h

  adjusted-IsSettled :
      pos 0 ≤ℤ s.wallet_balance_toman +ℤ amount
      → All
          (IsSettled (wallet_row draws s manual amount reference now ∷ db.transactions))
          (save_row (adjusted s amount) db.sellers)
  adjusted-IsSettled p =
      let row = wallet_row draws s manual amount reference now in
      post-IsSettled db.transactions row (adjusted s amount) db.sellers refl
        (posted-IsSettled db.transactions row s (adjusted s amount) refl refl refl p
          IsSettled-before)
        h

-- A top-up of balanced books leaves balanced books, whatever its amount and reference.
pub record_topup-IsLedger :
    (env : Env) (draws : Draws) (key : String) (amount : ℤ) (reference : String) (now : ℕ) (db : Db)
    → IsLedger db
    → Ensures (λ _. IsLedger) (record_topup env draws key amount reference now db)
record_topup-IsLedger env draws key amount reference now db h =
    record_topup-Ensures (λ _. IsLedger) env draws key amount reference now db (λ _ _ _ _. h)
      λ s positive found _.
        credit-keeps IsLedger (λ _ _ k. k) env draws s amount reference now db
          (credited-IsSettled draws s amount reference now db key h found positive)

-- So does a manual adjustment, upwards or downwards.
pub adjust_wallet-IsLedger :
    (env : Env) (draws : Draws) (key : String) (amount : ℤ) (reference : String) (now : ℕ) (db : Db)
    → IsLedger db
    → Ensures (λ _. IsLedger) (adjust_wallet env draws key amount reference now db)
adjust_wallet-IsLedger env draws key amount reference now db h =
    adjust_wallet-Ensures (λ _. IsLedger) env draws key amount reference now db
      λ s _ found _.
        adjust-keeps IsLedger (λ _ _ k. k) env draws s amount reference now db
          (adjusted-IsSettled draws s amount reference now db key h found)
