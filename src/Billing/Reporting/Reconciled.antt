-- ===== src/Billing/Reporting/Reconciled.antt =====
-- The books that billing/wallet.py keeps and the report of billing/reporting.py.
use yadakchi.Prelude.{
  ◌≡◌, refl, ℕ, String, true, false, not, ◌&&◌, Option, none, some, List, [], ◌∷◌, arith, ◌==◌,
  Bool-cases, inl, inr, length, select, All,
}
use yadakchi.Prelude.Int.{ℤ, pos, neg, ltb_ℤ, eqb_ℤ_iff, neg_parts, int_laws}
use yadakchi.Billing.Models.{
  Seller, ClickEvent, WalletTransaction, CpcRate, QueuedClick, topup, manual,
}
use yadakchi.Billing.Database.{Db, click_of}
use yadakchi.Billing.Database.Ensures.{Ensures}
use yadakchi.Billing.Rates.{resolve_cpc_rate}
use yadakchi.Billing.Events.{Env}
use yadakchi.Billing.Wallet.{Draws, charge_row, new_click, process_queued_click}
use yadakchi.Billing.Topup.{wallet_row, record_topup, adjust_wallet}
use yadakchi.Billing.Wallet.Rules.{
  settle-keeps, write_click-keeps, record_click-Ensures, process_queued_click-Ensures, credit-keeps,
  adjust-keeps, record_topup-Ensures, adjust_wallet-Ensures,
}
use yadakchi.Billing.Reporting.{
  sum_cost, sum_amount, in_window, is_charge, has_transaction, is_mismatched, differs_from,
  joined_click, clicks_in, charges_in, reconcile_day,
}

-- A charged click has a transaction that points at it.
abbrev IsPaired : List WalletTransaction → ClickEvent → Type 0
IsPaired ts c = ltb_ℤ (pos 0) c.cost_toman ≡ true → has_transaction ts c ≡ true

-- A charge points at a click of the same amount.
abbrev IsMatched : List ClickEvent → WalletTransaction → Type 0
IsMatched cs t = is_charge t ≡ true → is_mismatched cs t ≡ false

-- Over every stretch of time the clicks cost what the charges took; every charged click has its
-- transaction, and every charge its click.
pub record IsReconciled (db : Db) : Type 0 where
  pub spend :
      (start end : ℕ)
      → sum_cost (clicks_in start end db.clicks)
        ≡ neg (sum_amount (charges_in start end db.transactions))
  pub paired : All (IsPaired db.transactions) db.clicks
  pub matched : All (IsMatched db.clicks) db.transactions

no_lacking :
    (start end : ℕ) (ts : List WalletTransaction) (cs : List ClickEvent)
    → All (IsPaired ts) cs
    → length (
        select
          (λ c. ltb_ℤ (pos 0) c.cost_toman && not (has_transaction ts c))
          (clicks_in start end cs))
      ≡ 0
no_lacking start end ts [] h = refl
no_lacking start end ts (c ∷ cs) h = ground (arith, no_lacking start end ts cs h.1)

no_mismatched :
    (start end : ℕ) (cs : List ClickEvent) (ts : List WalletTransaction)
    → All (IsMatched cs) ts
    → length (select (is_mismatched cs) (charges_in start end ts)) ≡ 0
no_mismatched start end cs [] h = refl
no_mismatched start end cs (t ∷ ts) h = ground (arith, no_mismatched start end cs ts h.1)

-- Reconciled books give an empty report for every day.
pub reconcile_day-IsReconciled :
    (start end : ℕ) (db : Db) → IsReconciled db → reconcile_day start end db ≡ []
unfolding reconcile_day
reconcile_day-IsReconciled start end db h =
    rw
      (
        h.spend start end,
        (eqb_ℤ_iff (neg (sum_amount (charges_in start end db.transactions)))
              (neg (sum_amount (charges_in start end db.transactions)))).1
            refl,
        no_lacking start end db.transactions db.clicks h.paired,
        no_mismatched start end db.clicks db.transactions h.matched,
      )
      refl

-- A join that found its click finds it still after a click that was not there yet.
differs-cons :
    (c : ClickEvent) (cs : List ClickEvent) (amount : ℤ) (o : Option ℕ)
    → click_of c.click_id cs ≡ none
    → differs_from amount (joined_click cs o) ≡ false
    → differs_from amount (joined_click (c ∷ cs) o) ≡ false
differs-cons c cs amount none fresh h = h
differs-cons c cs amount (some id) fresh h = elim (Bool-cases (c.click_id == id)) [
  | inl same ↦
      let e : id ≡ c.click_id = ground arith in
      let gone : click_of id cs ≡ none = rw e fresh in absurd (cc (rw gone at h))
  | inr other ↦ rw other h
]

-- A click that was not there yet.
IsMatched-cons :
    (c : ClickEvent) (cs : List ClickEvent) (ts : List WalletTransaction)
    → click_of c.click_id cs ≡ none
    → All (IsMatched cs) ts
    → All (IsMatched (c ∷ cs)) ts
IsMatched-cons c cs [] fresh h = tt
IsMatched-cons c cs (t ∷ ts) fresh h = (
  λ charge. differs-cons c cs t.amount_toman t.click fresh (h.0 charge),
  IsMatched-cons c cs ts fresh h.1,
)

IsPaired-cons :
    (t : WalletTransaction) (ts : List WalletTransaction) (cs : List ClickEvent)
    → All (IsPaired ts) cs
    → All (IsPaired (t ∷ ts)) cs
IsPaired-cons t ts [] h = tt
IsPaired-cons t ts (c ∷ cs) h = (ground arith, IsPaired-cons t ts cs h.1)

-- Only the clicks and the transactions matter.
pub same_books :
    {db db' : Db}
    → IsReconciled db
    → db.clicks ≡ db'.clicks
    → db.transactions ≡ db'.transactions
    → IsReconciled db'
same_books {db} {db'} h c t = record {
  spend = λ start end. rw (← c, ← t) (h.spend start end);
  paired = rw (← c, ← t) h.paired;
  matched = rw (← c, ← t) h.matched;
}

pub click_of_self : (c : ClickEvent) (cs : List ClickEvent) → click_of c.click_id (c ∷ cs) ≡ some c
click_of_self c cs = ground arith

-- A free click.
IsReconciled-free :
    (c : ClickEvent) (db : Db)
    → click_of c.click_id db.clicks ≡ none
    → c.cost_toman ≡ pos 0
    → IsReconciled db
    → IsReconciled (record db { clicks = c ∷ db.clicks })
unfolding sum_cost
IsReconciled-free c db fresh free h = record {
  spend = λ start end. elim (Bool-cases (in_window start end c.occurred_at)) [
    | inl inside ↦ rw (inside, free, h.spend start end) (omega int_laws)
    | inr outside ↦ rw outside (h.spend start end)
  ];
  paired = (λ charged. absurd (ground arith), h.paired);
  matched = IsMatched-cons c db.clicks db.transactions fresh h.matched;
}

-- A click with its charge.
IsReconciled-charge :
    (draws : Draws) (s : Seller) (c : ClickEvent) (db : Db)
    → click_of c.click_id db.clicks ≡ none
    → IsReconciled db
    → IsReconciled (record db {
      clicks = c ∷ db.clicks;
      transactions = charge_row draws s c ∷ db.transactions;
    })
unfolding sum_cost sum_amount
IsReconciled-charge draws s c db fresh h = record {
  spend = λ start end. elim (Bool-cases (in_window start end c.occurred_at)) [
    | inl inside ↦ rw (inside, h.spend start end) (omega int_laws)
    | inr outside ↦ rw outside (h.spend start end)
  ];
  paired =
      (λ _. ground arith, IsPaired-cons (charge_row draws s c) db.transactions db.clicks h.paired);
  matched = (
    λ _.
        rw (click_of_self c db.clicks)
          (ground (arith, neg_parts c.cost_toman, neg_parts (neg c.cost_toman))),
    IsMatched-cons c db.clicks db.transactions fresh h.matched,
  );
}

-- A transaction that is no charge.
IsReconciled-other :
    (t : WalletTransaction) (db : Db)
    → is_charge t ≡ false
    → IsReconciled db
    → IsReconciled (record db { transactions = t ∷ db.transactions })
IsReconciled-other t db other h = record {
  spend = λ start end. rw other (h.spend start end);
  paired = IsPaired-cons t db.transactions db.clicks h.paired;
  matched = (λ charge. absurd (cc), h.matched);
}

pub id-new_click :
    (queued : QueuedClick) (click_id product_uid at : ℕ) (s : Seller) (rate : Option CpcRate)
    → (new_click queued click_id product_uid at s rate).click_id ≡ click_id
unfolding new_click
id-new_click queued click_id product_uid at s rate = refl

-- Processing a click keeps the books reconciled, whatever the click.
pub process_queued_click-IsReconciled :
    (env : Env) (draws : Draws) (queued : QueuedClick) (db : Db)
    → IsReconciled db
    → Ensures (λ _. IsReconciled) (process_queued_click env draws queued db)
process_queued_click-IsReconciled env draws queued db h =
    process_queued_click-Ensures (λ _. IsReconciled) env draws queued db (λ _ _ _ _. h)
      λ click_id _ absent.
        record_click-Ensures (λ _. IsReconciled) env draws queued click_id db
          λ s at product_uid found.
            let rate = resolve_cpc_rate queued.price_toman at db.rates in
            let click = new_click queued click_id product_uid at s rate in
            let fresh : click_of click.click_id db.clicks ≡ none =
              rw (id-new_click queued click_id product_uid at s rate) absent in
            let charged = IsReconciled-charge draws s click db fresh h in
            write_click-keeps IsReconciled (λ _ _ k. same_books k refl refl) env draws queued s rate
              click db
              (settle-keeps IsReconciled (λ _ _ k. same_books k refl refl) env draws queued s rate
                click _ (λ _. same_books charged refl refl) (λ _. same_books charged refl refl)
                (λ free. IsReconciled-free click db fresh free h)
                (λ free. same_books (IsReconciled-free click db fresh free h) refl refl))

-- So does a top-up, and an adjustment by hand.
pub record_topup-IsReconciled :
    (env : Env) (draws : Draws) (key : String) (amount : ℤ) (reference : String) (now : ℕ) (db : Db)
    → IsReconciled db
    → Ensures (λ _. IsReconciled) (record_topup env draws key amount reference now db)
record_topup-IsReconciled env draws key amount reference now db h =
    record_topup-Ensures (λ _. IsReconciled) env draws key amount reference now db (λ _ _ _ _. h)
      λ s _ _ _.
        credit-keeps IsReconciled (λ _ _ k. same_books k refl refl) env draws s amount reference now
          db
          (same_books (IsReconciled-other (wallet_row draws s topup amount reference now) db refl h)
            refl refl)

pub adjust_wallet-IsReconciled :
    (env : Env) (draws : Draws) (key : String) (amount : ℤ) (reference : String) (now : ℕ) (db : Db)
    → IsReconciled db
    → Ensures (λ _. IsReconciled) (adjust_wallet env draws key amount reference now db)
adjust_wallet-IsReconciled env draws key amount reference now db h =
    adjust_wallet-Ensures (λ _. IsReconciled) env draws key amount reference now db
      λ s _ _ _.
        adjust-keeps IsReconciled (λ _ _ k. same_books k refl refl) env draws s amount reference now
          db
          λ _.
            same_books
              (IsReconciled-other (wallet_row draws s manual amount reference now) db refl h) refl
              refl
