-- ===== src/Billing/Reporting.antt =====
-- billing/reporting.py: the statistics of a seller and the daily reconciliation.
pub mod Reconciled
use yadakchi.Prelude.{
  ℕ, suc, ◌+◌, String, Bool, true, false, not, ◌&&◌, ◌||◌, Option, none, some, List, [], ◌∷◌, ◌++◌,
  map, ltb, leb, ◌==◌, if◌then◌else◌, str_eq, length, select, exists, find,
}
use yadakchi.Prelude.Int.{ℤ, pos, neg, ◌+ℤ◌, ltb_ℤ, eqb_ℤ}
use yadakchi.Billing.Models.{ClickEvent, WalletTransaction, Kind, charge, topup, manual}
use yadakchi.Billing.Database.{Db, click_of}

-- The aggregates of a list of clicks.
pub record ClickTotals : Type 0 where
  pub clicks : ℕ
  pub suspicious_clicks : ℕ
  pub charged_clicks : ℕ
  pub spend_toman : ℤ

unfoldable pub sum_cost : List ClickEvent → ℤ
sum_cost [] = pos 0
sum_cost (c ∷ cs) = c.cost_toman +ℤ sum_cost cs

unfoldable pub totals : List ClickEvent → ClickTotals
totals cs = record {
  clicks = length cs;
  suspicious_clicks = length (select (λ (c : ClickEvent). c.is_suspicious) cs);
  charged_clicks = length (select (λ (c : ClickEvent). ltb_ℤ (pos 0) c.cost_toman) cs);
  spend_toman = sum_cost cs;
}

abbrev from_start : Option ℕ → ℕ → Bool
from_start none at = true
from_start (some start) at = leb start at

abbrev before_end : Option ℕ → ℕ → Bool
before_end none at = true
before_end (some end) at = ltb at end

abbrev pub in_report : String → Option ℕ → Option ℕ → ClickEvent → Bool
in_report key start end c =
    str_eq c.seller_key key && (from_start start c.occurred_at && before_end end c.occurred_at)

-- The days on which the clicks fall, in order and once each.
unfoldable pub insert_day : ℕ → List ℕ → List ℕ
insert_day d [] = d ∷ []
insert_day d (e ∷ es) =
    if ltb d e then d ∷ e ∷ es else if d == e then e ∷ es else e ∷ insert_day d es

unfoldable pub days_of : (ℕ → ℕ) → List ClickEvent → List ℕ
days_of day_of [] = []
days_of day_of (c ∷ cs) = insert_day (day_of c.occurred_at) (days_of day_of cs)

pub record DailyStats : Type 0 where
  pub day : ℕ
  pub stats : ClickTotals

abbrev pub on_day : (ℕ → ℕ) → ℕ → ClickEvent → Bool
on_day day_of d c = day_of c.occurred_at == d

pub record SellerStats : Type 0 where
  pub total : ClickTotals
  pub daily : List DailyStats

-- `seller_stats`; `day_of` is `TruncDate`, the day of an instant in the server's time zone.
unfoldable pub seller_stats : (ℕ → ℕ) → String → Option ℕ → Option ℕ → List ClickEvent → SellerStats
unfolding days_of insert_day
seller_stats day_of key start end clicks =
    let cs = select (in_report key start end) clicks in
    record {
      total = totals cs;
      daily =
          map (λ d. record { day = d; stats = totals (select (on_day day_of d) cs) })
            (days_of day_of cs);
    }

abbrev pub in_window : ℕ → ℕ → ℕ → Bool
in_window start end at = leb start at && ltb at end

abbrev pub is_charge : WalletTransaction → Bool
is_charge t = elim t.kind [ charge ↦ true | topup ↦ false | manual ↦ false ]

unfoldable pub sum_amount : List WalletTransaction → ℤ
sum_amount [] = pos 0
sum_amount (t ∷ ts) = t.amount_toman +ℤ sum_amount ts

pub data Discrepancy : Type 0 where
  spend_differs : ℤ → ℤ → Discrepancy
  charges_lack_transaction : ℕ → Discrepancy
  charges_differ_from_clicks : ℕ → Discrepancy

abbrev same_click : ℕ → Option ℕ → Bool
same_click id none = false
same_click id (some j) = id == j

-- Whether a transaction points at the click.
abbrev pub has_transaction : List WalletTransaction → ClickEvent → Bool
has_transaction ts c = exists (λ t. same_click c.click_id t.click) ts

abbrev differs_from : ℤ → Option ClickEvent → Bool
differs_from amount none = true
differs_from amount (some c) = not (eqb_ℤ (neg amount) c.cost_toman)

abbrev joined_click : List ClickEvent → Option ℕ → Option ClickEvent
joined_click clicks none = none
joined_click clicks (some id) = click_of id clicks

-- `item.click_id is None or item.click is None or -item.amount_toman != item.click.cost_toman`
abbrev pub is_mismatched : List ClickEvent → WalletTransaction → Bool
is_mismatched clicks t = differs_from t.amount_toman (joined_click clicks t.click)

abbrev pub report_if : Bool → Discrepancy → List Discrepancy
report_if true d = d ∷ []
report_if false d = []

abbrev pub charges_in : ℕ → ℕ → List WalletTransaction → List WalletTransaction
charges_in start end = select (λ t. is_charge t && in_window start end t.occurred_at)

abbrev pub clicks_in : ℕ → ℕ → List ClickEvent → List ClickEvent
clicks_in start end = select (λ c. in_window start end c.occurred_at)

-- `reconcile_day`, for the day that runs from `start` to `end` (`day_bounds`).
unfoldable pub reconcile_day : ℕ → ℕ → Db → List Discrepancy
unfolding sum_cost sum_amount
reconcile_day start end db =
    let click_spend = sum_cost (clicks_in start end db.clicks) in
    let charges = charges_in start end db.transactions in
    let transaction_spend = neg (sum_amount charges) in
    let lacking = length (
      select (λ c. ltb_ℤ (pos 0) c.cost_toman && not (has_transaction db.transactions c))
        (clicks_in start end db.clicks)) in
    let mismatched = length (select (is_mismatched db.clicks) charges) in
    report_if (not (eqb_ℤ click_spend transaction_spend))
      (spend_differs click_spend transaction_spend)
    ++ report_if (ltb 0 lacking) (charges_lack_transaction lacking)
    ++ report_if (ltb 0 mismatched) (charges_differ_from_clicks mismatched)
