-- ===== src/Billing/Rates.antt =====
-- billing/rates.py: the rates that are active, and the choice of one.
pub mod Choice
use yadakchi.Prelude.{
  ℕ, Bool, true, false, ◌&&◌, ◌||◌, Option, none, some, List, [], ◌∷◌, ltb, leb, if◌then◌else◌,
  select,
}
use yadakchi.Prelude.Int.{ℤ, ltb_ℤ, leb_ℤ}
use yadakchi.Billing.Models.{CpcRate}

-- `Q(effective_to__isnull=True) | Q(effective_to__gt=effective_at)`
abbrev open_until : ℕ → Option ℕ → Bool
open_until at none = true
open_until at (some end) = ltb at end

unfoldable pub is_active_at : ℕ → CpcRate → Bool
is_active_at at r = r.active && (leb r.effective_from at && open_until at r.effective_to)

unfoldable pub active_rates : ℕ → List CpcRate → List CpcRate
active_rates at = select (is_active_at at)

-- `Q(max_price_toman__isnull=True) | Q(max_price_toman__gt=price_toman)`
abbrev open_above : ℤ → Option ℤ → Bool
open_above price none = true
open_above price (some top) = ltb_ℤ price top

-- The band that holds the price.
unfoldable pub in_band : ℤ → CpcRate → Bool
in_band price r = leb_ℤ r.min_price_toman price && open_above price r.max_price_toman

-- `order_by("min_price_toman", "-effective_from")`: `r` stands strictly before `s`.
unfoldable pub lowest_first : CpcRate → CpcRate → Bool
lowest_first r s =
    if ltb_ℤ r.min_price_toman s.min_price_toman
    then true
    else leb_ℤ r.min_price_toman s.min_price_toman && ltb s.effective_from r.effective_from

-- `order_by("-min_price_toman", "-effective_from")`
unfoldable pub highest_first : CpcRate → CpcRate → Bool
highest_first r s =
    if ltb_ℤ s.min_price_toman r.min_price_toman
    then true
    else leb_ℤ s.min_price_toman r.min_price_toman && ltb s.effective_from r.effective_from

abbrev sooner : (CpcRate → CpcRate → Bool) → CpcRate → Option CpcRate → CpcRate
sooner before r none = r
sooner before r (some s) = if before s r then s else r

-- `order_by(...).first()`: a row that no other stands before; of equal rows, the first in the table.
unfoldable pub first_by : (CpcRate → CpcRate → Bool) → List CpcRate → Option CpcRate
first_by before [] = none
first_by before (r ∷ rs) = some (sooner before r (first_by before rs))

unfoldable pub resolve_cpc_rate : Option ℤ → ℕ → List CpcRate → Option CpcRate
resolve_cpc_rate none at rates = first_by lowest_first (active_rates at rates)
resolve_cpc_rate (some price) at rates =
    first_by highest_first (select (in_band price) (active_rates at rates))
