-- ===== src/Catalog/Trust.antt =====
-- catalog/trust.py: the tier of a seller, and the counters that its accuracy is computed from. An
-- accuracy and a threshold are numbers of one unit, such as millionths.
pub mod Tiers
use yadakchi.Prelude.{
  ℕ, ◌+◌, String, Bool, true, false, not, ◌&&◌, Option, none, some, ltb, leb, ◌==◌, if◌then◌else◌,
  is_some,
}
use yadakchi.Prelude.Int.{ℤ, eqb_ℤ}
use yadakchi.Catalog.Pricing.{StockStatus, is_in_stock}

pub data SellerTier : Type 0 where
  new standard trusted suspended : SellerTier

-- The columns that the module reads and writes; an override of the empty text is `none`.
pub record Seller : Type 0 where
  pub tier : SellerTier
  pub tier_override : Option SellerTier
  pub price_observations : ℕ
  pub price_hits : ℕ
  pub stock_observations : ℕ
  pub stock_hits : ℕ

-- The constants of the settings.
pub record Thresholds : Type 0 where
  pub min_observations : ℕ
  pub trusted_min_observations : ℕ
  pub trusted_threshold : ℕ

abbrev pub is_suspended : SellerTier → Bool
is_suspended t = elim t [ new ↦ false | standard ↦ false | trusted ↦ false | suspended ↦ true ]

abbrev fewer : ℕ → ℕ → ℕ
fewer a b = if leb a b then a else b

-- The tier by what was observed.
unfoldable pub observed_tier : Thresholds → Seller → ℕ → ℕ → SellerTier
observed_tier limits s price_accuracy stock_accuracy =
    let observations = fewer s.price_observations s.stock_observations in
    if ltb observations limits.min_observations
    then new
    else if leb limits.trusted_min_observations observations
        && (leb limits.trusted_threshold price_accuracy
            && leb limits.trusted_threshold stock_accuracy)
    then trusted
    else standard

abbrev pub or_override : Option SellerTier → SellerTier → SellerTier
or_override none t = t
or_override (some o) t = o

unfoldable pub decide_tier : Thresholds → Seller → ℕ → ℕ → SellerTier
unfolding observed_tier
decide_tier limits s price_accuracy stock_accuracy = or_override s.tier_override (
    if is_suspended s.tier then suspended else observed_tier limits s price_accuracy stock_accuracy)

abbrev pub same_price : Option ℤ → Option ℤ → Bool
same_price none b = false
same_price (some p) none = false
same_price (some p) (some q) = eqb_ℤ p q

abbrev pub counted : Bool → ℕ → ℕ
counted true n = n + 1
counted false n = n

-- `observe_offer_change`, from the previous price and stock to those that came in: the seller after
-- it, and what was counted.
unfoldable pub observe_offer_change :
    Seller → Option ℤ → StockStatus → Option ℤ → StockStatus → (Bool × Bool) × Seller
observe_offer_change s previous_price previous_stock incoming_price incoming_stock =
    let price_counted = is_some previous_price && is_some incoming_price in
    let stock_counted = is_in_stock previous_stock in
    (
      (price_counted, stock_counted),
      record s {
        price_observations = counted price_counted s.price_observations;
        price_hits =
            counted (price_counted && same_price previous_price incoming_price) s.price_hits;
        stock_observations = counted stock_counted s.stock_observations;
        stock_hits = counted (stock_counted && is_in_stock incoming_stock) s.stock_hits;
      },
    )
