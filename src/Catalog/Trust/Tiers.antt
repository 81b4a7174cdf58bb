-- ===== src/Catalog/Trust/Tiers.antt =====
-- The tiers and the counters of catalog/trust.py.
use yadakchi.Prelude.{
  ◌≡◌, refl, ℕ, ◌≤◌, Bool, true, false, ◌&&◌, Option, none, some, arith, if◌then◌else◌, is_some,
}
use yadakchi.Prelude.Int.{ℤ}
use yadakchi.Catalog.Pricing.{StockStatus, is_in_stock}
use yadakchi.Catalog.Trust.{
  Seller, SellerTier, standard, suspended, Thresholds, is_suspended, observed_tier, or_override,
  decide_tier, observe_offer_change, counted, same_price,
}

observed_tier-is_suspended :
    (limits : Thresholds) (s : Seller) (p q : ℕ) → is_suspended (observed_tier limits s p q) ≡ false
unfolding observed_tier
observed_tier-is_suspended limits s p q = ground arith

or_override-is_suspended :
    (o : Option SellerTier) (was : Bool) (t : SellerTier)
    → is_suspended t ≡ false
    → is_suspended (or_override o (if was then suspended else t))
      ≡ is_suspended (or_override o (if was then suspended else standard))
or_override-is_suspended none true t h = refl
or_override-is_suspended none false t h = h
or_override-is_suspended (some o) was t h = refl

-- Whether a seller is suspended does not depend on what was observed of it: it is suspended
-- exactly if its override says so, or it has no override and was suspended before.
pub decide_tier-is_suspended :
    (limits : Thresholds) (s : Seller) (p q : ℕ)
    → is_suspended (decide_tier limits s p q)
      ≡ is_suspended
          (or_override s.tier_override (if is_suspended s.tier then suspended else standard))
unfolding decide_tier
decide_tier-is_suspended limits s p q =
    or_override-is_suspended s.tier_override (is_suspended s.tier) (observed_tier limits s p q)
      (observed_tier-is_suspended limits s p q)

-- There are no more hits than observations.
abbrev pub IsCounted : Seller → Type 0
IsCounted s = (s.price_hits ≤ s.price_observations) × (s.stock_hits ≤ s.stock_observations)

counted_le : (b c : Bool) (m n : ℕ) → m ≤ n → counted (b && c) m ≤ counted b n
counted_le true true m n h = omega arith
counted_le true false m n h = omega arith
counted_le false c m n h = h

-- An observation keeps a seller's hits at most its observations, of prices and of stock.
pub observe_offer_change-IsCounted :
    (s : Seller) (p : Option ℤ) (t : StockStatus) (p' : Option ℤ) (t' : StockStatus)
    → IsCounted s
    → IsCounted (observe_offer_change s p t p' t').1
unfolding observe_offer_change
observe_offer_change-IsCounted s p t p' t' h = (
  counted_le (is_some p && is_some p') (same_price p p') s.price_hits s.price_observations h.0,
  counted_le (is_in_stock t) (is_in_stock t') s.stock_hits s.stock_observations h.1,
)
