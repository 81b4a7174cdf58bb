-- ===== src/Catalog/Tests/Prices.antt =====
-- Prices of three offers, and their history.
use yadakchi.Prelude.{arith, false, ◌≡◌, refl, true, none, some, List, [], ◌∷◌, ◌/◌}
use yadakchi.Prelude.Int.{pos}
use yadakchi.Catalog.Pricing.{
  PricedOffer, HistoryPoint, in_stock, out_of_stock, counts_toward_headline, min_price,
  headline_prices, price_statistics, choose_cheapest, daily_series,
}
use yadakchi.Catalog.Pricing.Badge.{choose_cheapest-price_statistics}
use yadakchi.Catalog.Trust.{Seller, standard, is_suspended, decide_tier, observe_offer_change}
use yadakchi.Catalog.Trust.Tiers.{
  decide_tier-is_suspended, IsCounted, observe_offer_change-IsCounted,
}
use yadakchi.Catalog.Pricing.Series.{IsFrom, daily_series-IsFrom}

abbrev offers : List PricedOffer
offers =
    record { offer_uid = "a"; price_toman = some (pos 50); stock_status = out_of_stock }
    ∷ record { offer_uid = "b"; price_toman = some (pos 90); stock_status = in_stock }
    ∷ record { offer_uid = "c"; price_toman = some (pos 70); stock_status = in_stock }
    ∷ []

choose_cheapest-price_statistics_example :
    (o : PricedOffer) × (choose_cheapest offers ≡ some o)
    × (counts_toward_headline o ≡ true)
    × (o.price_toman ≡ some (pos 70))
unfolding price_statistics headline_prices min_price
choose_cheapest-price_statistics_example = choose_cheapest-price_statistics offers (pos 70) refl

abbrev history : List HistoryPoint
history =
    record {
      offer_uid = "b";
      observed_at = 35;
      price_toman = some (pos 90);
      stock_status = in_stock;
    }
    ∷ record {
      offer_uid = "c";
      observed_at = 12;
      price_toman = some (pos 70);
      stock_status = in_stock;
    }
    ∷ []

daily_series-IsFrom_example : IsFrom 2 6 (daily_series (λ t. t / 10) 2 6 history)
daily_series-IsFrom_example = daily_series-IsFrom (λ t. t / 10) 2 6 history

abbrev seen : Seller
seen = record {
  tier = standard;
  tier_override = none;
  price_observations = 4;
  price_hits = 3;
  stock_observations = 2;
  stock_hits = 2;
}

decide_tier-is_suspended_example :
    is_suspended (
      decide_tier
        (record { min_observations = 3; trusted_min_observations = 9; trusted_threshold = 90 })
        seen
        80
        70)
    ≡ false
decide_tier-is_suspended_example =
    decide_tier-is_suspended
      (record { min_observations = 3; trusted_min_observations = 9; trusted_threshold = 90 }) seen
      80 70

observe_offer_change-IsCounted_example :
    IsCounted (observe_offer_change seen (some (pos 5)) in_stock (some (pos 6)) out_of_stock).1
observe_offer_change-IsCounted_example =
    observe_offer_change-IsCounted seen (some (pos 5)) in_stock (some (pos 6)) out_of_stock
      (omega arith, omega arith)
