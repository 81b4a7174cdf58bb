-- ===== src/Catalog/Pricing/Badge.antt =====
-- The badge of the cheapest offer and the headline of catalog/pricing.py.
use yadakchi.Prelude.{
  ◌≡◌, refl, subst, ap, ◌∙◌, inl, inr, Bool, true, false, ◌&&◌, Option, none, some, List, [], ◌∷◌,
  map, if◌then◌else◌, Bool-cases, Option-cases, is_some, select, All, arith,
}
use yadakchi.Prelude.Int.{ℤ, ltb_ℤ, eq_of_parts}
use yadakchi.Catalog.Pricing.{
  PricedOffer, is_in_stock, counts_toward_headline, min_price, headline_prices, price_statistics,
  price_or_zero, is_cheaper, cheapest, choose_cheapest,
}

abbrev value : PricedOffer → ℤ
value o = price_or_zero o.price_toman

headline_prices-select :
    (offers : List PricedOffer)
    → headline_prices offers ≡ map value (select counts_toward_headline offers)
unfolding headline_prices
headline_prices-select [] = refl
headline_prices-select (o ∷ os) = elim (Option-cases o.price_toman) [
  | inl unpriced ↦ elim (Bool-cases (is_in_stock o.stock_status)) [
    | inl here ↦ rw (unpriced, here) (headline_prices-select os)
    | inr gone ↦ rw (unpriced, gone) (headline_prices-select os)
  ]
  | inr (p, priced) ↦ elim (Bool-cases (is_in_stock o.stock_status)) [
    | inl here ↦ rw (priced, here) (ap (λ z. p ∷ z) (headline_prices-select os))
    | inr gone ↦ rw (priced, gone) (headline_prices-select os)
  ]
]

min_price-cons : (p : ℤ) (ps : List ℤ) → is_some (min_price (p ∷ ps)) ≡ true
unfolding min_price
min_price-cons p ps = elim (Option-cases (min_price ps)) [
  | inl e ↦ rw (min_price, e) refl
  | inr (q, e) ↦ rw (min_price, e) refl
]

value-cheaper :
    (o q : PricedOffer)
    → value (if is_cheaper q o then q else o)
      ≡ (if ltb_ℤ (value q) (value o) then value q else value o)
value-cheaper o q = ground (arith, eq_of_parts (value q) (value o))

-- The price of the cheapest offer is the least price.
cheapest-min_price :
    (os : List PricedOffer) (m : ℤ)
    → min_price (map value os) ≡ some m
    → (o : PricedOffer) × (cheapest os ≡ some o) × (value o ≡ m)
unfolding cheapest min_price
cheapest-min_price [] m e = absurd (cc e)
cheapest-min_price (o ∷ []) m e = (o, refl, cc e)
cheapest-min_price (o ∷ q ∷ qs) m e = elim (Option-cases (min_price (map value (q ∷ qs)))) [
  | inl empty ↦ absurd (cc (rw empty at (min_price-cons (value q) (map value qs))))
  | inr (k, found) ↦
      let (r, chosen, same) = cheapest-min_price (q ∷ qs) k found in
      let least : (if ltb_ℤ k (value o) then k else value o) ≡ m =
        cc (rw (min_price, found) at e) in
      (
        if is_cheaper r o then r else o,
        rw (cheapest, chosen) refl,
        value-cheaper o r ∙ (rw same least),
      )
]

-- The chosen offer stands in the list, and a property of all its offers holds of it.
cheapest-All :
    (P : PricedOffer → Type 0) (os : List PricedOffer) (o : PricedOffer)
    → All P os
    → cheapest os ≡ some o
    → P o
unfolding cheapest
cheapest-All P [] o h e = absurd (cc e)
cheapest-All P (p ∷ ps) o h e = elim (Option-cases (cheapest ps)) [
  | inl empty ↦ let same : p ≡ o = cc (rw (cheapest, empty) at e) in subst P same h.0
  | inr (q, found) ↦
      let same : (if is_cheaper q p then q else p) ≡ o = cc (rw (cheapest, found) at e) in
      subst P same (elim (Bool-cases (is_cheaper q p)) [
        | inl less ↦ rw less (cheapest-All P ps q h.1 found)
        | inr more ↦ rw more h.0
      ])
]

select-All : (p : PricedOffer → Bool) (os : List PricedOffer) → All (λ o. p o ≡ true) (select p os)
select-All p [] = tt
select-All p (o ∷ os) = elim (Bool-cases (p o)) [
  | inl hit ↦ rw hit (hit, select-All p os)
  | inr miss ↦ rw miss (select-All p os)
]

priced_at :
    (here : Bool) (price : Option ℤ) (m : ℤ)
    → (here && is_some price) ≡ true
    → price_or_zero price ≡ m
    → price ≡ some m
priced_at true none m h e = absurd (cc h)
priced_at false none m h e = absurd (cc h)
priced_at here (some p) m h e = ap some e

-- If the headline has a lowest price, the badge of the cheapest offer stands on an offer that is
-- in stock and has that price.
pub choose_cheapest-price_statistics :
    (offers : List PricedOffer) (m : ℤ)
    → (price_statistics offers).min_toman ≡ some m
    → (o : PricedOffer) × (choose_cheapest offers ≡ some o)
      × (counts_toward_headline o ≡ true)
      × (o.price_toman ≡ some m)
unfolding choose_cheapest price_statistics
choose_cheapest-price_statistics offers m e =
    let (o, chosen, same) =
      cheapest-min_price (select counts_toward_headline offers) m
        (rw (headline_prices-select offers) at e) in
    let counts =
      cheapest-All (λ o. counts_toward_headline o ≡ true) (select counts_toward_headline offers) o
        (select-All counts_toward_headline offers) chosen in
    (o, rw chosen refl, counts, priced_at (is_in_stock o.stock_status) o.price_toman m counts same)
