-- ===== src/Catalog/Pricing.antt =====
-- catalog/pricing.py. A day is a number of days, `date_of` the day of an instant.
pub mod Badge
pub mod Series
use yadakchi.Prelude.{
  ℕ, zero, suc, ◌+◌, ◌-◌, ◌/◌, ◌%◌, String, Bool, true, false, ◌&&◌, Option, none, some, List, [],
  ◌∷◌, ◌++◌, map, ltb, leb, ◌==◌, if◌then◌else◌, str_eq, str_ltb, is_some, select, length,
}
use yadakchi.Prelude.Int.{ℤ, pos, negsuc, ◌+ℤ◌, ltb_ℤ, leb_ℤ, eqb_ℤ}

pub data StockStatus : Type 0 where
  in_stock out_of_stock unknown : StockStatus

pub record PricedOffer : Type 0 where
  pub offer_uid : String
  pub price_toman : Option ℤ
  pub stock_status : StockStatus

abbrev pub is_in_stock : StockStatus → Bool
is_in_stock s = elim s [ in_stock ↦ true | out_of_stock ↦ false | unknown ↦ false ]

abbrev pub counts_toward_headline : PricedOffer → Bool
counts_toward_headline o = is_in_stock o.stock_status && is_some o.price_toman

pub record PriceStatistics : Type 0 where
  pub min_toman : Option ℤ
  pub max_toman : Option ℤ
  pub median_toman : Option ℤ

abbrev insert_price : ℤ → List ℤ → List ℤ
insert_price p [] = p ∷ []
insert_price p (q ∷ qs) = let rest = insert_price p qs in if leb_ℤ p q then p ∷ q ∷ qs else q ∷ rest

-- `sorted(values)`
abbrev pub sorted_prices : List ℤ → List ℤ
sorted_prices [] = []
sorted_prices (p ∷ ps) = insert_price p (sorted_prices ps)

-- `ordered[index]`, an IndexError beyond the end.
abbrev pub price_at : ℕ → List ℤ → Option ℤ
price_at n [] = none
price_at zero (p ∷ ps) = some p
price_at (suc n) (p ∷ ps) = price_at n ps

-- `// 2`, which rounds down.
abbrev pub halved : ℤ → ℤ
halved (pos n) = pos (n / 2)
halved (negsuc n) = negsuc (n / 2)

abbrev midpoint : Option ℤ → Option ℤ → Option ℤ
midpoint (some low) (some high) = some (halved (low +ℤ high +ℤ pos 1))
midpoint (some low) none = none
midpoint none high = none

-- The median of the values, `none` for no values.
unfoldable pub median_int : List ℤ → Option ℤ
median_int values =
    let ordered = sorted_prices values in
    let middle = length ordered / 2 in
    if length ordered % 2 == 1
    then price_at middle ordered
    else midpoint (price_at (middle - 1) ordered) (price_at middle ordered)

unfoldable pub min_price : List ℤ → Option ℤ
min_price [] = none
min_price (p ∷ ps) = elim (min_price ps) [
  | none ↦ some p
  | some q ↦ some (if ltb_ℤ q p then q else p)
]

unfoldable pub max_price : List ℤ → Option ℤ
max_price [] = none
max_price (p ∷ ps) = elim (max_price ps) [
  | none ↦ some p
  | some q ↦ some (if ltb_ℤ p q then q else p)
]

abbrev headline_price : StockStatus → Option ℤ → List ℤ
headline_price s none = []
headline_price s (some p) = if is_in_stock s then p ∷ [] else []

unfoldable pub headline_prices : List PricedOffer → List ℤ
headline_prices [] = []
headline_prices (o ∷ os) = headline_price o.stock_status o.price_toman ++ headline_prices os

unfoldable pub price_statistics : List PricedOffer → PriceStatistics
unfolding headline_prices
price_statistics offers =
    let prices = headline_prices offers in
    record {
      min_toman = min_price prices;
      max_toman = max_price prices;
      median_toman = median_int prices;
    }

-- `o.price_toman or 0`
abbrev pub price_or_zero : Option ℤ → ℤ
price_or_zero none = pos 0
price_or_zero (some p) = p

-- The order of the keys of `min`, strictly.
abbrev pub is_cheaper : PricedOffer → PricedOffer → Bool
is_cheaper a b =
    let p = price_or_zero a.price_toman in
    let q = price_or_zero b.price_toman in
    if ltb_ℤ p q then true else eqb_ℤ p q && str_ltb a.offer_uid b.offer_uid

-- `min`: of equal keys the first.
unfoldable pub cheapest : List PricedOffer → Option PricedOffer
cheapest [] = none
cheapest (o ∷ os) = elim (cheapest os) [
  | none ↦ some o
  | some q ↦ some (if is_cheaper q o then q else o)
]

abbrev first_of : List PricedOffer → Option PricedOffer
first_of [] = none
first_of (o ∷ os) = some o

abbrev or_else : Option PricedOffer → Option PricedOffer → Option PricedOffer
or_else none q = q
or_else (some o) q = some o

-- `choose_cheapest`, the offer in place of its id.
unfoldable pub choose_cheapest : List PricedOffer → Option PricedOffer
choose_cheapest offers = or_else (cheapest (select counts_toward_headline offers)) (
    or_else (cheapest (select (λ (o : PricedOffer). is_some o.price_toman) offers))
      (first_of offers))

pub record HistoryPoint : Type 0 where
  pub offer_uid : String
  pub observed_at : ℕ
  pub price_toman : Option ℤ
  pub stock_status : StockStatus

pub record DayPoint : Type 0 where
  pub date : ℕ
  pub min_toman : ℤ
  pub median_toman : Option ℤ

-- The order of the keys of `sorted`, strictly.
abbrev is_earlier : HistoryPoint → HistoryPoint → Bool
is_earlier a b =
    if ltb a.observed_at b.observed_at
    then true
    else (a.observed_at == b.observed_at) && str_ltb a.offer_uid b.offer_uid

abbrev insert_point : HistoryPoint → List HistoryPoint → List HistoryPoint
insert_point p [] = p ∷ []
insert_point p (q ∷ qs) =
    let rest = insert_point p qs in if is_earlier q p then q ∷ rest else p ∷ q ∷ qs

abbrev sorted_points : List HistoryPoint → List HistoryPoint
sorted_points [] = []
sorted_points (p ∷ ps) = insert_point p (sorted_points ps)

-- The last known state of each offer.
abbrev pub Known : Type 0
Known = List PricedOffer

-- `state[point.offer_uid] = ...`
abbrev know : HistoryPoint → Known → Known
know p [] =
    record { offer_uid = p.offer_uid; price_toman = p.price_toman; stock_status = p.stock_status }
    ∷ []
know p (o ∷ os) =
    let rest = know p os in
    if str_eq o.offer_uid p.offer_uid
    then record {
      offer_uid = p.offer_uid;
      price_toman = p.price_toman;
      stock_status = p.stock_status;
    }
      ∷ os
    else o ∷ rest

-- `while cursor < len(ordered) and ...`: the points that are left, and what is known.
unfoldable pub advance :
    (HistoryPoint → Bool) → List HistoryPoint → Known → List HistoryPoint × Known
advance due [] known = ([], known)
advance due (p ∷ ps) known =
    let rest = advance due ps (know p known) in if due p then rest else (p ∷ ps, known)

abbrev pub day_point : ℕ → List ℤ → Option ℤ → List DayPoint
day_point day prices none = []
day_point day prices (some least) =
    record { date = day; min_toman = least; median_toman = median_int prices } ∷ []

-- `while day <= end`, with the number of days that are left.
unfoldable pub each_day : (ℕ → ℕ) → ℕ → ℕ → List HistoryPoint → Known → List DayPoint
unfolding headline_prices
each_day date_of zero day points known = []
each_day date_of (suc left) day points known =
    let (points', known') = advance (λ p. leb (date_of p.observed_at) day) points known in
    let prices = headline_prices known' in
    day_point day prices (min_price prices) ++ each_day date_of left (day + 1) points' known'

unfoldable pub daily_series : (ℕ → ℕ) → ℕ → ℕ → List HistoryPoint → List DayPoint
unfolding each_day advance
daily_series date_of start end points =
    if ltb end start
    then []
    else (let (later, known) =
          advance (λ p. ltb (date_of p.observed_at) start) (sorted_points points) [] in
        each_day date_of (end - start + 1) start later known)
