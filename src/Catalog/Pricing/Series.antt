-- ===== src/Catalog/Pricing/Series.antt =====
-- The days of the series of prices of catalog/pricing.py.
use yadakchi.Prelude.{
  inl, inr, ℕ, zero, suc, ◌+◌, ◌-◌, ◌≤◌, Option, none, some, List, [], ◌∷◌, ◌++◌, arith, ltb,
  Bool-cases,
}
use yadakchi.Prelude.Int.{ℤ}
use yadakchi.Catalog.Pricing.{HistoryPoint, DayPoint, Known, day_point, each_day, daily_series}

-- Dates from `low` to `high`, each later than the one before.
abbrev pub IsFrom : ℕ → ℕ → List DayPoint → Type 0
IsFrom low high [] = Unit
IsFrom low high (p ∷ ps) = (low ≤ p.date) × (p.date ≤ high) × IsFrom (p.date + 1) high ps

IsFrom-earlier :
    (low low' high : ℕ) (ps : List DayPoint) → low ≤ low' → IsFrom low' high ps → IsFrom low high ps
IsFrom-earlier low low' high [] le h = tt
IsFrom-earlier low low' high (p ∷ ps) le h = (omega arith, h.1, h.2)

IsFrom-day_point :
    (day high : ℕ) (prices : List ℤ) (least : Option ℤ) (ps : List DayPoint)
    → day ≤ high
    → IsFrom (day + 1) high ps
    → IsFrom day high (day_point day prices least ++ ps)
IsFrom-day_point day high prices none ps le h = IsFrom-earlier day (day + 1) high ps (omega arith) h
IsFrom-day_point day high prices (some m) ps le h = (omega arith, le, h)

IsFrom-each_day :
    (date_of : ℕ → ℕ) (left day high : ℕ) (points : List HistoryPoint) (known : Known)
    → day + left ≤ high + 1
    → IsFrom day high (each_day date_of left day points known)
unfolding each_day
IsFrom-each_day date_of zero day high points known le = tt
IsFrom-each_day date_of (suc left) day high points known le =
    IsFrom-day_point day high _ _ _ (omega arith)
      (IsFrom-each_day date_of left (day + 1) high _ _ (omega arith))

-- The daily series has at most one point a day, in the order of the days, and none outside the
-- window.
pub daily_series-IsFrom :
    (date_of : ℕ → ℕ) (start end : ℕ) (points : List HistoryPoint)
    → IsFrom start end (daily_series date_of start end points)
unfolding daily_series
daily_series-IsFrom date_of start end points = elim (Bool-cases (ltb end start)) [
  | inl backwards ↦ rw backwards tt
  | inr forwards ↦
      rw forwards (IsFrom-each_day date_of (end - start + 1) start end _ _ (ground arith))
]
