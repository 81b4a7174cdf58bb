-- ===== src/Ai/Budget.antt =====
-- ai/budget.py: the daily budget. A float, none of which is negative or not a number here, is the
-- natural number of its IEEE 754 bits, so that floats compare as their bits do and 0.0 is zero; what
-- the arithmetic of floats returns is a parameter. A day is its text.
pub mod Days
use yadakchi.Prelude.{
  ℕ, String, Bool, true, false, not, ◌&&◌, ◌||◌, Option, none, some, List, [], ◌∷◌, ltb, leb, ◌==◌,
  if◌then◌else◌, str_eq,
}
use yadakchi.Ai.Cache.{Reply, failed, replied}

pub record Settings : Type 0 where
  pub ai_cost_per_1k_input : ℕ
  pub ai_cost_per_1k_output : ℕ
  pub ai_budget_enabled : Bool
  pub ai_daily_budget : ℕ

-- The arithmetic of floats, with its rounding: `+`, `*` and `/`, and `over`, the quotient of two
-- integers.
pub record Floats : Type 0 where
  pub add : ℕ → ℕ → ℕ
  pub mul : ℕ → ℕ → ℕ
  pub div : ℕ → ℕ → ℕ
  pub over : ℕ → ℕ → ℕ

-- The bits of 1.0, and of 0.8, which is `WARN_AT`.
abbrev pub one : ℕ
one = 4607182418800017408

abbrev pub warn_at : ℕ
warn_at = 4605380978949069210

-- `gauge` is the metric of the fill level, and `log` the days of the warnings, the last first.
pub record BudgetGuard : Type 0 where
  pub settings : Settings
  pub local : List (String × ℕ)
  pub warned_day : Option String
  pub gauge : ℕ
  pub log : List String

-- `budget_unit` is "currency".
abbrev is_currency : Settings → Bool
is_currency s = ltb 0 s.ai_cost_per_1k_input || ltb 0 s.ai_cost_per_1k_output

-- `cost_of`
unfoldable pub cost_of : Floats → Settings → ℕ → ℕ → ℕ → ℕ
cost_of f s prompt_tokens completion_tokens seconds =
    if is_currency s
    then f.add (f.mul (f.over prompt_tokens 1000) s.ai_cost_per_1k_input)
        (f.mul (f.over completion_tokens 1000) s.ai_cost_per_1k_output)
    else seconds

-- `self._local.get(day, 0.0)`
abbrev pub local_of : String → List (String × ℕ) → ℕ
local_of day [] = 0
local_of day ((d, n) ∷ rest) = if str_eq d day then n else local_of day rest

-- `used`; `redis` says whether the cache hands out a client.
unfoldable pub used : Bool → Reply (Option ℕ) → String → BudgetGuard → ℕ
used false reply day g = local_of day g.local
used true failed day g = local_of day g.local
used true (replied none) day g = 0
used true (replied (some n)) day g = n

-- `_ratio`
abbrev pub ratio_of : Floats → ℕ → ℕ → ℕ
ratio_of f limit n =
    if limit == 0 then one else let q = f.div n limit in if ltb one q then one else q

-- `_publish`
abbrev pub publish : Floats → ℕ → BudgetGuard → BudgetGuard
publish f n g = record g { gauge = ratio_of f g.settings.ai_daily_budget n }

-- `_ratio(used) < WARN_AT`
abbrev pub below_warning : ℕ → Bool
below_warning r = ltb r warn_at

abbrev pub is_warned : String → Option String → Bool
is_warned day none = false
is_warned day (some d) = str_eq d day

abbrev pub warn_once : Bool → Bool → Bool → String → BudgetGuard → BudgetGuard
warn_once false already below day g = g
warn_once true true below day g = g
warn_once true false true day g = g
warn_once true false false day g = record g { warned_day = some day; log = day ∷ g.log }

-- `_maybe_warn`
abbrev pub maybe_warn : Floats → String → ℕ → BudgetGuard → BudgetGuard
maybe_warn f day n g =
    warn_once g.settings.ai_budget_enabled (is_warned day g.warned_day)
      (below_warning (ratio_of f g.settings.ai_daily_budget n)) day g

-- The counter of the process, with no other day.
abbrev counted : Floats → String → ℕ → BudgetGuard → ℕ × BudgetGuard
counted f day amount g =
    let total = f.add (local_of day g.local) amount in
    (total, record g { local = (day, total) ∷ [] })

abbrev added : Floats → Bool → Reply ℕ → String → ℕ → BudgetGuard → ℕ × BudgetGuard
added f false reply day amount g = counted f day amount g
added f true failed day amount g = counted f day amount g
added f true (replied total) day amount g = (total, g)

-- `record`; `incr` is the reply of INCRBYFLOAT and EXPIRE, `read` that of GET.
unfoldable pub record_cost :
    Floats → Bool → Reply (Option ℕ) → Reply ℕ → String → ℕ → BudgetGuard → ℕ × BudgetGuard
unfolding used
record_cost f redis read incr day amount g =
    if amount == 0
    then (used redis read day g, publish f (used redis read day g) g)
    else let (total, g') = added f redis incr day amount g in
      (total, maybe_warn f day total (publish f total g'))

-- `check`: whether a call may be made; `later` is the day of the second look at the clock.
unfoldable pub check :
    Floats → Bool → Reply (Option ℕ) → String → String → BudgetGuard → Bool × BudgetGuard
unfolding used
check f redis reply day later g =
    if not g.settings.ai_budget_enabled
    then (true, g)
    else let n = used redis reply day g in
      let g' = publish f n g in
      if ltb n g.settings.ai_daily_budget then (true, maybe_warn f later n g') else (false, g')

pub record BudgetSnapshot : Type 0 where
  pub day : String
  pub spent : ℕ
  pub limit : ℕ
  pub ratio : ℕ
  pub is_enabled : Bool
  pub is_exhausted : Bool

-- `snapshot`; the roundings are left out.
pub snapshot :
    Floats → Bool → Reply (Option ℕ) → String → BudgetGuard → BudgetSnapshot × BudgetGuard
unfolding used
snapshot f redis reply day g =
    let n = used redis reply day g in
    (
      record {
        day = day;
        spent = n;
        limit = g.settings.ai_daily_budget;
        ratio = ratio_of f g.settings.ai_daily_budget n;
        is_enabled = g.settings.ai_budget_enabled;
        is_exhausted = g.settings.ai_budget_enabled && leb g.settings.ai_daily_budget n;
      },
      publish f n g,
    )
