-- ===== src/Ai/Budget/Days.antt =====
-- A day of ai/budget.py without Redis.
use yadakchi.Prelude.{
  ◌≡◌, refl, sym, ap, subst, ◌∙◌, inl, inr, ℕ, ◌<◌, ◌≤◌, String, Bool, true, false, not, List, [],
  ◌∷◌, arith, str_eq_refl, if◌then◌else◌, ltb, ◌==◌, Bool-cases,
}
use yadakchi.Ai.Cache.{failed}
use yadakchi.Ai.Budget.{
  Floats, Settings, BudgetGuard, warn_at, ratio_of, below_warning, is_warned, warn_once, publish,
  local_of, record_cost, check,
}

-- What floats guarantee: adding 0.0 changes nothing, a sum is not below its parts, 0.0 divided by a
-- positive float is 0.0, and a quotient does not fall when its dividend rises.
pub record IsRounding (f : Floats) : Type 0 where
  pub add_zero : (a : ℕ) → f.add a 0 ≡ a
  pub le-add : (a b : ℕ) → a ≤ f.add a b
  pub zero-div : (limit : ℕ) → 0 < limit → f.div 0 limit ≡ 0
  pub div-le : (a b limit : ℕ) → 0 < limit → a ≤ b → f.div a limit ≤ f.div b limit

-- The sum of the costs in the order of the calls.
abbrev pub total_of : Floats → ℕ → List ℕ → ℕ
total_of f total [] = total
total_of f total (n ∷ ns) = total_of f (f.add total n) ns

-- The calls of one day, each with its cost.
pub spend : Floats → String → List ℕ → BudgetGuard → BudgetGuard
spend f day [] g = g
spend f day (n ∷ ns) g = spend f day ns (record_cost f false failed failed day n g).1

-- The ratio of a total is below the mark.
abbrev calm_at : Floats → ℕ → ℕ → Bool
calm_at f limit total = below_warning (ratio_of f limit total)

-- The day has cost `total` so far, and has been warned of if that reaches the mark.
record IsAt (f : Floats) (day : String) (base : BudgetGuard) (total : ℕ) (g : BudgetGuard)
    : Type 0 where
  same : g.settings ≡ base.settings
  counted : local_of day g.local ≡ total
  log : g.log ≡ (if calm_at f base.settings.ai_daily_budget total then base.log else day ∷ base.log)
  warned : is_warned day g.warned_day ≡ not (calm_at f base.settings.ai_daily_budget total)

below_mono :
    (f : Floats) (limit a b : ℕ)
    → 0 < limit
    → f.div a limit ≤ f.div b limit
    → calm_at f limit b ≡ true
    → calm_at f limit a ≡ true
below_mono f limit a b pos mono h = ground arith

-- A warning, given what was warned of before and whether the cost is below the mark.
warn_once-IsAt :
    (f : Floats) (day : String) (base : BudgetGuard) (total old : ℕ) (already below : Bool)
    (g : BudgetGuard)
    → g.settings ≡ base.settings
    → local_of day g.local ≡ total
    → below ≡ calm_at f base.settings.ai_daily_budget total
    → already ≡ not (calm_at f base.settings.ai_daily_budget old)
    → (below ≡ true → calm_at f base.settings.ai_daily_budget old ≡ true)
    → is_warned day g.warned_day ≡ already
    → g.log ≡ (if already then day ∷ base.log else base.log)
    → IsAt f day base total (warn_once true already below day g)
warn_once-IsAt f day base total old true false g same counted now before mono w l = record {
  same = same;
  counted = counted;
  log = rw (← now) l;
  warned = rw (← now) w;
}
warn_once-IsAt f day base total old true true g same counted now before mono w l =
    absurd (cc (mono refl))
warn_once-IsAt f day base total old false true g same counted now before mono w l = record {
  same = same;
  counted = counted;
  log = rw (← now) l;
  warned = rw (← now) w;
}
warn_once-IsAt f day base total old false false g same counted now before mono w l = record {
  same = same;
  counted = counted;
  log = rw (← now) (ap (λ r. day ∷ r) l);
  warned = rw (← now) (str_eq_refl day);
}

swapped : (b : Bool) (x y : List String) → (if b then x else y) ≡ (if not b then y else x)
swapped true x y = refl
swapped false x y = refl

-- One call.
record_cost-IsAt :
    (f : Floats) (day : String) (base : BudgetGuard) (total n : ℕ) (g : BudgetGuard)
    → IsRounding f
    → 0 < base.settings.ai_daily_budget
    → base.settings.ai_budget_enabled ≡ true
    → IsAt f day base total g
    → IsAt f day base (f.add total n) (record_cost f false failed failed day n g).1
unfolding record_cost
record_cost-IsAt f day base total n g law pos on at = elim (Bool-cases (n == 0)) [
  | inl nothing ↦
      let zero : 0 ≡ n = ground arith in
      let same_total : total ≡ f.add total n = sym (law.add_zero total) ∙ ap (f.add total) zero in
      subst (λ t. IsAt f day base t (record_cost f false failed failed day n g).1) same_total
        (rw nothing
          (record { same = at.same; counted = at.counted; log = at.log; warned = at.warned }))
  | inr costs ↦
      let limit = base.settings.ai_daily_budget in
      let sum = f.add (local_of day g.local) n in
      let now : calm_at f g.settings.ai_daily_budget sum ≡ calm_at f limit (f.add total n) =
        ap (λ (s : Settings). calm_at f s.ai_daily_budget sum) at.same
        ∙ ap (λ t. calm_at f limit (f.add t n)) at.counted in
      let enabled : g.settings.ai_budget_enabled ≡ true =
        ap (λ (s : Settings). s.ai_budget_enabled) at.same ∙ on in
      let g' = publish f sum (record g { local = (day, sum) ∷ [] }) in
      let rises = law.div-le total (f.add total n) limit pos (law.le-add total n) in
      rw costs (
        subst
          (λ b. IsAt f day base (f.add total n) (
            warn_once b (is_warned day g.warned_day) (calm_at f g.settings.ai_daily_budget sum) day
              g'))
          (sym enabled)
          (warn_once-IsAt f day base (f.add total n) total (is_warned day g.warned_day)
            (calm_at f g.settings.ai_daily_budget sum) g' at.same
            (rw (str_eq_refl day) (ap (λ t. f.add t n) at.counted)) now at.warned
            (λ h. below_mono f limit total (f.add total n) pos rises (sym now ∙ h)) refl
            (at.log ∙ swapped (calm_at f limit total) base.log (day ∷ base.log) ∙ rw at.warned)))
]

spend-IsAt :
    (f : Floats) (day : String) (base : BudgetGuard) (total : ℕ) (costs : List ℕ) (g : BudgetGuard)
    → IsRounding f
    → 0 < base.settings.ai_daily_budget
    → base.settings.ai_budget_enabled ≡ true
    → IsAt f day base total g
    → IsAt f day base (total_of f total costs) (spend f day costs g)
unfolding spend
spend-IsAt f day base total [] g law pos on at = at
spend-IsAt f day base total (n ∷ ns) g law pos on at =
    spend-IsAt f day base (f.add total n) ns _ law pos on
      (record_cost-IsAt f day base total n g law pos on at)

check_local :
    (f : Floats) (day later : String) (g : BudgetGuard)
    → g.settings.ai_budget_enabled ≡ true
    → (check f false failed day later g).0 ≡ ltb (local_of day g.local) g.settings.ai_daily_budget
unfolding check
check_local f day later g on = ground arith

calm_at-div :
    (f : Floats) (limit n : ℕ) → 0 < limit → calm_at f limit n ≡ ltb (f.div n limit) warn_at
calm_at-div f limit n pos = ground arith

-- Without Redis, over an arithmetic of floats in which adding 0.0 changes nothing, a sum is not
-- below its first part, 0.0 divided by a positive float is 0.0 and a quotient does not fall when
-- its dividend rises: after calls of one day whose guard starts the day with no cost and no
-- warning and has a positive budget that is on, a call is allowed exactly if the costs, added as
-- floats in the order of the calls, are below the budget, and the warning was logged once if this
-- sum, divided as a float by the budget, is at least the float 0.8, and not at all if it is less.
pub check-spend :
    (f : Floats) (day later : String) (costs : List ℕ) (g : BudgetGuard)
    → IsRounding f
    → g.settings.ai_budget_enabled ≡ true
    → 0 < g.settings.ai_daily_budget
    → local_of day g.local ≡ 0
    → is_warned day g.warned_day ≡ false
    → ((check f false failed day later (spend f day costs g)).0
        ≡ ltb (total_of f 0 costs) g.settings.ai_daily_budget)
      × ((spend f day costs g).log ≡ (
          if ltb (f.div (total_of f 0 costs) g.settings.ai_daily_budget) warn_at
          then g.log
          else day ∷ g.log))
check-spend f day later costs g law on pos nothing calm =
    let limit = g.settings.ai_daily_budget in
    let low : calm_at f limit 0 ≡ true =
      calm_at-div f limit 0 pos ∙ ap (λ q. ltb q warn_at) (law.zero-div limit pos) in
    let start : IsAt f day g 0 g = record {
      same = refl;
      counted = nothing;
      log = rw low;
      warned = rw low calm;
    } in
    let g' = spend f day costs g in
    let at = spend-IsAt f day g 0 costs g law pos on start in
    let enabled : g'.settings.ai_budget_enabled ≡ true =
      ap (λ (s : Settings). s.ai_budget_enabled) at.same ∙ on in
    (
      check_local f day later g' enabled
          ∙ ap (λ (s : Settings). ltb (local_of day g'.local) s.ai_daily_budget) at.same
          ∙ ap (λ n. ltb n limit) at.counted,
      at.log
          ∙ ap (λ b. if b then g.log else day ∷ g.log)
              (calm_at-div f limit (total_of f 0 costs) pos),
    )
