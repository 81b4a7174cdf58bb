-- ===== src/Ai/Spending.antt =====
-- How often the operations of ai/service.py call the model, and that a spent budget stops them.
use yadakchi.Prelude.{
  ◌≡◌, refl, ap, inl, inr, ℕ, ◌+◌, ◌≤◌, String, Bool, true, false, Option, none, some, List, arith,
  length, str_eq, str_eq_iff, Bool-cases,
}
use yadakchi.Ai.Cache.{Reply, get}
use yadakchi.Ai.Budget.{Floats, BudgetGuard, used, check}
use yadakchi.Ai.Json.{Json, Fields, field_of, object_of}
use yadakchi.Ai.Schema.{
  Validated, valid, invalid, validate_extraction, judge_answer, JudgeAnswer, text_of,
}
use yadakchi.Prelude.Int.{ℤ}
use yadakchi.Ai.Service.{
  Outside, Error, Result, ok, err, World, M, ◌>>=◌, cache_get, bound, cache_set, budget_check,
  shared_redis, decode, real,
}
use yadakchi.Ai.Judge.{
  ask_answer, keep_answer, JudgeRequest, judge, judge_key, judge_after, judge_request,
  judged_before, judged_with, store_judgement, stored_judgement, judge_response_of,
}
use yadakchi.Ai.Extract.{
  ExtractRequest, ExtractResponse, extract, extract_key, extract_after, extract_request, extracted,
  ask_fields, keep_fields, store_extraction, validated, extract_response_of, floats_of,
}
use yadakchi.Ai.Calls.{Calls, bind-Calls, ask-Calls, check-Calls}

get-Calls : (out : Outside) (key : String) → Calls 0 (cache_get out key)
unfolding cache_get
get-Calls out key w = omega arith

set-Calls : (out : Outside) (key : String) (v : Json) → Calls 0 (cache_set out key v)
unfolding cache_set
set-Calls out key v w = omega arith

store_extraction-Calls :
    (out : Outside) (key model : String) (v : Validated (Fields × List (String × ℤ)))
    → Calls 0 (store_extraction out key model v)
unfolding cache_set
store_extraction-Calls out key model (valid (fs, cs)) w = omega arith
store_extraction-Calls out key model (invalid message) w = omega arith

judge_response-Calls :
    (same : Bool) (n : ℤ) (reason : String) (cached : Bool)
    → Calls 0 (judge_response_of same n reason cached)
judge_response-Calls same n reason cached w = ground arith

store_judgement-Calls :
    (out : Outside) (key : String) (v : Validated JudgeAnswer) → Calls 0 (store_judgement out key v)
unfolding cache_set
store_judgement-Calls out key (valid j) w =
    bind-Calls 0 0 (cache_set out key (stored_judgement j))
      (λ _. judge_response_of j.is_same j.confidence j.reason_fa false)
      (set-Calls out key (stored_judgement j))
      (λ _. judge_response-Calls j.is_same j.confidence j.reason_fa false) w
store_judgement-Calls out key (invalid message) w = omega arith

validated-Calls : (o : Option ExtractResponse) → Calls 0 (validated o)
validated-Calls none w = omega arith
validated-Calls (some x) w = omega arith

extracted-Calls : (out : Outside) (f c m : Option Json) → Calls 0 (extracted out f c m)
extracted-Calls out (some f) (some c) (some m) w = validated-Calls _ w
extracted-Calls out (some f) (some c) none w = omega arith
extracted-Calls out (some f) none m w = omega arith
extracted-Calls out none c m w = omega arith

judged_with-Calls : (out : Outside) (s r : Json) (n : Option ℤ) → Calls 0 (judged_with out s r n)
judged_with-Calls out s r none w = omega arith
judged_with-Calls out s r (some n) w = judge_response-Calls _ n _ true w

judged_before-Calls : (out : Outside) (s c r : Option Json) → Calls 0 (judged_before out s c r)
judged_before-Calls out (some s) (some c) (some r) w = judged_with-Calls out s r (real out c) w
judged_before-Calls out (some s) (some c) none w = omega arith
judged_before-Calls out (some s) none r w = omega arith
judged_before-Calls out none c r w = omega arith

extract_after-Calls :
    (out : Outside) (r : ExtractRequest) (o : Option Fields) → Calls 2 (extract_after out r o)
extract_after-Calls out r (some fs) w = omega (
  arith,
  extracted-Calls out (field_of "fields" fs) (field_of "confidences" fs) (field_of "model" fs) w,
)
extract_after-Calls out r none w =
    bind-Calls 0 2 (budget_check out) (λ _. ask_fields out r >>= keep_fields out r)
      (check-Calls out)
      (λ _.
        bind-Calls 2 0 (ask_fields out r) (keep_fields out r)
          (ask-Calls out (validate_extraction out.coercion) Error.extraction_invalid
            (extract_request out r))
          (λ a.
            store_extraction-Calls out (extract_key out r) a.completion.model
              (validate_extraction out.coercion a.data_)))
      w

judge_after-Calls :
    (out : Outside) (r : JudgeRequest) (o : Option Fields) → Calls 2 (judge_after out r o)
judge_after-Calls out r (some fs) w = omega (
  arith,
  judged_before-Calls out (field_of "is_same" fs) (field_of "confidence" fs)
      (field_of "reason_fa" fs) w,
)
judge_after-Calls out r none w =
    bind-Calls 0 2 (budget_check out) (λ _. ask_answer out r >>= keep_answer out r)
      (check-Calls out)
      (λ _.
        bind-Calls 2 0 (ask_answer out r) (keep_answer out r)
          (ask-Calls out (judge_answer out.coercion) Error.judgement_invalid (judge_request out r))
          (λ a. store_judgement-Calls out (judge_key out r) (judge_answer out.coercion a.data_)))
      w

extract-Calls : (out : Outside) (r : ExtractRequest) → Calls 2 (extract out r)
unfolding extract
extract-Calls out r w = elim (Bool-cases (str_eq r.schema_name "offer_fields")) [
  | inl known ↦
      rw (extract, known)
        (bind-Calls 0 2 (cache_get out (extract_key out r)) (extract_after out r)
          (get-Calls out (extract_key out r)) (extract_after-Calls out r) w)
  | inr other ↦ rw (extract, other) (omega arith)
]

judge-Calls : (out : Outside) (r : JudgeRequest) → Calls 2 (judge out r)
unfolding judge
judge-Calls out r =
    bind-Calls 0 2 (cache_get out (judge_key out r)) (judge_after out r)
      (get-Calls out (judge_key out r)) (judge_after-Calls out r)

-- extract and judge call the model at most twice, whatever it answers.
pub extract-judge-calls :
    (out : Outside) (q : ExtractRequest) (r : JudgeRequest) (w : World)
    → (length (extract out q w).1.calls ≤ length w.calls + 2)
      × (length (judge out r w).1.calls ≤ length w.calls + 2)
extract-judge-calls out q r w = (extract-Calls out q w, judge-Calls out r w)

-- Today's budget is spent, by the counter that the guard reads after the look into the cache.
abbrev pub IsSpent : Outside → String → World → Type 0
IsSpent out key w =
    let v = (cache_get out key w).1 in
    (v.guard.settings.ai_budget_enabled ≡ true)
    × (v.guard.settings.ai_daily_budget
        ≤ used (shared_redis v.cache) (out.redis_count v.clock) (out.today v.clock) v.guard)

check_spent :
    (f : Floats) (redis : Bool) (reply : Reply (Option ℕ)) (day later : String) (g : BudgetGuard)
    → g.settings.ai_budget_enabled ≡ true
    → g.settings.ai_daily_budget ≤ used redis reply day g
    → (check f redis reply day later g).0 ≡ false
unfolding check
check_spent f redis reply day later g on spent = ground arith

refused :
    (out : Outside) (w : World)
    → w.guard.settings.ai_budget_enabled ≡ true
    → w.guard.settings.ai_daily_budget
      ≤ used (shared_redis w.cache) (out.redis_count w.clock) (out.today w.clock) w.guard
    → ((budget_check out w).0 ≡ err Error.budget_exhausted)
      × ((budget_check out w).1.calls ≡ w.calls)
unfolding budget_check
refused out w on spent =
    let no_ =
      check_spent out.floats (shared_redis w.cache) (out.redis_count w.clock) (out.today w.clock)
        (out.today (w.clock + 1)) w.guard on spent in
    rw (budget_check, no_) (refl, refl)

-- A run that called no model: any answer it gave is from the cache.
abbrev pub IsFree : World → Result ExtractResponse × World → Type 0
IsFree w r = (r.1.calls ≡ w.calls) × ((x : ExtractResponse) → r.0 ≡ ok x → x.cached ≡ true)

validated-IsFree :
    (f c : Option Fields) (m : Option String) (w : World)
    → IsFree w (validated (extract_response_of f c m) w)
validated-IsFree (some f) (some c) (some m) w = (refl, λ x h. cc (ap cached_of h))
  where
    cached_of : Result ExtractResponse → Bool
    cached_of (ok x) = x.cached
    cached_of (err e) = true
validated-IsFree (some f) (some c) none w = (refl, λ x h. absurd (cc h))
validated-IsFree (some f) none m w = (refl, λ x h. absurd (cc h))
validated-IsFree none c m w = (refl, λ x h. absurd (cc h))

pub extracted-IsFree :
    (out : Outside) (f c m : Option Json) (w : World) → IsFree w (extracted out f c m w)
extracted-IsFree out (some f) (some c) (some m) w =
    validated-IsFree (object_of (some f)) (floats_of out (object_of (some c))) (text_of m) w
extracted-IsFree out (some f) (some c) none w = (refl, λ x h. absurd (cc h))
extracted-IsFree out (some f) none m w = (refl, λ x h. absurd (cc h))
extracted-IsFree out none c m w = (refl, λ x h. absurd (cc h))

bound-refused :
    {A B : Type 0} (f : A → M B) (r : Result A × World) (e : Error)
    → r.0 ≡ err e
    → bound f r ≡ (err e, r.1)
bound-refused f (ok a, w) e h = absurd (cc h)
bound-refused f (err d, w) e h = ap (λ (x : Error). (err x, w)) (cc h)

module _ (out : Outside) (q : ExtractRequest) where
  after_spent :
      (o : Option Fields) (v : World)
      → v.guard.settings.ai_budget_enabled ≡ true
      → v.guard.settings.ai_daily_budget
        ≤ used (shared_redis v.cache) (out.redis_count v.clock) (out.today v.clock) v.guard
      → IsFree v (extract_after out q o v)
        × (o ≡ none → (extract_after out q o v).0 ≡ err Error.budget_exhausted)
  after_spent (some fs) v on spent = (
    extracted-IsFree out (field_of "fields" fs) (field_of "confidences" fs) (field_of "model" fs) v,
    λ h. absurd (cc h),
  )
  after_spent none v on spent =
      let r = refused out v on spent in
      let e =
        bound-refused (λ _. ask_fields out q >>= keep_fields out q) (budget_check out v)
          Error.budget_exhausted (r.0) in
      rw e ((r.1, λ x h. absurd (cc h)), λ _. refl)

  -- If the budget is on and spent, extract for the registered schema calls no model, any response
  -- that it gives is from the cache, and on a miss it raises that the budget is exhausted.
  pub extract_spent :
      (w : World)
      → q.schema_name ≡ "offer_fields"
      → IsSpent out (extract_key out q) w
      → IsFree w (extract out q w)
        × ((cache_get out (extract_key out q) w).0 ≡ ok none
            → (extract out q w).0 ≡ err Error.budget_exhausted)
  unfolding extract cache_get
  extract_spent w named (on, spent) =
      let known = (str_eq_iff q.schema_name "offer_fields").1 named in
      let v = (cache_get out (extract_key out q) w).1 in
      let found =
        (get (decode out) (out.redis_get w.clock (extract_key out q)) (extract_key out q)
          w.cache).0 in
      let (free, refused) = after_spent found v on spent in
      rw (extract, known) (free, λ h. refused (cc h))
