-- ===== src/Ai/Judgements.antt =====
-- A second request for a judgement of ai/service.py.
use yadakchi.Prelude.{
  ◌≡◌, refl, sym, ap, subst, ◌∙◌, String, Bool, true, false, Option, none, some, not, ◌&&◌, str_eq,
  inl, inr, Bool-cases,
}
use yadakchi.Ai.Json.{Json, Fields, field_of, text, float, flag, field, end}
use yadakchi.Ai.Schema.{Validated, valid, invalid, judge_answer, JudgeAnswer}
use yadakchi.Prelude.Int.{ℤ, leb_ℤ}
use yadakchi.Ai.Service.{
  Outside, Error, Result, ok, err, World, ◌>>=◌, cache_get, cache_set, budget_check, real,
}
use yadakchi.Ai.Judge.{
  ask_answer, keep_answer, JudgeRequest, JudgeResponse, judge, judge_key, judge_after,
  judge_request, judged_before, judged_with, store_judgement, judgement_fields, stored_judgement,
  judge_response_of,
}
use yadakchi.Ai.Calls.{bind_ok, ask-KeepsCache, check-KeepsCache}
use yadakchi.Ai.Stored.{
  CanStore, get-CanStore, keeps-CanStore, bound_ok, cache_get-calls, ReadsBack, cache_get-cache_set,
}

-- A response that pydantic takes has the parts that it was given, and is taken again from the cache.
response_taken :
    (same : Bool) (n : ℤ) (reason : String) (cached : Bool) (w : World) {x : JudgeResponse}
    {w' : World}
    → judge_response_of same n reason cached w ≡ (ok x, w')
    → (x ≡ record { is_same = same; confidence = n; reason_fa = reason; cached = cached })
      × (w' ≡ w)
      × ((v : World)
          → judge_response_of same n reason true v ≡ (
            ok (record { is_same = same; confidence = n; reason_fa = reason; cached = true }),
            v,
          ))
response_taken same n reason cached w h =
    elim (Bool-cases ((leb_ℤ (ℤ.pos 0) n && leb_ℤ n (ℤ.pos 1000000)) && not (str_eq reason ""))) [
      | inl fine ↦
          let taken = rw fine at h in
          (cc (ap (λ r. r.0) taken), sym (ap (λ r. r.1) taken), λ v. rw fine refl)
      | inr bad ↦ absurd (cc (ap (λ r. r.0) (rw bad at h)))
    ]

stored_answer :
    (out : Outside) (key : String) (v : Validated JudgeAnswer) (w : World) {x : JudgeResponse}
    {w' : World}
    → store_judgement out key v w ≡ (ok x, w')
    → (j : JudgeAnswer) × (x ≡ record {
      is_same = j.is_same;
      confidence = j.confidence;
      reason_fa = j.reason_fa;
      cached = false;
    })
      × (w' ≡ (cache_set out key (stored_judgement j) w).1)
      × ((u : World)
          → judge_response_of j.is_same j.confidence j.reason_fa true u
            ≡ (ok (record x { cached = true }), u))
unfolding cache_set
stored_answer out key (valid j) w h =
    let (shape, same, again) = response_taken j.is_same j.confidence j.reason_fa false _ h in
    (j, shape, same, rw shape again)
stored_answer out key (invalid message) w h = absurd (cc (ap (λ r. r.0) h))

abbrev was_cached : Result JudgeResponse → Bool
was_cached (ok x) = x.cached
was_cached (err e) = true

judged_with-cached :
    (out : Outside) (s r : Json) (n : Option ℤ) (w : World) {x : JudgeResponse} {w' : World}
    → judged_with out s r n w ≡ (ok x, w')
    → x.cached ≡ true
judged_with-cached out s r none w h = absurd (cc (ap (λ r. r.0) h))
judged_with-cached out s r (some n) w h =
    ap (λ (x : JudgeResponse). x.cached) ((response_taken _ n _ true w h).0)

judged_before-cached :
    (out : Outside) (s c r : Option Json) (w : World) {x : JudgeResponse} {w' : World}
    → judged_before out s c r w ≡ (ok x, w')
    → x.cached ≡ true
judged_before-cached out (some s) (some c) (some r) w h =
    judged_with-cached out s r (real out c) w h
judged_before-cached out (some s) (some c) none w h = absurd (cc (ap (λ r. r.0) h))
judged_before-cached out (some s) none r w h = absurd (cc (ap (λ r. r.0) h))
judged_before-cached out none c r w h = absurd (cc (ap (λ r. r.0) h))

unanswered :
    (out : Outside) (q : JudgeRequest) (o : Option Fields) (w : World) {x : JudgeResponse}
    {w' : World}
    → judge_after out q o w ≡ (ok x, w')
    → x.cached ≡ false
    → (budget_check out >>= λ _. ask_answer out q >>= keep_answer out q) w ≡ (ok x, w')
unanswered out q none w h fresh = h
unanswered out q (some fs) w h fresh = absurd (
    cc (
      sym fresh
      ∙ judged_before-cached out (field_of "is_same" fs) (field_of "confidence" fs)
          (field_of "reason_fa" fs) w h))

abbrev pub judgement_of : JudgeResponse → Fields
judgement_of x =
    field "is_same" (flag x.is_same)
      (field "confidence" (float x.confidence) (field "reason_fa" (text x.reason_fa) end))

module _ (out : Outside) where
  module _ (q : JudgeRequest) (w : World) (can : CanStore w) where
    -- Where the answer of `judge` was stored.
    judge_stored :
        {x : JudgeResponse} {w' : World}
        → (cache_get out (judge_key out q) >>= judge_after out q) w ≡ (ok x, w')
        → x.cached ≡ false
        → (v : World) × (j : JudgeAnswer) × CanStore v
          × (x ≡ record {
            is_same = j.is_same;
            confidence = j.confidence;
            reason_fa = j.reason_fa;
            cached = false;
          })
          × (w' ≡ (cache_set out (judge_key out q) (stored_judgement j) v).1)
          × ((u : World)
              → judge_response_of j.is_same j.confidence j.reason_fa true u
                ≡ (ok (record x { cached = true }), u))
    judge_stored h fresh =
        let key = judge_key out q in
        let (found, w1, e1, h1) = bind_ok (cache_get out key) (judge_after out q) w h in
        let can1 : CanStore w1 = subst CanStore (ap (λ r. r.1) e1) (get-CanStore out key w can) in
        let (_, w2, e2, h2) =
          bind_ok (budget_check out) (λ _. ask_answer out q >>= keep_answer out q) w1
            (unanswered out q found w1 h1 fresh) in
        let can2 : CanStore w2 =
          subst CanStore (ap (λ r. r.1) e2)
            (keeps-CanStore (budget_check out) (check-KeepsCache out) w1 can1) in
        let (a, w3, e3, h3) = bind_ok (ask_answer out q) (keep_answer out q) w2 h2 in
        let can3 : CanStore w3 = subst CanStore (ap (λ r. r.1) e3) (
          keeps-CanStore (ask_answer out q)
            (ask-KeepsCache out (judge_answer out.coercion) Error.judgement_invalid
              (judge_request out q))
            w2 can2) in
        let (j, shape, after, again) =
          stored_answer out key (judge_answer out.coercion a.data_) w3 h3 in
        (w3, j, can3, shape, after, again)

    -- If judge returns a response that is not from the cache, the cache is on and has room for an
    -- entry, and json reads back the value of this response as it wrote it, then the same request
    -- gives this response from the cache, and the model is not called again.
    pub judge_again :
        {x : JudgeResponse} {w' : World}
        → judge out q w ≡ (ok x, w')
        → x.cached ≡ false
        → ReadsBack out (judgement_of x)
        → ((judge out q w').0 ≡ ok (record x { cached = true }))
          × ((judge out q w').1.calls ≡ w'.calls)
    unfolding judge
    judge_again {x} {w'} h fresh back =
        let key = judge_key out q in
        let (v, j, can', shape, after, again) = judge_stored h fresh in
        let hit =
          cache_get-cache_set out key (judgement_fields j) v can'
            (subst (λ y. ReadsBack out (judgement_of y)) shape back) in
        let hit' =
          subst (λ u. (cache_get out key u).0 ≡ ok (some (judgement_fields j))) (sym after) hit in
        let e =
          bound_ok (judge_after out q) (cache_get out key w') (some (judgement_fields j)) hit' in
        let v' = (cache_get out key w').1 in
        rw (judge, e)
          (
            ap (λ r. r.0) (again v'),
            ap (λ (r : Result JudgeResponse × World). r.1.calls) (again v')
                ∙ cache_get-calls out key w',
          )
