-- ===== src/Ai/Answers.antt =====
-- A second request for an extraction of ai/service.py.
use yadakchi.Prelude.{
  ◌≡◌, refl, sym, ap, subst, ◌∙◌, inl, inr, String, true, false, Option, none, some, List, [], ◌∷◌,
  str_eq, Bool-cases,
}
use yadakchi.Ai.Json.{Fields, field_of, obj, text, field, end}
use yadakchi.Ai.Schema.{Validated, valid, invalid, validate_extraction}
use yadakchi.Prelude.Int.{ℤ}
use yadakchi.Ai.Service.{
  Outside, Error, Result, ok, World, ◌>>=◌, cache_get, cache_set, budget_check,
}
use yadakchi.Ai.Extract.{
  ExtractRequest, ExtractResponse, extract, extract_key, extract_after, extract_request, floats,
  as_floats, ask_fields, keep_fields, store_extraction, extraction_fields, stored_extraction,
}
use yadakchi.Ai.Spending.{extracted-IsFree}
use yadakchi.Ai.Calls.{bind_ok, ask-KeepsCache, check-KeepsCache}
use yadakchi.Ai.Stored.{
  CanStore, get-CanStore, keeps-CanStore, bound_ok, cache_get-calls, ReadsBack, cache_get-cache_set,
}

as_floats-floats :
    (out : Outside) (cs : List (String × ℤ)) → as_floats out (floats cs) ≡ some (floats cs)
as_floats-floats out [] = refl
as_floats-floats out ((name, n) ∷ cs) = rw (as_floats-floats out cs) refl

taken_again :
    (out : Outside) (q : ExtractRequest) (fs : Fields) (cs : List (String × ℤ)) (model : String)
    (v : World)
    → extract_after out q (some (extraction_fields fs cs model)) v ≡ (
      ok (record {
        fields = obj fs;
        confidences = obj (floats cs);
        model = text model;
        cached = true;
      }),
      v,
    )
taken_again out q fs cs model v = rw (as_floats-floats out cs) refl

-- What a successful `store_extraction` did, and `store_judgement`.
stored_fields :
    (out : Outside) (key model : String) (v : Validated (Fields × List (String × ℤ))) (w : World)
    → {x : ExtractResponse} {w' : World} → store_extraction out key model v w ≡ (ok x, w')
    → (fs : Fields) × (cs : List (String × ℤ)) × (x ≡ record {
      fields = obj fs;
      confidences = obj (floats cs);
      model = text model;
      cached = false;
    })
      × (w' ≡ (cache_set out key (stored_extraction fs cs model) w).1)
unfolding cache_set
stored_fields out key model (valid (fs, cs)) w h =
    (fs, cs, cc (ap (λ r. r.0) h), sym (ap (λ r. r.1) h))
stored_fields out key model (invalid message) w h = absurd (cc (ap (λ r. r.0) h))

-- An answer that is not from the cache was asked for.
missed :
    (out : Outside) (q : ExtractRequest) (o : Option Fields) (w : World) {x : ExtractResponse}
    {w' : World}
    → extract_after out q o w ≡ (ok x, w')
    → x.cached ≡ false
    → (budget_check out >>= λ _. ask_fields out q >>= keep_fields out q) w ≡ (ok x, w')
missed out q none w h fresh = h
missed out q (some fs) w {x} h fresh =
    let free =
      extracted-IsFree out (field_of "fields" fs) (field_of "confidences" fs) (field_of "model" fs)
        w in
    absurd (cc (free.1 x (ap (λ r. r.0) h)))

-- The value that is stored for a response.
abbrev pub extraction_of : ExtractResponse → Fields
extraction_of x =
    field "fields" x.fields (field "confidences" x.confidences (field "model" x.model end))

module _ (out : Outside) where
  module _ (q : ExtractRequest) (w : World) (can : CanStore w) where
    -- Where the answer of `extract` was stored.
    extract_stored :
        {x : ExtractResponse} {w' : World}
        → (cache_get out (extract_key out q) >>= extract_after out q) w ≡ (ok x, w')
        → x.cached ≡ false
        → (v : World) × (fs : Fields) × (cs : List (String × ℤ)) × (model : String) × CanStore v
          × (x ≡ record {
            fields = obj fs;
            confidences = obj (floats cs);
            model = text model;
            cached = false;
          })
          × (w' ≡ (cache_set out (extract_key out q) (stored_extraction fs cs model) v).1)
    extract_stored h fresh =
        let key = extract_key out q in
        let (found, w1, e1, h1) = bind_ok (cache_get out key) (extract_after out q) w h in
        let can1 : CanStore w1 = subst CanStore (ap (λ r. r.1) e1) (get-CanStore out key w can) in
        let (_, w2, e2, h2) =
          bind_ok (budget_check out) (λ _. ask_fields out q >>= keep_fields out q) w1
            (missed out q found w1 h1 fresh) in
        let can2 : CanStore w2 =
          subst CanStore (ap (λ r. r.1) e2)
            (keeps-CanStore (budget_check out) (check-KeepsCache out) w1 can1) in
        let (a, w3, e3, h3) = bind_ok (ask_fields out q) (keep_fields out q) w2 h2 in
        let can3 : CanStore w3 = subst CanStore (ap (λ r. r.1) e3) (
          keeps-CanStore (ask_fields out q)
            (ask-KeepsCache out (validate_extraction out.coercion) Error.extraction_invalid
              (extract_request out q))
            w2 can2) in
        let (fs, cs, shape, after) =
          stored_fields out key a.completion.model (validate_extraction out.coercion a.data_) w3
            h3 in
        (w3, fs, cs, a.completion.model, can3, shape, after)

    -- If extract returns a response that is not from the cache, the cache is on and has room for
    -- an entry, and json reads back the value of this response as it wrote it, then the same
    -- request gives this response from the cache, and the model is not called again, whatever
    -- Redis and the budget say.
    pub extract_again :
        {x : ExtractResponse} {w' : World}
        → extract out q w ≡ (ok x, w')
        → x.cached ≡ false
        → ReadsBack out (extraction_of x)
        → ((extract out q w').0 ≡ ok (record x { cached = true }))
          × ((extract out q w').1.calls ≡ w'.calls)
    unfolding extract
    extract_again {x} {w'} h fresh back = elim (Bool-cases (str_eq q.schema_name "offer_fields")) [
      | inr other ↦ absurd (cc (ap (λ r. r.0) (rw (extract, other) at h)))
      | inl known ↦
          let key = extract_key out q in
          let (v, fs, cs, model, can', shape, after) =
            extract_stored (rw (extract, known) at h) fresh in
          let hit =
            cache_get-cache_set out key (extraction_fields fs cs model) v can'
              (subst (λ y. ReadsBack out (extraction_of y)) shape back) in
          let hit' =
            subst (λ u. (cache_get out key u).0 ≡ ok (some (extraction_fields fs cs model)))
              (sym after) hit in
          let e =
            bound_ok (extract_after out q) (cache_get out key w')
              (some (extraction_fields fs cs model)) hit' in
          let again = taken_again out q fs cs model (cache_get out key w').1 in
          rw (extract, known, e)
            (
              ap (λ r. r.0) again
                  ∙ ap (λ (y : ExtractResponse). ok (record y { cached = true })) (sym shape),
              ap (λ (r : Result ExtractResponse × World). r.1.calls) again
                  ∙ cache_get-calls out key w',
            )
    ]
