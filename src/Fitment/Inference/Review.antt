-- ===== src/Fitment/Inference/Review.antt =====
-- The state of the review of a conflict in fitment/inference.py.
use yadakchi.Prelude.{
  ◌≡◌, refl, ap, inl, inr, ◌+◌, String, Bool, true, false, Option, none, some, List, [], ◌∷◌,
  str_eq_refl, Bool-cases, Option-cases, find, exists, update_where, truthy,
}
use yadakchi.Fitment.Models.{
  Claim, HumanCorrection, State, settled, ReviewRequestState, FitmentDb, Env, request_key,
}
use yadakchi.Fitment.Outbox.{is_queued, queue_review_request, queue_event}
use yadakchi.Fitment.Inference.{
  is_review_of, is_correction_of, settled_by, retried, new_review, settle_review, is_skipped,
  review_state, emit_review, request_review, computed_verdict,
}

-- Rows after a review was settled, when it is settled again.
update_where-settled :
    (part slug uid : String) (rows : List ReviewRequestState)
    → update_where
        (is_review_of part slug)
        (settled_by uid)
        (update_where (is_review_of part slug) (settled_by uid) rows)
      ≡ update_where (is_review_of part slug) (settled_by uid) rows
update_where-settled part slug uid [] = refl
update_where-settled part slug uid (r ∷ rows) = elim (Bool-cases (is_review_of part slug r)) [
  | inl hit ↦
      rw (hit, hit) (ap (λ z. settled_by uid r ∷ z) (update_where-settled part slug uid rows))
  | inr miss ↦ rw (miss, miss) (ap (λ z. r ∷ z) (update_where-settled part slug uid rows))
]

-- The review of the vehicle and the part keeps the two.
exists-update_where :
    (part slug : String) (f : ReviewRequestState → ReviewRequestState)
    (rows : List ReviewRequestState)
    → ((r : ReviewRequestState) → is_review_of part slug (f r) ≡ is_review_of part slug r)
    → exists (is_review_of part slug) (update_where (is_review_of part slug) f rows)
      ≡ exists (is_review_of part slug) rows
exists-update_where part slug f [] k = refl
exists-update_where part slug f (r ∷ rows) k = elim (Bool-cases (is_review_of part slug r)) [
  | inl hit ↦ rw (hit, k r, hit) refl
  | inr miss ↦ rw (miss, miss) (exists-update_where part slug f rows k)
]

is_review_of-new_review :
    (part slug uid : String) (s : State)
    → is_review_of part slug (new_review part slug uid s) ≡ true
is_review_of-new_review part slug uid s = rw (str_eq_refl part, str_eq_refl slug) refl

update_where-none :
    (part slug : String) (f : ReviewRequestState → ReviewRequestState)
    (rows : List ReviewRequestState)
    → exists (is_review_of part slug) rows ≡ false
    → update_where (is_review_of part slug) f rows ≡ rows
update_where-none part slug f [] e = refl
update_where-none part slug f (r ∷ rows) e = elim (Bool-cases (is_review_of part slug r)) [
  | inl hit ↦ absurd (cc (rw hit at e))
  | inr miss ↦ rw miss (ap (λ z. r ∷ z) (update_where-none part slug f rows (rw miss at e)))
]

settle_review_again :
    (part slug uid : String) (rows : List ReviewRequestState)
    → settle_review part slug uid (settle_review part slug uid rows)
      ≡ settle_review part slug uid rows
settle_review_again part slug uid rows = elim (Bool-cases (exists (is_review_of part slug) rows)) [
  | inl known ↦
      rw (known, exists-update_where part slug (settled_by uid) rows (λ r. refl), known)
        (update_where-settled part slug uid rows)
  | inr new ↦
      rw (new, str_eq_refl part, str_eq_refl slug)
        (ap (λ z. new_review part slug uid settled ∷ z)
          (update_where-none part slug (settled_by uid) rows new))
]

find-update_where :
    (part slug : String) (f : ReviewRequestState → ReviewRequestState)
    (rows : List ReviewRequestState) (r : ReviewRequestState)
    → ((q : ReviewRequestState) → is_review_of part slug (f q) ≡ is_review_of part slug q)
    → find (is_review_of part slug) rows ≡ some r
    → find (is_review_of part slug) (update_where (is_review_of part slug) f rows) ≡ some (f r)
find-update_where part slug f [] r k e = absurd (cc e)
find-update_where part slug f (q ∷ rows) r k e = elim (Bool-cases (is_review_of part slug q)) [
  | inl hit ↦ let same : q ≡ r = cc (rw hit at e) in rw (hit, k q, hit) (ap (λ z. some (f z)) same)
  | inr miss ↦ rw (miss, miss) (find-update_where part slug f rows r k (rw miss at e))
]

-- What was decided about the review stands, and nothing is asked again.
review_state_again :
    (env : Env) (part slug : String) (c : Option HumanCorrection) (rows : List ReviewRequestState)
    → let (uid, emit, rows') =
        review_state env part slug c (find (is_review_of part slug) rows) rows in
      review_state env part slug c (find (is_review_of part slug) rows') rows' ≡ (uid, false, rows')
unfolding review_state
review_state_again env part slug (some c) rows =
    ap (λ z. (c.request_uid, false, z)) (settle_review_again part slug c.request_uid rows)
review_state_again env part slug none rows =
    elim (Option-cases (find (is_review_of part slug) rows)) [
      | inl new ↦ rw (new, str_eq_refl part, str_eq_refl slug) refl
      | inr (r, found) ↦ elim (Bool-cases (is_skipped r.state)) [
        | inl skip ↦
            let uid = env.conflict_uid part slug (r.attempt + 1) in
            rw
              (
                review_state,
                found,
                skip,
                find-update_where part slug (retried uid) rows r (λ q. refl) found,
              )
              refl
        | inr asked ↦ rw (review_state, found, asked, found, asked) refl
      ]
    ]

-- The outbox keeps the other tables.
same_reviews :
    (env : Env) (emit : Bool) (uid part slug : String) (ps ns : List Claim) (trace_id : String)
    (db : FitmentDb)
    → ((emit_review env emit uid part slug ps ns trace_id db).reviews ≡ db.reviews)
      × ((emit_review env emit uid part slug ps ns trace_id db).corrections ≡ db.corrections)
unfolding queue_review_request queue_event
same_reviews env false uid part slug ps ns trace_id db = (refl, refl)
same_reviews env true uid part slug ps ns trace_id db =
    elim (Bool-cases (is_queued (request_key uid) db.outbox)) [
      | inl taken ↦ rw taken (refl, refl)
      | inr free ↦ rw free (refl, refl)
    ]

-- A request with the tables of a request that was made.
asked_again :
    (env : Env) (slug part uid : String) (ps ns : List Claim) (trace_id : String)
    (rows : List ReviewRequestState) (db : FitmentDb)
    → db.reviews ≡ rows
    → review_state env part slug
        (find (is_correction_of part slug) db.corrections)
        (find (is_review_of part slug) rows)
        rows
      ≡ (uid, false, rows)
    → request_review env slug ps ns (some part) trace_id db ≡ (uid, db)
unfolding request_review
asked_again env slug part uid ps ns trace_id rows db e same = rw (request_review, e, same) refl

request_review_again :
    (env : Env) (slug : String) (ps ns : List Claim) (part : Option String)
    (trace_id trace_id' : String) (db : FitmentDb)
    → let (uid, db') = request_review env slug ps ns part trace_id db in
      request_review env slug ps ns part trace_id' db' ≡ (uid, db')
unfolding request_review
request_review_again env slug ps ns none trace_id trace_id' db = refl
request_review_again env slug ps ns (some part) trace_id trace_id' db =
    let c = find (is_correction_of part slug) db.corrections in
    let (uid, emit, rows) =
      review_state env part slug c (find (is_review_of part slug) db.reviews) db.reviews in
    let kept = same_reviews env emit uid part slug ps ns trace_id (record db { reviews = rows }) in
    asked_again env slug part uid ps ns trace_id' rows
      (emit_review env emit uid part slug ps ns trace_id (record db { reviews = rows })) kept.0
      (rw kept.1 (review_state_again env part slug c db.reviews))

-- A verdict that is computed again on the tables that its computation left is the same, and no
-- review is stored, retried or asked for again.
pub computed_verdict_again :
    (env : Env) (slug : String) (positives negatives : List Claim) (part : Option String)
    (trace_id trace_id' : String) (db : FitmentDb)
    → let (v, db') = computed_verdict env slug positives negatives part trace_id db in
      computed_verdict env slug positives negatives part trace_id' db' ≡ (v, db')
unfolding computed_verdict
computed_verdict_again env slug [] ns part trace_id trace_id' db = refl
computed_verdict_again env slug (p ∷ ps) [] part trace_id trace_id' db = refl
computed_verdict_again env slug (p ∷ ps) (n ∷ ns) part trace_id trace_id' db =
    rw (request_review_again env slug (p ∷ ps) (n ∷ ns) (truthy part) trace_id trace_id' db) refl
