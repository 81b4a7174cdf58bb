-- ===== src/Fitment/Inference.antt =====
-- fitment/inference.py: verdicts from the claims of the sellers, and the rows and events they become.
pub mod Review
pub mod Verdicts
use yadakchi.Prelude.{
  ℕ, zero, suc, ◌+◌, String, Bool, true, false, not, ◌&&◌, ◌||◌, Option, none, some, List, [], ◌∷◌,
  ◌++◌, map, ltb, leb, ◌==◌, if◌then◌else◌, str_eq, is_some, find, exists, select, update_where,
  length, distinct, has_text, sorted_set, truthy,
}
use yadakchi.Fitment.Models.{
  FitmentStatus, compatible, incompatible, unknown, Provenance, rule, human, consensus, Vehicle,
  OfferReadModel, Claim, HumanCorrection, Rule, conflicting_seller_claims, overbroad_claim_only,
  consensus_part_number, single_seller_claim, negative_claim_only, human_correction,
  risky_family_missing_granularity, model_level_only, Evidence, Verdict, PartFitment, CrossRef,
  RiskyPartFamily, State, pending, skipped, settled, ReviewRequestState, Entry, SemanticPayload,
  FitmentDb, Env,
}
use yadakchi.Fitment.Outbox.{queue_fitted, queue_review_request}
use yadakchi.Fitment.Resolver.{resolve_vehicle, child_trims}

-- A `defaultdict(list)` by vehicle.
abbrev pub Claims : Type 0
Claims = List (String × List Claim)

-- `target[slug].append(claim)`
unfoldable pub add_claim : String → Claim → Claims → Claims
add_claim slug c [] = (slug, c ∷ []) ∷ []
add_claim slug c ((s, cs) ∷ m) =
    let rest = add_claim slug c m in if str_eq s slug then (s, cs ++ c ∷ []) ∷ m else (s, cs) ∷ rest

-- `target.get(slug, [])`
unfoldable pub claims_of : String → Claims → List Claim
claims_of slug [] = []
claims_of slug ((s, cs) ∷ m) = if str_eq s slug then cs else claims_of slug m

abbrev pub slugs_of : Claims → List String
slugs_of = map (λ p. p.0)

abbrev pub claim_by : OfferReadModel → String → String → Claim
claim_by offer name hint = record {
  offer_uid = offer.offer_uid;
  seller_key = offer.seller_key;
  title = offer.title_normalized;
  claim = name;
  hint = hint;
  overbroad = offer.overbroad_claim;
}

-- `for hint in hints`
unfoldable pub add_hints :
    Env → List Vehicle → OfferReadModel → String → List String → Claims → Claims
unfolding add_claim
add_hints env vehicles offer name [] m = m
add_hints env vehicles offer name (hint ∷ hints) m =
    add_hints env vehicles offer name hints (elim (resolve_vehicle env vehicles hint) [
      | none ↦ m
      | some slug ↦ add_claim slug (claim_by offer name hint) m
    ])

-- `_claim_map`, from the maps of the offers before.
unfoldable pub claim_map :
    Env → List Vehicle → List OfferReadModel → Claims → Claims → Claims × Claims
unfolding add_hints
claim_map env vehicles [] positive negative = (positive, negative)
claim_map env vehicles (offer ∷ offers) positive negative =
    claim_map env vehicles offers
      (add_hints env vehicles offer "compatible" offer.vehicle_hints positive)
      (add_hints env vehicles offer "incompatible" offer.vehicle_hints_excluded negative)

-- `_seller_count`
unfoldable pub seller_count : List Claim → ℕ
seller_count claims = length (distinct (map (λ (c : Claim). c.seller_key) claims))

abbrev pub base_evidence : List Claim → List Claim → Option String → Rule → Evidence
base_evidence positives negatives part_number r = record {
  part_number = part_number;
  agreeing_sellers = seller_count positives;
  disagreeing_sellers = seller_count negatives;
  positive_offers = positives;
  negative_offers = negatives;
  rule = r;
  request_uid = none;
  correction = none;
  required_granularity = none;
  resolved_to = none;
}

abbrev pub verdict : FitmentStatus → ℕ → Provenance → Evidence → Verdict
verdict s c p e = record { status = s; confidence = c; provenance = p; evidence = e }

abbrev pub is_review_of : String → String → ReviewRequestState → Bool
is_review_of part slug r = str_eq r.part_number part && str_eq r.vehicle slug

abbrev pub is_correction_of : String → String → HumanCorrection → Bool
is_correction_of part slug c = str_eq c.part_number part && str_eq c.vehicle slug

abbrev pub settled_by : String → ReviewRequestState → ReviewRequestState
settled_by uid r = record r { request_uid = uid; state = settled }

abbrev pub retried : String → ReviewRequestState → ReviewRequestState
retried uid r = record r { request_uid = uid; state = pending; attempt = r.attempt + 1 }

abbrev pub new_review : String → String → String → State → ReviewRequestState
new_review part slug uid s = record {
  part_number = part;
  vehicle = slug;
  request_uid = uid;
  state = s;
  attempt = 1;
}

-- `ReviewRequestState.objects.update_or_create`
abbrev pub settle_review :
    String → String → String → List ReviewRequestState → List ReviewRequestState
settle_review part slug uid rows =
    if exists (is_review_of part slug) rows
    then update_where (is_review_of part slug) (settled_by uid) rows
    else new_review part slug uid settled ∷ rows

abbrev pub is_skipped : State → Bool
is_skipped s = elim s [ pending ↦ false | skipped ↦ true | settled ↦ false ]

-- What `request_uid`, `review_should_emit` and the table of reviews are after the branch on
-- `correction`.
unfoldable pub review_state :
    Env
    → String
    → String
    → Option HumanCorrection
    → Option ReviewRequestState
    → List ReviewRequestState
    → String × Bool × List ReviewRequestState
review_state env part slug (some c) state rows =
    (c.request_uid, false, settle_review part slug c.request_uid rows)
review_state env part slug none none rows =
    let uid = env.conflict_uid part slug 1 in (uid, true, new_review part slug uid pending ∷ rows)
review_state env part slug none (some r) rows =
    let uid = env.conflict_uid part slug (r.attempt + 1) in
    if is_skipped r.state
    then (uid, true, update_where (is_review_of part slug) (retried uid) rows)
    else (r.request_uid, false, rows)

abbrev pub emit_review :
    Env → Bool → String → String → String → List Claim → List Claim → String → FitmentDb → FitmentDb
emit_review env emit uid part slug positives negatives trace_id db =
    if emit then queue_review_request env uid part slug positives negatives trace_id db else db

-- The branch `if positives and negatives`, after `if part_number`.
unfoldable pub request_review :
    Env → String → List Claim → List Claim → Option String → String → FitmentDb → String × FitmentDb
unfolding review_state
request_review env slug positives negatives none trace_id db = ("", db)
request_review env slug positives negatives (some part) trace_id db =
    let (uid, emit, rows) =
      review_state env part slug (find (is_correction_of part slug) db.corrections)
        (find (is_review_of part slug) db.reviews) db.reviews in
    (
      uid,
      emit_review env emit uid part slug positives negatives trace_id
          (record db { reviews = rows }),
    )

-- The rules on claims that do not conflict.
unfoldable pub agreed_verdict : List Claim → List Claim → Option String → Verdict
agreed_verdict positives negatives part_number =
    let n = seller_count positives in
    let evidence = base_evidence positives negatives part_number in
    if not (leb (length positives) 0) && not (exists (λ (c : Claim). not c.overbroad) positives)
    then verdict unknown 10 rule (evidence overbroad_claim_only)
    else if leb 5 n
    then verdict compatible 94 consensus (evidence consensus_part_number)
    else if leb 2 n
    then verdict compatible 68 consensus (evidence consensus_part_number)
    else if n == 1
    then verdict unknown 21 rule (evidence single_seller_claim)
    else verdict unknown 10 rule (evidence negative_claim_only)

-- `_computed_verdict`
unfoldable pub computed_verdict :
    Env
    → String
    → List Claim
    → List Claim
    → Option String
    → String
    → FitmentDb
    → Verdict × FitmentDb
computed_verdict env slug [] negatives part_number trace_id db =
    (agreed_verdict [] negatives part_number, db)
computed_verdict env slug (p ∷ ps) [] part_number trace_id db =
    (agreed_verdict (p ∷ ps) [] part_number, db)
computed_verdict env slug (p ∷ ps) (n ∷ ns) part_number trace_id db =
    let (uid, db') = request_review env slug (p ∷ ps) (n ∷ ns) (truthy part_number) trace_id db in
    (
      verdict unknown 0 rule
          (record (base_evidence (p ∷ ps) (n ∷ ns) part_number conflicting_seller_claims) {
            request_uid = some uid;
          }),
      db',
    )
