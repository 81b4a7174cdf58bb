-- ===== src/Fitment/Recompute.antt =====
-- The second half of fitment/inference.py: the output of each offer of a group, stored and announced.
pub mod Justified
use yadakchi.Prelude.{
  ℕ, ◌+◌, String, Bool, true, false, not, ◌&&◌, ◌||◌, Option, none, some, List, [], ◌∷◌, ◌++◌, map,
  if◌then◌else◌, str_eq, is_some, find, exists, select, update_where, distinct, has_text,
  sorted_set, truthy,
}
use yadakchi.Fitment.Models.{
  FitmentStatus, unknown, Provenance, rule, human, Vehicle, OfferReadModel, HumanCorrection,
  human_correction, risky_family_missing_granularity, model_level_only, Verdict, PartFitment,
  CrossRef, RiskyPartFamily, Entry, SemanticPayload, FitmentDb, Env,
}
use yadakchi.Fitment.Outbox.{queue_fitted}
use yadakchi.Fitment.Resolver.{child_trims}
use yadakchi.Fitment.Inference.{
  Claims, claims_of, slugs_of, claim_map, base_evidence, verdict, computed_verdict,
}

-- `_granularity_present`
unfoldable pub granularity_present : Env → String → String → Bool
granularity_present env required text =
    if str_eq required "year"
    then env.has_year text
    else if str_eq required "engine"
    then env.has_engine text
    else if str_eq required "engine_or_year"
    then env.has_engine text || env.has_year text
    else if str_eq required "year_and_engine"
    then env.has_engine text && env.has_year text
    else false

-- `_human_verdict`
unfoldable pub human_verdict : HumanCorrection → Verdict
human_verdict c = verdict c.status 100 human (record (base_evidence [] [] none human_correction) {
  request_uid = some c.request_uid;
  correction = some c;
})

-- A dictionary of verdicts by vehicle.
abbrev pub Verdicts : Type 0
Verdicts = List (String × Verdict)

abbrev pub verdict_of : String → Verdicts → Option Verdict
verdict_of slug [] = none
verdict_of slug ((s, v) ∷ m) = if str_eq s slug then some v else verdict_of slug m

-- `setdefault`
abbrev pub or_default : String → Verdict → Verdicts → Verdicts
or_default slug v m = if is_some (verdict_of slug m) then m else m ++ (slug, v) ∷ []

-- The verdict of a seller's claim on a part that needs more detail.
abbrev pub risky_verdict : RiskyPartFamily → Verdict → Verdict
risky_verdict risky v = verdict unknown 18 rule (record v.evidence {
  rule = risky_family_missing_granularity;
  required_granularity = some risky.required_granularity;
})

abbrev pub rule_verdict : Option RiskyPartFamily → Verdict → Verdict
rule_verdict none v = v
rule_verdict (some risky) v = risky_verdict risky v

abbrev entry_of : String → Verdict → List Entry
entry_of slug v = record { vehicle_slug = slug; verdict = v } ∷ []

-- The body of the loop over `all_slugs`; `missing` is the risky family whose detail is missing.
unfoldable pub entry_at :
    Option RiskyPartFamily → Option HumanCorrection → Option Verdict → String → List Entry
unfolding human_verdict
entry_at missing (some c) v slug = entry_of slug (human_verdict c)
entry_at missing none (some v) slug = entry_of slug (rule_verdict missing v)
entry_at missing none none slug = []

unfoldable pub entries_for :
    Option RiskyPartFamily → List HumanCorrection → Verdicts → List String → List Entry
unfolding entry_at
entries_for missing corrections verdicts [] = []
entries_for missing corrections verdicts (slug ∷ slugs) =
    entry_at missing (find (λ c. str_eq c.vehicle slug) corrections) (verdict_of slug verdicts) slug
    ++ entries_for missing corrections verdicts slugs

abbrev pub corrections_of : Option String → List HumanCorrection → List HumanCorrection
corrections_of none rows = []
corrections_of (some part) rows = select (λ c. str_eq c.part_number part) rows

abbrev touches : String → CrossRef → Bool
touches code c = str_eq c.code_a code || str_eq c.code_b code

abbrev crossref_codes_of : Option String → List CrossRef → List String
crossref_codes_of none rows = []
crossref_codes_of (some part) rows = sorted_set (
    map (λ (c : CrossRef). if str_eq c.code_a part then c.code_b else c.code_a)
      (select (touches part) rows))

-- `risky`, if `missing_risky_detail`.
unfoldable pub missing_detail :
    Env → OfferReadModel → Option RiskyPartFamily → Option RiskyPartFamily
unfolding granularity_present
missing_detail env offer none = none
missing_detail env offer (some risky) =
    if granularity_present env risky.required_granularity (
      env.normalize_persian
        (env.joined (offer.title_normalized ∷ offer.vehicle_hints ++ offer.vehicle_hints_excluded)))
    then none
    else some risky

-- `_semantic_payload`
unfoldable pub semantic_payload :
    Env → OfferReadModel → Verdicts → Option RiskyPartFamily → FitmentDb → SemanticPayload
unfolding entries_for missing_detail
semantic_payload env offer verdicts risky db =
    let part = truthy offer.part_number in
    let corrections = corrections_of part db.corrections in
    let missing = missing_detail env offer risky in
    record {
      offer_uid = offer.offer_uid;
      fitments = entries_for missing corrections verdicts (
          sorted_set
            (map (λ p. p.0) verdicts ++ map (λ (c : HumanCorrection). c.vehicle) corrections));
      crossref_codes = crossref_codes_of part db.crossrefs;
      risky_family = missing;
    }

abbrev pub is_vehicle : List Vehicle → Entry → Bool
is_vehicle vehicles e = exists (λ v. str_eq v.slug e.vehicle_slug) vehicles

abbrev pub fitment_row : String → ℕ → Entry → PartFitment
fitment_row offer_uid computed_at e = record {
  offer = offer_uid;
  vehicle = e.vehicle_slug;
  verdict = e.verdict;
  computed_at = computed_at;
}

-- The rows of the offer, replaced.
abbrev pub replaced : Env → OfferReadModel → SemanticPayload → String → FitmentDb → FitmentDb
replaced env offer payload trace_id db = record db {
  fitments =
      map (fitment_row offer.offer_uid env.now) payload.fitments
      ++ select (λ f. not (str_eq f.offer offer.offer_uid)) db.fitments;
}

abbrev pub hashed : String → FitmentDb → String → FitmentDb
hashed offer_uid db semantic = record db {
  offers =
      update_where (λ o. str_eq o.offer_uid offer_uid) (λ o. record o { output_hash = semantic })
        db.offers;
}

-- `_persist_offer_output`: whether the output changed; `none` is the KeyError of an entry whose
-- vehicle is not in the table.
unfoldable pub persist_offer_output :
    Env → OfferReadModel → SemanticPayload → String → FitmentDb → Option (Bool × FitmentDb)
persist_offer_output env offer payload trace_id db =
    let semantic = env.stable_hash payload in
    if str_eq offer.output_hash semantic
    then some (false, db)
    else if exists (λ e. not (is_vehicle db.vehicles e)) payload.fitments
    then none
    else some (
      true,
      hashed offer.offer_uid
          (queue_fitted env offer.offer_uid payload env.now semantic trace_id
            (replaced env offer payload trace_id db))
          semantic,
    )

-- `verdicts = {slug: _computed_verdict(...)}`
unfoldable pub computed_verdicts :
    Env → Claims → Claims → Option String → String → List String → FitmentDb → Verdicts × FitmentDb
computed_verdicts env positive negative part trace_id [] db = ([], db)
computed_verdicts env positive negative part trace_id (slug ∷ slugs) db =
    let (v, db') =
      computed_verdict env slug (claims_of slug positive) (claims_of slug negative) part trace_id
        db in
    let (vs, db'') = computed_verdicts env positive negative part trace_id slugs db' in
    ((slug, v) ∷ vs, db'')

abbrev pub model_level : Vehicle → Verdict
model_level v =
    verdict unknown 0 rule
      (record (base_evidence [] [] none model_level_only) { resolved_to = some v.slug })

unfoldable pub add_children : Vehicle → List Vehicle → Verdicts → Verdicts
add_children v [] m = m
add_children v (child ∷ children) m =
    add_children v children (or_default child.slug (model_level v) m)

abbrev is_empty {ℓ} : {A : Type ℓ} → List A → Bool
is_empty [] = true
is_empty (x ∷ xs) = false

abbrev pub add_trims : List Vehicle → Option Vehicle → Bool → Verdicts → Verdicts
add_trims vehicles none claimed m = m
add_trims vehicles (some v) claimed m =
    if claimed then add_children v (child_trims v vehicles) m else m

-- `for slug in list(target_slugs)`
unfoldable pub add_all_trims : List Vehicle → Claims → List String → Verdicts → Verdicts
unfolding add_children
add_all_trims vehicles positive [] m = m
add_all_trims vehicles positive (slug ∷ slugs) m = add_all_trims vehicles positive slugs (
    add_trims vehicles (find (λ v. str_eq v.slug slug && not (is_some v.trim)) vehicles)
      (not (is_empty (claims_of slug positive))) m)

abbrev pub risky_of : Option String → List RiskyPartFamily → Option RiskyPartFamily
risky_of none rows = none
risky_of (some part_type) rows = find (λ r. str_eq r.part_type part_type) rows

-- The loop over the offers; `none` rolls the transaction back.
unfoldable pub persist_all :
    Env → Verdicts → String → List OfferReadModel → FitmentDb → Option (ℕ × FitmentDb)
persist_all env verdicts trace_id [] db = some (0, db)
persist_all env verdicts trace_id (offer ∷ offers) db =
    elim (persist_offer_output env offer
      (semantic_payload env offer verdicts (risky_of (truthy offer.part_type) db.risky_families) db)
      trace_id db) [
        | none ↦ none
        | some (changed, db') ↦ elim (persist_all env verdicts trace_id offers db') [
          | none ↦ none
          | some (n, db'') ↦ some ((if changed then 1 else 0) + n, db'')
        ]
      ]

abbrev pub first_part : List OfferReadModel → Option String
first_part [] = none
first_part (o ∷ os) = elim (truthy o.part_number) [ none ↦ first_part os | some part ↦ some part ]

-- `recompute_group`; the table of offers is stored in the order of its model (Meta.ordering).
unfoldable pub recompute_group : Env → String → String → FitmentDb → Option (ℕ × FitmentDb)
unfolding computed_verdicts add_all_trims persist_all
recompute_group env group_key trace_id db =
    let all_offers = select (λ (o : OfferReadModel). str_eq o.group_key group_key) db.offers in
    let active_offers = select (λ (o : OfferReadModel). o.is_active) all_offers in
    let (positive, negative) = claim_map env db.vehicles active_offers [] [] in
    let targets = distinct (slugs_of positive ++ slugs_of negative) in
    let (computed, db') =
      computed_verdicts env positive negative (first_part active_offers) trace_id targets db in
    persist_all env (add_all_trims db.vehicles positive targets computed) trace_id all_offers db'
