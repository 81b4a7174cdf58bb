-- ===== src/Fitment/Recompute/Justified.antt =====
-- What the stored verdicts of fitment/inference.py rest on.
use yadakchi.Prelude.{
  ◌≡◌, refl, subst, inl, inr, ℕ, String, Bool, true, false, not, Option, none, some, List, [], ◌∷◌,
  ◌++◌, map, Bool-cases, Option-cases, str_eq, is_some, find, exists, select, All, truthy, distinct,
  sorted_set,
}
use yadakchi.Fitment.Models.{
  Vehicle, OfferReadModel, Claim, HumanCorrection, Verdict, PartFitment, RiskyPartFamily, Entry,
  SemanticPayload, Payload, fitted_payload, DedupeKey, fitted_key, FitmentDb, Env,
}
use yadakchi.Fitment.Outbox.{is_queued, queue_event, queue_fitted, queue_review_request}
use yadakchi.Fitment.Inference.{
  Claims, claims_of, slugs_of, claim_map, computed_verdict, request_review, emit_review,
}
use yadakchi.Fitment.Inference.Verdicts.{IsJustified, computed_verdict-IsJustified}
use yadakchi.Fitment.Recompute.{
  human_verdict, Verdicts, verdict_of, or_default, rule_verdict, entry_at, entries_for,
  semantic_payload, fitment_row, persist_offer_output, computed_verdicts, model_level, add_children,
  add_trims, add_all_trims, persist_all, recompute_group, is_vehicle, hashed, replaced, risky_of,
  first_part, corrections_of, missing_detail,
}

abbrev AllJustified : Verdicts → Type 0
AllJustified = All (λ p. IsJustified p.1)

abbrev pub IsCautious : FitmentDb → Type 0
IsCautious db = All (λ (f : PartFitment). IsJustified f.verdict) db.fitments

module _ {A : Type 0} (P : A → Type 0) where
  All-append : (xs ys : List A) → All P xs → All P ys → All P (xs ++ ys)
  All-append [] ys h k = k
  All-append (x ∷ xs) ys h k = (h.0, All-append xs ys h.1 k)

  All-select : (p : A → Bool) (xs : List A) → All P xs → All P (select p xs)
  All-select p [] h = tt
  All-select p (x ∷ xs) h = elim (Bool-cases (p x)) [
    | inl hit ↦ rw hit (h.0, All-select p xs h.1)
    | inr miss ↦ rw miss (All-select p xs h.1)
  ]

verdict_of-IsJustified :
    (slug : String) (m : Verdicts) (v : Verdict)
    → AllJustified m
    → verdict_of slug m ≡ some v
    → IsJustified v
verdict_of-IsJustified slug [] v h e = absurd (cc e)
verdict_of-IsJustified slug ((s, w) ∷ m) v h e = elim (Bool-cases (str_eq s slug)) [
  | inl hit ↦ let same : w ≡ v = cc (rw hit at e) in subst IsJustified same h.0
  | inr miss ↦ verdict_of-IsJustified slug m v h.1 (rw miss at e)
]

or_default-AllJustified :
    (slug : String) (v : Verdict) (m : Verdicts)
    → IsJustified v
    → AllJustified m
    → AllJustified (or_default slug v m)
or_default-AllJustified slug v m hv hm = elim (Bool-cases (is_some (verdict_of slug m))) [
  | inl known ↦ rw known hm
  | inr new ↦ rw new (All-append (λ p. IsJustified p.1) m _ hm (hv, tt))
]

add_children-AllJustified :
    (v : Vehicle) (children : List Vehicle) (m : Verdicts)
    → AllJustified m
    → AllJustified (add_children v children m)
unfolding add_children
add_children-AllJustified v [] m h = h
add_children-AllJustified v (c ∷ cs) m h =
    add_children-AllJustified v cs (or_default c.slug (model_level v) m)
      (or_default-AllJustified c.slug (model_level v) m (inr (inl refl)) h)

add_trims-AllJustified :
    (vehicles : List Vehicle) (found : Option Vehicle) (claimed : Bool) (m : Verdicts)
    → AllJustified m
    → AllJustified (add_trims vehicles found claimed m)
add_trims-AllJustified vehicles none claimed m h = h
add_trims-AllJustified vehicles (some v) false m h = h
add_trims-AllJustified vehicles (some v) true m h = add_children-AllJustified v _ m h

add_all_trims-AllJustified :
    (vehicles : List Vehicle) (positive : Claims) (slugs : List String) (m : Verdicts)
    → AllJustified m
    → AllJustified (add_all_trims vehicles positive slugs m)
unfolding add_all_trims
add_all_trims-AllJustified vehicles positive [] m h = h
add_all_trims-AllJustified vehicles positive (slug ∷ slugs) m h =
    add_all_trims-AllJustified vehicles positive slugs _ (add_trims-AllJustified vehicles _ _ m h)

computed_verdicts-AllJustified :
    (env : Env) (positive negative : Claims) (part : Option String) (trace_id : String)
    (slugs : List String) (db : FitmentDb)
    → AllJustified (computed_verdicts env positive negative part trace_id slugs db).0
unfolding computed_verdicts
computed_verdicts-AllJustified env positive negative part trace_id [] db = tt
computed_verdicts-AllJustified env positive negative part trace_id (slug ∷ slugs) db = (
  computed_verdict-IsJustified env slug (claims_of slug positive) (claims_of slug negative) part
      trace_id db,
  computed_verdicts-AllJustified env positive negative part trace_id slugs _,
)

-- The outbox is apart from the verdicts.
fitments-queue_event :
    (env : Env) (type key : String) (payload : Payload) (trace_id : String) (dedupe : DedupeKey)
    (db : FitmentDb)
    → (queue_event env type key payload trace_id dedupe db).fitments ≡ db.fitments
unfolding queue_event
fitments-queue_event env type key payload trace_id dedupe db =
    elim (Bool-cases (is_queued dedupe db.outbox)) [
      | inl taken ↦ rw taken refl
      | inr free ↦ rw free refl
    ]

fitments-emit_review :
    (env : Env) (emit : Bool) (uid part slug : String) (ps ns : List Claim) (trace_id : String)
    (db : FitmentDb)
    → (emit_review env emit uid part slug ps ns trace_id db).fitments ≡ db.fitments
unfolding queue_review_request
fitments-emit_review env false uid part slug ps ns trace_id db = refl
fitments-emit_review env true uid part slug ps ns trace_id db =
    fitments-queue_event env _ _ _ _ _ db

fitments-request_review :
    (env : Env) (slug : String) (ps ns : List Claim) (part : Option String) (trace_id : String)
    (db : FitmentDb)
    → (request_review env slug ps ns part trace_id db).1.fitments ≡ db.fitments
unfolding request_review
fitments-request_review env slug ps ns none trace_id db = refl
fitments-request_review env slug ps ns (some part) trace_id db =
    fitments-emit_review env _ _ part slug ps ns trace_id _

fitments-computed_verdict :
    (env : Env) (slug : String) (ps ns : List Claim) (part : Option String) (trace_id : String)
    (db : FitmentDb)
    → (computed_verdict env slug ps ns part trace_id db).1.fitments ≡ db.fitments
unfolding computed_verdict
fitments-computed_verdict env slug [] ns part trace_id db = refl
fitments-computed_verdict env slug (p ∷ ps) [] part trace_id db = refl
fitments-computed_verdict env slug (p ∷ ps) (n ∷ ns) part trace_id db =
    fitments-request_review env slug (p ∷ ps) (n ∷ ns) (truthy part) trace_id db

computed_verdicts-IsCautious :
    (env : Env) (positive negative : Claims) (part : Option String) (trace_id : String)
    (slugs : List String) (db : FitmentDb)
    → IsCautious db
    → IsCautious (computed_verdicts env positive negative part trace_id slugs db).1
unfolding computed_verdicts
computed_verdicts-IsCautious env positive negative part trace_id [] db h = h
computed_verdicts-IsCautious env positive negative part trace_id (slug ∷ slugs) db h =
    computed_verdicts-IsCautious env positive negative part trace_id slugs _ (
      rw
        (fitments-computed_verdict env slug (claims_of slug positive) (claims_of slug negative) part
          trace_id db)
        h)

rule_verdict-IsJustified :
    (missing : Option RiskyPartFamily) (v : Verdict)
    → IsJustified v
    → IsJustified (rule_verdict missing v)
rule_verdict-IsJustified none v h = h
rule_verdict-IsJustified (some r) v h = inr (inl refl)

abbrev JustifiedEntries : List Entry → Type 0
JustifiedEntries = All (λ (e : Entry). IsJustified e.verdict)

entry_at-IsJustified :
    (missing : Option RiskyPartFamily) (c : Option HumanCorrection) (v : Option Verdict)
    (slug : String)
    → ((w : Verdict) → v ≡ some w → IsJustified w)
    → JustifiedEntries (entry_at missing c v slug)
unfolding entry_at human_verdict
entry_at-IsJustified missing (some c) v slug h = (inl refl, tt)
entry_at-IsJustified missing none none slug h = tt
entry_at-IsJustified missing none (some v) slug h =
    (rule_verdict-IsJustified missing v (h v refl), tt)

entries_for-IsJustified :
    (missing : Option RiskyPartFamily) (corrections : List HumanCorrection) (m : Verdicts)
    (slugs : List String)
    → AllJustified m
    → JustifiedEntries (entries_for missing corrections m slugs)
unfolding entries_for
entries_for-IsJustified missing corrections m [] h = tt
entries_for-IsJustified missing corrections m (slug ∷ slugs) h =
    All-append (λ (e : Entry). IsJustified e.verdict)
      (entry_at missing (find (λ c. str_eq c.vehicle slug) corrections) (verdict_of slug m) slug) _
      (entry_at-IsJustified missing _ (verdict_of slug m) slug
        (λ w e. verdict_of-IsJustified slug m w h e))
      (entries_for-IsJustified missing corrections m slugs h)

semantic_payload-IsJustified :
    (env : Env) (offer : OfferReadModel) (m : Verdicts) (risky : Option RiskyPartFamily)
    (db : FitmentDb)
    → AllJustified m
    → JustifiedEntries (semantic_payload env offer m risky db).fitments
unfolding semantic_payload
semantic_payload-IsJustified env offer m risky db h =
    let corrections = corrections_of (truthy offer.part_number) db.corrections in
    entries_for-IsJustified (missing_detail env offer risky) corrections m
      (sorted_set (map (λ p. p.0) m ++ map (λ (c : HumanCorrection). c.vehicle) corrections)) h

rows-IsJustified :
    (offer_uid : String) (at : ℕ) (es : List Entry)
    → JustifiedEntries es
    → All (λ (f : PartFitment). IsJustified f.verdict) (map (fitment_row offer_uid at) es)
rows-IsJustified offer_uid at [] h = tt
rows-IsJustified offer_uid at (e ∷ es) h = (h.0, rows-IsJustified offer_uid at es h.1)

persist_offer_output-IsCautious :
    (env : Env) (offer : OfferReadModel) (payload : SemanticPayload) (trace_id : String)
    (db db' : FitmentDb) (changed : Bool)
    → JustifiedEntries payload.fitments
    → IsCautious db
    → persist_offer_output env offer payload trace_id db ≡ some (changed, db')
    → IsCautious db'
unfolding persist_offer_output queue_fitted
persist_offer_output-IsCautious env offer payload trace_id db db' changed hp h e =
    elim (Bool-cases (str_eq offer.output_hash (env.stable_hash payload))) [
      | inl same ↦ let kept : db ≡ db' = cc (rw same at e) in subst IsCautious kept h
      | inr differs ↦
          elim (Bool-cases (exists (λ e. not (is_vehicle db.vehicles e)) payload.fitments)) [
            | inl missing ↦ absurd (cc (rw (differs, missing) at e))
            | inr known ↦
                let written : hashed offer.offer_uid
                      (queue_event env "offers.fitted" offer.offer_uid
                        (fitted_payload payload env.now) trace_id
                        (fitted_key offer.offer_uid (env.stable_hash payload))
                        (replaced env offer payload trace_id db))
                      (env.stable_hash payload)
                    ≡ db' =
                  cc (rw (differs, known) at e) in
                subst IsCautious written (
                  rw
                    (fitments-queue_event env "offers.fitted" offer.offer_uid
                      (fitted_payload payload env.now) trace_id
                      (fitted_key offer.offer_uid (env.stable_hash payload))
                      (replaced env offer payload trace_id db))
                    (All-append (λ (f : PartFitment). IsJustified f.verdict)
                      (map (fitment_row offer.offer_uid env.now) payload.fitments) _
                      (rows-IsJustified offer.offer_uid env.now payload.fitments hp)
                      (All-select (λ (f : PartFitment). IsJustified f.verdict)
                        (λ f. not (str_eq f.offer offer.offer_uid)) db.fitments h)))
          ]
    ]

persist_all-IsCautious :
    (env : Env) (m : Verdicts) (trace_id : String) (offers : List OfferReadModel)
    (db db' : FitmentDb) (n : ℕ)
    → AllJustified m
    → IsCautious db
    → persist_all env m trace_id offers db ≡ some (n, db')
    → IsCautious db'
unfolding persist_all
persist_all-IsCautious env m trace_id [] db db' n hm h e =
    let same : db ≡ db' = cc e in subst IsCautious same h
persist_all-IsCautious env m trace_id (o ∷ os) db db' n hm h e =
    let payload = semantic_payload env o m (risky_of (truthy o.part_type) db.risky_families) db in
    elim (Option-cases (persist_offer_output env o payload trace_id db)) [
      | inl failed ↦ absurd (cc (rw (persist_all, failed) at e))
      | inr ((changed, db1), stored) ↦ elim (Option-cases (persist_all env m trace_id os db1)) [
        | inl failed ↦ absurd (cc (rw (persist_all, stored, failed) at e))
        | inr ((k, db2), rest) ↦
            let same : db2 ≡ db' = cc (rw (persist_all, stored, rest) at e) in
            subst IsCautious same (
              persist_all-IsCautious env m trace_id os db1 db2 k hm
                (persist_offer_output-IsCautious env o payload trace_id db db1 changed
                  (semantic_payload-IsJustified env o m
                    (risky_of (truthy o.part_type) db.risky_families) db hm)
                  h stored)
                rest)
      ]
    ]

-- If every stored verdict is a person's, or unknown, or a consensus of at least two sellers that
-- none contradicts, then a computation of a group that returns leaves only such verdicts; so
-- sellers' claims alone never make a part incompatible.
pub recompute_group-IsCautious :
    (env : Env) (group_key trace_id : String) (db db' : FitmentDb) (n : ℕ)
    → IsCautious db
    → recompute_group env group_key trace_id db ≡ some (n, db')
    → IsCautious db'
unfolding recompute_group
recompute_group-IsCautious env group_key trace_id db db' n h e =
    let all_offers = select (λ (o : OfferReadModel). str_eq o.group_key group_key) db.offers in
    let active_offers = select (λ (o : OfferReadModel). o.is_active) all_offers in
    let (positive, negative) = claim_map env db.vehicles active_offers [] [] in
    let targets = distinct (slugs_of positive ++ slugs_of negative) in
    let part = first_part active_offers in
    let (computed, db1) = computed_verdicts env positive negative part trace_id targets db in
    persist_all-IsCautious env (add_all_trims db.vehicles positive targets computed) trace_id
      all_offers db1 db' n
      (add_all_trims-AllJustified db.vehicles positive targets computed
        (computed_verdicts-AllJustified env positive negative part trace_id targets db))
      (computed_verdicts-IsCautious env positive negative part trace_id targets db h) e
