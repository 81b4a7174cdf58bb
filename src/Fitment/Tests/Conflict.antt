-- ===== src/Fitment/Tests/Conflict.antt =====
-- Three sellers of one part, two of whom agree on one vehicle and disagree on another.
use yadakchi.Prelude.{◌≡◌, refl, ℕ, String, true, false, none, some, List, [], ◌∷◌, str_eq}
use yadakchi.Fitment.Models.{Vehicle, OfferReadModel, FitmentDb, Env}
use yadakchi.Fitment.Outbox.{queue_event, queue_fitted, queue_review_request}
use yadakchi.Fitment.Resolver.{resolve_vehicle, child_trims}
use yadakchi.Fitment.Inference.{claim_by, claims_of, claim_map, request_review, computed_verdict}
use yadakchi.Fitment.Inference.Review.{computed_verdict_again}
use yadakchi.Fitment.Recompute.{recompute_group, persist_offer_output, semantic_payload}
use yadakchi.Fitment.Decisions.{EventEnvelope, process_decision_event}
use yadakchi.Fitment.Decisions.Cautious.{IsCautiousAfter, process_decision_event-IsCautious}
use yadakchi.Fitment.Recompute.Justified.{IsCautious, recompute_group-IsCautious}

abbrev plain_env : Env
plain_env = record {
  normalize_persian = λ t. t;
  contains_normalized = str_eq;
  words = λ t. 1;
  size = λ t. 1;
  spaced = λ t. t;
  has_year = λ t. false;
  has_engine = λ t. false;
  joined = λ ts. "title";
  conflict_uid = λ part slug n. "review";
  stable_hash = λ p. "hash";
  uuid4 = λ n. n;
  now = 1000;
}

abbrev vehicle : String → Vehicle
vehicle slug = record {
  slug = slug;
  brand = "peugeot";
  model_name = slug;
  trim = none;
  display_name_fa = slug;
  aliases = [];
}

abbrev offer : String → String → List String → List String → OfferReadModel
offer uid seller fits excluded = record {
  offer_uid = uid;
  seller_key = seller;
  title_normalized = "title";
  brand = none;
  part_number = some "PN1";
  part_type = none;
  vehicle_hints = fits;
  vehicle_hints_excluded = excluded;
  overbroad_claim = false;
  is_active = true;
  group_key = "pn:PN1";
  output_hash = "";
}

abbrev parts_db : FitmentDb
parts_db = record {
  vehicles = vehicle "p206" ∷ vehicle "p405" ∷ [];
  offers =
      offer "o1" "ali" ("p206" ∷ "p405" ∷ []) []
      ∷ offer "o2" "sara" ("p206" ∷ []) ("p405" ∷ [])
      ∷ [];
  fitments = [];
  crossrefs = [];
  risky_families = [];
  corrections = [];
  reviews = [];
  outbox = [];
  processed = [];
  dead_letters = [];
}

computed_verdict_again_example :
    let (v, db') =
      computed_verdict plain_env "p405"
        (claim_by (offer "o1" "ali" [] []) "compatible" "p405" ∷ [])
        (claim_by (offer "o2" "sara" [] []) "incompatible" "p405" ∷ [])
        (some "PN1")
        "t1"
        parts_db in
    computed_verdict plain_env "p405"
      (claim_by (offer "o1" "ali" [] []) "compatible" "p405" ∷ [])
      (claim_by (offer "o2" "sara" [] []) "incompatible" "p405" ∷ [])
      (some "PN1")
      "t2"
      db'
    ≡ (v, db')
computed_verdict_again_example =
    computed_verdict_again plain_env "p405"
      (claim_by (offer "o1" "ali" [] []) "compatible" "p405" ∷ [])
      (claim_by (offer "o2" "sara" [] []) "incompatible" "p405" ∷ []) (some "PN1") "t1" "t2"
      parts_db

abbrev recomputed : ℕ × FitmentDb
recomputed = elim (recompute_group plain_env "pn:PN1" "t" parts_db) [
  | none ↦ (0, parts_db)
  | some r ↦ r
]

recompute_group-IsCautious_example : IsCautious recomputed.1
unfolding recompute_group persist_offer_output semantic_payload claim_map resolve_vehicle claims_of
    child_trims computed_verdict request_review queue_review_request queue_event queue_fitted
recompute_group-IsCautious_example =
    recompute_group-IsCautious plain_env "pn:PN1" "t" parts_db recomputed.1 2 tt refl

abbrev approval : EventEnvelope
approval = record {
  event_id = 5;
  event_type = "review.decided";
  producer = "ops";
  trace_id = "t";
  payload = some (
      some (record {
        request_uid = "review";
        kind = "fitment_conflict";
        decision = "approve";
        part_number = "PN1";
        vehicle_slug = "p405";
        status = "incompatible";
        actor = "reviewer";
        reason = none;
      }));
}

process_decision_event-IsCautious_example :
    IsCautiousAfter
      (process_decision_event plain_env (λ t. some t) approval "5" (some "review") parts_db)
process_decision_event-IsCautious_example =
    process_decision_event-IsCautious plain_env (λ t. some t) approval "5" (some "review") parts_db
      tt
