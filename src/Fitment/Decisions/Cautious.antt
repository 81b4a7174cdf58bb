-- ===== src/Fitment/Decisions/Cautious.antt =====
-- The decisions of fitment/consumers.py and the stored verdicts.
use yadakchi.Prelude.{
  inl, inr, ℕ, String, Bool, true, not, ◌||◌, Option, none, some, List, [], ◌∷◌, str_eq, is_some,
  Bool-cases, Option-cases, exists, truthy, find,
}
use yadakchi.Fitment.Models.{FitmentStatus, HumanCorrection, FitmentDb, Env}
use yadakchi.Fitment.Recompute.{recompute_group}
use yadakchi.Fitment.Recompute.Justified.{IsCautious, recompute_group-IsCautious}
use yadakchi.Fitment.Decisions.{
  ReviewDecision, EventEnvelope, is_processed, recompute_groups, answer, recompute_part, withdrawn,
  noted, withdraw, approve, decide, decide_payload, process_decision_event,
}

-- What holds of the tables that a call leaves, if it leaves any.
abbrev IsCautiousIn : Option FitmentDb → Type 0
IsCautiousIn none = Unit
IsCautiousIn (some db) = IsCautious db

abbrev pub IsCautiousAfter : Option (Bool × FitmentDb) → Type 0
IsCautiousAfter none = Unit
IsCautiousAfter (some (b, db)) = IsCautious db

recompute_groups-IsCautious :
    (env : Env) (trace_id : String) (keys : List String) (db : FitmentDb)
    → IsCautious db
    → IsCautiousIn (recompute_groups env trace_id keys db)
unfolding recompute_groups
recompute_groups-IsCautious env trace_id [] db h = h
recompute_groups-IsCautious env trace_id (key ∷ keys) db h =
    elim (Option-cases (recompute_group env key trace_id db)) [
      | inl failed ↦ rw (recompute_groups, failed) tt
      | inr ((n, db'), done) ↦
          rw (recompute_groups, done)
            (recompute_groups-IsCautious env trace_id keys db'
              (recompute_group-IsCautious env key trace_id db db' n h done))
    ]

answer-IsCautious :
    (b : Bool) (o : Option FitmentDb) → IsCautiousIn o → IsCautiousAfter (answer b o)
answer-IsCautious b none h = tt
answer-IsCautious b (some db) h = h

noted-IsCautious :
    (id : ℕ) (key : String) (o : Option FitmentDb) → IsCautiousIn o → IsCautiousIn (noted id key o)
noted-IsCautious id key none h = tt
noted-IsCautious id key (some db) h = h

recompute_part-IsCautious :
    (env : Env) (trace_id : String) (c : Option HumanCorrection) (db : FitmentDb)
    → IsCautious db
    → IsCautiousIn (recompute_part env trace_id c db)
recompute_part-IsCautious env trace_id none db h = h
recompute_part-IsCautious env trace_id (some c) db h =
    elim (Bool-cases (is_some (truthy (some c.part_number)))) [
      | inl named ↦ rw named (recompute_groups-IsCautious env trace_id _ db h)
      | inr empty ↦ rw empty h
    ]

withdraw-IsCautious :
    (env : Env) (e : EventEnvelope) (id_text : String) (key : Option String) (db : FitmentDb)
    → IsCautious db
    → IsCautiousAfter (withdraw env e id_text key db)
unfolding withdraw
withdraw-IsCautious env e id_text none db h = h
withdraw-IsCautious env e id_text (some uid) db h = answer-IsCautious true _ (
    noted-IsCautious e.event_id uid _ (
      recompute_part-IsCautious env e.trace_id (find (λ c. str_eq c.request_uid uid) db.corrections)
        (withdrawn uid db) h))

approve-IsCautious :
    (env : Env) (e : EventEnvelope) (d : ReviewDecision) (part : Option String)
    (status : Option FitmentStatus) (db : FitmentDb)
    → IsCautious db
    → IsCautiousAfter (approve env e d part status db)
unfolding approve
approve-IsCautious env e d none status db h = h
approve-IsCautious env e d (some part) none db h = h
approve-IsCautious env e d (some part) (some status) db h =
    elim (Bool-cases (exists (λ v. str_eq v.slug d.vehicle_slug) db.vehicles)) [
      | inl known ↦
          rw known (answer-IsCautious true _ (recompute_groups-IsCautious env e.trace_id _ _ h))
      | inr unknown ↦ rw unknown h
    ]

decide-IsCautious :
    (env : Env) (normalize : String → Option String) (e : EventEnvelope) (d : ReviewDecision)
    (db : FitmentDb)
    → IsCautious db
    → IsCautiousAfter (decide env normalize e d db)
unfolding decide
decide-IsCautious env normalize e d db h = elim (Bool-cases (str_eq d.kind "fitment_conflict")) [
  | inr other ↦ rw other h
  | inl conflict ↦ elim (Bool-cases (str_eq d.decision "skip")) [
    | inl skip ↦ rw (conflict, skip) h
    | inr decided ↦ elim (Bool-cases (str_eq d.decision "approve")) [
      | inr odd ↦ rw (conflict, decided, odd) h
      | inl approved ↦ rw (conflict, decided, approved) (approve-IsCautious env e d _ _ db h)
    ]
  ]
]

decide_payload-IsCautious :
    (env : Env) (normalize : String → Option String) (e : EventEnvelope) (id_text : String)
    (key : Option String) (payload : Option (Option ReviewDecision)) (db : FitmentDb)
    → IsCautious db
    → IsCautiousAfter (decide_payload env normalize e id_text key payload db)
decide_payload-IsCautious env normalize e id_text key none db h =
    withdraw-IsCautious env e id_text (truthy key) db h
decide_payload-IsCautious env normalize e id_text key (some none) db h = tt
decide_payload-IsCautious env normalize e id_text key (some (some d)) db h =
    decide-IsCautious env normalize e d db h

-- A decision that is processed, whether it is a withdrawal, a skip, an approval or refused, leaves
-- only verdicts that are a person's, unknown or an uncontradicted consensus, if those before were
-- so.
pub process_decision_event-IsCautious :
    (env : Env) (normalize : String → Option String) (e : EventEnvelope) (id_text : String)
    (key : Option String) (db : FitmentDb)
    → IsCautious db
    → IsCautiousAfter (process_decision_event env normalize e id_text key db)
unfolding process_decision_event
process_decision_event-IsCautious env normalize e id_text key db h =
    elim (Bool-cases
      (not (str_eq e.event_type "review.decided") || not (str_eq e.producer "ops"))) [
        | inl foreign ↦ rw foreign tt
        | inr own ↦ elim (Bool-cases (is_processed e.event_id db.processed)) [
          | inl known ↦ rw (own, known) h
          | inr fresh ↦
              rw (own, fresh) (decide_payload-IsCautious env normalize e id_text key e.payload db h)
        ]
      ]
