-- ===== src/Fitment/Decisions.antt =====
-- The decisions of reviewers in fitment/consumers.py.
pub mod Cautious
use yadakchi.Prelude.{
  ℕ, String, Bool, true, false, not, ◌&&◌, ◌||◌, Option, none, some, List, [], ◌∷◌, map, ◌==◌,
  if◌then◌else◌, str_eq, is_some, find, exists, select, update_where, distinct, truthy,
}
use yadakchi.Fitment.Models.{
  FitmentStatus, compatible, incompatible, unknown, OfferReadModel, HumanCorrection, State, skipped,
  ReviewRequestState, Vehicle, ProcessedEvent, DeadLetterEvent, FitmentDb, Env,
}
use yadakchi.Fitment.Inference.{is_review_of, is_correction_of, settled_by}
use yadakchi.Fitment.Recompute.{recompute_group}

-- `ReviewDecisionPayload`, with the three texts that are read of its subject.
pub record ReviewDecision : Type 0 where
  pub request_uid : String
  pub kind : String
  pub decision : String
  pub part_number : String
  pub vehicle_slug : String
  pub status : String
  pub actor : String
  pub reason : Option String

-- A validated envelope. `payload` is `none` for a tombstone, and `some none` for a payload that
-- does not validate.
pub record EventEnvelope : Type 0 where
  pub event_id : ℕ
  pub event_type : String
  pub producer : String
  pub trace_id : String
  pub payload : Option (Option ReviewDecision)

abbrev pub decided_topic : String
decided_topic = "yadakchi.review.decided.v1"

abbrev pub is_processed : ℕ → List ProcessedEvent → Bool
is_processed id = exists (λ e. e.event_id == id)

-- `_record_processed`
abbrev pub record_processed : ℕ → String → FitmentDb → FitmentDb
record_processed id key db = record db {
  processed = record { event_id = id; topic = decided_topic; natural_key = key } ∷ db.processed;
}

-- `_dead_letter`
abbrev pub dead_letter : ℕ → String → FitmentDb → FitmentDb
dead_letter id reason db = record db {
  dead_letters =
      record { event_id = id; topic = decided_topic; reason = reason }
      ∷ select (λ e. not (e.event_id == id)) db.dead_letters;
}

abbrev skip_row : ReviewRequestState → ReviewRequestState
skip_row r = record r { state = skipped }

-- The reviews of the request, skipped.
abbrev pub skip_review : String → FitmentDb → FitmentDb
skip_review uid db = record db {
  reviews = update_where (λ r. str_eq r.request_uid uid) skip_row db.reviews;
}

-- The group keys of the offers of a part, each once.
abbrev pub groups_of : String → FitmentDb → List String
groups_of part db = distinct (
    map (λ (o : OfferReadModel). o.group_key)
      (select (λ (o : OfferReadModel). is_part part o.part_number) db.offers))
  where
    is_part : String → Option String → Bool
    is_part p none = false
    is_part p (some q) = str_eq p q

-- The loops over the groups; `none` rolls the transaction back.
unfoldable pub recompute_groups : Env → String → List String → FitmentDb → Option FitmentDb
recompute_groups env trace_id [] db = some db
recompute_groups env trace_id (key ∷ keys) db = elim (recompute_group env key trace_id db) [
  | none ↦ none
  | some (n, db') ↦ recompute_groups env trace_id keys db'
]

abbrev pub answer : Bool → Option FitmentDb → Option (Bool × FitmentDb)
answer b none = none
answer b (some db) = some (b, db)

-- The part that a withdrawn correction was about, whose groups are computed again.
abbrev pub recompute_part : Env → String → Option HumanCorrection → FitmentDb → Option FitmentDb
recompute_part env trace_id none db = some db
recompute_part env trace_id (some c) db =
    if is_some (truthy (some c.part_number))
    then recompute_groups env trace_id (groups_of c.part_number db) db
    else some db

abbrev pub withdrawn : String → FitmentDb → FitmentDb
withdrawn uid db =
    skip_review uid
      (record db { corrections = select (λ c. not (str_eq c.request_uid uid)) db.corrections })

abbrev pub noted : ℕ → String → Option FitmentDb → Option FitmentDb
noted id key none = none
noted id key (some db) = some (record_processed id key db)

-- The branch of a tombstone; `id_text` is `str(envelope.event_id)`.
unfoldable pub withdraw :
    Env → EventEnvelope → String → Option String → FitmentDb → Option (Bool × FitmentDb)
unfolding recompute_groups
withdraw env e id_text none db = answer true (noted e.event_id id_text (some db))
withdraw env e id_text (some uid) db = answer true (
    noted e.event_id uid (
      recompute_part env e.trace_id (find (λ c. str_eq c.request_uid uid) db.corrections)
        (withdrawn uid db)))

abbrev pub status_of : String → Option FitmentStatus
status_of s =
    if str_eq s "compatible"
    then some compatible
    else if str_eq s "incompatible"
    then some incompatible
    else if str_eq s "unknown"
    then some unknown
    else none

abbrev pub correction_of : ReviewDecision → String → FitmentStatus → HumanCorrection
correction_of d part status = record {
  request_uid = d.request_uid;
  part_number = part;
  vehicle = d.vehicle_slug;
  status = status;
  actor = d.actor;
  reason = d.reason;
}

-- `HumanCorrection.objects.update_or_create`
abbrev pub upsert_correction : HumanCorrection → List HumanCorrection → List HumanCorrection
upsert_correction c rows =
    if exists (is_correction_of c.part_number c.vehicle) rows
    then update_where (is_correction_of c.part_number c.vehicle) (λ _. c) rows
    else c ∷ rows

-- The tables after an approval, before the groups are computed again.
abbrev pub corrected : ℕ → HumanCorrection → FitmentDb → FitmentDb
corrected id c db = record_processed id c.request_uid (record db {
  corrections = upsert_correction c db.corrections;
  reviews =
      update_where (is_review_of c.part_number c.vehicle) (settled_by c.request_uid) db.reviews;
})

abbrev pub refused : ℕ → String → String → FitmentDb → Option (Bool × FitmentDb)
refused id uid reason db = some (false, record_processed id uid (dead_letter id reason db))

-- The branch of an approval, by the part number and the status that its subject names.
unfoldable pub approve :
    Env
    → EventEnvelope
    → ReviewDecision
    → Option String
    → Option FitmentStatus
    → FitmentDb
    → Option (Bool × FitmentDb)
unfolding recompute_groups
approve env e d (some part) (some status) db =
    if exists (λ v. str_eq v.slug d.vehicle_slug) db.vehicles
    then answer true (
        recompute_groups env e.trace_id (groups_of part db)
          (corrected e.event_id (correction_of d part status) db))
    else refused e.event_id d.request_uid "fitment_conflict approval" db
approve env e d none status db = refused e.event_id d.request_uid "fitment_conflict approval" db
approve env e d (some part) none db =
    refused e.event_id d.request_uid "fitment_conflict approval" db

-- `normalize` is `normalize_part_number`.
unfoldable pub decide :
    Env
    → (String → Option String)
    → EventEnvelope
    → ReviewDecision
    → FitmentDb
    → Option (Bool × FitmentDb)
unfolding approve
decide env normalize e d db =
    if not (str_eq d.kind "fitment_conflict")
    then some (false, record_processed e.event_id d.request_uid db)
    else if str_eq d.decision "skip"
    then some (true, record_processed e.event_id d.request_uid (skip_review d.request_uid db))
    else if not (str_eq d.decision "approve")
    then refused e.event_id d.request_uid "Invalid fitment_conflict decision" db
    else approve env e d (normalize d.part_number) (status_of d.status) db

abbrev pub decide_payload :
    Env
    → (String → Option String)
    → EventEnvelope
    → String
    → Option String
    → Option (Option ReviewDecision)
    → FitmentDb
    → Option (Bool × FitmentDb)
decide_payload env normalize e id_text key none db = withdraw env e id_text (truthy key) db
decide_payload env normalize e id_text key (some none) db = none
decide_payload env normalize e id_text key (some (some d)) db = decide env normalize e d db

-- `process_decision_event`: whether the decision was applied; `none` is an exception.
unfoldable pub process_decision_event :
    Env
    → (String → Option String)
    → EventEnvelope
    → String
    → Option String
    → FitmentDb
    → Option (Bool × FitmentDb)
process_decision_event env normalize e id_text key db =
    if not (str_eq e.event_type "review.decided") || not (str_eq e.producer "ops")
    then none
    else if is_processed e.event_id db.processed
    then some (false, db)
    else decide_payload env normalize e id_text key e.payload db
