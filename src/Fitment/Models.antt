-- ===== src/Fitment/Models.antt =====
-- The rows of fitment/models.py, the records of fitment/inference.py, and what the service takes
-- from outside. A confidence is a number of hundredths, an instant a number of microseconds; columns
-- that the modelled code neither reads nor decides on are left out.
use yadakchi.Prelude.{ℕ, String, Bool, Option, List}

pub data FitmentStatus : Type 0 where
  compatible incompatible unknown : FitmentStatus

pub data Provenance : Type 0 where
  rule model human catalog consensus : Provenance

pub record Vehicle : Type 0 where
  pub slug : String
  pub brand : String
  pub model_name : String
  pub trim : Option String
  pub display_name_fa : String
  pub aliases : List String

pub record OfferReadModel : Type 0 where
  pub offer_uid : String
  pub seller_key : String
  pub title_normalized : String
  pub brand : Option String
  pub part_number : Option String
  pub part_type : Option String
  pub vehicle_hints : List String
  pub vehicle_hints_excluded : List String
  pub overbroad_claim : Bool
  pub is_active : Bool
  pub group_key : String
  pub output_hash : String

-- What one seller says of one vehicle, with the hint it says it by.
pub record Claim : Type 0 where
  pub offer_uid : String
  pub seller_key : String
  pub title : String
  pub claim : String
  pub hint : String
  pub overbroad : Bool

pub record HumanCorrection : Type 0 where
  pub request_uid : String
  pub part_number : String
  pub vehicle : String
  pub status : FitmentStatus
  pub actor : String
  pub reason : Option String

pub data Rule : Type 0 where
  conflicting_seller_claims overbroad_claim_only consensus_part_number : Rule
  single_seller_claim negative_claim_only human_correction : Rule
  risky_family_missing_granularity model_level_only : Rule

-- The entries of the dictionary `evidence` that the rules write.
pub record Evidence : Type 0 where
  pub part_number : Option String
  pub agreeing_sellers : ℕ
  pub disagreeing_sellers : ℕ
  pub positive_offers : List Claim
  pub negative_offers : List Claim
  pub rule : Rule
  pub request_uid : Option String
  pub correction : Option HumanCorrection
  pub required_granularity : Option String
  pub resolved_to : Option String

pub record Verdict : Type 0 where
  pub status : FitmentStatus
  pub confidence : ℕ
  pub provenance : Provenance
  pub evidence : Evidence

pub record PartFitment : Type 0 where
  pub offer : String
  pub vehicle : String
  pub verdict : Verdict
  pub computed_at : ℕ

pub record CrossRef : Type 0 where
  pub code_a : String
  pub code_b : String

pub record RiskyPartFamily : Type 0 where
  pub part_type : String
  pub required_granularity : String
  pub note_fa : String

pub data State : Type 0 where
  pending skipped settled : State

pub record ReviewRequestState : Type 0 where
  pub part_number : String
  pub vehicle : String
  pub request_uid : String
  pub state : State
  pub attempt : ℕ

-- One element of `fitments`, and the payload before `computed_at` is added.
pub record Entry : Type 0 where
  pub vehicle_slug : String
  pub verdict : Verdict

pub record SemanticPayload : Type 0 where
  pub offer_uid : String
  pub fitments : List Entry
  pub crossref_codes : List String
  pub risky_family : Option RiskyPartFamily

pub data Payload : Type 0 where
  fitted_payload : SemanticPayload → ℕ → Payload
  review_payload : String → String → String → List Claim → List Claim → ℕ → Payload

-- `fitted:{offer_uid}:{hash}` and `review:{request_uid}`
pub data DedupeKey : Type 0 where
  fitted_key : String → String → DedupeKey
  request_key : String → DedupeKey

pub record OutboxEvent : Type 0 where
  pub event_id : ℕ
  pub event_type : String
  pub message_key : String
  pub payload : Payload
  pub trace_id : String
  pub dedupe_key : DedupeKey
  pub published_at : Option ℕ
  pub publish_attempts : ℕ

pub record ProcessedEvent : Type 0 where
  pub event_id : ℕ
  pub topic : String
  pub natural_key : String

pub record DeadLetterEvent : Type 0 where
  pub event_id : ℕ
  pub topic : String
  pub reason : String

pub record FitmentDb : Type 0 where
  pub vehicles : List Vehicle
  pub offers : List OfferReadModel
  pub fitments : List PartFitment
  pub crossrefs : List CrossRef
  pub risky_families : List RiskyPartFamily
  pub corrections : List HumanCorrection
  pub reviews : List ReviewRequestState
  pub outbox : List OutboxEvent
  pub processed : List ProcessedEvent
  pub dead_letters : List DeadLetterEvent

-- What Unicode, regular expressions and hashes give: `normalize_persian`, `contains_normalized`,
-- `len(text.split())`, `len(text)`, `slug.replace("-", " ")`, the two expressions of
-- fitment/inference.py, `" ".join`, the `uuid5` of a conflict by part, vehicle and attempt,
-- `stable_hash`, the `uuid4` of a new row of the outbox, and the clock.
pub record Env : Type 0 where
  pub normalize_persian : String → String
  pub contains_normalized : String → String → Bool
  pub words : String → ℕ
  pub size : String → ℕ
  pub spaced : String → String
  pub has_year : String → Bool
  pub has_engine : String → Bool
  pub joined : List String → String
  pub conflict_uid : String → String → ℕ → String
  pub stable_hash : SemanticPayload → String
  pub uuid4 : ℕ → ℕ
  pub now : ℕ
