-- ===== src/Search/Models.antt =====
-- The rows of search/models.py, the payloads of search/events.py and the documents of the index. An
-- instant is a number of microseconds, a trust score a number of millionths; columns that the modelled
-- code neither reads nor decides on are left out.
use yadakchi.Prelude.{ℕ, String, Bool, Option, List}
use yadakchi.Prelude.Int.{ℤ}

pub record Offer : Type 0 where
  pub offer_uid : String
  pub title_normalized : Option String
  pub price_observed_at : Option ℕ
  pub stock_status : String
  pub trust_score : ℕ

pub record ProductPayload : Type 0 where
  pub product_uid : String
  pub title : String
  pub brand : Option String
  pub part_type : Option String
  pub authenticity_dominant : String
  pub image_url : Option String
  pub part_numbers : List String
  pub crossref_codes : List String
  pub vehicles_compatible : List String
  pub vehicles_incompatible : List String
  pub offer_count : ℕ
  pub min_price_toman : Option ℤ
  pub offers : List Offer
  pub is_published : Bool
  pub updated_at : ℕ

-- An event about a product, or about a vehicle; a tombstone has no payload.
pub record ProductEvent : Type 0 where
  pub occurred_at : ℕ
  pub trace_id : String
  pub payload : Option ProductPayload

pub record VehiclePayload : Type 0 where
  pub vehicle_slug : String
  pub display_name_fa : String
  pub aliases : List String
  pub is_published : Bool

pub record VehicleEvent : Type 0 where
  pub occurred_at : ℕ
  pub trace_id : String
  pub payload : Option VehiclePayload

pub record CrossReferencePayload : Type 0 where
  pub code_a : String
  pub code_b : String
  pub confidence : ℕ
  pub provenance : String

pub record CrossReferenceEvent : Type 0 where
  pub occurred_at : ℕ
  pub trace_id : String
  pub payload : Option CrossReferencePayload

-- A field of `subject` is `none` where it is not a text.
pub record ReviewPayload : Type 0 where
  pub request_uid : String
  pub kind : String
  pub decision : String
  pub token : Option String
  pub part_type : Option String
  pub decided_at : ℕ

pub record ReviewEvent : Type 0 where
  pub occurred_at : ℕ
  pub trace_id : String
  pub payload : Option ReviewPayload

-- `payload` is `none` for the empty object.
pub record ProductState : Type 0 where
  pub product_uid : String
  pub payload : Option ProductPayload
  pub part_type : Option String
  pub is_published : Bool
  pub event_occurred_at : ℕ
  pub source_updated_at : Option ℕ
  pub index_applied_at : Option ℕ
  pub embedding : List ℕ
  pub embedding_text_hash : String
  pub trace_id : String

pub record ProductPartNumber : Type 0 where
  pub product : String
  pub code : String

pub record SynonymDecision : Type 0 where
  pub request_uid : String
  pub token : String
  pub part_type : String
  pub decision : String
  pub active : Bool
  pub decided_at : Option ℕ
  pub event_occurred_at : ℕ
  pub index_applied_at : Option ℕ
  pub trace_id : String

pub record VehicleState : Type 0 where
  pub vehicle_slug : String
  pub payload : Option VehiclePayload
  pub is_published : Bool
  pub event_occurred_at : ℕ
  pub trace_id : String

pub record CrossReference : Type 0 where
  pub pair_key : String
  pub code_a : String
  pub code_b : String
  pub confidence : ℕ
  pub provenance : String
  pub active : Bool
  pub event_occurred_at : ℕ
  pub index_applied_at : Option ℕ
  pub trace_id : String

-- The document of a product; a field that the code leaves out is `none`.
pub record Document : Type 0 where
  pub product_uid : String
  pub title : String
  pub title_variants : List String
  pub part_type_synonyms : List String
  pub part_numbers : List String
  pub vehicle_compatible : List String
  pub vehicle_incompatible : List String
  pub authenticity_dominant : String
  pub offer_count : ℕ
  pub has_image : Bool
  pub embedding : List ℕ
  pub updated_at : ℕ
  pub price_freshness : ℕ
  pub best_seller_trust : ℕ
  pub payload_json : ProductPayload
  pub brand : Option String
  pub part_type : Option String
  pub min_price_toman : Option ℤ

-- The database, and the collection of the search engine with its sets of synonyms.
pub record SearchDb : Type 0 where
  pub products : List ProductState
  pub part_numbers : List ProductPartNumber
  pub synonyms : List SynonymDecision
  pub vehicles : List VehicleState
  pub crossrefs : List CrossReference
  pub index : List Document
  pub synonym_sets : List (String × List String)

-- What Unicode, regular expressions, hashes and the service for embeddings give:
-- `normalize_part_number`, `normalize_text`, `" | ".join`, SHA-256 of a text, the embedding of a text
-- (its components by their bits), the seconds of an instant, and the key of a pair of codes.
pub record Env : Type 0 where
  pub normalize_part_number : String → String
  pub normalize_text : String → String
  pub joined : List String → String
  pub sha256 : String → String
  pub embed : String → List ℕ
  pub timestamp : ℕ → ℕ
  pub pair_key : String → String → String
  pub split_key : String → Option (String × String)
