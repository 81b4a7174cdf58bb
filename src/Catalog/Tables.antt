-- ===== src/Catalog/Tables.antt =====
-- The rows of catalog/models.py that catalog/consumers/handlers.py reads and writes.
use yadakchi.Prelude.{ℕ, String, Bool, Option, List}

pub record Envelope : Type 0 where
  pub event_id : String
  pub occurred_at : ℕ
  pub trace_id : String

pub record ProcessedEvent : Type 0 where
  pub topic : String
  pub event_id : String
  pub entity_key : String
  pub occurred_at : ℕ

-- The verdicts and the contents of a vehicle and of a cross-reference, which no handler reads, are texts.
pub record FitmentReadModel : Type 0 where
  pub offer_uid : String
  pub contents : String
  pub source_occurred_at : ℕ

pub record VehicleReadModel : Type 0 where
  pub vehicle_slug : String
  pub contents : String
  pub is_deleted : Bool
  pub source_occurred_at : ℕ

pub record CrossRefReadModel : Type 0 where
  pub pair_key : String
  pub contents : String
  pub is_deleted : Bool
  pub source_occurred_at : ℕ

pub record ClickCounter : Type 0 where
  pub product_uid : String
  pub offer_uid : String
  pub seller_key : String
  pub clicks : ℕ
  pub suspicious_clicks : ℕ
  pub last_click_at : Option ℕ

pub record ProductOffer : Type 0 where
  pub product : String
  pub offer_uid : String

pub record Product : Type 0 where
  pub product_uid : String
  pub vehicles_compatible : List String
  pub vehicles_incompatible : List String
  pub vehicles_unknown : List String
  pub part_numbers : List String
  pub crossref_codes : List String
  pub click_count : ℕ

-- `rebuilt` are the calls of `rebuild_product`, the last first.
pub record FeedDb : Type 0 where
  pub processed : List ProcessedEvent
  pub fitments : List FitmentReadModel
  pub vehicles : List VehicleReadModel
  pub crossrefs : List CrossRefReadModel
  pub counters : List ClickCounter
  pub members : List ProductOffer
  pub products : List Product
  pub rebuilt : List (String × ℕ)

abbrev pub fitment_key : FitmentReadModel → String
fitment_key f = f.offer_uid

abbrev pub vehicle_key : VehicleReadModel → String
vehicle_key v = v.vehicle_slug

abbrev pub crossref_key : CrossRefReadModel → String
crossref_key c = c.pair_key
