-- ===== src/Catalog/Feed.antt =====
-- catalog/consumers/handlers.py: the read models of the events about fitments, vehicles, cross-references and clicks.
pub mod Clicks
pub mod Late
pub mod Delivery
use Prim.Native.String.{◌++◌ as str_append}
use yadakchi.Prelude.{
  reverse, ℕ, ◌+◌, String, Bool, true, false, ◌&&◌, ◌||◌, Option, none, some, List, [], ◌∷◌, ◌++◌,
  map, leb, if◌then◌else◌, str_eq, exists, has_text, sorted_set, update_where, truthy,
}
use yadakchi.Prelude.Keyed.{lookup, put}
use yadakchi.Catalog.Tables.{
  Envelope, ProcessedEvent, FitmentReadModel, VehicleReadModel, CrossRefReadModel, ClickCounter,
  ProductOffer, Product, FeedDb, fitment_key, vehicle_key, crossref_key,
}

abbrev pub is_processed : String → String → List ProcessedEvent → Bool
is_processed topic event_id = exists (λ p. str_eq p.topic topic && str_eq p.event_id event_id)

abbrev pub recorded : Envelope → String → String → FeedDb → FeedDb
recorded e topic entity_key db = record db {
  processed =
      record {
        topic = topic;
        event_id = e.event_id;
        entity_key = entity_key;
        occurred_at = e.occurred_at;
      }
      ∷ db.processed;
}

-- `guard_duplicate`: the database with the event recorded, or `none` for a redelivery.
abbrev pub guard_duplicate : Envelope → String → String → FeedDb → Option FeedDb
guard_duplicate e topic entity_key db =
    if is_processed topic e.event_id db.processed
    then none
    else some (recorded e topic entity_key db)

-- `is_stale`
abbrev pub is_stale : Option ℕ → ℕ → Bool
is_stale none incoming = false
is_stale (some at) incoming = leb incoming at

-- `_rebuild_all`
abbrev pub rebuild_all : List String → ℕ → FeedDb → FeedDb
rebuild_all uids now db = record db {
  rebuilt = reverse (map (λ uid. (uid, now)) (sorted_set uids)) ++ db.rebuilt;
}

-- `_products_for_offer`
abbrev products_for_offer : String → List ProductOffer → List String
products_for_offer offer [] = []
products_for_offer offer (m ∷ ms) =
    let rest = products_for_offer offer ms in
    if str_eq m.offer_uid offer then m.product ∷ rest else rest

abbrev uids_where : (Product → Bool) → List Product → List String
uids_where test [] = []
uids_where test (p ∷ ps) =
    let rest = uids_where test ps in if test p then p.product_uid ∷ rest else rest

-- `_products_referencing_vehicle`
abbrev products_referencing_vehicle : String → List Product → List String
products_referencing_vehicle slug = uids_where (λ p.
    has_text slug p.vehicles_compatible
    || has_text slug p.vehicles_incompatible
    || has_text slug p.vehicles_unknown)

-- `part_numbers__overlap` or `crossref_codes__overlap`
abbrev products_with_codes : List String → List Product → List String
products_with_codes codes =
    uids_where (λ p. exists (λ c. has_text c p.part_numbers || has_text c p.crossref_codes) codes)

-- The events about fitments, vehicles, cross-references and clicks; those of offers.enriched and
-- clusters.changed are left out.
pub data Event : Type 0 where
  fitted : String → String → Event
  vehicle : String → String → Event
  vehicle_tombstone : Option String → Event
  crossref : String → String → String → Event
  crossref_tombstone : Option String → Event
  click : String → String → String → String → Bool → ℕ → Event

abbrev pub topic_of : Event → String
topic_of (fitted offer contents) = "offers.fitted"
topic_of (vehicle slug contents) = "vehicles.changed"
topic_of (vehicle_tombstone key) = "vehicles.changed"
topic_of (crossref a b contents) = "crossrefs.changed"
topic_of (crossref_tombstone key) = "crossrefs.changed"
topic_of (click id product offer seller suspicious at) = "clicks.recorded"

abbrev pair_key_of : String → String → String
pair_key_of a b = str_append a (str_append "|" b)

-- The entity of an event, or `none` for a tombstone without a key, which is ignored.
abbrev pub entity_of : Event → Option String
entity_of (fitted offer contents) = some offer
entity_of (vehicle slug contents) = some slug
entity_of (vehicle_tombstone key) = truthy key
entity_of (crossref a b contents) = some (pair_key_of a b)
entity_of (crossref_tombstone key) = truthy key
entity_of (click id product offer seller suspicious at) = some id

abbrev fitment_time : Option FitmentReadModel → Option ℕ
fitment_time none = none
fitment_time (some f) = some f.source_occurred_at

abbrev pub vehicle_time : Option VehicleReadModel → Option ℕ
vehicle_time none = none
vehicle_time (some v) = some v.source_occurred_at

abbrev crossref_time : Option CrossRefReadModel → Option ℕ
crossref_time none = none
crossref_time (some c) = some c.source_occurred_at

-- `_click_total`
unfoldable pub click_total : String → List ClickCounter → ℕ
click_total product [] = 0
click_total product (c ∷ cs) =
    let rest = click_total product cs in
    if str_eq c.product_uid product then c.clicks + rest else rest

abbrev pub is_counter : String → String → ClickCounter → Bool
is_counter product offer c = str_eq c.product_uid product && str_eq c.offer_uid offer

abbrev pub clicked : Bool → ℕ → ClickCounter → ClickCounter
clicked suspicious at c = record c {
  clicks = c.clicks + 1;
  suspicious_clicks = if suspicious then c.suspicious_clicks + 1 else c.suspicious_clicks;
  last_click_at = some at;
}

-- The counter of a product and an offer, one further; it is created where there is none.
unfoldable pub count_click :
    String → String → String → Bool → ℕ → List ClickCounter → List ClickCounter
count_click product offer seller suspicious at [] =
    clicked suspicious at (record {
      product_uid = product;
      offer_uid = offer;
      seller_key = seller;
      clicks = 0;
      suspicious_clicks = 0;
      last_click_at = none;
    })
    ∷ []
count_click product offer seller suspicious at (c ∷ cs) =
    let rest = count_click product offer seller suspicious at cs in
    if is_counter product offer c then clicked suspicious at c ∷ cs else c ∷ rest

abbrev pub vehicle_row : String → String → ℕ → VehicleReadModel
vehicle_row slug contents at = record {
  vehicle_slug = slug;
  contents = contents;
  is_deleted = false;
  source_occurred_at = at;
}

abbrev pub deleted : ℕ → VehicleReadModel → VehicleReadModel
deleted at v = record v { is_deleted = true; source_occurred_at = at }

abbrev pub recounted : String → List ClickCounter → List Product → List Product
recounted product counters =
    update_where (λ p. str_eq p.product_uid product)
      (λ p. record p { click_count = click_total product counters })

abbrev pub unless_stale : Bool → FeedDb → FeedDb → Bool × FeedDb
unless_stale true old new = (false, old)
unless_stale false old new = (true, new)

-- What the handler of each topic does with an event that is new. `split` is that of the key at its bars.
unfoldable pub apply : (String → List String) → Envelope → String → Event → FeedDb → Bool × FeedDb
unfolding count_click click_total
apply split e entity (fitted offer contents) db =
    unless_stale (is_stale (fitment_time (lookup fitment_key offer db.fitments)) e.occurred_at) db (
      rebuild_all (products_for_offer offer db.members) e.occurred_at (record db {
        fitments =
            put fitment_key
              (record {
                offer_uid = offer;
                contents = contents;
                source_occurred_at = e.occurred_at;
              })
              db.fitments;
      }))
apply split e entity (vehicle slug contents) db =
    unless_stale (is_stale (vehicle_time (lookup vehicle_key slug db.vehicles)) e.occurred_at) db (
      rebuild_all (products_referencing_vehicle slug db.products) e.occurred_at (record db {
        vehicles = put vehicle_key (vehicle_row slug contents e.occurred_at) db.vehicles;
      }))
apply split e entity (vehicle_tombstone key) db = (
  true,
  rebuild_all (products_referencing_vehicle entity db.products) e.occurred_at (record db {
    vehicles = update_where (λ v. str_eq v.vehicle_slug entity) (deleted e.occurred_at) db.vehicles;
  }),
)
apply split e entity (crossref a b contents) db =
    unless_stale (is_stale (crossref_time (lookup crossref_key entity db.crossrefs)) e.occurred_at)
      db
      (rebuild_all (products_with_codes (a ∷ b ∷ []) db.products) e.occurred_at (record db {
        crossrefs =
            put crossref_key
              (record {
                pair_key = entity;
                contents = contents;
                is_deleted = false;
                source_occurred_at = e.occurred_at;
              })
              db.crossrefs;
      }))
apply split e entity (crossref_tombstone key) db = (
  true,
  rebuild_all (products_with_codes (split entity) db.products) e.occurred_at (record db {
    crossrefs =
        update_where (λ c. str_eq c.pair_key entity)
          (λ c. record c { is_deleted = true; source_occurred_at = e.occurred_at }) db.crossrefs;
  }),
)
apply split e entity (click id product offer seller suspicious at) db =
    let counters' = count_click product offer seller suspicious at db.counters in
    (true, record db { counters = counters'; products = recounted product counters' db.products })

abbrev pub guarded :
    (String → List String) → Envelope → String → Event → Option FeedDb → FeedDb → Bool × FeedDb
guarded split e entity ev none db = (false, db)
guarded split e entity ev (some db') db = apply split e entity ev db'

-- `HANDLERS[topic](envelope, topic, key)`
unfoldable pub handle : (String → List String) → Envelope → Event → FeedDb → Bool × FeedDb
unfolding apply
handle split e ev db = elim (entity_of ev) [
  | none ↦ (false, db)
  | some entity ↦ guarded split e entity ev (guard_duplicate e (topic_of ev) entity db) db
]
