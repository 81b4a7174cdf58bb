-- ===== src/Search/Indexer.antt =====
-- search/indexer.py: the rows and the index follow the events.
pub mod Mirror
pub mod Redelivery
pub mod Vehicles
use yadakchi.Prelude.{
  ℕ, ◌+◌, String, Bool, true, false, not, ◌&&◌, ◌||◌, Option, none, some, List, [], ◌∷◌, ◌++◌, map,
  ltb, leb, ◌==◌, if◌then◌else◌, str_eq, is_some, length, select, sorted_set, truthy,
}
use yadakchi.Prelude.Keyed.{lookup, put, remove}
use yadakchi.Search.Models.{
  Offer, ProductPayload, ProductEvent, VehiclePayload, VehicleEvent, ProductState,
  ProductPartNumber, SynonymDecision, VehicleState, Document, SearchDb, Env,
}
use yadakchi.Search.Graph.{connected_codes}
use yadakchi.Search.Documents.{base_codes, embedding_text, embedding_for, document_for}

abbrev pub product_key : ProductState → String
product_key s = s.product_uid

abbrev pub document_key : Document → String
document_key d = d.product_uid

abbrev pub vehicle_key : VehicleState → String
vehicle_key v = v.vehicle_slug

-- The payload that a state shows, if it is published and not empty.
abbrev pub shown : Bool → Option ProductPayload → Option ProductPayload
shown true p = p
shown false p = none

abbrev pub applied : ProductState → ProductState
applied s = record s { index_applied_at = some s.event_occurred_at }

abbrev pub refreshed : Env → ProductState → ProductPayload → ProductState
refreshed env s payload = record (applied s) {
  embedding = embedding_for env s (embedding_text env payload);
  embedding_text_hash = env.sha256 (embedding_text env payload);
}

-- `index_product_state` on a locked row.
unfoldable pub index_state : Env → ProductState → Option ProductPayload → SearchDb → SearchDb
index_state env s none db = record db {
  index = remove document_key s.product_uid db.index;
  products = put product_key (applied s) db.products;
}
index_state env s (some payload) db = record db {
  index = put document_key (document_for env db s payload) db.index;
  products = put product_key (refreshed env s payload) db.products;
}

unfoldable pub index_product_state : Env → String → SearchDb → SearchDb
index_product_state env uid db = elim (lookup product_key uid db.products) [
  | none ↦ db
  | some s ↦ index_state env s (shown s.is_published s.payload) db
]

-- How a handler ends: with its result, or by an exception.
pub data Ending : Type 0 where
  returned : Bool → Ending
  raised : Ending

abbrev pub uid_of : Option ProductPayload → Option String → Option String
uid_of (some p) key = some p.product_uid
uid_of none key = key

abbrev pub published : Option ProductPayload → Bool
published none = false
published (some p) = p.is_published

abbrev part_type_of : Option ProductPayload → Option String
part_type_of none = none
part_type_of (some p) = p.part_type

abbrev updated_of : Option ProductPayload → Option ℕ
updated_of none = none
updated_of (some p) = some p.updated_at

abbrev codes_of : Env → String → Option ProductPayload → List ProductPartNumber
codes_of env uid none = []
codes_of env uid (some p) = map (λ c. record { product = uid; code = c }) (base_codes env p)

-- The row with the contents of the event.
abbrev pub filled : ProductEvent → ProductState → ProductState
filled e s = record s {
  payload = e.payload;
  part_type = part_type_of e.payload;
  is_published = published e.payload;
  event_occurred_at = e.occurred_at;
  source_updated_at = updated_of e.payload;
  index_applied_at = none;
  trace_id = e.trace_id;
}

abbrev pub blank : String → ℕ → ProductState
blank uid at = record {
  product_uid = uid;
  payload = none;
  part_type = none;
  is_published = false;
  event_occurred_at = at;
  source_updated_at = none;
  index_applied_at = none;
  embedding = [];
  embedding_text_hash = "";
  trace_id = "";
}

abbrev pub store : Env → String → ProductEvent → ProductState → SearchDb → SearchDb
store env uid e s db = record db {
  products = put product_key (filled e s) db.products;
  part_numbers =
      codes_of env uid e.payload ++ select (λ n. not (str_eq n.product uid)) db.part_numbers;
}

abbrev pub is_applied_at : ℕ → Option ℕ → Bool
is_applied_at at none = false
is_applied_at at (some t) = t == at

-- The first transaction: the database after it, or `none` for an event that is not applied.
-- `same` is the equality of the stored payload with that of the event.
unfoldable pub accept :
    Env → Bool → String → ProductEvent → Option ProductState → SearchDb → Option SearchDb
accept env same uid e none db = some (store env uid e (blank uid e.occurred_at) db)
accept env same uid e (some s) db =
    if ltb e.occurred_at s.event_occurred_at
    then none
    else if (s.event_occurred_at == e.occurred_at) && is_applied_at e.occurred_at s.index_applied_at
    then none
    else if not (s.event_occurred_at == e.occurred_at) || not same
    then some (store env uid e s db)
    else some db

abbrev pub stored_payload : Option ProductState → Option ProductPayload
stored_payload none = none
stored_payload (some s) = s.payload

-- The second transaction, if the search engine and the embeddings are reachable.
abbrev pub finish : Env → Bool → String → Option SearchDb → SearchDb → Ending × SearchDb
finish env reachable uid none db = (returned false, db)
finish env true uid (some db') db = (returned true, index_product_state env uid db')
finish env false uid (some db') db = (raised, db')

-- `handle_product_event`; `same` compares two payloads.
unfoldable pub handle_product_event :
    Env
    → (Option ProductPayload → Option ProductPayload → Bool)
    → Bool
    → ProductEvent
    → Option String
    → SearchDb
    → Ending × SearchDb
handle_product_event env same reachable e key db = elim (uid_of e.payload key) [
  | none ↦ (raised, db)
  | some uid ↦
      let current = lookup product_key uid db.products in
      finish env reachable uid
        (accept env (same (stored_payload current) e.payload) uid e current db) db
]

abbrev slug_of : Option VehiclePayload → Option String → Option String
slug_of (some p) key = some p.vehicle_slug
slug_of none key = key

abbrev shows_vehicle : Option VehiclePayload → Bool
shows_vehicle none = false
shows_vehicle (some p) = p.is_published

abbrev pub vehicle_row : String → VehicleEvent → VehicleState
vehicle_row slug e = record {
  vehicle_slug = slug;
  payload = e.payload;
  is_published = shows_vehicle e.payload;
  event_occurred_at = e.occurred_at;
  trace_id = e.trace_id;
}

abbrev pub is_newer : ℕ → Option VehicleState → Bool
is_newer at none = true
is_newer at (some v) = ltb v.event_occurred_at at

-- `handle_vehicle_event` on the row of a vehicle.
unfoldable pub update_vehicle : String → VehicleEvent → List VehicleState → Bool × List VehicleState
update_vehicle slug e rows =
    if is_newer e.occurred_at (lookup vehicle_key slug rows)
    then (true, put vehicle_key (vehicle_row slug e) rows)
    else (false, rows)

unfoldable pub handle_vehicle_event : VehicleEvent → Option String → SearchDb → Ending × SearchDb
unfolding update_vehicle
handle_vehicle_event e key db = elim (slug_of e.payload key) [
  | none ↦ (raised, db)
  | some slug ↦
      let (changed, rows) = update_vehicle slug e db.vehicles in
      (returned changed, record db { vehicles = rows })
]
