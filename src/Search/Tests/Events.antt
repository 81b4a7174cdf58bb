-- ===== src/Search/Tests/Events.antt =====
-- Two products, a cross-reference and two events about a vehicle.
use yadakchi.Prelude.{
  ◌≡◌, refl, inr, String, Bool, true, false, Option, none, some, List, [], ◌∷◌, ◌↔◌, arith,
  has_text, str_eq_iff,
}
use yadakchi.Prelude.Keyed.{lookup, put}
use yadakchi.Search.Models.{
  ProductPayload, ProductEvent, VehicleEvent, VehiclePayload, CrossReferenceEvent, ReviewEvent,
  ProductState, SynonymDecision, SearchDb, Env,
}
use yadakchi.Search.Graph.{closure}
use yadakchi.Search.Documents.{base_codes, synonyms_of, embedding_text, embedding_for}
use yadakchi.Search.Graph.Closure.{IsConnected, closure-IsConnected}
use yadakchi.Search.Indexer.{
  document_key, vehicle_key, accept, handle_product_event, update_vehicle, index_product_state,
  index_state, Ending,
}
use yadakchi.Search.Indexer.Mirror.{IsMirrored, shown_by, handle_product_event-IsMirrored}
use yadakchi.Search.Indexer.Redelivery.{redelivery}
use yadakchi.Search.Crossrefs.{handle_cross_reference_event, index_each}
use yadakchi.Search.Synonyms.{
  handle_review_event, update_synonym, reindex_part_types, reindex_part_type, stamped,
}
use yadakchi.Search.Crossrefs.Reindex.{IsShown}
use yadakchi.Search.Synonyms.Shown.{handle_review_event-IsShown}
use yadakchi.Search.Indexer.Vehicles.{update_vehicle_comm}

abbrev edges : List (String × String)
edges = ("A1", "B2") ∷ ("B2", "C3") ∷ ("D4", "E5") ∷ []

closure-IsConnected_example :
    (has_text "C3" (closure edges ("A1" ∷ [])) ≡ true) ↔ IsConnected edges ("A1" ∷ []) "C3"
closure-IsConnected_example = closure-IsConnected edges ("A1" ∷ []) "C3"

abbrev sample_env : Env
sample_env = record {
  normalize_part_number = λ c. c;
  normalize_text = λ t. t;
  joined = λ ts. "joined";
  sha256 = λ t. t;
  embed = λ t. 1 ∷ 2 ∷ [];
  timestamp = λ t. t;
  pair_key = λ a b. a;
  split_key = λ k. none;
}

abbrev pads : ProductPayload
pads = record {
  product_uid = "p1";
  title = "brake pads";
  brand = some "Bosch";
  part_type = some "pads";
  authenticity_dominant = "genuine";
  image_url = none;
  part_numbers = "A1" ∷ [];
  crossref_codes = [];
  vehicles_compatible = "pride" ∷ [];
  vehicles_incompatible = [];
  offer_count = 1;
  min_price_toman = none;
  offers = [];
  is_published = true;
  updated_at = 5;
}

abbrev event : ProductEvent
event = record { occurred_at = 7; trace_id = "t"; payload = some pads }

abbrev nothing : SearchDb
nothing = record {
  products = [];
  part_numbers = [];
  synonyms = [];
  vehicles = [];
  crossrefs = [];
  index = [];
  synonym_sets = [];
}

-- Only two empty payloads are found equal here.
abbrev same : Option ProductPayload → Option ProductPayload → Bool
same none none = true
same none (some q) = false
same (some p) q = false

same_sound : (p q : Option ProductPayload) → same p q ≡ true → p ≡ q
same_sound none none h = refl
same_sound none (some q) h = absurd (cc h)
same_sound (some p) q h = absurd (cc h)

handle_product_event-IsMirrored_example :
    IsMirrored (handle_product_event sample_env same true event none nothing).1
handle_product_event-IsMirrored_example =
    handle_product_event-IsMirrored sample_env same same_sound true event none nothing (λ uid. refl)

redelivery_example :
    ((handle_product_event sample_env same true event none
        (handle_product_event sample_env same false event none nothing).1).0
      ≡ Ending.returned true)
    × (shown_by (
          lookup document_key "p1"
            (handle_product_event sample_env same true event none
              (handle_product_event sample_env same false event none nothing).1).1.index)
        ≡ some pads)
unfolding handle_product_event accept
redelivery_example =
    redelivery sample_env same same_sound event none "p1" refl nothing (λ uid. refl) refl

abbrev car : String → VehiclePayload
car name = record {
  vehicle_slug = "pride";
  display_name_fa = name;
  aliases = [];
  is_published = true;
}

abbrev first : VehicleEvent
first = record { occurred_at = 3; trace_id = "t3"; payload = some (car "Pride") }

abbrev second : VehicleEvent
second = record { occurred_at = 4; trace_id = "t4"; payload = some (car "Pride 131") }

update_vehicle_comm_example :
    lookup vehicle_key "pride" (update_vehicle "pride" first (update_vehicle "pride" second []).1).1
    ≡ lookup vehicle_key "pride"
        (update_vehicle "pride" second (update_vehicle "pride" first []).1).1
update_vehicle_comm_example =
    update_vehicle_comm "pride" "pride" first second [] (λ _. omega arith) "pride"

abbrev indexed : SearchDb
indexed = (handle_product_event sample_env same true event none nothing).1

abbrev equal_codes : CrossReferenceEvent
equal_codes = record {
  occurred_at = 8;
  trace_id = "t";
  payload = some (record { code_a = "A1"; code_b = "B2"; confidence = 70; provenance = "rule" });
}

abbrev approval : ReviewEvent
approval = record {
  occurred_at = 9;
  trace_id = "t";
  payload = some (record {
    request_uid = "r1";
    kind = "synonym_candidate";
    decision = "approve";
    token = some "lent";
    part_type = some "pads";
    decided_at = 9;
  });
}

abbrev pads_row : ProductState
pads_row = record {
  product_uid = "p1";
  payload = some pads;
  part_type = some "pads";
  is_published = true;
  event_occurred_at = 7;
  source_updated_at = some 5;
  index_applied_at = some 7;
  embedding = 1 ∷ 2 ∷ [];
  embedding_text_hash = "joined";
  trace_id = "t";
}

abbrev linked : SearchDb
linked = (handle_cross_reference_event sample_env (some 1) equal_codes none indexed).1

abbrev lent : SynonymDecision
lent = record {
  request_uid = "r1";
  token = "lent";
  part_type = "pads";
  decision = "approve";
  active = true;
  decided_at = some 9;
  event_occurred_at = 0;
  index_applied_at = none;
  trace_id = "";
}

abbrev renamed : SearchDb
renamed = (handle_review_event sample_env (some 2) approval none indexed).1

handle_review_event-IsShown_example :
    IsShown sample_env [] (stamped approval lent ∷ []) "p1" pads renamed
unfolding handle_product_event accept index_product_state index_state embedding_text embedding_for
    base_codes handle_review_event update_synonym reindex_part_types reindex_part_type index_each
    synonyms_of put
handle_review_event-IsShown_example =
    handle_review_event-IsShown sample_env (some 2) approval none "r1" "pads" "p1" lent pads indexed
      renamed refl refl refl refl (λ e. ground (arith, str_eq_iff "pads" "", e)) (inr refl)
      (record { row = pads_row; found = refl; flag = refl; typed = refl; payload = refl })
