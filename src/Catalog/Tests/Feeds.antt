-- ===== src/Catalog/Tests/Feeds.antt =====
-- A vehicle, a click and a late tombstone.
use yadakchi.Prelude.{◌≡◌, refl, ◌<◌, String, true, false, some, List, [], ◌∷◌, arith}
use yadakchi.Prelude.Keyed.{lookup}
use yadakchi.Catalog.Tables.{Envelope, FeedDb, VehicleReadModel, vehicle_key}
use yadakchi.Catalog.Feed.{Event, vehicle, vehicle_tombstone, click, click_total, handle}
use yadakchi.Catalog.Feed.Delivery.{handle_again}
use yadakchi.Catalog.Feed.Late.{IsForward, handle-IsForward, handle_tombstone}
use yadakchi.Catalog.Feed.Clicks.{IsTallied, handle-IsTallied}

abbrev split : String → List String
split key = key ∷ []

abbrev pride : VehicleReadModel
pride = record {
  vehicle_slug = "pride";
  contents = "Pride";
  is_deleted = false;
  source_occurred_at = 9;
}

abbrev db : FeedDb
db = record {
  processed = [];
  fitments = [];
  vehicles = pride ∷ [];
  crossrefs = [];
  counters = [];
  members = [];
  products =
      record {
        product_uid = "p1";
        vehicles_compatible = "pride" ∷ [];
        vehicles_incompatible = [];
        vehicles_unknown = [];
        part_numbers = [];
        crossref_codes = [];
        click_count = 0;
      }
      ∷ [];
  rebuilt = [];
}

abbrev late : Envelope
late = record { event_id = "e1"; occurred_at = 4; trace_id = "t" }

abbrev visit : Event
visit = click "c1" "p1" "o1" "ali" true 4

handle_again_example :
    handle split late
      (vehicle "pride" "Pride 131")
      (handle split late (vehicle "pride" "Pride 131") db).1
    ≡ (false, (handle split late (vehicle "pride" "Pride 131") db).1)
handle_again_example = handle_again split late (vehicle "pride" "Pride 131") db

handle-IsForward_example :
    IsForward
      (some pride)
      (lookup vehicle_key "pride" (handle split late (vehicle "pride" "Pride 131") db).1.vehicles)
handle-IsForward_example =
    handle-IsForward split late (vehicle "pride" "Pride 131") db "pride" (λ h. h)

handle_tombstone_example :
    (u : VehicleReadModel) × (lookup vehicle_key "pride"
        (handle split late (vehicle_tombstone (some "pride")) db).1.vehicles
      ≡ some u)
    × (u.is_deleted ≡ true)
    × (u.source_occurred_at < 9)
handle_tombstone_example = handle_tombstone split late "pride" db pride refl refl refl (omega arith)

handle-IsTallied_example :
    IsTallied (handle split late visit db).1.counters (handle split late visit db).1.products
unfolding click_total
handle-IsTallied_example =
    handle-IsTallied split late visit db (record { totals = (refl, tt); suspicious = tt })
