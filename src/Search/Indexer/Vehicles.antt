-- ===== src/Search/Indexer/Vehicles.antt =====
-- The rows of vehicles in search/indexer.py, and the order of the events.
use yadakchi.Prelude.{
  ◌≡◌, ◌≢◌, refl, sym, ◌∙◌, inl, inr, String, Option, none, some, List, arith, str_eq, str_eq_iff,
  str_eq_refl, Bool-cases, if◌then◌else◌,
}
use yadakchi.Prelude.Keyed.{lookup, lookup-put_self, lookup-put_ne}
use yadakchi.Search.Models.{VehicleEvent, VehicleState}
use yadakchi.Search.Indexer.{vehicle_key, vehicle_row, is_newer, update_vehicle}

-- What an event about a vehicle makes of its row.
abbrev newest : String → VehicleEvent → Option VehicleState → Option VehicleState
newest slug e row = if is_newer e.occurred_at row then some (vehicle_row slug e) else row

lookup-update_vehicle :
    (slug k : String) (e : VehicleEvent) (rows : List VehicleState)
    → lookup vehicle_key k (update_vehicle slug e rows).1 ≡ (
        if str_eq slug k
        then newest slug e (lookup vehicle_key k rows)
        else lookup vehicle_key k rows)
unfolding update_vehicle
lookup-update_vehicle slug k e rows = elim (Bool-cases (str_eq slug k)) [
  | inl same ↦
      let eq : slug ≡ k = (str_eq_iff slug k).0 same in
      elim (Bool-cases (is_newer e.occurred_at (lookup vehicle_key k rows))) [
        | inl new ↦
            rw (eq, str_eq_refl k, update_vehicle, new)
              (lookup-put_self vehicle_key (vehicle_row k e) k rows refl)
        | inr old ↦ rw (eq, str_eq_refl k, update_vehicle, old) refl
      ]
  | inr other ↦ elim (Bool-cases (is_newer e.occurred_at (lookup vehicle_key slug rows))) [
    | inl new ↦
        rw (other, update_vehicle, new)
          (lookup-put_ne vehicle_key (vehicle_row slug e) k rows other)
    | inr old ↦ rw (other, update_vehicle, old) refl
  ]
]

newest_comm :
    (slug : String) (a b : VehicleEvent) (row : Option VehicleState)
    → a.occurred_at ≢ b.occurred_at
    → newest slug a (newest slug b row) ≡ newest slug b (newest slug a row)
newest_comm slug a b none ne = ground arith
newest_comm slug a b (some v) ne = ground arith

abbrev newest_at : String → String → VehicleEvent → Option VehicleState → Option VehicleState
newest_at k slug e row = if str_eq slug k then newest slug e row else row

newest_on_each :
    (s t k : String) (a b : VehicleEvent) (row : Option VehicleState)
    → (s ≡ t → a.occurred_at ≢ b.occurred_at)
    → newest_at k s a (newest_at k t b row) ≡ newest_at k t b (newest_at k s a row)
newest_on_each s t k a b row apart = elim (Bool-cases (str_eq s k)) [
  | inl here ↦ elim (Bool-cases (str_eq t k)) [
    | inl also ↦
        let e : s ≡ t = (str_eq_iff s k).0 here ∙ sym ((str_eq_iff t k).0 also) in
        rw (← e, here) (newest_comm s a b row (apart e))
    | inr away ↦ rw (here, away) refl
  ]
  | inr away ↦ rw away refl
]

-- Two events about vehicles, of different instants if they are about one vehicle, leave the same
-- row for every vehicle in either order.
pub update_vehicle_comm :
    (s t : String) (a b : VehicleEvent) (rows : List VehicleState)
    → (s ≡ t → a.occurred_at ≢ b.occurred_at)
    → (k : String)
    → lookup vehicle_key k (update_vehicle s a (update_vehicle t b rows).1).1
      ≡ lookup vehicle_key k (update_vehicle t b (update_vehicle s a rows).1).1
update_vehicle_comm s t a b rows apart k =
    rw (lookup-update_vehicle s k a (update_vehicle t b rows).1) (
      rw (lookup-update_vehicle t k b (update_vehicle s a rows).1) (
        rw (lookup-update_vehicle t k b rows) (
          rw (lookup-update_vehicle s k a rows)
            (newest_on_each s t k a b (lookup vehicle_key k rows) apart))))
