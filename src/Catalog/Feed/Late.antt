-- ===== src/Catalog/Feed/Late.antt =====
-- Events of catalog/consumers/handlers.py about vehicles that come late.
use yadakchi.Prelude.{
  ◌≡◌, refl, sym, ap, subst, inl, inr, ℕ, ◌≤◌, ◌<◌, String, Bool, true, false, Option, none, some,
  List, [], ◌∷◌, arith, if◌then◌else◌, str_eq, str_eq_iff, Bool-cases, Option-cases, update_where,
}
use yadakchi.Prelude.Keyed.{lookup, put, lookup-put_self, lookup-put_ne}
use yadakchi.Catalog.Tables.{Envelope, FeedDb, VehicleReadModel, vehicle_key}
use yadakchi.Catalog.Feed.{
  is_processed, recorded, is_stale, vehicle_time, Event, fitted, vehicle, vehicle_tombstone,
  crossref, crossref_tombstone, click, topic_of, entity_of, unless_stale, vehicle_row, deleted,
  apply, guarded, handle,
}

-- The row of a vehicle is not older than it was.
abbrev pub IsForward : Option VehicleReadModel → Option VehicleReadModel → Type 0
IsForward none v = Unit {0}
IsForward (some u) none = ⊥
IsForward (some u) (some v) = u.source_occurred_at ≤ v.source_occurred_at

IsForward-refl : (v : Option VehicleReadModel) → IsForward v v
IsForward-refl none = tt
IsForward-refl (some v) = omega arith

put-IsForward :
    (row : VehicleReadModel) (rows : List VehicleReadModel) (k : String)
    → is_stale (vehicle_time (lookup vehicle_key row.vehicle_slug rows)) row.source_occurred_at
      ≡ false
    → IsForward (lookup vehicle_key k rows) (lookup vehicle_key k (put vehicle_key row rows))
put-IsForward row rows k fresh = elim (Bool-cases (str_eq row.vehicle_slug k)) [
  | inl same ↦
      let here : row.vehicle_slug ≡ k = (str_eq_iff row.vehicle_slug k).0 same in
      subst (λ o. IsForward (lookup vehicle_key k rows) o)
        (sym (lookup-put_self vehicle_key row k rows here))
        (newer (lookup vehicle_key k rows) (rw here at fresh))
  | inr other ↦
      subst (λ o. IsForward (lookup vehicle_key k rows) o)
        (sym (lookup-put_ne vehicle_key row k rows other))
        (IsForward-refl (lookup vehicle_key k rows))
]
  where
    newer :
        (o : Option VehicleReadModel)
        → is_stale (vehicle_time o) row.source_occurred_at ≡ false
        → IsForward o (some row)
    newer none h = tt
    newer (some u) h = ground arith

unless_stale-IsForward :
    (b : Bool) (old new : FeedDb) (k : String)
    → (b ≡ false
        → IsForward (lookup vehicle_key k old.vehicles) (lookup vehicle_key k new.vehicles))
    → IsForward
        (lookup vehicle_key k old.vehicles)
        (lookup vehicle_key k (unless_stale b old new).1.vehicles)
unless_stale-IsForward true old new k h = IsForward-refl (lookup vehicle_key k old.vehicles)
unless_stale-IsForward false old new k h = h refl

-- A tombstone of a vehicle.
abbrev pub IsTombstone : Event → Type 0
IsTombstone (fitted offer contents) = ⊥
IsTombstone (vehicle slug contents) = ⊥
IsTombstone (vehicle_tombstone key) = Unit {0}
IsTombstone (crossref a b contents) = ⊥
IsTombstone (crossref_tombstone key) = ⊥
IsTombstone (click id product offer seller suspicious at) = ⊥

apply-IsForward :
    (split : String → List String) (e : Envelope) (entity : String) (ev : Event) (db : FeedDb)
    (k : String)
    → ¬ IsTombstone ev
    → IsForward
        (lookup vehicle_key k db.vehicles)
        (lookup vehicle_key k (apply split e entity ev db).1.vehicles)
unfolding apply
apply-IsForward split e entity (fitted offer contents) db k no_ =
    unless_stale-IsForward _ db _ k (λ _. IsForward-refl (lookup vehicle_key k db.vehicles))
apply-IsForward split e entity (vehicle slug contents) db k no_ =
    unless_stale-IsForward
      (is_stale (vehicle_time (lookup vehicle_key slug db.vehicles)) e.occurred_at) db _ k
      (λ fresh. put-IsForward (vehicle_row slug contents e.occurred_at) db.vehicles k fresh)
apply-IsForward split e entity (vehicle_tombstone key) db k no_ = absurd (no_ tt)
apply-IsForward split e entity (crossref a b contents) db k no_ =
    unless_stale-IsForward _ db _ k (λ _. IsForward-refl (lookup vehicle_key k db.vehicles))
apply-IsForward split e entity (crossref_tombstone key) db k no_ =
    IsForward-refl (lookup vehicle_key k db.vehicles)
apply-IsForward split e entity (click id product offer seller suspicious at) db k no_ =
    IsForward-refl (lookup vehicle_key k db.vehicles)

guarded-IsForward :
    (split : String → List String) (e : Envelope) (entity : String) (ev : Event) (b : Bool)
    (db : FeedDb) (k : String)
    → ¬ IsTombstone ev
    → IsForward (lookup vehicle_key k db.vehicles) (
        lookup vehicle_key k
          (guarded split e entity ev
            (if b then none else some (recorded e (topic_of ev) entity db))
            db).1.vehicles)
guarded-IsForward split e entity ev true db k no_ =
    IsForward-refl (lookup vehicle_key k db.vehicles)
guarded-IsForward split e entity ev false db k no_ =
    apply-IsForward split e entity ev (recorded e (topic_of ev) entity db) k no_

-- Of the events about fitments, vehicles, cross-references and clicks, none but a tombstone of a
-- vehicle takes the row of a vehicle away or makes it older than it was.
pub handle-IsForward :
    (split : String → List String) (e : Envelope) (ev : Event) (db : FeedDb) (k : String)
    → ¬ IsTombstone ev
    → IsForward
        (lookup vehicle_key k db.vehicles)
        (lookup vehicle_key k (handle split e ev db).1.vehicles)
unfolding handle
handle-IsForward split e ev db k no_ = elim (Option-cases (entity_of ev)) [
  | inl keyless ↦ rw (handle, keyless) (IsForward-refl (lookup vehicle_key k db.vehicles))
  | inr (entity, named) ↦
      rw (handle, named)
        (guarded-IsForward split e entity ev (is_processed (topic_of ev) e.event_id db.processed) db
          k no_)
]

lookup-update_where :
    (slug : String) (at : ℕ) (rows : List VehicleReadModel) {v : VehicleReadModel}
    → lookup vehicle_key slug rows ≡ some v
    → lookup vehicle_key slug (update_where (λ u. str_eq u.vehicle_slug slug) (deleted at) rows)
      ≡ some (deleted at v)
lookup-update_where slug at [] h = absurd (cc h)
lookup-update_where slug at (u ∷ rows) {v} h = elim (Bool-cases (str_eq u.vehicle_slug slug)) [
  | inl same ↦
      let e : u ≡ v = cc (rw same at h) in rw (same, same) (ap (λ x. some (deleted at x)) e)
  | inr other ↦ rw (other, other) (lookup-update_where slug at rows (rw other at h))
]

-- A tombstone with the key of a vehicle, new to the handler but older than the row of the vehicle,
-- is applied all the same: the row is marked as deleted and gets the older instant.
pub handle_tombstone :
    (split : String → List String) (e : Envelope) (slug : String) (db : FeedDb)
    (v : VehicleReadModel)
    → str_eq slug "" ≡ false
    → is_processed "vehicles.changed" e.event_id db.processed ≡ false
    → lookup vehicle_key slug db.vehicles ≡ some v
    → e.occurred_at < v.source_occurred_at
    → (u : VehicleReadModel) × (lookup vehicle_key slug
          (handle split e (vehicle_tombstone (some slug)) db).1.vehicles
        ≡ some u)
      × (u.is_deleted ≡ true)
      × (u.source_occurred_at < v.source_occurred_at)
unfolding handle apply
handle_tombstone split e slug db v named new found late =
    let u = deleted e.occurred_at v in
    (
      u,
      rw (handle, named, new) (lookup-update_where slug e.occurred_at db.vehicles found),
      refl,
      late,
    )
