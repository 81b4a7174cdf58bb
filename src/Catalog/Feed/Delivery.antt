-- ===== src/Catalog/Feed/Delivery.antt =====
-- Events of catalog/consumers/handlers.py that come twice, or late.
use yadakchi.Prelude.{
  ◌≡◌, refl, sym, ap, subst, ◌∙◌, inl, inr, String, Bool, true, false, Option, none, some, List,
  if◌then◌else◌, str_eq_refl, Bool-cases, Option-cases,
}
use yadakchi.Catalog.Tables.{Envelope, FeedDb}
use yadakchi.Catalog.Feed.{
  is_processed, recorded, guard_duplicate, Event, fitted, vehicle, vehicle_tombstone, crossref,
  crossref_tombstone, click, topic_of, entity_of, unless_stale, apply, guarded, handle,
}

unless_stale-processed :
    (b : Bool) (old new : FeedDb)
    → new.processed ≡ old.processed
    → (unless_stale b old new).1.processed ≡ old.processed
unless_stale-processed true old new h = refl
unless_stale-processed false old new h = h

apply-processed :
    (split : String → List String) (e : Envelope) (entity : String) (ev : Event) (db : FeedDb)
    → (apply split e entity ev db).1.processed ≡ db.processed
unfolding apply
apply-processed split e entity (fitted offer contents) db = unless_stale-processed _ db _ refl
apply-processed split e entity (vehicle slug contents) db = unless_stale-processed _ db _ refl
apply-processed split e entity (vehicle_tombstone key) db = refl
apply-processed split e entity (crossref a b contents) db = unless_stale-processed _ db _ refl
apply-processed split e entity (crossref_tombstone key) db = refl
apply-processed split e entity (click id product offer seller suspicious at) db = refl

guard_known :
    (e : Envelope) (topic entity : String) (db : FeedDb)
    → is_processed topic e.event_id db.processed ≡ true
    → guard_duplicate e topic entity db ≡ none
guard_known e topic entity db h = ap (λ b. if b then none else some (recorded e topic entity db)) h

guard_new :
    (e : Envelope) (topic entity : String) (db : FeedDb)
    → is_processed topic e.event_id db.processed ≡ false
    → guard_duplicate e topic entity db ≡ some (recorded e topic entity db)
guard_new e topic entity db h = ap (λ b. if b then none else some (recorded e topic entity db)) h

-- A guard that has seen the event.
guard_again :
    (split : String → List String) (e : Envelope) (entity : String) (ev : Event) (db : FeedDb)
    → is_processed
        (topic_of ev)
        e.event_id
        (guarded split e entity ev (guard_duplicate e (topic_of ev) entity db) db).1.processed
      ≡ true
guard_again split e entity ev db =
    elim (Bool-cases (is_processed (topic_of ev) e.event_id db.processed)) [
      | inl seen ↦ subst Seen (sym (guard_known e (topic_of ev) entity db seen)) seen
      | inr new ↦ subst Seen (sym (guard_new e (topic_of ev) entity db new)) (
          subst (λ ps. is_processed (topic_of ev) e.event_id ps ≡ true)
            (sym (apply-processed split e entity ev (recorded e (topic_of ev) entity db)))
            (rw (str_eq_refl (topic_of ev), str_eq_refl e.event_id) refl))
    ]
  where
    Seen : Option FeedDb → Type 0
    Seen o =
        is_processed (topic_of ev) e.event_id (guarded split e entity ev o db).1.processed ≡ true

handle_keyless :
    (split : String → List String) (e : Envelope) (ev : Event)
    → entity_of ev ≡ none
    → (db : FeedDb) → handle split e ev db ≡ (false, db)
unfolding handle
handle_keyless split e ev keyless db = rw (handle, keyless) refl

handle_named :
    (split : String → List String) (e : Envelope) (ev : Event) {entity : String}
    → entity_of ev ≡ some entity
    → (db : FeedDb)
    → handle split e ev db
      ≡ guarded split e entity ev (guard_duplicate e (topic_of ev) entity db) db
unfolding handle
handle_named split e ev named db = rw (handle, named) refl

-- An event that a handler of fitments, vehicles, cross-references or clicks has been given changes
-- nothing when it is delivered again, and is reported as not applied.
pub handle_again :
    (split : String → List String) (e : Envelope) (ev : Event) (db : FeedDb)
    → handle split e ev (handle split e ev db).1 ≡ (false, (handle split e ev db).1)
handle_again split e ev db = elim (Option-cases (entity_of ev)) [
  | inl keyless ↦ handle_keyless split e ev keyless (handle split e ev db).1
  | inr (entity, named) ↦
      let after = (guarded split e entity ev (guard_duplicate e (topic_of ev) entity db) db).1 in
      subst (λ d. handle split e ev d ≡ (false, d))
        (sym (ap (λ r. r.1) (handle_named split e ev named db)))
        (handle_named split e ev named after
          ∙ ap (λ o. guarded split e entity ev o after)
              (guard_known e (topic_of ev) entity after (guard_again split e entity ev db)))
]
