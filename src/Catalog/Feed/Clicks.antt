-- ===== src/Catalog/Feed/Clicks.antt =====
-- The counters of clicks in catalog/consumers/handlers.py.
use yadakchi.Prelude.{
  ◌≡◌, refl, sym, ap, ◌∙◌, inl, inr, ℕ, ◌+◌, ◌≤◌, String, Bool, true, false, none, some, List, [],
  ◌∷◌, arith, if◌then◌else◌, str_eq, str_eq_iff, Bool-cases, Option-cases, All,
}
use yadakchi.Catalog.Tables.{Envelope, FeedDb, Product, ClickCounter}
use yadakchi.Catalog.Feed.{
  is_processed, recorded, Event, fitted, vehicle, vehicle_tombstone, crossref, crossref_tombstone,
  click, topic_of, entity_of, click_total, is_counter, count_click, recounted, unless_stale, apply,
  guarded, handle,
}

-- Every product shows the sum of its counters, and no counter has more suspicious clicks than clicks.
pub record IsTallied (counters : List ClickCounter) (products : List Product) : Type 0 where
  pub totals : All (λ (p : Product). p.click_count ≡ click_total p.product_uid counters) products
  pub suspicious : All (λ (c : ClickCounter). c.suspicious_clicks ≤ c.clicks) counters

-- A click adds one to the total of its product, and nothing to another's.
click_total-count_click :
    (uid product offer seller : String) (s : Bool) (at : ℕ) (cs : List ClickCounter)
    → click_total uid (count_click product offer seller s at cs)
      ≡ (if str_eq product uid then click_total uid cs + 1 else click_total uid cs)
unfolding click_total count_click
click_total-count_click uid product offer seller s at [] = ground arith
click_total-count_click uid product offer seller s at (c ∷ cs) = ground (
  arith,
  str_eq_iff product uid,
  str_eq_iff c.product_uid product,
  str_eq_iff c.product_uid uid,
  click_total-count_click uid product offer seller s at cs,
)

count_click-suspicious :
    (product offer seller : String) (s : Bool) (at : ℕ) (cs : List ClickCounter)
    → All (λ (c : ClickCounter). c.suspicious_clicks ≤ c.clicks) cs
    → All
        (λ (c : ClickCounter). c.suspicious_clicks ≤ c.clicks)
        (count_click product offer seller s at cs)
unfolding count_click
count_click-suspicious product offer seller true at [] h = (omega arith, tt)
count_click-suspicious product offer seller false at [] h = (omega arith, tt)
count_click-suspicious product offer seller s at (c ∷ cs) (h, rest) =
    elim (Bool-cases (is_counter product offer c)) [
      | inl it ↦ rw it (ground arith, rest)
      | inr other ↦ rw other (h, count_click-suspicious product offer seller s at cs rest)
    ]

recounted-totals :
    (product offer seller : String) (s : Bool) (at : ℕ) (cs : List ClickCounter) (ps : List Product)
    → All (λ (p : Product). p.click_count ≡ click_total p.product_uid cs) ps
    → All
        (λ (p : Product).
          p.click_count ≡ click_total p.product_uid (count_click product offer seller s at cs))
        (recounted product (count_click product offer seller s at cs) ps)
recounted-totals product offer seller s at cs [] h = tt
recounted-totals product offer seller s at cs (p ∷ ps) (h, rest) =
    elim (Bool-cases (str_eq p.product_uid product)) [
      | inl same ↦
          let here : product ≡ p.product_uid = sym ((str_eq_iff p.product_uid product).0 same) in
          rw same (
            ap (λ uid. click_total uid (count_click product offer seller s at cs)) here,
            recounted-totals product offer seller s at cs ps rest,
          )
      | inr other ↦
          let no_ : str_eq product p.product_uid ≡ false =
            ground (arith, str_eq_iff product p.product_uid, str_eq_iff p.product_uid product) in
          let total = click_total-count_click p.product_uid product offer seller s at cs in
          rw other
            (h ∙ sym (rw no_ at total), recounted-totals product offer seller s at cs ps rest)
    ]

unless_stale-IsTallied :
    (b : Bool) (old new : FeedDb)
    → IsTallied old.counters old.products
    → new.counters ≡ old.counters
    → new.products ≡ old.products
    → IsTallied (unless_stale b old new).1.counters (unless_stale b old new).1.products
unless_stale-IsTallied true old new t c p = t
unless_stale-IsTallied false old new t c p = rw (c, p) t

apply-IsTallied :
    (split : String → List String) (e : Envelope) (entity : String) (ev : Event) (db : FeedDb)
    → IsTallied db.counters db.products
    → IsTallied (apply split e entity ev db).1.counters (apply split e entity ev db).1.products
unfolding apply
apply-IsTallied split e entity (fitted offer contents) db t =
    unless_stale-IsTallied _ db _ t refl refl
apply-IsTallied split e entity (vehicle slug contents) db t =
    unless_stale-IsTallied _ db _ t refl refl
apply-IsTallied split e entity (vehicle_tombstone key) db t = t
apply-IsTallied split e entity (crossref a b contents) db t =
    unless_stale-IsTallied _ db _ t refl refl
apply-IsTallied split e entity (crossref_tombstone key) db t = t
apply-IsTallied split e entity (click id product offer seller s at) db t = record {
  totals = recounted-totals product offer seller s at db.counters db.products t.totals;
  suspicious = count_click-suspicious product offer seller s at db.counters t.suspicious;
}

guarded-IsTallied :
    (split : String → List String) (e : Envelope) (entity : String) (ev : Event) (b : Bool)
    (db : FeedDb)
    → IsTallied db.counters db.products
    → let o = if b then none else some (recorded e (topic_of ev) entity db) in
      IsTallied
        (guarded split e entity ev o db).1.counters
        (guarded split e entity ev o db).1.products
guarded-IsTallied split e entity ev true db t = t
guarded-IsTallied split e entity ev false db t =
    apply-IsTallied split e entity ev (recorded e (topic_of ev) entity db) t

-- If every product shows the sum of the clicks of its counters, and no counter has more suspicious
-- clicks than clicks, then both hold after an event about fitments, vehicles, cross-references or
-- clicks.
pub handle-IsTallied :
    (split : String → List String) (e : Envelope) (ev : Event) (db : FeedDb)
    → IsTallied db.counters db.products
    → IsTallied (handle split e ev db).1.counters (handle split e ev db).1.products
unfolding handle
handle-IsTallied split e ev db t = elim (Option-cases (entity_of ev)) [
  | inl keyless ↦ rw (handle, keyless) t
  | inr (entity, named) ↦
      rw (handle, named)
        (guarded-IsTallied split e entity ev (is_processed (topic_of ev) e.event_id db.processed) db
          t)
]
