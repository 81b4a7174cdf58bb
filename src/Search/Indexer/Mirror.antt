-- ===== src/Search/Indexer/Mirror.antt =====
-- The index of the search engine and the rows of search/indexer.py.
use yadakchi.Prelude.{
  ◌≡◌, refl, ap, ◌∙◌, inl, inr, ◌⊎◌, subst, String, Bool, true, false, Option, none, some, arith,
  str_eq, str_eq_iff, Bool-cases, Option-cases,
}
use yadakchi.Prelude.Keyed.{
  lookup, lookup-put_self, lookup-put_ne, lookup-remove_self, lookup-remove_ne, key-lookup,
}
use yadakchi.Search.Models.{ProductPayload, ProductEvent, ProductState, Document, SearchDb, Env}
use yadakchi.Search.Documents.{document_for}
use yadakchi.Search.Indexer.{
  product_key, document_key, shown, published, applied, refreshed, filled, blank, index_state,
  index_product_state, store, accept, uid_of, finish, stored_payload, handle_product_event,
  is_applied_at,
}

-- The payload of a document that was found.
abbrev pub shown_by : Option Document → Option ProductPayload
shown_by none = none
shown_by (some d) = some d.payload_json

-- A row's flag is that of its payload; a row that is applied shows in the index as it is.
abbrev pub Reflects : Option ProductState → Option Document → Type 0
Reflects none d = d ≡ none
Reflects (some s) d =
    (s.is_published ≡ published s.payload)
    × (s.index_applied_at ≡ some s.event_occurred_at → shown_by d ≡ shown s.is_published s.payload)

abbrev pub IsMirrored : SearchDb → Type 0
IsMirrored db =
    (uid : String)
    → Reflects (lookup product_key uid db.products) (lookup document_key uid db.index)

-- A found row, applied to the index.
index_state-Reflects :
    (env : Env) (s : ProductState) (p : Option ProductPayload) (db : SearchDb)
    → s.is_published ≡ published s.payload
    → p ≡ shown s.is_published s.payload
    → Reflects
        (lookup product_key s.product_uid (index_state env s p db).products)
        (lookup document_key s.product_uid (index_state env s p db).index)
unfolding index_state document_for
index_state-Reflects env s none db flag e =
    rw (lookup-put_self product_key (applied s) s.product_uid db.products refl)
      (flag, λ h. rw (lookup-remove_self document_key s.product_uid db.index) e)
index_state-Reflects env s (some p) db flag e =
    rw (lookup-put_self product_key (refreshed env s p) s.product_uid db.products refl) (
      rw (lookup-put_self document_key (document_for env db s p) s.product_uid db.index refl)
        (flag, λ h. e))

pub index_state_others :
    (env : Env) (s : ProductState) (p : Option ProductPayload) (db : SearchDb) (uid : String)
    → str_eq s.product_uid uid ≡ false
    → (lookup product_key uid (index_state env s p db).products
        ≡ lookup product_key uid db.products)
      × (lookup document_key uid (index_state env s p db).index ≡ lookup document_key uid db.index)
unfolding index_state document_for
index_state_others env s none db uid ne = (
  lookup-put_ne product_key _ uid db.products ne,
  lookup-remove_ne document_key uid s.product_uid db.index ne,
)
index_state_others env s (some p) db uid ne = (
  lookup-put_ne product_key _ uid db.products ne,
  lookup-put_ne document_key (document_for env db s p) uid db.index ne,
)

-- `index_product_state` on the row of one product.
pub index-IsMirrored :
    (env : Env) (uid : String) (db : SearchDb)
    → IsMirrored db
    → IsMirrored (index_product_state env uid db)
unfolding index_product_state
index-IsMirrored env uid db m k = elim (Option-cases (lookup product_key uid db.products)) [
  | inl absent ↦ rw (index_product_state, absent) (m k)
  | inr (s, found) ↦
      let named : s.product_uid ≡ uid = key-lookup product_key uid db.products s found in
      rw (index_product_state, found)
        (elim (Bool-cases (str_eq s.product_uid k)) [
          | inl same ↦
              let here : s.product_uid ≡ k = (str_eq_iff s.product_uid k).0 same in
              let old : Reflects (some s) (lookup document_key uid db.index) =
                rw found at (m uid) in
              rw (← here) (index_state-Reflects env s _ db old.0 refl)
          | inr other ↦
              let rest = index_state_others env s (shown s.is_published s.payload) db k other in
              rw (rest.0) (rw (rest.1) (m k))
        ])
]

-- The row of an event that was stored is not applied.
store-Reflects :
    (env : Env) (uid : String) (e : ProductEvent) (s : ProductState) (db : SearchDb)
    → s.product_uid ≡ uid
    → IsMirrored db
    → IsMirrored (store env uid e s db)
store-Reflects env uid e s db named m k = elim (Bool-cases (str_eq s.product_uid k)) [
  | inl same ↦
      let here : s.product_uid ≡ k = (str_eq_iff s.product_uid k).0 same in
      rw (lookup-put_self product_key (filled e s) k db.products here) (refl, λ h. absurd (cc h))
  | inr other ↦ rw (lookup-put_ne product_key (filled e s) k db.products other) (m k)
]

accept-some :
    (env : Env) (same : Bool) (uid : String) (e : ProductEvent) (s : ProductState) (db : SearchDb)
    → {db' : SearchDb} → accept env same uid e (some s) db ≡ some db'
    → ((db ≡ db')
        × (s.event_occurred_at ≡ e.occurred_at)
        × (same ≡ true)
        × (is_applied_at e.occurred_at s.index_applied_at ≡ false))
      ⊎ (store env uid e s db ≡ db')
unfolding accept
accept-some env same uid e s db h = ground arith

-- The row that the first transaction leaves: that of the event, not applied.
pub record IsPending (e : ProductEvent) (s : ProductState) : Type 0 where
  pub payload : s.payload ≡ e.payload
  pub flag : s.is_published ≡ published e.payload
  pub instant : s.event_occurred_at ≡ e.occurred_at
  pub open_ : is_applied_at e.occurred_at s.index_applied_at ≡ false

-- The first transaction keeps the mirror, and leaves the row of the event.
pub record IsAccepted (uid : String) (e : ProductEvent) (db : SearchDb) : Type 0 where
  pub mirrored : IsMirrored db
  pub row : ProductState
  pub found : lookup product_key uid db.products ≡ some row
  pub pending : IsPending e row

store-IsAccepted :
    (env : Env) (uid : String) (e : ProductEvent) (s : ProductState) (db : SearchDb)
    → s.product_uid ≡ uid
    → IsMirrored db
    → IsAccepted uid e (store env uid e s db)
store-IsAccepted env uid e s db named m = record {
  mirrored = store-Reflects env uid e s db named m;
  row = filled e s;
  found = lookup-put_self product_key (filled e s) uid db.products named;
  pending = record { payload = refl; flag = refl; instant = refl; open_ = refl };
}

pub accept-IsAccepted :
    (env : Env) (same : Option ProductPayload → Option ProductPayload → Bool)
    → ((p q : Option ProductPayload) → same p q ≡ true → p ≡ q)
    → (uid : String) (e : ProductEvent) (db : SearchDb) → IsMirrored db
    → (current : Option ProductState) → lookup product_key uid db.products ≡ current
    → {db' : SearchDb}
    → accept env (same (stored_payload current) e.payload) uid e current db ≡ some db'
    → IsAccepted uid e db'
unfolding accept
accept-IsAccepted env same sound uid e db m none absent h =
    subst (IsAccepted uid e) (cc h) (store-IsAccepted env uid e (blank uid e.occurred_at) db refl m)
accept-IsAccepted env same sound uid e db m (some s) found h =
    let named = key-lookup product_key uid db.products s found in
    elim (accept-some env (same s.payload e.payload) uid e s db h) [
      | inl (kept, at, equal, fresh) ↦
          let payload_eq = sound s.payload e.payload equal in
          let row : Reflects (some s) (lookup document_key uid db.index) = rw found at (m uid) in
          subst (IsAccepted uid e) kept (record {
            mirrored = m;
            row = s;
            found = found;
            pending = record {
              payload = payload_eq;
              flag = row.0 ∙ ap published payload_eq;
              instant = at;
              open_ = fresh;
            };
          })
      | inr stored ↦ subst (IsAccepted uid e) stored (store-IsAccepted env uid e s db named m)
    ]

-- What the second transaction makes of an accepted event, reachable or not.
finish-IsMirrored :
    (env : Env) (reachable : Bool) (uid : String) (o : Option SearchDb) (db : SearchDb)
    → IsMirrored db
    → ((db' : SearchDb) → o ≡ some db' → IsMirrored db')
    → IsMirrored (finish env reachable uid o db).1
finish-IsMirrored env reachable uid none db m h = m
finish-IsMirrored env true uid (some db') db m h = index-IsMirrored env uid db' (h db' refl)
finish-IsMirrored env false uid (some db') db m h = h db' refl

-- If the comparison of payloads finds only equal ones equal, and each row that is marked as
-- applied shows in the index as the payload that it holds, or not at all if it is not published,
-- and a product without a row has no document, then all of this holds after a product event as
-- well, whether it is applied, refused as old or without a product, or the search engine is out of
-- reach.
pub handle_product_event-IsMirrored :
    (env : Env) (same : Option ProductPayload → Option ProductPayload → Bool)
    → ((p q : Option ProductPayload) → same p q ≡ true → p ≡ q)
    → (reachable : Bool) (e : ProductEvent) (key : Option String) (db : SearchDb) → IsMirrored db
    → IsMirrored (handle_product_event env same reachable e key db).1
unfolding handle_product_event
handle_product_event-IsMirrored env same sound reachable e key db m =
    elim (Option-cases (uid_of e.payload key)) [
      | inl absent ↦ rw (handle_product_event, absent) m
      | inr (uid, named) ↦
          rw (handle_product_event, named)
            (finish-IsMirrored env reachable uid _ db m
              (λ db' h. (accept-IsAccepted env same sound uid e db m _ refl h).mirrored))
    ]

-- A row that waits for the index is taken up again by the same event.
pub accept_again :
    (env : Env) (same : Bool) (uid : String) (e : ProductEvent) (s : ProductState) (db : SearchDb)
    → IsPending e s
    → (db' : SearchDb) × (accept env same uid e (some s) db ≡ some db')
unfolding accept
accept_again env true uid e s db p = (db, ground (arith, p.instant, p.open_))
accept_again env false uid e s db p = (store env uid e s db, ground (arith, p.instant, p.open_))

index_state-shown_by :
    (env : Env) (s : ProductState) (p : Option ProductPayload) (db : SearchDb)
    → shown_by (lookup document_key s.product_uid (index_state env s p db).index) ≡ p
unfolding index_state document_for
index_state-shown_by env s none db = rw (lookup-remove_self document_key s.product_uid db.index)
index_state-shown_by env s (some p) db =
    rw (lookup-put_self document_key (document_for env db s p) s.product_uid db.index refl)

pub index-shown_by :
    (env : Env) (uid : String) (e : ProductEvent) (db : SearchDb)
    → IsAccepted uid e db
    → shown_by (lookup document_key uid (index_product_state env uid db).index)
      ≡ shown (published e.payload) e.payload
unfolding index_product_state
index-shown_by env uid e db a =
    let s = a.row in
    let named = key-lookup product_key uid db.products s a.found in
    rw (index_product_state, a.found)
      (rw (← a.pending.flag, ← a.pending.payload, ← named)
        (index_state-shown_by env s (shown s.is_published s.payload) db))
