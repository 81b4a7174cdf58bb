-- ===== src/Search/Indexer/Redelivery.antt =====
-- What a product event has done in search/indexer.py when its handler returns.
use yadakchi.Prelude.{◌≡◌, refl, sym, ap, String, Bool, true, false, Option, none, some}
use yadakchi.Prelude.Keyed.{lookup}
use yadakchi.Search.Models.{ProductPayload, ProductEvent, SearchDb, Env}
use yadakchi.Search.Indexer.{
  document_key, shown, published, index_product_state, uid_of, finish, handle_product_event, Ending,
}
use yadakchi.Search.Indexer.Mirror.{
  shown_by, IsMirrored, IsAccepted, accept-IsAccepted, accept_again, index-shown_by,
}

-- How the second transaction ended tells what the first one made.
finish_raised :
    (env : Env) (uid : String) (o : Option SearchDb) (db : SearchDb) {db' : SearchDb}
    → finish env false uid o db ≡ (Ending.raised, db')
    → o ≡ some db'
finish_raised env uid none db h = absurd (cc (ap (λ r. r.0) h))
finish_raised env uid (some d) db h = ap (λ r. some (r.1)) h

finish_returned :
    (env : Env) (uid : String) (o : Option SearchDb) (db : SearchDb) {db' : SearchDb}
    → finish env true uid o db ≡ (Ending.returned true, db')
    → (d : SearchDb) × (o ≡ some d) × (db' ≡ index_product_state env uid d)
finish_returned env uid none db h = absurd (cc (ap (λ r. r.0) h))
finish_returned env uid (some d) db h = (d, refl, sym (ap (λ r. r.1) h))

module _ (env : Env) (same : Option ProductPayload → Option ProductPayload → Bool)
    (sound : (p q : Option ProductPayload) → same p q ≡ true → p ≡ q) (e : ProductEvent)
    (key : Option String) (uid : String) (named : uid_of e.payload key ≡ some uid) (db : SearchDb)
    (mirrored : IsMirrored db) where
  -- What an event that was applied shows.
  pub handle_product_event-shown_by :
      {db' : SearchDb}
      → handle_product_event env same true e key db ≡ (Ending.returned true, db')
      → shown_by (lookup document_key uid db'.index) ≡ shown (published e.payload) e.payload
  unfolding handle_product_event
  handle_product_event-shown_by h =
      let (d, ok, eq) = finish_returned env uid _ db (rw (handle_product_event, named) at h) in
      rw eq
        (index-shown_by env uid e d (accept-IsAccepted env same sound uid e db mirrored _ refl ok))

  -- If the comparison of payloads finds only equal ones equal, and a product event with a product
  -- fails because the search engine is out of reach, in a database that the index mirrors, then
  -- the same event, delivered again when the engine is in reach, is applied, and the index then
  -- shows its payload if it is published and no document of the product if not.
  pub redelivery :
      {db' : SearchDb}
      → handle_product_event env same false e key db ≡ (Ending.raised, db')
      → ((handle_product_event env same true e key db').0 ≡ Ending.returned true)
        × (shown_by (lookup document_key uid (handle_product_event env same true e key db').1.index)
            ≡ shown (published e.payload) e.payload)
  unfolding handle_product_event
  redelivery {db'} h =
      let a : IsAccepted uid e db' =
        accept-IsAccepted env same sound uid e db mirrored _ refl
          (finish_raised env uid _ db (rw (handle_product_event, named) at h)) in
      let (d, ok) = accept_again env (same a.row.payload e.payload) uid e a.row db' a.pending in
      let b : IsAccepted uid e d =
        accept-IsAccepted env same sound uid e db' a.mirrored _ a.found ok in
      rw (handle_product_event, named, a.found, ok) (refl, index-shown_by env uid e d b)
