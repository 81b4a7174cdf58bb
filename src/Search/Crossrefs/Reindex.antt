-- ===== src/Search/Crossrefs/Reindex.antt =====
-- The products that the events of search/indexer.py about cross-references index again.
use yadakchi.Prelude.{
  ◌≡◌, refl, sym, ap, subst, ◌∙◌, ◌⊎◌, inl, inr, zero, suc, String, Bool, true, false, ◌||◌, Option,
  none, some, List, [], ◌∷◌, arith, str_eq, str_eq_iff, has_text, sorted_set, Bool-cases,
  Option-cases,
}
use yadakchi.Prelude.Keyed.{lookup, lookup-put_self, key-lookup}
use yadakchi.Search.Models.{
  ProductPayload, ProductState, SynonymDecision, CrossReference, Document, SearchDb, Env,
}
use yadakchi.Search.Graph.{connected_codes}
use yadakchi.Search.Documents.{base_codes, synonyms_of, or_empty, document_for}
use yadakchi.Search.Indexer.{
  Ending, product_key, document_key, index_state, index_product_state, refreshed, shown,
}
use yadakchi.Search.Indexer.Mirror.{index_state_others}
use yadakchi.Search.Crossrefs.{Reach, index_each, uids_of, concluded}

-- A published row with its part type and payload.
pub record IsHeld (uid : String) (o : Option String) (p : ProductPayload) (db : SearchDb)
    : Type 0 where
  pub row : ProductState
  pub found : lookup product_key uid db.products ≡ some row
  pub flag : row.is_published ≡ true
  pub typed : row.part_type ≡ o
  pub payload : row.payload ≡ some p

-- A row that is marked as applied, and a document with the codes and synonyms of the given rows.
pub record IsShown (env : Env) (links : List CrossReference) (decisions : List SynonymDecision)
    (uid : String) (p : ProductPayload) (db : SearchDb) : Type 0 where
  pub row : ProductState
  pub found : lookup product_key uid db.products ≡ some row
  pub marked : row.index_applied_at ≡ some row.event_occurred_at
  pub document : Document
  pub indexed : lookup document_key uid db.index ≡ some document
  pub payload : document.payload_json ≡ p
  pub codes : document.part_numbers ≡ sorted_set (connected_codes env links (base_codes env p))
  pub synonyms : document.part_type_synonyms ≡ synonyms_of env (or_empty p.part_type) decisions

index_state-crossrefs :
    (env : Env) (s : ProductState) (o : Option ProductPayload) (db : SearchDb)
    → ((index_state env s o db).crossrefs ≡ db.crossrefs)
      × ((index_state env s o db).synonyms ≡ db.synonyms)
unfolding index_state
index_state-crossrefs env s none db = (refl, refl)
index_state-crossrefs env s (some p) db = (refl, refl)

-- Indexing a product leaves the cross-references and the synonyms.
pub index_product_state-crossrefs :
    (env : Env) (k : String) (db : SearchDb)
    → ((index_product_state env k db).crossrefs ≡ db.crossrefs)
      × ((index_product_state env k db).synonyms ≡ db.synonyms)
unfolding index_product_state
index_product_state-crossrefs env k db = elim (Option-cases (lookup product_key k db.products)) [
  | inl absent ↦ rw (index_product_state, absent) (refl, refl)
  | inr (s, found) ↦
      rw (index_product_state, found)
        (index_state-crossrefs env s (shown s.is_published s.payload) db)
]

index_state-IsShown :
    (env : Env) (s : ProductState) (p : ProductPayload) (db : SearchDb)
    → s.is_published ≡ true
    → s.payload ≡ some p
    → IsHeld s.product_uid s.part_type p (index_state env s (some p) db)
      × IsShown env db.crossrefs db.synonyms s.product_uid p (index_state env s (some p) db)
unfolding index_state document_for
index_state-IsShown env s p db flag payload =
    let found = lookup-put_self product_key (refreshed env s p) s.product_uid db.products refl in
    (
      record {
        row = refreshed env s p;
        found = found;
        flag = flag;
        typed = refl;
        payload = payload;
      },
      record {
        row = refreshed env s p;
        found = found;
        marked = refl;
        document = document_for env db s p;
        indexed =
            lookup-put_self document_key (document_for env db s p) s.product_uid db.index refl;
        payload = refl;
        codes = refl;
        synonyms = refl;
      },
    )

index_product_state-IsShown :
    (env : Env) (uid : String) (o : Option String) (p : ProductPayload) (db : SearchDb)
    → IsHeld uid o p db
    → IsHeld uid o p (index_product_state env uid db)
      × IsShown env db.crossrefs db.synonyms uid p (index_product_state env uid db)
unfolding index_product_state
index_product_state-IsShown env uid o p db held =
    let named : held.row.product_uid ≡ uid =
      key-lookup product_key uid db.products held.row held.found in
    let at : shown held.row.is_published held.row.payload ≡ some p =
      ap (λ b. shown b held.row.payload) held.flag ∙ held.payload in
    let run : index_state env held.row (some p) db ≡ index_product_state env uid db =
      rw (index_product_state, held.found) (ap (λ o. index_state env held.row o db) (sym at)) in
    subst (λ d. IsHeld uid o p d × IsShown env db.crossrefs db.synonyms uid p d) run
      (subst
        (λ z.
          IsHeld z o p (index_state env held.row (some p) db)
          × IsShown env db.crossrefs db.synonyms z p (index_state env held.row (some p) db))
        named
        (subst
          (λ z.
            IsHeld held.row.product_uid z p (index_state env held.row (some p) db)
            × IsShown env db.crossrefs db.synonyms held.row.product_uid p
                (index_state env held.row (some p) db))
          held.typed (index_state-IsShown env held.row p db held.flag held.payload)))

-- Indexing some product, for another one that is held: nothing of it changes, or it was that one.
index_product_state-cases :
    (env : Env) (k uid : String) (o : Option String) (p : ProductPayload) (db : SearchDb)
    → IsHeld uid o p db
    → ((k ≡ uid)
        × IsHeld uid o p (index_product_state env k db)
        × IsShown env db.crossrefs db.synonyms uid p (index_product_state env k db))
      ⊎ ((str_eq k uid ≡ false)
          × (lookup product_key uid (index_product_state env k db).products
              ≡ lookup product_key uid db.products)
          × (lookup document_key uid (index_product_state env k db).index
              ≡ lookup document_key uid db.index))
unfolding index_product_state
index_product_state-cases env k uid o p db held = elim (Bool-cases (str_eq k uid)) [
  | inl same ↦
      let here : k ≡ uid = (str_eq_iff k uid).0 same in
      let both = index_product_state-IsShown env uid o p db held in
      inl (
        here,
        subst (λ z. IsHeld uid o p (index_product_state env z db)) (sym here) (both.0),
        subst (λ z. IsShown env db.crossrefs db.synonyms uid p (index_product_state env z db))
            (sym here) (both.1),
      )
  | inr other ↦ elim (Option-cases (lookup product_key k db.products)) [
    | inl absent ↦ inr (other, rw (index_product_state, absent), rw (index_product_state, absent))
    | inr (s, found) ↦
        let rest =
          index_state_others env s (shown s.is_published s.payload) db uid
            (rw (key-lookup product_key k db.products s found) other) in
        inr (
          other,
          rw (index_product_state, found) (rest.0),
          rw (index_product_state, found) (rest.1),
        )
  ]
]

-- What holds of a product while others are indexed: it is shown, or its turn is expected to come.
pub record IsWaiting (env : Env) (links : List CrossReference) (decisions : List SynonymDecision)
    (uid : String) (o : Option String) (p : ProductPayload) (expected : Bool) (db : SearchDb)
    : Type 0 where
  pub held : IsHeld uid o p db
  pub links_left : db.crossrefs ≡ links
  pub decisions_left : db.synonyms ≡ decisions
  pub shown_or_left : IsShown env links decisions uid p db ⊎ (expected ≡ true)

index_product_state-IsWaiting :
    (env : Env) (links : List CrossReference) (decisions : List SynonymDecision) (uid : String)
    (o : Option String) (p : ProductPayload) (k : String) (uids : List String) (later : Bool)
    (db : SearchDb)
    → IsWaiting env links decisions uid o p (has_text uid (k ∷ uids) || later) db
    → IsWaiting env links decisions uid o p
        (has_text uid uids || later)
        (index_product_state env k db)
index_product_state-IsWaiting env links decisions uid o p k uids later db w =
    let (same_links, same_decisions) = index_product_state-crossrefs env k db in
    elim (index_product_state-cases env k uid o p db w.held) [
      | inl (here, held, shown_now) ↦ record {
        held = held;
        links_left = same_links ∙ w.links_left;
        decisions_left = same_decisions ∙ w.decisions_left;
        shown_or_left = inl (
            subst (λ l. IsShown env l decisions uid p (index_product_state env k db)) w.links_left
              (subst (λ d. IsShown env db.crossrefs d uid p (index_product_state env k db))
                w.decisions_left shown_now));
      }
      | inr (other, rows, documents) ↦ record {
        held = record {
          row = w.held.row;
          found = rows ∙ w.held.found;
          flag = w.held.flag;
          typed = w.held.typed;
          payload = w.held.payload;
        };
        links_left = same_links ∙ w.links_left;
        decisions_left = same_decisions ∙ w.decisions_left;
        shown_or_left = elim w.shown_or_left [
          | inl s ↦ inl (record {
            row = s.row;
            found = rows ∙ s.found;
            marked = s.marked;
            document = s.document;
            indexed = documents ∙ s.indexed;
            payload = s.payload;
            codes = s.codes;
            synonyms = s.synonyms;
          })
          | inr left ↦ inr (rw other at left)
        ];
      }
    ]

-- What `index_each` leaves of a product that waits, if it does not raise: it is shown.
pub index_each-IsWaiting :
    (env : Env) (links : List CrossReference) (decisions : List SynonymDecision) (uid : String)
    (o : Option String) (p : ProductPayload) (reach left : Reach) (uids : List String)
    (later : Bool) (db : SearchDb)
    → IsWaiting env links decisions uid o p (has_text uid uids || later) db
    → (index_each env reach uids db).0 ≡ some left
    → IsWaiting env links decisions uid o p later (index_each env reach uids db).1
unfolding index_each
index_each-IsWaiting env links decisions uid o p reach left [] later db w done = w
index_each-IsWaiting env links decisions uid o p none left (k ∷ uids) later db w done =
    index_each-IsWaiting env links decisions uid o p none left uids later
      (index_product_state env k db)
      (index_product_state-IsWaiting env links decisions uid o p k uids later db w) done
index_each-IsWaiting env links decisions uid o p (some zero) left (k ∷ uids) later db w done =
    absurd (cc done)
index_each-IsWaiting env links decisions uid o p (some (suc n)) left (k ∷ uids) later db w done =
    index_each-IsWaiting env links decisions uid o p (some n) left uids later
      (index_product_state env k db)
      (index_product_state-IsWaiting env links decisions uid o p k uids later db w) done

pub IsWaiting-IsShown :
    (env : Env) (links : List CrossReference) (decisions : List SynonymDecision) (uid : String)
    (o : Option String) (p : ProductPayload) (db : SearchDb)
    → IsWaiting env links decisions uid o p false db
    → IsShown env links decisions uid p db
IsWaiting-IsShown env links decisions uid o p db w = elim w.shown_or_left [
  | inl s ↦ s
  | inr nowhere ↦ absurd (cc nowhere)
]

-- A row that passes the test is among the products that it selects.
pub uids_of-has_text :
    (test : ProductState → Bool) (uid : String) (rows : List ProductState) (s : ProductState)
    → lookup product_key uid rows ≡ some s
    → test s ≡ true
    → has_text uid (uids_of test rows) ≡ true
uids_of-has_text test uid [] s found passes = absurd (cc found)
uids_of-has_text test uid (x ∷ rows) s found passes = elim (Bool-cases (str_eq x.product_uid uid)) [
  | inl same ↦ let it : x ≡ s = ground (arith, found, same) in rw (it, passes, ← it, same)
  | inr other ↦
      let below : has_text uid (uids_of test rows) ≡ true =
        uids_of-has_text test uid rows s (rw other at found) passes in
      elim (Bool-cases (test x)) [
        | inl passed ↦ rw (passed, other, below)
        | inr failed ↦ rw (failed, below)
      ]
]

-- A selected product waits at the start.
pub start-IsWaiting :
    (env : Env) (test : ProductState → Bool) (uid : String) (s : ProductState) (p : ProductPayload)
    (later : Bool) (db : SearchDb)
    → lookup product_key uid db.products ≡ some s
    → s.is_published ≡ true
    → s.payload ≡ some p
    → test s ≡ true
    → IsWaiting env db.crossrefs db.synonyms uid s.part_type p
        (has_text uid (uids_of test db.products) || later)
        db
start-IsWaiting env test uid s p later db found flag payload passes = record {
  held = record { row = s; found = found; flag = flag; typed = refl; payload = payload };
  links_left = refl;
  decisions_left = refl;
  shown_or_left = inr (rw (uids_of-has_text test uid db.products s found passes));
}

-- A handler that does not raise has indexed all its products.
pub concluded-returned :
    (mark : SearchDb → SearchDb) (r : Option Reach × SearchDb) (b : Bool) (db' : SearchDb)
    → concluded mark r ≡ (Ending.returned b, db')
    → (left : Reach) × (r.0 ≡ some left) × (mark r.1 ≡ db')
concluded-returned mark (none, db) b db' h = absurd (cc (ap (λ (e : Ending × SearchDb). e.0) h))
concluded-returned mark (some left, db) b db' h =
    (left, refl, ap (λ (e : Ending × SearchDb). e.1) h)
