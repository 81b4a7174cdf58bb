-- ===== src/Search/Synonyms/Shown.antt =====
-- What the index shows after a decision of search/indexer.py on a synonym.
use yadakchi.Prelude.{
  ◌≡◌, ◌≢◌, refl, sym, ap, subst, ◌∙◌, ◌⊎◌, inl, inr, ℕ, String, Bool, true, false, ◌||◌, Option,
  none, some, List, [], ◌∷◌, ◌++◌, arith, str_eq, str_eq_iff, has_text, sorted_set,
  sorted_set-has_text, Bool-cases, Option-cases,
}
use yadakchi.Prelude.Keyed.{lookup, put}
use yadakchi.Search.Models.{
  ProductPayload, ReviewEvent, SynonymDecision, CrossReference, SearchDb, Env,
}
use yadakchi.Search.Documents.{synonyms_of}
use yadakchi.Search.Indexer.{Ending, product_key, document_key}
use yadakchi.Search.Crossrefs.{Reach, uids_of, nonempty, is_done}
use yadakchi.Search.Crossrefs.Reindex.{
  IsHeld, IsShown, IsWaiting, index_each-IsWaiting, IsWaiting-IsShown, uids_of-has_text,
  concluded-returned,
}
use yadakchi.Search.Synonyms.{
  synonym_key, is_of_type, stored_decision, old_type, decided, or_new, mark_synonym, one_call,
  put_synonyms, reindex_part_type, reindex_part_types, apply_decision, stamped, update_synonym,
  handle_review_event, synonym_times, request_of, is_synonym,
}

IsShown-same :
    (env : Env) (links : List CrossReference) (decisions : List SynonymDecision) (uid : String)
    (p : ProductPayload) (db db' : SearchDb)
    → db.products ≡ db'.products
    → db.index ≡ db'.index
    → IsShown env links decisions uid p db
    → IsShown env links decisions uid p db'
IsShown-same env links decisions uid p db db' rows documents s = record {
  row = s.row;
  found = ap (lookup product_key uid) (sym rows) ∙ s.found;
  marked = s.marked;
  document = s.document;
  indexed = ap (lookup document_key uid) (sym documents) ∙ s.indexed;
  payload = s.payload;
  codes = s.codes;
  synonyms = s.synonyms;
}

put_synonyms-products :
    (k : String) (tokens : List String) (db : SearchDb)
    → (put_synonyms k tokens db).products ≡ db.products
put_synonyms-products k [] db = refl
put_synonyms-products k (t ∷ ts) db = refl

moved-IsWaiting :
    (env : Env) (links : List CrossReference) (decisions : List SynonymDecision) (uid t : String)
    (p : ProductPayload) (expected : Bool) (db db' : SearchDb)
    → db.products ≡ db'.products
    → db.index ≡ db'.index
    → db.crossrefs ≡ db'.crossrefs
    → db.synonyms ≡ db'.synonyms
    → IsHeld uid (some t) p db
    → db.crossrefs ≡ links
    → db.synonyms ≡ decisions
    → IsShown env links decisions uid p db ⊎ (expected ≡ true)
    → IsWaiting env links decisions uid (some t) p expected db'
moved-IsWaiting env links decisions uid t p expected db db' rows documents pairs words held same
      same' shown_now =
    record {
      held = record {
        row = held.row;
        found = ap (lookup product_key uid) (sym rows) ∙ held.found;
        flag = held.flag;
        typed = held.typed;
        payload = held.payload;
      };
      links_left = sym pairs ∙ same;
      decisions_left = sym words ∙ same';
      shown_or_left = elim shown_now [
        | inl s ↦ inl (IsShown-same env links decisions uid p db db' rows documents s)
        | inr left ↦ inr left
      ];
    }

put_synonyms-IsWaiting :
    (env : Env) (links : List CrossReference) (decisions : List SynonymDecision) (uid t k : String)
    (p : ProductPayload) (expected : Bool) (tokens : List String) (db : SearchDb)
    → IsHeld uid (some t) p db
    → db.crossrefs ≡ links
    → db.synonyms ≡ decisions
    → IsShown env links decisions uid p db ⊎ (expected ≡ true)
    → IsWaiting env links decisions uid (some t) p expected (put_synonyms k tokens db)
put_synonyms-IsWaiting env links decisions uid t k p expected [] db =
    moved-IsWaiting env links decisions uid t p expected db _ refl refl refl refl
put_synonyms-IsWaiting env links decisions uid t k p expected (a ∷ rest) db =
    moved-IsWaiting env links decisions uid t p expected db _ refl refl refl refl

turn_expected :
    (uid t k : String) (p : ProductPayload) (ks : List String) (db : SearchDb)
    → IsHeld uid (some t) p db
    → has_text t (k ∷ ks) ≡ true
    → (has_text uid (uids_of (is_of_type k) db.products) || has_text t ks) ≡ true
turn_expected uid t k p ks db held left = elim (Bool-cases (str_eq k t)) [
  | inl same ↦
      let back : str_eq t k ≡ true = ground (arith, str_eq_iff k t, str_eq_iff t k) in
      let passes : is_of_type k held.row ≡ true = rw (held.flag, held.typed, back) refl in
      rw (uids_of-has_text (is_of_type k) uid db.products held.row held.found passes) refl
  | inr other ↦ let later : has_text t ks ≡ true = rw other at left in ground arith
]

stopped :
    (env : Env) (r : Option Reach × SearchDb) (ks : List String)
    → r.0 ≡ none
    → (reindex_part_types env r ks).0 ≡ none
unfolding reindex_part_types
stopped env (o, db) [] h = h
stopped env (none, db) (k ∷ ks) h = refl
stopped env (some reach, db) (k ∷ ks) h = absurd (cc h)

-- The products of a part type wait for its turn.
turn-IsWaiting :
    (env : Env) (links : List CrossReference) (decisions : List SynonymDecision) (uid t k : String)
    (p : ProductPayload) (ks tokens : List String) (db : SearchDb)
    → IsWaiting env links decisions uid (some t) p (has_text t (k ∷ ks)) db
    → IsWaiting env links decisions uid
        (some t)
        p
        (has_text uid (uids_of (is_of_type k) db.products) || has_text t ks)
        (put_synonyms k tokens db)
turn-IsWaiting env links decisions uid t k p ks tokens db w = elim w.shown_or_left [
  | inl s ↦
      put_synonyms-IsWaiting env links decisions uid t k p _ tokens db w.held w.links_left
        w.decisions_left (inl s)
  | inr left ↦
      put_synonyms-IsWaiting env links decisions uid t k p _ tokens db w.held w.links_left
        w.decisions_left (inr (turn_expected uid t k p ks db w.held left))
]

reindex_part_type-IsWaiting :
    (env : Env) (links : List CrossReference) (decisions : List SynonymDecision) (uid t k : String)
    (p : ProductPayload) (ks : List String) (reach left : Reach) (db : SearchDb)
    → IsWaiting env links decisions uid (some t) p (has_text t (k ∷ ks)) db
    → (reindex_part_type env reach k db).0 ≡ some left
    → IsWaiting env links decisions uid
        (some t)
        p
        (has_text t ks)
        (reindex_part_type env reach k db).1
unfolding reindex_part_type
reindex_part_type-IsWaiting env links decisions uid t k p ks reach left db w done =
    let tokens = synonyms_of env k db.synonyms in
    elim (Option-cases (one_call reach)) [
      | inl away ↦ absurd (cc (rw (reindex_part_type, away) at done))
      | inr (rest, here) ↦
          rw (reindex_part_type, here)
            (index_each-IsWaiting env links decisions uid (some t) p rest left
              (uids_of (is_of_type k) (put_synonyms k tokens db).products) (has_text t ks)
              (put_synonyms k tokens db)
              (rw (put_synonyms-products k tokens db)
                (turn-IsWaiting env links decisions uid t k p ks tokens db w))
              (rw (reindex_part_type, here) at done))
    ]

reindex_part_types-IsWaiting :
    (env : Env) (links : List CrossReference) (decisions : List SynonymDecision) (uid t : String)
    (p : ProductPayload) (types : List String) (r : Option Reach × SearchDb) (left : Reach)
    → IsWaiting env links decisions uid (some t) p (has_text t types) r.1
    → (reindex_part_types env r types).0 ≡ some left
    → IsWaiting env links decisions uid (some t) p false (reindex_part_types env r types).1
unfolding reindex_part_types
reindex_part_types-IsWaiting env links decisions uid t p [] r left w done = w
reindex_part_types-IsWaiting env links decisions uid t p (k ∷ ks) (none, db) left w done =
    absurd (cc done)
reindex_part_types-IsWaiting env links decisions uid t p (k ∷ ks) (some reach, db) left w done =
    elim (Option-cases (reindex_part_type env reach k db).0) [
      | inl away ↦ absurd (cc (rw (stopped env (reindex_part_type env reach k db) ks away) at done))
      | inr (rest, here) ↦
          reindex_part_types-IsWaiting env links decisions uid t p ks
            (reindex_part_type env reach k db) left
            (reindex_part_type-IsWaiting env links decisions uid t k p ks reach rest db w here) done
    ]

mark_synonym-IsShown :
    (env : Env) (links : List CrossReference) (decisions : List SynonymDecision)
    (uid request : String) (p : ProductPayload) (at : ℕ) (db : SearchDb)
    → IsShown env links decisions uid p db
    → IsShown env links decisions uid p (mark_synonym at request db)
mark_synonym-IsShown env links decisions uid request p at db s =
    elim (Option-cases (lookup synonym_key request db.synonyms)) [
      | inl absent ↦ rw (mark_synonym, absent) s
      | inr (d, found) ↦
          rw (mark_synonym, found) (IsShown-same env links decisions uid p db _ refl refl s)
    ]

touched :
    (t a b : String) → t ≢ "" → (t ≡ a) ⊎ (t ≡ b) → has_text t (nonempty a ++ nonempty b) ≡ true
touched t a b full either =
    ground (arith, str_eq_iff a "", str_eq_iff b "", str_eq_iff a t, str_eq_iff b t)

apply_decision-IsShown :
    (env : Env) (reach : Reach) (e : ReviewEvent) (request old t uid : String) (d : SynonymDecision)
    (p : ProductPayload) (db db' : SearchDb)
    → apply_decision env reach e request old (some d) db ≡ (Ending.returned true, db')
    → t ≢ ""
    → (t ≡ old) ⊎ (t ≡ d.part_type)
    → IsHeld uid (some t) p db
    → IsShown env db.crossrefs (put synonym_key (stamped e d) db.synonyms) uid p db'
apply_decision-IsShown env reach e request old t uid d p db db' done full either held =
    let stored = stored_decision (stamped e d) db in
    let types = sorted_set (nonempty old ++ nonempty d.part_type) in
    let (left, ended, marked) =
      concluded-returned (mark_synonym e.occurred_at request) _ true db' done in
    let start : IsWaiting env stored.crossrefs stored.synonyms uid (some t) p (has_text t types)
        stored =
      record {
        held = record {
          row = held.row;
          found = held.found;
          flag = held.flag;
          typed = held.typed;
          payload = held.payload;
        };
        links_left = refl;
        decisions_left = refl;
        shown_or_left = inr (sorted_set-has_text t _ (touched t old d.part_type full either));
      } in
    let end =
      reindex_part_types-IsWaiting env stored.crossrefs stored.synonyms uid t p types
        (some reach, stored) left start ended in
    subst (IsShown env stored.crossrefs stored.synonyms uid p) marked (
      mark_synonym-IsShown env stored.crossrefs stored.synonyms uid request p e.occurred_at _
        (IsWaiting-IsShown env stored.crossrefs stored.synonyms uid (some t) p _ end))

-- If a decision on a synonym was applied, then for each published product of the part type that
-- the request had before or has now, the index holds a document of the product's payload whose
-- synonyms are the approved ones of its part type under the decisions with the new one, and whose
-- part numbers are the sorted closure of its own codes, and the product's row is marked as
-- applied.
pub handle_review_event-IsShown :
    (env : Env) (reach : Reach) (e : ReviewEvent) (key : Option String) (request t uid : String)
    (d : SynonymDecision) (p : ProductPayload) (db db' : SearchDb)
    → is_synonym e.payload ≡ true
    → request_of e.payload key ≡ some request
    → decided env e.payload (or_new request (lookup synonym_key request db.synonyms)) ≡ some d
    → handle_review_event env reach e key db ≡ (Ending.returned true, db')
    → t ≢ ""
    → (t ≡ old_type (lookup synonym_key request db.synonyms)) ⊎ (t ≡ d.part_type)
    → IsHeld uid (some t) p db
    → IsShown env db.crossrefs (put synonym_key (stamped e d) db.synonyms) uid p db'
unfolding handle_review_event update_synonym
handle_review_event-IsShown env reach e key request t uid d p db db' it named made done full either
      held =
    let current = lookup synonym_key request db.synonyms in
    elim (Bool-cases (is_done e.occurred_at (synonym_times current))) [
      | inl old ↦ absurd (cc (rw (handle_review_event, it, named, update_synonym, old) at done))
      | inr new ↦
          apply_decision-IsShown env reach e request (old_type current) t uid d p db db'
            (rw (handle_review_event, it, named, update_synonym, new, made) at done) full either
            held
    ]
