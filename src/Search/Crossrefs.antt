-- ===== src/Search/Crossrefs.antt =====
-- search/indexer.py: cross-references, and the products that they index again.
pub mod Reindex
pub mod Shown
use yadakchi.Prelude.{
  ℕ, zero, suc, String, Bool, true, false, not, ◌&&◌, ◌||◌, Option, none, some, List, [], ◌∷◌, ◌++◌,
  ltb, ◌==◌, if◌then◌else◌, str_eq, str_ltb, has_text, sorted_set, select,
}
use yadakchi.Prelude.Keyed.{lookup, put}
use yadakchi.Search.Models.{
  CrossReferencePayload, CrossReferenceEvent, ReviewPayload, ReviewEvent, ProductState,
  ProductPartNumber, SynonymDecision, CrossReference, SearchDb, Env,
}
use yadakchi.Search.Graph.{connected_codes}
use yadakchi.Search.Documents.{synonyms_of}
use yadakchi.Search.Indexer.{Ending, index_product_state, is_applied_at}

abbrev pub crossref_key : CrossReference → String
crossref_key c = c.pair_key

-- How far the search engine stays in reach: for all calls, or for a number of them.
abbrev pub Reach : Type 0
Reach = Option ℕ

-- Products are indexed one after another, until the engine is out of reach: what is left of its reach, or
-- `none` for the exception.
unfoldable pub index_each : Env → Reach → List String → SearchDb → Option Reach × SearchDb
index_each env reach [] db = (some reach, db)
index_each env none (uid ∷ uids) db = index_each env none uids (index_product_state env uid db)
index_each env (some zero) (uid ∷ uids) db = (none, db)
index_each env (some (suc n)) (uid ∷ uids) db =
    index_each env (some n) uids (index_product_state env uid db)

abbrev pub uids_of : (ProductState → Bool) → List ProductState → List String
uids_of test [] = []
uids_of test (s ∷ ss) = let rest = uids_of test ss in if test s then s.product_uid ∷ rest else rest

abbrev pub has_code_in : List String → String → List ProductPartNumber → Bool
has_code_in codes uid [] = false
has_code_in codes uid (n ∷ ns) =
    (str_eq n.product uid && has_text n.code codes) || has_code_in codes uid ns

-- `_affected_product_states`
unfoldable pub affected_products : List String → SearchDb → List String
affected_products codes db =
    uids_of (λ s. s.is_published && has_code_in codes s.product_uid db.part_numbers) db.products

-- The two codes of an event, normalized and in order; `none` for a tombstone without its key.
abbrev sorted_pair : String → String → String × String
sorted_pair a b = if str_ltb b a then (b, a) else (a, b)

abbrev codes_of_key : Env → Option String → Option (String × String)
codes_of_key env none = none
codes_of_key env (some key) = elim (env.split_key key) [
  | none ↦ none
  | some (a, b) ↦ some (sorted_pair (env.normalize_part_number a) (env.normalize_part_number b))
]

unfoldable pub codes_of_event :
    Env → Option CrossReferencePayload → Option String → Option (String × String)
codes_of_event env (some p) key =
    some (sorted_pair (env.normalize_part_number p.code_a) (env.normalize_part_number p.code_b))
codes_of_event env none key = codes_of_key env key

abbrev blank_crossref : String → CrossReference
blank_crossref key = record {
  pair_key = key;
  code_a = "";
  code_b = "";
  confidence = 0;
  provenance = "";
  active = true;
  event_occurred_at = 0;
  index_applied_at = none;
  trace_id = "";
}

abbrev or_blank : String → Option CrossReference → CrossReference
or_blank key none = blank_crossref key
or_blank key (some c) = c

abbrev described : String → String → Option CrossReferencePayload → CrossReference → CrossReference
described a b none c = record c { active = false }
described a b (some p) c = record c {
  code_a = a;
  code_b = b;
  confidence = p.confidence;
  provenance = p.provenance;
  active = true;
}

-- The row that the event leaves.
abbrev pub crossref_row :
    CrossReferenceEvent → String → String → String → Option CrossReference → CrossReference
crossref_row e key a b current = record (described a b e.payload (or_blank key current)) {
  event_occurred_at = e.occurred_at;
  index_applied_at = none;
  trace_id = e.trace_id;
}

-- Whether an event is older than what a row holds, or was applied already.
abbrev pub is_done : ℕ → Option (ℕ × Option ℕ) → Bool
is_done at none = false
is_done at (some (event_at, applied_at)) =
    ltb at event_at || ((event_at == at) && is_applied_at at applied_at)

abbrev pub crossref_times : Option CrossReference → Option (ℕ × Option ℕ)
crossref_times none = none
crossref_times (some c) = some (c.event_occurred_at, c.index_applied_at)

abbrev pub mark_crossref : ℕ → String → SearchDb → SearchDb
mark_crossref at key db = elim (lookup crossref_key key db.crossrefs) [
  | none ↦ db
  | some c ↦ record db {
    crossrefs = put crossref_key (record c { index_applied_at = some at }) db.crossrefs;
  }
]

-- The end of a handler: its row is marked as applied if the products were indexed.
abbrev pub concluded : (SearchDb → SearchDb) → Option Reach × SearchDb → Ending × SearchDb
concluded mark (none, db) = (Ending.raised, db)
concluded mark (some reach, db) = (Ending.returned true, mark db)

abbrev pub nonempty : String → List String
nonempty code = if str_eq code "" then [] else code ∷ []

abbrev pub seeds_of : CrossReference → List String
seeds_of c = nonempty c.code_a ++ nonempty c.code_b

abbrev pub stored_crossref : CrossReference → SearchDb → SearchDb
stored_crossref c db = record db { crossrefs = put crossref_key c db.crossrefs }

abbrev pub reindexed : Env → Reach → CrossReference → SearchDb → Option Reach × SearchDb
reindexed env reach row db =
    index_each env reach (affected_products (connected_codes env db.crossrefs (seeds_of row)) db) db

abbrev pub apply_crossref : Env → Reach → ℕ → CrossReference → SearchDb → Ending × SearchDb
apply_crossref env reach at row db =
    concluded (mark_crossref at row.pair_key) (reindexed env reach row (stored_crossref row db))

-- `handle_cross_reference_event` on the row of a pair.
unfoldable pub update_crossref :
    Env → Reach → CrossReferenceEvent → String → String → String → SearchDb → Ending × SearchDb
unfolding index_each affected_products
update_crossref env reach e key a b db =
    let current = lookup crossref_key key db.crossrefs in
    if is_done e.occurred_at (crossref_times current)
    then (Ending.returned false, db)
    else apply_crossref env reach e.occurred_at (crossref_row e key a b current) db

unfoldable pub handle_cross_reference_event :
    Env → Reach → CrossReferenceEvent → Option String → SearchDb → Ending × SearchDb
unfolding update_crossref codes_of_event
handle_cross_reference_event env reach e key db = elim (codes_of_event env e.payload key) [
  | none ↦ (Ending.raised, db)
  | some (a, b) ↦ update_crossref env reach e (env.pair_key a b) a b db
]
