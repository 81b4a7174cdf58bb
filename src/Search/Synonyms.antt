-- ===== src/Search/Synonyms.antt =====
-- search/indexer.py: the decisions of reviewers on synonyms, and the products that they index again.
pub mod Shown
use yadakchi.Prelude.{
  ℕ, zero, suc, String, Bool, true, false, not, ◌&&◌, ◌||◌, Option, none, some, List, [], ◌∷◌, ◌++◌,
  ltb, ◌==◌, if◌then◌else◌, str_eq, str_ltb, has_text, sorted_set, select,
}
use yadakchi.Prelude.Keyed.{lookup, put}
use yadakchi.Search.Models.{
  CrossReferencePayload, CrossReferenceEvent, ReviewPayload, ReviewEvent, ProductState,
  ProductPartNumber, SynonymDecision, CrossReference, SearchDb, Env,
}
use yadakchi.Search.Documents.{synonyms_of}
use yadakchi.Search.Indexer.{Ending, index_product_state, is_applied_at}
use yadakchi.Search.Crossrefs.{Reach, index_each, uids_of, nonempty, is_done, concluded}

abbrev pub synonym_key : SynonymDecision → String
synonym_key d = d.request_uid

-- One call of the search engine: what is left of its reach, if it was in reach.
abbrev pub one_call : Reach → Option Reach
one_call none = some none
one_call (some zero) = none
one_call (some (suc n)) = some (some n)

abbrev without : String → List (String × List String) → List (String × List String)
without part_type sets = select (λ (s : String × List String). not (str_eq s.0 part_type)) sets

-- `upsert_synonym` or `delete_synonym`
abbrev pub put_synonyms : String → List String → SearchDb → SearchDb
put_synonyms part_type [] db = record db { synonym_sets = without part_type db.synonym_sets }
put_synonyms part_type (t ∷ ts) db = record db {
  synonym_sets = (part_type, t ∷ ts) ∷ without part_type db.synonym_sets;
}

abbrev pub is_of_type : String → ProductState → Bool
is_of_type part_type s = s.is_published && has_text part_type (texts s.part_type)
  where
    texts : Option String → List String
    texts none = []
    texts (some t) = t ∷ []

abbrev pub then_each :
    Env → (SearchDb → List String) → Option Reach × SearchDb → Option Reach × SearchDb
then_each env uids (none, db) = (none, db)
then_each env uids (some reach, db) = index_each env reach (uids db) db

-- The set of synonyms of one part type, and its products.
unfoldable pub reindex_part_type : Env → Reach → String → SearchDb → Option Reach × SearchDb
unfolding index_each
reindex_part_type env reach part_type db = elim (one_call reach) [
  | none ↦ (none, db)
  | some left ↦
      then_each env (λ d. uids_of (is_of_type part_type) d.products)
        (some left, put_synonyms part_type (synonyms_of env part_type db.synonyms) db)
]

-- `_reindex_part_types` for sorted part types.
unfoldable pub reindex_part_types :
    Env → Option Reach × SearchDb → List String → Option Reach × SearchDb
unfolding reindex_part_type
reindex_part_types env r [] = r
reindex_part_types env (none, db) (t ∷ ts) = (none, db)
reindex_part_types env (some reach, db) (t ∷ ts) =
    reindex_part_types env (reindex_part_type env reach t db) ts

-- The row that a decision leaves; `none` if its subject is not as required.
abbrev blank_decision : String → SynonymDecision
blank_decision uid = record {
  request_uid = uid;
  token = "";
  part_type = "";
  decision = "";
  active = true;
  decided_at = none;
  event_occurred_at = 0;
  index_applied_at = none;
  trace_id = "";
}

abbrev pub or_new : String → Option SynonymDecision → SynonymDecision
or_new uid none = blank_decision uid
or_new uid (some d) = d

abbrev with_subject :
    Env → ReviewPayload → Option String → Option String → SynonymDecision → Option SynonymDecision
with_subject env p (some token) (some part_type) d = some (record d {
  token = env.normalize_text token;
  part_type = part_type;
  decision = p.decision;
  decided_at = some p.decided_at;
  active = true;
})
with_subject env p (some token) none d = none
with_subject env p none part_type d = none

abbrev pub decided : Env → Option ReviewPayload → SynonymDecision → Option SynonymDecision
decided env none d = some (record d { active = false })
decided env (some p) d = with_subject env p p.token p.part_type d

abbrev pub stamped : ReviewEvent → SynonymDecision → SynonymDecision
stamped e d = record d {
  event_occurred_at = e.occurred_at;
  index_applied_at = none;
  trace_id = e.trace_id;
}

abbrev pub synonym_times : Option SynonymDecision → Option (ℕ × Option ℕ)
synonym_times none = none
synonym_times (some d) = some (d.event_occurred_at, d.index_applied_at)

abbrev pub old_type : Option SynonymDecision → String
old_type none = ""
old_type (some d) = d.part_type

abbrev pub mark_synonym : ℕ → String → SearchDb → SearchDb
mark_synonym at uid db = elim (lookup synonym_key uid db.synonyms) [
  | none ↦ db
  | some d ↦ record db {
    synonyms = put synonym_key (record d { index_applied_at = some at }) db.synonyms;
  }
]

abbrev pub stored_decision : SynonymDecision → SearchDb → SearchDb
stored_decision d db = record db { synonyms = put synonym_key d db.synonyms }

abbrev pub retyped : Env → Reach → String → SynonymDecision → SearchDb → Option Reach × SearchDb
retyped env reach old d db =
    reindex_part_types env (some reach, db) (sorted_set (nonempty old ++ nonempty d.part_type))

-- The second half of `handle_review_event`, once the row is known.
abbrev pub apply_decision :
    Env
    → Reach
    → ReviewEvent
    → String
    → String
    → Option SynonymDecision
    → SearchDb
    → Ending × SearchDb
apply_decision env reach e uid old none db = (Ending.raised, db)
apply_decision env reach e uid old (some d) db =
    concluded (mark_synonym e.occurred_at uid)
      (retyped env reach old d (stored_decision (stamped e d) db))

unfoldable pub update_synonym : Env → Reach → ReviewEvent → String → SearchDb → Ending × SearchDb
unfolding reindex_part_types
update_synonym env reach e uid db =
    let current = lookup synonym_key uid db.synonyms in
    if is_done e.occurred_at (synonym_times current)
    then (Ending.returned false, db)
    else apply_decision env reach e uid (old_type current)
        (decided env e.payload (or_new uid current)) db

abbrev pub request_of : Option ReviewPayload → Option String → Option String
request_of none key = key
request_of (some p) key = some p.request_uid

abbrev pub is_synonym : Option ReviewPayload → Bool
is_synonym none = true
is_synonym (some p) = str_eq p.kind "synonym_candidate"

unfoldable pub handle_review_event :
    Env → Reach → ReviewEvent → Option String → SearchDb → Ending × SearchDb
unfolding update_synonym
handle_review_event env reach e key db =
    if not (is_synonym e.payload)
    then (Ending.returned false, db)
    else elim (request_of e.payload key) [
      | none ↦ (Ending.raised, db)
      | some uid ↦ update_synonym env reach e uid db
    ]
