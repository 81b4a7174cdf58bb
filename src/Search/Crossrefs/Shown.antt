-- ===== src/Search/Crossrefs/Shown.antt =====
-- What the index shows after an event of search/indexer.py about cross-references.
use yadakchi.Prelude.{String, List}
use yadakchi.Prelude.Keyed.{lookup, put}
use yadakchi.Search.Models.{CrossReferenceEvent, CrossReference, SearchDb, Env}
use yadakchi.Search.Crossrefs.{crossref_key, crossref_row}

-- The row of a pair after its event, and the cross-references with it.
abbrev pub new_row : Env → CrossReferenceEvent → String → String → SearchDb → CrossReference
new_row env e a b db =
    let key = env.pair_key a b in crossref_row e key a b (lookup crossref_key key db.crossrefs)

abbrev pub new_links : Env → CrossReferenceEvent → String → String → SearchDb → List CrossReference
new_links env e a b db = put crossref_key (new_row env e a b db) db.crossrefs
