-- ===== src/Search/Graph.antt =====
-- The closure of part numbers under cross-references, in search/indexer.py.
pub mod Closure
use yadakchi.Prelude.{
  ℕ, zero, suc, ◌+◌, String, Bool, true, false, not, ◌&&◌, ◌||◌, List, [], ◌∷◌, ◌++◌, if◌then◌else◌,
  str_eq, length, select, has_text, distinct,
}
use yadakchi.Search.Models.{CrossReference, Env}

-- The edges of the graph: both codes of the active references, if neither is empty.
unfoldable pub edges_of : Env → List CrossReference → List (String × String)
edges_of env [] = []
edges_of env (r ∷ rs) =
    let rest = edges_of env rs in
    let a = env.normalize_part_number r.code_a in
    let b = env.normalize_part_number r.code_b in
    if r.active && (not (str_eq a "") && not (str_eq b "")) then (a, b) ∷ rest else rest

-- `graph.get(code, set())`
unfoldable pub adjacent : List (String × String) → String → List String
adjacent [] code = []
adjacent ((a, b) ∷ es) code =
    (if str_eq a code then b ∷ [] else [])
    ++ (if str_eq b code then a ∷ [] else [])
    ++ adjacent es code

-- The body of the inner loop: what is visited, and the queue.
unfoldable pub visit_all : List String → List String → List String → List String × List String
visit_all [] visited queue = (visited, queue)
visit_all (c ∷ cs) visited queue = elim (has_text c visited) [
  | true ↦ visit_all cs visited queue
  | false ↦ visit_all cs (c ∷ visited) (queue ++ c ∷ [])
]

-- `while queue`, on fuel.
unfoldable pub walk : ℕ → List (String × String) → List String → List String → List String
walk zero edges visited queue = visited
walk (suc fuel) edges visited [] = visited
walk (suc fuel) edges visited (code ∷ queue) =
    let (visited', queue') = visit_all (adjacent edges code) visited queue in
    walk fuel edges visited' queue'

abbrev pub endpoints : List (String × String) → List String
endpoints [] = []
endpoints ((a, b) ∷ es) = a ∷ b ∷ endpoints es

-- `_connected_codes`, on the edges of the graph. A step of the loop for each seed and each end of an
-- edge is enough.
unfoldable pub closure : List (String × String) → List String → List String
unfolding walk
closure edges seeds =
    let start = distinct seeds in
    walk (suc (length start + length (endpoints edges))) edges start start

unfoldable pub connected_codes : Env → List CrossReference → List String → List String
unfolding closure edges_of
connected_codes env references seeds = closure (edges_of env references) seeds
