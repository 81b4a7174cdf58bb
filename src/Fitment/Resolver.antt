-- ===== src/Fitment/Resolver.antt =====
-- fitment/resolver.py: the vehicle that a hint names.
use yadakchi.Prelude.{
  ℕ, String, Bool, true, false, ◌&&◌, Option, none, some, List, [], ◌∷◌, ◌++◌, map, ltb, ◌==◌,
  if◌then◌else◌, str_eq, is_some, select, truthy,
}
use yadakchi.Prelude.{distinct, str_ltb}
use yadakchi.Fitment.Models.{Vehicle, Env}

-- `_candidate_aliases`
unfoldable pub candidate_aliases : Env → Vehicle → List String
candidate_aliases env v = distinct (v.display_name_fa ∷ env.spaced v.slug ∷ v.aliases)

-- An element of `matches`.
pub record Match : Type 0 where
  pub words : ℕ
  pub size : ℕ
  pub specificity : ℕ
  pub vehicle : Vehicle
  pub alias : String

abbrev match_of : Env → Vehicle → String → Match
match_of env v alias = record {
  words = env.words (env.normalize_persian alias);
  size = env.size (env.normalize_persian alias);
  specificity = if is_some (truthy v.trim) then 1 else 0;
  vehicle = v;
  alias = alias;
}

-- The matches, for vehicles in the order of their model (Meta.ordering).
unfoldable pub matches_of : Env → String → List Vehicle → List Match
unfolding candidate_aliases
matches_of env text [] = []
matches_of env text (v ∷ vs) =
    map (match_of env v) (
      select (λ alias. env.contains_normalized text (env.normalize_persian alias))
        (candidate_aliases env v))
    ++ matches_of env text vs

-- The order of the keys of `max`, strictly.
abbrev pub is_below : Match → Match → Bool
is_below a b =
    if ltb a.words b.words
    then true
    else if a.words == b.words
    then (if ltb a.size b.size then true else a.size == b.size && ltb a.specificity b.specificity)
    else false

-- `max`: of equal keys the first.
unfoldable pub best_match : List Match → Option Match
best_match [] = none
best_match (m ∷ ms) = elim (best_match ms) [
  | none ↦ some m
  | some n ↦ some (if is_below m n then n else m)
]

abbrev slug_of_match : Option Match → Option String
slug_of_match none = none
slug_of_match (some m) = some m.vehicle.slug

-- `resolve_vehicle_match(text).vehicle_slug`, if there is a match.
unfoldable pub resolve_vehicle : Env → List Vehicle → String → Option String
unfolding matches_of best_match
resolve_vehicle env vehicles text =
    slug_of_match (best_match (matches_of env (env.normalize_persian text) vehicles))

abbrev insert_by_slug : Vehicle → List Vehicle → List Vehicle
insert_by_slug v [] = v ∷ []
insert_by_slug v (w ∷ ws) = if str_ltb w.slug v.slug then w ∷ insert_by_slug v ws else v ∷ w ∷ ws

abbrev order_by_slug : List Vehicle → List Vehicle
order_by_slug [] = []
order_by_slug (v ∷ vs) = insert_by_slug v (order_by_slug vs)

unfoldable pub child_trims : Vehicle → List Vehicle → List Vehicle
child_trims v vehicles =
    if is_some v.trim
    then []
    else order_by_slug (
        select (λ w. str_eq w.brand v.brand && (str_eq w.model_name v.model_name && is_some w.trim))
          vehicles)
