-- ===== src/Prelude/Text.antt =====
-- Sets of texts, as lists without repetition: in the order of code points, and in the order of arrival.
use Prim.Native.Nat.{Ordering}
use Prim.Native.String.{String, compare}
use mathlib.Core.Bool.{Bool, true, false}
use mathlib.Core.List.{List, [], ◌∷◌}
use mathlib.Core.Option.{Option, none, some}
use mathlib.Core.Path.{◌≡◌}
use native.Mathlib.Omega.{arith}
use text.Mathlib.Text.{◌==◌ as str_eq}
use text.Mathlib.TextEquality.{eq_iff as str_eq_iff}
use yadakchi.Prelude.Tests.{if◌then◌else◌}
use yadakchi.Prelude.Lists.{exists}

abbrev pub str_ltb : String → String → Bool
str_ltb a b = elim (compare a b) [ Ordering.lt ↦ true | _ ↦ false ]

abbrev insert_text : String → List String → List String
insert_text a [] = a ∷ []
insert_text a (b ∷ bs) =
    if str_ltb a b then a ∷ b ∷ bs else if str_eq a b then b ∷ bs else b ∷ insert_text a bs

-- `sorted(set(texts))`
abbrev pub sorted_set : List String → List String
sorted_set [] = []
sorted_set (a ∷ rest) = insert_text a (sorted_set rest)

abbrev pub has_text : String → List String → Bool
has_text a = exists (λ b. str_eq b a)

insert_text-has_text :
    (a b : String) (bs : List String)
    → has_text a (b ∷ bs) ≡ true
    → has_text a (insert_text b bs) ≡ true
insert_text-has_text a b [] h = h
insert_text-has_text a b (c ∷ cs) h =
    let rest : has_text a (b ∷ cs) ≡ true → has_text a (insert_text b cs) ≡ true =
      insert_text-has_text a b cs in
    ground (arith, str_eq_iff b c, str_eq_iff b a, str_eq_iff c a)

-- A sorted set has the members of the list that it is made from.
pub sorted_set-has_text :
    (a : String) (texts : List String)
    → has_text a texts ≡ true
    → has_text a (sorted_set texts) ≡ true
sorted_set-has_text a [] h = h
sorted_set-has_text a (b ∷ rest) h =
    let below : has_text a rest ≡ true → has_text a (sorted_set rest) ≡ true =
      sorted_set-has_text a rest in
    insert_text-has_text a b (sorted_set rest) (ground arith)

-- Each text once.
abbrev pub distinct : List String → List String
distinct [] = []
distinct (a ∷ rest) = if has_text a rest then distinct rest else a ∷ distinct rest

-- A text that Python takes for true.
abbrev pub truthy : Option String → Option String
truthy none = none
truthy (some a) = if str_eq a "" then none else some a
