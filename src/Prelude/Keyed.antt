-- ===== src/Prelude/Keyed.antt =====
-- Tables whose rows have a text for their key.
use Prim.Native.String.{String}
use mathlib.Core.Path.{◌≡◌, refl, sym, ◌∙◌, ap}
use mathlib.Core.Logic.{inl, inr}
use mathlib.Core.Bool.{false}
use mathlib.Core.List.{List, [], ◌∷◌}
use mathlib.Core.Option.{Option, none, some}
use text.Mathlib.Text.{◌==◌ as str_eq}
use text.Mathlib.TextEquality.{eq_iff as str_eq_iff}
use text.Mathlib.TextPositions.{eq_refl as str_eq_refl}
use yadakchi.Prelude.Tests.{if◌then◌else◌, Bool-cases}

module _ {ℓ} {A : Type ℓ} (key : A → String) where
  -- `filter(key=k).first()`
  abbrev pub lookup : String → List A → Option A
  lookup k [] = none
  lookup k (a ∷ rows) = if str_eq (key a) k then some a else lookup k rows

  -- `save()` by the primary key: the row is replaced, or inserted.
  unfoldable pub put : A → List A → List A
  put a [] = a ∷ []
  put a (b ∷ rows) = let rest = put a rows in if str_eq (key b) (key a) then a ∷ rows else b ∷ rest

  -- `filter(key=k).delete()`
  unfoldable pub remove : String → List A → List A
  remove k [] = []
  remove k (a ∷ rows) = let rest = remove k rows in if str_eq (key a) k then rest else a ∷ rest

  pub lookup-put_self :
      (a : A) (k : String) (rows : List A) → key a ≡ k → lookup k (put a rows) ≡ some a
  unfolding put
  lookup-put_self a k [] e = rw (e, str_eq_refl k) refl
  lookup-put_self a k (b ∷ rows) e = elim (Bool-cases (str_eq (key b) (key a))) [
    | inl same ↦ rw (same, e, str_eq_refl k) refl
    | inr other ↦
        let ne : str_eq (key b) k ≡ false = rw (← e) other in
        rw (other, ne) (lookup-put_self a k rows e)
  ]

  pub lookup-put_ne :
      (a : A) (k : String) (rows : List A)
      → str_eq (key a) k ≡ false
      → lookup k (put a rows) ≡ lookup k rows
  unfolding put
  lookup-put_ne a k [] ne = rw ne refl
  lookup-put_ne a k (b ∷ rows) ne = elim (Bool-cases (str_eq (key b) (key a))) [
    | inl same ↦
        let e : key b ≡ key a = (str_eq_iff (key b) (key a)).0 same in rw (same, ne, e, ne) refl
    | inr other ↦
        rw other (ap (λ z. if str_eq (key b) k then some b else z) (lookup-put_ne a k rows ne))
  ]

  pub lookup-remove_self : (k : String) (rows : List A) → lookup k (remove k rows) ≡ none
  unfolding remove
  lookup-remove_self k [] = refl
  lookup-remove_self k (a ∷ rows) = elim (Bool-cases (str_eq (key a) k)) [
    | inl same ↦ rw same (lookup-remove_self k rows)
    | inr other ↦ rw (other, other) (lookup-remove_self k rows)
  ]

  pub lookup-remove_ne :
      (j k : String) (rows : List A) → str_eq k j ≡ false → lookup j (remove k rows) ≡ lookup j rows
  unfolding remove
  lookup-remove_ne j k [] ne = refl
  lookup-remove_ne j k (a ∷ rows) ne = elim (Bool-cases (str_eq (key a) k)) [
    | inl same ↦
        let e : key a ≡ k = (str_eq_iff (key a) k).0 same in
        rw (same, e, ne) (lookup-remove_ne j k rows ne)
    | inr other ↦
        rw other (ap (λ z. if str_eq (key a) j then some a else z) (lookup-remove_ne j k rows ne))
  ]

  -- A row that is found has the key.
  pub key-lookup : (k : String) (rows : List A) (a : A) → lookup k rows ≡ some a → key a ≡ k
  key-lookup k [] a e = absurd (cc e)
  key-lookup k (b ∷ rows) a e = elim (Bool-cases (str_eq (key b) k)) [
    | inl same ↦
        let found : b ≡ a = cc (rw same at e) in sym (ap key found) ∙ (str_eq_iff (key b) k).0 same
    | inr other ↦ key-lookup k rows a (rw other at e)
  ]
