-- ===== src/Ai/Json.antt =====
-- JSON values, and texts in Persian (ai/api_models.py). A number that is not an integer is in millionths.
use Prim.Native.String.{String, [], ◌∷◌}
use Prim.Native.Char.{code}
use mathlib.Core.Bool.{Bool, false, ◌&&◌, ◌||◌}
use mathlib.Core.Option.{Option, none, some}
use yadakchi.Prelude.{ℕ, leb, if◌then◌else◌, str_eq}
use yadakchi.Prelude.Int.{ℤ, eqb_ℤ}

mutual
  pub data Json : Type 0 where
    null : Json
    flag : Bool → Json
    int : ℤ → Json
    float : ℤ → Json
    text : String → Json
    arr : Items → Json
    obj : Fields → Json

  pub data Items : Type 0 where
    nil : Items
    cons : Json → Items → Items

  pub data Fields : Type 0 where
    end : Fields
    field : String → Json → Fields → Fields

-- `get(name)`
abbrev pub field_of : String → Fields → Option Json
field_of name end = none
field_of name (field k v rest) = if str_eq k name then some v else field_of name rest

-- `isinstance(value, dict)`
abbrev pub object_of : Option Json → Option Fields
object_of (some (obj fs)) = some fs
object_of _ = none

-- `data.get(…) or {}`: a value that Python takes for false is the empty object.
unfoldable pub or_empty : Option Json → Option Fields
or_empty none = some end
or_empty (some null) = some end
or_empty (some (flag b)) = if b then none else some end
or_empty (some (int n)) = if eqb_ℤ n (ℤ.pos 0) then some end else none
or_empty (some (float n)) = if eqb_ℤ n (ℤ.pos 0) then some end else none
or_empty (some (text s)) = if str_eq s "" then some end else none
or_empty (some (arr nil)) = some end
or_empty (some (arr (cons _ _))) = none
or_empty (some (obj fs)) = some fs

-- `contains_persian`
unfoldable pub contains_persian : String → Bool
contains_persian [] = false
contains_persian (c ∷ s) = in_range (code c) || contains_persian s
  where
    in_range : ℕ → Bool
    in_range n =
        (leb 0x0600 n && leb n 0x06FF)
        || (leb 0x0750 n && leb n 0x077F)
        || (leb 0xFB50 n && leb n 0xFDFF)
        || (leb 0xFE70 n && leb n 0xFEFF)
