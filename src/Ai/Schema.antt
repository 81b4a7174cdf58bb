-- ===== src/Ai/Schema.antt =====
-- What an answer of a model has to be: ai/schemas/offer_fields.py, and the validation in ai/service.py.
pub mod Shape
use yadakchi.Prelude.{
  ℕ, String, Bool, true, false, not, ◌&&◌, ◌||◌, Option, none, some, List, [], ◌∷◌, ◌++◌, map,
  if◌then◌else◌, str_eq, has_text,
}
use yadakchi.Prelude.Int.{ℤ, leb_ℤ, ltb_ℤ}
use yadakchi.Ai.Json.{
  Json, null, flag, int, float, text, arr, obj, Items, nil, cons, Fields, end, field, field_of,
  or_empty, contains_persian,
}

infixl 5 ◌>>=◌
abbrev pub ◌>>=◌ {ℓ κ} : {A : Type ℓ} {B : Type κ} → Option A → (A → Option B) → Option B
none >>= f = none
some a >>= f = f a

-- A value, or the message of the exception.
pub data Validated (A : Type 0) : Type 0 where
  valid : A → Validated A
  invalid : String → Validated A

-- What pydantic and `float` do: the conversions of its lax mode, the text without its blanks at the ends,
-- and the message about fields that do not validate.
pub record Coercion : Type 0 where
  pub to_int : Json → Option ℤ
  pub to_float : Json → Option ℤ
  pub to_bool : Json → Option Bool
  pub strip : String → String
  pub issue : Fields → String

pub data AuthenticityClaim : Type 0 where
  genuine : AuthenticityClaim
  oem : AuthenticityClaim
  aftermarket : AuthenticityClaim
  used : AuthenticityClaim
  refurbished : AuthenticityClaim

abbrev claim_text : AuthenticityClaim → String
claim_text genuine = "genuine"
claim_text oem = "oem"
claim_text aftermarket = "aftermarket"
claim_text used = "used"
claim_text refurbished = "refurbished"

abbrev claim_of : String → Option AuthenticityClaim
claim_of s =
    if str_eq s "genuine"
    then some genuine
    else if str_eq s "oem"
    then some oem
    else if str_eq s "aftermarket"
    then some aftermarket
    else if str_eq s "used"
    then some used
    else if str_eq s "refurbished"
    then some refurbished
    else none

pub record OfferFields : Type 0 where
  pub brand : Option String
  pub part_number : Option String
  pub part_type : Option String
  pub authenticity_claim : Option AuthenticityClaim
  pub pack_quantity : Option ℤ
  pub vehicle_hints : Option (List String)

-- `field_names`
abbrev pub field_names : List String
field_names =
    "brand" ∷ "part_number" ∷ "part_type" ∷ "authenticity_claim" ∷ "pack_quantity" ∷ "vehicle_hints"
    ∷ []

abbrev are_known : Fields → List String → Bool
are_known end names = true
are_known (field k v rest) names = has_text k names && are_known rest names

-- A field that may be absent or null; `read` reads any other value.
abbrev optional : {A : Type 0} → (Json → Option A) → Option Json → Option (Option A)
optional read none = some none
optional read (some null) = some none
optional read (some (flag b)) = read (flag b) >>= λ a. some (some a)
optional read (some (int n)) = read (int n) >>= λ a. some (some a)
optional read (some (float n)) = read (float n) >>= λ a. some (some a)
optional read (some (text s)) = read (text s) >>= λ a. some (some a)
optional read (some (arr xs)) = read (arr xs) >>= λ a. some (some a)
optional read (some (obj fs)) = read (obj fs) >>= λ a. some (some a)

abbrev pub text_of : Json → Option String
text_of (text s) = some s
text_of _ = none

abbrev texts_of : Items → Option (List String)
texts_of nil = some []
texts_of (cons j js) = text_of j >>= λ s. texts_of js >>= λ rest. some (s ∷ rest)

abbrev list_of : Json → Option (List String)
list_of (arr js) = texts_of js
list_of _ = none

abbrev quantity_of : Coercion → Json → Option ℤ
quantity_of co j = co.to_int j >>= λ n. if ltb_ℤ n (ℤ.pos 1) then none else some n

abbrev read_offer : Coercion → Fields → Option OfferFields
read_offer co fs = do
  brand ← optional text_of (field_of "brand" fs)
  part_number ← optional text_of (field_of "part_number" fs)
  part_type ← optional text_of (field_of "part_type" fs)
  claim ← optional (λ j. text_of j >>= claim_of) (field_of "authenticity_claim" fs)
  quantity ← optional (quantity_of co) (field_of "pack_quantity" fs)
  hints ← optional list_of (field_of "vehicle_hints" fs)
  some (record {
    brand = brand;
    part_number = part_number;
    part_type = part_type;
    authenticity_claim = claim;
    pack_quantity = quantity;
    vehicle_hints = hints;
  })

-- `OfferFields.model_validate`
unfoldable pub offer_fields : Coercion → Fields → Option OfferFields
offer_fields co fs = if are_known fs field_names then read_offer co fs else none

abbrev or_null : {A : Type 0} → (A → Json) → Option A → Json
or_null f none = null
or_null f (some a) = f a

abbrev items : List String → Items
items [] = nil
items (s ∷ rest) = cons (text s) (items rest)

-- `model_dump`
unfoldable pub dump_fields : OfferFields → Fields
dump_fields o = field "brand" (or_null text o.brand) (
    field "part_number" (or_null text o.part_number) (
      field "part_type" (or_null text o.part_type) (
        field "authenticity_claim" (or_null (λ c. text (claim_text c)) o.authenticity_claim) (
          field "pack_quantity" (or_null int o.pack_quantity)
            (field "vehicle_hints" (or_null (λ s. arr (items s)) o.vehicle_hints) end)))))

-- `value is None or value == [] or value == ""`
abbrev pub is_empty : Option Json → Bool
is_empty none = true
is_empty (some null) = true
is_empty (some (flag b)) = false
is_empty (some (int n)) = false
is_empty (some (float n)) = false
is_empty (some (text s)) = str_eq s ""
is_empty (some (arr nil)) = true
is_empty (some (arr (cons _ _))) = false
is_empty (some (obj fs)) = false

-- `max(0.0, min(1.0, claimed))`
abbrev pub clamped : ℤ → ℤ
clamped n =
    if ltb_ℤ n (ℤ.pos 0) then ℤ.pos 0 else if ltb_ℤ n (ℤ.pos 1000000) then n else ℤ.pos 1000000

abbrev claimed : Coercion → Option Json → ℤ
claimed co none = ℤ.pos 500000
claimed co (some j) = elim (co.to_float j) [ none ↦ ℤ.pos 500000 | some n ↦ n ]

-- The confidences, in the order of the names.
unfoldable pub confidences : Coercion → Fields → Fields → List String → List (String × ℤ)
confidences co fs raw [] = []
confidences co fs raw (name ∷ names) =
    (
      name,
      if is_empty (field_of name fs) then ℤ.pos 0 else clamped (claimed co (field_of name raw)),
    )
    ∷ confidences co fs raw names

abbrev pub with_confidences :
    Coercion → Option Fields → OfferFields → Validated (Fields × List (String × ℤ))
with_confidences co none o = invalid "'confidences' must be an object"
with_confidences co (some raw) o =
    valid (dump_fields o, confidences co (dump_fields o) raw field_names)

abbrev pub with_offer :
    Coercion → Fields → Fields → Option OfferFields → Validated (Fields × List (String × ℤ))
with_offer co whole fs none = invalid (co.issue fs)
with_offer co whole fs (some o) = with_confidences co (or_empty (field_of "confidences" whole)) o

abbrev pub with_fields : Coercion → Fields → Option Json → Validated (Fields × List (String × ℤ))
with_fields co whole none = invalid "the answer has no 'fields' object"
with_fields co whole (some (obj fs)) = with_offer co whole fs (offer_fields co fs)
with_fields co whole (some null) = invalid "'fields' must be an object"
with_fields co whole (some (flag b)) = invalid "'fields' must be an object"
with_fields co whole (some (int n)) = invalid "'fields' must be an object"
with_fields co whole (some (float n)) = invalid "'fields' must be an object"
with_fields co whole (some (text s)) = invalid "'fields' must be an object"
with_fields co whole (some (arr xs)) = invalid "'fields' must be an object"

-- `_validate_extraction` for the one schema that is registered.
unfoldable pub validate_extraction : Coercion → Fields → Validated (Fields × List (String × ℤ))
unfolding offer_fields dump_fields confidences or_empty
validate_extraction co data_ = with_fields co data_ (field_of "fields" data_)

pub record JudgeAnswer : Type 0 where
  pub is_same : Bool
  pub confidence : ℤ
  pub reason_fa : String

abbrev pub is_judgement : ℤ → String → Bool
is_judgement confidence reason =
    (leb_ℤ (ℤ.pos 0) confidence && leb_ℤ confidence (ℤ.pos 1000000))
    && (not (str_eq reason "") && contains_persian reason)

abbrev judged : Coercion → Fields → Option JudgeAnswer
judged co fs = do
  same ← field_of "is_same" fs >>= co.to_bool
  confidence ← field_of "confidence" fs >>= co.to_float
  reason ← field_of "reason_fa" fs >>= text_of
  if is_judgement confidence reason
      then some (record { is_same = same; confidence = confidence; reason_fa = co.strip reason })
      else none

abbrev judgement_names : List String
judgement_names = "is_same" ∷ "confidence" ∷ "reason_fa" ∷ []

-- `JudgeAnswer.model_validate`
unfoldable pub judge_answer : Coercion → Fields → Validated JudgeAnswer
unfolding contains_persian
judge_answer co fs = elim (if are_known fs judgement_names then judged co fs else none) [
  | none ↦ invalid (co.issue fs)
  | some a ↦ valid a
]
