-- ===== src/Ai/Schema/Shape.antt =====
-- What an answer that validates in ai/service.py looks like.
use yadakchi.Prelude.{
  ◌≡◌, subst, refl, ap, inl, inr, String, true, Option, none, some, List, [], ◌∷◌, map, arith, All,
  if◌then◌else◌, Bool-cases,
}
use yadakchi.Prelude.Int.{ℤ, ◌≤ℤ◌}
use yadakchi.Ai.Json.{Json, Fields, null, flag, int, float, text, arr, field_of, obj, or_empty}
use yadakchi.Ai.Schema.{
  valid, Coercion, field_names, is_empty, clamped, claimed, confidences, dump_fields, offer_fields,
  OfferFields, with_confidences, with_offer, with_fields, validate_extraction,
}

-- A confidence of a field: in range, and none at all for a field without a value.
abbrev pub IsConfidence : Fields → (String × ℤ) → Type 0
IsConfidence fs (name, n) =
    (ℤ.pos 0 ≤ℤ n) × (n ≤ℤ ℤ.pos 1000000) × (is_empty (field_of name fs) ≡ true → n ≡ ℤ.pos 0)

confidence_lem :
    (name : String) (fs : Fields) (n : ℤ)
    → IsConfidence fs (name, if is_empty (field_of name fs) then ℤ.pos 0 else clamped n)
confidence_lem name fs n = elim (Bool-cases (is_empty (field_of name fs))) [
  | inl blank ↦ rw blank (omega arith, omega arith, λ _. refl)
  | inr filled ↦ rw filled (ground arith, ground arith, λ h. absurd (cc h))
]

confidences_lem :
    (co : Coercion) (fs raw : Fields) (names : List String)
    → (map (λ (p : String × ℤ). p.0) (confidences co fs raw names) ≡ names)
      × All (IsConfidence fs) (confidences co fs raw names)
unfolding confidences
confidences_lem co fs raw [] = (refl, tt)
confidences_lem co fs raw (name ∷ names) =
    let (e, h) = confidences_lem co fs raw names in
    (ap (λ rest. name ∷ rest) e, (confidence_lem name fs (claimed co (field_of name raw)), h))

-- The shape of the response.
abbrev pub IsFilled : Fields × List (String × ℤ) → Type 0
IsFilled (fs, cs) =
    (map (λ (p : String × ℤ). p.0) cs ≡ field_names)
    × All (IsConfidence fs) cs
    × ((o : OfferFields) × (fs ≡ dump_fields o))

with_confidences-IsFilled :
    (co : Coercion) (raw : Option Fields) (o : OfferFields) {r : Fields × List (String × ℤ)}
    → with_confidences co raw o ≡ valid r
    → IsFilled r
with_confidences-IsFilled co none o h = absurd (cc h)
with_confidences-IsFilled co (some raw) o {r} h =
    let e : (dump_fields o, confidences co (dump_fields o) raw field_names) ≡ r = cc h in
    let (names, each) = confidences_lem co (dump_fields o) raw field_names in
    subst IsFilled e (names, each, (o, refl))

with_offer-IsFilled :
    (co : Coercion) (whole fs : Fields) (o : Option OfferFields) {r : Fields × List (String × ℤ)}
    → with_offer co whole fs o ≡ valid r
    → IsFilled r
with_offer-IsFilled co whole fs none h = absurd (cc h)
with_offer-IsFilled co whole fs (some o) h =
    with_confidences-IsFilled co (or_empty (field_of "confidences" whole)) o h

with_fields-IsFilled :
    (co : Coercion) (whole : Fields) (j : Option Json) {r : Fields × List (String × ℤ)}
    → with_fields co whole j ≡ valid r
    → IsFilled r
with_fields-IsFilled co whole none h = absurd (cc h)
with_fields-IsFilled co whole (some (obj fs)) h =
    with_offer-IsFilled co whole fs (offer_fields co fs) h
with_fields-IsFilled co whole (some null) h = absurd (cc h)
with_fields-IsFilled co whole (some (flag b)) h = absurd (cc h)
with_fields-IsFilled co whole (some (int n)) h = absurd (cc h)
with_fields-IsFilled co whole (some (float n)) h = absurd (cc h)
with_fields-IsFilled co whole (some (text s)) h = absurd (cc h)
with_fields-IsFilled co whole (some (arr xs)) h = absurd (cc h)

-- An answer that validates has the registered fields, the confidences have the names of these
-- fields in their order, each is between 0 and 1, and it is 0 for a field without a value.
pub validate_extraction-IsFilled :
    (co : Coercion) (answer : Fields) {r : Fields × List (String × ℤ)}
    → validate_extraction co answer ≡ valid r
    → IsFilled r
unfolding validate_extraction
validate_extraction-IsFilled co answer h =
    with_fields-IsFilled co answer (field_of "fields" answer) h
