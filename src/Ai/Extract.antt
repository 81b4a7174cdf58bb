-- ===== src/Ai/Extract.antt =====
-- The operation `extract` of ai/service.py.
use Prim.Native.String.{◌++◌ as str_append}
use yadakchi.Prelude.{
  String, Bool, true, false, Option, none, some, List, [], ◌∷◌, if◌then◌else◌, str_eq,
}
use yadakchi.Prelude.Int.{ℤ}
use yadakchi.Ai.Json.{Json, null, float, text, obj, Fields, end, field, field_of, object_of}
use yadakchi.Ai.Schema.{Validated, valid, invalid, validate_extraction, text_of}
use yadakchi.Ai.Service.{
  CompletionRequest, Outside, Error, M, ◌>>=◌, ◌>>◌, return, raise, cache_get, cache_set,
  budget_check, real,
}
use yadakchi.Ai.Repair.{ParsedAnswer, ask_with_repair}

pub record ExtractRequest : Type 0 where
  pub text : String
  pub schema_name : String
  pub hint : Option String

pub record ExtractResponse : Type 0 where
  pub fields : Json
  pub confidences : Json
  pub model : Json
  pub cached : Bool

abbrev text_or_null : Option String → Json
text_or_null none = null
text_or_null (some s) = text s

abbrev hint_block : Option String → String
hint_block none = ""
hint_block (some h) = if str_eq h "" then "" else str_append "CONTEXT: " (str_append h "\n")

abbrev pub extract_key : Outside → ExtractRequest → String
extract_key out r = out.cache_key "extract" (
    out.canonical (
      obj (
        field "schema" (text "offer_fields")
          (field "text" (text r.text) (field "hint" (text_or_null r.hint) end)))))

abbrev pub floats : List (String × ℤ) → Fields
floats [] = end
floats ((name, n) ∷ rest) = field name (float n) (floats rest)

-- `dict[str, float]`
abbrev pub as_floats : Outside → Fields → Option Fields
as_floats out end = some end
as_floats out (field name v rest) = elim (real out v) [
  | none ↦ none
  | some n ↦ elim (as_floats out rest) [
    | none ↦ none
    | some checked ↦ some (field name (float n) checked)
  ]
]

-- What pydantic makes of the parts of a cached `ExtractResponse`.
abbrev pub extract_response_of :
    Option Fields → Option Fields → Option String → Option ExtractResponse
extract_response_of (some f) (some c) (some m) =
    some (record { fields = obj f; confidences = obj c; model = text m; cached = true })
extract_response_of (some f) (some c) none = none
extract_response_of (some f) none m = none
extract_response_of none c m = none

abbrev pub validated : Option ExtractResponse → M ExtractResponse
validated (some x) = return x
validated none = raise (Error.unexpected "ExtractResponse")

abbrev pub floats_of : Outside → Option Fields → Option Fields
floats_of out none = none
floats_of out (some c) = as_floats out c

abbrev pub extracted : Outside → Option Json → Option Json → Option Json → M ExtractResponse
extracted out (some f) (some c) (some m) =
    validated
      (extract_response_of (object_of (some f)) (floats_of out (object_of (some c))) (text_of m))
extracted out (some f) (some c) none = raise Error.key_error
extracted out (some f) none m = raise Error.key_error
extracted out none c m = raise Error.key_error

-- The answer from the cache.
abbrev pub from_cache : Outside → Fields → M ExtractResponse
from_cache out fs =
    extracted out (field_of "fields" fs) (field_of "confidences" fs) (field_of "model" fs)

abbrev pub extract_request : Outside → ExtractRequest → CompletionRequest
extract_request out r = record {
  op = "extract";
  user = out.extract_prompt r.text (hint_block r.hint);
  payload = obj (
      field "text" (text r.text)
        (field "hint" (text_or_null r.hint) (field "schema_name" (text "offer_fields") end)));
}

abbrev pub extraction_fields : Fields → List (String × ℤ) → String → Fields
extraction_fields fs cs model =
    field "fields" (obj fs) (field "confidences" (obj (floats cs)) (field "model" (text model) end))

abbrev pub stored_extraction : Fields → List (String × ℤ) → String → Json
stored_extraction fs cs model = obj (extraction_fields fs cs model)

abbrev pub store_extraction :
    Outside → String → String → Validated (Fields × List (String × ℤ)) → M ExtractResponse
store_extraction out key model (invalid message) = raise (Error.unexpected message)
store_extraction out key model (valid (fs, cs)) = do
  cache_set out key (stored_extraction fs cs model)
  return (record {
    fields = obj fs;
    confidences = obj (floats cs);
    model = text model;
    cached = false;
  })

abbrev pub ask_fields : Outside → ExtractRequest → M ParsedAnswer
ask_fields out r =
    ask_with_repair out (validate_extraction out.coercion) Error.extraction_invalid
      (extract_request out r)

abbrev pub keep_fields : Outside → ExtractRequest → ParsedAnswer → M ExtractResponse
keep_fields out r answer =
    store_extraction out (extract_key out r) answer.completion.model
      (validate_extraction out.coercion answer.data_)

-- What `extract` does on a miss.
abbrev pub ask_extraction : Outside → ExtractRequest → M ExtractResponse
ask_extraction out r = budget_check out >> (ask_fields out r >>= keep_fields out r)

abbrev pub extract_after : Outside → ExtractRequest → Option Fields → M ExtractResponse
extract_after out r (some fs) = from_cache out fs
extract_after out r none = ask_extraction out r

-- `extract`
unfoldable pub extract : Outside → ExtractRequest → M ExtractResponse
unfolding cache_get cache_set budget_check validate_extraction ask_with_repair
extract out r =
    if str_eq r.schema_name "offer_fields"
    then cache_get out (extract_key out r) >>= extract_after out r
    else raise Error.unknown_schema
