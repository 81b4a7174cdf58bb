-- ===== src/Ai/Service.antt =====
-- ai/service.py: an operation looks into the cache, asks the budget, calls the model and stores a valid answer.
use Prim.Native.String.{◌++◌ as str_append}
use yadakchi.Prelude.{ℕ, ◌+◌, String, Bool, true, false, ◌&&◌, Option, none, some, List, ◌∷◌}
use yadakchi.Prelude.Int.{ℤ}
use yadakchi.Ai.Cache.{Reply, Cache, get, set}
use yadakchi.Ai.Budget.{Floats, BudgetGuard, check, cost_of, record_cost}
use yadakchi.Ai.Json.{Json, null, flag, int, float, text, arr, obj, Fields, object_of}
use yadakchi.Ai.Schema.{Validated, valid, invalid, Coercion}

pub record CompletionRequest : Type 0 where
  pub op : String
  pub user : String
  pub payload : Json

pub record Completion : Type 0 where
  pub text : String
  pub model : String
  pub prompt_tokens : ℕ
  pub completion_tokens : ℕ
  pub seconds : ℕ

-- What is outside of the operations. `loads`, `dumps` and `canonical` are of the json
-- module, `repr` writes a value as Python does, `bare` is a text
-- without the fences of Markdown, `braced` the part of a text from its first to its last brace, and `cache_key`
-- hashes the operation and its input; the prompts are the filled templates. The other functions answer the
-- calls over the network and the looks at the clock, which are numbered.
pub record Outside : Type 0 where
  pub coercion : Coercion
  pub floats : Floats
  pub loads : String → Validated Json
  pub dumps : Json → String
  pub repr : Json → String
  pub canonical : Json → String
  pub cache_key : String → String → String
  pub bare : String → String
  pub braced : String → Option String
  pub extract_prompt : String → String → String
  pub judge_prompt : String → String → String → String
  pub redis_get : ℕ → String → Reply (Option String)
  pub redis_set : ℕ → Reply (Unit {0})
  pub redis_count : ℕ → Reply (Option ℕ)
  pub redis_add : ℕ → ℕ → Reply ℕ
  pub complete : ℕ → CompletionRequest → Option Completion
  pub today : ℕ → String

pub data Error : Type 0 where
  unknown_schema : Error
  budget_exhausted : Error
  extraction_invalid : String → Error
  judgement_invalid : String → Error
  backend_failed : Error
  key_error : Error
  unexpected : String → Error

pub data Result (A : Type 0) : Type 0 where
  ok : A → Result A
  err : Error → Result A

-- The state of the process; `calls` are the invocations of the model, the last first, and `clock` counts
-- what was asked of the outside.
pub record World : Type 0 where
  pub cache : Cache
  pub guard : BudgetGuard
  pub calls : List CompletionRequest
  pub clock : ℕ

abbrev pub M : Type 0 → Type 0
M A = World → Result A × World

abbrev pub bound : {A B : Type 0} → (A → M B) → Result A × World → Result B × World
bound f (ok a, w) = f a w
bound f (err e, w) = (err e, w)

infixl 5 ◌>>=◌ ◌>>◌
abbrev pub ◌>>=◌ : {A B : Type 0} → M A → (A → M B) → M B
◌>>=◌ m f w = bound f (m w)

abbrev pub ◌>>◌ : {B : Type 0} → M (Unit {0}) → M B → M B
m >> k = m >>= λ _. k

abbrev pub return : {A : Type 0} → A → M A
return a w = (ok a, w)

abbrev pub raise : {A : Type 0} → Error → M A
raise e w = (err e, w)

-- The `redis` of the cache, which the guard uses.
abbrev pub shared_redis : Cache → Bool
shared_redis c = c.redis && c.redis_ok

-- `float(value)`
abbrev pub real : Outside → Json → Option ℤ
real out (float n) = some n
real out null = none
real out (flag b) = out.coercion.to_float (flag b)
real out (int n) = out.coercion.to_float (int n)
real out (text s) = out.coercion.to_float (text s)
real out (arr xs) = none
real out (obj fs) = none

-- `type(value).__name__`
abbrev type_name : Json → String
type_name null = "NoneType"
type_name (flag b) = "bool"
type_name (int n) = "int"
type_name (float n) = "float"
type_name (text s) = "str"
type_name (arr xs) = "list"
type_name (obj fs) = "dict"

abbrev as_object : Validated Json → Validated Fields
as_object (valid (obj fs)) = valid fs
as_object (valid null) = invalid (str_append "expected a JSON object, got " (type_name null))
as_object (valid (flag b)) =
    invalid (str_append "expected a JSON object, got " (type_name (flag b)))
as_object (valid (int n)) = invalid (str_append "expected a JSON object, got " (type_name (int n)))
as_object (valid (float n)) =
    invalid (str_append "expected a JSON object, got " (type_name (float n)))
as_object (valid (text s)) =
    invalid (str_append "expected a JSON object, got " (type_name (text s)))
as_object (valid (arr xs)) =
    invalid (str_append "expected a JSON object, got " (type_name (arr xs)))
as_object (invalid message) = invalid message

abbrev loaded : Outside → String → Validated Json → Validated Json
loaded out candidate (valid j) = valid j
loaded out candidate (invalid _) = elim (out.braced candidate) [
  | none ↦ invalid "no JSON object found in the model's answer"
  | some part ↦ out.loads part
]

-- `parse_json_object`
unfoldable pub parse_json_object : Outside → String → Validated Fields
parse_json_object out answer =
    as_object (loaded out (out.bare answer) (out.loads (out.bare answer)))

-- `_decode`
abbrev pub decode : Outside → String → Option Fields
decode out raw = elim (out.loads raw) [ valid j ↦ object_of (some j) | invalid _ ↦ none ]

-- `self._cache.get`
unfoldable pub cache_get : Outside → String → M (Option Fields)
unfolding get
cache_get out key w =
    let (found, c) = get (decode out) (out.redis_get w.clock key) key w.cache in
    (ok found, record w { cache = c; clock = w.clock + 1 })

-- `self._cache.set`
unfoldable pub cache_set : Outside → String → Json → M (Unit {0})
unfolding set
cache_set out key value w = (
  ok tt,
  record w {
    cache = set (out.redis_set w.clock) key (out.dumps value) w.cache;
    clock = w.clock + 1;
  },
)

abbrev pub allowed : Bool → World → Result (Unit {0}) × World
allowed true w = (ok tt, w)
allowed false w = (err budget_exhausted, w)

-- `self._budget.check`
unfoldable pub budget_check : Outside → M (Unit {0})
unfolding check
budget_check out w =
    let (fine, g) =
      check out.floats (shared_redis w.cache) (out.redis_count w.clock) (out.today w.clock)
        (out.today (w.clock + 1)) w.guard in
    allowed fine (record w { guard = g; clock = w.clock + 2 })

abbrev pub billed : Outside → Completion → World → BudgetGuard
billed out c w =
    (record_cost out.floats (shared_redis w.cache) (out.redis_count w.clock)
      (out.redis_add w.clock
        (cost_of out.floats w.guard.settings c.prompt_tokens c.completion_tokens c.seconds))
      (out.today w.clock)
      (cost_of out.floats w.guard.settings c.prompt_tokens c.completion_tokens c.seconds) w.guard).1

abbrev pub completed :
    Outside → CompletionRequest → Option Completion → World → Result Completion × World
completed out request none w =
    (err backend_failed, record w { calls = request ∷ w.calls; clock = w.clock + 1 })
completed out request (some c) w =
    (ok c, record w { calls = request ∷ w.calls; guard = billed out c w; clock = w.clock + 1 })

-- `_call`
unfoldable pub call : Outside → CompletionRequest → M Completion
unfolding cost_of record_cost
call out request w = completed out request (out.complete w.clock request) w

-- `parse_json_object` and `validate` of an answer.
abbrev pub then_validate :
    {A : Type 0} → (Fields → Validated A) → Validated Fields → Validated (Fields × A)
then_validate validate (invalid message) = invalid message
then_validate validate (valid fs) = elim (validate fs) [
  | invalid message ↦ invalid message
  | valid a ↦ valid (fs, a)
]

unfoldable pub judge_of :
    {A : Type 0} → Outside → (Fields → Validated A) → Completion → Validated (Fields × A)
unfolding parse_json_object
judge_of out validate c = then_validate validate (parse_json_object out c.text)

abbrev pub repair : CompletionRequest → Completion → String → CompletionRequest
repair request c message = record request {
  user = str_append request.user (
      str_append
        "\n\nYour previous answer was rejected. Fix it and answer again with a single valid JSON object and nothing else.\nPrevious answer: "
        (str_append c.text (str_append "\nValidation error: " message)));
}
