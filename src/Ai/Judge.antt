-- ===== src/Ai/Judge.antt =====
-- The operation `judge` of ai/service.py.
use Prim.Native.String.{◌++◌ as str_append}
use yadakchi.Prelude.{
  String, Bool, true, false, not, ◌&&◌, if◌then◌else◌, Option, none, some, str_eq,
}
use yadakchi.Prelude.Int.{ℤ, eqb_ℤ, leb_ℤ}
use yadakchi.Ai.Json.{
  Json, null, flag, int, float, text, arr, obj, nil, cons, Fields, end, field, field_of,
}
use yadakchi.Ai.Schema.{Validated, valid, invalid, JudgeAnswer, judge_answer}
use yadakchi.Ai.Service.{
  CompletionRequest, Outside, Error, M, ◌>>=◌, ◌>>◌, return, raise, cache_get, cache_set,
  budget_check, real,
}
use yadakchi.Ai.Repair.{ParsedAnswer, ask_with_repair}

pub record JudgeRequest : Type 0 where
  pub a : String
  pub b : String
  pub context : Option Fields

pub record JudgeResponse : Type 0 where
  pub is_same : Bool
  pub confidence : ℤ
  pub reason_fa : String
  pub cached : Bool

abbrev object_or_null : Option Fields → Json
object_or_null none = null
object_or_null (some fs) = obj fs

abbrev pub judge_key : Outside → JudgeRequest → String
judge_key out r = out.cache_key "judge" (
    out.canonical (
      obj (
        field "a" (text r.a)
          (field "b" (text r.b) (field "context" (object_or_null r.context) end)))))

-- `bool(value)`
abbrev truth : Json → Bool
truth null = false
truth (flag b) = b
truth (int n) = not (eqb_ℤ n (ℤ.pos 0))
truth (float n) = not (eqb_ℤ n (ℤ.pos 0))
truth (text s) = not (str_eq s "")
truth (arr nil) = false
truth (arr (cons _ _)) = true
truth (obj end) = false
truth (obj (field _ _ _)) = true

-- `str(value)`
abbrev written_out : Outside → Json → String
written_out out (text s) = s
written_out out null = "None"
written_out out (flag true) = "True"
written_out out (flag false) = "False"
written_out out (int n) = out.repr (int n)
written_out out (float n) = out.repr (float n)
written_out out (arr xs) = out.repr (arr xs)
written_out out (obj fs) = out.repr (obj fs)

-- What pydantic makes of the parts of a `JudgeResponse`: the confidence is between 0 and 1, and the
-- reason is not empty.
abbrev pub judge_response_of : Bool → ℤ → String → Bool → M JudgeResponse
judge_response_of is_same confidence reason_fa cached =
    if (leb_ℤ (ℤ.pos 0) confidence && leb_ℤ confidence (ℤ.pos 1000000)) && not (str_eq reason_fa "")
    then return (record {
      is_same = is_same;
      confidence = confidence;
      reason_fa = reason_fa;
      cached = cached;
    })
    else raise (Error.unexpected "JudgeResponse")

abbrev pub judged_with : Outside → Json → Json → Option ℤ → M JudgeResponse
judged_with out s r none = raise (Error.unexpected "float")
judged_with out s r (some n) = judge_response_of (truth s) n (written_out out r) true

abbrev pub judged_before : Outside → Option Json → Option Json → Option Json → M JudgeResponse
judged_before out (some s) (some c) (some r) = judged_with out s r (real out c)
judged_before out (some s) none r = raise Error.key_error
judged_before out (some s) (some c) none = raise Error.key_error
judged_before out none c r = raise Error.key_error

abbrev pub judge_from_cache : Outside → Fields → M JudgeResponse
judge_from_cache out fs =
    judged_before out (field_of "is_same" fs) (field_of "confidence" fs) (field_of "reason_fa" fs)

abbrev context_block : Outside → Option Fields → String
context_block out none = ""
context_block out (some end) = ""
context_block out (some (field k v rest)) =
    str_append "CONTEXT: " (str_append (out.canonical (obj (field k v rest))) "\n")

abbrev pub judge_request : Outside → JudgeRequest → CompletionRequest
judge_request out r = record {
  op = "judge";
  user = out.judge_prompt r.a r.b (context_block out r.context);
  payload = obj (
      field "a" (text r.a) (field "b" (text r.b) (field "context" (object_or_null r.context) end)));
}

abbrev pub judgement_fields : JudgeAnswer → Fields
judgement_fields j =
    field "is_same" (flag j.is_same)
      (field "confidence" (float j.confidence) (field "reason_fa" (text j.reason_fa) end))

abbrev pub stored_judgement : JudgeAnswer → Json
stored_judgement j = obj (judgement_fields j)

abbrev pub store_judgement : Outside → String → Validated JudgeAnswer → M JudgeResponse
store_judgement out key (invalid message) = raise (Error.unexpected message)
store_judgement out key (valid j) = do
  cache_set out key (stored_judgement j)
  judge_response_of j.is_same j.confidence j.reason_fa false

abbrev pub ask_answer : Outside → JudgeRequest → M ParsedAnswer
ask_answer out r =
    ask_with_repair out (judge_answer out.coercion) Error.judgement_invalid (judge_request out r)

abbrev pub keep_answer : Outside → JudgeRequest → ParsedAnswer → M JudgeResponse
keep_answer out r answer =
    store_judgement out (judge_key out r) (judge_answer out.coercion answer.data_)

-- What `judge` does on a miss.
abbrev pub ask_judgement : Outside → JudgeRequest → M JudgeResponse
ask_judgement out r = budget_check out >> (ask_answer out r >>= keep_answer out r)

abbrev pub judge_after : Outside → JudgeRequest → Option Fields → M JudgeResponse
judge_after out r (some fs) = judge_from_cache out fs
judge_after out r none = ask_judgement out r

-- `judge`
unfoldable pub judge : Outside → JudgeRequest → M JudgeResponse
unfolding cache_get cache_set budget_check judge_answer ask_with_repair
judge out r = cache_get out (judge_key out r) >>= judge_after out r
