-- ===== src/Ai/Repair.antt =====
-- How ai/service.py asks a model for an answer that validates.
use yadakchi.Prelude.{String}
use yadakchi.Ai.Json.{Fields}
use yadakchi.Ai.Schema.{Validated, valid, invalid}
use yadakchi.Ai.Service.{
  CompletionRequest, Completion, Outside, Error, M, ◌>>=◌, return, raise, call, judge_of, repair,
}

pub record ParsedAnswer : Type 0 where
  pub data_ : Fields
  pub completion : Completion

module _ {A : Type 0} (out : Outside) (validate : Fields → Validated A)
    (refusal : String → Error) where
  abbrev pub settled : Completion → Validated (Fields × A) → M ParsedAnswer
  settled c (valid (fs, _)) = return (record { data_ = fs; completion = c })
  settled c (invalid message) = raise (refusal message)

  abbrev pub second_answer : Completion → M ParsedAnswer
  second_answer c = settled c (judge_of out validate c)

  abbrev pub repaired : CompletionRequest → Completion → Validated (Fields × A) → M ParsedAnswer
  repaired request c (valid (fs, _)) = return (record { data_ = fs; completion = c })
  repaired request c (invalid message) = call out (repair request c message) >>= second_answer

  abbrev pub first_answer : CompletionRequest → Completion → M ParsedAnswer
  first_answer request c = repaired request c (judge_of out validate c)

  -- `_ask_with_repair`
  unfoldable pub ask_with_repair : CompletionRequest → M ParsedAnswer
  unfolding call judge_of
  ask_with_repair request = call out request >>= first_answer request
