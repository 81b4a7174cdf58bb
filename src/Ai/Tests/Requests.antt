-- ===== src/Ai/Tests/Requests.antt =====
-- A request for the fields of a title, and one for a judgement.
use yadakchi.Prelude.{
  ◌≡◌, refl, ◌≤◌, ◌+◌, ◌*◌, ltb, String, true, false, none, some, List, [], ◌∷◌, arith, length,
  if◌then◌else◌, str_eq,
}
use yadakchi.Prelude.Int.{pos}
use yadakchi.Prelude.Keyed.{lookup}
use yadakchi.Ai.Cache.{failed, Cache, Entry, entry_key, set, get}
use yadakchi.Ai.Cache.Evicted.{gives_way, lookup-set}
use yadakchi.Ai.Cache.Kept.{IsValid, set-get-IsValid}
use yadakchi.Ai.Budget.{Floats, Settings, one, BudgetGuard, check, used}
use yadakchi.Ai.Budget.Days.{IsRounding, spend, check-spend}
use yadakchi.Ai.Json.{Json, null, flag, float, text, obj, Fields, end, field}
use yadakchi.Ai.Schema.{valid, Coercion, validate_extraction}
use yadakchi.Ai.Schema.Shape.{IsFilled, validate_extraction-IsFilled}
use yadakchi.Ai.Service.{Outside, World, ok, err, Error, cache_get}
use yadakchi.Ai.Judge.{JudgeRequest, JudgeResponse, judge}
use yadakchi.Ai.Extract.{ExtractRequest, ExtractResponse, extract, extract_key}
use yadakchi.Ai.Spending.{extract-judge-calls, IsFree, extract_spent}
use yadakchi.Ai.Answers.{extraction_of, extract_again}
use yadakchi.Ai.Judgements.{judgement_of, judge_again}

abbrev entries : List Entry
entries = record { key = "a"; raw = "1" } ∷ record { key = "b"; raw = "2" } ∷ []

-- A layer with two entries, which is full, and no Redis.
abbrev full : Cache
full = record {
  enabled = true;
  max_entries = 2;
  lru = entries;
  redis = false;
  redis_configured = false;
  redis_ok = false;
  warned = false;
}

full-IsValid : IsValid full
full-IsValid = record {
  bounded = omega arith;
  keyed = (refl, (refl, tt));
  linked = λ h. absurd (cc h);
}

set-get-IsValid_example : IsValid (set failed "b" "3" full) × IsValid (get some failed "b" full).1
set-get-IsValid_example = set-get-IsValid some failed failed "b" "3" full full-IsValid

lookup-set_example :
    lookup entry_key "a" (set failed "c" "3" full).lru
    ≡ (if gives_way "a" "c" full then none else lookup entry_key "a" full.lru)
lookup-set_example = lookup-set failed "c" "3" "a" full full-IsValid refl (omega arith) refl

abbrev settings : Settings
settings = record {
  ai_cost_per_1k_input = 0;
  ai_cost_per_1k_output = 0;
  ai_budget_enabled = true;
  ai_daily_budget = 100;
}

abbrev fresh : BudgetGuard
fresh = record { settings = settings; local = []; warned_day = none; gauge = 0; log = [] }

-- A coarse arithmetic: sums of bits, and quotients that are 0.0 or 1.0.
abbrev coarse : Floats
coarse = record {
  add = λ a b. a + b;
  mul = λ a b. a * b;
  div = λ a b. if ltb (10 * a) (8 * b) then 0 else one;
  over = λ a b. if ltb a b then 0 else one;
}

coarse-IsRounding : IsRounding coarse
coarse-IsRounding = record {
  add_zero = λ a. omega arith;
  le-add = λ a b. omega arith;
  zero-div = λ limit pos. ground arith;
  div-le = λ a b limit pos h. ground arith;
}

check-spend_example :
    ((check coarse false failed "mon" "mon" (spend coarse "mon" (50 ∷ 40 ∷ []) fresh)).0 ≡ true)
    × ((spend coarse "mon" (50 ∷ 40 ∷ []) fresh).log ≡ "mon" ∷ [])
check-spend_example =
    check-spend coarse "mon" "mon" (50 ∷ 40 ∷ []) fresh coarse-IsRounding refl (omega arith) refl
      refl

abbrev coercion : Coercion
coercion = record {
  to_int = λ j. none;
  to_float = λ j. some (pos 900000);
  to_bool = λ j. some true;
  strip = λ s. s;
  issue = λ fs. "bad";
}

abbrev answer : Fields
answer =
    field "fields" (obj (field "brand" (text "Bosch") end))
      (field "confidences" (obj (field "brand" (float (pos 900000)) end)) end)

-- A text of one Persian letter.
abbrev reason : String
reason = "\u{6cc}"

abbrev judgement : Fields
judgement =
    field "is_same" (flag true)
      (field "confidence" (float (pos 900000)) (field "reason_fa" (text reason) end))

-- `"answer"` is the text of the one, `"judgement"` that of the other, and `"stored"` that of any other value.
abbrev outside : Fields → Outside
outside stored = record {
  coercion = coercion;
  floats = coarse;
  loads = λ s.
      if str_eq s "answer"
      then valid (obj answer)
      else if str_eq s "judgement"
      then valid (obj judgement)
      else valid (obj stored);
  dumps = λ j. "stored";
  repr = λ j. "";
  canonical = λ j. "";
  cache_key = λ op payload. op;
  bare = λ s. s;
  braced = λ s. none;
  extract_prompt = λ t h. t;
  judge_prompt = λ a b c. a;
  redis_get = λ n key. failed;
  redis_set = λ n. failed;
  redis_count = λ n. failed;
  redis_add = λ n a. failed;
  complete = λ n q. some (record {
    text = if str_eq q.op "extract" then "answer" else "judgement";
    model = "m";
    prompt_tokens = 3;
    completion_tokens = 4;
    seconds = 60;
  });
  today = λ n. "mon";
}

abbrev world : BudgetGuard → World
world g = record { cache = record full { lru = [] }; guard = g; calls = []; clock = 0 }

abbrev title : ExtractRequest
title = record { text = "lent"; schema_name = "offer_fields"; hint = none }

abbrev pair : JudgeRequest
pair = record { a = "lent"; b = "lent 2"; context = none }

abbrev brand_only : Json → Json → Json
brand_only value blank = obj (
    field "brand" value (
      field "part_number" blank (
        field "part_type" blank (
          field "authenticity_claim" blank
            (field "pack_quantity" blank (field "vehicle_hints" blank end))))))

abbrev title_response : ExtractResponse
title_response = record {
  fields = brand_only (text "Bosch") null;
  confidences = brand_only (float (pos 900000)) (float (pos 0));
  model = text "m";
  cached = false;
}

abbrev for_title : Outside
for_title = outside (extraction_of title_response)

abbrev after_title : World
after_title = (extract for_title title (world fresh)).1

extract_again_example :
    ((extract for_title title after_title).0 ≡ ok (record title_response { cached = true }))
    × ((extract for_title title after_title).1.calls ≡ after_title.calls)
unfolding extract
extract_again_example =
    extract_again for_title title (world fresh) (refl, omega arith) refl refl refl

abbrev pair_response : JudgeResponse
pair_response = record {
  is_same = true;
  confidence = pos 900000;
  reason_fa = reason;
  cached = false;
}

abbrev for_pair : Outside
for_pair = outside (judgement_of pair_response)

abbrev after_pair : World
after_pair = (judge for_pair pair (world fresh)).1

judge_again_example :
    ((judge for_pair pair after_pair).0 ≡ ok (record pair_response { cached = true }))
    × ((judge for_pair pair after_pair).1.calls ≡ after_pair.calls)
unfolding judge
judge_again_example = judge_again for_pair pair (world fresh) (refl, omega arith) refl refl refl

extract-judge-calls_example :
    (length (extract for_title title (world fresh)).1.calls ≤ 2)
    × (length (judge for_title pair (world fresh)).1.calls ≤ 2)
extract-judge-calls_example = extract-judge-calls for_title title pair (world fresh)

abbrev spent : BudgetGuard
spent = record fresh { local = ("mon", 130) ∷ [] }

extract_spent_example :
    IsFree (world spent) (extract for_title title (world spent))
    × ((cache_get for_title (extract_key for_title title) (world spent)).0 ≡ ok none
        → (extract for_title title (world spent)).0 ≡ err Error.budget_exhausted)
unfolding cache_get used
extract_spent_example = extract_spent for_title title (world spent) refl (refl, omega arith)

validate_extraction-IsFilled_example : IsFilled (
  field "brand" (text "Bosch") (
      field "part_number" null (
        field "part_type" null (
          field "authenticity_claim" null
            (field "pack_quantity" null (field "vehicle_hints" null end))))),
  ("brand", pos 900000)
      ∷ ("part_number", pos 0)
      ∷ ("part_type", pos 0)
      ∷ ("authenticity_claim", pos 0)
      ∷ ("pack_quantity", pos 0)
      ∷ ("vehicle_hints", pos 0)
      ∷ [],
)
unfolding validate_extraction
validate_extraction-IsFilled_example = validate_extraction-IsFilled coercion answer refl
