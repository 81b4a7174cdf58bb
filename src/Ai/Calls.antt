-- ===== src/Ai/Calls.antt =====
-- Rules for the computations of ai/service.py: what they leave alone, and how often they call the model.
use yadakchi.Prelude.{
  ◌≡◌, refl, ap, ◌∙◌, ℕ, ◌+◌, ◌≤◌, String, Bool, true, false, Option, none, some, arith, length,
}
use yadakchi.Ai.Cache.{Cache, get, Reply, remember}
use yadakchi.Ai.Json.{Fields}
use yadakchi.Ai.Schema.{Validated, valid, invalid}
use yadakchi.Ai.Service.{
  CompletionRequest, Completion, Outside, Error, Result, ok, err, World, M, bound, ◌>>=◌,
  budget_check, allowed, call, completed, judge_of, repair,
}
use yadakchi.Ai.Repair.{ask_with_repair, first_answer, second_answer, settled, repaired}

-- A computation that leaves the cache alone.
abbrev pub KeepsCache : {A : Type 0} → M A → Type 0
KeepsCache m = (w : World) → (m w).1.cache ≡ w.cache

-- A computation that calls the model at most `n` times.
abbrev pub Calls : {A : Type 0} → ℕ → M A → Type 0
Calls n m = (w : World) → length (m w).1.calls ≤ length w.calls + n

-- What a successful sequence did.
pub bind_ok :
    {A B : Type 0} (m : M A) (f : A → M B) (w : World) {b : B} {w' : World}
    → (m >>= f) w ≡ (ok b, w')
    → (a : A) × (v : World) × (m w ≡ (ok a, v)) × (f a v ≡ (ok b, w'))
bind_ok {A} {B} m f w {b} {w'} h = go (m w) refl h
  where
    go :
        (r : Result A × World)
        → m w ≡ r
        → bound f r ≡ (ok b, w')
        → (a : A) × (v : World) × (m w ≡ (ok a, v)) × (f a v ≡ (ok b, w'))
    go (ok a, v) e k = (a, v, e, k)
    go (err x, v) e k = absurd (cc (ap (λ r. r.0) k))

bound-KeepsCache :
    {A B : Type 0} (f : A → M B) (r : Result A × World)
    → ((a : A) → KeepsCache (f a))
    → (bound f r).1.cache ≡ r.1.cache
bound-KeepsCache f (ok a, w) h = h a w
bound-KeepsCache f (err e, w) h = refl

pub bind-KeepsCache :
    {A B : Type 0} (m : M A) (f : A → M B)
    → KeepsCache m
    → ((a : A) → KeepsCache (f a))
    → KeepsCache (m >>= f)
bind-KeepsCache m f k h w = bound-KeepsCache f (m w) h ∙ k w

bound-Calls :
    {A B : Type 0} (n : ℕ) (f : A → M B) (r : Result A × World)
    → ((a : A) → Calls n (f a))
    → length (bound f r).1.calls ≤ length r.1.calls + n
bound-Calls n f (ok a, w) h = h a w
bound-Calls n f (err e, w) h = omega arith

pub bind-Calls :
    {A B : Type 0} (j k : ℕ) (m : M A) (f : A → M B)
    → Calls j m
    → ((a : A) → Calls k (f a))
    → Calls (j + k) (m >>= f)
bind-Calls j k m f c h w = omega (arith, bound-Calls k f (m w) h, c w)

completed-cache :
    (out : Outside) (q : CompletionRequest) (o : Option Completion) (w : World)
    → (completed out q o w).1.cache ≡ w.cache
completed-cache out q none w = refl
completed-cache out q (some c) w = refl

completed-calls :
    (out : Outside) (q : CompletionRequest) (o : Option Completion) (w : World)
    → length (completed out q o w).1.calls ≤ length w.calls + 1
completed-calls out q none w = omega arith
completed-calls out q (some c) w = omega arith

pub call-KeepsCache : (out : Outside) (q : CompletionRequest) → KeepsCache (call out q)
unfolding call
call-KeepsCache out q w = completed-cache out q (out.complete w.clock q) w

pub call-Calls : (out : Outside) (q : CompletionRequest) → Calls 1 (call out q)
unfolding call
call-Calls out q w = completed-calls out q (out.complete w.clock q) w

module _ {A : Type 0} (out : Outside) (validate : Fields → Validated A)
    (refusal : String → Error) where
  settled-KeepsCache :
      (c : Completion) (v : Validated (Fields × A)) → KeepsCache (settled out validate refusal c v)
  settled-KeepsCache c (valid (fs, a)) w = refl
  settled-KeepsCache c (invalid message) w = refl

  repaired-KeepsCache :
      (q : CompletionRequest) (c : Completion) (v : Validated (Fields × A))
      → KeepsCache (repaired out validate refusal q c v)
  repaired-KeepsCache q c (valid (fs, a)) w = refl
  repaired-KeepsCache q c (invalid message) w =
      bind-KeepsCache (call out (repair q c message)) (second_answer out validate refusal)
        (call-KeepsCache out (repair q c message))
        (λ d. settled-KeepsCache d (judge_of out validate d)) w

  pub ask-KeepsCache : (q : CompletionRequest) → KeepsCache (ask_with_repair out validate refusal q)
  unfolding ask_with_repair
  ask-KeepsCache q =
      bind-KeepsCache (call out q) (first_answer out validate refusal q) (call-KeepsCache out q)
        (λ c. repaired-KeepsCache q c (judge_of out validate c))

  settled-Calls :
      (c : Completion) (v : Validated (Fields × A)) → Calls 0 (settled out validate refusal c v)
  settled-Calls c (valid (fs, a)) w = omega arith
  settled-Calls c (invalid message) w = omega arith

  repaired-Calls :
      (q : CompletionRequest) (c : Completion) (v : Validated (Fields × A))
      → Calls 1 (repaired out validate refusal q c v)
  repaired-Calls q c (valid (fs, a)) w = omega arith
  repaired-Calls q c (invalid message) w =
      bind-Calls 1 0 (call out (repair q c message)) (second_answer out validate refusal)
        (call-Calls out (repair q c message)) (λ d. settled-Calls d (judge_of out validate d)) w

  pub ask-Calls : (q : CompletionRequest) → Calls 2 (ask_with_repair out validate refusal q)
  unfolding ask_with_repair
  ask-Calls q =
      bind-Calls 1 1 (call out q) (first_answer out validate refusal q) (call-Calls out q)
        (λ c. repaired-Calls q c (judge_of out validate c))

allowed_lem :
    (b : Bool) (w : World) → ((allowed b w).1.cache ≡ w.cache) × ((allowed b w).1.calls ≡ w.calls)
allowed_lem true w = (refl, refl)
allowed_lem false w = (refl, refl)

pub check-KeepsCache : (out : Outside) → KeepsCache (budget_check out)
unfolding budget_check
check-KeepsCache out w = (allowed_lem _ _).0

pub check-Calls : (out : Outside) → Calls 0 (budget_check out)
unfolding budget_check
check-Calls out w = omega (arith, ap length ((allowed_lem _ _).1))

-- The cache's own settings.
pub get-enabled :
    {A : Type 0} (d : String → Option A) (reply : Reply (Option String)) (key : String) (c : Cache)
    → ((get d reply key c).1.enabled ≡ c.enabled)
      × ((get d reply key c).1.max_entries ≡ c.max_entries)
unfolding get remember
get-enabled d reply key c = ground arith
