-- ===== src/Ai/Stored.antt =====
-- What ai/service.py finds in its cache again.
use yadakchi.Prelude.{◌≡◌, refl, sym, ap, subst, ◌∙◌, ◌+◌, ◌<◌, String, true, some, arith}
use yadakchi.Ai.Cache.{Cache}
use yadakchi.Ai.Cache.Kept.{get-set}
use yadakchi.Ai.Json.{Fields, obj}
use yadakchi.Ai.Schema.{valid}
use yadakchi.Ai.Service.{Outside, Result, ok, err, World, M, bound, cache_get, cache_set, decode}
use yadakchi.Ai.Calls.{KeepsCache, get-enabled}

-- The cache of a world can hold an answer.
abbrev pub CanStore : World → Type 0
CanStore w = (w.cache.enabled ≡ true) × (0 < w.cache.max_entries)

pub get-CanStore :
    (out : Outside) (key : String) (w : World) → CanStore w → CanStore (cache_get out key w).1
unfolding cache_get
get-CanStore out key w (on, pos) =
    let (e, n) = get-enabled (decode out) (out.redis_get w.clock key) key w.cache in
    (e ∙ on, omega (arith, n, pos))

pub keeps-CanStore :
    {A : Type 0} (m : M A) → KeepsCache m → (w : World) → CanStore w → CanStore (m w).1
keeps-CanStore m k w h =
    subst (λ (c : Cache). (c.enabled ≡ true) × (0 < c.max_entries)) (sym (k w)) h

pub bound_ok :
    {A B : Type 0} (f : A → M B) (r : Result A × World) (a : A) → r.0 ≡ ok a → bound f r ≡ f a r.1
bound_ok f (ok b, w) a h = ap (λ x. f x w) (cc h)
bound_ok f (err e, w) a h = absurd (cc h)

pub cache_get-calls :
    (out : Outside) (key : String) (w : World) → (cache_get out key w).1.calls ≡ w.calls
unfolding cache_get
cache_get-calls out key w = refl

-- A value that json writes and reads back.
abbrev pub ReadsBack : Outside → Fields → Type 0
ReadsBack out fs = out.loads (out.dumps (obj fs)) ≡ valid (obj fs)

module _ (out : Outside) where
  -- What was stored under a key is found there, whatever Redis says.
  pub cache_get-cache_set :
      (key : String) (fs : Fields) (w : World)
      → CanStore w
      → ReadsBack out fs
      → (cache_get out key (cache_set out key (obj fs) w).1).0 ≡ ok (some fs)
  unfolding cache_get cache_set
  cache_get-cache_set key fs w (on, pos) back = ap ok (
      get-set (decode out) (out.redis_set w.clock) (out.redis_get (w.clock + 1) key) key
        (out.dumps (obj fs)) w.cache on pos
      ∙ rw (decode, back))
