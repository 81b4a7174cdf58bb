-- ===== src/Billing/Queue.antt =====
-- billing/click_queue.py: the click queue in Redis, and the Lua script that counts and enqueues. Redis
-- is a parameter: its commands, and what their documentation says of them.
pub mod Replay
use yadakchi.Prelude.{
  ℕ, ◌+◌, ◌≤◌, ◌≡◌, ◌≢◌, String, Bool, true, false, not, Option, none, some, List, [], ◌∷◌, ◌++◌,
  ltb, ◌==◌, if◌then◌else◌, ◌/◌,
}
use yadakchi.Billing.Models.{QueuedClick}

-- The f-strings that name the keys, by their parts: no part holds a colon.
pub data RedisKey : Type 0 where
  nonce_key : String → RedisKey
  ip_key : String → String → RedisKey
  repeat_key : String → String → RedisKey
  velocity_key : String → RedisKey
  review_key : String → ℕ → RedisKey

-- `billing:clicks:pending` and `billing:clicks:processing`
pub data Queue : Type 0 where
  pending processing : Queue

-- Commands at a time in seconds. A list is seen with its left end first.
pub record Redis : Type 1 where
  pub Store : Type 0
  pub has : RedisKey → ℕ → Store → Bool
  pub queue : Queue → Store → List String
  pub set_nx : RedisKey → ℕ → ℕ → Store → Bool × Store
  pub incr : RedisKey → ℕ → Store → ℕ × Store
  pub expire : RedisKey → ℕ → ℕ → Store → Store
  pub lpush : Queue → String → Store → Store
  pub rpoplpush : Queue → Queue → Store → Option String × Store
  pub lrem : Queue → String → Store → Store

-- The constants of the service's settings.
pub record Limits : Type 0 where
  pub token_ttl : ℕ
  pub ip_window : ℕ
  pub ip_limit : ℕ
  pub repeat_seconds : ℕ
  pub velocity_window : ℕ
  pub velocity_limit : ℕ

-- What the script answers: whether the click was taken, is suspicious, and asks for a review.
pub record Enqueued : Type 0 where
  pub taken : Bool
  pub suspicious : Bool
  pub review : Bool

abbrev pub is_empty {ℓ} : {A : Type ℓ} → List A → Bool
is_empty [] = true
is_empty (x ∷ xs) = false

abbrev pub reason_if : Bool → String → List String → List String
reason_if flag reason reasons = if flag then reasons ++ reason ∷ [] else reasons

-- `velocity_bucket`, and its decimal text.
abbrev pub bucket_of : Limits → ℕ → ℕ
bucket_of limits now = now / limits.velocity_window

module _ (redis : Redis) where
  open redis use {Store, has, queue, set_nx, incr, expire, lpush, rpoplpush, lrem}

  -- `INCR`, and `EXPIRE` when it is the first of its window.
  unfoldable pub count_in_window : RedisKey → ℕ → ℕ → Store → ℕ × Store
  count_in_window key window now s =
      let (n, s') = incr key now s in (n, (if n == 1 then expire key window now s' else s'))

  -- `SET ... NX` of the review key, only beyond the limit.
  unfoldable pub claim_review : Bool → RedisKey → ℕ → ℕ → Store → Bool × Store
  claim_review true key window now s = set_nx key window now s
  claim_review false key window now s = (false, s)

  -- The script after the nonce is taken.
  unfoldable pub enqueue_fresh :
      Limits
      → (QueuedClick → String)
      → (ℕ → String)
      → QueuedClick
      → List String
      → ℕ
      → Store
      → Enqueued × Store
  enqueue_fresh limits encode show_bucket click base_reasons now s =
      let (ip_count, s₁) =
        count_in_window (ip_key click.seller_key click.ip_hash) limits.ip_window now s in
      let reasons₁ = reason_if (ltb limits.ip_limit ip_count) "ip_rate_limit" base_reasons in
      let (first, s₂) =
        set_nx (repeat_key click.offer_uid click.fingerprint_hash) limits.repeat_seconds now s₁ in
      let reasons₂ = reason_if (not first) "repeat_fingerprint" reasons₁ in
      let (velocity_count, s₃) =
        count_in_window (velocity_key click.seller_key) limits.velocity_window now s₂ in
      let exceeded = ltb limits.velocity_limit velocity_count in
      let reasons = reason_if exceeded "seller_velocity" reasons₂ in
      let (review, s₄) =
        claim_review exceeded (review_key click.seller_key (bucket_of limits now))
          limits.velocity_window now s₃ in
      let click' = record click {
        fraud_reasons = reasons;
        is_suspicious = not (is_empty reasons);
        velocity_anomaly = review;
        velocity_count = velocity_count;
        velocity_bucket = show_bucket (bucket_of limits now);
      } in
      (
        record { taken = true; suspicious = not (is_empty reasons); review = review },
        lpush pending (encode click') s₄,
      )

  -- `enqueue_click`: the script under the nonce of the token.
  unfoldable pub enqueue_click :
      Limits
      → (QueuedClick → String)
      → (ℕ → String)
      → QueuedClick
      → String
      → List String
      → ℕ
      → Store
      → Enqueued × Store
  enqueue_click limits encode show_bucket click nonce base_reasons now s =
      let (fresh, s') = set_nx (nonce_key nonce) limits.token_ttl now s in
      if fresh
      then enqueue_fresh limits encode show_bucket click base_reasons now s'
      else (record { taken = false; suspicious = false; review = false }, s')

  -- `claim_click`, `acknowledge_click`, `requeue_click`
  abbrev pub claim_click : Store → Option String × Store
  claim_click = rpoplpush pending processing

  abbrev pub acknowledge_click : String → Store → Store
  acknowledge_click raw = lrem processing raw

  abbrev pub requeue_click : String → Store → Store
  requeue_click raw s = lpush pending raw (lrem processing raw s)

-- The documented behaviour of the key commands that the replay guard rests on.
pub record IsKeyStore (redis : Redis) : Type 0 where
  pub set_nx-done :
      (k : RedisKey) (ttl now : ℕ) (s : redis.Store)
      → (redis.set_nx k ttl now s).0 ≡ not (redis.has k now s)
  pub has-set_nx_self :
      (k : RedisKey) (ttl now t : ℕ) (s : redis.Store)
      → redis.has k now s ≡ false
      → now ≤ t
      → redis.has k t (redis.set_nx k ttl now s).1 ≡ ltb t (now + ttl)
  pub set_nx_held :
      (k : RedisKey) (ttl now : ℕ) (s : redis.Store)
      → redis.has k now s ≡ true
      → (redis.set_nx k ttl now s).1 ≡ s
  pub has-set_nx_ne :
      (j k : RedisKey) (ttl now t : ℕ) (s : redis.Store)
      → j ≢ k
      → redis.has j t (redis.set_nx k ttl now s).1 ≡ redis.has j t s
  pub has-incr_ne :
      (j k : RedisKey) (now t : ℕ) (s : redis.Store)
      → j ≢ k
      → redis.has j t (redis.incr k now s).1 ≡ redis.has j t s
  pub has-expire_ne :
      (j k : RedisKey) (ttl now t : ℕ) (s : redis.Store)
      → j ≢ k
      → redis.has j t (redis.expire k ttl now s) ≡ redis.has j t s
  pub has-lpush :
      (j : RedisKey) (t : ℕ) (q : Queue) (raw : String) (s : redis.Store)
      → redis.has j t (redis.lpush q raw s) ≡ redis.has j t s
