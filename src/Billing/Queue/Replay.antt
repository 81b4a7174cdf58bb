-- ===== src/Billing/Queue/Replay.antt =====
-- The nonce of a token in billing/click_queue.py.
use yadakchi.Prelude.{
  ℕ, ◌+◌, ◌≤◌, ◌<◌, ◌≡◌, ◌≢◌, refl, String, Bool, true, false, List, [], ◌∷◌, arith, ltb, ◌==◌,
  if◌then◌else◌, Bool-cases, inl, inr, ◌∙◌, ◌&&◌, str_eq, str_eq_iff, All,
}
use yadakchi.Billing.Models.{QueuedClick}
use yadakchi.Billing.Queue.{
  RedisKey, nonce_key, ip_key, repeat_key, velocity_key, review_key, Redis, Limits, Enqueued,
  count_in_window, claim_review, enqueue_fresh, enqueue_click, IsKeyStore, bucket_of,
}

module _ (redis : Redis) (law : IsKeyStore redis) (n : String) where
  open redis use {Store, has}

  Other : RedisKey → Type 0
  Other k = nonce_key n ≢ k

  has-count_in_window :
      (k : RedisKey) (window now t : ℕ) (s : Store)
      → Other k
      → has (nonce_key n) t (count_in_window redis k window now s).1 ≡ has (nonce_key n) t s
  unfolding count_in_window Other
  has-count_in_window k window now t s ne = elim (Bool-cases ((redis.incr k now s).0 == 1)) [
    | inl first ↦
        rw (first, law.has-expire_ne (nonce_key n) k window now t (redis.incr k now s).1 ne)
          (law.has-incr_ne (nonce_key n) k now t s ne)
    | inr later ↦ rw later (law.has-incr_ne (nonce_key n) k now t s ne)
  ]

  has-claim_review :
      (exceeded : Bool) (k : RedisKey) (window now t : ℕ) (s : Store)
      → Other k
      → has (nonce_key n) t (claim_review redis exceeded k window now s).1 ≡ has (nonce_key n) t s
  unfolding claim_review Other
  has-claim_review true k window now t s ne = law.has-set_nx_ne (nonce_key n) k window now t s ne
  has-claim_review false k window now t s ne = refl

  has-enqueue_fresh :
      (limits : Limits) (encode : QueuedClick → String) (show : ℕ → String) (click : QueuedClick)
      (reasons : List String) (now t : ℕ) (s : Store)
      → has (nonce_key n) t (enqueue_fresh redis limits encode show click reasons now s).1
        ≡ has (nonce_key n) t s
  unfolding enqueue_fresh Other
  has-enqueue_fresh limits encode show click reasons now t s =
      let ip = ip_key click.seller_key click.ip_hash in
      let seen = repeat_key click.offer_uid click.fingerprint_hash in
      let speed = velocity_key click.seller_key in
      let asked = review_key click.seller_key (bucket_of limits now) in
      let s₁ = (count_in_window redis ip limits.ip_window now s).1 in
      let s₂ = (redis.set_nx seen limits.repeat_seconds now s₁).1 in
      let counted = count_in_window redis speed limits.velocity_window now s₂ in
      rw
        (
          law.has-lpush,
          has-claim_review (ltb limits.velocity_limit counted.0) asked limits.velocity_window now t
              counted.1 (λ e. cc),
          has-count_in_window speed limits.velocity_window now t s₂ (λ e. cc),
          law.has-set_nx_ne (nonce_key n) seen limits.repeat_seconds now t s₁ (λ e. cc),
          has-count_in_window ip limits.ip_window now t s (λ e. cc),
        )
        refl

-- A visit that presents the click of a token.
pub record Visit : Type 0 where
  pub click : QueuedClick
  pub nonce : String
  pub reasons : List String
  pub at : ℕ

module _ (redis : Redis) (limits : Limits) (encode : QueuedClick → String) (show : ℕ → String) where
  unfoldable pub visit : Visit → redis.Store → Enqueued × redis.Store
  visit v = enqueue_click redis limits encode show v.click v.nonce v.reasons v.at

  -- How many of the visits, one after another, are taken under the nonce.
  pub uses : String → List Visit → redis.Store → ℕ
  unfolding visit
  uses n [] s = 0
  uses n (v ∷ vs) s =
      let (r, s') = visit v s in (if str_eq v.nonce n && r.taken then 1 else 0) + uses n vs s'

module _ (redis : Redis) (law : IsKeyStore redis) (limits : Limits) (encode : QueuedClick → String)
    (show : ℕ → String) (n : String) where
  open redis use {Store, has}

  -- A click whose nonce is held is refused, and counts nothing.
  pub enqueue_click_refused :
      (click : QueuedClick) (reasons : List String) (now : ℕ) (s : Store)
      → has (nonce_key n) now s ≡ true
      → enqueue_click redis limits encode show click n reasons now s
        ≡ (record { taken = false; suspicious = false; review = false }, s)
  unfolding enqueue_click
  enqueue_click_refused click reasons now s h =
      rw
        (
          law.set_nx-done (nonce_key n) limits.token_ttl now s,
          h,
          law.set_nx_held (nonce_key n) limits.token_ttl now s h,
        )
        refl

  enqueue_click_other :
      (click : QueuedClick) (m : String) (reasons : List String) (now t : ℕ) (s : Store)
      → m ≢ n
      → has (nonce_key n) t (enqueue_click redis limits encode show click m reasons now s).1
        ≡ has (nonce_key n) t s
  unfolding enqueue_click
  enqueue_click_other click m reasons now t s ne =
      let s' = (redis.set_nx (nonce_key m) limits.token_ttl now s).1 in
      let kept =
        law.has-set_nx_ne (nonce_key n) (nonce_key m) limits.token_ttl now t s (λ e. ne (cc e)) in
      elim (Bool-cases (redis.set_nx (nonce_key m) limits.token_ttl now s).0) [
        | inl fresh ↦
            rw fresh
              (has-enqueue_fresh redis law n limits encode show click reasons now t s' ∙ kept)
        | inr stale ↦ rw stale kept
      ]

  enqueue_click_taken :
      (click : QueuedClick) (reasons : List String) (now t : ℕ) (s : Store)
      → (enqueue_click redis limits encode show click n reasons now s).0.taken ≡ true
      → now ≤ t
      → has (nonce_key n) t (enqueue_click redis limits encode show click n reasons now s).1
        ≡ ltb t (now + limits.token_ttl)
  enqueue_click_taken click reasons now t s taken later =
      elim (Bool-cases (has (nonce_key n) now s)) [
        | inl held ↦ absurd (cc (rw (enqueue_click_refused click reasons now s held) at taken))
        | inr free ↦
            let fresh : (redis.set_nx (nonce_key n) limits.token_ttl now s).0 ≡ true =
              rw (law.set_nx-done (nonce_key n) limits.token_ttl now s, free) refl in
            unfold enqueue_click in
            rw fresh (
              has-enqueue_fresh redis law n limits encode show click reasons now t _
              ∙ law.has-set_nx_self (nonce_key n) limits.token_ttl now t s free later)
      ]

  abbrev IsHeld : ℕ → ℕ → Store → Type 0
  IsHeld from limit s = (t : ℕ) → from ≤ t → t < limit → has (nonce_key n) t s ≡ true

  uses-IsHeld :
      (vs : List Visit) (s : Store) (from limit : ℕ)
      → IsHeld from limit s
      → All (λ v. (from ≤ v.at) × (v.at < limit)) vs
      → uses redis limits encode show n vs s ≡ 0
  unfolding uses visit
  uses-IsHeld [] s from limit h times = refl
  uses-IsHeld (v ∷ vs) s from limit h times = elim (Bool-cases (str_eq v.nonce n)) [
    | inl same ↦
        let e = (str_eq_iff v.nonce n).0 same in
        rw
          (
            same,
            e,
            enqueue_click_refused v.click v.reasons v.at s (h v.at times.0.0 times.0.1),
            uses-IsHeld vs s from limit h times.1,
          )
          (omega arith)
    | inr other ↦
        let ne : v.nonce ≢ n = λ e. cc ((str_eq_iff v.nonce n).1 e) in
        rw
          (
            other,
            uses-IsHeld vs
                (enqueue_click redis limits encode show v.click v.nonce v.reasons v.at s).1 from
                limit (λ t a b. enqueue_click_other v.click v.nonce v.reasons v.at t s ne ∙ h t a b)
                times.1,
          )
          (omega arith)
  ]

  -- Over a Redis whose keys behave as documented: after a visit was taken under a nonce, no visit
  -- that comes before the lifetime of the nonce key is over is taken under it, whatever other
  -- visits come in between.
  pub nonce_once :
      (first : Visit) (vs : List Visit) (s : Store)
      → first.nonce ≡ n
      → (visit redis limits encode show first s).0.taken ≡ true
      → All (λ v. (first.at ≤ v.at) × (v.at < first.at + limits.token_ttl)) vs
      → uses redis limits encode show n vs (visit redis limits encode show first s).1 ≡ 0
  unfolding visit
  nonce_once first vs s e taken times = rw e (
      uses-IsHeld vs _ first.at (first.at + limits.token_ttl)
        (λ t a b.
          enqueue_click_taken first.click first.reasons first.at t s (rw e at taken) a
          ∙ ground arith)
        times)
