-- ===== src/Billing/Drain.antt =====
-- billing/drain.py: the job that takes clicks from the queue into the database.
pub mod Delivery
use yadakchi.Prelude.{
  ℕ, zero, suc, ◌+◌, ◌≡◌, ◌≢◌, String, Bool, true, false, Option, none, some, List, [], ◌∷◌, ◌++◌,
  str_eq, if◌then◌else◌, length,
}
use yadakchi.Billing.Models.{QueuedClick, OutboxEvent}
use yadakchi.Billing.Database.{Db, Fault, seller_unavailable, value_error, Result, ok, err}
use yadakchi.Billing.Events.{Env}
use yadakchi.Billing.Wallet.{Draws, ClickProcessingResult, process_queued_click}
use yadakchi.Billing.Queue.{
  Redis, Queue, pending, processing, claim_click, acknowledge_click, requeue_click,
}
use yadakchi.Billing.Producer.{Publisher, publish_pending}

-- `LREM key 1 value`
abbrev pub remove_first : String → List String → List String
remove_first raw [] = []
remove_first raw (x ∷ xs) = if str_eq x raw then xs else x ∷ remove_first raw xs

-- The documented behaviour of the list commands.
pub record IsQueueStore (redis : Redis) : Type 0 where
  pub rpoplpush_empty :
      (src dst : Queue) (s : redis.Store)
      → redis.queue src s ≡ []
      → redis.rpoplpush src dst s ≡ (none, s)
  pub rpoplpush_last :
      (src dst : Queue) (s : redis.Store) (xs : List String) (x : String)
      → src ≢ dst
      → redis.queue src s ≡ xs ++ x ∷ []
      → ((redis.rpoplpush src dst s).0 ≡ some x)
        × (redis.queue src (redis.rpoplpush src dst s).1 ≡ xs)
        × (redis.queue dst (redis.rpoplpush src dst s).1 ≡ x ∷ redis.queue dst s)
  pub queue-lrem_self :
      (q : Queue) (x : String) (s : redis.Store)
      → redis.queue q (redis.lrem q x s) ≡ remove_first x (redis.queue q s)
  pub queue-lrem_ne :
      (q p : Queue) (x : String) (s : redis.Store)
      → p ≢ q
      → redis.queue p (redis.lrem q x s) ≡ redis.queue p s
  pub queue-lpush_self :
      (q : Queue) (x : String) (s : redis.Store)
      → redis.queue q (redis.lpush q x s) ≡ x ∷ redis.queue q s
  pub queue-lpush_ne :
      (q p : Queue) (x : String) (s : redis.Store)
      → p ≢ q
      → redis.queue p (redis.lpush q x s) ≡ redis.queue p s

-- How the loop ended: by `break`, the limit or an empty queue, or by an exception.
pub data Ending : Type 0 where
  finished : Ending
  raised : Fault → Ending

pub record Drained (S : Type 0) : Type 0 where
  pub processed : ℕ
  pub store : S
  pub db : Db
  pub ending : Ending

-- `parse_queued_click` and `process_queued_click`; what does not parse raises.
unfoldable pub process_raw :
    Env → Draws → Option QueuedClick → Db → Result (ClickProcessingResult × Db)
process_raw env draws none db = err value_error
process_raw env draws (some queued) db = process_queued_click env draws queued db

abbrev pub ending_of : Fault → Ending
ending_of (seller_unavailable key) = finished
ending_of f = raised f

module _ (redis : Redis) (env : Env) (draws : ℕ → Draws) (parse : String → Option QueuedClick) where
  open redis use {Store}

  -- `while client.rpoplpush(PROCESSING_QUEUE, PENDING_QUEUE): recovered += 1`, on fuel; the empty
  -- text, like the missing one, is falsy and ends the loop uncounted.
  unfoldable pub recover_loop : ℕ → Store → ℕ × Store
  recover_loop zero s = (0, s)
  recover_loop (suc fuel) s =
      let (found, s') = redis.rpoplpush processing pending s in
      elim found [
        | none ↦ (0, s')
        | some raw ↦ elim (str_eq raw "") [
          | true ↦ (0, s')
          | false ↦ let (n, s'') = recover_loop fuel s' in (n + 1, s'')
        ]
      ]

  unfoldable pub recover_processing : Store → ℕ × Store
  unfolding recover_loop
  recover_processing s = recover_loop (suc (length (redis.queue processing s))) s

  -- `for _ in range(limit)`; `draws i` are the UUIDs of the round with `i` rounds left.
  unfoldable pub drain_loop : ℕ → ℕ → Store → Db → Drained Store
  drain_loop zero done s db = record { processed = done; store = s; db = db; ending = finished }
  drain_loop (suc rounds) done s db =
      let (claimed, s') = claim_click redis s in
      elim claimed [
        | none ↦ record { processed = done; store = s'; db = db; ending = finished }
        | some raw ↦ elim (process_raw env (draws rounds) (parse raw) db) [
          | ok (r, db') ↦ drain_loop rounds (done + 1) (acknowledge_click redis raw s') db'
          | err f ↦ record {
            processed = done;
            store = requeue_click redis raw s';
            db = db;
            ending = ending_of f;
          }
        ]
      ]

  abbrev publish_after :
      Publisher → (OutboxEvent → Bool) → ℕ → ℕ → Ending → Drained Store → Drained Store
  publish_after publisher wanted now batch finished d = record d {
    db = record d.db { outbox = (publish_pending publisher wanted now batch d.db.outbox).1 };
  }
  publish_after publisher wanted now batch (raised f) d = d

  -- `drain_clicks`
  unfoldable pub drain_clicks :
      Publisher → (OutboxEvent → Bool) → ℕ → ℕ → ℕ → Bool → Store → Db → Drained Store
  unfolding drain_loop recover_processing
  drain_clicks publisher wanted now batch limit recover s db =
      let s' = if recover then (recover_processing s).1 else s in
      let d = drain_loop limit 0 s' db in publish_after publisher wanted now batch d.ending d
