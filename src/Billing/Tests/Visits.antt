-- ===== src/Billing/Tests/Visits.antt =====
-- Tokens, visits, the drain and the outbox at concrete inputs.
use yadakchi.Prelude.{
  ◌≡◌, refl, ℕ, ◌+◌, ◌≤◌, String, true, Option, none, some, List, [], ◌∷◌, arith, ◌++◌, ◌==◌,
  if◌then◌else◌,
}
use yadakchi.Billing.Drain.{recover_processing, drain_loop}
use yadakchi.Billing.Drain.Delivery.{
  IsDelivered, count, drain_loop-IsDelivered, recover_processing-kept,
}
use yadakchi.Billing.Queue.{
  enqueue_click, enqueue_fresh, count_in_window, claim_review, processing, pending,
}
use yadakchi.Billing.Queue.Replay.{Visit, visit, uses, nonce_once}
use yadakchi.Billing.Tokens.{
  Text, good, split_dot, sign, sign_click_intent, verify_click_token, verify_parts, verify_digest,
  compare_digest, check_clock,
}
use yadakchi.Billing.Tokens.Laws.{verify-sign, verify_sound}
use yadakchi.Billing.Producer.{publish_pending}
use yadakchi.Billing.Producer.Laws.{
  unpublished, AllEvolve, publish_pending_counts, publish_pending-AllEvolve,
}
use yadakchi.Billing.Models.{OutboxEvent}
use yadakchi.Billing.Tests.Memory.{
  Memory, empty_memory, memory, memory-IsKeyStore, memory-IsQueueStore,
}
use yadakchi.Billing.Tests.Coding.{to_unary, intent_at, unary_codec, unary_codec-IsFaithful}
use yadakchi.Billing.Tests.Sample.{
  sample_env, sample_draws, sample_db, sample_click, sample_limits, parse_sample, sample_event,
}

abbrev key : Text
key = 9 ∷ []

verify-sign_example :
    (token : Text) × (sign_click_intent unary_codec key (intent_at 5) ≡ good token)
    × (verify_click_token unary_codec key 300 60 20 token ≡ good (intent_at 5))
verify-sign_example =
    verify-sign unary_codec key 300 60 20 (intent_at 5) unary_codec-IsFaithful refl (λ e. cc e)
      (omega arith) (omega arith)

abbrev token : Text
token = to_unary (5 ∷ []) ++ b'.' ∷ to_unary (7 ∷ [])

verify_sound_example :
    (payload : Text) × (raw : Text) × (split_dot token
      ≡ some (payload, unary_codec.hmac key payload))
    × (unary_codec.decode payload ≡ some raw)
    × (unary_codec.intent_of raw ≡ some (intent_at 5))
    × (5 ≤ 20 + 60)
    × (20 ≤ 5 + 300)
unfolding verify_click_token verify_parts verify_digest split_dot sign compare_digest check_clock
verify_sound_example = verify_sound unary_codec key 300 60 20 token (intent_at 5) refl

abbrev waiting : Memory
waiting = record empty_memory { pending_list = "broken" ∷ "u2" ∷ "u1" ∷ [] }

drain_loop-IsDelivered_example :
    IsDelivered memory memory-IsQueueStore sample_env sample_draws parse_sample 0 waiting sample_db
      (drain_loop memory sample_env sample_draws parse_sample 5 0 waiting sample_db)
drain_loop-IsDelivered_example =
    drain_loop-IsDelivered memory memory-IsQueueStore sample_env sample_draws parse_sample 5 0
      waiting sample_db refl

abbrev in_flight : Memory
in_flight = record empty_memory { pending_list = "u1" ∷ []; processing_list = "u2" ∷ "u3" ∷ [] }

recover_processing-kept_example :
    let (n, s') = recover_processing memory sample_env sample_draws parse_sample in_flight in
    (n ≡ 2)
    × (memory.queue processing s' ≡ [])
    × ((a : String)
        → count a (memory.queue pending s') ≡ count a ("u1" ∷ []) + count a ("u2" ∷ "u3" ∷ []))
recover_processing-kept_example =
    recover_processing-kept memory memory-IsQueueStore sample_env sample_draws parse_sample
      in_flight refl

abbrev visit_at : ℕ → Visit
visit_at t = record { click = sample_click "u1"; nonce = "n"; reasons = []; at = t }

nonce_once_example :
    uses memory sample_limits
      (λ c. c.click_id)
      (λ n. "8")
      "n"
      (visit_at 510 ∷ visit_at 799 ∷ [])
      (visit memory sample_limits (λ c. c.click_id) (λ n. "8") (visit_at 500) empty_memory).1
    ≡ 0
unfolding visit enqueue_click enqueue_fresh count_in_window claim_review
nonce_once_example =
    nonce_once memory memory-IsKeyStore sample_limits (λ c. c.click_id) (λ n. "8") "n"
      (visit_at 500) (visit_at 510 ∷ visit_at 799 ∷ []) empty_memory refl refl
      ((omega arith, omega arith), ((omega arith, omega arith), tt))

abbrev queued_events : List OutboxEvent
queued_events = sample_event 3 ∷ sample_event 2 ∷ sample_event 1 ∷ []

abbrev sometimes : OutboxEvent → Option String
sometimes e = if e.event_id == 2 then some "no broker" else none

publish_pending_counts_example :
    let (n, rows) = publish_pending sometimes (λ _. true) 800 100 queued_events in
    unpublished rows + n ≡ 3
publish_pending_counts_example = publish_pending_counts sometimes (λ _. true) 800 100 queued_events

publish_pending-AllEvolve_example :
    AllEvolve queued_events (publish_pending sometimes (λ _. true) 800 100 queued_events).1
publish_pending-AllEvolve_example =
    publish_pending-AllEvolve sometimes (λ _. true) 800 100 queued_events
