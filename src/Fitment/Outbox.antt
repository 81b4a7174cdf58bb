-- ===== src/Fitment/Outbox.antt =====
-- The outbox of fitment/producer.py.
use yadakchi.Prelude.{
  ℕ, String, Bool, false, ◌&&◌, none, List, ◌∷◌, if◌then◌else◌, str_eq, exists, length,
}
use yadakchi.Fitment.Models.{
  Claim, SemanticPayload, Payload, fitted_payload, review_payload, DedupeKey, fitted_key,
  request_key, OutboxEvent, FitmentDb, Env,
}

abbrev pub dedupe_key_eq : DedupeKey → DedupeKey → Bool
dedupe_key_eq (fitted_key a h) (fitted_key b k) = str_eq a b && str_eq h k
dedupe_key_eq (request_key a) (request_key b) = str_eq a b
dedupe_key_eq _ _ = false

abbrev pub is_queued : DedupeKey → List OutboxEvent → Bool
is_queued key = exists (λ e. dedupe_key_eq e.dedupe_key key)

-- `queue_event`, for its effect.
unfoldable pub queue_event :
    Env → String → String → Payload → String → DedupeKey → FitmentDb → FitmentDb
queue_event env event_type message_key payload trace_id dedupe_key db =
    if is_queued dedupe_key db.outbox then db else record db {
      outbox =
          record {
            event_id = env.uuid4 (length db.outbox);
            event_type = event_type;
            message_key = message_key;
            payload = payload;
            trace_id = trace_id;
            dedupe_key = dedupe_key;
            published_at = none;
            publish_attempts = 0;
          }
          ∷ db.outbox;
    }

unfoldable pub queue_fitted :
    Env → String → SemanticPayload → ℕ → String → String → FitmentDb → FitmentDb
queue_fitted env offer_uid payload computed_at semantic_hash trace_id =
    queue_event env "offers.fitted" offer_uid (fitted_payload payload computed_at) trace_id
      (fitted_key offer_uid semantic_hash)

unfoldable pub queue_review_request :
    Env → String → String → String → List Claim → List Claim → String → FitmentDb → FitmentDb
queue_review_request env request_uid part_number vehicle_slug positives negatives trace_id =
    queue_event env "review.requested" request_uid
      (review_payload request_uid part_number vehicle_slug positives negatives env.now) trace_id
      (request_key request_uid)
