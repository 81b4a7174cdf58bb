-- ===== src/Billing/Producer.antt =====
-- billing/producer.py: sending the outbox to Kafka. The publisher is a parameter: for each event
-- and attempt it delivers, or fails with a text.
pub mod Laws
use yadakchi.Prelude.{
  ℕ, ◌+◌, String, Bool, true, false, not, ◌&&◌, Option, none, some, List, [], ◌∷◌, reverse, ◌==◌,
  if◌then◌else◌, is_some, take, select, update_where, length,
}
use yadakchi.Billing.Models.{OutboxEvent}

-- `none` is a delivery, `some text` an exception.
abbrev pub Publisher : Type 0
Publisher = OutboxEvent → Option String

abbrev pub is_unpublished : OutboxEvent → Bool
is_unpublished e = not (is_some e.published_at)

abbrev pub has_id : ℕ → OutboxEvent → Bool
has_id id e = e.event_id == id

-- `update(publish_attempts=F("publish_attempts") + 1)`
abbrev pub attempted : OutboxEvent → OutboxEvent
attempted e = record e { publish_attempts = e.publish_attempts + 1 }

abbrev pub failed_with : String → OutboxEvent → OutboxEvent
failed_with text e = record e { last_error = text }

abbrev pub delivered_at : ℕ → OutboxEvent → OutboxEvent
delivered_at now e = record e { published_at = some now; last_error = "" }

-- The update under `published_at__isnull=True`, and the number of rows that it changed.
unfoldable pub mark_delivered : ℕ → ℕ → List OutboxEvent → ℕ × List OutboxEvent
mark_delivered id now rows = (
  length (select (λ e. has_id id e && is_unpublished e) rows),
  update_where (λ e. has_id id e && is_unpublished e) (delivered_at now) rows,
)

unfoldable pub publish_one :
    ℕ → OutboxEvent → Option String → List OutboxEvent → ℕ × List OutboxEvent
unfolding mark_delivered
publish_one now e none rows = mark_delivered e.event_id now rows
publish_one now e (some text) rows = (0, update_where (has_id e.event_id) (failed_with text) rows)

-- The loop over the events that were read.
unfoldable pub publish_each :
    Publisher
    → (OutboxEvent → Bool)
    → ℕ
    → List OutboxEvent
    → List OutboxEvent
    → ℕ × List OutboxEvent
publish_each publisher wanted now [] rows = (0, rows)
publish_each publisher wanted now (e ∷ es) rows =
    let attempt = update_where (has_id e.event_id) attempted rows in
    let (n, rows') = if wanted e then publish_one now e (publisher e) attempt else (0, rows) in
    let (m, rows'') = publish_each publisher wanted now es rows' in (n + m, rows'')

-- `publish_pending`: the table is newest first, and `ordering = ["created_at"]` reads oldest first.
-- `wanted` is `event_filter`.
unfoldable pub publish_pending :
    Publisher → (OutboxEvent → Bool) → ℕ → ℕ → List OutboxEvent → ℕ × List OutboxEvent
publish_pending publisher wanted now limit rows =
    publish_each publisher wanted now (take limit (select is_unpublished (reverse rows))) rows
