-- ===== src/Publisher.antt =====
-- apps/api/src/events/event-publisher.service.ts: the outbox's messages on their way to the broker.
-- What the broker does is given: `channel` is the error of opening a channel, if there is one, and
-- `publish` the error with which a message is refused.
pub mod Attempts
use turno_flow.Prelude.{
  ℕ, suc, zero, ◌+◌, List, [], ◌∷◌, String, Bool, true, false, ◌&&◌, Option, none, some, ltb, ◌==◌,
  keep, update_where, if◌then◌else◌,
}
use turno_flow.Schema.{OutboxEvent, EventOutboxStatus}

abbrev pub max_attempts : ℕ
max_attempts = 5

abbrev pub is_pending_or_failed : EventOutboxStatus → Bool
is_pending_or_failed EventOutboxStatus.pending = true
is_pending_or_failed EventOutboxStatus.failed = true
is_pending_or_failed EventOutboxStatus.published = false

-- The condition of the query of `publishPending`.
abbrev pub is_publishable : OutboxEvent → Bool
is_publishable e = ltb e.attempts max_attempts && is_pending_or_failed e.status

abbrev pub take {ℓ} : {A : Type ℓ} → ℕ → List A → List A
take zero xs = []
take (suc n) [] = []
take (suc n) (x ∷ xs) = x ∷ take n xs

-- The rows that `markFailed` and a confirmed message leave.
abbrev pub failed_row : String → OutboxEvent → OutboxEvent
failed_row message r = record r {
  attempts = r.attempts + 1;
  last_error = some message;
  status = EventOutboxStatus.failed;
}

abbrev pub published_row : ℕ → OutboxEvent → OutboxEvent
published_row now r = record r {
  last_error = none;
  published_at = some now;
  status = EventOutboxStatus.published;
}

abbrev pub answered : ℕ → Option String → OutboxEvent → OutboxEvent
answered now none = published_row now
answered now (some message) = failed_row message

-- One round over the batch: each message's row is updated by its identifier.
unfoldable pub publish_batch :
    (OutboxEvent → Option String) → ℕ → List OutboxEvent → List OutboxEvent → List OutboxEvent
publish_batch publish now [] outbox = outbox
publish_batch publish now (e ∷ es) outbox =
    publish_batch publish now es
      (update_where (λ r. r.id == e.id) (answered now (publish e)) outbox)

-- A channel that cannot be opened refuses every message.
abbrev pub through : Option String → (OutboxEvent → Option String) → OutboxEvent → Option String
through none publish = publish
through (some message) publish = λ _. some message

-- `publishPending` on the outbox, whose rows stand in the order of their creation.
unfoldable pub publish_pending :
    Option String → (OutboxEvent → Option String) → ℕ → List OutboxEvent → List OutboxEvent
unfolding publish_batch
publish_pending channel publish now outbox =
    publish_batch (through channel publish) now (take 25 (keep is_publishable outbox)) outbox
