-- ===== src/Tests/Messages.antt =====
-- The outbox at a message that the broker refuses.
use turno_flow.Prelude.{refl, ◌≤◌, arith, [], ◌∷◌, none, some, All, In, inl, inr}
use turno_flow.Schema.{OutboxEvent, EventOutboxStatus, offer_payload}
use turno_flow.Events.{EventType}
use turno_flow.Publisher.{publish_pending}
use turno_flow.Publisher.Attempts.{publish_pending-attempts, publish_pending-published}
use turno_flow.Tests.{expected_row}

abbrev message : OutboxEvent
message = record {
  id = 1;
  key = EventType.slot_released;
  version = 1;
  business_id = 1;
  aggregate_id = 11;
  payload = offer_payload expected_row "accepted" none 2;
  status = EventOutboxStatus.failed;
  attempts = 4;
  last_error = none;
  published_at = none;
}

publish_pending-attempts_example :
    All (λ r. r.attempts ≤ 5) (publish_pending none (λ _. some "refused") 7 (message ∷ []))
publish_pending-attempts_example =
    publish_pending-attempts none (λ _. some "refused") 7 (message ∷ []) (tt, tt) (omega arith, tt)

abbrev sent : OutboxEvent
sent = record message { id = 2; status = EventOutboxStatus.published }

publish_pending-published_example :
    In sent (publish_pending none (λ _. none) 7 (message ∷ sent ∷ []))
publish_pending-published_example =
    publish_pending-published none (λ _. none) 7 (message ∷ sent ∷ [])
      ((λ e. omega arith, tt), (tt, tt)) sent (inr (inl refl)) refl
