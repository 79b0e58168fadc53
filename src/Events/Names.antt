-- ===== src/Events/Names.antt =====
-- events/event-types.ts: names and routing keys of the event types, which consumers bind to.
use text.Mathlib.Text.{◌==◌ as str_eq}
use turno_flow.Prelude.{
  String, ◌≡◌, refl, Option, none, some, if◌then◌else◌, ap, sym, ◌∙◌, List, [], ◌∷◌,
}
use turno_flow.Events.{EventType, type_name, routing_key}

-- All of them, in the order of the source.
abbrev event_types : List EventType
event_types =
    EventType.business_created ∷ EventType.appointment_booked ∷ EventType.appointment_confirmed
    ∷ EventType.appointment_cancelled ∷ EventType.appointment_completed
    ∷ EventType.appointment_marked_as_no_show ∷ EventType.appointment_marked_no_show
    ∷ EventType.appointment_rescheduled ∷ EventType.appointment_reminder_due
    ∷ EventType.appointment_deposit_submitted ∷ EventType.appointment_deposit_confirmed
    ∷ EventType.appointment_deposit_rejected ∷ EventType.appointment_deposit_voided
    ∷ EventType.audit_log_created ∷ EventType.customer_risk_score_updated
    ∷ EventType.daily_metrics_calculated ∷ EventType.reminder_failed ∷ EventType.reminder_scheduled
    ∷ EventType.reminder_sent ∷ EventType.availability_exception_created
    ∷ EventType.availability_rule_created ∷ EventType.service_created ∷ EventType.slot_reassigned
    ∷ EventType.slot_released ∷ EventType.waitlist_candidate_matched
    ∷ EventType.waitlist_entry_created ∷ EventType.waitlist_offer_accepted
    ∷ EventType.waitlist_offer_created ∷ EventType.waitlist_offer_expired
    ∷ EventType.waitlist_offer_rejected ∷ EventType.metrics_recalculate
    ∷ EventType.staff_member_created ∷ EventType.staff_member_updated
    ∷ EventType.staff_member_deactivated ∷ EventType.member_invited ∷ EventType.member_accepted
    ∷ EventType.member_role_changed ∷ EventType.recurring_series_created
    ∷ EventType.recurring_appointment_scheduled ∷ EventType.recurring_series_completed
    ∷ EventType.recurring_series_conflict ∷ EventType.customer_portal_login_requested ∷ []

abbrev first_with : (EventType → String) → String → List EventType → Option EventType
first_with f s [] = none
first_with f s (e ∷ es) = if str_eq (f e) s then some e else first_with f s es

first_with-routing_key :
    (e : EventType) → first_with routing_key (routing_key e) event_types ≡ some e
unfolding routing_key
first_with-routing_key EventType.business_created = refl
first_with-routing_key EventType.appointment_booked = refl
first_with-routing_key EventType.appointment_confirmed = refl
first_with-routing_key EventType.appointment_cancelled = refl
first_with-routing_key EventType.appointment_completed = refl
first_with-routing_key EventType.appointment_marked_as_no_show = refl
first_with-routing_key EventType.appointment_marked_no_show = refl
first_with-routing_key EventType.appointment_rescheduled = refl
first_with-routing_key EventType.appointment_reminder_due = refl
first_with-routing_key EventType.appointment_deposit_submitted = refl
first_with-routing_key EventType.appointment_deposit_confirmed = refl
first_with-routing_key EventType.appointment_deposit_rejected = refl
first_with-routing_key EventType.appointment_deposit_voided = refl
first_with-routing_key EventType.audit_log_created = refl
first_with-routing_key EventType.customer_risk_score_updated = refl
first_with-routing_key EventType.daily_metrics_calculated = refl
first_with-routing_key EventType.reminder_failed = refl
first_with-routing_key EventType.reminder_scheduled = refl
first_with-routing_key EventType.reminder_sent = refl
first_with-routing_key EventType.availability_exception_created = refl
first_with-routing_key EventType.availability_rule_created = refl
first_with-routing_key EventType.service_created = refl
first_with-routing_key EventType.slot_reassigned = refl
first_with-routing_key EventType.slot_released = refl
first_with-routing_key EventType.waitlist_candidate_matched = refl
first_with-routing_key EventType.waitlist_entry_created = refl
first_with-routing_key EventType.waitlist_offer_accepted = refl
first_with-routing_key EventType.waitlist_offer_created = refl
first_with-routing_key EventType.waitlist_offer_expired = refl
first_with-routing_key EventType.waitlist_offer_rejected = refl
first_with-routing_key EventType.metrics_recalculate = refl
first_with-routing_key EventType.staff_member_created = refl
first_with-routing_key EventType.staff_member_updated = refl
first_with-routing_key EventType.staff_member_deactivated = refl
first_with-routing_key EventType.member_invited = refl
first_with-routing_key EventType.member_accepted = refl
first_with-routing_key EventType.member_role_changed = refl
first_with-routing_key EventType.recurring_series_created = refl
first_with-routing_key EventType.recurring_appointment_scheduled = refl
first_with-routing_key EventType.recurring_series_completed = refl
first_with-routing_key EventType.recurring_series_conflict = refl
first_with-routing_key EventType.customer_portal_login_requested = refl

first_with-type_name : (e : EventType) → first_with type_name (type_name e) event_types ≡ some e
unfolding type_name
first_with-type_name EventType.business_created = refl
first_with-type_name EventType.appointment_booked = refl
first_with-type_name EventType.appointment_confirmed = refl
first_with-type_name EventType.appointment_cancelled = refl
first_with-type_name EventType.appointment_completed = refl
first_with-type_name EventType.appointment_marked_as_no_show = refl
first_with-type_name EventType.appointment_marked_no_show = refl
first_with-type_name EventType.appointment_rescheduled = refl
first_with-type_name EventType.appointment_reminder_due = refl
first_with-type_name EventType.appointment_deposit_submitted = refl
first_with-type_name EventType.appointment_deposit_confirmed = refl
first_with-type_name EventType.appointment_deposit_rejected = refl
first_with-type_name EventType.appointment_deposit_voided = refl
first_with-type_name EventType.audit_log_created = refl
first_with-type_name EventType.customer_risk_score_updated = refl
first_with-type_name EventType.daily_metrics_calculated = refl
first_with-type_name EventType.reminder_failed = refl
first_with-type_name EventType.reminder_scheduled = refl
first_with-type_name EventType.reminder_sent = refl
first_with-type_name EventType.availability_exception_created = refl
first_with-type_name EventType.availability_rule_created = refl
first_with-type_name EventType.service_created = refl
first_with-type_name EventType.slot_reassigned = refl
first_with-type_name EventType.slot_released = refl
first_with-type_name EventType.waitlist_candidate_matched = refl
first_with-type_name EventType.waitlist_entry_created = refl
first_with-type_name EventType.waitlist_offer_accepted = refl
first_with-type_name EventType.waitlist_offer_created = refl
first_with-type_name EventType.waitlist_offer_expired = refl
first_with-type_name EventType.waitlist_offer_rejected = refl
first_with-type_name EventType.metrics_recalculate = refl
first_with-type_name EventType.staff_member_created = refl
first_with-type_name EventType.staff_member_updated = refl
first_with-type_name EventType.staff_member_deactivated = refl
first_with-type_name EventType.member_invited = refl
first_with-type_name EventType.member_accepted = refl
first_with-type_name EventType.member_role_changed = refl
first_with-type_name EventType.recurring_series_created = refl
first_with-type_name EventType.recurring_appointment_scheduled = refl
first_with-type_name EventType.recurring_series_completed = refl
first_with-type_name EventType.recurring_series_conflict = refl
first_with-type_name EventType.customer_portal_login_requested = refl

some-eq : (a b : EventType) → some a ≡ some b → a ≡ b
some-eq a b h = cc h

-- Two event types with one routing key, or with one name, are the same event type.
pub routing_key_injective :
    (a b : EventType)
    → (routing_key a ≡ routing_key b → a ≡ b) × (type_name a ≡ type_name b → a ≡ b)
routing_key_injective a b = (
  λ h. some-eq a b (
      sym (first_with-routing_key a)
      ∙ ap (λ s. first_with routing_key s event_types) h
      ∙ first_with-routing_key b),
  λ h. some-eq a b (
      sym (first_with-type_name a)
      ∙ ap (λ s. first_with type_name s event_types) h
      ∙ first_with-type_name b),
)
