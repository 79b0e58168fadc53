-- ===== src/Events.antt =====
-- apps/api/src/events: the event types with their routing keys (event-types.ts), and the outbox
-- rows that the services write in their transactions (outbox.service.ts).
pub mod Names
use turno_flow.Prelude.{ℕ, String, List, [], ◌∷◌, ◌++◌}

-- The keys of `EventTypes` and `EventRoutingKeys`.
pub data EventType : Type 0 where
  business_created appointment_booked appointment_confirmed appointment_cancelled : EventType
  appointment_completed appointment_marked_as_no_show appointment_marked_no_show : EventType
  appointment_rescheduled appointment_reminder_due appointment_deposit_submitted : EventType
  appointment_deposit_confirmed appointment_deposit_rejected appointment_deposit_voided : EventType
  audit_log_created customer_risk_score_updated daily_metrics_calculated reminder_failed : EventType
  reminder_scheduled reminder_sent availability_exception_created availability_rule_created :
      EventType
  service_created slot_reassigned slot_released waitlist_candidate_matched : EventType
  waitlist_entry_created waitlist_offer_accepted waitlist_offer_created waitlist_offer_expired :
      EventType
  waitlist_offer_rejected metrics_recalculate staff_member_created staff_member_updated : EventType
  staff_member_deactivated member_invited member_accepted member_role_changed : EventType
  recurring_series_created recurring_appointment_scheduled recurring_series_completed : EventType
  recurring_series_conflict customer_portal_login_requested : EventType

-- `EventTypes[key]`
unfoldable pub type_name : EventType → String
type_name business_created = "BusinessCreated"
type_name appointment_booked = "AppointmentBooked"
type_name appointment_confirmed = "AppointmentConfirmed"
type_name appointment_cancelled = "AppointmentCancelled"
type_name appointment_completed = "AppointmentCompleted"
type_name appointment_marked_as_no_show = "AppointmentMarkedAsNoShow"
type_name appointment_marked_no_show = "AppointmentMarkedNoShow"
type_name appointment_rescheduled = "AppointmentRescheduled"
type_name appointment_reminder_due = "AppointmentReminderDue"
type_name appointment_deposit_submitted = "AppointmentDepositSubmitted"
type_name appointment_deposit_confirmed = "AppointmentDepositConfirmed"
type_name appointment_deposit_rejected = "AppointmentDepositRejected"
type_name appointment_deposit_voided = "AppointmentDepositVoided"
type_name audit_log_created = "AuditLogCreated"
type_name customer_risk_score_updated = "CustomerRiskScoreUpdated"
type_name daily_metrics_calculated = "DailyMetricsCalculated"
type_name reminder_failed = "ReminderFailed"
type_name reminder_scheduled = "ReminderScheduled"
type_name reminder_sent = "ReminderSent"
type_name availability_exception_created = "AvailabilityExceptionCreated"
type_name availability_rule_created = "AvailabilityRuleCreated"
type_name service_created = "ServiceCreated"
type_name slot_reassigned = "SlotReassigned"
type_name slot_released = "SlotReleased"
type_name waitlist_candidate_matched = "WaitlistCandidateMatched"
type_name waitlist_entry_created = "WaitlistEntryCreated"
type_name waitlist_offer_accepted = "WaitlistOfferAccepted"
type_name waitlist_offer_created = "WaitlistOfferCreated"
type_name waitlist_offer_expired = "WaitlistOfferExpired"
type_name waitlist_offer_rejected = "WaitlistOfferRejected"
type_name metrics_recalculate = "MetricsRecalculate"
type_name staff_member_created = "StaffMemberCreated"
type_name staff_member_updated = "StaffMemberUpdated"
type_name staff_member_deactivated = "StaffMemberDeactivated"
type_name member_invited = "MemberInvited"
type_name member_accepted = "MemberAccepted"
type_name member_role_changed = "MemberRoleChanged"
type_name recurring_series_created = "RecurringSeriesCreated"
type_name recurring_appointment_scheduled = "RecurringAppointmentScheduled"
type_name recurring_series_completed = "RecurringSeriesCompleted"
type_name recurring_series_conflict = "RecurringSeriesConflict"
type_name customer_portal_login_requested = "CustomerPortalLoginRequested"

-- `EventRoutingKeys[key]`
unfoldable pub routing_key : EventType → String
routing_key business_created = "business.created"
routing_key appointment_booked = "appointment.booked"
routing_key appointment_confirmed = "appointment.confirmed"
routing_key appointment_cancelled = "appointment.cancelled"
routing_key appointment_completed = "appointment.completed"
routing_key appointment_marked_as_no_show = "appointment.no_show"
routing_key appointment_marked_no_show = "appointment.marked_no_show"
routing_key appointment_rescheduled = "appointment.rescheduled"
routing_key appointment_reminder_due = "notification.reminder_due"
routing_key appointment_deposit_submitted = "payment.deposit_submitted"
routing_key appointment_deposit_confirmed = "payment.deposit_confirmed"
routing_key appointment_deposit_rejected = "payment.deposit_rejected"
routing_key appointment_deposit_voided = "payment.deposit_voided"
routing_key audit_log_created = "audit.created"
routing_key customer_risk_score_updated = "customer.risk_score_updated"
routing_key daily_metrics_calculated = "metrics.daily_calculated"
routing_key reminder_failed = "reminder.failed"
routing_key reminder_scheduled = "reminder.scheduled"
routing_key reminder_sent = "reminder.sent"
routing_key availability_exception_created = "availability.exception_created"
routing_key availability_rule_created = "availability.rule_created"
routing_key service_created = "service.created"
routing_key slot_reassigned = "slot.reassigned"
routing_key slot_released = "slot.released"
routing_key waitlist_candidate_matched = "waitlist.candidate_matched"
routing_key waitlist_entry_created = "waitlist.entry_created"
routing_key waitlist_offer_accepted = "waitlist.offer_accepted"
routing_key waitlist_offer_created = "waitlist.offer_created"
routing_key waitlist_offer_expired = "waitlist.offer_expired"
routing_key waitlist_offer_rejected = "waitlist.offer_rejected"
routing_key metrics_recalculate = "metrics.recalculate"
routing_key staff_member_created = "staff.created"
routing_key staff_member_updated = "staff.updated"
routing_key staff_member_deactivated = "staff.deactivated"
routing_key member_invited = "member.invited"
routing_key member_accepted = "member.accepted"
routing_key member_role_changed = "member.role_changed"
routing_key recurring_series_created = "recurring.series_created"
routing_key recurring_appointment_scheduled = "recurring.appointment_scheduled"
routing_key recurring_series_completed = "recurring.series_completed"
routing_key recurring_series_conflict = "recurring.conflict"
routing_key customer_portal_login_requested = "customer.portal_login_requested"
