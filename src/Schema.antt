-- ===== src/Schema.antt =====
-- apps/api/prisma/schema.prisma: the rows that the booking services read and write, and the database
-- as the lists of its rows in the order of their creation. Identifiers and tokens are only compared,
-- so they are numbers; new ones are drawn from `next_id`. JSON columns hold what they are built of.
use turno_flow.Prelude.{ℕ, String, Bool, Option, List}
use turno_flow.Text.{Text}
use turno_flow.Availability.{ExceptionType}
use turno_flow.Events.{EventType}

pub data AppointmentStatus : Type 0 where
  pending confirmed cancelled_by_customer cancelled_by_business completed no_show :
      AppointmentStatus

pub data WaitlistStatus : Type 0 where
  waiting offered booked expired cancelled : WaitlistStatus

pub data WaitlistOfferStatus : Type 0 where
  pending accepted expired rejected : WaitlistOfferStatus

pub data AppointmentPaymentStatus : Type 0 where
  submitted confirmed rejected voided : AppointmentPaymentStatus

pub data EventOutboxStatus : Type 0 where
  pending published failed : EventOutboxStatus

pub data BusinessMemberRole : Type 0 where
  owner receptionist professional : BusinessMemberRole

pub record Business : Type 0 where
  pub id : ℕ
  pub owner_id : ℕ
  pub slug : Text
  pub timezone : Text
  pub manual_deposits_enabled : Bool

pub data BusinessMemberStatus : Type 0 where
  active pending_invite inactive : BusinessMemberStatus

pub record BusinessMember : Type 0 where
  pub id : ℕ
  pub business_id : ℕ
  pub user_id : Option ℕ
  pub active : Bool
  pub role : BusinessMemberRole
  pub staff_member_id : Option ℕ
  pub status : BusinessMemberStatus
  pub invite_email : Option Text
  pub invite_expires_at : Option ℕ
  pub invite_token_hash : Option ℕ

pub record Service : Type 0 where
  pub id : ℕ
  pub business_id : ℕ
  pub active : Bool
  pub duration_minutes : ℕ
  pub buffer_minutes : ℕ
  pub price_cents : ℕ
  pub deposit_enabled : Bool

pub record StaffMember : Type 0 where
  pub id : ℕ
  pub business_id : ℕ
  pub active : Bool

pub record ServiceStaffMember : Type 0 where
  pub id : ℕ
  pub service_id : ℕ
  pub staff_member_id : ℕ

pub record AvailabilityRule : Type 0 where
  pub id : ℕ
  pub business_id : ℕ
  pub staff_member_id : ℕ
  pub weekday : ℕ
  pub start_time : Text
  pub end_time : Text
  pub active : Bool

pub record AvailabilityException : Type 0 where
  pub id : ℕ
  pub business_id : ℕ
  pub staff_member_id : Option ℕ
  pub date : ℕ
  pub start_time : Text
  pub end_time : Text
  pub kind : ExceptionType

pub record Appointment : Type 0 where
  pub id : ℕ
  pub business_id : ℕ
  pub service_id : ℕ
  pub staff_member_id : ℕ
  pub customer_id : ℕ
  pub starts_at : ℕ
  pub ends_at : ℕ
  pub status : AppointmentStatus
  pub cancellation_token : ℕ
  pub recurring_series_id : Option ℕ

pub record Customer : Type 0 where
  pub id : ℕ
  pub business_id : ℕ
  pub email : Text
  pub name : Text
  pub phone : Option Text
  pub total_appointments : ℕ
  pub completed_appointments : ℕ
  pub no_show_count : ℕ

pub record Payment : Type 0 where
  pub id : ℕ
  pub business_id : ℕ
  pub appointment_id : ℕ
  pub customer_id : ℕ
  pub amount_cents : ℕ
  pub status : AppointmentPaymentStatus
  pub customer_note : Option Text
  pub internal_note : Option Text
  pub reference : Option Text
  pub confirmed_at : Option ℕ
  pub confirmed_by_user_id : Option ℕ
  pub rejected_at : Option ℕ
  pub rejected_by_user_id : Option ℕ
  pub voided_at : Option ℕ
  pub voided_by_user_id : Option ℕ

pub record WaitlistEntry : Type 0 where
  pub id : ℕ
  pub business_id : ℕ
  pub service_id : ℕ
  pub customer_id : ℕ
  pub preferred_date_start : ℕ
  pub preferred_date_end : ℕ
  pub earliest_time : Option Text
  pub latest_time : Option Text
  pub status : WaitlistStatus
  pub priority_score : ℕ

pub record WaitlistOffer : Type 0 where
  pub id : ℕ
  pub waitlist_entry_id : ℕ
  pub appointment_id : ℕ
  pub token : ℕ
  pub status : WaitlistOfferStatus
  pub expires_at : ℕ

pub data IntervalUnit : Type 0 where
  day week month : IntervalUnit

pub data RecurringSeriesStatus : Type 0 where
  active paused cancelled completed : RecurringSeriesStatus

pub record RecurringSeries : Type 0 where
  pub id : ℕ
  pub business_id : ℕ
  pub customer_id : ℕ
  pub service_id : ℕ
  pub staff_member_id : ℕ
  pub interval_value : ℕ
  pub interval_unit : IntervalUnit
  pub next_occurrence_at : ℕ
  pub advance_notice_days : ℕ
  pub status : RecurringSeriesStatus
  pub max_occurrences : Option ℕ
  pub occurrences_created : ℕ

pub record AppointmentEvent : Type 0 where
  pub appointment_id : ℕ
  pub business_id : ℕ
  pub event_type : EventType

-- The rows and values that a JSON payload spells out.
pub data Payload : Type 0 where
  appointment_payload : Appointment → (timezone : Text) → Payload
  reschedule_payload :
      Appointment → (timezone : Text) (previous_ends_at previous_starts_at : ℕ) → Payload
  offer_payload : Appointment → (status : String) (entry : Option ℕ) (offer : ℕ) → Payload
  entry_payload : (business customer service entry : ℕ) → Payload
  deposit_payload : Payment → Payload
  payment_payload : Payment → (price_cents : ℕ) → Payload
  series_payload : RecurringSeries → Payload
  business_payload : Business → Payload
  member_payload : (business member : ℕ) (role : BusinessMemberRole) → Payload
  role_payload : BusinessMemberRole → Payload
  service_payload : Service → Payload
  staff_payload : StaffMember → Payload
  assignment_payload : (service staff : ℕ) → Payload
  rule_payload : AvailabilityRule → Payload
  exception_payload : AvailabilityException → Payload
  login_payload : Business → Customer → (token : ℕ) → Payload

-- `key` names both the type and the routing key.
pub record OutboxEvent : Type 0 where
  pub id : ℕ
  pub key : EventType
  pub version : ℕ
  pub business_id : ℕ
  pub aggregate_id : ℕ
  pub payload : Payload
  pub status : EventOutboxStatus
  pub attempts : ℕ
  pub last_error : Option String
  pub published_at : Option ℕ

pub record AuditLog : Type 0 where
  pub action : String
  pub business_id : ℕ
  pub entity_id : ℕ
  pub before : Option Payload
  pub after : Option Payload
  pub user_id : Option ℕ

pub record Db : Type 0 where
  pub next_id : ℕ
  pub businesses : List Business
  pub members : List BusinessMember
  pub services : List Service
  pub staff_members : List StaffMember
  pub assignments : List ServiceStaffMember
  pub rules : List AvailabilityRule
  pub exceptions : List AvailabilityException
  pub appointments : List Appointment
  pub customers : List Customer
  pub payments : List Payment
  pub waitlist_entries : List WaitlistEntry
  pub waitlist_offers : List WaitlistOffer
  pub appointment_events : List AppointmentEvent
  pub outbox : List OutboxEvent
  pub audit_logs : List AuditLog
  pub recurring_series : List RecurringSeries
