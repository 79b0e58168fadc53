-- ===== src/Store.antt =====
-- The database client's calls. A query by identifier takes the first row; a write that breaks the
-- exclusion constraint of the appointments table fails, and with it the transaction, whose state is
-- dropped: a transaction is a function from `Db` to a result that holds the new `Db`.
pub mod Sound
pub mod Replacements
use turno_flow.Prelude.{
  ℕ, suc, ◌+◌, List, [], ◌∷◌, ◌++◌, String, Bool, true, false, not, ◌&&◌, ◌||◌, Option, none, some,
  Result, ok, err, constraint, thrown, or_throw, require, ◌>>=◌, ◌>>◌, ltb, leb, ◌==◌,
  if◌then◌else◌, any, find_first, update_where, In,
}
use turno_flow.Status.{is_active_status}
use turno_flow.Events.{EventType}
use turno_flow.Schema.{
  Db, Business, Service, StaffMember, Appointment, Customer, AppointmentEvent, OutboxEvent, Payload,
  AuditLog, EventOutboxStatus,
}

unfoldable pub find_business : ℕ → Db → Option Business
find_business k db = find_first (λ b. b.id == k) db.businesses

unfoldable pub find_service : ℕ → Db → Option Service
find_service k db = find_first (λ s. s.id == k) db.services

unfoldable pub find_appointment : ℕ → Db → Option Appointment
find_appointment k db = find_first (λ a. a.id == k) db.appointments

unfoldable pub find_customer : ℕ → Db → Option Customer
find_customer k db = find_first (λ c. c.id == k) db.customers

-- `tstzrange(starts_at, ends_at, '[)') && …`: both ranges have an instant, and they share one.
abbrev pub ranges_overlap : ℕ → ℕ → ℕ → ℕ → Bool
ranges_overlap s e s' e' = ltb s e && ltb s' e' && ltb s e' && ltb s' e

-- The constraint `appointments_active_staff_no_overlap` on a pair of rows.
abbrev pub excludes : Appointment → Appointment → Bool
excludes a b =
    not (a.id == b.id)
    && is_active_status a.status
    && is_active_status b.status
    && a.staff_member_id == b.staff_member_id
    && ranges_overlap a.starts_at a.ends_at b.starts_at b.ends_at

-- An active row has a range with its bounds in order, and no other row excludes it.
abbrev pub admits : Appointment → List Appointment → Bool
admits a rows =
    not (is_active_status a.status) || (leb a.starts_at a.ends_at && not (any (excludes a) rows))

-- `tx.appointment.create`, for a row with a new identifier.
unfoldable pub insert_appointment : Appointment → Db → Result Db
insert_appointment a db = do
  require (admits a db.appointments) constraint
  ok (record db { appointments = db.appointments ++ a ∷ [] })

-- `tx.appointment.update` by identifier, to the row `a`.
unfoldable pub replace_appointment : Appointment → Db → Result Db
replace_appointment a db = do
  require (admits a db.appointments) constraint
  ok (record db { appointments = update_where (λ b. b.id == a.id) (λ _. a) db.appointments })

-- `tx.customer.update` by identifier.
unfoldable pub update_customer : ℕ → (Customer → Customer) → Db → Db
update_customer k f db = record db { customers = update_where (λ c. c.id == k) f db.customers }

-- `tx.appointmentEvent.create`
unfoldable pub record_event : ℕ → ℕ → EventType → Db → Db
record_event appointment business key db = record db {
  appointment_events =
      db.appointment_events
      ++ record { appointment_id = appointment; business_id = business; event_type = key } ∷ [];
}

-- `OutboxService.create`
unfoldable pub outbox_create : EventType → ℕ → ℕ → Payload → Db → Db
outbox_create key aggregate business payload db = record db {
  next_id = suc db.next_id;
  outbox =
      db.outbox
      ++ record {
        id = db.next_id;
        key = key;
        version = 1;
        business_id = business;
        aggregate_id = aggregate;
        payload = payload;
        status = EventOutboxStatus.pending;
        attempts = 0;
        last_error = none;
        published_at = none;
      }
        ∷ [];
}

-- `AuditService.create`
unfoldable pub audit_create : AuditLog → Db → Db
audit_create log db = record db { audit_logs = db.audit_logs ++ log ∷ [] }
