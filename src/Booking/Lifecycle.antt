-- ===== src/Booking/Lifecycle.antt =====
-- appointments.service.ts: what happens to an appointment after it is booked. `token` and
-- `business_id` arguments are those of the request; the private handlers take the business that
-- `requireCurrentBusiness` finds.
use turno_flow.Prelude.{
  ℕ, ◌+◌, ◌*◌, not, ◌&&◌, Option, none, some, Result, ok, thrown, not_found, conflict, or_throw,
  require, rethrow_as, ◌>>=◌, ◌>>◌, ltb, ◌==◌, find_first,
}
use turno_flow.Text.{Text}
use turno_flow.Time.{Runtime, minute_ms}
use turno_flow.Events.{EventType}
use turno_flow.Status.{
  PublicAppointmentStatus, is_active_status, to_prisma_appointment_status,
  build_customer_counter_update, CounterUpdate,
}
use turno_flow.Schema.{
  Db, Business, Service, Appointment, Customer, AppointmentStatus, appointment_payload,
  reschedule_payload,
}
use turno_flow.Store.{
  find_business, find_service, find_appointment, find_customer, replace_appointment,
  update_customer, record_event, outbox_create, audit_create,
}
use turno_flow.Booking.{assert_staff_member_can_take_slot, assert_business_slot_is_free}

-- Sets the status of the row and reads it again, as `tx.appointment.update` does.
unfoldable pub set_status : ℕ → AppointmentStatus → Db → Result (Db × Appointment)
set_status k status db = do
  row ← or_throw (find_appointment k db) (thrown "No Appointment found")
  let updated = record row { status = status }
  db1 ← replace_appointment updated db
  ok (db1, updated)

-- The two messages of a cancellation.
unfoldable pub announce_cancellation : ℕ → Appointment → Text → Db → Db
announce_cancellation business a zone db =
    outbox_create EventType.slot_released a.id business (appointment_payload a zone)
      (outbox_create EventType.appointment_cancelled a.id business (appointment_payload a zone) db)

-- The transaction of `cancelPublicAppointment` and `cancelAppointmentForCustomer`, for a row that
-- was read before it.
unfoldable pub cancel_in_transaction : Appointment → Db → Result (Db × Appointment)
unfolding set_status announce_cancellation
cancel_in_transaction a db = do
  business ← or_throw (find_business a.business_id db) (thrown "No Business found")
  (db1, updated) ← set_status a.id AppointmentStatus.cancelled_by_customer db
  ok (
    announce_cancellation a.business_id updated business.timezone
        (record_event a.id a.business_id EventType.appointment_cancelled db1),
    updated,
  )

-- `cancelPublicAppointment`
unfoldable pub cancel_public_appointment : ℕ → ℕ → Db → Result (Db × Appointment)
unfolding cancel_in_transaction
cancel_public_appointment k token db = do
  a ← or_throw (find_appointment k db) (not_found "Appointment not found")
  require (a.cancellation_token == token) (not_found "Appointment not found")
  require (is_active_status a.status) (conflict "Appointment is not active")
  cancel_in_transaction a db

-- `cancelAppointmentForCustomer`
unfoldable pub cancel_appointment_for_customer : ℕ → ℕ → ℕ → Db → Result (Db × Appointment)
unfolding cancel_in_transaction
cancel_appointment_for_customer business customer k db = do
  a ← or_throw (find_appointment k db) (not_found "Appointment not found")
  require (a.business_id == business && a.customer_id == customer)
      (not_found "Appointment not found")
  require (is_active_status a.status) (conflict "Appointment is not active")
  cancel_in_transaction a db

-- The statuses that the dashboard sets.
pub data Decision : Type 0 where
  confirmed completed no_show cancelled_by_business : Decision

abbrev pub decided : Decision → PublicAppointmentStatus
decided confirmed = PublicAppointmentStatus.confirmed
decided completed = PublicAppointmentStatus.completed
decided no_show = PublicAppointmentStatus.no_show
decided cancelled_by_business = PublicAppointmentStatus.cancelled_by_business

-- `appointmentStatusEventType`
abbrev pub decision_event : Decision → EventType
decision_event confirmed = EventType.appointment_confirmed
decision_event completed = EventType.appointment_completed
decision_event no_show = EventType.appointment_marked_as_no_show
decision_event cancelled_by_business = EventType.appointment_cancelled

-- The message or messages of a decision.
unfoldable pub announce_decision : Decision → ℕ → Appointment → Text → Db → Db
unfolding announce_cancellation
announce_decision cancelled_by_business business a zone db =
    announce_cancellation business a zone db
announce_decision d business a zone db =
    outbox_create (decision_event d) a.id business (appointment_payload a zone) db

-- `tx.customer.update` with the counters, if they change.
unfoldable pub write_counters : Option CounterUpdate → ℕ → Db → Db
write_counters none k db = db
write_counters (some u) k db =
    update_customer k
      (λ c. record c {
        completed_appointments = u.completed_appointments;
        no_show_count = u.no_show_count;
      })
      db

-- The transaction of `updatePrivateAppointmentStatusValue`. The appointment and its customer were
-- read before it: the new counters are computed from those copies.
unfoldable pub decide_in_transaction :
    Business → Appointment → Customer → Decision → Db → Result (Db × Appointment)
unfolding set_status write_counters announce_decision
decide_in_transaction business a customer d db = do
  let next = to_prisma_appointment_status (decided d)
  (db1, updated) ← set_status a.id next db
  let counters = build_customer_counter_update a.status next customer
  let db2 = write_counters counters a.customer_id db1
  again ← or_throw (find_appointment a.id db2) (thrown "No Appointment found")
  ok (
    announce_decision d business.id again business.timezone
        (record_event a.id business.id (decision_event d) db2),
    again,
  )

-- `updatePrivateAppointmentStatusValue`; a row's customer is there by its foreign key.
unfoldable pub update_private_appointment_status :
    Business → ℕ → Decision → Db → Result (Db × Appointment)
unfolding decide_in_transaction
update_private_appointment_status business k d db = do
  a ←
      or_throw (find_first (λ a. a.business_id == business.id && a.id == k) db.appointments)
        (not_found "Appointment not found")
  customer ← or_throw (find_customer a.customer_id db) (thrown "No Customer found")
  decide_in_transaction business a customer d db

-- The argument of `rescheduleAppointment`; `starts_at` is `none` if its text cannot be parsed.
pub record RescheduleInput : Type 0 where
  pub appointment_id : ℕ
  pub starts_at : Option ℕ
  pub staff_member_id : Option ℕ
  pub requested_by : Option ℕ

abbrev pub chosen_staff : Option ℕ → ℕ → ℕ
chosen_staff none current = current
chosen_staff (some k) current = k

-- The row of `tx.appointment.update`.
abbrev pub moved_row : RescheduleInput → ℕ → Appointment → Service → Appointment
moved_row input starts_at current service = record current {
  ends_at = starts_at + (service.duration_minutes + service.buffer_minutes) * minute_ms;
  staff_member_id = chosen_staff input.staff_member_id current.staff_member_id;
  starts_at = starts_at;
}

module _ (rt : Runtime) (now : ℕ) where
  -- The transaction from the check of the staff member on.
  unfoldable pub move_in_transaction :
      RescheduleInput → ℕ → Appointment → Business → Db → Result (Db × Appointment)
  move_in_transaction input starts_at current business db = do
    assert_staff_member_can_take_slot rt now db current.business_id current.service_id
        (chosen_staff input.staff_member_id current.staff_member_id) starts_at (some current.id)
    service ← or_throw (find_service current.service_id db) (thrown "No Service found")
    let updated = moved_row input starts_at current service
    assert_business_slot_is_free db current.business_id starts_at updated.ends_at current.id
    db1 ← replace_appointment updated db
    ok (
      outbox_create EventType.appointment_rescheduled current.id current.business_id
          (reschedule_payload updated business.timezone current.ends_at current.starts_at)
          (audit_create
            (record {
              action = "appointment.rescheduled";
              business_id = current.business_id;
              entity_id = current.id;
              before = some (appointment_payload current business.timezone);
              after = some (appointment_payload updated business.timezone);
              user_id = input.requested_by;
            })
            (record_event current.id current.business_id EventType.appointment_rescheduled db1)),
      updated,
    )

  unfoldable pub reschedule_in_transaction : RescheduleInput → ℕ → Db → Result (Db × Appointment)
  unfolding move_in_transaction
  reschedule_in_transaction input starts_at db = do
    current ←
        or_throw (find_appointment input.appointment_id db) (not_found "Appointment not found")
    require (is_active_status current.status)
        (conflict "Only active appointments can be rescheduled")
    require (not (starts_at == current.starts_at)) (conflict "Choose a different appointment time")
    business ← or_throw (find_business current.business_id db) (thrown "No Business found")
    move_in_transaction input starts_at current business db

  -- `rescheduleAppointment`
  unfoldable pub reschedule_appointment : RescheduleInput → Db → Result (Db × Appointment)
  unfolding reschedule_in_transaction
  reschedule_appointment input db = do
    starts_at ← or_throw input.starts_at (conflict "Invalid appointment start date")
    require (ltb now starts_at) (conflict "Cannot reschedule an appointment to the past")
    rethrow_as (conflict "Appointment slot is no longer available")
        (reschedule_in_transaction input starts_at db)
