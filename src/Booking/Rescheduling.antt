-- ===== src/Booking/Rescheduling.antt =====
-- What a rescheduling that succeeds went through, and the invariant of the booking tables.
use turno_flow.Prelude.{
  ℕ, ◌≡◌, refl, sym, ap, subst, true, not, some, arith, ok, thrown, not_found, conflict, require,
  require-eq-ok, or_throw, or_throw-eq-ok, rethrow_as-eq-ok, bind_elim, ok-injective, ◌==◌, ltb,
  find_first_sound,
}
use turno_flow.Time.{Runtime}
use turno_flow.Status.{is_active_status}
use turno_flow.Schema.{Db, Business, Service, Appointment}
use turno_flow.Store.{
  replace_appointment, outbox_create, record_event, find_appointment, find_business, find_service,
  audit_create,
}
use turno_flow.Store.Sound.{IsSound}
use turno_flow.Store.Replacements.{Sound-moved}
use turno_flow.Booking.{assert_staff_member_can_take_slot, assert_business_slot_is_free}
use turno_flow.Booking.Lifecycle.{
  RescheduleInput, reschedule_in_transaction, reschedule_appointment, move_in_transaction,
  moved_row, chosen_staff,
}
use turno_flow.Booking.Changes.{Later, Later-IsSound, replace_appointment-eq-ok, find_own}

module _ (rt : Runtime) (now : ℕ) (input : RescheduleInput) (starts_at : ℕ) (db : Db) where
  -- The steps of the transaction from the check of the staff member on.
  pub record Moved (current : Appointment) (db' : Db) (a : Appointment) : Type 0 where
    pub service : Service
    pub db1 : Db
    pub free :
        assert_staff_member_can_take_slot rt now db current.business_id current.service_id
          (chosen_staff input.staff_member_id current.staff_member_id)
          starts_at
          (some current.id)
        ≡ ok tt
    pub offered : find_service current.service_id db ≡ some service
    pub unoccupied :
        assert_business_slot_is_free db current.business_id starts_at
          (moved_row input starts_at current service).ends_at
          current.id
        ≡ ok tt
    pub replaced : replace_appointment (moved_row input starts_at current service) db ≡ ok db1
    pub tables : Later db1 db'
    pub result : a ≡ moved_row input starts_at current service

  move_in_transaction-eq-ok :
      (current : Appointment) (business : Business) {db' : Db} {a : Appointment}
      → move_in_transaction rt now input starts_at current business db ≡ ok (db', a)
      → Moved current db' a
  unfolding move_in_transaction outbox_create audit_create record_event
  move_in_transaction-eq-ok current business {db'} {a} h =
      bind_elim
        (assert_staff_member_can_take_slot rt now db current.business_id current.service_id
          (chosen_staff input.staff_member_id current.staff_member_id) starts_at (some current.id))
        _ h
        (λ _ e1 h1.
          bind_elim (or_throw (find_service current.service_id db) (thrown "No Service found")) _ h1
            (λ service e2 h2.
              let row = moved_row input starts_at current service in
              bind_elim
                (assert_business_slot_is_free db current.business_id starts_at row.ends_at
                  current.id)
                _ h2
                (λ _ e3 h3. bind_elim (replace_appointment row db) _ h3 (λ db1 e4 h4.
                  let written = ap (λ p. p.0) (ok-injective h4) in
                  record {
                    service = service;
                    db1 = db1;
                    free = e1;
                    offered =
                        or_throw-eq-ok (find_service current.service_id db)
                          (thrown "No Service found") e2;
                    unoccupied = e3;
                    replaced = e4;
                    tables = subst (Later db1) written (omega arith, refl, refl);
                    result = sym (ap (λ p. p.1) (ok-injective h4));
                  }))))

  -- The steps of the whole transaction.
  pub record Rescheduled (db' : Db) (a : Appointment) : Type 0 where
    pub current : Appointment
    pub found : find_appointment input.appointment_id db ≡ some current
    pub active : is_active_status current.status ≡ true
    pub elsewhere : not (starts_at == current.starts_at) ≡ true
    pub moved : Moved current db' a

  pub reschedule_in_transaction-eq-ok :
      {db' : Db} {a : Appointment}
      → reschedule_in_transaction rt now input starts_at db ≡ ok (db', a)
      → Rescheduled db' a
  unfolding reschedule_in_transaction
  reschedule_in_transaction-eq-ok {db'} {a} h =
      bind_elim
        (or_throw (find_appointment input.appointment_id db) (not_found "Appointment not found")) _
        h
        (λ current e1 h1.
          bind_elim
            (require (is_active_status current.status)
              (conflict "Only active appointments can be rescheduled"))
            _ h1
            (λ _ e2 h2.
              bind_elim
                (require (not (starts_at == current.starts_at))
                  (conflict "Choose a different appointment time"))
                _ h2
                (λ _ e3 h3.
                  bind_elim
                    (or_throw (find_business current.business_id db) (thrown "No Business found")) _
                    h3
                    (λ business e4 h4. record {
                      current = current;
                      found =
                          or_throw-eq-ok (find_appointment input.appointment_id db)
                            (not_found "Appointment not found") e1;
                      active = require-eq-ok (is_active_status current.status) _ e2;
                      elsewhere = require-eq-ok (not (starts_at == current.starts_at)) _ e3;
                      moved = move_in_transaction-eq-ok current business h4;
                    }))))

  reschedule_in_transaction-IsSound :
      {db' : Db} {a : Appointment}
      → IsSound db
      → reschedule_in_transaction rt now input starts_at db ≡ ok (db', a)
      → IsSound db'
  unfolding find_appointment
  reschedule_in_transaction-IsSound {db'} s h =
      let run = reschedule_in_transaction-eq-ok h in
      let row = moved_row input starts_at run.current run.moved.service in
      let (fits, written) = replace_appointment-eq-ok row db run.moved.replaced in
      let listed =
        (find_first_sound (λ a. a.id == input.appointment_id) db.appointments run.found).0 in
      Later-IsSound run.moved.db1 db' run.moved.tables (
        subst IsSound written (
          Sound-moved run.current row db.appointments db.next_id db.customers (find_own db s listed)
            refl refl refl fits s))

module _ (rt : Runtime) (now : ℕ) where
  -- `rescheduleAppointment`
  pub reschedule_appointment-IsSound :
      (input : RescheduleInput) (db db' : Db) {a : Appointment}
      → IsSound db
      → reschedule_appointment rt now input db ≡ ok (db', a)
      → IsSound db'
  unfolding reschedule_appointment
  reschedule_appointment-IsSound input db db' {a} s h =
      bind_elim (or_throw input.starts_at (conflict "Invalid appointment start date")) _ h
        (λ starts_at e1 h1.
          bind_elim
            (require (ltb now starts_at) (conflict "Cannot reschedule an appointment to the past"))
            _ h1
            (λ _ e2 h2. reschedule_in_transaction-IsSound rt now input starts_at db s (
              rethrow_as-eq-ok (conflict "Appointment slot is no longer available")
                (reschedule_in_transaction rt now input starts_at db) h2)))
