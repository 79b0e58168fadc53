-- ===== src/Booking/Cancellation.antt =====
-- appointments.service.ts: `cancelPublicAppointment` and the table after it.
use turno_flow.Prelude.{
  ℕ, ◌≡◌, refl, sym, ◌∙◌, ap, subst, true, some, arith, ok, err, thrown, not_found, conflict,
  require, require-eq-ok, or_throw, or_throw-eq-ok, bind_elim, ok-injective, ◌==◌, find_first,
  find_first_sound, find_first-update_where, update_where, In,
}
use turno_flow.Schema.{Db, Appointment, AppointmentStatus}
use turno_flow.Status.{is_active_status}
use turno_flow.Store.{find_appointment, find_business, record_event}
use turno_flow.Store.Sound.{IsSound}
use turno_flow.Booking.Lifecycle.{set_status, cancel_in_transaction, cancel_public_appointment}
use turno_flow.Booking.Changes.{set_status-eq-ok, set_own, find_own, announce_cancellation-Later}
use turno_flow.Events.{EventType}

abbrev pub cancelled : Appointment → Appointment
cancelled a = record a { status = AppointmentStatus.cancelled_by_customer }

-- The table after the transaction holds the cancelled row in place of the row that was read.
cancel_in_transaction-appointments :
    (a : Appointment) (db : Db) {db' : Db} {b : Appointment}
    → IsSound db
    → In a db.appointments
    → cancel_in_transaction a db ≡ ok (db', b)
    → (b ≡ cancelled a)
      × (db'.appointments ≡ update_where (λ c. c.id == a.id) (λ _. cancelled a) db.appointments)
unfolding cancel_in_transaction record_event
cancel_in_transaction-appointments a db {db'} {b} s m h =
    bind_elim (or_throw (find_business a.business_id db) (thrown "No Business found")) _ h
      (λ business e h1.
        bind_elim (set_status a.id AppointmentStatus.cancelled_by_customer db) _ h1 (λ p e2 h2.
          let set = set_status-eq-ok a.id AppointmentStatus.cancelled_by_customer db e2 in
          let own : p.1 ≡ cancelled a =
            set_own a AppointmentStatus.cancelled_by_customer db p.0 s m set in
          let recorded = record_event a.id a.business_id EventType.appointment_cancelled p.0 in
          let (_, rows, _) =
            announce_cancellation-Later a.business_id p.1 business.timezone recorded in
          (
            ap (λ q. q.1) (sym (ok-injective h2)) ∙ own,
            ap (λ q. q.0.appointments) (sym (ok-injective h2))
                ∙ rows
                ∙ ap (λ d. d.appointments) set.result
                ∙ ap (λ r. update_where (λ c. c.id == r.id) (λ _. r) db.appointments) own,
          )))

module _ (k token : ℕ) (db : Db) where
  -- What a cancellation that succeeds found.
  pub record Cancelled (db' : Db) (b : Appointment) : Type 0 where
    pub row : Appointment
    pub found : find_appointment k db ≡ some row
    pub authentic : (row.cancellation_token == token) ≡ true
    pub active : is_active_status row.status ≡ true
    pub run : cancel_in_transaction row db ≡ ok (db', b)

  cancel_public_appointment-eq-ok :
      {db' : Db} {b : Appointment}
      → cancel_public_appointment k token db ≡ ok (db', b)
      → Cancelled db' b
  unfolding cancel_public_appointment
  cancel_public_appointment-eq-ok h =
      bind_elim (or_throw (find_appointment k db) (not_found "Appointment not found")) _ h
        (λ a e h1.
          bind_elim (require (a.cancellation_token == token) (not_found "Appointment not found")) _
            h1
            (λ _ e2 h2.
              bind_elim (require (is_active_status a.status) (conflict "Appointment is not active"))
                _ h2
                (λ _ e3 h3. record {
                  row = a;
                  found =
                      or_throw-eq-ok (find_appointment k db) (not_found "Appointment not found") e;
                  authentic = require-eq-ok (a.cancellation_token == token) _ e2;
                  active = require-eq-ok (is_active_status a.status) _ e3;
                  run = h3;
                })))

  -- In a sound state, a cancellation that succeeds returns the appointment with the identifier, its
  -- status changed from an active one to `CANCELLED_BY_CUSTOMER` and nothing else, and the same
  -- request made again is refused with a conflict.
  pub cancel_public_appointment-twice :
      {db' : Db} {b : Appointment}
      → IsSound db
      → cancel_public_appointment k token db ≡ ok (db', b)
      → ((a : Appointment) × (find_appointment k db ≡ some a)
          × (is_active_status a.status ≡ true)
          × (b ≡ cancelled a))
        × (cancel_public_appointment k token db' ≡ err (conflict "Appointment is not active"))
  unfolding cancel_public_appointment find_appointment
  cancel_public_appointment-twice {db'} {b} s h =
      let run = cancel_public_appointment-eq-ok h in
      let (listed, named) = find_first_sound (λ a. a.id == k) db.appointments run.found in
      let is_k : run.row.id ≡ k = ground arith in
      let (same, rows) = cancel_in_transaction-appointments run.row db s listed run.run in
      let again : find_first (λ a. a.id == run.row.id) db'.appointments ≡ some (cancelled run.row) =
        subst (λ xs. find_first (λ a. a.id == run.row.id) xs ≡ some (cancelled run.row)) (sym rows)
          (find_first-update_where (λ a. a.id == run.row.id) (λ _. cancelled run.row)
            db.appointments {a = run.row} (λ x e. ground arith) (find_own db s listed)) in
      let found : find_first (λ a. a.id == k) db'.appointments ≡ some (cancelled run.row) =
        subst (λ n. find_first (λ a. a.id == n) db'.appointments ≡ some (cancelled run.row)) is_k
          again in
      ((run.row, run.found, run.active, same), rw (found, run.authentic) refl)
