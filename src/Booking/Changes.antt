-- ===== src/Booking/Changes.antt =====
-- The writes to a booked appointment, and its cancellation, under the invariant of the booking tables.
use turno_flow.Prelude.{
  ℕ, ◌≤◌, ◌≡◌, refl, sym, ◌∙◌, ap, subst, true, ◌&&◌, some, arith, ok, constraint, thrown,
  not_found, conflict, require, require-eq-ok, or_throw, or_throw-eq-ok, bind_elim, ok-injective,
  ◌==◌, find_first_sound, find_first-In, update_where, In,
}
use turno_flow.Text.{Text}
use turno_flow.Events.{EventType}
use turno_flow.Status.{same_status, is_active_status}
use turno_flow.Schema.{Db, Appointment, AppointmentStatus}
use turno_flow.Store.{
  admits, replace_appointment, outbox_create, record_event, find_appointment, find_business,
}
use turno_flow.Store.Sound.{IsSound, Sound-mono}
use turno_flow.Store.Replacements.{Sound-moved}
use turno_flow.Booking.Lifecycle.{
  set_status, announce_cancellation, cancel_in_transaction, cancel_public_appointment,
  cancel_appointment_for_customer,
}

-- A state whose booking tables are those of another, with no fewer identifiers drawn.
abbrev pub Later : Db → Db → Type 0
Later db db' =
    (db.next_id ≤ db'.next_id)
    × (db'.appointments ≡ db.appointments)
    × (db'.customers ≡ db.customers)

pub Later-IsSound : (db db' : Db) → Later db db' → IsSound db → IsSound db'
Later-IsSound db db' (le, rows, customers) s =
    rw (rows, customers) (Sound-mono db.next_id db.appointments db.customers db'.next_id le s)

-- A row replaced by one with its identifier.
pub replace_appointment-eq-ok :
    (a : Appointment) (db : Db) {db' : Db}
    → replace_appointment a db ≡ ok db'
    → (admits a db.appointments ≡ true)
      × (record db { appointments = update_where (λ b. b.id == a.id) (λ _. a) db.appointments }
          ≡ db')
unfolding replace_appointment
replace_appointment-eq-ok a db h =
    bind_elim (require (admits a db.appointments) constraint) _ h
      (λ u e h1. (require-eq-ok (admits a db.appointments) constraint e, ok-injective h1))

-- What `tx.appointment.update` of a status did.
pub record StatusSet (k : ℕ) (status : AppointmentStatus) (db db1 : Db) (updated : Appointment)
    : Type 0 where
  pub row : Appointment
  pub found : find_appointment k db ≡ some row
  pub is_updated : updated ≡ record row { status = status }
  pub fits : admits updated db.appointments ≡ true
  pub result : db1 ≡ record db {
    appointments = update_where (λ b. b.id == updated.id) (λ _. updated) db.appointments;
  }

pub set_status-eq-ok :
    (k : ℕ) (status : AppointmentStatus) (db : Db) {db1 : Db} {updated : Appointment}
    → set_status k status db ≡ ok (db1, updated)
    → StatusSet k status db db1 updated
unfolding set_status
set_status-eq-ok k status db {db1} {updated} h =
    bind_elim (or_throw (find_appointment k db) (thrown "No Appointment found")) _ h (λ row e h1.
      let next : Appointment = record row { status = status } in
      bind_elim (replace_appointment next db) _ h1 (λ db2 e2 h2.
        let same : db2 ≡ db1 = ap (λ p. p.0) (ok-injective h2) in
        let same_row : next ≡ updated = ap (λ p. p.1) (ok-injective h2) in
        let (fits, written) = replace_appointment-eq-ok next db e2 in
        record {
          row = row;
          found = or_throw-eq-ok (find_appointment k db) (thrown "No Appointment found") e;
          is_updated = sym same_row;
          fits = rw (← same_row) fits;
          result = rw (← same_row, ← same) (sym written);
        }))

pub some-injective {ℓ} : {A : Type ℓ} {a b : A} → some a ≡ some b → a ≡ b
some-injective h = cc

-- A query by identifier finds the row of the table that has it.
pub find_own :
    (db : Db) {a : Appointment}
    → IsSound db
    → In a db.appointments
    → find_appointment a.id db ≡ some a
unfolding find_appointment
find_own db {a} s m = find_first-In (λ b. b.id) a.id db.appointments s.distinct m refl

pub announce_cancellation-Later :
    (business : ℕ) (a : Appointment) (zone : Text) (db : Db)
    → Later db (announce_cancellation business a zone db)
unfolding announce_cancellation outbox_create
announce_cancellation-Later business a zone db = (omega arith, refl, refl)

-- The row whose status is set is the row of the table that was read before.
module _ (a : Appointment) (st : AppointmentStatus) (db db1 : Db) (s : IsSound db)
    (m : In a db.appointments) where
  pub set_row : {updated : Appointment} (set : StatusSet a.id st db db1 updated) → set.row ≡ a
  set_row set = some-injective (sym set.found ∙ find_own db s m)

  pub set_own :
      {updated : Appointment}
      → StatusSet a.id st db db1 updated
      → (updated ≡ record a { status = st })
  set_own {updated} set =
      subst (λ r. updated ≡ record r { status = st }) (set_row set) set.is_updated

  -- Neither status is counted.
  set_status-IsSound :
      {updated : Appointment}
      → same_status a.status AppointmentStatus.no_show ≡ same_status st AppointmentStatus.no_show
      → same_status a.status AppointmentStatus.completed
        ≡ same_status st AppointmentStatus.completed
      → StatusSet a.id st db db1 updated
      → IsSound db1
  unfolding find_appointment
  set_status-IsSound {updated} missed done set =
      let own : updated ≡ record a { status = st } = set_own set in
      rw set.result (
        Sound-moved a updated db.appointments db.next_id db.customers (rw own (find_own db s m))
          (rw own refl) (rw own (sym missed)) (rw own (sym done)) set.fits s)

-- A cancellation by the customer, of an appointment of the table that is active.
cancel_in_transaction-IsSound :
    (a : Appointment) (db db' : Db) {b : Appointment}
    → IsSound db
    → In a db.appointments
    → is_active_status a.status ≡ true
    → cancel_in_transaction a db ≡ ok (db', b)
    → IsSound db'
unfolding cancel_in_transaction record_event
cancel_in_transaction-IsSound a db db' s m active h =
    bind_elim (or_throw (find_business a.business_id db) (thrown "No Business found")) _ h
      (λ business e h1.
        bind_elim (set_status a.id AppointmentStatus.cancelled_by_customer db) _ h1 (λ p e2 h2.
          let recorded = record_event a.id a.business_id EventType.appointment_cancelled p.0 in
          subst IsSound (ap (λ p. p.0) (ok-injective h2)) (
            Later-IsSound recorded
              (announce_cancellation a.business_id p.1 business.timezone recorded)
              (announce_cancellation-Later a.business_id p.1 business.timezone recorded)
              (set_status-IsSound a AppointmentStatus.cancelled_by_customer db p.0 s m
                (ground arith) (ground arith)
                (set_status-eq-ok a.id AppointmentStatus.cancelled_by_customer db e2)))))

-- `cancelPublicAppointment`
pub cancel_public_appointment-IsSound :
    (k token : ℕ) (db db' : Db) {b : Appointment}
    → IsSound db
    → cancel_public_appointment k token db ≡ ok (db', b)
    → IsSound db'
unfolding cancel_public_appointment find_appointment
cancel_public_appointment-IsSound k token db db' s h =
    bind_elim (or_throw (find_appointment k db) (not_found "Appointment not found")) _ h (λ a e h1.
      bind_elim (require (a.cancellation_token == token) (not_found "Appointment not found")) _ h1
        (λ _ e2 h2.
          bind_elim (require (is_active_status a.status) (conflict "Appointment is not active")) _
            h2
            (λ _ e3 h3.
              cancel_in_transaction-IsSound a db db' s
                (find_first_sound (λ a. a.id == k) db.appointments
                  (or_throw-eq-ok (find_appointment k db) (not_found "Appointment not found") e)).0
                (require-eq-ok (is_active_status a.status) (conflict "Appointment is not active")
                  e3)
                h3)))

-- `cancelAppointmentForCustomer`
pub cancel_appointment_for_customer-IsSound :
    (business customer k : ℕ) (db db' : Db) {b : Appointment}
    → IsSound db
    → cancel_appointment_for_customer business customer k db ≡ ok (db', b)
    → IsSound db'
unfolding cancel_appointment_for_customer find_appointment
cancel_appointment_for_customer-IsSound business customer k db db' s h =
    bind_elim (or_throw (find_appointment k db) (not_found "Appointment not found")) _ h (λ a e h1.
      bind_elim
        (require (a.business_id == business && a.customer_id == customer)
          (not_found "Appointment not found"))
        _ h1
        (λ _ e2 h2.
          bind_elim (require (is_active_status a.status) (conflict "Appointment is not active")) _
            h2
            (λ _ e3 h3.
              cancel_in_transaction-IsSound a db db' s
                (find_first_sound (λ a. a.id == k) db.appointments
                  (or_throw-eq-ok (find_appointment k db) (not_found "Appointment not found") e)).0
                (require-eq-ok (is_active_status a.status) (conflict "Appointment is not active")
                  e3)
                h3)))
