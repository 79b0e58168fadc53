-- ===== src/Booking/Decisions.antt =====
-- The decisions of the dashboard under the invariant of the booking tables.
use turno_flow.Prelude.{
  ℕ, ◌≡◌, refl, ap, subst, ◌&&◌, Option, none, some, arith, ok, thrown, not_found, or_throw,
  or_throw-eq-ok, bind_elim, ok-injective, ◌==◌, find_first, find_first_sound, In,
}
use turno_flow.Text.{Text}
use turno_flow.Status.{to_prisma_appointment_status, build_customer_counter_update, CounterUpdate}
use turno_flow.Schema.{Db, Business, Appointment, Customer, AppointmentStatus}
use turno_flow.Store.{outbox_create, record_event, update_customer, find_appointment, find_customer}
use turno_flow.Store.Sound.{Sound, IsSound}
use turno_flow.Store.Replacements.{follow, Sound-decided}
use turno_flow.Booking.Lifecycle.{
  set_status, Decision, decided, decision_event, announce_decision, write_counters,
  decide_in_transaction, update_private_appointment_status, cancelled_by_business, confirmed,
  completed, no_show,
}
use turno_flow.Booking.Changes.{
  Later, Later-IsSound, StatusSet, set_status-eq-ok, set_own, find_own, announce_cancellation-Later,
}

announce_decision-Later :
    (d : Decision) (business : ℕ) (a : Appointment) (zone : Text) (db : Db)
    → Later db (announce_decision d business a zone db)
unfolding announce_decision outbox_create
announce_decision-Later cancelled_by_business business a zone db =
    announce_cancellation-Later business a zone db
announce_decision-Later confirmed business a zone db = (omega arith, refl, refl)
announce_decision-Later completed business a zone db = (omega arith, refl, refl)
announce_decision-Later no_show business a zone db = (omega arith, refl, refl)

-- What `write_counters` does to the invariant is what `follow` does to the table of customers.
write_counters-IsSound :
    (u : Option CounterUpdate) (k : ℕ) (db : Db)
    → Sound db.next_id db.appointments (follow u k db.customers)
    → IsSound (write_counters u k db)
unfolding write_counters update_customer
write_counters-IsSound none k db s = s
write_counters-IsSound (some u) k db s = s

module _ (business : Business) (a : Appointment) (customer : Customer) (d : Decision)
    (db : Db) where
  abbrev next_status : AppointmentStatus
  next_status = to_prisma_appointment_status (decided d)

  counted-IsSound :
      {db1 : Db} {updated : Appointment}
      → IsSound db
      → In a db.appointments
      → find_customer a.customer_id db ≡ some customer
      → StatusSet a.id next_status db db1 updated
      → IsSound (
          write_counters
            (build_customer_counter_update a.status next_status customer)
            a.customer_id
            db1)
  unfolding find_appointment find_customer
  counted-IsSound {db1} {updated} s m who set =
      let own : updated ≡ record a { status = next_status } =
        set_own a next_status db db1 s m set in
      let status : updated.status ≡ next_status = rw own refl in
      write_counters-IsSound (build_customer_counter_update a.status next_status customer)
        a.customer_id db1
        (rw (set.result, ← status)
          (Sound-decided a updated db.appointments db.next_id db.customers customer
            (rw own (find_own db s m)) (rw own refl) who set.fits s))

  decide_in_transaction-IsSound :
      {db' : Db} {b : Appointment}
      → IsSound db
      → In a db.appointments
      → find_customer a.customer_id db ≡ some customer
      → decide_in_transaction business a customer d db ≡ ok (db', b)
      → IsSound db'
  unfolding decide_in_transaction record_event
  decide_in_transaction-IsSound {db'} {b} s m who h =
      bind_elim (set_status a.id next_status db) _ h (λ p e h1.
        let db2 =
          write_counters (build_customer_counter_update a.status next_status customer) a.customer_id
            p.0 in
        bind_elim (or_throw (find_appointment a.id db2) (thrown "No Appointment found")) _ h1
          (λ again e2 h2.
            let recorded = record_event a.id business.id (decision_event d) db2 in
            subst IsSound (ap (λ p. p.0) (ok-injective h2)) (
              Later-IsSound recorded
                (announce_decision d business.id again business.timezone recorded)
                (announce_decision-Later d business.id again business.timezone recorded)
                (counted-IsSound s m who (set_status-eq-ok a.id next_status db e)))))

-- `updatePrivateAppointmentStatusValue`
pub update_private_appointment_status-IsSound :
    (business : Business) (k : ℕ) (d : Decision) (db db' : Db) {b : Appointment}
    → IsSound db
    → update_private_appointment_status business k d db ≡ ok (db', b)
    → IsSound db'
unfolding update_private_appointment_status
update_private_appointment_status-IsSound business k d db db' s h =
    let asked = λ (a : Appointment). a.business_id == business.id && a.id == k in
    bind_elim (or_throw (find_first asked db.appointments) (not_found "Appointment not found")) _ h
      (λ a e h1.
        bind_elim (or_throw (find_customer a.customer_id db) (thrown "No Customer found")) _ h1
          (λ customer e2 h2.
            decide_in_transaction-IsSound business a customer d db s
              (find_first_sound asked db.appointments (
                or_throw-eq-ok (find_first asked db.appointments)
                  (not_found "Appointment not found") e)).0
              (or_throw-eq-ok (find_customer a.customer_id db) (thrown "No Customer found") e2) h2))
