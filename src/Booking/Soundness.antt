-- ===== src/Booking/Soundness.antt =====
-- appointments.service.ts: the transaction that books, and the invariant of the booking tables.
use turno_flow.Prelude.{
  ℕ, suc, ◌<◌, ◌≡◌, refl, Option, none, some, arith, ok, constraint, require, require-eq-ok,
  rethrow_as-eq-ok, bind_elim, ok-injective, Option-cases, inl, inr, ◌==◌, subst, count, not_found,
  find_first, find_first_sound, All-In,
}
use turno_flow.Text.{Text}
use turno_flow.Time.{Runtime}
use turno_flow.Events.{EventType}
use turno_flow.Schema.{Db, Business, Service, Appointment, Payload, AppointmentStatus}
use turno_flow.Store.{admits, insert_appointment, outbox_create, record_event, update_customer}
use turno_flow.Store.Sound.{
  IsSound, Counted, Sound-mono, Sound-customer, Sound-customers, Sound-insert,
}
use turno_flow.Booking.{upsert_customer, truthy, is_customer}
use turno_flow.Booking.Runs.{create_in_transaction-eq-ok}
use turno_flow.Booking.Create.{
  BookingInput, is_open_offer, accept_offer, submit_deposit, book_entry, announce_offer,
  after_insertion, create_in_transaction, create_appointment, close_offer,
}

pub outbox_create-IsSound :
    (key : EventType) (aggregate business : ℕ) (payload : Payload) (db : Db)
    → IsSound db
    → IsSound (outbox_create key aggregate business payload db)
unfolding outbox_create
outbox_create-IsSound key aggregate business payload db s =
    Sound-mono db.next_id db.appointments db.customers (suc db.next_id) (omega arith) s

submit_deposit-IsSound :
    (rt : Runtime) (input : BookingInput) (service : Service) (a : Appointment) (db : Db)
    → IsSound db
    → IsSound (submit_deposit rt input service a db)
unfolding submit_deposit record_event outbox_create
submit_deposit-IsSound rt input service a db s =
    elim (Option-cases (truthy input.deposit_amount_cents)) [
      | inl e ↦ rw (submit_deposit, e) s
      | inr (cents, e) ↦
          rw (submit_deposit, e)
            (Sound-mono db.next_id db.appointments db.customers (suc (suc db.next_id)) (omega arith)
              s)
    ]

-- What a customer's row is after `upsertCustomer`.
pub upsert_customer-IsSound :
    (rt : Runtime) (business : ℕ) (email name : Text) (phone : Option Text) (db : Db)
    → IsSound db
    → IsSound (upsert_customer rt business email name phone db).0
      × ((upsert_customer rt business email name phone db).1.id
          < (upsert_customer rt business email name phone db).0.next_id)
unfolding upsert_customer
upsert_customer-IsSound rt business email name phone db s =
    elim (Option-cases (find_first (is_customer business (rt.to_lower_case email)) db.customers)) [
      | inl e ↦
          rw (upsert_customer, e)
            (Sound-customer db.next_id db.appointments db.customers _ refl refl refl s, omega arith)
      | inr (c, e) ↦
          let (listed, _) =
            find_first_sound (is_customer business (rt.to_lower_case email)) db.customers e in
          rw (upsert_customer, e)
            (
              Sound-customers db.next_id db.appointments db.customers (λ x. x.id == c.id) _
                  (λ x h. ground arith)
                  (λ x h own.
                    let counted = All-In (Counted db.appointments) db.customers s.counted listed in
                    counted)
                  s,
              All-In (λ c. c.id < db.next_id) db.customers s.customers_below listed,
            )
    ]

-- A new row with the next identifier.
pub insert_appointment-IsSound :
    (a : Appointment) (db db' : Db)
    → IsSound db
    → a.id ≡ db.next_id
    → a.customer_id < db.next_id
    → a.status ≡ AppointmentStatus.confirmed
    → insert_appointment a (record db { next_id = suc db.next_id }) ≡ ok db'
    → IsSound db'
unfolding insert_appointment
insert_appointment-IsSound a db db' s new named fresh h =
    bind_elim (require (admits a db.appointments) constraint) _ h (λ u e h1.
      subst IsSound (ok-injective h1) (
        Sound-insert db.next_id db.appointments db.customers a new named fresh
          (require-eq-ok (admits a db.appointments) constraint e) s))

-- The writes that follow the insertion.
announce_offer-IsSound :
    (offer : Option ℕ) (business : ℕ) (a : Appointment) (db : Db)
    → IsSound db
    → IsSound (announce_offer offer business a db)
unfolding announce_offer outbox_create
announce_offer-IsSound none business a db s = s
announce_offer-IsSound (some k) business a db s =
    Sound-mono db.next_id db.appointments db.customers (suc (suc db.next_id)) (omega arith) s

book_entry-IsSound : (offer : Option ℕ) (db : Db) → IsSound db → IsSound (book_entry offer db)
unfolding book_entry
book_entry-IsSound none db s = s
book_entry-IsSound (some k) db s = s

module _ (rt : Runtime) (now token : ℕ) where
  after_insertion-IsSound :
      (input : BookingInput) (business : Business) (service : Service) (a : Appointment) (db : Db)
      → IsSound db
      → IsSound (after_insertion rt now token input business service a db)
  unfolding after_insertion update_customer record_event
  after_insertion-IsSound input business service a db s =
      let db1 = submit_deposit rt input service a db in
      let s1 = submit_deposit-IsSound rt input service a db s in
      announce_offer-IsSound _ _ _ _ (
        outbox_create-IsSound _ _ _ _ _ (
          book_entry-IsSound _ _ (
            Sound-customers db1.next_id db1.appointments db1.customers (λ c. c.id == a.customer_id)
              _ (λ c e. refl) (λ c e h. h) s1)))

  accept_offer-IsSound :
      (offer : Option ℕ) (db db1 : Db)
      → accept_offer now offer db ≡ ok db1
      → IsSound db
      → IsSound db1
  unfolding accept_offer close_offer
  accept_offer-IsSound none db db1 h s = let same : db ≡ db1 = cc in subst IsSound same s
  accept_offer-IsSound (some k) db db1 h s =
      bind_elim
        (require (count (is_open_offer now k) db.waitlist_offers == 1)
          (not_found "Waitlist offer not found"))
        _ h (λ u e h'. let same = ok-injective h' in subst IsSound same s)

  create_in_transaction-IsSound :
      (input : BookingInput) (db db' : Db) {a : Appointment}
      → IsSound db
      → create_in_transaction rt now token input db ≡ ok (db', a)
      → IsSound db'
  create_in_transaction-IsSound input db db' s h =
      let run = create_in_transaction-eq-ok rt now token input db h in
      let (s2, named) =
        upsert_customer-IsSound rt input.business_id input.customer_email input.customer_name
          input.customer_phone run.db1
          (accept_offer-IsSound input.waitlist_offer_id db run.db1 run.accepted s) in
      subst IsSound run.result (
        after_insertion-IsSound input run.business run.service _ run.db3
          (insert_appointment-IsSound _ _ run.db3 s2 refl named refl run.inserted))

  -- `createAppointmentInTransaction`, whose failed transaction leaves no state.
  pub create_appointment-IsSound :
      (input : BookingInput) (db db' : Db) {a : Appointment}
      → IsSound db
      → create_appointment rt now token input db ≡ ok (db', a)
      → IsSound db'
  unfolding create_appointment
  create_appointment-IsSound input db db' s h =
      create_in_transaction-IsSound input db db' s (rethrow_as-eq-ok _ _ h)
