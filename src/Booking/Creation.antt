-- ===== src/Booking/Creation.antt =====
-- What `createAppointmentInTransaction` writes into the table of appointments.
use turno_flow.Prelude.{
  ℕ, ◌+◌, ◌*◌, ◌≡◌, refl, sym, ◌∙◌, ap, subst, Option, none, some, [], ◌∷◌, ◌++◌, ok, constraint,
  not_found, require, rethrow_as-eq-ok, bind_elim, ok-injective, ◌==◌, count, find_first,
  find_first_sound, arith, find_first-In, In, In-append_iff, Option-cases, inl, inr,
}
use turno_flow.Text.{Text}
use turno_flow.Time.{Runtime, minute_ms}
use turno_flow.Schema.{Db, Business, Service, Appointment, AppointmentStatus}
use turno_flow.Store.{
  admits, insert_appointment, find_appointment, outbox_create, record_event, update_customer,
}
use turno_flow.Store.Sound.{IsSound}
use turno_flow.Booking.{upsert_customer, truthy, is_customer}
use turno_flow.Booking.Create.{
  BookingInput, is_open_offer, close_offer, accept_offer, submit_deposit, book_entry,
  announce_offer, after_insertion, create_appointment,
}
use turno_flow.Booking.Runs.{is_bookable, Created, booked_row, create_in_transaction-eq-ok}
use turno_flow.Booking.Soundness.{create_appointment-IsSound}
use turno_flow.Booking.Changes.{some-injective}
use turno_flow.Booking.Slots.{Granted, assert_staff_member_can_take_slot-eq-ok}

submit_deposit-appointments :
    (rt : Runtime) (input : BookingInput) (service : Service) (a : Appointment) (db : Db)
    → (submit_deposit rt input service a db).appointments ≡ db.appointments
unfolding submit_deposit record_event outbox_create
submit_deposit-appointments rt input service a db =
    elim (Option-cases (truthy input.deposit_amount_cents)) [
      | inl e ↦ rw (submit_deposit, e) refl
      | inr (cents, e) ↦ rw (submit_deposit, e) refl
    ]

announce_offer-appointments :
    (offer : Option ℕ) (business : ℕ) (a : Appointment) (db : Db)
    → (announce_offer offer business a db).appointments ≡ db.appointments
unfolding announce_offer outbox_create
announce_offer-appointments none business a db = refl
announce_offer-appointments (some k) business a db = refl

book_entry-appointments :
    (offer : Option ℕ) (db : Db) → (book_entry offer db).appointments ≡ db.appointments
unfolding book_entry
book_entry-appointments none db = refl
book_entry-appointments (some k) db = refl

upsert_customer-appointments :
    (rt : Runtime) (business : ℕ) (email name : Text) (phone : Option Text) (db : Db)
    → (upsert_customer rt business email name phone db).0.appointments ≡ db.appointments
unfolding upsert_customer
upsert_customer-appointments rt business email name phone db =
    elim (Option-cases (find_first (is_customer business (rt.to_lower_case email)) db.customers)) [
      | inl e ↦ rw (upsert_customer, e) refl
      | inr (c, e) ↦ rw (upsert_customer, e) refl
    ]

module _ (rt : Runtime) (now token : ℕ) where
  accept_offer-appointments :
      (offer : Option ℕ) (db : Db) {db1 : Db}
      → accept_offer now offer db ≡ ok db1
      → db1.appointments ≡ db.appointments
  unfolding accept_offer close_offer
  accept_offer-appointments none db {db1} h = ap (λ d. d.appointments) (sym (ok-injective h))
  accept_offer-appointments (some k) db {db1} h =
      bind_elim
        (require (count (is_open_offer now k) db.waitlist_offers == 1)
          (not_found "Waitlist offer not found"))
        _ h (λ _ e h'. ap (λ d. d.appointments) (sym (ok-injective h')))

  after_insertion-appointments :
      (input : BookingInput) (business : Business) (service : Service) (a : Appointment) (db : Db)
      → (after_insertion rt now token input business service a db).appointments ≡ db.appointments
  unfolding after_insertion update_customer record_event outbox_create
  after_insertion-appointments input business service a db =
      announce_offer-appointments input.waitlist_offer_id _ _ _
      ∙ book_entry-appointments input.waitlist_offer_id _
      ∙ submit_deposit-appointments rt input service a db

  insert_appointment-appointments :
      (a : Appointment) (db : Db) {db1 : Db}
      → insert_appointment a db ≡ ok db1
      → db1.appointments ≡ db.appointments ++ a ∷ []
  unfolding insert_appointment
  insert_appointment-appointments a db h =
      bind_elim (require (admits a db.appointments) constraint) _ h
        (λ _ e h'. ap (λ d. d.appointments) (sym (ok-injective h')))

  -- A booking that succeeds in a sound state adds exactly the row that it returns, after the rows
  -- there were: a confirmed appointment in the business, for the service asked for, at the
  -- requested start, as long as the service and its buffer. In the state that follows the
  -- acceptance of the offer, the slot at that start is granted: the staff member works in the
  -- business, and a weekly rule or an extra opening of that day and member holds the time that the
  -- service asked for takes with its buffer.
  pub create_appointment-row :
      (input : BookingInput) (db : Db) {db' : Db} {a : Appointment}
      → IsSound db
      → create_appointment rt now token input db ≡ ok (db', a)
      → (run : Created rt now token input db db' a) × (db'.appointments ≡ db.appointments ++ a ∷ [])
        × (a.status ≡ AppointmentStatus.confirmed)
        × (a.business_id ≡ input.business_id)
        × (a.service_id ≡ input.service_id)
        × (a.starts_at ≡ input.starts_at)
        × (a.ends_at
            ≡ input.starts_at
              + (run.service.duration_minutes + run.service.buffer_minutes) * minute_ms)
        × Granted rt now run.db1 input.business_id input.service_id none a.staff_member_id
            input.starts_at
  unfolding create_appointment find_appointment
  create_appointment-row input db {db'} {a} s h =
      let run = create_in_transaction-eq-ok rt now token input db (rethrow_as-eq-ok _ _ h) in
      let row = booked_row rt now token input db run.db1 run.service run.staff in
      let is_asked = is_bookable input.business_id input.service_id in
      let (_, fits) = find_first_sound is_asked run.db1.services run.offered in
      let asked : run.service.id ≡ input.service_id = ground arith in
      let written : db'.appointments ≡ db.appointments ++ row ∷ [] =
        ap (λ d. d.appointments) (sym run.result)
        ∙ after_insertion-appointments input run.business run.service row run.db3
        ∙ insert_appointment-appointments row _ run.inserted
        ∙ ap (λ rows. rows ++ row ∷ [])
            (upsert_customer-appointments rt input.business_id input.customer_email
                input.customer_name input.customer_phone run.db1
              ∙ accept_offer-appointments input.waitlist_offer_id db run.accepted) in
      let listed : In row db'.appointments =
        subst (λ rows. In row rows) (sym written)
          ((In-append_iff row db.appointments (row ∷ [])).1 (inr (inl refl))) in
      let sound = create_appointment-IsSound rt now token input db db' s h in
      let same : a ≡ row = some-injective (
        sym run.again
        ∙ find_first-In (λ b. b.id) row.id db'.appointments sound.distinct listed refl) in
      (
        run,
        written ∙ ap (λ r. db.appointments ++ r ∷ []) (sym same),
        ap (λ r. r.status) same,
        ap (λ r. r.business_id) same,
        ap (λ r. r.service_id) same ∙ asked,
        ap (λ r. r.starts_at) same,
        ap (λ r. r.ends_at) same,
        subst
            (λ k. Granted rt now run.db1 input.business_id input.service_id none k input.starts_at)
            (ap (λ r. r.staff_member_id) (sym same))
            (subst (λ v. Granted rt now run.db1 input.business_id v none run.staff input.starts_at)
              asked
              (assert_staff_member_can_take_slot-eq-ok rt now run.db1 input.business_id
                run.service.id none run.staff input.starts_at run.free)),
      )
