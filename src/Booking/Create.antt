-- ===== src/Booking/Create.antt =====
-- appointments.service.ts: the transaction that books an appointment, and the handlers that run it.
use turno_flow.Prelude.{
  ℕ, suc, ◌+◌, ◌*◌, List, [], ◌∷◌, ◌++◌, Bool, true, false, ◌&&◌, Option, none, some, Result, ok,
  thrown, not_found, conflict, or_throw, require, rethrow_as, ◌>>=◌, ◌>>◌, ltb, ◌==◌, any, count,
  find_first, update_where,
}
use turno_flow.Text.{Text, text_eq}
use turno_flow.Time.{Runtime, minute_ms}
use turno_flow.Events.{EventType}
use turno_flow.Schema.{
  Db, Business, Service, Appointment, Customer, Payment, WaitlistEntry, WaitlistOffer,
  AppointmentStatus, AppointmentPaymentStatus, WaitlistStatus, WaitlistOfferStatus,
  appointment_payload, offer_payload, deposit_payload,
}
use turno_flow.Store.{
  find_business, find_appointment, insert_appointment, update_customer, record_event, outbox_create,
}
use turno_flow.Booking.{
  select_available_staff_member, assert_staff_member_can_take_slot, assert_deposit_can_be_submitted,
  truthy, optional_trim, upsert_customer,
}

-- The argument of `createAppointmentInTransaction`.
pub record BookingInput : Type 0 where
  pub business_id : ℕ
  pub service_id : ℕ
  pub staff_member_id : Option ℕ
  pub starts_at : ℕ
  pub customer_name : Text
  pub customer_email : Text
  pub customer_phone : Option Text
  pub deposit_amount_cents : Option ℕ
  pub deposit_customer_note : Option Text
  pub deposit_reference : Option Text
  pub waitlist_offer_id : Option ℕ

abbrev pub is_pending_offer : WaitlistOfferStatus → Bool
is_pending_offer WaitlistOfferStatus.pending = true
is_pending_offer _ = false

abbrev pub is_open_offer : ℕ → ℕ → WaitlistOffer → Bool
is_open_offer now k o = ltb now o.expires_at && o.id == k && is_pending_offer o.status

-- `updateMany` on the open offer `k`, which must change exactly one row.
unfoldable pub close_offer : ℕ → ℕ → WaitlistOfferStatus → Db → Result Db
close_offer now k status db = do
  require (count (is_open_offer now k) db.waitlist_offers == 1)
      (not_found "Waitlist offer not found")
  ok (record db {
    waitlist_offers =
        update_where (is_open_offer now k) (λ o. record o { status = status }) db.waitlist_offers;
  })

unfoldable pub accept_offer : ℕ → Option ℕ → Db → Result Db
unfolding close_offer
accept_offer now none db = ok db
accept_offer now (some k) db = close_offer now k WaitlistOfferStatus.accepted db

-- The deposit that comes with a booking: its payment, event and message.
unfoldable pub submit_deposit : Runtime → BookingInput → Service → Appointment → Db → Db
submit_deposit rt input service a db = elim (truthy input.deposit_amount_cents) [
  | none ↦ db
  | some cents ↦
      let payment : Payment = record {
        id = db.next_id;
        business_id = input.business_id;
        appointment_id = a.id;
        customer_id = a.customer_id;
        amount_cents = cents;
        status = AppointmentPaymentStatus.submitted;
        customer_note = optional_trim rt input.deposit_customer_note;
        internal_note = none;
        reference = optional_trim rt input.deposit_reference;
        confirmed_at = none;
        confirmed_by_user_id = none;
        rejected_at = none;
        rejected_by_user_id = none;
        voided_at = none;
        voided_by_user_id = none;
      } in
      outbox_create EventType.appointment_deposit_submitted payment.id input.business_id
        (deposit_payload payment)
        (record_event a.id input.business_id EventType.appointment_deposit_submitted
          (record db { next_id = suc db.next_id; payments = db.payments ++ payment ∷ [] }))
]

-- `where: { offers: { some: { id } } }`
abbrev pub has_offer : ℕ → List WaitlistOffer → WaitlistEntry → Bool
has_offer k offers e = any (λ o. o.id == k && o.waitlist_entry_id == e.id) offers

unfoldable pub book_entry : Option ℕ → Db → Db
book_entry none db = db
book_entry (some k) db = record db {
  waitlist_entries =
      update_where (has_offer k db.waitlist_offers)
        (λ e. record e { status = WaitlistStatus.booked }) db.waitlist_entries;
}

unfoldable pub announce_offer : Option ℕ → ℕ → Appointment → Db → Db
announce_offer none business a db = db
announce_offer (some k) business a db =
    outbox_create EventType.slot_reassigned a.id business (offer_payload a "accepted" none k) (
      outbox_create EventType.waitlist_offer_accepted k business (offer_payload a "accepted" none k)
        db)

-- The fields of `CreatePublicAppointmentDto`; `none` is a date text that cannot be parsed.
pub record PublicBooking : Type 0 where
  pub service_id : ℕ
  pub staff_member_id : Option ℕ
  pub starts_at : Option ℕ
  pub customer_name : Text
  pub customer_email : Text
  pub customer_phone : Option Text
  pub deposit_amount_cents : Option ℕ
  pub deposit_customer_note : Option Text
  pub deposit_reference : Option Text

module _ (rt : Runtime) (now token : ℕ) where
  unfoldable pub choose_staff : Db → BookingInput → ℕ → Result ℕ
  choose_staff db input service = elim (input.staff_member_id) [
    | none ↦ select_available_staff_member rt now db input.business_id service input.starts_at
    | some k ↦ ok k
  ]

  abbrev pub new_appointment : BookingInput → Service → ℕ → Customer → ℕ → Appointment
  new_appointment input service staff customer id = record {
    id = id;
    business_id = input.business_id;
    service_id = service.id;
    staff_member_id = staff;
    customer_id = customer.id;
    starts_at = input.starts_at;
    ends_at = input.starts_at + (service.duration_minutes + service.buffer_minutes) * minute_ms;
    status = AppointmentStatus.confirmed;
    cancellation_token = token;
    recurring_series_id = none;
  }

  -- The writes that follow the insertion of the row.
  unfoldable pub after_insertion : BookingInput → Business → Service → Appointment → Db → Db
  unfolding submit_deposit book_entry announce_offer
  after_insertion input business service a db =
      announce_offer input.waitlist_offer_id input.business_id a (
        outbox_create EventType.appointment_booked a.id input.business_id
          (appointment_payload a business.timezone)
          (record_event a.id input.business_id EventType.appointment_booked (
            book_entry input.waitlist_offer_id (
              update_customer a.customer_id
                (λ c. record c { total_appointments = suc c.total_appointments })
                (submit_deposit rt input service a db)))))

  -- The body of the transaction of `createAppointmentInTransaction`.
  unfoldable pub create_in_transaction : BookingInput → Db → Result (Db × Appointment)
  unfolding accept_offer choose_staff after_insertion
  create_in_transaction input db = do
    business ← or_throw (find_business input.business_id db) (thrown "No Business found")
    db1 ← accept_offer now input.waitlist_offer_id db
    service ←
        or_throw
          (find_first
            (λ s. s.active && s.business_id == input.business_id && s.id == input.service_id)
            db1.services)
          (not_found "Service not found")
    assert_deposit_can_be_submitted input.deposit_amount_cents business.manual_deposits_enabled
        service
    staff ← choose_staff db1 input service.id
    assert_staff_member_can_take_slot rt now db1 input.business_id service.id staff input.starts_at
        none
    let (db2, customer) =
        upsert_customer rt input.business_id input.customer_email input.customer_name
          input.customer_phone db1
    let a = new_appointment input service staff customer db2.next_id
    db3 ← insert_appointment a (record db2 { next_id = suc db2.next_id })
    let db4 = after_insertion input business service a db3
    created ← or_throw (find_appointment a.id db4) (thrown "No Appointment found")
    ok (db4, created)

  -- `createAppointmentInTransaction`
  unfoldable pub create_appointment : BookingInput → Db → Result (Db × Appointment)
  create_appointment input db =
      rethrow_as (conflict "Appointment slot is no longer available")
        (create_in_transaction input db)

  -- `createPublicAppointment`
  unfoldable pub create_public_appointment : Text → PublicBooking → Db → Result (Db × Appointment)
  unfolding create_appointment
  create_public_appointment slug input db = do
    business ←
        or_throw (find_first (λ b. text_eq b.slug slug) db.businesses)
          (not_found "Business not found")
    starts_at ← or_throw input.starts_at (conflict "Invalid appointment start date")
    create_appointment
        (record {
          business_id = business.id;
          service_id = input.service_id;
          staff_member_id = input.staff_member_id;
          starts_at = starts_at;
          customer_name = input.customer_name;
          customer_email = input.customer_email;
          customer_phone = input.customer_phone;
          deposit_amount_cents = input.deposit_amount_cents;
          deposit_customer_note = input.deposit_customer_note;
          deposit_reference = input.deposit_reference;
          waitlist_offer_id = none;
        })
        db

  -- `bookAppointmentForCustomer`
  unfoldable pub book_appointment_for_customer :
      ℕ → ℕ → ℕ → Option ℕ → ℕ → Db → Result (Db × Appointment)
  unfolding create_appointment
  book_appointment_for_customer business customer_id service staff starts_at db = do
    customer ←
        or_throw (find_first (λ c. c.business_id == business && c.id == customer_id) db.customers)
          (not_found "Customer not found")
    create_appointment
        (record {
          business_id = business;
          service_id = service;
          staff_member_id = staff;
          starts_at = starts_at;
          customer_name = customer.name;
          customer_email = customer.email;
          customer_phone = customer.phone;
          deposit_amount_cents = none;
          deposit_customer_note = none;
          deposit_reference = none;
          waitlist_offer_id = none;
        })
        db
