-- ===== src/Booking/Runs.antt =====
-- What a booking that succeeds went through: each step of `createAppointmentInTransaction`.
use turno_flow.Prelude.{
  ℕ, suc, ◌≡◌, ap, Bool, ◌&&◌, none, some, Result, ok, ◌>>=◌, thrown, not_found, or_throw,
  or_throw-eq-ok, bind_elim, ok-injective, ◌==◌, find_first,
}
use turno_flow.Time.{Runtime}
use turno_flow.Schema.{Db, Business, Service, Appointment, Customer}
use turno_flow.Store.{find_business, insert_appointment, find_appointment}
use turno_flow.Booking.{
  upsert_customer, assert_deposit_can_be_submitted, assert_staff_member_can_take_slot,
}
use turno_flow.Booking.Create.{
  BookingInput, accept_offer, after_insertion, create_in_transaction, choose_staff, new_appointment,
}

abbrev pub is_bookable : ℕ → ℕ → Service → Bool
is_bookable business service s = s.active && s.business_id == business && s.id == service

module _ (rt : Runtime) (now token : ℕ) (input : BookingInput) (db : Db) where
  -- The customer of the booking, and the state in which the row is inserted.
  abbrev pub with_customer : Db → Db × Customer
  with_customer db1 =
      upsert_customer rt input.business_id input.customer_email input.customer_name
        input.customer_phone db1

  abbrev pub booked_row : Db → Service → ℕ → Appointment
  booked_row db1 service staff =
      new_appointment rt now token input service staff (with_customer db1).1
        (with_customer db1).0.next_id

  pub record Created (db' : Db) (a : Appointment) : Type 0 where
    pub business : Business
    pub service : Service
    pub staff : ℕ
    pub db1 : Db
    pub db3 : Db
    pub found : find_business input.business_id db ≡ some business
    pub accepted : accept_offer now input.waitlist_offer_id db ≡ ok db1
    pub offered :
        find_first (is_bookable input.business_id input.service_id) db1.services ≡ some service
    pub deposit :
        assert_deposit_can_be_submitted input.deposit_amount_cents business.manual_deposits_enabled
          service
        ≡ ok tt
    pub chosen : choose_staff rt now token db1 input service.id ≡ ok staff
    pub free :
        assert_staff_member_can_take_slot rt now db1 input.business_id service.id staff
          input.starts_at none
        ≡ ok tt
    pub inserted :
        insert_appointment
          (booked_row db1 service staff)
          (record (with_customer db1).0 { next_id = suc (with_customer db1).0.next_id })
        ≡ ok db3
    pub result :
        after_insertion rt now token input business service (booked_row db1 service staff) db3 ≡ db'
    pub again : find_appointment (booked_row db1 service staff).id db' ≡ some a

  module _ (business : Business) (db1 : Db) (service : Service) (staff : ℕ) where
    abbrev row : Appointment
    row = booked_row db1 service staff

    -- The last steps: the insertion, the writes that follow it and the row read again.
    abbrev finish : Result (Db × Appointment)
    finish = do
      db3 ←
          insert_appointment row
            (record (with_customer db1).0 { next_id = suc (with_customer db1).0.next_id })
      let db4 = after_insertion rt now token input business service row db3
      created ← or_throw (find_appointment row.id db4) (thrown "No Appointment found")
      ok (db4, created)

    placed :
        {db' : Db} {a : Appointment}
        → find_business input.business_id db ≡ some business
        → accept_offer now input.waitlist_offer_id db ≡ ok db1
        → find_first (is_bookable input.business_id input.service_id) db1.services ≡ some service
        → assert_deposit_can_be_submitted input.deposit_amount_cents
            business.manual_deposits_enabled service
          ≡ ok tt
        → choose_staff rt now token db1 input service.id ≡ ok staff
        → assert_staff_member_can_take_slot rt now db1 input.business_id service.id staff
            input.starts_at none
          ≡ ok tt
        → finish ≡ ok (db', a)
        → Created db' a
    placed {db'} {a} e1 e2 e3 e4 e5 e6 h =
        bind_elim
          (insert_appointment row
            (record (with_customer db1).0 { next_id = suc (with_customer db1).0.next_id }))
          _ h
          (λ db3 e7 h7.
            let db4 = after_insertion rt now token input business service row db3 in
            bind_elim (or_throw (find_appointment row.id db4) (thrown "No Appointment found")) _ h7
              (λ created e8 h8.
                let same : db4 ≡ db' = ap (λ p. p.0) (ok-injective h8) in
                let same_row : created ≡ a = ap (λ p. p.1) (ok-injective h8) in
                record {
                  business = business;
                  service = service;
                  staff = staff;
                  db1 = db1;
                  db3 = db3;
                  found = e1;
                  accepted = e2;
                  offered = e3;
                  deposit = e4;
                  chosen = e5;
                  free = e6;
                  inserted = e7;
                  result = same;
                  again =
                      rw (← same, ← same_row) (or_throw-eq-ok (find_appointment row.id db4) _ e8);
                }))

  pub create_in_transaction-eq-ok :
      {db' : Db} {a : Appointment}
      → create_in_transaction rt now token input db ≡ ok (db', a)
      → Created db' a
  unfolding create_in_transaction
  create_in_transaction-eq-ok {db'} {a} h =
      bind_elim (or_throw (find_business input.business_id db) (thrown "No Business found")) _ h
        (λ business e1 h1.
          bind_elim (accept_offer now input.waitlist_offer_id db) _ h1 (λ db1 e2 h2.
            bind_elim
              (or_throw (find_first (is_bookable input.business_id input.service_id) db1.services)
                (not_found "Service not found"))
              _ h2
              (λ service e3 h3.
                bind_elim
                  (assert_deposit_can_be_submitted input.deposit_amount_cents
                    business.manual_deposits_enabled service)
                  _ h3
                  (λ _ e4 h4.
                    bind_elim (choose_staff rt now token db1 input service.id) _ h4 (λ staff e5 h5.
                      bind_elim
                        (assert_staff_member_can_take_slot rt now db1 input.business_id service.id
                          staff input.starts_at none)
                        _ h5
                        (λ _ e6 h6.
                          placed business db1 service staff (or_throw-eq-ok _ _ e1) e2
                            (or_throw-eq-ok _ _ e3) e4 e5 e6 h6))))))
