-- ===== src/Booking/Reachability.antt =====
-- The invariant of the booking tables over all handlers, and the states that requests lead to.
use turno_flow.Prelude.{
  ℕ, suc, ◌≡◌, ap, subst, true, ◌&&◌, Option, arith, ok, thrown, not_found, conflict, require,
  or_throw, bind_elim, ok-injective, ◌==◌, leb, count, find_first, In, ◌<◌, ◌≢◌,
}
use turno_flow.Text.{Text, text_eq}
use turno_flow.Time.{Runtime, parse_date_only}
use turno_flow.Status.{is_active_status}
use turno_flow.Schema.{Db, Business, Appointment, WaitlistEntry}
use turno_flow.Store.{outbox_create}
use turno_flow.Store.Sound.{IsSound, Sound-mono}
use turno_flow.Booking.{upsert_customer}
use turno_flow.Booking.Create.{
  PublicBooking, create_public_appointment, book_appointment_for_customer,
}
use turno_flow.Booking.Waitlist.{
  EntryInput, is_waiting_or_offered, is_acceptable, is_offer_of, accept_waitlist_offer,
  accept_private_waitlist_offer, reject_waitlist_offer, reject_private_waitlist_offer,
  cancel_private_waitlist_entry, create_waitlist_entry_for_business,
}
use turno_flow.Booking.Soundness.{create_appointment-IsSound, upsert_customer-IsSound}
use turno_flow.Booking.Changes.{
  cancel_public_appointment-IsSound, cancel_appointment_for_customer-IsSound,
}
use turno_flow.Booking.Decisions.{update_private_appointment_status-IsSound}
use turno_flow.Booking.Rescheduling.{reschedule_appointment-IsSound}
use turno_flow.Availability.Spec.{Apart}
use turno_flow.Series.Occurrences.{create_series-Begun}
use turno_flow.Series.Closing.{cancel_series-IsSound, update_series-IsSound}
use turno_flow.Booking.System.{
  Step, series_creation, series_update, series_cancellation, public_booking, portal_booking,
  public_cancellation, portal_cancellation, decision, rescheduling, offer_acceptance,
  private_offer_acceptance, offer_rejection, private_offer_rejection, entry_cancellation,
  entry_creation, Reachable, start, next, take_offer-IsSound, reject_waitlist_offer_record-IsSound,
}

module _ (rt : Runtime) (now token : ℕ) where
  create_public_appointment-IsSound :
      (slug : Text) (input : PublicBooking) (db db' : Db) {a : Appointment}
      → IsSound db
      → create_public_appointment rt now token slug input db ≡ ok (db', a)
      → IsSound db'
  unfolding create_public_appointment
  create_public_appointment-IsSound slug input db db' s h =
      bind_elim
        (or_throw (find_first (λ b. text_eq b.slug slug) db.businesses)
          (not_found "Business not found"))
        _ h
        (λ business e1 h1.
          bind_elim (or_throw input.starts_at (conflict "Invalid appointment start date")) _ h1
            (λ starts_at e2 h2. create_appointment-IsSound rt now token _ db db' s h2))

  book_appointment_for_customer-IsSound :
      (business customer service : ℕ) (staff : Option ℕ) (starts_at : ℕ) (db db' : Db)
      {a : Appointment}
      → IsSound db
      → book_appointment_for_customer rt now token business customer service staff starts_at db
        ≡ ok (db', a)
      → IsSound db'
  unfolding book_appointment_for_customer
  book_appointment_for_customer-IsSound business customer service staff starts_at db db' s h =
      bind_elim
        (or_throw (find_first (λ c. c.business_id == business && c.id == customer) db.customers)
          (not_found "Customer not found"))
        _ h (λ found e1 h1. create_appointment-IsSound rt now token _ db db' s h1)

  -- The four answers to an offer.
  accept_waitlist_offer-IsSound :
      (offer_token : ℕ) (db db' : Db) {a : Appointment}
      → IsSound db
      → accept_waitlist_offer rt now token offer_token db ≡ ok (db', a)
      → IsSound db'
  unfolding accept_waitlist_offer
  accept_waitlist_offer-IsSound offer_token db db' s h =
      bind_elim
        (or_throw (find_first (λ o. o.token == offer_token) db.waitlist_offers)
          (not_found "Waitlist offer not found"))
        _ h (λ o e1 h1. take_offer-IsSound rt now token o db db' s h1)

  accept_private_waitlist_offer-IsSound :
      (business : Business) (k : ℕ) (db db' : Db) {a : Appointment}
      → IsSound db
      → accept_private_waitlist_offer rt now token business k db ≡ ok (db', a)
      → IsSound db'
  unfolding accept_private_waitlist_offer
  accept_private_waitlist_offer-IsSound business k db db' s h =
      bind_elim
        (or_throw (find_first (is_offer_of business.id k db) db.waitlist_offers)
          (not_found "Waitlist offer not found"))
        _ h (λ o e1 h1. take_offer-IsSound rt now token o db db' s h1)

  reject_waitlist_offer-IsSound :
      (offer_token : ℕ) (db db' : Db)
      → IsSound db
      → reject_waitlist_offer rt now token offer_token db ≡ ok db'
      → IsSound db'
  unfolding reject_waitlist_offer
  reject_waitlist_offer-IsSound offer_token db db' s h =
      bind_elim
        (or_throw (find_first (λ o. o.token == offer_token) db.waitlist_offers)
          (not_found "Waitlist offer not found"))
        _ h
        (λ o e1 h1.
          bind_elim (require (is_acceptable now o) (not_found "Waitlist offer not found")) _ h1
            (λ _ e2 h2. reject_waitlist_offer_record-IsSound rt now token o db db' s h2))

  reject_private_waitlist_offer-IsSound :
      (business : Business) (k : ℕ) (db db' : Db)
      → IsSound db
      → reject_private_waitlist_offer rt now token business k db ≡ ok db'
      → IsSound db'
  unfolding reject_private_waitlist_offer
  reject_private_waitlist_offer-IsSound business k db db' s h =
      bind_elim
        (or_throw (find_first (is_offer_of business.id k db) db.waitlist_offers)
          (not_found "Waitlist offer not found"))
        _ h
        (λ o e1 h1.
          bind_elim (require (is_acceptable now o) (not_found "Waitlist offer not found")) _ h1
            (λ _ e2 h2. reject_waitlist_offer_record-IsSound rt now token o db db' s h2))

cancel_private_waitlist_entry-IsSound :
    (business : Business) (k : ℕ) (db db' : Db)
    → IsSound db
    → cancel_private_waitlist_entry business k db ≡ ok db'
    → IsSound db'
unfolding cancel_private_waitlist_entry
cancel_private_waitlist_entry-IsSound business k db db' s h =
    bind_elim
      (require
        (count (λ e. e.business_id == business.id && e.id == k && is_waiting_or_offered e.status)
            db.waitlist_entries
          == 1)
        (not_found "Waitlist entry not found"))
      _ h (λ _ e h1. subst IsSound (ok-injective h1) s)

create_waitlist_entry_for_business-IsSound :
    (rt : Runtime) (business : ℕ) (input : EntryInput) (db db' : Db) {entry : WaitlistEntry}
    → IsSound db
    → create_waitlist_entry_for_business rt business input db ≡ ok (db', entry)
    → IsSound db'
unfolding create_waitlist_entry_for_business outbox_create
create_waitlist_entry_for_business-IsSound rt business input db db' s h =
    bind_elim
      (or_throw
        (find_first (λ s. s.active && s.business_id == business && s.id == input.service_id)
          db.services)
        (not_found "Service not found"))
      _ h
      (λ service e1 h1.
        bind_elim (parse_date_only rt input.preferred_date_start) _ h1 (λ from e2 h2.
          bind_elim (parse_date_only rt input.preferred_date_end) _ h2 (λ until e3 h3.
            bind_elim (or_throw from (thrown "Invalid date")) _ h3 (λ start e4 h4.
              bind_elim (or_throw until (thrown "Invalid date")) _ h4 (λ end e5 h5.
                bind_elim (require (leb start end) (conflict "Preferred date range is invalid")) _
                  h5
                  (λ _ e6 h6.
                    let db1 =
                      (upsert_customer rt business input.customer_email input.customer_name
                        input.customer_phone db).0 in
                    subst IsSound (ap (λ p. p.0) (ok-injective h6)) (
                      Sound-mono db1.next_id db1.appointments db1.customers (suc (suc db1.next_id))
                        (omega arith)
                        (upsert_customer-IsSound rt business input.customer_email
                          input.customer_name input.customer_phone db s).0)))))))

module _ (rt : Runtime) where
  -- Whichever handler answers a request, and whatever the request says, a state in which the
  -- identifiers are distinct and below the next one, no two active appointments of a staff member
  -- overlap, and each customer's counters count that customer's missed and completed appointments,
  -- leads to a state with these properties.
  pub Step-IsSound : {db db' : Db} → IsSound db → Step rt db db' → IsSound db'
  Step-IsSound s (public_booking now token slug input a h) =
      create_public_appointment-IsSound rt now token slug input _ _ s h
  Step-IsSound s (portal_booking now token business customer service staff starts_at a h) =
      book_appointment_for_customer-IsSound rt now token business customer service staff starts_at _
        _ s h
  Step-IsSound s (public_cancellation k token a h) =
      cancel_public_appointment-IsSound k token _ _ s h
  Step-IsSound s (portal_cancellation business customer k a h) =
      cancel_appointment_for_customer-IsSound business customer k _ _ s h
  Step-IsSound s (decision business k d a h) =
      update_private_appointment_status-IsSound business k d _ _ s h
  Step-IsSound s (rescheduling now input a h) = reschedule_appointment-IsSound rt now input _ _ s h
  Step-IsSound s (offer_acceptance now token offer_token a h) =
      accept_waitlist_offer-IsSound rt now token offer_token _ _ s h
  Step-IsSound s (private_offer_acceptance now token business k a h) =
      accept_private_waitlist_offer-IsSound rt now token business k _ _ s h
  Step-IsSound s (offer_rejection now token offer_token h) =
      reject_waitlist_offer-IsSound rt now token offer_token _ _ s h
  Step-IsSound s (private_offer_rejection now token business k h) =
      reject_private_waitlist_offer-IsSound rt now token business k _ _ s h
  Step-IsSound s (entry_cancellation business k h) =
      cancel_private_waitlist_entry-IsSound business k _ _ s h
  Step-IsSound s (entry_creation business input entry h) =
      create_waitlist_entry_for_business-IsSound rt business input _ _ s h
  Step-IsSound s (series_creation add_months now tokens input series h) =
      (create_series-Begun rt add_months now tokens input _ _ s h).sound
  Step-IsSound s (series_update business k input series h) =
      update_series-IsSound business k _ input _ s h
  Step-IsSound s (series_cancellation has_column now business k n h) =
      cancel_series-IsSound has_column now business k _ _ s h

  Reachable-IsSound : {db db' : Db} → IsSound db → Reachable rt db db' → IsSound db'
  Reachable-IsSound s start = s
  Reachable-IsSound s (next before step) = Step-IsSound (Reachable-IsSound s before) step

  -- Two active appointments of one staff member with different identifiers, whose ranges have a
  -- length, do not overlap in any state that requests lead to from a sound one.
  pub Reachable-Apart :
      {db db' : Db}
      → IsSound db
      → Reachable rt db db'
      → (a b : Appointment) → In a db'.appointments
      → In b db'.appointments
      → a.id ≢ b.id
      → is_active_status a.status ≡ true
      → is_active_status b.status ≡ true
      → a.staff_member_id ≡ b.staff_member_id
      → a.starts_at < a.ends_at
      → b.starts_at < b.ends_at
      → Apart a.starts_at a.ends_at b.starts_at b.ends_at
  Reachable-Apart s r a b ma mb other active_a active_b same len_a len_b =
      let apart = (Reachable-IsSound s r).exclusive a b ma mb in ground arith
