-- ===== src/Booking/System.antt =====
-- The handlers of appointments.service.ts and recurring-series.service.ts as the steps of one system, whose requests come in any
-- order. A request that fails leaves the state as it was, and so takes no step.
use turno_flow.Prelude.{
  ℕ, String, Bool, suc, ◌≡◌, refl, subst, Option, arith, ok, thrown, not_found, require, or_throw,
  bind_elim, ok-injective, ◌==◌, count,
}
use turno_flow.Text.{Text}
use turno_flow.Time.{Runtime}
use turno_flow.Schema.{
  Db, Business, Appointment, RecurringSeries, WaitlistEntry, WaitlistOffer, WaitlistOfferStatus,
}
use turno_flow.Store.{outbox_create, find_appointment, find_customer}
use turno_flow.Store.Sound.{IsSound, Sound-mono}
use turno_flow.Booking.Create.{
  PublicBooking, close_offer, is_open_offer, create_public_appointment,
  book_appointment_for_customer,
}
use turno_flow.Booking.Lifecycle.{
  Decision, RescheduleInput, cancel_public_appointment, cancel_appointment_for_customer,
  update_private_appointment_status, reschedule_appointment,
}
use turno_flow.Booking.Waitlist.{
  EntryInput, find_entry, is_acceptable, take_offer, accept_waitlist_offer,
  accept_private_waitlist_offer, reject_waitlist_offer_record, reject_waitlist_offer,
  reject_private_waitlist_offer, cancel_private_waitlist_entry, create_waitlist_entry_for_business,
}
use turno_flow.Series.{SeriesInput, create_series}
use turno_flow.Series.Changes.{SeriesUpdate, update_series, cancel_series}
use turno_flow.Booking.Soundness.{create_appointment-IsSound}
use turno_flow.Booking.Changes.{Later, Later-IsSound}

-- Each constructor is one request that was answered.
pub data Step (rt : Runtime) (db db' : Db) : Type 0 where
  public_booking :
      (now token : ℕ) (slug : Text) (input : PublicBooking) (a : Appointment)
      → create_public_appointment rt now token slug input db ≡ ok (db', a)
      → Step rt db db'
  portal_booking :
      (now token business customer service : ℕ) (staff : Option ℕ) (starts_at : ℕ) (a : Appointment)
      → book_appointment_for_customer rt now token business customer service staff starts_at db
        ≡ ok (db', a)
      → Step rt db db'
  public_cancellation :
      (k token : ℕ) (a : Appointment)
      → cancel_public_appointment k token db ≡ ok (db', a)
      → Step rt db db'
  portal_cancellation :
      (business customer k : ℕ) (a : Appointment)
      → cancel_appointment_for_customer business customer k db ≡ ok (db', a)
      → Step rt db db'
  decision :
      (business : Business) (k : ℕ) (d : Decision) (a : Appointment)
      → update_private_appointment_status business k d db ≡ ok (db', a)
      → Step rt db db'
  rescheduling :
      (now : ℕ) (input : RescheduleInput) (a : Appointment)
      → reschedule_appointment rt now input db ≡ ok (db', a)
      → Step rt db db'
  offer_acceptance :
      (now token offer_token : ℕ) (a : Appointment)
      → accept_waitlist_offer rt now token offer_token db ≡ ok (db', a)
      → Step rt db db'
  private_offer_acceptance :
      (now token : ℕ) (business : Business) (k : ℕ) (a : Appointment)
      → accept_private_waitlist_offer rt now token business k db ≡ ok (db', a)
      → Step rt db db'
  offer_rejection :
      (now token offer_token : ℕ)
      → reject_waitlist_offer rt now token offer_token db ≡ ok db'
      → Step rt db db'
  private_offer_rejection :
      (now token : ℕ) (business : Business) (k : ℕ)
      → reject_private_waitlist_offer rt now token business k db ≡ ok db'
      → Step rt db db'
  entry_cancellation :
      (business : Business) (k : ℕ)
      → cancel_private_waitlist_entry business k db ≡ ok db'
      → Step rt db db'
  entry_creation :
      (business : ℕ) (input : EntryInput) (entry : WaitlistEntry)
      → create_waitlist_entry_for_business rt business input db ≡ ok (db', entry)
      → Step rt db db'
  series_creation :
      (add_months : ℕ → ℕ → ℕ) (now : ℕ) (tokens : ℕ → ℕ) (input : SeriesInput)
      (series : RecurringSeries)
      → create_series rt add_months now tokens input db ≡ ok (db', series)
      → Step rt db db'
  series_update :
      (business k : ℕ) (input : SeriesUpdate) (series : RecurringSeries)
      → update_series business k input db ≡ ok (db', series)
      → Step rt db db'
  series_cancellation :
      (has_column : String → Bool) (now business k n : ℕ)
      → cancel_series has_column now business k db ≡ ok (db', n)
      → Step rt db db'

-- The states that requests lead to.
pub data Reachable (rt : Runtime) (db : Db) : Db → Type 0 where
  start : Reachable rt db db
  next : {db1 db2 : Db} → Reachable rt db db1 → Step rt db1 db2 → Reachable rt db db2

module _ (rt : Runtime) (now token : ℕ) where
  close_offer-Later :
      (k : ℕ) (status : WaitlistOfferStatus) (db db1 : Db)
      → close_offer now k status db ≡ ok db1
      → Later db db1
  unfolding close_offer
  close_offer-Later k status db db1 h =
      bind_elim
        (require (count (is_open_offer now k) db.waitlist_offers == 1)
          (not_found "Waitlist offer not found"))
        _ h (λ _ e h'. subst (Later db) (ok-injective h') (omega arith, refl, refl))

  pub reject_waitlist_offer_record-IsSound :
      (o : WaitlistOffer) (db db' : Db)
      → IsSound db
      → reject_waitlist_offer_record rt now token o db ≡ ok db'
      → IsSound db'
  unfolding reject_waitlist_offer_record outbox_create
  reject_waitlist_offer_record-IsSound o db db' s h =
      bind_elim (close_offer now o.id WaitlistOfferStatus.rejected db) _ h (λ db1 e1 h1.
        bind_elim (or_throw (find_appointment o.appointment_id db) (thrown "No Appointment found"))
          _ h1
          (λ a e2 h2.
            let closed = Later-IsSound db db1 (close_offer-Later _ _ db db1 e1) s in
            subst IsSound (ok-injective h2) (
              Sound-mono db1.next_id db1.appointments db1.customers (suc db1.next_id) (omega arith)
                closed)))

  pub take_offer-IsSound :
      (o : WaitlistOffer) (db db' : Db) {a : Appointment}
      → IsSound db
      → take_offer rt now token o db ≡ ok (db', a)
      → IsSound db'
  unfolding take_offer
  take_offer-IsSound o db db' s h =
      bind_elim (require (is_acceptable now o) (not_found "Waitlist offer not found")) _ h
        (λ _ e1 h1.
          bind_elim
            (or_throw (find_appointment o.appointment_id db) (thrown "No Appointment found")) _ h1
            (λ a e2 h2.
              bind_elim
                (or_throw (find_entry o.waitlist_entry_id db) (thrown "No WaitlistEntry found")) _
                h2
                (λ entry e3 h3.
                  bind_elim
                    (or_throw (find_customer entry.customer_id db) (thrown "No Customer found")) _
                    h3 (λ customer e4 h4. create_appointment-IsSound rt now token _ db db' s h4))))
