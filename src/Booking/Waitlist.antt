-- ===== src/Booking/Waitlist.antt =====
-- appointments.service.ts: the waitlist and its offers.
use turno_flow.Prelude.{
  ℕ, suc, ◌-◌, ◌*◌, Bool, true, false, ◌&&◌, Option, none, some, Result, ok, thrown, not_found,
  conflict, or_throw, require, ◌>>=◌, ◌>>◌, ltb, leb, ◌==◌, count, any, find_first, update_where,
  [], ◌∷◌, ◌++◌,
}
use turno_flow.Text.{Text}
use turno_flow.Time.{Runtime, parse_date_only}
use turno_flow.Events.{EventType}
use turno_flow.Schema.{
  Db, Business, Appointment, WaitlistEntry, WaitlistOffer, WaitlistStatus, WaitlistOfferStatus,
  offer_payload, entry_payload,
}
use turno_flow.Store.{find_appointment, find_customer, outbox_create}
use turno_flow.Booking.{upsert_customer}
use turno_flow.Booking.Create.{is_pending_offer, close_offer, create_appointment}

unfoldable pub find_entry : ℕ → Db → Option WaitlistEntry
find_entry k db = find_first (λ e. e.id == k) db.waitlist_entries

-- `offer.status !== PENDING || offer.expiresAt <= new Date()` throws.
abbrev pub is_acceptable : ℕ → WaitlistOffer → Bool
is_acceptable now o = is_pending_offer o.status && ltb now o.expires_at

abbrev pub is_offered : WaitlistStatus → Bool
is_offered WaitlistStatus.offered = true
is_offered _ = false

-- `{ in: [WAITING, OFFERED] }`
abbrev pub is_waiting_or_offered : WaitlistStatus → Bool
is_waiting_or_offered WaitlistStatus.waiting = true
is_waiting_or_offered WaitlistStatus.offered = true
is_waiting_or_offered _ = false

-- The offer with an identifier, if its entry is the business's.
abbrev pub is_offer_of : ℕ → ℕ → Db → WaitlistOffer → Bool
is_offer_of business k db o =
    o.id == k
    && any (λ e. e.id == o.waitlist_entry_id && e.business_id == business) db.waitlist_entries

module _ (rt : Runtime) (now token : ℕ) where
  -- The tail of `acceptWaitlistOffer` and `acceptPrivateWaitlistOffer`, for an offer that was found.
  unfoldable pub take_offer : WaitlistOffer → Db → Result (Db × Appointment)
  unfolding find_entry
  take_offer o db = do
    require (is_acceptable now o) (not_found "Waitlist offer not found")
    a ← or_throw (find_appointment o.appointment_id db) (thrown "No Appointment found")
    entry ← or_throw (find_entry o.waitlist_entry_id db) (thrown "No WaitlistEntry found")
    customer ← or_throw (find_customer entry.customer_id db) (thrown "No Customer found")
    create_appointment rt now token
        (record {
          business_id = a.business_id;
          service_id = a.service_id;
          staff_member_id = some a.staff_member_id;
          starts_at = a.starts_at;
          customer_name = customer.name;
          customer_email = customer.email;
          customer_phone = customer.phone;
          deposit_amount_cents = none;
          deposit_customer_note = none;
          deposit_reference = none;
          waitlist_offer_id = some o.id;
        })
        db

  -- `acceptWaitlistOffer`
  unfoldable pub accept_waitlist_offer : ℕ → Db → Result (Db × Appointment)
  unfolding take_offer
  accept_waitlist_offer offer_token db = do
    o ←
        or_throw (find_first (λ o. o.token == offer_token) db.waitlist_offers)
          (not_found "Waitlist offer not found")
    take_offer o db

  -- `rejectWaitlistOfferRecord`
  unfoldable pub reject_waitlist_offer_record : WaitlistOffer → Db → Result Db
  reject_waitlist_offer_record o db = do
    db1 ← close_offer now o.id WaitlistOfferStatus.rejected db
    let db2 = record db1 {
      waitlist_entries =
          update_where (λ e. e.id == o.waitlist_entry_id && is_offered e.status)
            (λ e. record e { status = WaitlistStatus.waiting }) db1.waitlist_entries;
    }
    a ← or_throw (find_appointment o.appointment_id db) (thrown "No Appointment found")
    ok (
        outbox_create EventType.waitlist_offer_rejected o.appointment_id a.business_id
          (offer_payload a "rejected" (some o.waitlist_entry_id) o.id) db2)

  -- `acceptPrivateWaitlistOffer`
  unfoldable pub accept_private_waitlist_offer : Business → ℕ → Db → Result (Db × Appointment)
  unfolding take_offer
  accept_private_waitlist_offer business k db = do
    o ←
        or_throw (find_first (is_offer_of business.id k db) db.waitlist_offers)
          (not_found "Waitlist offer not found")
    take_offer o db

  -- `rejectWaitlistOffer`
  unfoldable pub reject_waitlist_offer : ℕ → Db → Result Db
  unfolding reject_waitlist_offer_record
  reject_waitlist_offer offer_token db = do
    o ←
        or_throw (find_first (λ o. o.token == offer_token) db.waitlist_offers)
          (not_found "Waitlist offer not found")
    require (is_acceptable now o) (not_found "Waitlist offer not found")
    reject_waitlist_offer_record o db

  -- `rejectPrivateWaitlistOffer`
  unfoldable pub reject_private_waitlist_offer : Business → ℕ → Db → Result Db
  unfolding reject_waitlist_offer_record
  reject_private_waitlist_offer business k db = do
    o ←
        or_throw (find_first (is_offer_of business.id k db) db.waitlist_offers)
          (not_found "Waitlist offer not found")
    require (is_acceptable now o) (not_found "Waitlist offer not found")
    reject_waitlist_offer_record o db

-- `cancelPrivateWaitlistEntry`
unfoldable pub cancel_private_waitlist_entry : Business → ℕ → Db → Result Db
cancel_private_waitlist_entry business k db = do
  let chosen = λ (e : WaitlistEntry).
      e.business_id == business.id && e.id == k && is_waiting_or_offered e.status
  require (count chosen db.waitlist_entries == 1) (not_found "Waitlist entry not found")
  ok (record db {
    waitlist_entries =
        update_where chosen (λ e. record e { status = WaitlistStatus.cancelled })
          db.waitlist_entries;
  })

-- The fields of `CreateWaitlistEntryDto`.
pub record EntryInput : Type 0 where
  pub service_id : ℕ
  pub customer_email : Text
  pub customer_name : Text
  pub customer_phone : Option Text
  pub preferred_date_start : Text
  pub preferred_date_end : Text
  pub earliest_time : Option Text
  pub latest_time : Option Text

-- `createWaitlistEntryForBusiness`. Comparing with an invalid date is false, and storing one is
-- refused by the client.
unfoldable pub create_waitlist_entry_for_business :
    Runtime → ℕ → EntryInput → Db → Result (Db × WaitlistEntry)
create_waitlist_entry_for_business rt business input db = do
  service ←
      or_throw
        (find_first (λ s. s.active && s.business_id == business && s.id == input.service_id)
          db.services)
        (not_found "Service not found")
  from ← parse_date_only rt input.preferred_date_start
  until ← parse_date_only rt input.preferred_date_end
  start ← or_throw from (thrown "Invalid date")
  end ← or_throw until (thrown "Invalid date")
  require (leb start end) (conflict "Preferred date range is invalid")
  let (db1, customer) =
      upsert_customer rt business input.customer_email input.customer_name input.customer_phone db
  let entry : WaitlistEntry = record {
    id = db1.next_id;
    business_id = business;
    service_id = service.id;
    customer_id = customer.id;
    preferred_date_start = start;
    preferred_date_end = end;
    earliest_time = input.earliest_time;
    latest_time = input.latest_time;
    status = WaitlistStatus.waiting;
    priority_score = 10 - customer.no_show_count * 2;
  }
  ok (
    outbox_create EventType.waitlist_entry_created entry.id business
        (entry_payload business customer.id service.id entry.id)
        (record db1 {
          next_id = suc db1.next_id;
          waitlist_entries = db1.waitlist_entries ++ entry ∷ [];
        }),
    entry,
  )
