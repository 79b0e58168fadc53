-- ===== src/Series.antt =====
-- apps/api/src/appointments/recurring-series.service.ts: series of appointments. The calendar month
-- arithmetic of the runtime's `Date` is the argument `add_months`, and the random token of each
-- occurrence is `tokens i`.
pub mod Occurrences
pub mod Changes
pub mod Cancelling
pub mod Closing
use text.Mathlib.Text.{◌==◌ as str_eq}
use turno_flow.Prelude.{
  ℕ, zero, suc, ◌+◌, ◌-◌, ◌*◌, List, [], ◌∷◌, ◌++◌, String, map, Bool, true, false, not, ◌&&◌,
  Option, none, some, Result, ok, err, thrown, not_found, forbidden, or_throw, require, ◌>>=◌, ◌>>◌,
  ltb, ◌==◌, any, keep, find_first, update_where, length,
}
use turno_flow.Text.{Text, codes}
use turno_flow.Time.{Runtime, minute_ms, day_ms}
use turno_flow.Events.{EventType}
use turno_flow.Status.{is_active_status}
use turno_flow.Schema.{
  Db, Service, StaffMember, Customer, Appointment, AppointmentStatus, AppointmentEvent,
  IntervalUnit, RecurringSeries, RecurringSeriesStatus, day, week, month, active, cancelled,
  completed, appointment_payload, series_payload, Payload,
}
use turno_flow.Store.{
  find_business, find_customer, insert_appointment, update_customer, record_event, outbox_create,
}
use turno_flow.Booking.{assert_staff_member_can_take_slot}

-- `DEFAULT_TIMEZONE`
abbrev pub default_timezone : Text
default_timezone = codes "America/Argentina/Buenos_Aires"

-- `addInterval`: days and weeks of UTC have a fixed length.
abbrev pub add_interval : (ℕ → ℕ → ℕ) → ℕ → IntervalUnit → ℕ → ℕ → ℕ
add_interval add_months date day value count = date + value * count * day_ms
add_interval add_months date week value count = date + value * count * 7 * day_ms
add_interval add_months date month value count = add_months date (value * count)

-- The user's business with the body of the request.
pub record SeriesInput : Type 0 where
  pub business_id : ℕ
  pub customer_id : ℕ
  pub service_id : ℕ
  pub staff_member_id : ℕ
  pub interval_value : ℕ
  pub interval_unit : IntervalUnit
  pub first_occurrence_at : ℕ
  pub advance_notice_days : Option ℕ
  pub max_occurrences : ℕ

abbrev pub timezone_of : ℕ → Db → Text
timezone_of business db = elim (find_business business db) [
  | none ↦ default_timezone
  | some b ↦ b.timezone
]

abbrev pub is_series : ℕ → ℕ → RecurringSeries → Bool
is_series business k s = s.business_id == business && s.id == k

unfoldable pub find_series : ℕ → ℕ → Db → Option RecurringSeries
find_series business k db = find_first (is_series business k) db.recurring_series

module _ (rt : Runtime) (add_months : ℕ → ℕ → ℕ) (now : ℕ) (tokens : ℕ → ℕ)
    (input : SeriesInput) where
  abbrev pub occurrence_at : ℕ → ℕ
  occurrence_at i =
      add_interval add_months input.first_occurrence_at input.interval_unit input.interval_value i

  abbrev pub occurrence_row : (series : ℕ) → Service → Customer → ℕ → ℕ → Appointment
  occurrence_row series service customer i id = record {
    id = id;
    business_id = input.business_id;
    service_id = service.id;
    staff_member_id = input.staff_member_id;
    customer_id = customer.id;
    starts_at = occurrence_at i;
    ends_at = occurrence_at i + (service.duration_minutes + service.buffer_minutes) * minute_ms;
    status = AppointmentStatus.confirmed;
    cancellation_token = tokens i;
    recurring_series_id = some series;
  }

  -- The writes that follow the insertion of an occurrence.
  unfoldable pub after_occurrence : Customer → Text → Appointment → Db → Db
  after_occurrence customer zone a db =
      outbox_create EventType.appointment_booked a.id input.business_id (appointment_payload a zone)
        (record_event a.id input.business_id EventType.appointment_booked (
          update_customer customer.id
            (λ c. record c { total_appointments = c.total_appointments + 1 }) db))

  -- The body of the loop.
  unfoldable pub create_occurrence : (series : ℕ) → Service → Customer → Text → ℕ → Db → Result Db
  unfolding after_occurrence
  create_occurrence series service customer zone i db = do
    assert_staff_member_can_take_slot rt now db input.business_id input.service_id
        input.staff_member_id (occurrence_at i) none
    let a = occurrence_row series service customer i db.next_id
    db1 ← insert_appointment a (record db { next_id = suc db.next_id })
    ok (after_occurrence customer zone a db1)

  -- `for (let i = 0; i < maxOccurrences; i++)`, with the rounds that are left and `i`.
  unfoldable pub create_occurrences :
      (series : ℕ) → Service → Customer → Text → (rounds i : ℕ) → Db → Result Db
  unfolding create_occurrence
  create_occurrences series service customer zone zero i db = ok db
  create_occurrences series service customer zone (suc n) i db =
      create_occurrence series service customer zone i db
      >>= create_occurrences series service customer zone n (i + 1)

  abbrev pub new_series : ℕ → RecurringSeries
  new_series id =
      let last = occurrence_at (input.max_occurrences - 1) in
      record {
        id = id;
        business_id = input.business_id;
        customer_id = input.customer_id;
        service_id = input.service_id;
        staff_member_id = input.staff_member_id;
        interval_value = input.interval_value;
        interval_unit = input.interval_unit;
        next_occurrence_at =
            add_interval add_months last input.interval_unit input.interval_value 1;
        advance_notice_days = 0;
        status = active;
        max_occurrences = some input.max_occurrences;
        occurrences_created = input.max_occurrences;
      }

  abbrev pub with_series : Db → Db
  with_series db = record db {
    next_id = suc db.next_id;
    recurring_series = db.recurring_series ++ new_series db.next_id ∷ [];
  }

  -- `createSeries`
  unfoldable pub create_series : Db → Result (Db × RecurringSeries)
  unfolding create_occurrences
  create_series db = do
    customer ←
        or_throw
          (find_first (λ c. c.id == input.customer_id && c.business_id == input.business_id)
            db.customers)
          (not_found "Customer not found")
    service ←
        or_throw
          (find_first
            (λ s. s.id == input.service_id && s.business_id == input.business_id && s.active)
            db.services)
          (not_found "Service not found")
    staff ←
        or_throw
          (find_first
            (λ s. s.id == input.staff_member_id && s.business_id == input.business_id && s.active)
            db.staff_members)
          (not_found "Staff member not found")
    db1 ←
        create_occurrences db.next_id service customer (timezone_of input.business_id db)
          input.max_occurrences 0 (with_series db)
    ok (
      outbox_create EventType.recurring_series_created db.next_id input.business_id
          (series_payload (new_series db.next_id)) db1,
      new_series db.next_id,
    )
