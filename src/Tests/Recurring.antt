-- ===== src/Tests/Recurring.antt =====
-- The theorems on series at the small business, whose customer asks for two appointments.
use turno_flow.Prelude.{
  String, Bool, true, ℕ, ◌+◌, ◌*◌, ◌≡◌, refl, [], ◌∷◌, none, some, Result, ok, err, forbidden,
}
use turno_flow.Time.{
  minute_ms, parse_date_only, zoned_day_bounds, weekday_in_time_zone, date_only_in_time_zone,
  date_at_zoned_minutes, minutes_since_midnight, zoned_instant, minus_offset, wall_clock,
  local_instant, utc_midnight, date_utc, weekday_number,
}
use turno_flow.Availability.{
  calculate_availability, candidate, is_blocking, scan, scan_windows, set_slot, sort_slots,
  insert_slot,
}
use turno_flow.Schema.{Db, Appointment, RecurringSeries, month, active, cancelled}
use turno_flow.Store.{
  insert_appointment, update_customer, record_event, outbox_create, find_business, find_service,
  find_appointment,
}
use turno_flow.Booking.{
  upsert_customer, optional_trim, select_available_staff_member, assert_staff_member_can_take_slot,
  get_availability_for_transaction, date_only_for_business, day_input,
  assert_deposit_can_be_submitted,
}
use turno_flow.Booking.Create.{
  create_appointment, create_in_transaction, accept_offer, close_offer, choose_staff,
  after_insertion, submit_deposit, book_entry, announce_offer,
}
use turno_flow.Series.{
  SeriesInput, create_series, create_occurrences, create_occurrence, after_occurrence, new_series,
  find_series,
}
use turno_flow.Series.Changes.{SeriesUpdate, update_series, cancel_rows, cancel_series}
use turno_flow.Series.Occurrences.{Begun, create_series-Begun}
use turno_flow.Series.Closing.{cancel_series-final}
use turno_flow.Tests.{midnight, runtime, empty, booked, booked-IsSound, ten}

-- The second occurrence comes two hours after the first.
abbrev request : SeriesInput
request = record {
  business_id = 1;
  customer_id = 10;
  service_id = 3;
  staff_member_id = 4;
  interval_value = 1;
  interval_unit = month;
  first_occurrence_at = ten;
  advance_notice_days = none;
  max_occurrences = 2;
}

abbrev months : ℕ → ℕ → ℕ
months date n = date + n * (60 * minute_ms)

abbrev series_run : Result (Db × RecurringSeries)
series_run = create_series runtime months midnight (λ i. 80 + i) request booked

abbrev begun : Result (Db × RecurringSeries) → Db
begun (ok p) = p.0
begun (err e) = empty

abbrev expected_series : RecurringSeries
expected_series = new_series runtime months midnight (λ i. 80 + i) request booked.next_id

series_run-ok : series_run ≡ ok (begun series_run, expected_series)
unfolding create_series create_occurrences create_occurrence after_occurrence create_appointment
    create_in_transaction accept_offer close_offer choose_staff after_insertion submit_deposit
    book_entry announce_offer upsert_customer optional_trim insert_appointment update_customer
    record_event outbox_create find_business find_service find_appointment
    select_available_staff_member assert_staff_member_can_take_slot get_availability_for_transaction
    date_only_for_business day_input assert_deposit_can_be_submitted calculate_availability
    candidate is_blocking scan scan_windows set_slot sort_slots insert_slot parse_date_only
    zoned_day_bounds weekday_in_time_zone date_only_in_time_zone date_at_zoned_minutes
    minutes_since_midnight zoned_instant minus_offset wall_clock local_instant utc_midnight date_utc
    weekday_number
series_run-ok = refl

create_series-Begun_example :
    Begun runtime months midnight (λ i. 80 + i) request booked (begun series_run) expected_series
create_series-Begun_example =
    create_series-Begun runtime months midnight (λ i. 80 + i) request booked (begun series_run)
      booked-IsSound series_run-ok

abbrev running : RecurringSeries
running = record expected_series { id = 20 }

abbrev occurrence : Appointment
occurrence = record {
  id = 21;
  business_id = 1;
  service_id = 3;
  staff_member_id = 4;
  customer_id = 10;
  starts_at = ten;
  ends_at = ten + 60 * minute_ms;
  status = turno_flow.Schema.AppointmentStatus.confirmed;
  cancellation_token = 80;
  recurring_series_id = some 20;
}

abbrev with_occurrence : Db
with_occurrence = record empty { recurring_series = running ∷ []; appointments = occurrence ∷ [] }

-- A client that knows every column that is asked for.
abbrev known : String → Bool
known column = true

abbrev walk_in : Appointment
walk_in = record occurrence { id = 22; staff_member_id = 5; recurring_series_id = none }

abbrev with_two : Db
with_two = record with_occurrence { next_id = 30; appointments = occurrence ∷ walk_in ∷ [] }

-- At noon the occurrence lies in the past.
abbrev noon : ℕ
noon = ten + 120 * minute_ms

abbrev closed_state : Db
closed_state = record with_occurrence {
  recurring_series = record running { status = cancelled } ∷ [];
}

closed-ok : cancel_series known noon 1 20 with_occurrence ≡ ok (closed_state, 0)
unfolding cancel_series find_series cancel_rows
closed-ok = refl

abbrev resumption : SeriesUpdate
resumption = record { advance_notice_days = none; max_occurrences = none; status = some active }

cancel_series-final_example :
    (update_series 1 20 resumption closed_state
      ≡ err (forbidden "Cannot update a cancelled or completed series"))
    × (cancel_series known noon 1 20 closed_state ≡ err (forbidden "Series is already cancelled"))
cancel_series-final_example =
    cancel_series-final known noon 1 20 with_occurrence closed_state resumption noon closed-ok
