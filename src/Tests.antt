-- ===== src/Tests.antt =====
-- One small business, and runs of the model on it.
pub mod Bookings
pub mod Parts
pub mod Messages
pub mod Recurring
pub mod Teams
pub mod Setup
pub mod Desk
use turno_flow.Prelude.{
  ℕ, suc, ◌+◌, ◌-◌, ◌*◌, ◌/◌, ◌%◌, ◌≡◌, ◌≢◌, refl, sym, subst, arith, List, [], ◌∷◌, Bool, true,
  false, Option, none, some, Result, ok, err, conflict, In, inl, inr, ◌⊎◌, ltb, leb, ◌==◌, All,
  Ordered, find_first, ◌↔◌,
}
use turno_flow.Text.{Text, codes, text_eq, text_ltb}
use turno_flow.Time.{DayBounds, Runtime, minute_ms, utc_midnight, date_utc, weekday_number}
use turno_flow.Time.{
  parse_date_only, zoned_day_bounds, weekday_in_time_zone, date_only_in_time_zone,
  date_at_zoned_minutes, minutes_since_midnight, zoned_instant, minus_offset, wall_clock,
  local_instant,
}
use turno_flow.Availability.{
  calculate_availability, candidate, is_blocking, scan, scan_windows, set_slot, sort_slots,
  insert_slot,
}
use turno_flow.Store.{
  insert_appointment, update_customer, record_event, outbox_create, find_business, find_service,
  find_appointment,
}
use turno_flow.Booking.{
  upsert_customer, optional_trim, select_available_staff_member, assert_staff_member_can_take_slot,
  get_availability_for_transaction, date_only_for_business, day_input,
  assert_deposit_can_be_submitted,
}
use turno_flow.Booking.Create.{
  BookingInput, create_appointment, create_in_transaction, accept_offer, close_offer, choose_staff,
  after_insertion, submit_deposit, book_entry, announce_offer,
}
use turno_flow.Schema.{Db, Appointment, Customer, Service, Business, StaffMember, AppointmentStatus}
use turno_flow.Store.{replace_appointment}
use turno_flow.Store.Sound.{IsSound}
use turno_flow.Status.{is_active_status}
use turno_flow.Availability.Spec.{Apart}
use turno_flow.Booking.{is_busy_on}
use turno_flow.Booking.Create.{book_appointment_for_customer}
use turno_flow.Booking.Lifecycle.{
  cancel_public_appointment, cancel_in_transaction, set_status, announce_cancellation,
}
use turno_flow.Booking.Runs.{Created}
use turno_flow.Booking.Soundness.{create_appointment-IsSound}
use turno_flow.Booking.System.{next, start, portal_booking, public_cancellation}
use turno_flow.Booking.Reachability.{Reachable-Apart, Step-IsSound}
use turno_flow.Booking.Cancellation.{cancelled, cancel_public_appointment-twice}
use turno_flow.Booking.Creation.{create_appointment-row}
use turno_flow.Booking.Slots.{Granted, assert_staff_member_can_take_slot-Apart}

-- 2030-01-07, a Monday, at 00:00 UTC.
abbrev pub midnight : ℕ
midnight = 8641893974400000

abbrev pub two_digits : ℕ → Text
two_digits n = (b'0' + n / 10) ∷ (b'0' + n % 10) ∷ []

-- The clock of that day, in every zone.
abbrev pub runtime : Runtime
runtime = record {
  parts = λ zone v. record {
    year = codes "2030";
    month = codes "01";
    day = codes "07";
    hour = two_digits ((v - midnight) / 3600000);
    minute = two_digits ((v - midnight) / minute_ms % 60);
    second = two_digits ((v - midnight) / 1000 % 60);
  };
  weekday_name = λ zone v. "Mon";
  parse_date = λ t. some midnight;
  locale_leb = leb;
  to_lower_case = λ t. t;
  trim = λ t. t;
}

abbrev pub business : Business
business = record {
  id = 1;
  owner_id = 2;
  slug = codes "shop";
  timezone = codes "UTC";
  manual_deposits_enabled = true;
}

abbrev pub service : Service
service = record {
  id = 3;
  business_id = 1;
  active = true;
  duration_minutes = 45;
  buffer_minutes = 15;
  price_cents = 5000;
  deposit_enabled = true;
}

-- A database with one staff member, who works from 09:00 to 12:00 on Mondays.
abbrev pub empty : Db
empty = record {
  next_id = 10;
  businesses = business ∷ [];
  members = [];
  services = service ∷ [];
  staff_members = record { id = 4; business_id = 1; active = true } ∷ [];
  assignments = [];
  rules =
      record {
        id = 5;
        business_id = 1;
        staff_member_id = 4;
        weekday = 1;
        start_time = codes "09:00";
        end_time = codes "12:00";
        active = true;
      }
      ∷ [];
  exceptions = [];
  appointments = [];
  customers = [];
  payments = [];
  waitlist_entries = [];
  waitlist_offers = [];
  appointment_events = [];
  outbox = [];
  audit_logs = [];
  recurring_series = [];
}

pub empty-IsSound : IsSound empty
empty-IsSound = record {
  exclusive = λ a b m n. elim m [ ];
  distinct = tt;
  below = tt;
  customers_distinct = tt;
  customers_below = tt;
  counted = tt;
}

abbrev pub nine : ℕ
nine = midnight + 540 * minute_ms

abbrev pub booking : ℕ → BookingInput
booking starts_at = record {
  business_id = 1;
  service_id = 3;
  staff_member_id = none;
  starts_at = starts_at;
  customer_name = codes "Ana";
  customer_email = codes "ana@x";
  customer_phone = none;
  deposit_amount_cents = some 1000;
  deposit_customer_note = none;
  deposit_reference = none;
  waitlist_offer_id = none;
}

-- The state and the row of a run that succeeds.
abbrev pub state_of : Result (Db × Appointment) → Db
state_of (ok p) = p.0
state_of (err e) = empty

abbrev pub row_of : Appointment → Result (Db × Appointment) → Appointment
row_of a (ok p) = p.1
row_of a (err e) = a

abbrev pub expected_row : Appointment
expected_row = record {
  id = 11;
  business_id = 1;
  service_id = 3;
  staff_member_id = 4;
  customer_id = 10;
  starts_at = nine;
  ends_at = nine + 60 * minute_ms;
  status = AppointmentStatus.confirmed;
  cancellation_token = 77;
  recurring_series_id = none;
}

abbrev pub first_run : Result (Db × Appointment)
first_run = create_appointment runtime midnight 77 (booking nine) empty

-- The first booking of the day succeeds, with the only staff member.
pub first_run-ok : first_run ≡ ok (state_of first_run, expected_row)
unfolding create_appointment create_in_transaction accept_offer close_offer choose_staff
    after_insertion submit_deposit book_entry announce_offer upsert_customer optional_trim
    insert_appointment update_customer record_event outbox_create find_business find_service
    find_appointment select_available_staff_member assert_staff_member_can_take_slot
    get_availability_for_transaction date_only_for_business day_input
    assert_deposit_can_be_submitted calculate_availability candidate is_blocking scan scan_windows
    set_slot sort_slots insert_slot parse_date_only zoned_day_bounds weekday_in_time_zone
    date_only_in_time_zone date_at_zoned_minutes minutes_since_midnight zoned_instant minus_offset
    wall_clock local_instant utc_midnight date_utc weekday_number
first_run-ok = refl

abbrev pub booked : Db
booked = state_of first_run

abbrev pub ten : ℕ
ten = nine + 60 * minute_ms

abbrev pub second_row : Appointment
second_row = record expected_row {
  id = 15;
  starts_at = ten;
  ends_at = ten + 60 * minute_ms;
  cancellation_token = 78;
}

abbrev pub second_run : Result (Db × Appointment)
second_run = book_appointment_for_customer runtime midnight 78 1 10 3 none ten booked

-- The customer books the next hour too, in the portal.
pub second_run-ok : second_run ≡ ok (state_of second_run, second_row)
unfolding book_appointment_for_customer create_appointment create_in_transaction accept_offer
    close_offer choose_staff after_insertion submit_deposit book_entry announce_offer
    upsert_customer optional_trim insert_appointment update_customer record_event outbox_create
    find_business find_service find_appointment select_available_staff_member
    assert_staff_member_can_take_slot get_availability_for_transaction date_only_for_business
    day_input assert_deposit_can_be_submitted calculate_availability candidate is_blocking scan
    scan_windows set_slot sort_slots insert_slot parse_date_only zoned_day_bounds
    weekday_in_time_zone date_only_in_time_zone date_at_zoned_minutes minutes_since_midnight
    zoned_instant minus_offset wall_clock local_instant utc_midnight date_utc weekday_number
second_run-ok = refl

-- The hour is taken now.
pub third_run :
    create_appointment runtime midnight 79 (booking nine) booked
    ≡ err (conflict "No staff member is available at the requested time")
unfolding create_appointment create_in_transaction accept_offer close_offer choose_staff
    after_insertion submit_deposit book_entry announce_offer upsert_customer optional_trim
    insert_appointment update_customer record_event outbox_create find_business find_service
    find_appointment select_available_staff_member assert_staff_member_can_take_slot
    get_availability_for_transaction date_only_for_business day_input
    assert_deposit_can_be_submitted calculate_availability candidate is_blocking scan scan_windows
    set_slot sort_slots insert_slot parse_date_only zoned_day_bounds weekday_in_time_zone
    date_only_in_time_zone date_at_zoned_minutes minutes_since_midnight zoned_instant minus_offset
    wall_clock local_instant utc_midnight date_utc weekday_number
third_run = refl

pub booked-IsSound : IsSound booked
booked-IsSound =
    create_appointment-IsSound runtime midnight 77 (booking nine) empty booked empty-IsSound
      first_run-ok

pub both_listed : (state_of second_run).appointments ≡ expected_row ∷ second_row ∷ []
unfolding book_appointment_for_customer create_appointment create_in_transaction accept_offer
    close_offer choose_staff after_insertion submit_deposit book_entry announce_offer
    upsert_customer optional_trim insert_appointment update_customer record_event outbox_create
    find_business find_service find_appointment select_available_staff_member
    assert_staff_member_can_take_slot get_availability_for_transaction date_only_for_business
    day_input assert_deposit_can_be_submitted calculate_availability candidate is_blocking scan
    scan_windows set_slot sort_slots insert_slot parse_date_only zoned_day_bounds
    weekday_in_time_zone date_only_in_time_zone date_at_zoned_minutes minutes_since_midnight
    zoned_instant minus_offset wall_clock local_instant utc_midnight date_utc weekday_number
both_listed = refl

abbrev pub cancellation : Result (Db × Appointment)
cancellation = cancel_public_appointment 11 77 booked

pub cancellation-ok : cancellation ≡ ok (state_of cancellation, cancelled expected_row)
unfolding cancel_public_appointment cancel_in_transaction set_status announce_cancellation
    replace_appointment create_appointment create_in_transaction accept_offer close_offer
    choose_staff after_insertion submit_deposit book_entry announce_offer upsert_customer
    optional_trim insert_appointment update_customer record_event outbox_create find_business
    find_service find_appointment select_available_staff_member assert_staff_member_can_take_slot
    get_availability_for_transaction date_only_for_business day_input
    assert_deposit_can_be_submitted calculate_availability candidate is_blocking scan scan_windows
    set_slot sort_slots insert_slot parse_date_only zoned_day_bounds weekday_in_time_zone
    date_only_in_time_zone date_at_zoned_minutes minutes_since_midnight zoned_instant minus_offset
    wall_clock local_instant utc_midnight date_utc weekday_number
cancellation-ok = refl

-- Beside the first booking, the check lets the staff member's next hour through.
abbrev pub with_booking : Db
with_booking = record empty { appointments = expected_row ∷ [] }

pub granted : assert_staff_member_can_take_slot runtime midnight with_booking 1 3 4 ten none ≡ ok tt
unfolding create_appointment create_in_transaction accept_offer close_offer choose_staff
    after_insertion submit_deposit book_entry announce_offer upsert_customer optional_trim
    insert_appointment update_customer record_event outbox_create find_business find_service
    find_appointment select_available_staff_member assert_staff_member_can_take_slot
    get_availability_for_transaction date_only_for_business day_input
    assert_deposit_can_be_submitted calculate_availability candidate is_blocking scan scan_windows
    set_slot sort_slots insert_slot parse_date_only zoned_day_bounds weekday_in_time_zone
    date_only_in_time_zone date_at_zoned_minutes minutes_since_midnight zoned_instant minus_offset
    wall_clock local_instant utc_midnight date_utc weekday_number
granted = refl

abbrev pub bounds : DayBounds
bounds = record { start = midnight; end = midnight + 86400000 }

pub bounds-ok :
    zoned_day_bounds runtime
      (date_only_in_time_zone runtime ten business.timezone)
      business.timezone
    ≡ ok bounds
unfolding zoned_day_bounds date_only_in_time_zone date_at_zoned_minutes zoned_instant minus_offset
    wall_clock local_instant utc_midnight date_utc parse_date_only
bounds-ok = refl
