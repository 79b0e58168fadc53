-- ===== src/Booking.antt =====
-- apps/api/src/appointments/appointments.service.ts: the queries and checks that the booking
-- handlers share. One `now` stands for the instants that a handler reads from the clock.
pub mod Create
pub mod Lifecycle
pub mod Waitlist
pub mod Runs
pub mod Changes
pub mod Decisions
pub mod Rescheduling
pub mod System
pub mod Reachability
pub mod Openings
pub mod Slots
pub mod Creation
pub mod Cancellation
pub mod Deposits
pub mod Soundness
use text.Mathlib.Text.{◌==◌ as str_eq}
use turno_flow.Prelude.{
  ℕ, suc, ◌+◌, ◌*◌, List, [], ◌∷◌, ◌++◌, map, Bool, true, false, not, ◌&&◌, ◌||◌, Option, none,
  some, Result, ok, err, thrown, not_found, conflict, or_throw, require, ◌>>=◌, ◌>>◌, ltb, leb,
  ◌==◌, if◌then◌else◌, any, keep, find_first, update_where,
}
use turno_flow.Text.{Text, text_eq}
use turno_flow.Time.{
  Runtime, DayBounds, minute_ms, parse_date_only, zoned_day_bounds, weekday_in_time_zone,
  date_only_in_time_zone,
}
use turno_flow.Availability.{Rule, BusySlot, Exception, Slot, Input, calculate_availability}
use turno_flow.Status.{is_active_status}
use turno_flow.Schema.{
  Db, Business, Service, StaffMember, AvailabilityRule, AvailabilityException, Appointment,
  Customer,
}
use turno_flow.Store.{find_business, find_service}

-- `{ not: excludeAppointmentId }`, or no condition.
abbrev pub is_excluded : Option ℕ → ℕ → Bool
is_excluded none id = false
is_excluded (some k) id = id == k

-- `staffMember: { active: true }`
abbrev pub has_active_staff : ℕ → Db → Bool
has_active_staff k db = any (λ s. s.id == k && s.active) db.staff_members

abbrev pub rule_applies : Db → ℕ → ℕ → AvailabilityRule → Bool
rule_applies db business weekday r =
    r.active
    && r.business_id == business
    && has_active_staff r.staff_member_id db
    && r.weekday == weekday

abbrev pub exception_applies : Db → ℕ → ℕ → AvailabilityException → Bool
exception_applies db business day e =
    e.business_id == business
    && e.date == day
    && elim (e.staff_member_id) [ none ↦ true | some k ↦ has_active_staff k db ]

-- The active appointments that meet the day, but for the excluded one.
abbrev pub is_busy_on : ℕ → Option ℕ → DayBounds → Appointment → Bool
is_busy_on business exclude bounds a =
    a.business_id == business
    && not (is_excluded exclude a.id)
    && ltb a.starts_at bounds.end
    && is_active_status a.status
    && ltb bounds.start a.ends_at

abbrev pub busy_slot : Appointment → BusySlot
busy_slot a = record {
  staff_member_id = a.staff_member_id;
  starts_at = a.starts_at;
  ends_at = a.ends_at;
}

-- `eligibleStaffIds`: the active staff, cut down to the service's assignments if it has any.
abbrev pub eligible_staff : Db → ℕ → ℕ → List ℕ
eligible_staff db business service =
    let active : List ℕ =
      map (λ s. s.id) (keep (λ s. s.active && s.business_id == business) db.staff_members) in
    let assigned : List ℕ =
      map (λ a. a.staff_member_id) (keep (λ a. a.service_id == service) db.assignments) in
    elim assigned [ [] ↦ active | k ∷ ks ↦ keep (λ id. any (λ a. a == id) (k ∷ ks)) active ]

module _ (rt : Runtime) (now : ℕ) where
  -- What `calculateAvailability` is given for a day.
  unfoldable pub day_input : Db → Business → Service → Text → ℕ → ℕ → Option ℕ → DayBounds → Input
  day_input db business service date day weekday exclude bounds = record {
    date = date;
    duration_minutes = service.duration_minutes;
    buffer_minutes = service.buffer_minutes;
    rules =
        map
          (λ r. record {
            staff_member_id = r.staff_member_id;
            start_time = r.start_time;
            end_time = r.end_time;
          })
          (keep (rule_applies db business.id weekday) db.rules);
    exceptions =
        map
          (λ e. record {
            staff_member_id = e.staff_member_id;
            start_time = e.start_time;
            end_time = e.end_time;
            kind = e.kind;
          })
          (keep (exception_applies db business.id day) db.exceptions);
    busy_slots = map busy_slot (keep (is_busy_on business.id exclude bounds) db.appointments);
    active_staff_member_ids = eligible_staff db business.id service.id;
    timezone = business.timezone;
    now = now;
  }

  -- `getAvailabilityForTransaction`. A query for an invalid date is refused by the client.
  unfoldable pub get_availability_for_transaction :
      Db → ℕ → ℕ → Text → Option ℕ → Result (List Slot)
  unfolding day_input
  get_availability_for_transaction db business_id service_id date exclude = do
    requested ← parse_date_only rt date
    service ← or_throw (find_service service_id db) (thrown "No Service found")
    business ← or_throw (find_business business_id db) (thrown "No Business found")
    bounds ← zoned_day_bounds rt date business.timezone
    weekday ← weekday_in_time_zone rt date business.timezone
    day ← or_throw requested (thrown "Invalid date")
    calculate_availability rt (day_input db business service date day weekday exclude bounds)

  -- `dateOnlyForBusiness`
  unfoldable pub date_only_for_business : Db → ℕ → ℕ → Result Text
  date_only_for_business db business_id starts_at = do
    business ← or_throw (find_business business_id db) (thrown "No Business found")
    ok (date_only_in_time_zone rt starts_at business.timezone)

  -- `selectAvailableStaffMember`
  unfoldable pub select_available_staff_member : Db → ℕ → ℕ → ℕ → Result ℕ
  unfolding get_availability_for_transaction date_only_for_business
  select_available_staff_member db business_id service_id starts_at = do
    service ← or_throw (find_service service_id db) (thrown "No Service found")
    date ← date_only_for_business db business_id starts_at
    slots ← get_availability_for_transaction db business_id service_id date none
    slot ←
        or_throw (find_first (λ s. s.starts_at == starts_at) slots)
          (conflict "No staff member is available at the requested time")
    require
        (slot.starts_at + (service.duration_minutes + service.buffer_minutes) * minute_ms
          == slot.ends_at)
        (conflict "Requested slot does not match service duration")
    ok slot.staff_member_id

  -- `assertStaffMemberCanTakeSlot`, which returns nothing.
  unfoldable pub assert_staff_member_can_take_slot :
      Db → ℕ → ℕ → ℕ → ℕ → Option ℕ → Result (Unit {0})
  unfolding get_availability_for_transaction date_only_for_business
  assert_staff_member_can_take_slot db business_id service_id staff starts_at exclude = do
    member ←
        or_throw
          (find_first (λ s. s.active && s.business_id == business_id && s.id == staff)
            db.staff_members)
          (not_found "Staff member not found")
    date ← date_only_for_business db business_id starts_at
    slots ← get_availability_for_transaction db business_id service_id date exclude
    slot ←
        or_throw (find_first (λ s. s.staff_member_id == staff && s.starts_at == starts_at) slots)
          (conflict "Staff member is not available at the requested time")
    ok tt

-- `assertBusinessSlotIsFree`
unfoldable pub assert_business_slot_is_free : Db → ℕ → ℕ → ℕ → ℕ → Result (Unit {0})
assert_business_slot_is_free db business_id starts_at ends_at exclude =
    require
      (not (
        any
          (λ a.
            a.business_id == business_id
            && not (a.id == exclude)
            && ltb a.starts_at ends_at
            && is_active_status a.status
            && ltb starts_at a.ends_at)
          db.appointments))
      (conflict "Appointment slot is already occupied")

-- `if (!input.amountCents)`: no amount and an amount of 0 are the same.
abbrev pub truthy : Option ℕ → Option ℕ
truthy none = none
truthy (some n) = if n == 0 then none else some n

-- `assertDepositCanBeSubmitted`
unfoldable pub assert_deposit_can_be_submitted : Option ℕ → Bool → Service → Result (Unit {0})
assert_deposit_can_be_submitted amount enabled service = elim (truthy amount) [
  | none ↦ ok tt
  | some cents ↦ do
    require enabled (conflict "Manual deposits are not enabled for this business")
    require service.deposit_enabled (conflict "This service does not accept optional deposits")
    require (ltb 0 service.price_cents) (conflict "Cannot submit a deposit for a free service")
    require (leb cents service.price_cents)
        (conflict "Deposit cannot be greater than the service price")
]

-- `optionalTrim`
unfoldable pub optional_trim : Runtime → Option Text → Option Text
optional_trim rt none = none
optional_trim rt (some []) = none
optional_trim rt (some (c ∷ cs)) = elim (rt.trim (c ∷ cs)) [ [] ↦ none | t ∷ ts ↦ some (t ∷ ts) ]

abbrev pub is_customer : ℕ → Text → Customer → Bool
is_customer business email c = c.business_id == business && text_eq c.email email

-- `upsertCustomer`, by the unique key of business and email.
unfoldable pub upsert_customer : Runtime → ℕ → Text → Text → Option Text → Db → Db × Customer
upsert_customer rt business email name phone db =
    let key = rt.to_lower_case email in
    elim (find_first (is_customer business key) db.customers) [
      | some c ↦
          let updated = record c {
            name = name;
            phone = elim phone [ none ↦ c.phone | some p ↦ some p ];
          } in
          (
            record db { customers = update_where (λ x. x.id == c.id) (λ _. updated) db.customers },
            updated,
          )
      | none ↦
          let created : Customer = record {
            id = db.next_id;
            business_id = business;
            email = key;
            name = name;
            phone = phone;
            total_appointments = 0;
            completed_appointments = 0;
            no_show_count = 0;
          } in
          (
            record db { next_id = suc db.next_id; customers = db.customers ++ created ∷ [] },
            created,
          )
    ]
