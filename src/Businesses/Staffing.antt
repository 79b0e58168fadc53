-- ===== src/Businesses/Staffing.antt =====
-- businesses.service.ts: the staff of a business, which of them give which service, and the free
-- slots that the dashboard shows.
use turno_flow.Prelude.{
  ℕ, suc, List, [], ◌∷◌, ◌++◌, map, Bool, true, false, not, ◌&&◌, Option, none, some, Result, ok,
  not_found, thrown, or_throw, ◌>>=◌, ◌>>◌, ◌==◌, if◌then◌else◌, keep, find_first, update_where,
}
use turno_flow.Text.{Text}
use turno_flow.Time.{Runtime, DayBounds, parse_date_only, zoned_day_bounds, weekday_in_time_zone}
use turno_flow.Availability.{Input, Slot, calculate_availability}
use turno_flow.Events.{EventType}
use turno_flow.Schema.{
  Db, Business, Service, StaffMember, ServiceStaffMember, staff_payload, assignment_payload,
}
use turno_flow.Store.{outbox_create, audit_create}
use turno_flow.Booking.{rule_applies, exception_applies, is_busy_on, busy_slot}
use turno_flow.Businesses.{
  AuthenticatedUser, require_current_business, require_service, require_staff_member,
}
use turno_flow.Businesses.Schedule.{or_else}
use turno_flow.Businesses.Catalog.{log_entry}

-- `createStaffMember`
unfoldable pub create_staff_member : AuthenticatedUser → Db → Result (Db × StaffMember)
create_staff_member user db = do
  b ← require_current_business db user
  let s : StaffMember = record { id = db.next_id; business_id = b.id; active = true }
  ok (
    outbox_create EventType.staff_member_created s.id b.id (staff_payload s) (
        audit_create (log_entry "staff.created" user.id b.id s.id none (some (staff_payload s)))
          (record db { next_id = suc db.next_id; staff_members = db.staff_members ++ s ∷ [] })),
    s,
  )

-- `input.active === false && before.active`
abbrev pub is_deactivation : Option Bool → StaffMember → Bool
is_deactivation (some false) before = before.active
is_deactivation _ before = false

-- `updateStaffMember`, for the column that the model keeps.
unfoldable pub update_staff_member :
    AuthenticatedUser → ℕ → Option Bool → Db → Result (Db × StaffMember)
update_staff_member user k switch db = do
  b ← require_current_business db user
  require_staff_member db b.id k
  before ← or_throw (find_first (λ s. s.id == k) db.staff_members) (thrown "No StaffMember found")
  let updated : StaffMember = record before { active = or_else switch before.active }
  let ends = is_deactivation switch before
  ok (
    outbox_create
        (if ends then EventType.staff_member_deactivated else EventType.staff_member_updated)
        updated.id b.id (staff_payload updated)
        (audit_create
          (log_entry (if ends then "staff.deactivated" else "staff.updated") user.id b.id k
            (some (staff_payload before)) (some (staff_payload updated)))
          (record db {
            staff_members = update_where (λ s. s.id == k) (λ _. updated) db.staff_members;
          })),
    updated,
  )

abbrev pub is_assignment : ℕ → ℕ → ServiceStaffMember → Bool
is_assignment service staff a = a.service_id == service && a.staff_member_id == staff

-- `serviceStaffMember.upsert`, with the row that there is then.
abbrev pub upsert_assignment : ℕ → ℕ → Db → Db × ServiceStaffMember
upsert_assignment service staff db =
    elim (find_first (is_assignment service staff) db.assignments) [
      | some a ↦ (db, a)
      | none ↦
          let a : ServiceStaffMember = record {
            id = db.next_id;
            service_id = service;
            staff_member_id = staff;
          } in
          (record db { next_id = suc db.next_id; assignments = db.assignments ++ a ∷ [] }, a)
    ]

-- What the transaction of `assignStaffToService` writes after the upsert.
unfoldable pub record_assignment : (user business service staff : ℕ) → ServiceStaffMember → Db → Db
record_assignment user business service staff a db =
    audit_create
      (log_entry "service.staff_assigned" user business a.id none
        (some (assignment_payload service staff)))
      db

-- `assignStaffToService`
unfoldable pub assign_staff_to_service :
    AuthenticatedUser → ℕ → ℕ → Db → Result (Db × ServiceStaffMember)
unfolding record_assignment
assign_staff_to_service user service staff db = do
  b ← require_current_business db user
  require_service db b.id service
  require_staff_member db b.id staff
  let (db1, a) = upsert_assignment service staff db
  ok (record_assignment user.id b.id service staff a db1, a)

-- The transaction of `unassignStaffFromService`.
unfoldable pub remove_assignment : (user business service staff : ℕ) → ServiceStaffMember → Db → Db
remove_assignment user business service staff a db =
    audit_create
      (log_entry "service.staff_unassigned" user business a.id
        (some (assignment_payload service staff)) none)
      (record db { assignments = keep (λ x. not (is_assignment service staff x)) db.assignments })

-- `unassignStaffFromService`
unfoldable pub unassign_staff_from_service : AuthenticatedUser → ℕ → ℕ → Db → Result Db
unfolding remove_assignment
unassign_staff_from_service user service staff db = do
  b ← require_current_business db user
  require_service db b.id service
  a ←
      or_throw (find_first (is_assignment service staff) db.assignments)
        (not_found "Staff assignment not found")
  ok (remove_assignment user.id b.id service staff a db)

module _ (rt : Runtime) (now : ℕ) where
  -- What `getAvailabilitySlots` gives `calculateAvailability`: all the active staff is eligible.
  unfoldable pub dashboard_input : Db → Business → Service → Text → ℕ → ℕ → DayBounds → Input
  dashboard_input db b s date day weekday bounds = record {
    date = date;
    duration_minutes = s.duration_minutes;
    buffer_minutes = s.buffer_minutes;
    rules =
        map
          (λ r. record {
            staff_member_id = r.staff_member_id;
            start_time = r.start_time;
            end_time = r.end_time;
          })
          (keep (rule_applies db b.id weekday) db.rules);
    exceptions =
        map
          (λ e. record {
            staff_member_id = e.staff_member_id;
            start_time = e.start_time;
            end_time = e.end_time;
            kind = e.kind;
          })
          (keep (exception_applies db b.id day) db.exceptions);
    busy_slots = map busy_slot (keep (is_busy_on b.id none bounds) db.appointments);
    active_staff_member_ids =
        map (λ m. m.id) (keep (λ m. m.active && m.business_id == b.id) db.staff_members);
    timezone = b.timezone;
    now = now;
  }

  -- `getAvailabilitySlots`
  unfoldable pub get_availability_slots : AuthenticatedUser → ℕ → Text → Db → Result (List Slot)
  unfolding dashboard_input
  get_availability_slots user service_id date db = do
    b ← require_current_business db user
    s ←
        or_throw
          (find_first (λ s. s.active && s.business_id == b.id && s.id == service_id) db.services)
          (not_found "Service not found")
    requested ← parse_date_only rt date
    bounds ← zoned_day_bounds rt date b.timezone
    weekday ← weekday_in_time_zone rt date b.timezone
    day ← or_throw requested (thrown "Invalid date")
    calculate_availability rt (dashboard_input db b s date day weekday bounds)
