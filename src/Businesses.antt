-- ===== src/Businesses.antt =====
-- apps/api/src/businesses/businesses.service.ts: the business of a request and the checks that the
-- handlers share; and apps/api/src/common: the guards that run before a handler.
pub mod Access
pub mod Members
pub mod Owners
pub mod Schedule
pub mod Exceptions
pub mod Weekly
pub mod Catalog
pub mod Staffing
pub mod Assignments
pub mod Founding
use turno_flow.Prelude.{
  ℕ, List, [], ◌∷◌, Bool, true, false, not, ◌&&◌, ◌||◌, Option, none, some, Result, ok, err,
  not_found, conflict, forbidden, or_throw, require, ◌>>=◌, ◌>>◌, ltb, leb, ◌==◌, any, find_first,
}
use turno_flow.Text.{Text}
use turno_flow.Time.{minutes_since_midnight}
use turno_flow.Schema.{
  Db, Business, BusinessMember, BusinessMemberRole, owner, receptionist, professional, Service,
  StaffMember,
}
use turno_flow.Store.{find_business}

-- `AuthenticatedUser`, as the guards fill it in.
pub record AuthenticatedUser : Type 0 where
  pub id : ℕ
  pub business_id : Option ℕ
  pub role : Option BusinessMemberRole
  pub staff_member_id : Option ℕ

abbrev pub same_role : BusinessMemberRole → BusinessMemberRole → Bool
same_role owner owner = true
same_role receptionist receptionist = true
same_role professional professional = true
same_role _ _ = false

abbrev pub is_number : ℕ → Option ℕ → Bool
is_number k none = false
is_number k (some n) = n == k

-- `{ active: true, userId }`
abbrev pub is_active_member : ℕ → BusinessMember → Bool
is_active_member user m = m.active && is_number user m.user_id

-- `BusinessContextGuard.canActivate` for a request with a user.
unfoldable pub business_context_guard : Db → AuthenticatedUser → Result AuthenticatedUser
business_context_guard db user = do
  member ←
      or_throw (find_first (is_active_member user.id) db.members)
        (forbidden "No active business membership found")
  ok (record user {
    business_id = some member.business_id;
    role = some member.role;
    staff_member_id = member.staff_member_id;
  })

-- `RolesGuard.canActivate` for the roles that a handler is marked with.
unfoldable pub roles_guard : List BusinessMemberRole → AuthenticatedUser → Result (Unit {0})
roles_guard [] user = ok tt
roles_guard (r ∷ roles) user = do
  role ← or_throw user.role (forbidden "Role information unavailable")
  require (any (same_role role) (r ∷ roles)) (forbidden "Insufficient permissions for this action")

-- `OR: [{ ownerId }, { members: { some: { active: true, userId } } }]`
abbrev pub is_associated : List BusinessMember → ℕ → Business → Bool
is_associated members user b =
    b.owner_id == user || any (λ m. m.business_id == b.id && is_active_member user m) members

abbrev pub business_by_id : Option ℕ → Db → Option Business
business_by_id none db = none
business_by_id (some k) db = find_business k db

-- `requireCurrentBusiness`
unfoldable pub require_current_business : Db → AuthenticatedUser → Result Business
require_current_business db user = elim (business_by_id user.business_id db) [
  | some b ↦ ok b
  | none ↦
      or_throw (find_first (is_associated db.members user.id) db.businesses)
        (not_found "Current business is not configured")
]

-- `requireBusinessForUser`
unfoldable pub require_business_for_user : Db → AuthenticatedUser → ℕ → Result Business
require_business_for_user db user k =
    or_throw (find_first (λ b. b.id == k && is_associated db.members user.id b) db.businesses)
      (not_found "Business not found")

-- `requireService`
abbrev pub require_service : Db → ℕ → ℕ → Result (Unit {0})
require_service db business k =
    require (any (λ s. s.business_id == business && s.id == k) db.services)
      (not_found "Service not found")

-- `requireStaffMember`
abbrev pub require_staff_member : Db → ℕ → ℕ → Result (Unit {0})
require_staff_member db business k =
    require (any (λ s. s.business_id == business && s.id == k) db.staff_members)
      (not_found "Staff member not found")

-- `assertTimeRange`
unfoldable pub assert_time_range : Text → Text → Result (Unit {0})
unfolding minutes_since_midnight
assert_time_range start_time end_time = do
  from ← minutes_since_midnight start_time
  to ← minutes_since_midnight end_time
  require (ltb from to) (conflict "Availability start time must be before end time")
