-- ===== src/Businesses/Exceptions.antt =====
-- businesses.service.ts: the exceptions of single days, for one staff member or for all.
use turno_flow.Prelude.{
  ℕ, suc, [], ◌∷◌, ◌++◌, Bool, not, ◌&&◌, Option, none, some, Result, ok, not_found, thrown,
  or_throw, ◌>>=◌, ◌>>◌, ◌==◌, keep, find_first, update_where,
}
use turno_flow.Text.{Text}
use turno_flow.Time.{Runtime, parse_date_only}
use turno_flow.Availability.{ExceptionType}
use turno_flow.Events.{EventType}
use turno_flow.Schema.{Db, AvailabilityException, exception_payload}
use turno_flow.Store.{outbox_create, audit_create}
use turno_flow.Businesses.{
  AuthenticatedUser, require_current_business, require_staff_member, assert_time_range,
}
use turno_flow.Businesses.Schedule.{or_else}

pub record ExceptionInput : Type 0 where
  pub staff_member_id : Option ℕ
  pub date : Text
  pub start_time : Text
  pub end_time : Text
  pub kind : ExceptionType

abbrev require_staff_if_given : Db → ℕ → Option ℕ → Result (Unit {0})
require_staff_if_given db business none = ok tt
require_staff_if_given db business (some k) = require_staff_member db business k

-- `createAvailabilityException`. A row with an invalid date is refused by the client.
unfoldable pub create_availability_exception :
    Runtime → AuthenticatedUser → ExceptionInput → Db → Result (Db × AvailabilityException)
unfolding parse_date_only
create_availability_exception rt user input db = do
  b ← require_current_business db user
  require_staff_if_given db b.id input.staff_member_id
  assert_time_range input.start_time input.end_time
  parsed ← parse_date_only rt input.date
  date ← or_throw parsed (thrown "Invalid date")
  let exception : AvailabilityException = record {
    id = db.next_id;
    business_id = b.id;
    staff_member_id = input.staff_member_id;
    date = date;
    start_time = input.start_time;
    end_time = input.end_time;
    kind = input.kind;
  }
  ok (
    outbox_create EventType.availability_exception_created exception.id b.id
        (exception_payload exception)
        (record db { next_id = suc db.next_id; exceptions = db.exceptions ++ exception ∷ [] }),
    exception,
  )

abbrev is_exception : ℕ → ℕ → AvailabilityException → Bool
is_exception business k e = e.business_id == business && e.id == k

abbrev require_availability_exception : Db → ℕ → ℕ → Result AvailabilityException
require_availability_exception db business k =
    or_throw (find_first (is_exception business k) db.exceptions)
      (not_found "Availability exception not found")

-- `UpdateAvailabilityExceptionDto`: a staff member can be left as it is or be cleared.
pub record ExceptionUpdate : Type 0 where
  pub staff_member_id : Option (Option ℕ)
  pub date : Option Text
  pub start_time : Option Text
  pub end_time : Option Text
  pub kind : Option ExceptionType

-- `input.date ? parseDateOnly(input.date) : undefined`; an invalid date is refused by the client.
abbrev updated_date : Runtime → Option Text → ℕ → Result ℕ
updated_date rt none old = ok old
updated_date rt (some []) old = ok old
updated_date rt (some (c ∷ cs)) old = do
  parsed ← parse_date_only rt (c ∷ cs)
  or_throw parsed (thrown "Invalid date")

-- `updateAvailabilityException`
unfoldable pub update_availability_exception :
    Runtime → AuthenticatedUser → ℕ → ExceptionUpdate → Db → Result (Db × AvailabilityException)
update_availability_exception rt user k input db = do
  b ← require_current_business db user
  e ← require_availability_exception db b.id k
  require_staff_if_given db b.id (or_else input.staff_member_id none)
  assert_time_range (or_else input.start_time e.start_time) (or_else input.end_time e.end_time)
  date ← updated_date rt input.date e.date
  let updated = record e {
    staff_member_id = or_else input.staff_member_id e.staff_member_id;
    date = date;
    start_time = or_else input.start_time e.start_time;
    end_time = or_else input.end_time e.end_time;
    kind = or_else input.kind e.kind;
  }
  ok (
    record db { exceptions = update_where (λ x. x.id == k) (λ _. updated) db.exceptions },
    updated,
  )

-- `deleteAvailabilityException`
unfoldable pub delete_availability_exception :
    AuthenticatedUser → ℕ → Db → Result (Db × AvailabilityException)
delete_availability_exception user k db = do
  b ← require_current_business db user
  e ← require_availability_exception db b.id k
  ok (
    audit_create
        (record {
          action = "availability_exception.deleted";
          business_id = b.id;
          entity_id = k;
          before = some (exception_payload e);
          after = none;
          user_id = some user.id;
        })
        (record db { exceptions = keep (λ x. not (x.id == k)) db.exceptions }),
    e,
  )
