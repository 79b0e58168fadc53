-- ===== src/Businesses/Schedule.antt =====
-- businesses.service.ts: the weekly rules of the staff.
use turno_flow.Prelude.{
  ℕ, suc, [], ◌∷◌, ◌++◌, Bool, true, false, not, ◌&&◌, Option, none, some, Result, ok, not_found,
  conflict, or_throw, require, ◌>>=◌, ◌>>◌, ◌==◌, any, find_first, update_where,
}
use turno_flow.Text.{Text}
use turno_flow.Events.{EventType}
use turno_flow.Schema.{Db, AvailabilityRule, rule_payload}
use turno_flow.Store.{outbox_create, audit_create}
use turno_flow.Booking.{is_excluded}
use turno_flow.Businesses.{
  AuthenticatedUser, require_current_business, require_staff_member, assert_time_range,
}

abbrev pub is_weekly_rule : ℕ → ℕ → ℕ → Option ℕ → AvailabilityRule → Bool
is_weekly_rule business staff weekday exclude r =
    r.active
    && r.business_id == business
    && not (is_excluded exclude r.id)
    && r.staff_member_id == staff
    && r.weekday == weekday

-- `assertUniqueWeeklyAvailabilityRule`
abbrev pub assert_unique_weekly_availability_rule : Db → ℕ → ℕ → ℕ → Option ℕ → Result (Unit {0})
assert_unique_weekly_availability_rule db business staff weekday exclude =
    require (not (any (is_weekly_rule business staff weekday exclude) db.rules))
      (conflict "Each professional can only have one active weekly availability per day")

pub record RuleInput : Type 0 where
  pub staff_member_id : ℕ
  pub weekday : ℕ
  pub start_time : Text
  pub end_time : Text

abbrev pub new_rule : ℕ → RuleInput → ℕ → AvailabilityRule
new_rule business input id = record {
  id = id;
  business_id = business;
  staff_member_id = input.staff_member_id;
  weekday = input.weekday;
  start_time = input.start_time;
  end_time = input.end_time;
  active = true;
}

-- `createAvailabilityRule`
unfoldable pub create_availability_rule :
    AuthenticatedUser → RuleInput → Db → Result (Db × AvailabilityRule)
create_availability_rule user input db = do
  b ← require_current_business db user
  require_staff_member db b.id input.staff_member_id
  assert_time_range input.start_time input.end_time
  assert_unique_weekly_availability_rule db b.id input.staff_member_id input.weekday none
  let rule = new_rule b.id input db.next_id
  ok (
    outbox_create EventType.availability_rule_created rule.id b.id (rule_payload rule) (
        audit_create
          (record {
            action = "availability_rule.created";
            business_id = b.id;
            entity_id = rule.id;
            before = none;
            after = some (rule_payload rule);
            user_id = some user.id;
          })
          (record db { next_id = suc db.next_id; rules = db.rules ++ rule ∷ [] })),
    rule,
  )

pub record RuleUpdate : Type 0 where
  pub weekday : Option ℕ
  pub start_time : Option Text
  pub end_time : Option Text
  pub active : Option Bool

-- `input.value ?? rule.value`
abbrev pub or_else {ℓ} : {A : Type ℓ} → Option A → A → A
or_else none a = a
or_else (some b) a = b

abbrev pub updated_rule : RuleUpdate → AvailabilityRule → AvailabilityRule
updated_rule input r = record r {
  weekday = or_else input.weekday r.weekday;
  start_time = or_else input.start_time r.start_time;
  end_time = or_else input.end_time r.end_time;
  active = or_else input.active r.active;
}

-- `if (nextActive) await this.assertUniqueWeeklyAvailabilityRule(…, ruleId)`
abbrev pub assert_unique_if_active : Db → AvailabilityRule → Result (Unit {0})
assert_unique_if_active db r = elim (r.active) [
  | true ↦
      assert_unique_weekly_availability_rule db r.business_id r.staff_member_id r.weekday
        (some r.id)
  | false ↦ ok tt
]

-- `updateAvailabilityRule`
unfoldable pub update_availability_rule :
    AuthenticatedUser → ℕ → RuleUpdate → Db → Result (Db × AvailabilityRule)
update_availability_rule user k input db = do
  b ← require_current_business db user
  rule ←
      or_throw (find_first (λ r. r.business_id == b.id && r.id == k) db.rules)
        (not_found "Availability rule not found")
  let next = updated_rule input rule
  assert_time_range next.start_time next.end_time
  assert_unique_if_active db next
  ok (record db { rules = update_where (λ r. r.id == next.id) (λ _. next) db.rules }, next)

-- `{ active: false }`
abbrev pub switched_off : RuleUpdate
switched_off = record { weekday = none; start_time = none; end_time = none; active = some false }

-- `deactivateAvailabilityRule`
unfoldable pub deactivate_availability_rule :
    AuthenticatedUser → ℕ → Db → Result (Db × AvailabilityRule)
unfolding update_availability_rule
deactivate_availability_rule user k db = update_availability_rule user k switched_off db
