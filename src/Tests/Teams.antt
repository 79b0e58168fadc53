-- ===== src/Tests/Teams.antt =====
-- The theorems on a business, its team and its schedule at small inputs.
use turno_flow.Prelude.{
  ℕ, ◌+◌, ◌*◌, ◌≡◌, ◌≢◌, refl, sym, subst, arith, [], ◌∷◌, true, false, none, some, Result, ok, err,
  conflict, In, inl, inr, ◌⊎◌,
}
use turno_flow.Text.{Text, codes}
use turno_flow.Time.{
  minute_ms, parse_date_only, zoned_day_bounds, weekday_in_time_zone, date_only_in_time_zone,
  date_at_zoned_minutes, minutes_since_midnight, zoned_instant, minus_offset, wall_clock,
  local_instant, utc_midnight, date_utc, weekday_number,
}
use turno_flow.Availability.{
  Slot, extra_opening, calculate_availability, candidate, is_blocking, scan, scan_windows, set_slot,
  sort_slots, insert_slot,
}
use turno_flow.Schema.{
  Db, Business, BusinessMember, owner, receptionist, professional, active, AvailabilityRule,
}
use turno_flow.Store.{find_business, find_service, outbox_create, audit_create}
use turno_flow.Booking.{get_availability_for_transaction, day_input}
use turno_flow.Slug.{to_slug, create_available_slug, try_slugs, is_taken}
use turno_flow.Slug.Shape.{is_slug, to_slug-is_slug}
use turno_flow.Slug.Available.{Chosen, create_available_slug-Chosen}
use turno_flow.Businesses.{
  AuthenticatedUser, business_context_guard, roles_guard, require_current_business,
  assert_time_range,
}
use turno_flow.Businesses.Access.{Admitted, guards-Admitted}
use turno_flow.Businesses.Members.{invite_member, add_invite, change_member_role}
use turno_flow.Businesses.Owners.{done, more, invitation, role_change, TeamSteps-owner}
use turno_flow.Businesses.Schedule.{RuleInput, new_rule, create_availability_rule}
use turno_flow.Businesses.Weekly.{Ranged, RuleSteps, creation, RuleSteps-unique}
use turno_flow.Businesses.Catalog.{BusinessInput, create_current}
use turno_flow.Businesses.Staffing.{dashboard_input, get_availability_slots}
use turno_flow.Businesses.Assignments.{get_availability_slots-booking}
use turno_flow.Businesses.Founding.{create_current-once}
use turno_flow.Tests.{midnight, runtime, business, service, empty}

to_slug-is_slug_example :
    (to_slug runtime (λ t. t) (codes "  cafe -- del sur!") ≡ [])
    ⊎ (is_slug (to_slug runtime (λ t. t) (codes "  cafe -- del sur!")) ≡ true)
to_slug-is_slug_example = to_slug-is_slug runtime (λ t. t) (codes "  cafe -- del sur!")

is_filled : to_slug runtime (λ t. t) (codes "shop") ≢ []
unfolding to_slug
is_filled h = absurd (cc h)

create_available_slug-Chosen_example :
    (slug : Text) × (create_available_slug runtime (λ t. t) empty (codes "shop") ≡ ok slug)
    × Chosen empty (to_slug runtime (λ t. t) (codes "shop")) 100 0 slug
create_available_slug-Chosen_example =
    create_available_slug-Chosen runtime (λ t. t) empty (codes "shop") is_filled (omega arith)

-- The second candidate is taken.
second_slug : create_available_slug runtime (λ t. t) empty (codes "shop") ≡ ok (codes "shop-2")
unfolding create_available_slug to_slug try_slugs
second_slug = refl

abbrev boss : BusinessMember
boss = record {
  id = 6;
  business_id = 1;
  user_id = some 2;
  active = true;
  role = owner;
  staff_member_id = none;
  status = active;
  invite_email = none;
  invite_expires_at = none;
  invite_token_hash = none;
}

abbrev team : Db
team = record empty { members = boss ∷ [] }

abbrev boss_user : AuthenticatedUser
boss_user = record { id = 2; business_id = none; role = none; staff_member_id = none }

abbrev resolved_user : AuthenticatedUser
resolved_user = record { id = 2; business_id = some 1; role = some owner; staff_member_id = none }

guarded : business_context_guard team boss_user ≡ ok resolved_user
unfolding business_context_guard
guarded = refl

permitted : roles_guard (receptionist ∷ owner ∷ []) resolved_user ≡ ok tt
unfolding roles_guard
permitted = refl

current : require_current_business team resolved_user ≡ ok business
unfolding require_current_business find_business
current = refl

keyed :
    (m : BusinessMember)
    → In m team.members
    → (c : Business) × (find_business m.business_id team ≡ some c)
unfolding find_business
keyed m (inl e) = rw e (business, refl)
keyed m (inr n) = elim n [ ]

guards-Admitted_example : Admitted team boss_user (receptionist ∷ owner ∷ []) business
guards-Admitted_example =
    guards-Admitted team boss_user resolved_user receptionist (owner ∷ []) business keyed guarded
      permitted current

-- A receptionist is invited, and made a professional.
abbrev invited : Result (Db × BusinessMember)
invited =
    invite_member runtime (λ email. none) 5 99 resolved_user
      (record { email = codes "b@x"; role = receptionist; staff_member_id = none }) team

abbrev state_after : Result (Db × BusinessMember) → Db
state_after (ok p) = p.0
state_after (err e) = team

abbrev member_after : Result (Db × BusinessMember) → BusinessMember
member_after (ok p) = p.1
member_after (err e) = boss

invited-ok : invited ≡ ok (state_after invited, member_after invited)
unfolding invite_member add_invite require_current_business find_business outbox_create audit_create
invited-ok = refl

abbrev promoted : Result (Db × BusinessMember)
promoted = change_member_role resolved_user 10 professional (state_after invited)

promoted-ok : promoted ≡ ok (state_after promoted, member_after promoted)
unfolding change_member_role invite_member add_invite require_current_business find_business
    outbox_create audit_create
promoted-ok = refl

TeamSteps-owner_example : In boss (state_after promoted).members
TeamSteps-owner_example =
    TeamSteps-owner runtime boss team (state_after promoted)
      (record { distinct = (tt, tt); below = (omega arith, tt) }) (inl refl) refl refl
      (more
        (more done
          (invitation (λ email. none) 5 99 resolved_user _ (member_after invited) invited-ok))
        (role_change resolved_user 10 professional (member_after promoted) promoted-ok))

abbrev idle : Db
idle = record team { rules = [] }

abbrev tuesday : RuleInput
tuesday = record {
  staff_member_id = 4;
  weekday = 2;
  start_time = codes "10:00";
  end_time = codes "13:30";
}

abbrev ruled : Result (Db × AvailabilityRule)
ruled = create_availability_rule resolved_user tuesday idle

abbrev ruled_state : Result (Db × AvailabilityRule) → Db
ruled_state (ok p) = p.0
ruled_state (err e) = idle

ruled-ok : ruled ≡ ok (ruled_state ruled, new_rule 1 tuesday 10)
unfolding create_availability_rule require_current_business find_business assert_time_range
    minutes_since_midnight outbox_create audit_create
ruled-ok = refl

ruled_rules : (ruled_state ruled).rules ≡ new_rule 1 tuesday 10 ∷ []
unfolding create_availability_rule require_current_business find_business assert_time_range
    minutes_since_midnight outbox_create audit_create
ruled_rules = refl

RuleSteps-unique_example :
    ((new_rule 1 tuesday 10).id ≡ (new_rule 1 tuesday 10).id) × Ranged (new_rule 1 tuesday 10)
RuleSteps-unique_example =
    RuleSteps-unique idle (ruled_state ruled) refl
      (RuleSteps.more RuleSteps.done
        (creation resolved_user tuesday (new_rule 1 tuesday 10) ruled-ok))
      (new_rule 1 tuesday 10) (new_rule 1 tuesday 10)
      (subst (In (new_rule 1 tuesday 10)) (sym ruled_rules) (inl refl))
      (subst (In (new_rule 1 tuesday 10)) (sym ruled_rules) (inl refl)) refl refl refl refl refl

-- Of two staff members, one is assigned to the service; an hour from 13:00 on is open for all.
abbrev assigned : Db
assigned = record team {
  staff_members =
      record { id = 4; business_id = 1; active = true }
      ∷ record { id = 9; business_id = 1; active = true }
      ∷ [];
  assignments = record { id = 6; service_id = 3; staff_member_id = 4 } ∷ [];
  rules = [];
  exceptions =
      record {
        id = 7;
        business_id = 1;
        staff_member_id = none;
        date = midnight;
        start_time = codes "13:00";
        end_time = codes "14:00";
        kind = extra_opening;
      }
      ∷ [];
}

abbrev hour_slot : ℕ → Slot
hour_slot staff = record {
  staff_member_id = staff;
  starts_at = midnight + 780 * minute_ms;
  ends_at = midnight + 840 * minute_ms;
}

shown-ok :
    get_availability_slots runtime midnight resolved_user 3 (codes "2030-01-07") assigned
    ≡ ok (hour_slot 4 ∷ hour_slot 9 ∷ [])
unfolding get_availability_slots get_availability_for_transaction require_current_business
    find_business find_service dashboard_input day_input calculate_availability candidate
    is_blocking scan scan_windows set_slot sort_slots insert_slot parse_date_only zoned_day_bounds
    weekday_in_time_zone date_only_in_time_zone date_at_zoned_minutes minutes_since_midnight
    zoned_instant minus_offset wall_clock local_instant utc_midnight date_utc weekday_number
shown-ok = refl

accepted-ok :
    get_availability_for_transaction runtime midnight assigned 1 3 (codes "2030-01-07") none
    ≡ ok (hour_slot 4 ∷ [])
unfolding get_availability_slots get_availability_for_transaction require_current_business
    find_business find_service dashboard_input day_input calculate_availability candidate
    is_blocking scan scan_windows set_slot sort_slots insert_slot parse_date_only zoned_day_bounds
    weekday_in_time_zone date_only_in_time_zone date_at_zoned_minutes minutes_since_midnight
    zoned_instant minus_offset wall_clock local_instant utc_midnight date_utc weekday_number
accepted-ok = refl

get_availability_slots-booking_example : In (hour_slot 4) (hour_slot 4 ∷ hour_slot 9 ∷ [])
unfolding require_current_business find_business find_service
get_availability_slots-booking_example =
    get_availability_slots-booking runtime midnight resolved_user 3 (codes "2030-01-07") assigned
      business service (hour_slot 4 ∷ hour_slot 9 ∷ []) (hour_slot 4 ∷ []) (hour_slot 4) refl refl
      refl refl shown-ok accepted-ok (inl refl)

-- Another user founds a business.
abbrev founder : AuthenticatedUser
founder = record { id = 8; business_id = none; role = none; staff_member_id = none }

abbrev idea : BusinessInput
idea = record { name = codes "shop"; slug = none; timezone = some (codes "UTC") }

abbrev founded : Result (Db × Business)
founded = create_current runtime (λ t. t) founder idea team

abbrev founded_state : Result (Db × Business) → Db
founded_state (ok p) = p.0
founded_state (err e) = team

abbrev founded_row : Business
founded_row = record {
  id = 10;
  owner_id = 8;
  slug = codes "shop-2";
  timezone = codes "UTC";
  manual_deposits_enabled = false;
}

founded-ok : founded ≡ ok (founded_state founded, founded_row)
unfolding create_current create_available_slug to_slug try_slugs outbox_create audit_create
founded-ok = refl

create_current-once_example :
    (is_taken team (codes "shop-2") ≡ false)
    × In founded_row (founded_state founded).businesses
    × (create_current runtime (λ t. t) founder idea (founded_state founded)
        ≡ err (conflict "User already has a business"))
create_current-once_example =
    create_current-once runtime (λ t. t) founder idea idea team (founded_state founded) founded-ok
