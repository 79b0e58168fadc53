-- ===== src/Tests/Parts.antt =====
-- The theorems on slots, times, payments, sessions and event names at small inputs.
use turno_flow.Prelude.{
  ℕ, ◌+◌, ◌*◌, ◌≡◌, ◌≢◌, ◌<◌, ◌≤◌, ◌↔◌, ◌⊎◌, inl, inr, refl, arith, List, [], ◌∷◌, true, false,
  none, some, Result, ok, err, unauthorized, In, Ordered, leb, Bool-cases,
}
use turno_flow.Text.{Text, codes, text_ltb}
use turno_flow.Time.{
  minute_ms, minutes_since_midnight, date_only_in_time_zone, date_at_zoned_minutes, zoned_instant,
  minus_offset, wall_clock, local_instant, utc_midnight, date_utc,
}
use turno_flow.Time.Clock.{clock_text, minutes_since_midnight_iff}
use turno_flow.Time.Zones.{first_guess, wall_clock-zoned_instant}
use turno_flow.Availability.{
  Slot, Input, blocked, windows, current_date, calculate_availability, candidate, is_blocking, scan,
  scan_windows, set_slot, sort_slots, insert_slot,
}
use turno_flow.Availability.Spec.{Offered}
use turno_flow.Availability.Order.{IsCollation, Before, Distinct}
use turno_flow.Availability.Results.{calculate_availability-In_iff, calculate_availability-Ordered}
use turno_flow.Events.{EventType, routing_key, type_name}
use turno_flow.Events.Names.{routing_key_injective}
use turno_flow.Schema.{Db, Payment, submitted, confirmed, rejected}
use turno_flow.Store.{find_service, find_appointment, outbox_create, audit_create}
use turno_flow.Booking.{optional_trim, assert_deposit_can_be_submitted}
use turno_flow.Booking.Deposits.{IsAcceptable, assert_deposit_can_be_submitted_iff}
use turno_flow.Payments.{transition_payment, transition_in_transaction, transition_data}
use turno_flow.Payments.Closing.{transition_payment-closed}
use turno_flow.Sessions.{
  Accounts, RefreshToken, Crypto, AuthTokens, refresh, refresh_found, refresh_stored, rotate,
  create_refresh_token_record, logout,
}
use turno_flow.Sessions.Rotation.{Shut, refresh-revoked}
use turno_flow.Sessions.Reuse.{Refused, refresh-Refused, logout-Refused}
use turno_flow.Tests.{midnight, runtime, business, service, nine, empty, expected_row}

-- A morning of 09:00 to 11:00, whose first half hour is blocked.
abbrev morning : Input
morning = record {
  date = codes "2030-01-07";
  duration_minutes = 45;
  buffer_minutes = 15;
  rules = record { staff_member_id = 4; start_time = codes "09:00"; end_time = codes "11:00" } ∷ [];
  exceptions =
      record {
        staff_member_id = none;
        start_time = codes "09:00";
        end_time = codes "09:30";
        kind = blocked;
      }
      ∷ [];
  busy_slots = [];
  active_staff_member_ids = 4 ∷ [];
  timezone = codes "UTC";
  now = midnight;
}

abbrev slot_at : ℕ → Slot
slot_at starts_at = record {
  staff_member_id = 4;
  starts_at = starts_at;
  ends_at = starts_at + 60 * minute_ms;
}

abbrev morning_slots : List Slot
morning_slots = slot_at (nine + 30 * minute_ms) ∷ slot_at (nine + 60 * minute_ms) ∷ []

-- The starts 09:30 and 10:00 are left.
morning-ok : calculate_availability runtime morning ≡ ok morning_slots
unfolding calculate_availability candidate is_blocking scan scan_windows set_slot sort_slots
    insert_slot date_only_in_time_zone date_at_zoned_minutes minutes_since_midnight zoned_instant
    minus_offset wall_clock local_instant utc_midnight date_utc
morning-ok = refl

ahead : text_ltb morning.date (current_date runtime morning) ≡ false
unfolding date_only_in_time_zone
ahead = refl

leb-IsCollation : IsCollation leb
leb-IsCollation = record {
  total = λ a b. elim (Bool-cases (leb a b)) [ inl e ↦ inl e | inr e ↦ inr (ground arith) ];
  trans = λ a b c h k. ground arith;
}

calculate_availability-In_iff_example :
    In (slot_at (nine + 30 * minute_ms)) morning_slots
    ↔ Offered runtime morning (windows morning) (slot_at (nine + 30 * minute_ms))
calculate_availability-In_iff_example =
    calculate_availability-In_iff runtime morning morning-ok ahead (slot_at (nine + 30 * minute_ms))

calculate_availability-Ordered_example :
    Ordered (Before runtime morning) morning_slots × Distinct runtime morning morning_slots
calculate_availability-Ordered_example =
    calculate_availability-Ordered runtime morning leb-IsCollation morning-ok

minutes_since_midnight_iff_example :
    (minutes_since_midnight (codes "09:30") ≡ ok 570)
    ↔ ((570 < 1440) × (codes "09:30" ≡ clock_text 570))
minutes_since_midnight_iff_example = minutes_since_midnight_iff (codes "09:30") 570

same_offset :
    wall_clock runtime [] (first_guess runtime [] (2030, 1, 7) 570)
      + zoned_instant runtime [] (2030, 1, 7) 570
    ≡ wall_clock runtime [] (zoned_instant runtime [] (2030, 1, 7) 570)
      + first_guess runtime [] (2030, 1, 7) 570
unfolding zoned_instant minus_offset wall_clock local_instant utc_midnight date_utc
same_offset = refl

no_underflow :
    wall_clock runtime [] (first_guess runtime [] (2030, 1, 7) 570)
    ≤ local_instant (2030, 1, 7) 570 + first_guess runtime [] (2030, 1, 7) 570
unfolding zoned_instant minus_offset wall_clock local_instant utc_midnight date_utc
no_underflow = omega arith

wall_clock-zoned_instant_example :
    wall_clock runtime [] (zoned_instant runtime [] (2030, 1, 7) 570)
    ≡ local_instant (2030, 1, 7) 570
wall_clock-zoned_instant_example =
    wall_clock-zoned_instant runtime [] (2030, 1, 7) 570 same_offset no_underflow

routing_key_injective_example :
    (routing_key EventType.appointment_booked ≡ routing_key EventType.appointment_cancelled
      → EventType.appointment_booked ≡ EventType.appointment_cancelled)
    × (type_name EventType.appointment_booked ≡ type_name EventType.appointment_cancelled
        → EventType.appointment_booked ≡ EventType.appointment_cancelled)
routing_key_injective_example =
    routing_key_injective EventType.appointment_booked EventType.appointment_cancelled

assert_deposit_can_be_submitted_iff_example :
    (assert_deposit_can_be_submitted (some 1000) true service ≡ ok tt)
    ↔ ((cents : ℕ) → some 1000 ≡ some cents → 0 < cents → IsAcceptable true service cents)
assert_deposit_can_be_submitted_iff_example =
    assert_deposit_can_be_submitted_iff (some 1000) true service

abbrev payment : Payment
payment = record {
  id = 1;
  business_id = 1;
  appointment_id = 11;
  customer_id = 10;
  amount_cents = 1000;
  status = submitted;
  customer_note = none;
  internal_note = none;
  reference = none;
  confirmed_at = none;
  confirmed_by_user_id = none;
  rejected_at = none;
  rejected_by_user_id = none;
  voided_at = none;
  voided_by_user_id = none;
}

abbrev refused_payment : Payment
refused_payment = record payment { id = 2; status = rejected }

abbrev paid : Db
paid = record empty {
  services = service ∷ [];
  appointments = expected_row ∷ [];
  payments = payment ∷ refused_payment ∷ [];
}

abbrev confirmation : Result (Db × Payment)
confirmation = transition_payment runtime 7 business 2 1 confirmed none paid

abbrev paid_state : Result (Db × Payment) → Db
paid_state (ok p) = p.0
paid_state (err e) = paid

confirmation-ok :
    confirmation ≡ ok (paid_state confirmation, transition_data runtime confirmed 2 7 none payment)
unfolding transition_payment transition_in_transaction find_appointment find_service outbox_create
    audit_create optional_trim
confirmation-ok = refl

transition_payment-closed_example :
    In refused_payment (paid_state confirmation).payments × (refused_payment.id ≢ 1)
transition_payment-closed_example =
    transition_payment-closed runtime 7 business 2 1 confirmed none paid
      ((λ e. omega arith, tt), (tt, tt)) confirmation-ok refused_payment (inr (inl refl)) refl

abbrev crypto : Crypto
crypto = record {
  hash_token = λ t. t;
  hash_password = λ p. p;
  compare = turno_flow.Text.text_eq;
  sign = λ k t. t;
}

abbrev session : RefreshToken
session = record {
  id = 1;
  user_id = 2;
  token_hash = 5;
  family_id = 3;
  expires_at = 100;
  revoked_at = none;
}

abbrev accounts : RefreshToken → Accounts
accounts t = record {
  next_id = 9;
  users = record { id = 2; email = codes "a@x"; name = codes "Ana"; password_hash = [] } ∷ [];
  refresh_tokens = t ∷ [];
  members = [];
}

abbrev rotated : Accounts
rotated = (refresh crypto 50 6 5 (accounts session)).0

abbrev new_tokens : AuthTokens
new_tokens = record { access_token = codes "a@x"; refresh_token = 6 }

rotated-ok : refresh crypto 50 6 5 (accounts session) ≡ (rotated, ok new_tokens)
unfolding refresh refresh_found refresh_stored rotate create_refresh_token_record
rotated-ok = refl

refresh-Refused_example : Refused (refresh crypto 60 7 5 rotated)
refresh-Refused_example = refresh-Refused crypto 5 50 6 (accounts session) rotated-ok 60 7

logout-Refused_example : Refused (refresh crypto 60 7 5 (logout crypto 50 5 (accounts session)))
logout-Refused_example = logout-Refused crypto 5 50 60 7 (accounts session)

abbrev used_session : RefreshToken
used_session = record session { revoked_at = some 40 }

refresh-revoked_example :
    ((leb 100 50 ≡ true)
      × (refresh crypto 50 6 5 (accounts used_session)
          ≡ (accounts used_session, err (unauthorized "Invalid refresh token"))))
    ⊎ ((leb 100 50 ≡ false)
        × ((refresh crypto 50 6 5 (accounts used_session)).1
            ≡ err (unauthorized "Refresh token reuse detected"))
        × Shut 3 (refresh crypto 50 6 5 (accounts used_session)).0)
refresh-revoked_example =
    refresh-revoked crypto 50 6 5 (accounts used_session) used_session refl refl
