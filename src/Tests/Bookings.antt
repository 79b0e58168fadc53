-- ===== src/Tests/Bookings.antt =====
-- The theorems on bookings at the small business.
use turno_flow.Prelude.{
  ◌+◌, ◌*◌, ◌≡◌, refl, sym, subst, arith, [], ◌∷◌, true, none, some, err, conflict, In, inl, inr,
}
use turno_flow.Time.{minute_ms}
use turno_flow.Store.{find_appointment, find_business}
use turno_flow.Schema.{Appointment, AppointmentStatus}
use turno_flow.Store.Sound.{IsSound}
use turno_flow.Status.{is_active_status}
use turno_flow.Availability.Spec.{Apart}
use turno_flow.Booking.Lifecycle.{cancel_public_appointment}
use turno_flow.Booking.Runs.{Created}
use turno_flow.Booking.System.{next, start, portal_booking, public_cancellation}
use turno_flow.Booking.Reachability.{Reachable-Apart, Step-IsSound}
use turno_flow.Booking.Cancellation.{cancelled, cancel_public_appointment-twice}
use turno_flow.Booking.Creation.{create_appointment-row}
use turno_flow.Booking.Slots.{Granted, assert_staff_member_can_take_slot-Apart}
use turno_flow.Tests.{
  midnight, runtime, empty, empty-IsSound, nine, ten, booking, state_of, expected_row, second_row,
  first_run-ok, booked, booked-IsSound, second_run-ok, both_listed, cancellation, cancellation-ok,
  granted, with_booking, business, bounds, bounds-ok,
}

Reachable-Apart_example : Apart nine (nine + 60 * minute_ms) ten (ten + 60 * minute_ms)
Reachable-Apart_example =
    Reachable-Apart runtime booked-IsSound
      (next start (portal_booking midnight 78 1 10 3 none ten second_row second_run-ok))
      expected_row second_row (subst (In expected_row) (sym both_listed) (inl refl))
      (subst (In second_row) (sym both_listed) (inr (inl refl))) (omega arith) refl refl refl
      (omega arith) (omega arith)

Step-IsSound_example : IsSound (state_of cancellation)
Step-IsSound_example =
    Step-IsSound runtime booked-IsSound
      (public_cancellation 11 77 (cancelled expected_row) cancellation-ok)

cancel_public_appointment-twice_example :
    ((a : Appointment) × (find_appointment 11 booked ≡ some a)
      × (is_active_status a.status ≡ true)
      × (cancelled expected_row ≡ cancelled a))
    × (cancel_public_appointment 11 77 (state_of cancellation)
        ≡ err (conflict "Appointment is not active"))
cancel_public_appointment-twice_example =
    cancel_public_appointment-twice 11 77 booked booked-IsSound cancellation-ok

create_appointment-row_example :
    (run : Created runtime midnight 77 (booking nine) empty booked expected_row)
    × (booked.appointments ≡ expected_row ∷ [])
    × (expected_row.status ≡ AppointmentStatus.confirmed)
    × (expected_row.business_id ≡ (booking nine).business_id)
    × (expected_row.service_id ≡ (booking nine).service_id)
    × (expected_row.starts_at ≡ nine)
    × (expected_row.ends_at
        ≡ nine + (run.service.duration_minutes + run.service.buffer_minutes) * minute_ms)
    × Granted runtime midnight run.db1 1 3 none 4 nine
create_appointment-row_example =
    create_appointment-row runtime midnight 77 (booking nine) empty empty-IsSound first_run-ok

assert_staff_member_can_take_slot-Apart_example :
    (g : Granted runtime midnight with_booking 1 3 none 4 ten) × Apart ten g.slot.ends_at
      expected_row.starts_at expected_row.ends_at
unfolding find_business
assert_staff_member_can_take_slot-Apart_example =
    assert_staff_member_can_take_slot-Apart runtime midnight with_booking 1 3 none 4 ten business
      bounds expected_row granted refl bounds-ok (inl refl) refl refl (inr refl)
      (λ e. absurd (cc e)) (omega arith) (omega arith)
