-- ===== src/Availability/Results.antt =====
-- `calculateAvailability` as a whole.
use turno_flow.Prelude.{
  ◌≡◌, ◌↔◌, inl, inr, List, [], In, Ordered, false, ok, arith, bind_elim, Bool-cases,
}
use turno_flow.Text.{text_ltb}
use turno_flow.Time.{Runtime}
use turno_flow.Availability.{
  Slot, Input, windows, current_date, scan_windows, sort_slots, calculate_availability,
}
use turno_flow.Availability.Spec.{Offered}
use turno_flow.Availability.Scan.{scan_windows-In_iff}
use turno_flow.Availability.Order.{
  IsCollation, Before, Distinct, sort_slots-In_iff, sort_slots-Ordered, scan_windows-Distinct,
  sort_slots-Distinct,
}

module _ (rt : Runtime) (input : Input) where
  -- When the date is today or later, and no exception is thrown, the answer holds exactly the slots
  -- that a rule or an extra opening offers: a whole number of half-hour steps after the window
  -- opens, ending with its buffer before the window closes, not yet begun if the date is today,
  -- and apart from every booking of the same staff member and every blocked window that applies.
  pub calculate_availability-In_iff :
      {slots : List Slot}
      → calculate_availability rt input ≡ ok slots
      → text_ltb input.date (current_date rt input) ≡ false
      → (s : Slot) → In s slots ↔ Offered rt input (windows input) s
  unfolding calculate_availability
  calculate_availability-In_iff {slots} h ahead s =
      bind_elim (scan_windows rt input (windows input) []) _ (rw ahead at h) λ found e h1.
        let same : sort_slots rt input found ≡ slots = ground arith in
        let (to, from) = scan_windows-In_iff rt input (windows input) [] e s in
        let (to', from') = sort_slots-In_iff rt input s found in
        (
          λ m. elim (to (to' (rw same m))) [ inl o ↦ o | inr n ↦ elim n [ ] ],
          λ o. rw (← same) (from' (from (inl o))),
        )

  -- The answer is sorted by start and then by staff member, and holds no slot twice, provided that
  -- `localeCompare` orders the identifiers of the staff.
  pub calculate_availability-Ordered :
      IsCollation rt.locale_leb
      → {slots : List Slot} → calculate_availability rt input ≡ ok slots
      → Ordered (Before rt input) slots × Distinct rt input slots
  unfolding calculate_availability
  calculate_availability-Ordered collation {slots} h =
      elim (Bool-cases (text_ltb input.date (current_date rt input))) [
        | inl past ↦ let none_left : [] ≡ slots = ground arith in rw (← none_left) (tt, tt)
        | inr ahead ↦
            bind_elim (scan_windows rt input (windows input) []) _ (rw ahead at h) λ found e h1.
              let same : sort_slots rt input found ≡ slots = ground arith in
              rw (← same) (
                sort_slots-Ordered rt input collation found,
                sort_slots-Distinct rt input found
                    (scan_windows-Distinct rt input (windows input) [] e tt),
              )
      ]
