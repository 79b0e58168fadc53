-- ===== src/Availability.antt =====
-- apps/api/src/appointments/availability.ts: the free slots of a day. Identifiers of staff members
-- are only compared, so they are numbers; `localeCompare` on them is the runtime's `locale_leb`.
pub mod Spec
pub mod Candidates
pub mod Scan
pub mod Order
pub mod Results
use turno_flow.Prelude.{
  ℕ, suc, zero, ◌+◌, List, [], ◌∷◌, ◌++◌, map, Bool, true, false, not, ◌&&◌, Option, none, some,
  Result, ok, ◌>>=◌, ltb, leb, ◌==◌, if◌then◌else◌, any, keep,
}
use turno_flow.Text.{Text, text_eq, text_ltb}
use turno_flow.Time.{Runtime, date_only_in_time_zone, date_at_zoned_minutes, minutes_since_midnight}

pub record Rule : Type 0 where
  pub staff_member_id : ℕ
  pub start_time : Text
  pub end_time : Text

pub record BusySlot : Type 0 where
  pub staff_member_id : ℕ
  pub starts_at : ℕ
  pub ends_at : ℕ

pub data ExceptionType : Type 0 where
  blocked extra_opening : ExceptionType

pub record Exception : Type 0 where
  pub staff_member_id : Option ℕ
  pub start_time : Text
  pub end_time : Text
  pub kind : ExceptionType

pub record Slot : Type 0 where
  pub staff_member_id : ℕ
  pub starts_at : ℕ
  pub ends_at : ℕ

pub record Input : Type 0 where
  pub date : Text
  pub duration_minutes : ℕ
  pub buffer_minutes : ℕ
  pub rules : List Rule
  pub exceptions : List Exception
  pub busy_slots : List BusySlot
  pub active_staff_member_ids : List ℕ
  pub timezone : Text
  pub now : ℕ

abbrev pub slot_step_minutes : ℕ
slot_step_minutes = 30

abbrev pub required_minutes : Input → ℕ
required_minutes input = input.duration_minutes + input.buffer_minutes

abbrev pub is_extra_opening : Exception → Bool
is_extra_opening e = elim (e.kind) [ blocked ↦ false | extra_opening ↦ true ]

abbrev pub is_blocked : Exception → Bool
is_blocked e = elim (e.kind) [ blocked ↦ true | extra_opening ↦ false ]

-- The windows of an extra opening: for its staff member, or for all eligible ones.
abbrev pub opening_windows : List ℕ → Exception → List Rule
opening_windows active e =
    let staff : List ℕ = elim (e.staff_member_id) [ none ↦ active | some id ↦ id ∷ [] ] in
    map (λ id. record { staff_member_id = id; start_time = e.start_time; end_time = e.end_time })
      staff

abbrev pub all_opening_windows : List ℕ → List Exception → List Rule
all_opening_windows active [] = []
all_opening_windows active (e ∷ es) = opening_windows active e ++ all_opening_windows active es

abbrev pub windows : Input → List Rule
windows input =
    input.rules
    ++ all_opening_windows input.active_staff_member_ids (keep is_extra_opening input.exceptions)

-- `a.some(test)`, which stops at the first entry that passes or throws.
abbrev pub some_passes {ℓ} : {A : Type ℓ} → (A → Result Bool) → List A → Result Bool
some_passes test [] = ok false
some_passes test (x ∷ xs) = do passed ← test x; if passed then ok true else some_passes test xs

abbrev pub overlaps : ℕ → ℕ → ℕ → ℕ → Bool
overlaps starts_at ends_at from until = ltb starts_at until && ltb from ends_at

-- The tests of one candidate against the busy slots and the blocked windows.
abbrev pub is_busy : ℕ → ℕ → ℕ → BusySlot → Bool
is_busy staff starts_at ends_at busy =
    busy.staff_member_id == staff && overlaps starts_at ends_at busy.starts_at busy.ends_at

abbrev pub applies_to : Exception → ℕ → Bool
applies_to e staff = elim (e.staff_member_id) [ none ↦ true | some id ↦ id == staff ]

module _ (rt : Runtime) (input : Input) where
  abbrev pub instant : ℕ → Result ℕ
  instant minutes = date_at_zoned_minutes rt input.date minutes input.timezone

  -- `dateAtZonedMinutes(input.date, minutesSinceMidnight(time), timezone)`
  abbrev pub time_instant : Text → Result ℕ
  time_instant time = do minutes ← minutes_since_midnight time; instant minutes

  unfoldable pub is_blocking : ℕ → ℕ → ℕ → Exception → Result Bool
  is_blocking staff starts_at ends_at e =
      if applies_to e staff
      then (do
        blocked_start ← time_instant e.start_time
        blocked_end ← time_instant e.end_time
        ok (overlaps starts_at ends_at blocked_start blocked_end))
      else ok false

  abbrev pub current_date : Text
  current_date = date_only_in_time_zone rt input.now input.timezone

  -- The body of the inner loop: the slot that starts `start` minutes into the day, if it is free.
  unfoldable pub candidate : Rule → ℕ → Result (Option Slot)
  candidate window start = do
    starts_at ← instant start
    ends_at ← instant (start + required_minutes input)
    if text_eq input.date current_date && leb starts_at input.now then ok none else (do
      let staff = window.staff_member_id
      let taken = any (is_busy staff starts_at ends_at) input.busy_slots
      closed ← some_passes (is_blocking staff starts_at ends_at) (keep is_blocked input.exceptions)
      ok (
          if not taken && not closed
          then some (record { staff_member_id = staff; starts_at = starts_at; ends_at = ends_at })
          else none))

  abbrev pub same_slot : Slot → Slot → Bool
  same_slot a b =
      a.staff_member_id == b.staff_member_id && a.starts_at == b.starts_at && a.ends_at == b.ends_at

  -- `slots.set(key, slot)`, where the key spells the slot's three fields.
  unfoldable pub set_slot : Slot → List Slot → List Slot
  set_slot s [] = s ∷ []
  set_slot s (x ∷ xs) = if same_slot x s then s ∷ xs else x ∷ set_slot s xs

  abbrev pub add_candidate : Option Slot → List Slot → List Slot
  add_candidate none slots = slots
  add_candidate (some s) slots = set_slot s slots

  -- The inner loop. A round moves `start` on, so `window_end + 1` rounds are more than enough.
  unfoldable pub scan : ℕ → Rule → ℕ → ℕ → List Slot → Result (List Slot)
  scan zero window window_end start slots = ok slots
  scan (suc fuel) window window_end start slots =
      elim (leb (start + required_minutes input) window_end) [
        | false ↦ ok slots
        | true ↦ candidate window start >>= λ found.
            scan fuel window window_end (start + slot_step_minutes) (add_candidate found slots)
      ]

  unfoldable pub scan_windows : List Rule → List Slot → Result (List Slot)
  scan_windows [] slots = ok slots
  scan_windows (window ∷ rest) slots = do
    window_start ← minutes_since_midnight window.start_time
    window_end ← minutes_since_midnight window.end_time
    found ← scan (suc window_end) window window_end window_start slots
    scan_windows rest found

  -- The comparison of the sort: by start, then by staff member.
  abbrev pub slot_leb : Slot → Slot → Bool
  slot_leb left right =
      if left.starts_at == right.starts_at
      then rt.locale_leb left.staff_member_id right.staff_member_id
      else ltb left.starts_at right.starts_at

  -- The runtime's stable sort, as insertion from the right.
  unfoldable pub insert_slot : Slot → List Slot → List Slot
  insert_slot s [] = s ∷ []
  insert_slot s (x ∷ xs) = if slot_leb s x then s ∷ x ∷ xs else x ∷ insert_slot s xs

  unfoldable pub sort_slots : List Slot → List Slot
  unfolding insert_slot
  sort_slots [] = []
  sort_slots (x ∷ xs) = insert_slot x (sort_slots xs)

  unfoldable pub calculate_availability : Result (List Slot)
  unfolding candidate is_blocking scan scan_windows set_slot sort_slots
  calculate_availability =
      if text_ltb input.date current_date
      then ok []
      else (do slots ← scan_windows (windows input) []; ok (sort_slots slots))
