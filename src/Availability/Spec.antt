-- ===== src/Availability/Spec.antt =====
-- What `calculateAvailability` offers, described without its loops.
use turno_flow.Prelude.{ℕ, ◌+◌, ◌*◌, ◌≤◌, ◌<◌, ◌≡◌, ◌⊎◌, List, true, ok, All, In, keep}
use turno_flow.Time.{Runtime, minutes_since_midnight}
use turno_flow.Availability.{
  Rule, BusySlot, Exception, Slot, Input, required_minutes, is_blocked, applies_to, instant,
  time_instant, current_date,
}

-- The half-open intervals of a slot and of a booking have no instant in common.
abbrev pub Apart : ℕ → ℕ → ℕ → ℕ → Type 0
Apart starts_at ends_at from until = (until ≤ starts_at) ⊎ (ends_at ≤ from)

-- A booking of the same staff member leaves the slot alone.
abbrev pub Unbooked : ℕ → ℕ → ℕ → BusySlot → Type 0
Unbooked staff starts_at ends_at b =
    b.staff_member_id ≡ staff → Apart starts_at ends_at b.starts_at b.ends_at

module _ (rt : Runtime) (input : Input) where
  -- A blocked window that applies to the staff member leaves the slot alone.
  abbrev pub Clear : ℕ → ℕ → ℕ → Exception → Type 0
  Clear staff starts_at ends_at e =
      applies_to e staff ≡ true
      → (from until : ℕ) → time_instant rt input e.start_time ≡ ok from
      → time_instant rt input e.end_time ≡ ok until
      → Apart starts_at ends_at from until

  -- The slot is the window's candidate `start` minutes into the day, and nothing stands against it.
  pub record Fits (window : Rule) (start : ℕ) (slot : Slot) : Type 0 where
    pub staff : slot.staff_member_id ≡ window.staff_member_id
    pub starts : instant rt input start ≡ ok slot.starts_at
    pub ends : instant rt input (start + required_minutes input) ≡ ok slot.ends_at
    pub future : input.date ≡ current_date rt input → input.now < slot.starts_at
    pub unbooked : All (Unbooked slot.staff_member_id slot.starts_at slot.ends_at) input.busy_slots
    pub clear :
        All
          (Clear slot.staff_member_id slot.starts_at slot.ends_at)
          (keep is_blocked input.exceptions)

  -- Some window holds the slot: it starts a whole number of steps after the window opens, and ends
  -- before the window closes.
  pub record Offered (from : List Rule) (slot : Slot) : Type 0 where
    pub window : Rule
    pub listed : In window from
    pub opens : ℕ
    pub closes : ℕ
    pub opening : minutes_since_midnight window.start_time ≡ ok opens
    pub closing : minutes_since_midnight window.end_time ≡ ok closes
    pub steps : ℕ
    pub within : opens + 30 * steps + required_minutes input ≤ closes
    pub fits : Fits window (opens + 30 * steps) slot
