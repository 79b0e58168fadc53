-- ===== src/Time/Zones.antt =====
-- Instants of a zone's wall clock. The zone's offset is a parameter, so these say what holds where
-- the offsets that `dateAtZonedMinutes` looks up agree.
use turno_flow.Prelude.{ℕ, ◌+◌, ◌*◌, ◌-◌, ◌≤◌, ◌≡◌, refl, arith}
use turno_flow.Text.{Text}
use turno_flow.Time.{Runtime, wall_clock, minus_offset, local_instant, zoned_instant, minute_ms}

-- Minutes run on past midnight: a day's clock is linear in them.
pub local_instant-add :
    (date : ℕ × ℕ × ℕ) (a b : ℕ) → local_instant date (a + b) ≡ local_instant date a + b * minute_ms
unfolding local_instant
local_instant-add (y, m, d) a b = omega arith

module _ (rt : Runtime) (zone : Text) (date : ℕ × ℕ × ℕ) (minutes : ℕ) where
  -- The instant that the first offset gives.
  abbrev pub first_guess : ℕ
  first_guess = minus_offset rt zone (local_instant date minutes) (local_instant date minutes)

  -- If the zone has the same offset at the first guess and at the answer, and the offset at the
  -- first guess does not take the local time before the first instant, the zone's clock shows the
  -- requested date and minutes at the answer.
  pub wall_clock-zoned_instant :
      wall_clock rt zone first_guess + zoned_instant rt zone date minutes
        ≡ wall_clock rt zone (zoned_instant rt zone date minutes) + first_guess
      → wall_clock rt zone first_guess ≤ local_instant date minutes + first_guess
      → wall_clock rt zone (zoned_instant rt zone date minutes) ≡ local_instant date minutes
  unfolding zoned_instant
  wall_clock-zoned_instant same low =
      let local = local_instant date minutes in
      let answer : zoned_instant rt zone date minutes
          ≡ local + first_guess - wall_clock rt zone first_guess =
        refl in
      omega arith
