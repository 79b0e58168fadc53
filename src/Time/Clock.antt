-- ===== src/Time/Clock.antt =====
-- common/time.ts: clock texts and `minutesSinceMidnight`.
use turno_flow.Prelude.{ℕ, ◌+◌, ◌-◌, ◌*◌, ◌/◌, ◌%◌, ◌<◌, ◌≤◌, ◌≡◌, ◌↔◌, [], ◌∷◌, ok, arith}
use turno_flow.Text.{Text}
use turno_flow.Time.{minutes_since_midnight}

-- The text HH:mm of a minute of the day.
abbrev pub clock_text : ℕ → Text
clock_text m =
    (b'0' + m / 60 / 10)
    ∷ (b'0' + m / 60 % 10)
    ∷ b':'
    ∷ (b'0' + m % 60 / 10)
    ∷ (b'0' + m % 60 % 10)
    ∷ []

-- Printing a minute of the day and reading it again gives it back.
pub minutes_since_midnight-clock_text :
    (m : ℕ) → m < 1440 → minutes_since_midnight (clock_text m) ≡ ok m
unfolding minutes_since_midnight
minutes_since_midnight-clock_text m h = ground arith

-- What the pattern of the source lets through, as digits.
record IsClock (a b s c d : ℕ) (m : ℕ) : Type 0 where
  colon : s ≡ b':'
  tens : b'0' ≤ a
  hours : a * 10 + b ≤ b'2' * 10 + b'3'
  units : b'0' ≤ b
  units_top : b ≤ b'9'
  minute_tens : b'0' ≤ c
  minute_tens_top : c ≤ b'5'
  minute_units : b'0' ≤ d
  minute_units_top : d ≤ b'9'
  value : m ≡ ((a - b'0') * 10 + (b - b'0')) * 60 + ((c - b'0') * 10 + (d - b'0'))

IsClock-of_ok :
    (a b s c d : ℕ) {m : ℕ}
    → minutes_since_midnight (a ∷ b ∷ s ∷ c ∷ d ∷ []) ≡ ok m
    → IsClock a b s c d m
unfolding minutes_since_midnight
IsClock-of_ok a b s c d h = record {
  colon = ground arith;
  tens = ground arith;
  hours = ground arith;
  units = ground arith;
  units_top = ground arith;
  minute_tens = ground arith;
  minute_tens_top = ground arith;
  minute_units = ground arith;
  minute_units_top = ground arith;
  value = ground arith;
}

IsClock-clock_text :
    (a b s c d m : ℕ) → IsClock a b s c d m → (m < 1440) × (a ∷ b ∷ s ∷ c ∷ d ∷ [] ≡ clock_text m)
IsClock-clock_text a b s c d m v =
    let hour : m / 60 ≡ (a - b'0') * 10 + (b - b'0') = omega arith in
    let minute : m % 60 ≡ (c - b'0') * 10 + (d - b'0') = omega arith in
    let ha : a ≡ b'0' + m / 60 / 10 = omega arith in
    let hb : b ≡ b'0' + m / 60 % 10 = omega arith in
    let hc : c ≡ b'0' + m % 60 / 10 = omega arith in
    let hd : d ≡ b'0' + m % 60 % 10 = omega arith in (omega arith, cc (ha, hb, v.colon, hc, hd))

clock_text-minutes_since_midnight :
    (t : Text) {m : ℕ} → minutes_since_midnight t ≡ ok m → (m < 1440) × (t ≡ clock_text m)
unfolding minutes_since_midnight
clock_text-minutes_since_midnight (a ∷ b ∷ s ∷ c ∷ d ∷ []) {m} h =
    IsClock-clock_text a b s c d m (IsClock-of_ok a b s c d h)
clock_text-minutes_since_midnight _ h = absurd (cc h)

-- `minutesSinceMidnight` gives `m` for one text, the HH:mm of the day's minute `m`, and throws on
-- every other.
pub minutes_since_midnight_iff :
    (t : Text) (m : ℕ) → (minutes_since_midnight t ≡ ok m) ↔ ((m < 1440) × (t ≡ clock_text m))
minutes_since_midnight_iff t m =
    (clock_text-minutes_since_midnight t, λ h. rw (h.1) (minutes_since_midnight-clock_text m h.0))
