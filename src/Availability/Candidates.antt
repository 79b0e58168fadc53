-- ===== src/Availability/Candidates.antt =====
-- One candidate: the body of the inner loop.
use turno_flow.Prelude.{
  ℕ, ◌+◌, ◌≡◌, refl, ◌↔◌, List, [], ◌∷◌, Bool, true, false, not, ◌&&◌, Option, none, some, ok, All,
  keep, any, arith, leb, if◌then◌else◌, Result, err, ◌>>=◌, bind_elim, Bool-cases, inl, inr,
}
use turno_flow.Text.{text_eq}
use turno_flow.Text.Laws.{text_eq_iff}
use turno_flow.Time.{Runtime}
use turno_flow.Availability.{
  Rule, BusySlot, Exception, Slot, Input, is_blocked, applies_to, overlaps, is_busy, some_passes,
  instant, time_instant, is_blocking, candidate, current_date, required_minutes,
}
use turno_flow.Availability.Spec.{Apart, Unbooked, Clear, Fits}

any-is_busy_iff :
    (staff starts_at ends_at : ℕ) (bs : List BusySlot)
    → (any (is_busy staff starts_at ends_at) bs ≡ false) ↔ All (Unbooked staff starts_at ends_at) bs
any-is_busy_iff staff s e [] = (λ _. tt, λ _. refl)
any-is_busy_iff staff s e (b ∷ bs) = (
  λ h. (λ q. ground arith, (any-is_busy_iff staff s e bs).0 (ground arith)),
  λ h. ground (arith, h.0, (any-is_busy_iff staff s e bs).1 h.1),
)

-- The same for one blocked window, whatever its times parse to.
blocking_iff :
    (applies : Bool) (start until : Result ℕ) (s e : ℕ) {b : Bool}
    → (if applies then (start >>= λ x. until >>= λ y. ok (overlaps s e x y)) else ok false) ≡ ok b
    → (b ≡ false) ↔ (applies ≡ true → (x y : ℕ) → start ≡ ok x → until ≡ ok y → Apart s e x y)
blocking_iff false start until s e {b} h = (λ _ q. cc, λ _. cc)
blocking_iff true (err f) until s e {b} h = cc
blocking_iff true (ok x) (err f) s e {b} h = cc
blocking_iff true (ok x) (ok y) s e {b} h =
    (λ q _ x' y' p p'. ground arith, λ all. ground (arith, all refl x y refl refl))

module _ (rt : Runtime) (input : Input) where
  is_blocking_iff :
      (staff s e : ℕ) (x : Exception) {b : Bool}
      → is_blocking rt input staff s e x ≡ ok b
      → (b ≡ false) ↔ Clear rt input staff s e x
  unfolding is_blocking
  is_blocking_iff staff s e x {b} h =
      blocking_iff (applies_to x staff) (time_instant rt input x.start_time)
        (time_instant rt input x.end_time) s e h

  some_passes-is_blocking_iff :
      (staff s e : ℕ) (xs : List Exception) {b : Bool}
      → some_passes (is_blocking rt input staff s e) xs ≡ ok b
      → (b ≡ false) ↔ All (Clear rt input staff s e) xs
  some_passes-is_blocking_iff staff s e [] {b} h = (λ _. tt, λ _. cc)
  some_passes-is_blocking_iff staff s e (x ∷ xs) {b} h =
      bind_elim (is_blocking rt input staff s e x) _ h (λ first tested rest.
        let iff = is_blocking_iff staff s e x tested in
        elim (Bool-cases first) [
          | inl hit ↦ let is_hit : b ≡ true = ground arith in (λ q. cc, λ a. cc (iff.1 a.0))
          | inr miss ↦
              let later = some_passes-is_blocking_iff staff s e xs (rw miss at rest) in
              (λ q. (iff.0 miss, later.0 q), λ a. later.1 a.1)
        ])

  -- The candidate's own slot.
  abbrev made : Rule → ℕ → ℕ → Slot
  made w starts_at ends_at = record {
    staff_member_id = w.staff_member_id;
    starts_at = starts_at;
    ends_at = ends_at;
  }

  abbrev is_past : ℕ → Bool
  is_past starts_at = text_eq input.date (current_date rt input) && leb starts_at input.now

  abbrev is_taken : Rule → ℕ → ℕ → Bool
  is_taken w s e = any (is_busy w.staff_member_id s e) input.busy_slots

  Fits-made :
      (w : Rule) (start : ℕ) {s e : ℕ}
      → instant rt input start ≡ ok s
      → instant rt input (start + required_minutes input) ≡ ok e
      → (slot : Slot) → Fits rt input w start slot
      → slot ≡ made w s e
  Fits-made w start e1 e2 slot f = ground (arith, f.staff, f.starts, f.ends)

  made-Fits :
      (w : Rule) (start : ℕ) {s e : ℕ}
      → instant rt input start ≡ ok s
      → instant rt input (start + required_minutes input) ≡ ok e
      → is_past s ≡ false
      → is_taken w s e ≡ false
      → All (Clear rt input w.staff_member_id s e) (keep is_blocked input.exceptions)
      → Fits rt input w start (made w s e)
  made-Fits w start {s} {e} e1 e2 later idle clear = record {
    staff = refl;
    starts = e1;
    ends = e2;
    future = λ q. ground (arith, text_eq_iff input.date (current_date rt input));
    unbooked = (any-is_busy_iff w.staff_member_id s e input.busy_slots).0 idle;
    clear = clear;
  }

  made-Fits_inv :
      (w : Rule) (start s e : ℕ)
      → Fits rt input w start (made w s e)
      → (is_past s ≡ false) × (is_taken w s e ≡ false)
  made-Fits_inv w start s e f = (
    ground (arith, text_eq_iff input.date (current_date rt input), f.future),
    (any-is_busy_iff w.staff_member_id s e input.busy_slots).1 f.unbooked,
  )

  verdict :
      (taken closed : Bool) (mine slot : Slot) {found : Option Slot}
      → ok (if not taken && not closed then some mine else none) ≡ ok found
      → (found ≡ some slot) ↔ ((slot ≡ mine) × (taken ≡ false) × (closed ≡ false))
  verdict true closed mine slot h = (λ q. absurd (cc), λ q. absurd (cc))
  verdict false true mine slot h = (λ q. absurd (cc), λ q. absurd (cc))
  verdict false false mine slot h = (λ q. (ground arith, refl, refl), λ q. cc)

  -- A candidate that is computed without an exception is the slot exactly when the slot fits.
  pub candidate_iff :
      (w : Rule) (start : ℕ) {found : Option Slot}
      → candidate rt input w start ≡ ok found
      → (slot : Slot) → (found ≡ some slot) ↔ Fits rt input w start slot
  unfolding candidate
  candidate_iff w start {found} h slot = bind_elim (instant rt input start) _ h λ s e1 h1.
      bind_elim (instant rt input (start + required_minutes input)) _ h1 λ e e2 h2.
        let only = Fits-made w start e1 e2 slot in
        let inverse : Fits rt input w start slot → (is_past s ≡ false) × (is_taken w s e ≡ false) =
          λ f. made-Fits_inv w start s e (rw (only f) at f) in
        elim (Bool-cases (is_past s)) [
          | inl past ↦
              let missed : found ≡ none = ground arith in
              (λ q. absurd (cc), λ f. absurd (cc (past, (inverse f).0)))
          | inr later ↦
              bind_elim
                (some_passes (is_blocking rt input w.staff_member_id s e)
                  (keep is_blocked input.exceptions))
                _ (rw later at h2)
                λ closed e3 h3.
                  let iff =
                    some_passes-is_blocking_iff w.staff_member_id s e
                      (keep is_blocked input.exceptions) e3 in
                  let (to, from) = verdict (is_taken w s e) closed (made w s e) slot h3 in
                  (
                    λ q.
                        let (same, idle, opened) = to q in
                        rw same (made-Fits w start e1 e2 later idle (iff.0 opened)),
                    λ f. from (only f, (inverse f).1, iff.1 (rw (only f) at f).clear),
                  )
        ]
