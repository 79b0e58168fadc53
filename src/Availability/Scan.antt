-- ===== src/Availability/Scan.antt =====
-- The loops over the windows of a day: what they put into the map of slots.
use turno_flow.Prelude.{
  ℕ, zero, suc, ◌+◌, ◌*◌, ◌≤◌, ◌<◌, ◌≡◌, refl, ◌↔◌, ◌⊎◌, inl, inr, List, [], ◌∷◌, In, true, Option,
  none, some, ok, arith, leb, bind_elim, Bool-cases, ◌∙◌,
}
use mathlib.Core.Path.{subst₂}
use turno_flow.Time.{Runtime, minutes_since_midnight}
use turno_flow.Availability.{
  Rule, Slot, Input, required_minutes, candidate, same_slot, set_slot, add_candidate, scan,
  scan_windows,
}
use turno_flow.Availability.Spec.{Fits, Offered}
use turno_flow.Availability.Candidates.{candidate_iff}

module _ (rt : Runtime) (input : Input) where
  pub same_slot-eq : (a b : Slot) → same_slot rt input a b ≡ true → a ≡ b
  same_slot-eq a b h = ground arith

  pub set_slot-In_iff :
      (x s : Slot) (xs : List Slot) → In s (set_slot rt input x xs) ↔ ((s ≡ x) ⊎ In s xs)
  unfolding set_slot
  set_slot-In_iff x s [] = (λ m. m, λ m. m)
  set_slot-In_iff x s (y ∷ ys) =
      let (to, from) = set_slot-In_iff x s ys in
      elim (Bool-cases (same_slot rt input y x)) [
        | inl e ↦
            let same = same_slot-eq y x e in
            rw e (
              λ m. elim m [ inl q ↦ inl q | inr r ↦ inr (inr r) ],
              λ m. elim m [
                | inl q ↦ inl q
                | inr r ↦ elim r [ inl q ↦ inl (q ∙ same) | inr r' ↦ inr r' ]
              ],
            )
        | inr e ↦ rw e (
          λ m. elim m [
            | inl q ↦ inr (inl q)
            | inr r ↦ elim (to r) [ inl q ↦ inl q | inr r' ↦ inr (inr r') ]
          ],
          λ m. elim m [
            | inl q ↦ inr (from (inl q))
            | inr r ↦ elim r [ inl q ↦ inl q | inr r' ↦ inr (from (inr r')) ]
          ],
        )
      ]

  -- What a scan that is `start` minutes into the day can still add.
  abbrev Reached : Rule → ℕ → ℕ → Slot → Type 0
  Reached w close start s =
      (k : ℕ) × (start + 30 * k + required_minutes input ≤ close)
      × Fits rt input w (start + 30 * k) s

  Reached-step :
      (w : Rule) (close start : ℕ) (s : Slot)
      → Reached w close start s ↔ (
          (start + required_minutes input ≤ close) × Fits rt input w start s
          ⊎ Reached w close (start + 30) s)
  Reached-step w close start s = (to, from)
    where
      to :
          Reached w close start s
          → (start + required_minutes input ≤ close) × Fits rt input w start s
            ⊎ Reached w close (start + 30) s
      to (zero, b, f) =
          let same : start + 30 * 0 ≡ start = omega arith in inl (omega arith, rw same at f)
      to (suc k, b, f) =
          let same : start + 30 * suc k ≡ start + 30 + 30 * k = omega arith in
          inr (k, omega arith, rw same at f)

      from :
          (start + required_minutes input ≤ close) × Fits rt input w start s
            ⊎ Reached w close (start + 30) s
          → Reached w close start s
      from (inl (b, f)) =
          let same : start + 30 * 0 ≡ start = omega arith in (0, omega arith, rw same f)
      from (inr (k, b, f)) =
          let same : start + 30 * suc k ≡ start + 30 + 30 * k = omega arith in
          (suc k, omega arith, rw same f)

  add_candidate-In_iff :
      (found : Option Slot) (s : Slot) (slots : List Slot)
      → In s (add_candidate rt input found slots) ↔ ((found ≡ some s) ⊎ In s slots)
  add_candidate-In_iff none s slots = (inr, λ d. elim d [ inl q ↦ absurd (cc q) | inr m ↦ m ])
  add_candidate-In_iff (some x) s slots =
      let (to, from) = set_slot-In_iff x s slots in
      (
        λ m. elim (to m) [ inl e ↦ inl (cc) | inr r ↦ inr r ],
        λ d. elim d [ inl q ↦ from (inl (ground arith)) | inr r ↦ from (inr r) ],
      )

  -- With the fuel that the source's loop needs at most, the scan adds exactly the slots that fit.
  scan-In_iff :
      (fuel : ℕ) (w : Rule) (close start : ℕ) (slots : List Slot) {res : List Slot}
      → close < start + fuel
      → scan rt input fuel w close start slots ≡ ok res
      → (s : Slot) → In s res ↔ (Reached w close start s ⊎ In s slots)
  unfolding scan
  scan-In_iff zero w close start slots {res} enough h s =
      let same : slots ≡ res = ground arith in
      (
        λ m. inr (rw same m),
        λ d. elim d [ inl (k, b, f) ↦ absurd (omega arith) | inr m ↦ rw same at m ],
      )
  scan-In_iff (suc fuel) w close start slots {res} enough h s =
      elim (Bool-cases (leb (start + required_minutes input) close)) [
        | inl more ↦ bind_elim (candidate rt input w start) _ (rw (more, scan) at h) λ found e1 h1.
            let (to, from) =
              scan-In_iff fuel w close (start + 30) (add_candidate rt input found slots)
                (omega arith) h1 s in
            let (to', from') = add_candidate-In_iff found s slots in
            let (split, join) = Reached-step w close start s in
            let (fits, fitting) = candidate_iff rt input w start e1 s in
            (
              λ m. elim (to m) [
                | inl r ↦ inl (join (inr r))
                | inr r ↦ elim (to' r) [
                  | inl q ↦ inl (join (inl (ground arith, fits q)))
                  | inr q ↦ inr q
                ]
              ],
              λ d. elim d [
                | inl r ↦ elim (split r) [
                  | inl q ↦ from (inr (from' (inl (fitting q.1))))
                  | inr q ↦ from (inl q)
                ]
                | inr m ↦ from (inr (from' (inr m)))
              ],
            )
        | inr done ↦
            let same : slots ≡ res = ground arith in
            (
              λ m. inr (rw same m),
              λ d. elim d [ inl (k, b, f) ↦ absurd (ground arith) | inr m ↦ rw same at m ],
            )
      ]

  module _ (w : Rule) (ws : List Rule) (s : Slot) where
    Offered-cons : Offered rt input ws s → Offered rt input (w ∷ ws) s
    Offered-cons o = record {
      window = o.window;
      listed = inr o.listed;
      opens = o.opens;
      closes = o.closes;
      opening = o.opening;
      closing = o.closing;
      steps = o.steps;
      within = o.within;
      fits = o.fits;
    }

    Offered-head :
        {opens closes : ℕ}
        → minutes_since_midnight w.start_time ≡ ok opens
        → minutes_since_midnight w.end_time ≡ ok closes
        → Reached w closes opens s
        → Offered rt input (w ∷ ws) s
    Offered-head {opens} {closes} e1 e2 (k, b, f) = record {
      window = w;
      listed = inl refl;
      opens = opens;
      closes = closes;
      opening = e1;
      closing = e2;
      steps = k;
      within = b;
      fits = f;
    }

    Offered-split :
        {opens closes : ℕ}
        → minutes_since_midnight w.start_time ≡ ok opens
        → minutes_since_midnight w.end_time ≡ ok closes
        → Offered rt input (w ∷ ws) s
        → Reached w closes opens s ⊎ Offered rt input ws s
    Offered-split {opens} {closes} e1 e2 o = elim (o.listed) [
      | inl e ↦
          let same_opens : o.opens ≡ opens = ground (arith, o.opening) in
          let same_closes : o.closes ≡ closes = ground (arith, o.closing) in
          inl (
            o.steps,
            omega (arith, o.within),
            subst₂ (λ v t. Fits rt input v (t + 30 * o.steps) s) e same_opens o.fits,
          )
      | inr m ↦ inr (record {
        window = o.window;
        listed = m;
        opens = o.opens;
        closes = o.closes;
        opening = o.opening;
        closing = o.closing;
        steps = o.steps;
        within = o.within;
        fits = o.fits;
      })
    ]

  -- The loop over the windows adds exactly what some window offers.
  pub scan_windows-In_iff :
      (ws : List Rule) (slots : List Slot) {res : List Slot}
      → scan_windows rt input ws slots ≡ ok res
      → (s : Slot) → In s res ↔ (Offered rt input ws s ⊎ In s slots)
  unfolding scan_windows
  scan_windows-In_iff [] slots {res} h s =
      let same : slots ≡ res = ground arith in
      (λ m. inr (rw same m), λ d. elim d [ inl o ↦ elim (o.listed) [ ] | inr m ↦ rw same at m ])
  scan_windows-In_iff (w ∷ ws) slots {res} h s =
      bind_elim (minutes_since_midnight w.start_time) _ h λ opens e1 h1.
        bind_elim (minutes_since_midnight w.end_time) _ h1 λ closes e2 h2.
          bind_elim (scan rt input (suc closes) w closes opens slots) _ h2 λ found e3 h3.
            let (to, from) = scan_windows-In_iff ws found h3 s in
            let (to', from') = scan-In_iff (suc closes) w closes opens slots (omega arith) e3 s in
            (
              λ m. elim (to m) [
                | inl o ↦ inl (Offered-cons w ws s o)
                | inr r ↦ elim (to' r) [ inl q ↦ inl (Offered-head w ws s e1 e2 q) | inr q ↦ inr q ]
              ],
              λ d. elim d [
                | inl o ↦ elim (Offered-split w ws s e1 e2 o) [
                  | inl q ↦ from (inr (from' (inl q)))
                  | inr q ↦ from (inl q)
                ]
                | inr m ↦ from (inr (from' (inr m)))
              ],
            )
