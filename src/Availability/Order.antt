-- ===== src/Availability/Order.antt =====
-- The order of the answer and its repetitions.
use turno_flow.Prelude.{
  ℕ, zero, suc, ◌+◌, ◌≡◌, ◌≢◌, ◌↔◌, ◌⊎◌, inl, inr, List, [], ◌∷◌, In, All, Bool, true, false,
  Option, none, some, ok, arith, leb, bind_elim, Bool-cases, All-of_each, All-In, Ordered,
}
use turno_flow.Time.{Runtime, minutes_since_midnight}
use turno_flow.Availability.{
  Rule, Slot, Input, required_minutes, candidate, same_slot, set_slot, add_candidate, scan,
  scan_windows, slot_leb, insert_slot, sort_slots,
}
use turno_flow.Availability.Scan.{same_slot-eq, set_slot-In_iff}

-- What the source relies on of `localeCompare`: it is a total order of the identifiers.
pub record IsCollation (leb : ℕ → ℕ → Bool) : Type 0 where
  pub total : (a b : ℕ) → (leb a b ≡ true) ⊎ (leb b a ≡ true)
  pub trans : (a b c : ℕ) → leb a b ≡ true → leb b c ≡ true → leb a c ≡ true

module _ (rt : Runtime) (input : Input) where
  abbrev pub Before : Slot → Slot → Type 0
  Before a b = slot_leb rt input a b ≡ true

  insert_slot-In_iff :
      (x s : Slot) (xs : List Slot) → In s (insert_slot rt input x xs) ↔ ((s ≡ x) ⊎ In s xs)
  unfolding insert_slot
  insert_slot-In_iff x s [] = (λ m. m, λ m. m)
  insert_slot-In_iff x s (y ∷ ys) =
      let (to, from) = insert_slot-In_iff x s ys in
      elim (Bool-cases (slot_leb rt input x y)) [
        | inl e ↦ rw e (λ m. m, λ m. m)
        | inr e ↦ rw e (
          λ m. elim m [
            | inl q ↦ inr (inl q)
            | inr r ↦ elim (to r) [ inl q ↦ inl q | inr r' ↦ inr (inr r') ]
          ],
          λ m. elim m [
            | inl q ↦ inr (from (inl q))
            | inr r ↦ elim r [ inl q ↦ inl q | inr r' ↦ inr (from (inr r')) ]
          ],
        )
      ]

  pub sort_slots-In_iff : (s : Slot) (xs : List Slot) → In s (sort_slots rt input xs) ↔ In s xs
  unfolding sort_slots
  sort_slots-In_iff s [] = (λ m. m, λ m. m)
  sort_slots-In_iff s (x ∷ xs) =
      let (to, from) = sort_slots-In_iff s xs in
      let (to', from') = insert_slot-In_iff x s (sort_slots rt input xs) in
      (
        λ m. elim (to' m) [ inl q ↦ inl q | inr r ↦ inr (to r) ],
        λ m. from' (elim m [ inl q ↦ inl q | inr r ↦ inr (from r) ]),
      )

  module _ (collation : IsCollation rt.locale_leb) where
    Before-total : (a b : Slot) → slot_leb rt input a b ≡ false → Before b a
    Before-total a b h = ground (arith, collation.total a.staff_member_id b.staff_member_id)

    Before-trans : (a b c : Slot) → Before a b → Before b c → Before a c
    Before-trans a b c h k =
        ground (arith, collation.trans a.staff_member_id b.staff_member_id c.staff_member_id)

    insert_slot-Ordered :
        (x : Slot) (xs : List Slot) → Ordered Before xs → Ordered Before (insert_slot rt input x xs)
    unfolding insert_slot
    insert_slot-Ordered x [] h = (tt, tt)
    insert_slot-Ordered x (y ∷ ys) h = elim (Bool-cases (slot_leb rt input x y)) [
      | inl e ↦ rw e (
        (e, All-of_each (Before x) ys (λ z m. Before-trans x y z e (All-In (Before y) ys h.0 m))),
        h,
      )
      | inr e ↦ rw e (
        All-of_each (Before y) (insert_slot rt input x ys) (λ z m.
            elim ((insert_slot-In_iff x z ys).0 m) [
              | inl q ↦ rw q (Before-total x y e)
              | inr r ↦ All-In (Before y) ys h.0 r
            ]),
        insert_slot-Ordered x ys h.1,
      )
    ]

    pub sort_slots-Ordered : (xs : List Slot) → Ordered Before (sort_slots rt input xs)
    unfolding sort_slots
    sort_slots-Ordered [] = tt
    sort_slots-Ordered (x ∷ xs) =
        insert_slot-Ordered x (sort_slots rt input xs) (sort_slots-Ordered xs)

  abbrev pub Distinct : List Slot → Type 0
  Distinct xs = Ordered ◌≢◌ xs

  same_slot_self : (a : Slot) → same_slot rt input a a ≡ true
  same_slot_self a = ground arith

  set_slot-Distinct : (x : Slot) (xs : List Slot) → Distinct xs → Distinct (set_slot rt input x xs)
  unfolding set_slot
  set_slot-Distinct x [] h = (tt, tt)
  set_slot-Distinct x (y ∷ ys) h = elim (Bool-cases (same_slot rt input y x)) [
    | inl e ↦ let same = same_slot-eq rt input y x e in rw e (rw (← same) h)
    | inr e ↦ rw e (
      All-of_each (λ z. y ≢ z) (set_slot rt input x ys)
          (λ z m. elim ((set_slot-In_iff rt input x z ys).0 m) [
            | inl q ↦ λ r. absurd (cc (e, same_slot_self x, q, r))
            | inr r ↦ All-In (λ z. y ≢ z) ys h.0 r
          ]),
      set_slot-Distinct x ys h.1,
    )
  ]

  add_candidate-Distinct :
      (found : Option Slot) (xs : List Slot)
      → Distinct xs
      → Distinct (add_candidate rt input found xs)
  add_candidate-Distinct none xs h = h
  add_candidate-Distinct (some x) xs h = set_slot-Distinct x xs h

  scan-Distinct :
      (fuel : ℕ) (w : Rule) (close start : ℕ) (slots : List Slot) {res : List Slot}
      → scan rt input fuel w close start slots ≡ ok res
      → Distinct slots
      → Distinct res
  unfolding scan
  scan-Distinct zero w close start slots {res} h d =
      let same : slots ≡ res = ground arith in rw same at d
  scan-Distinct (suc fuel) w close start slots {res} h d =
      elim (Bool-cases (leb (start + required_minutes input) close)) [
        | inl more ↦ bind_elim (candidate rt input w start) _ (rw (more, scan) at h) λ found e1 h1.
            scan-Distinct fuel w close (start + 30) (add_candidate rt input found slots) h1
              (add_candidate-Distinct found slots d)
        | inr done ↦ let same : slots ≡ res = ground arith in rw same at d
      ]

  pub scan_windows-Distinct :
      (ws : List Rule) (slots : List Slot) {res : List Slot}
      → scan_windows rt input ws slots ≡ ok res
      → Distinct slots
      → Distinct res
  unfolding scan_windows
  scan_windows-Distinct [] slots {res} h d = let same : slots ≡ res = ground arith in rw same at d
  scan_windows-Distinct (w ∷ ws) slots {res} h d =
      bind_elim (minutes_since_midnight w.start_time) _ h λ opens e1 h1.
        bind_elim (minutes_since_midnight w.end_time) _ h1 λ closes e2 h2.
          bind_elim (scan rt input (suc closes) w closes opens slots) _ h2 λ found e3 h3.
            scan_windows-Distinct ws found h3 (scan-Distinct (suc closes) w closes opens slots e3 d)

  insert_slot-Distinct :
      (x : Slot) (xs : List Slot)
      → All (λ z. x ≢ z) xs
      → Distinct xs
      → Distinct (insert_slot rt input x xs)
  unfolding insert_slot
  insert_slot-Distinct x [] n h = (tt, tt)
  insert_slot-Distinct x (y ∷ ys) n h = elim (Bool-cases (slot_leb rt input x y)) [
    | inl e ↦ rw e (n, h)
    | inr e ↦ rw e (
      All-of_each (λ z. y ≢ z) (insert_slot rt input x ys)
          (λ z m. elim ((insert_slot-In_iff x z ys).0 m) [
            | inl q ↦ λ r. n.0 (cc (q, r))
            | inr r ↦ All-In (λ z. y ≢ z) ys h.0 r
          ]),
      insert_slot-Distinct x ys n.1 h.1,
    )
  ]

  pub sort_slots-Distinct : (xs : List Slot) → Distinct xs → Distinct (sort_slots rt input xs)
  unfolding sort_slots
  sort_slots-Distinct [] h = tt
  sort_slots-Distinct (x ∷ xs) h =
      insert_slot-Distinct x (sort_slots rt input xs)
        (All-of_each (λ z. x ≢ z) (sort_slots rt input xs)
          (λ z m. All-In (λ z. x ≢ z) xs h.0 ((sort_slots-In_iff z xs).0 m)))
        (sort_slots-Distinct xs h.1)
