-- ===== src/Store/Replacements.antt =====
-- Replacing a row of the appointments table: what an update of one appointment, with the counters of
-- its customer, does to the invariant.
use turno_flow.Prelude.{
  ℕ, ◌+◌, ◌<◌, ◌≡◌, ◌≢◌, refl, sym, ◌∙◌, inl, inr, List, Bool, true, ◌&&◌, Option, none, some,
  arith, ◌==◌, if◌then◌else◌, count, find_first, update_where, All, All-In, Ordered,
  All-update_where, update_where-Ordered, count-update_where, Bool-cases, find_first_sound,
}
use turno_flow.Schema.{Appointment, Customer, AppointmentStatus}
use turno_flow.Status.{
  same_status, status_delta, shift, Delta, lost, gained, kept, is_kept, CounterUpdate,
  build_customer_counter_update,
}
use turno_flow.Store.{admits}
use turno_flow.Store.Sound.{Sound, has_status, Counted, replace-Exclusive, All-map}

-- What `write_counters` does to the table of customers.
abbrev pub counters : CounterUpdate → Customer → Customer
counters u c = record c {
  completed_appointments = u.completed_appointments;
  no_show_count = u.no_show_count;
}

abbrev pub follow : Option CounterUpdate → ℕ → List Customer → List Customer
follow none k customers = customers
follow (some u) k customers = update_where (λ c. c.id == k) (counters u) customers

-- The two updates of a customer keep identifiers.
module _ (k n : ℕ) where
  follow-distinct :
      (u : Option CounterUpdate) (customers : List Customer)
      → Ordered (λ c d. c.id ≢ d.id) customers
      → Ordered (λ c d. c.id ≢ d.id) (follow u k customers)
  follow-distinct none customers h = h
  follow-distinct (some u) customers h =
      update_where-Ordered (λ c. c.id == k) (counters u) (λ c. c.id) customers (λ c e. refl) h

  follow-below :
      (u : Option CounterUpdate) (customers : List Customer)
      → All (λ c. c.id < n) customers
      → All (λ c. c.id < n) (follow u k customers)
  follow-below none customers h = h
  follow-below (some u) customers h =
      All-update_where (λ c. c.id == k) (counters u) (λ c. c.id < n) (λ c. c.id < n) customers h
        (λ c h e. h) (λ c h e. h)

shift_kept : (d : Delta) → is_kept d ≡ true → (n : ℕ) → shift n d ≡ n
shift_kept lost h n = cc
shift_kept kept h n = refl
shift_kept gained h n = cc

-- How the counts of one status move with the table, for the customer `k` and for the others.
module _ (rows rows' : List Appointment) (k : ℕ) where
  abbrev Moves : AppointmentStatus → Delta → Type 0
  Moves st d =
      (c : ℕ)
      → count (has_status st c) rows'
        ≡ (if k == c then shift (count (has_status st c) rows) d else count (has_status st c) rows)

  module _ (missed done : Delta) where
    kept-Counted :
        is_kept missed ≡ true
        → is_kept done ≡ true
        → Moves AppointmentStatus.no_show missed
        → Moves AppointmentStatus.completed done
        → (customers : List Customer) → All (Counted rows) customers
        → All (Counted rows') customers
    kept-Counted p q m d customers h = All-map (Counted rows) (Counted rows') customers h (λ c own.
        (ground (arith, m c.id, shift_kept missed p), ground (arith, d c.id, shift_kept done q)))

    abbrev moved_counters : Customer → CounterUpdate
    moved_counters customer = record {
      completed_appointments = shift customer.completed_appointments done;
      no_show_count = shift customer.no_show_count missed;
    }

    moved-Counted :
        Moves AppointmentStatus.no_show missed
        → Moves AppointmentStatus.completed done
        → (customer : Customer) → customer.id ≡ k
        → Counted rows customer
        → (customers : List Customer) → All (Counted rows) customers
        → All (Counted rows') (follow (some (moved_counters customer)) k customers)
    moved-Counted m d customer is_k own customers h =
        All-update_where (λ c. c.id == k) (counters (moved_counters customer)) (Counted rows)
          (Counted rows') customers h
          (λ c q e.
            let same : c.id ≡ customer.id = ground arith in
            let hit : (k == c.id) ≡ true = ground arith in
            (rw (own.0, rw hit at (m c.id), same) refl, rw (own.1, rw hit at (d c.id), same) refl))
          (λ c q e. (ground (arith, m c.id), ground (arith, d c.id)))

    -- Customers whose counters follow the deltas of the table stay counted.
    follow-Counted :
        Moves AppointmentStatus.no_show missed
        → Moves AppointmentStatus.completed done
        → (customer : Customer) → customer.id ≡ k
        → Counted rows customer
        → (customers : List Customer) → All (Counted rows) customers
        → All (Counted rows') (
            follow
              (if is_kept missed && is_kept done then none else some (moved_counters customer))
              k
              customers)
    follow-Counted m d customer is_k own customers h =
        elim (Bool-cases (is_kept missed && is_kept done)) [
          | inl e ↦ rw e (kept-Counted (ground arith) (ground arith) m d customers h)
          | inr e ↦ rw e (moved-Counted m d customer is_k own customers h)
        ]

-- The row `a` in place of the row `old` with its identifier.
module _ (old a : Appointment) (rows : List Appointment) where
  abbrev pub replaced : List Appointment
  replaced = update_where (λ b. b.id == a.id) (λ _. a) rows

  count-replaced :
      (q : Appointment → Bool)
      → Ordered (λ x y. x.id ≢ y.id) rows
      → find_first (λ b. b.id == a.id) rows ≡ some old
      → count q replaced + (if q old then 1 else 0) ≡ count q rows + (if q a then 1 else 0)
  count-replaced q distinct found =
      count-update_where (λ b. b.id) a.id q (λ _. a) rows distinct found

  replaced-distinct : Ordered (λ x y. x.id ≢ y.id) rows → Ordered (λ x y. x.id ≢ y.id) replaced
  replaced-distinct h =
      update_where-Ordered (λ b. b.id == a.id) (λ _. a) (λ b. b.id) rows (λ x e. ground arith) h

  replaced-below :
      {n : ℕ} {customers : List Customer}
      → find_first (λ b. b.id == a.id) rows ≡ some old
      → a.customer_id ≡ old.customer_id
      → Sound n rows customers
      → All (λ x. (x.id < n) × (x.customer_id < n)) replaced
  replaced-below {n} found same s =
      let (listed, is_old) = find_first_sound (λ b. b.id == a.id) rows found in
      let old_below = All-In (λ x. (x.id < n) × (x.customer_id < n)) rows s.below listed in
      All-update_where (λ b. b.id == a.id) (λ _. a) (λ x. (x.id < n) × (x.customer_id < n))
        (λ x. (x.id < n) × (x.customer_id < n)) rows s.below (λ x h e. (ground arith, ground arith))
        (λ x h e. h)

  -- How a count of one status for one customer moves: by `statusDelta`, for the row's customer.
  pub count-has_status :
      (st : AppointmentStatus) (k : ℕ)
      → Ordered (λ x y. x.id ≢ y.id) rows
      → find_first (λ b. b.id == a.id) rows ≡ some old
      → a.customer_id ≡ old.customer_id
      → count (has_status st k) replaced ≡ (
          if old.customer_id == k
          then shift (count (has_status st k) rows) (status_delta old.status a.status st)
          else count (has_status st k) rows)
  unfolding status_delta
  count-has_status st k distinct found same =
      ground (arith, count-replaced (has_status st k) distinct found)

  module _ (n : ℕ) (customers : List Customer) where
    -- The new row keeps its identifier and customer, and is missed or completed if the old one was,
    -- as rescheduling and the customer's cancellation do.
    pub Sound-moved :
        find_first (λ b. b.id == a.id) rows ≡ some old
        → a.customer_id ≡ old.customer_id
        → same_status a.status AppointmentStatus.no_show
          ≡ same_status old.status AppointmentStatus.no_show
        → same_status a.status AppointmentStatus.completed
          ≡ same_status old.status AppointmentStatus.completed
        → admits a rows ≡ true
        → Sound n rows customers
        → Sound n replaced customers
    Sound-moved found same missed done fits s = record {
      exclusive = replace-Exclusive a rows s.exclusive fits;
      distinct = replaced-distinct s.distinct;
      below = replaced-below found same s;
      customers_distinct = s.customers_distinct;
      customers_below = s.customers_below;
      counted = All-map (Counted rows) (Counted replaced) customers s.counted (λ c h. (
        h.0 ∙ sym (same_count AppointmentStatus.no_show c.id missed),
        h.1 ∙ sym (same_count AppointmentStatus.completed c.id done),
      ));
    }
      where
        same_count :
            (st : AppointmentStatus) (k : ℕ)
            → same_status a.status st ≡ same_status old.status st
            → count (has_status st k) replaced ≡ count (has_status st k) rows
        same_count st k keeps = ground (arith, count-replaced (has_status st k) s.distinct found)

    -- The new row has another status, and the customer's counters follow it.
    pub Sound-decided :
        (customer : Customer)
        → find_first (λ b. b.id == a.id) rows ≡ some old
        → a.customer_id ≡ old.customer_id
        → find_first (λ c. c.id == old.customer_id) customers ≡ some customer
        → admits a rows ≡ true
        → Sound n rows customers
        → Sound n replaced (
            follow
              (build_customer_counter_update old.status a.status customer)
              old.customer_id
              customers)
    unfolding build_customer_counter_update
    Sound-decided customer found same who fits s = record {
      exclusive = replace-Exclusive a rows s.exclusive fits;
      distinct = replaced-distinct s.distinct;
      below = replaced-below found same s;
      customers_distinct = follow-distinct old.customer_id n update customers s.customers_distinct;
      customers_below = follow-below old.customer_id n update customers s.customers_below;
      counted = follows;
    }
      where
        update : Option CounterUpdate
        update = build_customer_counter_update old.status a.status customer

        -- The row's customer is counted before the update.
        own : Counted rows customer
        own =
            All-In (Counted rows) customers s.counted
              (find_first_sound (λ c. c.id == old.customer_id) customers who).0

        is_own : customer.id ≡ old.customer_id
        is_own =
            let named = (find_first_sound (λ c. c.id == old.customer_id) customers who).1 in
            ground arith

        follows : All (Counted replaced) (follow update old.customer_id customers)
        follows =
            follow-Counted rows replaced old.customer_id
              (status_delta old.status a.status AppointmentStatus.no_show)
              (status_delta old.status a.status AppointmentStatus.completed)
              (λ c. count-has_status AppointmentStatus.no_show c s.distinct found same)
              (λ c. count-has_status AppointmentStatus.completed c s.distinct found same) customer
              is_own own customers s.counted
