-- ===== src/Store/Sound.antt =====
-- The invariant of the booking tables, and the writes that keep it.
use turno_flow.Prelude.{
  NoClash, NoClash-insert, NoClash-replace, ℕ, suc, ◌≤◌, ◌<◌, ◌≡◌, ◌≢◌, sym, ◌∙◌, inl, inr, List,
  [], ◌∷◌, ◌++◌, Bool, true, false, ◌&&◌, arith, ◌==◌, any_of_In, count, update_where, In, All,
  All-append, Ordered, Ordered-append, All-update_where, update_where-Ordered, count-append,
  count_none, Bool-cases,
}
use turno_flow.Schema.{Appointment, Customer, AppointmentStatus, Db}
use turno_flow.Status.{same_status}
use turno_flow.Store.{excludes, admits}

-- No two rows of the table exclude one another.
abbrev pub Exclusive : List Appointment → Type 0
Exclusive rows = NoClash excludes rows

excludes_comm : (a b : Appointment) → excludes a b ≡ excludes b a
excludes_comm a b = ground arith

excludes_self : (a : Appointment) → excludes a a ≡ false
excludes_self a = ground arith

admits-excludes :
    (a b : Appointment) (rows : List Appointment)
    → admits a rows ≡ true
    → In b rows
    → excludes a b ≡ false
admits-excludes a b rows h m = elim (Bool-cases (excludes a b)) [
  | inl hit ↦ absurd (ground (arith, any_of_In (excludes a) rows m hit))
  | inr miss ↦ miss
]

-- A row that the constraint admits can be added, or take the place of the row with its key.
insert-Exclusive :
    (a : Appointment) (rows : List Appointment)
    → Exclusive rows
    → admits a rows ≡ true
    → Exclusive (rows ++ a ∷ [])
insert-Exclusive a rows h fits =
    NoClash-insert excludes excludes_comm excludes_self a rows h
      (λ b. admits-excludes a b rows fits)

pub replace-Exclusive :
    (a : Appointment) (rows : List Appointment)
    → Exclusive rows
    → admits a rows ≡ true
    → Exclusive (update_where (λ b. b.id == a.id) (λ _. a) rows)
replace-Exclusive a rows h fits =
    NoClash-replace excludes excludes_comm excludes_self a rows (λ b. b.id == a.id) h
      (λ b. admits-excludes a b rows fits)

-- An appointment of customer `k` with the status.
abbrev pub has_status : AppointmentStatus → ℕ → Appointment → Bool
has_status s k a = a.customer_id == k && same_status a.status s

-- The counters of a customer are those of the table of appointments.
abbrev pub Counted : List Appointment → Customer → Type 0
Counted rows c =
    (c.no_show_count ≡ count (has_status AppointmentStatus.no_show c.id) rows)
    × (c.completed_appointments ≡ count (has_status AppointmentStatus.completed c.id) rows)

-- Identifiers are below `n` and distinct, active appointments of one staff member do not overlap,
-- and each customer's counters say how many of the appointments were missed and completed.
pub record Sound (n : ℕ) (rows : List Appointment) (customers : List Customer) : Type 0 where
  pub exclusive : Exclusive rows
  pub distinct : Ordered (λ a b. a.id ≢ b.id) rows
  pub below : All (λ a. (a.id < n) × (a.customer_id < n)) rows
  pub customers_distinct : Ordered (λ c d. c.id ≢ d.id) customers
  pub customers_below : All (λ c. c.id < n) customers
  pub counted : All (Counted rows) customers

abbrev pub IsSound : Db → Type 0
IsSound db = Sound db.next_id db.appointments db.customers

pub All-map {ℓ} :
    {A : Type ℓ} (P Q : A → Type 0) (xs : List A) → All P xs → ((x : A) → P x → Q x) → All Q xs
All-map P Q [] h f = tt
All-map P Q (x ∷ xs) h f = (f x h.0, All-map P Q xs h.1 f)

module _ (n : ℕ) (rows : List Appointment) (customers : List Customer) where
  -- New identifiers may be drawn.
  pub Sound-mono : (m : ℕ) → n ≤ m → Sound n rows customers → Sound m rows customers
  Sound-mono m le s = record {
    exclusive = s.exclusive;
    distinct = s.distinct;
    below =
        All-map (λ a. (a.id < n) × (a.customer_id < n)) (λ a. (a.id < m) × (a.customer_id < m)) rows
          s.below (λ a h. omega arith);
    customers_distinct = s.customers_distinct;
    customers_below =
        All-map (λ c. c.id < n) (λ c. c.id < m) customers s.customers_below (λ c h. omega arith);
    counted = s.counted;
  }

  -- A new customer, whom no appointment names, begins with counters of 0.
  pub Sound-customer :
      (c : Customer)
      → c.id ≡ n
      → c.no_show_count ≡ 0
      → c.completed_appointments ≡ 0
      → Sound n rows customers
      → Sound (suc n) rows (customers ++ c ∷ [])
  Sound-customer c new missed completed s =
      let later = Sound-mono (suc n) (omega arith) s in
      let unnamed = λ (st : AppointmentStatus). count_none (has_status st c.id) rows (
        All-map (λ a. (a.id < n) × (a.customer_id < n)) (λ a. has_status st c.id a ≡ false) rows
          s.below (λ a h. ground arith)) in
      record {
        exclusive = s.exclusive;
        distinct = s.distinct;
        below = later.below;
        customers_distinct =
            Ordered-append (λ c d. c.id ≢ d.id) customers c s.customers_distinct
              (All-map (λ d. d.id < n) (λ d. d.id ≢ c.id) customers s.customers_below
                (λ d h. omega arith));
        customers_below =
            All-append (λ c. c.id < suc n) customers (c ∷ []) later.customers_below
              (omega arith, tt);
        counted = All-append (Counted rows) customers (c ∷ []) s.counted (
          (
            missed ∙ sym (unnamed AppointmentStatus.no_show),
            completed ∙ sym (unnamed AppointmentStatus.completed),
          ),
          tt,
        );
      }

  -- An update of customers that keeps identifiers and the two counters.
  pub Sound-customers :
      (p : Customer → Bool) (f : Customer → Customer)
      → ((c : Customer) → p c ≡ true → (f c).id ≡ c.id)
      → ((c : Customer) → p c ≡ true → Counted rows c → Counted rows (f c))
      → Sound n rows customers
      → Sound n rows (update_where p f customers)
  Sound-customers p f keeps counts s = record {
    exclusive = s.exclusive;
    distinct = s.distinct;
    below = s.below;
    customers_distinct = update_where-Ordered p f (λ c. c.id) customers keeps s.customers_distinct;
    customers_below =
        All-update_where p f (λ c. c.id < n) (λ c. c.id < n) customers s.customers_below
          (λ c h e. omega (arith, keeps c e)) (λ c h e. h);
    counted =
        All-update_where p f (Counted rows) (Counted rows) customers s.counted
          (λ c h e. counts c e h) (λ c h e. h);
  }

  -- A new appointment that is neither missed nor completed.
  pub Sound-insert :
      (a : Appointment)
      → a.id ≡ n
      → a.customer_id < n
      → a.status ≡ AppointmentStatus.confirmed
      → admits a rows ≡ true
      → Sound n rows customers
      → Sound (suc n) (rows ++ a ∷ []) customers
  Sound-insert a new named fresh fits s =
      let later = Sound-mono (suc n) (omega arith) s in
      record {
        exclusive = insert-Exclusive a rows s.exclusive fits;
        distinct =
            Ordered-append (λ a b. a.id ≢ b.id) rows a s.distinct
              (All-map (λ b. (b.id < n) × (b.customer_id < n)) (λ b. b.id ≢ a.id) rows s.below
                (λ b h. omega arith));
        below =
            All-append (λ a. (a.id < suc n) × (a.customer_id < suc n)) rows (a ∷ []) later.below
              ((omega arith, omega arith), tt);
        customers_distinct = s.customers_distinct;
        customers_below = later.customers_below;
        counted = All-map (Counted rows) (Counted (rows ++ a ∷ [])) customers s.counted (λ c h. (
          h.0 ∙ same AppointmentStatus.no_show c.id (ground arith),
          h.1 ∙ same AppointmentStatus.completed c.id (ground arith),
        ));
      }
    where
      same :
          (st : AppointmentStatus) (k : ℕ)
          → has_status st k a ≡ false
          → count (has_status st k) rows ≡ count (has_status st k) (rows ++ a ∷ [])
      same st k miss = ground (arith, count-append (has_status st k) rows (a ∷ []))
