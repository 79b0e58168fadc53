-- ===== src/Series/Cancelling.antt =====
-- recurring-series.service.ts: what the transaction of `cancelSeries` does to the tables.
use turno_flow.Prelude.{
  ℕ, ◌-◌, ◌<◌, ◌≡◌, refl, sym, ap, ◌∙◌, List, [], ◌∷◌, String, Bool, true, false, arith, ok, ◌==◌,
  any, count, update_where, update_where-Ordered, In, In-update_where, inl, inr, All-update_where,
  Bool-cases, bind_elim, ok-injective, length,
}
use turno_flow.Text.{Text}
use turno_flow.Schema.{Db, Appointment, AppointmentStatus, Customer, RecurringSeries, cancelled}
use turno_flow.Status.{is_active_status}
use turno_flow.Store.{update_customer, record_event, outbox_create}
use turno_flow.Store.Sound.{Sound, IsSound, Counted, has_status, All-map, Sound-customers}
use turno_flow.Booking.Soundness.{outbox_create-IsSound}
use turno_flow.Series.Changes.{
  cancelled_row, cancel_many, announce_many, assert_columns, write_series, cancel_occurrences,
  cancel_rows,
}

abbrev pub close : RecurringSeries → RecurringSeries
close s = record s { status = cancelled }

count_same :
    (p q : Appointment → Bool) (f : Appointment → Appointment) (xs : List Appointment)
    → ((a : Appointment) → In a xs → p a ≡ true → q (f a) ≡ q a)
    → count q (update_where p f xs) ≡ count q xs
count_same p q f [] h = refl
count_same p q f (x ∷ xs) h =
    let rest = count_same p q f xs (λ a m. h a (inr m)) in
    elim (Bool-cases (p x)) [
      | inl e ↦ rw (e, h x (inl refl) e, rest) refl
      | inr e ↦ rw (e, rest) refl
    ]

-- Cancelling active rows keeps the invariant of the booking tables.
module _ (n : ℕ) (rows : List Appointment) (customers : List Customer) (p : Appointment → Bool)
    (live : (a : Appointment) → In a rows → p a ≡ true → is_active_status a.status ≡ true) where
  has_status-cancelled :
      (a : Appointment) (k : ℕ)
      → is_active_status a.status ≡ true
      → (has_status AppointmentStatus.no_show k (cancelled_row a)
          ≡ has_status AppointmentStatus.no_show k a)
        × (has_status AppointmentStatus.completed k (cancelled_row a)
            ≡ has_status AppointmentStatus.completed k a)
  has_status-cancelled a k h = (ground arith, ground arith)

  Sound-cancelled : Sound n rows customers → Sound n (update_where p cancelled_row rows) customers
  Sound-cancelled s = record {
    exclusive = λ x y mx my. elim (In-update_where p cancelled_row x rows mx) [
      | inl (mx', _) ↦ elim (In-update_where p cancelled_row y rows my) [
        | inl (my', _) ↦ s.exclusive x y mx' my'
        | inr (_, _, _, ey) ↦ rw ey (ground arith)
      ]
      | inr (_, _, _, ex) ↦ rw ex (ground arith)
    ];
    distinct = update_where-Ordered p cancelled_row (λ a. a.id) rows (λ a e. refl) s.distinct;
    below =
        All-update_where p cancelled_row (λ a. (a.id < n) × (a.customer_id < n))
          (λ a. (a.id < n) × (a.customer_id < n)) rows s.below (λ a h e. h) (λ a h e. h);
    customers_distinct = s.customers_distinct;
    customers_below = s.customers_below;
    counted =
        All-map (Counted rows) (Counted (update_where p cancelled_row rows)) customers s.counted
          (λ c h. (
            h.0
                ∙ sym (
                    count_same p (has_status AppointmentStatus.no_show c.id) cancelled_row rows
                      (λ a m e. (has_status-cancelled a c.id (live a m e)).0)),
            h.1
                ∙ sym (
                    count_same p (has_status AppointmentStatus.completed c.id) cancelled_row rows
                      (λ a m e. (has_status-cancelled a c.id (live a m e)).1)),
          ));
  }

module _ (business : ℕ) (zone : Text) where
  announce_many-IsSound :
      (rows : List Appointment) (db : Db)
      → IsSound db
      → IsSound (announce_many business zone rows db)
  unfolding announce_many record_event
  announce_many-IsSound [] db s = s
  announce_many-IsSound (a ∷ rows) db s =
      announce_many-IsSound rows _
        (outbox_create-IsSound _ _ _ _ _ (outbox_create-IsSound _ _ _ _ _ s))

  announce_many-tables :
      (rows : List Appointment) (db : Db)
      → ((announce_many business zone rows db).appointments ≡ db.appointments)
        × ((announce_many business zone rows db).recurring_series ≡ db.recurring_series)
  unfolding announce_many record_event outbox_create
  announce_many-tables [] db = (refl, refl)
  announce_many-tables (a ∷ rows) db = announce_many-tables rows _

module _ (has_column : String → Bool) (business k : ℕ) (zone : Text) (series : RecurringSeries)
    (rows : List Appointment) (db : Db) where
  -- The state after the writes of appointments and customer, and that after the messages.
  abbrev unannounced : Db
  unannounced =
      update_customer series.customer_id
        (λ c. record c { total_appointments = c.total_appointments - length rows })
        (cancel_many rows db)

  abbrev pub changed : Db
  changed = announce_many business zone rows unannounced

  pub cancel_occurrences-eq-ok :
      (db' : Db)
      → cancel_occurrences has_column business k zone series rows db ≡ ok db'
      → write_series k close changed ≡ db'
  unfolding cancel_occurrences
  cancel_occurrences-eq-ok db' h =
      bind_elim (assert_columns has_column ("cancelledAppointments" ∷ "totalAppointments" ∷ [])) _ h
        (λ u e h'. ok-injective h')

  pub changed-tables :
      (changed.appointments
        ≡ update_where (λ a. any (λ b. b.id == a.id) rows) cancelled_row db.appointments)
      × (changed.recurring_series ≡ db.recurring_series)
  unfolding cancel_many update_customer
  changed-tables = announce_many-tables business zone rows unannounced

  pub changed-IsSound :
      ((a : Appointment)
        → In a db.appointments
        → any (λ b. b.id == a.id) rows ≡ true
        → is_active_status a.status ≡ true)
      → IsSound db
      → IsSound changed
  unfolding cancel_many update_customer
  changed-IsSound live s = announce_many-IsSound business zone rows unannounced (
      Sound-customers db.next_id
        (update_where (λ a. any (λ b. b.id == a.id) rows) cancelled_row db.appointments)
        db.customers (λ c. c.id == series.customer_id)
        (λ c. record c { total_appointments = c.total_appointments - length rows }) (λ c e. refl)
        (λ c e h. h)
        (Sound-cancelled db.next_id db.appointments db.customers (λ a. any (λ b. b.id == a.id) rows)
          live s))

-- Every run of `cancel_rows` that succeeds writes the series last.
pub record Closed (k : ℕ) (rows : List Appointment) (db db' : Db) (n : ℕ) : Type 0 where
  pub inner : Db
  pub result : write_series k close inner ≡ db'
  pub counted : n ≡ length rows
  pub appointments :
      inner.appointments
      ≡ update_where (λ a. any (λ b. b.id == a.id) rows) cancelled_row db.appointments
  pub same_series : inner.recurring_series ≡ db.recurring_series
  pub sound :
      ((a : Appointment)
        → In a db.appointments
        → any (λ b. b.id == a.id) rows ≡ true
        → is_active_status a.status ≡ true)
      → IsSound db
      → IsSound inner

update_none :
    (f : Appointment → Appointment) (xs : List Appointment) → update_where (λ a. false) f xs ≡ xs
update_none f [] = refl
update_none f (x ∷ xs) = ap (λ r. x ∷ r) (update_none f xs)

module _ (has_column : String → Bool) (business k : ℕ) (zone : Text) (series : RecurringSeries)
    (db : Db) where
  pub cancel_rows-Closed :
      (rows : List Appointment) (db' : Db) {n : ℕ}
      → cancel_rows has_column business k zone series rows db ≡ ok (db', n)
      → Closed k rows db db' n
  unfolding cancel_rows
  cancel_rows-Closed [] db' {n} h = record {
    inner = db;
    result = ap (λ p. p.0) (ok-injective h);
    counted = sym (ap (λ p. p.1) (ok-injective h));
    appointments = sym (update_none cancelled_row db.appointments);
    same_series = refl;
    sound = λ live s. s;
  }
  cancel_rows-Closed (a ∷ others) db' {n} h =
      bind_elim (cancel_occurrences has_column business k zone series (a ∷ others) db) _ h
        (λ db1 e h'. record {
          inner = changed has_column business k zone series (a ∷ others) db;
          result =
              cancel_occurrences-eq-ok has_column business k zone series (a ∷ others) db db1 e
              ∙ ap (λ p. p.0) (ok-injective h');
          counted = sym (ap (λ p. p.1) (ok-injective h'));
          appointments = (changed-tables has_column business k zone series (a ∷ others) db).0;
          same_series = (changed-tables has_column business k zone series (a ∷ others) db).1;
          sound = changed-IsSound has_column business k zone series (a ∷ others) db;
        })

  -- It succeeds if the client knows the two columns.
  pub cancel_rows_ok :
      (rows : List Appointment)
      → has_column "cancelledAppointments" ≡ true
      → has_column "totalAppointments" ≡ true
      → (db' : Db) × (n : ℕ) × (cancel_rows has_column business k zone series rows db ≡ ok (db', n))
  unfolding cancel_rows cancel_occurrences
  cancel_rows_ok [] h1 h2 = (write_series k close db, 0, refl)
  cancel_rows_ok (a ∷ others) h1 h2 = (
    write_series k close (changed has_column business k zone series (a ∷ others) db),
    length (a ∷ others),
    rw (cancel_rows, cancel_occurrences, h1, h2) refl,
  )
