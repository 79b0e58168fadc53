-- ===== src/Series/Occurrences.antt =====
-- recurring-series.service.ts: the rows that `createSeries` adds.
use turno_flow.Prelude.{
  ℕ, zero, suc, ◌+◌, ◌*◌, ◌<◌, ◌≤◌, ◌≡◌, refl, sym, ◌∙◌, ap, subst, List, [], ◌∷◌, ◌++◌, none, true,
  some, arith, ok, constraint, not_found, require, or_throw, or_throw-eq-ok, bind_elim,
  ok-injective, ◌==◌, ◌&&◌, find_first, find_first_sound, All-In, In, Never,
}
use mathlib.Core.List.{append_assoc, append-nil}
use turno_flow.Text.{Text}
use turno_flow.Time.{Runtime, minute_ms}
use turno_flow.Schema.{
  Db, Service, StaffMember, Customer, Appointment, AppointmentStatus, RecurringSeries, IntervalUnit,
  day, week, month,
}
use turno_flow.Store.{admits, insert_appointment, outbox_create, record_event, update_customer}
use turno_flow.Store.Sound.{IsSound, Sound-mono, Sound-customers}
use turno_flow.Booking.{assert_staff_member_can_take_slot}
use turno_flow.Booking.Soundness.{insert_appointment-IsSound, outbox_create-IsSound}
use turno_flow.Series.{
  SeriesInput, add_interval, occurrence_at, occurrence_row, after_occurrence, create_occurrence,
  create_occurrences, with_series, timezone_of, create_series,
}

module _ (rt : Runtime) (add_months : ℕ → ℕ → ℕ) (now : ℕ) (tokens : ℕ → ℕ)
    (input : SeriesInput) where
  -- When the occurrence `i` is due: that many intervals after the first one. A day has 24 hours and
  -- a week seven days.
  abbrev pub Due : IntervalUnit → ℕ → ℕ → Type 0
  Due day i t = t ≡ input.first_occurrence_at + i * (input.interval_value * 86400000)
  Due week i t = t ≡ input.first_occurrence_at + i * (input.interval_value * 604800000)
  Due month i t = t ≡ add_months input.first_occurrence_at (i * input.interval_value)

  occurrence_at-Due :
      (i : ℕ) → Due input.interval_unit i (occurrence_at rt add_months now tokens input i)
  occurrence_at-Due i =
      elim (input.interval_unit)
        as (λ unit.
          Due unit i
            (add_interval add_months input.first_occurrence_at unit input.interval_value i)) [
              | day ↦ omega arith
              | week ↦ omega arith
              | month ↦ ap (add_months input.first_occurrence_at) (omega arith)
            ]

  -- The row of the occurrence `i` of a series.
  pub record Occurrence (series : ℕ) (service : Service) (i : ℕ) (a : Appointment) : Type 0 where
    pub business : a.business_id ≡ input.business_id
    pub of_service : a.service_id ≡ input.service_id
    pub staff : a.staff_member_id ≡ input.staff_member_id
    pub customer : a.customer_id ≡ input.customer_id
    pub due : Due input.interval_unit i a.starts_at
    pub ends :
        a.ends_at ≡ a.starts_at + (service.duration_minutes + service.buffer_minutes) * minute_ms
    pub status : a.status ≡ AppointmentStatus.confirmed
    pub of_series : a.recurring_series_id ≡ some series

  -- One row for each round from `i` on.
  abbrev pub Planned : (series : ℕ) → Service → (rounds i : ℕ) → List Appointment → Type 0
  Planned series service zero i [] = Unit
  Planned series service zero i (a ∷ rows) = Never
  Planned series service (suc n) i [] = Never
  Planned series service (suc n) i (a ∷ rows) =
      Occurrence series service i a × Planned series service n (i + 1) rows

  module _ (series : ℕ) (service : Service) (customer : Customer) (zone : Text)
      (asked : service.id ≡ input.service_id) (named : customer.id ≡ input.customer_id) where
    abbrev row : ℕ → ℕ → Appointment
    row i id = occurrence_row rt add_months now tokens input series service customer i id

    row-Occurrence : (i id : ℕ) → Occurrence series service i (row i id)
    row-Occurrence i id = record {
      business = refl;
      of_service = asked;
      staff = refl;
      customer = named;
      due = occurrence_at-Due i;
      ends = refl;
      status = refl;
      of_series = refl;
    }

    -- What the state holds after some rounds.
    record Grown (n i : ℕ) (db db' : Db) : Type 0 where
      new : List Appointment
      planned : Planned series service n i new
      rows : db'.appointments ≡ db.appointments ++ new
      sound : IsSound db'
      later : db.next_id ≤ db'.next_id

    after_occurrence-IsSound :
        (a : Appointment) (db : Db)
        → IsSound db
        → IsSound (after_occurrence rt add_months now tokens input customer zone a db)
    unfolding after_occurrence update_customer record_event
    after_occurrence-IsSound a db s = outbox_create-IsSound _ _ _ _ _ (
        Sound-customers db.next_id db.appointments db.customers (λ c. c.id == customer.id) _
          (λ c e. refl) (λ c e h. h) s)

    create_occurrence-Grown :
        (i : ℕ) (db db' : Db)
        → IsSound db
        → customer.id < db.next_id
        → create_occurrence rt add_months now tokens input series service customer zone i db
          ≡ ok db'
        → Grown 1 i db db'
    unfolding create_occurrence insert_appointment after_occurrence update_customer record_event
        outbox_create
    create_occurrence-Grown i db db' s known h =
        let a : Appointment = row i db.next_id in
        bind_elim
          (assert_staff_member_can_take_slot rt now db input.business_id input.service_id
            input.staff_member_id (occurrence_at rt add_months now tokens input i) none)
          _ h
          (λ u e1 h1.
            bind_elim (insert_appointment a (record db { next_id = suc db.next_id })) _ h1
              (λ db1 e2 h2.
                let s1 = insert_appointment-IsSound a db db1 s refl known refl e2 in
                let grown =
                  bind_elim (require (admits a db.appointments) constraint) _ e2
                    (λ _ _ h3. ok-injective h3) in
                subst (Grown 1 i db) (ok-injective h2) (record {
                  new = a ∷ [];
                  planned = (row-Occurrence i db.next_id, tt);
                  rows = ap (λ d. d.appointments) (sym grown);
                  sound = after_occurrence-IsSound a db1 s1;
                  later = rw (← grown) (omega arith);
                })))

    lone :
        {i : ℕ} (rows : List Appointment)
        → Planned series service 1 i rows
        → (a : Appointment) × (rows ≡ a ∷ []) × Occurrence series service i a
    lone [] p = elim p [ ]
    lone (a ∷ []) p = (a, refl, p.0)
    lone (a ∷ b ∷ rows) p = elim (p.1) [ ]

    create_occurrences-Grown :
        (n i : ℕ) (db db' : Db)
        → IsSound db
        → customer.id < db.next_id
        → create_occurrences rt add_months now tokens input series service customer zone n i db
          ≡ ok db'
        → Grown n i db db'
    unfolding create_occurrences
    create_occurrences-Grown zero i db db' s known h =
        subst (Grown zero i db) (ok-injective h) (record {
          new = [];
          planned = tt;
          rows = sym (append-nil db.appointments);
          sound = s;
          later = omega arith;
        })
    create_occurrences-Grown (suc n) i db db' s known h =
        bind_elim
          (create_occurrence rt add_months now tokens input series service customer zone i db) _ h
          (λ db1 e1 h1.
            let first = create_occurrence-Grown i db db1 s known e1 in
            let rest =
              create_occurrences-Grown n (i + 1) db1 db' first.sound (omega (arith, first.later))
                h1 in
            let (a, e, p) = lone first.new first.planned in
            record {
              new = a ∷ rest.new;
              planned = (p, rest.planned);
              rows =
                  rest.rows
                  ∙ ap (λ xs. xs ++ rest.new) (first.rows ∙ ap (λ xs. db.appointments ++ xs) e)
                  ∙ append_assoc db.appointments (a ∷ []) rest.new;
              sound = rest.sound;
              later = omega (arith, first.later, rest.later);
            })

  -- What becomes of a request for a series: the service asked for is offered by the business, and
  -- the new rows are its occurrences.
  pub record Begun (db db' : Db) (series : RecurringSeries) : Type 0 where
    pub service : Service
    pub new : List Appointment
    pub listed : In service db.services
    pub asked : service.id ≡ input.service_id
    pub of_business : service.business_id ≡ input.business_id
    pub offered : service.active ≡ true
    pub planned : Planned series.id service input.max_occurrences 0 new
    pub rows : db'.appointments ≡ db.appointments ++ new
    pub sound : IsSound db'

  -- A series that is created from a sound state leaves one, and adds one appointment for each
  -- occurrence, in their order and after those there are: confirmed, of the service, the staff
  -- member and the customer asked for, as many intervals after the first one as occurrences come
  -- before it, and for the time that the service takes with its buffer. Days and weeks are 24 hours
  -- and seven days long; months are those of the runtime's calendar.
  pub create_series-Begun :
      (db db' : Db) {series : RecurringSeries}
      → IsSound db
      → create_series rt add_months now tokens input db ≡ ok (db', series)
      → Begun db db' series
  unfolding create_series outbox_create
  create_series-Begun db db' {series} s h =
      let is_customer =
        λ (c : Customer). c.id == input.customer_id && c.business_id == input.business_id in
      let is_service = λ (v : Service).
        v.id == input.service_id && v.business_id == input.business_id && v.active in
      bind_elim (or_throw (find_first is_customer db.customers) (not_found "Customer not found")) _
        h
        (λ customer e1 h1.
          bind_elim (or_throw (find_first is_service db.services) (not_found "Service not found")) _
            h1
            (λ service e2 h2.
              bind_elim
                (or_throw
                  (find_first
                    (λ (m : StaffMember).
                      m.id == input.staff_member_id
                      && m.business_id == input.business_id
                      && m.active)
                    db.staff_members)
                  (not_found "Staff member not found"))
                _ h2
                (λ staff e3 h3.
                  bind_elim
                    (create_occurrences rt add_months now tokens input db.next_id service customer
                      (timezone_of input.business_id db) input.max_occurrences 0
                      (with_series rt add_months now tokens input db))
                    _ h3
                    (λ db1 e4 h4.
                      let (listed, named) =
                        find_first_sound is_customer db.customers
                          (or_throw-eq-ok (find_first is_customer db.customers) _ e1) in
                      let (has_service, is_asked) =
                        find_first_sound is_service db.services
                          (or_throw-eq-ok (find_first is_service db.services) _ e2) in
                      let same_customer : customer.id ≡ input.customer_id = ground arith in
                      let same_service : service.id ≡ input.service_id = ground arith in
                      let known =
                        All-In (λ c. c.id < db.next_id) db.customers s.customers_below listed in
                      let grown =
                        create_occurrences-Grown db.next_id service customer
                          (timezone_of input.business_id db) same_service same_customer
                          input.max_occurrences 0 (with_series rt add_months now tokens input db)
                          db1
                          (Sound-mono db.next_id db.appointments db.customers (suc db.next_id)
                            (omega arith) s)
                          (omega (arith, known)) e4 in
                      subst (λ p. Begun db p.0 p.1) (ok-injective h4)
                        (record {
                          service = service;
                          new = grown.new;
                          listed = has_service;
                          asked = same_service;
                          of_business = ground arith;
                          offered = ground arith;
                          planned = grown.planned;
                          rows = grown.rows;
                          sound =
                              Sound-mono db1.next_id db1.appointments db1.customers
                                (suc db1.next_id) (omega arith) grown.sound;
                        })))))
