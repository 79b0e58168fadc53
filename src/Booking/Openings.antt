-- ===== src/Booking/Openings.antt =====
-- The window of the day that holds an offered slot, by the rows of the database: a weekly rule or an
-- extra opening.
use turno_flow.Prelude.{
  ℕ, ◌+◌, ◌*◌, ◌≤◌, ◌<◌, ◌≡◌, ◌⊎◌, inl, inr, refl, sym, ◌∙◌, ap, subst, true, Option, none, some,
  arith, List, [], ◌∷◌, map, keep, keep-In_iff, ok, In, In-append_iff, Option-cases,
}
use turno_flow.Text.{Text}
use turno_flow.Time.{
  Runtime, DayBounds, date_only_in_time_zone, date_at_zoned_minutes, minutes_since_midnight,
}
use turno_flow.Availability.{
  Rule, Slot, Exception, extra_opening, windows, opening_windows, all_opening_windows,
  is_extra_opening,
}
use turno_flow.Availability.Spec.{Offered}
use turno_flow.Schema.{Db, Business, Service, AvailabilityRule, AvailabilityException}
use turno_flow.Booking.{rule_applies, exception_applies, eligible_staff, day_input}

pub In-map : {A B : Type 0} (f : A → B) (a : A) (xs : List A) → In a xs → In (f a) (map f xs)
In-map f a [] m = elim m [ ]
In-map f a (x ∷ xs) (inl e) = inl (ap f e)
In-map f a (x ∷ xs) (inr m) = inr (In-map f a xs m)

pub In-map_origin :
    {A B : Type 0} (f : A → B) (b : B) (xs : List A)
    → In b (map f xs)
    → (a : A) × In a xs × (b ≡ f a)
In-map_origin f b [] m = elim m [ ]
In-map_origin f b (x ∷ xs) (inl e) = (x, inl refl, e)
In-map_origin f b (x ∷ xs) (inr m) = let (a, n, e) = In-map_origin f b xs m in (a, inr n, e)

opening_of :
    (staff : List ℕ) (w : Rule) (es : List Exception)
    → In w (all_opening_windows staff es)
    → (e : Exception) × In e es × In w (opening_windows staff e)
opening_of staff w [] m = elim m [ ]
opening_of staff w (e ∷ es) m =
    elim ((In-append_iff w (opening_windows staff e) (all_opening_windows staff es)).0 m) [
      | inl own ↦ (e, inl refl, own)
      | inr rest ↦ let (d, n, o) = opening_of staff w es rest in (d, inr n, o)
    ]

-- The window of an extra opening has its times, and its staff member if it has one.
record Matches (w : Rule) (e : Exception) : Type 0 where
  of_staff : (e.staff_member_id ≡ none) ⊎ (e.staff_member_id ≡ some w.staff_member_id)
  begins : w.start_time ≡ e.start_time
  closes : w.end_time ≡ e.end_time

only : (k id : ℕ) → In k (id ∷ []) → k ≡ id
only k id (inl e) = e
only k id (inr m) = elim m [ ]

kind_extra : (e : Exception) → is_extra_opening e ≡ true → e.kind ≡ extra_opening
kind_extra e h = ground arith

opening_windows-Matches :
    (staff : List ℕ) (w : Rule) (e : Exception) → In w (opening_windows staff e) → Matches w e
opening_windows-Matches staff w e m =
    let window : ℕ → Rule =
      λ k. record { staff_member_id = k; start_time = e.start_time; end_time = e.end_time } in
    elim (Option-cases e.staff_member_id) [
      | inl for_all ↦
          let (k, n, q) = In-map_origin window w staff (rw for_all at m) in
          record {
            of_staff = inl for_all;
            begins = ap (λ r. r.start_time) q;
            closes = ap (λ r. r.end_time) q;
          }
      | inr (id, one) ↦
          let (k, n, q) = In-map_origin window w (id ∷ []) (rw one at m) in
          record {
            of_staff = inr (one ∙ ap some (sym (ap (λ r. r.staff_member_id) q ∙ only k id n)));
            begins = ap (λ r. r.start_time) q;
            closes = ap (λ r. r.end_time) q;
          }
    ]

module _ (db : Db) (business weekday day staff : ℕ) (from until : Text) where
  -- An active weekly rule of the staff member for the day of the week.
  pub record Weekly (r : AvailabilityRule) : Type 0 where
    pub listed : In r db.rules
    pub active : r.active ≡ true
    pub of_business : r.business_id ≡ business
    pub of_staff : r.staff_member_id ≡ staff
    pub of_day : r.weekday ≡ weekday
    pub begins : r.start_time ≡ from
    pub closes : r.end_time ≡ until

  -- An extra opening on the day, for the staff member or for all.
  pub record Extra (e : AvailabilityException) : Type 0 where
    pub listed : In e db.exceptions
    pub is_extra : e.kind ≡ extra_opening
    pub of_business : e.business_id ≡ business
    pub of_staff : (e.staff_member_id ≡ none) ⊎ (e.staff_member_id ≡ some staff)
    pub of_day : e.date ≡ day
    pub begins : e.start_time ≡ from
    pub closes : e.end_time ≡ until

  abbrev pub Window : Type 0
  Window = ((r : AvailabilityRule) × Weekly r) ⊎ ((e : AvailabilityException) × Extra e)

-- A window of the staff member holds the slot from `starts_at` to `ends_at`: it begins a whole
-- number of half hours after the window opens, takes the time of the service and its buffer, ends
-- before the window closes, and has not begun.
pub record Opening (rt : Runtime) (now : ℕ) (db : Db) (business : ℕ) (zone : Text)
    (service : Service) (date : Text) (weekday day staff starts_at ends_at : ℕ) : Type 0 where
  pub from : Text
  pub until : Text
  pub window : Window db business weekday day staff from until
  pub opens : ℕ
  pub closes : ℕ
  pub opening : minutes_since_midnight from ≡ ok opens
  pub closing : minutes_since_midnight until ≡ ok closes
  pub steps : ℕ
  pub within : opens + 30 * steps + (service.duration_minutes + service.buffer_minutes) ≤ closes
  pub starts : date_at_zoned_minutes rt date (opens + 30 * steps) zone ≡ ok starts_at
  pub ends :
      date_at_zoned_minutes rt date
        (opens + 30 * steps + (service.duration_minutes + service.buffer_minutes))
        zone
      ≡ ok ends_at
  pub future : date ≡ date_only_in_time_zone rt now zone → now < starts_at

module _ (rt : Runtime) (now : ℕ) (db : Db) (business : Business) (service : Service) (date : Text)
    (day weekday : ℕ) (exclude : Option ℕ) (bounds : DayBounds) (business_id : ℕ)
    (same : business.id ≡ business_id) where
  abbrev rule_of : AvailabilityRule → Rule
  rule_of r = record {
    staff_member_id = r.staff_member_id;
    start_time = r.start_time;
    end_time = r.end_time;
  }

  abbrev exception_of : AvailabilityException → Exception
  exception_of e = record {
    staff_member_id = e.staff_member_id;
    start_time = e.start_time;
    end_time = e.end_time;
    kind = e.kind;
  }

  abbrev On : Rule → Type 0
  On w = Window db business_id weekday day w.staff_member_id w.start_time w.end_time

  rule-On :
      (w : Rule) → In w (map rule_of (keep (rule_applies db business.id weekday) db.rules)) → On w
  rule-On w m =
      let applies = rule_applies db business.id weekday in
      let (r, n, e) = In-map_origin rule_of w (keep applies db.rules) m in
      let (listed, ok_rule) = (keep-In_iff applies r db.rules).0 n in
      inl (
        r,
        record {
          listed = listed;
          active = ground arith;
          of_business = ground arith;
          of_staff = sym (ap (λ x. x.staff_member_id) e);
          of_day = ground arith;
          begins = sym (ap (λ x. x.start_time) e);
          closes = sym (ap (λ x. x.end_time) e);
        },
      )

  extra-On :
      (w : Rule)
      → In w (
          all_opening_windows (eligible_staff db business.id service.id) (
            keep is_extra_opening
              (map exception_of (keep (exception_applies db business.id day) db.exceptions))))
      → On w
  extra-On w m =
      let applies = exception_applies db business.id day in
      let es = map exception_of (keep applies db.exceptions) in
      let (x, n, o) =
        opening_of (eligible_staff db business.id service.id) w (keep is_extra_opening es) m in
      let q = opening_windows-Matches (eligible_staff db business.id service.id) w x o in
      let (inner, is_extra) = (keep-In_iff is_extra_opening x es).0 n in
      let (e, l, same_x) = In-map_origin exception_of x (keep applies db.exceptions) inner in
      let (listed, ok_exception) = (keep-In_iff applies e db.exceptions).0 l in
      inr (
        e,
        record {
          listed = listed;
          is_extra = sym (ap (λ y. y.kind) same_x) ∙ kind_extra x is_extra;
          of_business = ground arith;
          of_staff = rw (← ap (λ y. y.staff_member_id) same_x) q.of_staff;
          of_day = ground arith;
          begins = sym (q.begins ∙ ap (λ y. y.start_time) same_x);
          closes = sym (q.closes ∙ ap (λ y. y.end_time) same_x);
        },
      )

  windows-On :
      (w : Rule)
      → In w (windows (day_input rt now db business service date day weekday exclude bounds))
      → On w
  unfolding day_input
  windows-On w m =
      elim ((In-append_iff w (map rule_of (keep (rule_applies db business.id weekday) db.rules))
          _).0
        m) [ inl weekly ↦ rule-On w weekly | inr extra ↦ extra-On w extra ]

  pub Offered-Opening :
      (slot : Slot)
      → Offered rt
          (day_input rt now db business service date day weekday exclude bounds)
          (windows (day_input rt now db business service date day weekday exclude bounds))
          slot
      → Opening rt now db business_id business.timezone service date weekday day
          slot.staff_member_id slot.starts_at slot.ends_at
  unfolding day_input
  Offered-Opening slot o = record {
    from = o.window.start_time;
    until = o.window.end_time;
    window =
        subst (λ k. Window db business_id weekday day k o.window.start_time o.window.end_time)
          (sym o.fits.staff) (windows-On o.window o.listed);
    opens = o.opens;
    closes = o.closes;
    opening = o.opening;
    closing = o.closing;
    steps = o.steps;
    within = o.within;
    starts = o.fits.starts;
    ends = o.fits.ends;
    future = o.fits.future;
  }
