-- ===== src/Businesses/Assignments.antt =====
-- businesses.service.ts: the assignments of staff members to services, and the slots that follow.
use turno_flow.Prelude.{
  ℕ, suc, ◌≡◌, refl, ap, ◌∙◌, subst, arith, List, [], ◌∷◌, ◌++◌, map, Bool, true, not, ◌&&◌, none,
  some, inl, inr, Bool-cases, Option-cases, ok, thrown, or_throw, bind_elim, ok-injective, ◌==◌,
  keep, keep-In_iff, any, find_first, In, In-append_iff,
}
use turno_flow.Text.{Text, text_ltb}
use turno_flow.Time.{Runtime, DayBounds, parse_date_only, zoned_day_bounds, weekday_in_time_zone}
use turno_flow.Availability.{
  Rule, Exception, Slot, Input, windows, opening_windows, all_opening_windows, is_extra_opening,
  current_date, calculate_availability,
}
use turno_flow.Availability.Spec.{Offered}
use turno_flow.Availability.Results.{calculate_availability-In_iff}
use turno_flow.Booking.Openings.{In-map, In-map_origin}
use turno_flow.Schema.{Db, Business, Service, ServiceStaffMember}
use turno_flow.Store.{audit_create, find_business, find_service}
use turno_flow.Booking.{eligible_staff, day_input, get_availability_for_transaction}
use turno_flow.Businesses.{
  AuthenticatedUser, require_current_business, require_service, require_staff_member,
}
use turno_flow.Businesses.Staffing.{
  is_assignment, upsert_assignment, assign_staff_to_service, remove_assignment, record_assignment,
  unassign_staff_from_service, dashboard_input, get_availability_slots,
}

keep_but_last :
    {A : Type 0} (p : A → Bool) (xs : List A) (a : A)
    → find_first (λ x. p x) xs ≡ none
    → p a ≡ true
    → keep (λ x. not (p x)) (xs ++ a ∷ []) ≡ xs
keep_but_last p [] a h e = rw e refl
keep_but_last p (x ∷ xs) a h e = elim (Bool-cases (p x)) [
  | inl d ↦ absurd (ground arith)
  | inr d ↦ rw d (ap (λ r. x ∷ r) (keep_but_last p xs a (rw d at h) e))
]

find_first_last :
    {A : Type 0} (p : A → Bool) (xs : List A) (a : A)
    → find_first (λ x. p x) xs ≡ none
    → p a ≡ true
    → find_first (λ x. p x) (xs ++ a ∷ []) ≡ some a
find_first_last p [] a h e = rw e refl
find_first_last p (x ∷ xs) a h e = elim (Bool-cases (p x)) [
  | inl d ↦ absurd (ground arith)
  | inr d ↦ rw d (find_first_last p xs a (rw d at h) e)
]

-- The business of a request is read from two tables.
same_business :
    (db db' : Db) (user : AuthenticatedUser)
    → db'.businesses ≡ db.businesses
    → db'.members ≡ db.members
    → require_current_business db' user ≡ require_current_business db user
unfolding require_current_business find_business
same_business db db' user e d = elim (Option-cases user.business_id) [
  | inl none_given ↦ rw (require_current_business, none_given, e, d) refl
  | inr (k, given) ↦ elim (Option-cases (find_first (λ b. b.id == k) db.businesses)) [
    | inl missing ↦ rw (require_current_business, given, e, missing, d, e) refl
    | inr (b, found) ↦ rw (require_current_business, given, e, found) refl
  ]
]

module _ (user : AuthenticatedUser) (service staff : ℕ) where
  abbrev Restored : Db → Db → Type 0
  Restored db db1 =
      (db2 : Db) × (unassign_staff_from_service user service staff db1 ≡ ok db2)
      × (db2.assignments ≡ db.assignments)

  unassign_staff_from_service-Restored :
      (db db1 : Db) (b : Business) (a : ServiceStaffMember)
      → require_current_business db1 user ≡ ok b
      → require_service db1 b.id service ≡ ok tt
      → find_first (is_assignment service staff) db1.assignments ≡ some a
      → keep (λ x. not (is_assignment service staff x)) db1.assignments ≡ db.assignments
      → Restored db db1
  unfolding unassign_staff_from_service remove_assignment audit_create
  unassign_staff_from_service-Restored db db1 b a e1 e2 e3 e4 = (
    remove_assignment user.id b.id service staff a db1,
    rw (unassign_staff_from_service, e1, e2, e3) refl,
    e4,
  )

  -- If staff members are assigned to a service for the first time, they can be taken off it, and
  -- then the assignments are what they were before.
  pub unassign_staff_from_service-assign :
      (db db1 : Db) {a : ServiceStaffMember}
      → find_first (is_assignment service staff) db.assignments ≡ none
      → assign_staff_to_service user service staff db ≡ ok (db1, a)
      → (db2 : Db) × (unassign_staff_from_service user service staff db1 ≡ ok db2)
        × (db2.assignments ≡ db.assignments)
  unfolding assign_staff_to_service record_assignment audit_create require_current_business
      find_business
  unassign_staff_from_service-assign db db1 {a} fresh h =
      bind_elim (require_current_business db user) _ h (λ b e1 h1.
        bind_elim (require_service db b.id service) _ h1 (λ _ e2 h2.
          bind_elim (require_staff_member db b.id staff) _ h2 (λ _ e3 h3.
            let new : ServiceStaffMember = record {
              id = db.next_id;
              service_id = service;
              staff_member_id = staff;
            } in
            let own : is_assignment service staff new ≡ true = ground arith in
            let with_new : Db = record db {
              next_id = suc db.next_id;
              assignments = db.assignments ++ new ∷ [];
            } in
            let up : upsert_assignment service staff db ≡ (with_new, new) =
              rw (upsert_assignment, fresh) refl in
            let h4 = rw up at h3 in
            subst (λ p. Restored db p.0) (ok-injective h4)
              (unassign_staff_from_service-Restored db
                (record_assignment user.id b.id service staff new with_new) b new
                (same_business db (record_assignment user.id b.id service staff new with_new) user
                    refl refl
                  ∙ e1)
                e2 (find_first_last (is_assignment service staff) db.assignments new fresh own)
                (keep_but_last (is_assignment service staff) db.assignments new fresh own)))))

-- `eligibleStaffIds` where it is all the active staff.
abbrev active_staff : Db → ℕ → List ℕ
active_staff db business =
    map (λ m. m.id) (keep (λ m. m.active && m.business_id == business) db.staff_members)

among :
    (assigned : List ℕ) (k : ℕ) (active : List ℕ)
    → In k
        (elim assigned [ [] ↦ active | j ∷ js ↦ keep (λ id. any (λ a. a == id) (j ∷ js)) active ])
    → In k active
among [] k active m = m
among (j ∷ js) k active m = ((keep-In_iff (λ id. any (λ a. a == id) (j ∷ js)) k active).0 m).0

opening_windows-mono :
    (few many : List ℕ) (w : Rule) (e : Exception)
    → ((k : ℕ) → In k few → In k many)
    → In w (opening_windows few e)
    → In w (opening_windows many e)
opening_windows-mono few many w e h m =
    let window : ℕ → Rule =
      λ k. record { staff_member_id = k; start_time = e.start_time; end_time = e.end_time } in
    elim (Option-cases e.staff_member_id) [
      | inl for_all ↦
          let (k, n, q) = In-map_origin window w few (rw for_all at m) in
          rw (for_all, q) (In-map window k many (h k n))
      | inr (id, one) ↦ rw one (rw one at m)
    ]

-- A wider choice of staff has all the windows of a narrower one.
all_opening_windows-mono :
    (few many : List ℕ) (w : Rule) (es : List Exception)
    → ((k : ℕ) → In k few → In k many)
    → In w (all_opening_windows few es)
    → In w (all_opening_windows many es)
all_opening_windows-mono few many w [] h m = elim m [ ]
all_opening_windows-mono few many w (e ∷ es) h m =
    let to = In-append_iff w (opening_windows few e) (all_opening_windows few es) in
    let from = In-append_iff w (opening_windows many e) (all_opening_windows many es) in
    elim (to.0 m) [
      | inl own ↦ from.1 (inl (opening_windows-mono few many w e h own))
      | inr rest ↦ from.1 (inr (all_opening_windows-mono few many w es h rest))
    ]

module _ (rt : Runtime) (now : ℕ) (db : Db) (b : Business) (s : Service) (date : Text)
    (day weekday : ℕ) (bounds : DayBounds) where
  abbrev booking : Input
  booking = day_input rt now db b s date day weekday none bounds

  abbrev dashboard : Input
  dashboard = dashboard_input rt now db b s date day weekday bounds

  eligible_staff-mono : (k : ℕ) → In k (eligible_staff db b.id s.id) → In k (active_staff db b.id)
  eligible_staff-mono k m =
      let assigned =
        map (λ a. a.staff_member_id) (keep (λ a. a.service_id == s.id) db.assignments) in
      among assigned k (active_staff db b.id) m

  windows-mono : (w : Rule) → In w (windows booking) → In w (windows dashboard)
  unfolding day_input dashboard_input
  windows-mono w m =
      let es = keep is_extra_opening booking.exceptions in
      let to =
        In-append_iff w booking.rules (all_opening_windows (eligible_staff db b.id s.id) es) in
      let from = In-append_iff w booking.rules (all_opening_windows (active_staff db b.id) es) in
      elim (to.0 m) [
        | inl weekly ↦ from.1 (inl weekly)
        | inr extra ↦ from.1 (
            inr (
              all_opening_windows-mono (eligible_staff db b.id s.id) (active_staff db b.id) w es
                eligible_staff-mono extra))
      ]

  Offered-mono :
      (slot : Slot)
      → Offered rt booking (windows booking) slot
      → Offered rt dashboard (windows dashboard) slot
  unfolding day_input dashboard_input
  Offered-mono slot o = record {
    window = o.window;
    listed = windows-mono o.window o.listed;
    opens = o.opens;
    closes = o.closes;
    opening = o.opening;
    closing = o.closing;
    steps = o.steps;
    within = o.within;
    fits = record {
      staff = o.fits.staff;
      starts = o.fits.starts;
      ends = o.fits.ends;
      future = o.fits.future;
      unbooked = o.fits.unbooked;
      clear = o.fits.clear;
    };
  }

  In-mono :
      {accepted shown : List Slot} (slot : Slot)
      → calculate_availability rt booking ≡ ok accepted
      → calculate_availability rt dashboard ≡ ok shown
      → In slot accepted
      → In slot shown
  unfolding calculate_availability day_input dashboard_input
  In-mono {accepted} {shown} slot h1 h2 m =
      elim (Bool-cases (text_ltb date (current_date rt booking))) [
        | inl past ↦
            let none_left : [] ≡ accepted = ground arith in elim (rw (← none_left) at m) [ ]
        | inr ahead ↦
            (calculate_availability-In_iff rt dashboard h2 ahead slot).1
              (Offered-mono slot ((calculate_availability-In_iff rt booking h1 ahead slot).0 m))
      ]

-- Where the dashboard and the check of a booking both answer for a service of the business, the
-- dashboard shows every slot that a booking is checked against, whoever is assigned to the service.
pub get_availability_slots-booking :
    (rt : Runtime) (now : ℕ) (user : AuthenticatedUser) (service : ℕ) (date : Text) (db : Db)
    (b : Business) (s : Service) (shown accepted : List Slot) (slot : Slot)
    → require_current_business db user ≡ ok b
    → find_business b.id db ≡ some b
    → find_first (λ x. x.active && x.business_id == b.id && x.id == service) db.services ≡ some s
    → find_service service db ≡ some s
    → get_availability_slots rt now user service date db ≡ ok shown
    → get_availability_for_transaction rt now db b.id service date none ≡ ok accepted
    → In slot accepted
    → In slot shown
unfolding get_availability_slots get_availability_for_transaction
get_availability_slots-booking rt now user service date db b s shown accepted slot e1 e2 e3 e4 h1 h2
      m =
    let k1 = rw (get_availability_slots, e1, e3) at h1 in
    let k2 = rw (get_availability_for_transaction, e4, e2) at h2 in
    bind_elim (parse_date_only rt date) _ k1 (λ requested p1 a1.
      bind_elim (zoned_day_bounds rt date b.timezone) _ a1 (λ bounds p2 a2.
        bind_elim (weekday_in_time_zone rt date b.timezone) _ a2 (λ weekday p3 a3.
          bind_elim (or_throw requested (thrown "Invalid date")) _ a3 (λ day p4 a4.
            In-mono rt now db b s date day weekday bounds slot (rw (p1, p2, p3, p4) at k2) a4 m))))
