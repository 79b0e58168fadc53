-- ===== src/Booking/Slots.antt =====
-- The slots that a booking or a rescheduling may take: what `assertStaffMemberCanTakeSlot` lets
-- through.
use turno_flow.Prelude.{
  ℕ, ◌<◌, ◌≡◌, ◌≢◌, ◌⊎◌, refl, sym, ◌∙◌, ap, subst, true, false, ◌&&◌, Option, some, arith, List,
  [], map, keep, keep-In_iff, ok, thrown, not_found, conflict, or_throw, or_throw-eq-ok, bind_elim,
  ok-injective, ◌==◌, find_first, find_first_sound, In, All-In, Bool-cases, Option-cases, inl, inr,
}
use turno_flow.Text.{Text, text_ltb}
use turno_flow.Time.{
  Runtime, DayBounds, parse_date_only, zoned_day_bounds, weekday_in_time_zone,
  date_only_in_time_zone,
}
use turno_flow.Availability.{Slot, Input, windows, current_date, calculate_availability}
use turno_flow.Availability.Spec.{Offered, Apart, Unbooked}
use turno_flow.Availability.Results.{calculate_availability-In_iff}
use turno_flow.Schema.{Db, Business, Service, StaffMember, Appointment, AppointmentStatus}
use turno_flow.Status.{is_active_status}
use turno_flow.Store.{find_business, find_service}
use turno_flow.Booking.{
  is_excluded, is_busy_on, busy_slot, day_input, get_availability_for_transaction,
  date_only_for_business, assert_staff_member_can_take_slot,
}
use turno_flow.Booking.Changes.{some-injective}
use turno_flow.Booking.Openings.{In-map, Opening, Offered-Opening}

module _ (rt : Runtime) (now : ℕ) (db : Db) (business_id service_id : ℕ) (exclude : Option ℕ) where
  -- The day of an answer of `getAvailabilityForTransaction`.
  pub record Day (date : Text) (slots : List Slot) : Type 0 where
    pub service : Service
    pub business : Business
    pub bounds : DayBounds
    pub weekday : ℕ
    pub day : ℕ
    pub dated : parse_date_only rt date ≡ ok (some day)
    pub weekly : weekday_in_time_zone rt date business.timezone ≡ ok weekday
    pub served : find_service service_id db ≡ some service
    pub bounded : zoned_day_bounds rt date business.timezone ≡ ok bounds
    pub found : find_business business_id db ≡ some business
    pub answer :
        calculate_availability rt
          (day_input rt now db business service date day weekday exclude bounds)
        ≡ ok slots

  get_availability_for_transaction-eq-ok :
      {date : Text} {slots : List Slot}
      → get_availability_for_transaction rt now db business_id service_id date exclude ≡ ok slots
      → Day date slots
  unfolding get_availability_for_transaction
  get_availability_for_transaction-eq-ok {date} h =
      bind_elim (parse_date_only rt date) _ h (λ requested e1 h1.
        bind_elim (or_throw (find_service service_id db) (thrown "No Service found")) _ h1
          (λ service e2 h2.
            bind_elim (or_throw (find_business business_id db) (thrown "No Business found")) _ h2
              (λ business e3 h3.
                bind_elim (zoned_day_bounds rt date business.timezone) _ h3 (λ bounds e4 h4.
                  bind_elim (weekday_in_time_zone rt date business.timezone) _ h4 (λ weekday e5 h5.
                    bind_elim (or_throw requested (thrown "Invalid date")) _ h5 (λ day e6 h6.
                      record {
                        service = service;
                        business = business;
                        bounds = bounds;
                        weekday = weekday;
                        day = day;
                        dated = e1 ∙ ap (λ o. ok o) (or_throw-eq-ok requested _ e6);
                        weekly = e5;
                        served = or_throw-eq-ok (find_service service_id db) _ e2;
                        bounded = e4;
                        found = or_throw-eq-ok (find_business business_id db) _ e3;
                        answer = h6;
                      }))))))

  -- The slot that was found for the staff member, on the day of the business at that instant: the
  -- window that holds it, and the input for which it is offered.
  pub record Granted (staff starts_at : ℕ) : Type 0 where
    pub member : StaffMember
    pub employed : In member db.staff_members
    pub active : member.active ≡ true
    pub is_staff : member.id ≡ staff
    pub of_business : member.business_id ≡ business_id
    pub date : Text
    pub slots : List Slot
    pub day : Day date slots
    pub on_date : date ≡ date_only_in_time_zone rt starts_at day.business.timezone
    pub slot : Slot
    pub of_staff : slot.staff_member_id ≡ staff
    pub at_start : slot.starts_at ≡ starts_at
    pub opening :
        Opening rt now db business_id day.business.timezone day.service date day.weekday day.day
          staff starts_at slot.ends_at
    pub offered :
        Offered rt
          (day_input rt now db day.business day.service date day.day day.weekday exclude day.bounds)
          (windows (
            day_input rt now db day.business day.service date day.day day.weekday exclude
              day.bounds))
          slot

  -- A day that lies in the past has no slots, so a listed slot is an offered one.
  In-Offered :
      (input : Input) {slots : List Slot} (slot : Slot)
      → calculate_availability rt input ≡ ok slots
      → In slot slots
      → Offered rt input (windows input) slot
  unfolding calculate_availability
  In-Offered input {slots} slot h m =
      elim (Bool-cases (text_ltb input.date (current_date rt input))) [
        | inl past ↦ let none_left : [] ≡ slots = ground arith in elim (rw (← none_left) at m) [ ]
        | inr ahead ↦ (calculate_availability-In_iff rt input h ahead slot).0 m
      ]

  same_business :
      {date : Text} {slots : List Slot} (d : Day date slots) → d.business.id ≡ business_id
  unfolding find_business
  same_business d =
      let is_one = λ (b : Business). b.id == business_id in
      let (_, e) = find_first_sound is_one db.businesses d.found in ground arith

  date_of :
      {date : Text} {slots : List Slot} (starts_at : ℕ) (d : Day date slots)
      → date_only_for_business rt now db business_id starts_at ≡ ok date
      → date ≡ date_only_in_time_zone rt starts_at d.business.timezone
  unfolding date_only_for_business
  date_of {date} {slots} starts_at d h =
      let e : date_only_for_business rt now db business_id starts_at
          ≡ ok (date_only_in_time_zone rt starts_at d.business.timezone) =
        rw (date_only_for_business, d.found) refl in
      ok-injective (sym h ∙ e)

  -- What passes the check is offered.
  pub assert_staff_member_can_take_slot-eq-ok :
      (staff starts_at : ℕ)
      → assert_staff_member_can_take_slot rt now db business_id service_id staff starts_at exclude
        ≡ ok tt
      → Granted staff starts_at
  unfolding assert_staff_member_can_take_slot
  assert_staff_member_can_take_slot-eq-ok staff starts_at h =
      let is_member =
        λ (s : StaffMember). s.active && s.business_id == business_id && s.id == staff in
      let fits = λ (s : Slot). s.staff_member_id == staff && s.starts_at == starts_at in
      bind_elim
        (or_throw (find_first is_member db.staff_members) (not_found "Staff member not found")) _ h
        (λ member e1 h1.
          bind_elim (date_only_for_business rt now db business_id starts_at) _ h1 (λ date e2 h2.
            bind_elim
              (get_availability_for_transaction rt now db business_id service_id date exclude) _ h2
              (λ slots e3 h3.
                bind_elim
                  (or_throw (find_first fits slots)
                    (conflict "Staff member is not available at the requested time"))
                  _ h3
                  (λ slot e4 h4.
                    let (employed, is_one) =
                      find_first_sound is_member db.staff_members
                        (or_throw-eq-ok (find_first is_member db.staff_members) _ e1) in
                    let (listed, asked) =
                      find_first_sound fits slots (or_throw-eq-ok (find_first fits slots) _ e4) in
                    let day = get_availability_for_transaction-eq-ok e3 in
                    let of_staff : slot.staff_member_id ≡ staff = ground arith in
                    let at_start : slot.starts_at ≡ starts_at = ground arith in
                    let offered = In-Offered _ slot day.answer listed in
                    record {
                      member = member;
                      employed = employed;
                      active = ground arith;
                      is_staff = ground arith;
                      of_business = ground arith;
                      date = date;
                      slots = slots;
                      day = day;
                      on_date = date_of starts_at day e2;
                      slot = slot;
                      of_staff = of_staff;
                      at_start = at_start;
                      opening =
                          subst
                            (λ k.
                              Opening rt now db business_id day.business.timezone day.service date
                                day.weekday day.day k starts_at slot.ends_at)
                            of_staff
                            (subst
                              (λ t.
                                Opening rt now db business_id day.business.timezone day.service date
                                  day.weekday day.day slot.staff_member_id t slot.ends_at)
                              at_start
                              (Offered-Opening rt now db day.business day.service date day.day
                                day.weekday exclude day.bounds business_id (same_business day) slot
                                offered));
                      offered = offered;
                    }))))

  is_busy_on_live :
      (b : Appointment) (bounds : DayBounds)
      → b.business_id ≡ business_id
      → (b.status ≡ AppointmentStatus.pending) ⊎ (b.status ≡ AppointmentStatus.confirmed)
      → exclude ≢ some b.id
      → b.starts_at < bounds.end
      → bounds.start < b.ends_at
      → is_busy_on business_id exclude bounds b ≡ true
  is_busy_on_live b bounds of live other before after =
      let active : is_active_status b.status ≡ true = elim live [
        | inl e ↦ rw e refl
        | inr e ↦ rw e refl
      ] in
      let kept : is_excluded exclude b.id ≡ false = elim (Option-cases exclude) [
        | inl e ↦ rw e refl
        | inr (k, e) ↦ rw e (ground (arith, other, e))
      ] in
      ground arith

  -- If the check passes, then an active member of the staff was found, and a slot that begins at
  -- the requested start. The slot is apart from every pending or confirmed appointment of that
  -- member in the business that meets the day of the start, but for the excluded one.
  pub assert_staff_member_can_take_slot-Apart :
      (staff starts_at : ℕ) (business : Business) (bounds : DayBounds) (b : Appointment)
      → assert_staff_member_can_take_slot rt now db business_id service_id staff starts_at exclude
        ≡ ok tt
      → find_business business_id db ≡ some business
      → zoned_day_bounds rt
          (date_only_in_time_zone rt starts_at business.timezone)
          business.timezone
        ≡ ok bounds
      → In b db.appointments
      → b.business_id ≡ business_id
      → b.staff_member_id ≡ staff
      → (b.status ≡ AppointmentStatus.pending) ⊎ (b.status ≡ AppointmentStatus.confirmed)
      → exclude ≢ some b.id
      → b.starts_at < bounds.end
      → bounds.start < b.ends_at
      → (g : Granted staff starts_at) × Apart starts_at g.slot.ends_at b.starts_at b.ends_at
  unfolding day_input
  assert_staff_member_can_take_slot-Apart staff starts_at business bounds b h e1 e2 m of same live
        other before after =
      let g = assert_staff_member_can_take_slot-eq-ok staff starts_at h in
      let one : business ≡ g.day.business = some-injective (sym e1 ∙ g.day.found) in
      let same_day : bounds ≡ g.day.bounds = ok-injective (
        sym e2
        ∙ ap (λ z. zoned_day_bounds rt (date_only_in_time_zone rt starts_at z.timezone) z.timezone)
            one
        ∙ ap (λ d. zoned_day_bounds rt d g.day.business.timezone) (sym g.on_date)
        ∙ g.day.bounded) in
      let is_busy = is_busy_on g.day.business.id exclude g.day.bounds in
      let busy : is_busy b ≡ true =
        subst (λ n. is_busy_on n exclude g.day.bounds b ≡ true) (sym (same_business g.day))
          (subst (λ d. is_busy_on business_id exclude d b ≡ true) same_day
            (is_busy_on_live b bounds of live other before after)) in
      let listed =
        In-map busy_slot b (keep is_busy db.appointments)
          ((keep-In_iff is_busy b db.appointments).1 (m, busy)) in
      let unbooked =
        All-In (Unbooked g.slot.staff_member_id g.slot.starts_at g.slot.ends_at)
          (map busy_slot (keep is_busy db.appointments)) g.offered.fits.unbooked listed in
      (
        g,
        subst (λ n. Apart n g.slot.ends_at b.starts_at b.ends_at) g.at_start
            (unbooked (same ∙ sym g.of_staff)),
      )
