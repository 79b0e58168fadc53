-- ===== src/Businesses/Weekly.antt =====
-- businesses.service.ts: the weekly rules through all that happens to them.
use turno_flow.Prelude.{
  NoClash, NoClash-insert, NoClash-replace, ℕ, ◌<◌, ◌≡◌, subst, subst⁻¹, arith, List, [], ◌∷◌, ◌++◌,
  Bool, true, false, not, ◌&&◌, Option, none, some, Bool-cases, inl, inr, ok, not_found, or_throw,
  require-eq-ok, bind_elim, ok-injective, ltb, ◌==◌, any, any_of_In, find_first, update_where, In,
  All, All-In, All-append, All-update_where,
}
use turno_flow.Time.{minutes_since_midnight}
use turno_flow.Schema.{Db, AvailabilityRule}
use turno_flow.Store.{outbox_create, audit_create}
use turno_flow.Booking.{is_excluded}
use turno_flow.Businesses.{
  AuthenticatedUser, require_current_business, require_staff_member, assert_time_range,
}
use turno_flow.Businesses.Schedule.{
  RuleInput, RuleUpdate, switched_off, new_rule, updated_rule, is_weekly_rule,
  assert_unique_weekly_availability_rule, assert_unique_if_active, create_availability_rule,
  update_availability_rule, deactivate_availability_rule,
}

-- Two rules that give one staff member two active ranges on one day of the week.
abbrev pub clashes : AvailabilityRule → AvailabilityRule → Bool
clashes a b =
    not (a.id == b.id)
    && a.active
    && b.active
    && a.business_id == b.business_id
    && a.staff_member_id == b.staff_member_id
    && a.weekday == b.weekday

-- The range of the rule begins before it ends.
abbrev pub Ranged : AvailabilityRule → Type 0
Ranged r =
    (from : ℕ) × (to : ℕ) × (minutes_since_midnight r.start_time ≡ ok from)
    × (minutes_since_midnight r.end_time ≡ ok to)
    × (from < to)

pub record Weekly (rules : List AvailabilityRule) : Type 0 where
  pub unique : NoClash clashes rules
  pub ranged : All Ranged rules

clashes_comm : (a b : AvailabilityRule) → clashes a b ≡ clashes b a
clashes_comm a b = ground arith

clashes_self : (a : AvailabilityRule) → clashes a a ≡ false
clashes_self a = ground arith

assert_time_range-eq-ok :
    (r : AvailabilityRule) → assert_time_range r.start_time r.end_time ≡ ok tt → Ranged r
unfolding assert_time_range
assert_time_range-eq-ok r h = bind_elim (minutes_since_midnight r.start_time) _ h (λ from e1 h1.
    bind_elim (minutes_since_midnight r.end_time) _ h1
      (λ to e2 h2. let less = require-eq-ok (ltb from to) _ h2 in (from, to, e1, e2, ground arith)))

-- What the check on the other rules of the day shows.
alone :
    (db : Db) (a : AvailabilityRule) (exclude : Option ℕ)
    → ((k : ℕ) → is_excluded exclude k ≡ true → k ≡ a.id)
    → assert_unique_weekly_availability_rule db a.business_id a.staff_member_id a.weekday exclude
      ≡ ok tt
    → (b : AvailabilityRule) → In b db.rules
    → clashes a b ≡ false
alone db a exclude own h b m =
    let test = is_weekly_rule a.business_id a.staff_member_id a.weekday exclude in
    let none_found = require-eq-ok (not (any test db.rules)) _ h in
    elim (Bool-cases (test b)) [
      | inl hit ↦ absurd (ground (arith, any_of_In test db.rules m hit))
      | inr miss ↦ elim (Bool-cases (is_excluded exclude b.id)) [
        | inl e ↦ let same = own b.id e in ground arith
        | inr e ↦ ground arith
      ]
    ]

insert-Weekly :
    (a : AvailabilityRule) (rules : List AvailabilityRule)
    → Weekly rules
    → Ranged a
    → ((b : AvailabilityRule) → In b rules → clashes a b ≡ false)
    → Weekly (rules ++ a ∷ [])
insert-Weekly a rules w r fits = record {
  unique = NoClash-insert clashes clashes_comm clashes_self a rules w.unique fits;
  ranged = All-append Ranged rules (a ∷ []) w.ranged (r, tt);
}

replace-Weekly :
    (a : AvailabilityRule) (rules : List AvailabilityRule)
    → Weekly rules
    → Ranged a
    → ((b : AvailabilityRule) → In b rules → clashes a b ≡ false)
    → Weekly (update_where (λ b. b.id == a.id) (λ _. a) rules)
replace-Weekly a rules w r fits = record {
  unique =
      NoClash-replace clashes clashes_comm clashes_self a rules (λ b. b.id == a.id) w.unique fits;
  ranged =
      All-update_where (λ b. b.id == a.id) (λ _. a) Ranged Ranged rules w.ranged (λ _ _ _. r)
        (λ _ h _. h);
}

create_availability_rule-Weekly :
    (user : AuthenticatedUser) (input : RuleInput) (db db' : Db) {r : AvailabilityRule}
    → Weekly db.rules
    → create_availability_rule user input db ≡ ok (db', r)
    → Weekly db'.rules
unfolding create_availability_rule outbox_create audit_create
create_availability_rule-Weekly user input db db' {r} w h =
    bind_elim (require_current_business db user) _ h (λ b e1 h1.
      bind_elim (require_staff_member db b.id input.staff_member_id) _ h1 (λ _ e2 h2.
        bind_elim (assert_time_range input.start_time input.end_time) _ h2 (λ _ e3 h3.
          let day =
            assert_unique_weekly_availability_rule db b.id input.staff_member_id input.weekday
              none in
          bind_elim day _ h3 (λ _ e4 h4.
            let a = new_rule b.id input db.next_id in
            subst (λ p. Weekly p.0.rules) (ok-injective h4)
              (insert-Weekly a db.rules w (assert_time_range-eq-ok a e3)
                (alone db a none (λ k e. absurd (cc e)) e4))))))

update_availability_rule-Weekly :
    (user : AuthenticatedUser) (k : ℕ) (input : RuleUpdate) (db db' : Db) {r : AvailabilityRule}
    → Weekly db.rules
    → update_availability_rule user k input db ≡ ok (db', r)
    → Weekly db'.rules
unfolding update_availability_rule
update_availability_rule-Weekly user k input db db' {r} w h =
    bind_elim (require_current_business db user) _ h (λ b e1 h1.
      bind_elim
        (or_throw (find_first (λ r. r.business_id == b.id && r.id == k) db.rules)
          (not_found "Availability rule not found"))
        _ h1
        (λ rule e2 h2.
          let a = updated_rule input rule in
          bind_elim (assert_time_range a.start_time a.end_time) _ h2 (λ _ e3 h3.
            bind_elim (assert_unique_if_active db a) _ h3 (λ _ e4 h4.
              subst (λ p. Weekly p.0.rules) (ok-injective h4)
                (replace-Weekly a db.rules w (assert_time_range-eq-ok a e3) (free db a e4))))))
  where
    free :
        (db : Db) (a : AvailabilityRule)
        → assert_unique_if_active db a ≡ ok tt
        → (b : AvailabilityRule) → In b db.rules
        → clashes a b ≡ false
    free db a e b m = elim (Bool-cases a.active) [
      | inl on ↦ alone db a (some a.id) (λ k e. ground arith) (rw on at e) b m
      | inr off ↦ ground arith
    ]

-- Each constructor is one answered request about the weekly rules.
pub data RuleStep (db db' : Db) : Type 0 where
  creation :
      (user : AuthenticatedUser) (input : RuleInput) (r : AvailabilityRule)
      → create_availability_rule user input db ≡ ok (db', r)
      → RuleStep db db'
  update :
      (user : AuthenticatedUser) (k : ℕ) (input : RuleUpdate) (r : AvailabilityRule)
      → update_availability_rule user k input db ≡ ok (db', r)
      → RuleStep db db'
  deactivation :
      (user : AuthenticatedUser) (k : ℕ) (r : AvailabilityRule)
      → deactivate_availability_rule user k db ≡ ok (db', r)
      → RuleStep db db'

pub data RuleSteps (db : Db) : Db → Type 0 where
  done : RuleSteps db db
  more : {db1 db2 : Db} → RuleSteps db db1 → RuleStep db1 db2 → RuleSteps db db2

RuleStep-Weekly : {db db' : Db} → Weekly db.rules → RuleStep db db' → Weekly db'.rules
unfolding deactivate_availability_rule
RuleStep-Weekly w (creation user input r h) = create_availability_rule-Weekly user input _ _ w h
RuleStep-Weekly w (update user k input r h) = update_availability_rule-Weekly user k input _ _ w h
RuleStep-Weekly w (deactivation user k r h) =
    update_availability_rule-Weekly user k switched_off _ _ w h

RuleSteps-Weekly : {db db' : Db} → Weekly db.rules → RuleSteps db db' → Weekly db'.rules
RuleSteps-Weekly w done = w
RuleSteps-Weekly w (more before step) = RuleStep-Weekly (RuleSteps-Weekly w before) step

-- However the weekly rules are created, changed and deactivated, from none: two active rules of one
-- staff member of a business for one day of the week are one rule, and its range begins before it
-- ends.
pub RuleSteps-unique :
    (db db' : Db)
    → db.rules ≡ []
    → RuleSteps db db'
    → (a b : AvailabilityRule) → In a db'.rules
    → In b db'.rules
    → a.active ≡ true
    → b.active ≡ true
    → a.business_id ≡ b.business_id
    → a.staff_member_id ≡ b.staff_member_id
    → a.weekday ≡ b.weekday
    → (a.id ≡ b.id) × Ranged a
RuleSteps-unique db db' start steps a b ma mb on_a on_b same_business same_staff same_day =
    let w = RuleSteps-Weekly (subst⁻¹ Weekly start nothing) steps in
    let apart = w.unique a b ma mb in (ground arith, All-In Ranged db'.rules w.ranged ma)
  where
    nothing : Weekly []
    nothing = record { unique = λ a b m n. elim m [ ]; ranged = tt }
