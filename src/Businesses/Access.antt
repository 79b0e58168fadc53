-- ===== src/Businesses/Access.antt =====
-- The guards and `requireCurrentBusiness`: whose business a handler acts on.
use turno_flow.Prelude.{
  ℕ, ◌≡◌, refl, sym, ap, ◌∙◌, subst, arith, List, ◌∷◌, true, Option, none, some, ok, forbidden,
  or_throw, or_throw-eq-ok, require-eq-ok, bind_elim, ok-injective, ◌==◌, any, any_witness,
  find_first, find_first_sound, In,
}
use turno_flow.Schema.{Db, Business, BusinessMember, BusinessMemberRole}
use turno_flow.Store.{find_business}
use turno_flow.Businesses.{
  AuthenticatedUser, same_role, is_active_member, is_number, business_context_guard, roles_guard,
  require_current_business,
}

same_role_sound : (r s : BusinessMemberRole) → same_role r s ≡ true → r ≡ s
same_role_sound r s h = ground arith

-- A request that passes the guards acts on a business in whose team the user is active, in one of
-- the roles that the handler is marked with.
pub record Admitted (db : Db) (user : AuthenticatedUser) (roles : List BusinessMemberRole)
    (b : Business) : Type 0 where
  pub member : BusinessMember
  pub listed : In member db.members
  pub active : member.active ≡ true
  pub is_user : member.user_id ≡ some user.id
  pub of_business : member.business_id ≡ b.id
  pub allowed : In member.role roles

is_number_sound : (k : ℕ) (o : Option ℕ) → is_number k o ≡ true → o ≡ some k
is_number_sound k none h = absurd (cc h)
is_number_sound k (some n) h = let same : n ≡ k = ground arith in ap some same

-- What the first guard leaves in the request.
record Resolved (db : Db) (user user' : AuthenticatedUser) : Type 0 where
  member : BusinessMember
  found : find_first (is_active_member user.id) db.members ≡ some member
  result : user' ≡ record user {
    business_id = some member.business_id;
    role = some member.role;
    staff_member_id = member.staff_member_id;
  }

business_context_guard-eq-ok :
    (db : Db) (user user' : AuthenticatedUser)
    → business_context_guard db user ≡ ok user'
    → Resolved db user user'
unfolding business_context_guard
business_context_guard-eq-ok db user user' h =
    bind_elim
      (or_throw (find_first (is_active_member user.id) db.members)
        (forbidden "No active business membership found"))
      _ h
      (λ m e h'. record {
        member = m;
        found = or_throw-eq-ok (find_first (is_active_member user.id) db.members) _ e;
        result = sym (ok-injective h');
      })

roles_guard-In :
    (r : BusinessMemberRole) (roles : List BusinessMemberRole) (user : AuthenticatedUser)
    (role : BusinessMemberRole)
    → user.role ≡ some role
    → roles_guard (r ∷ roles) user ≡ ok tt
    → In role (r ∷ roles)
unfolding roles_guard
roles_guard-In r roles user role given h =
    bind_elim (or_throw user.role (forbidden "Role information unavailable")) _ h (λ own e h'.
      let same : own ≡ role =
        cc (or_throw-eq-ok user.role (forbidden "Role information unavailable") e, given) in
      let listed = require-eq-ok (any (same_role own) (r ∷ roles)) _ h' in
      let (s, m, q) = any_witness (same_role own) (r ∷ roles) listed in
      subst (λ x. In x (r ∷ roles)) (sym (same_role_sound own s q) ∙ same) m)

-- A request that passes both guards, for a handler marked with roles, acts on the business of an
-- active membership of the user whose role is one of them. The schema's foreign key says that
-- every member's business exists.
pub guards-Admitted :
    (db : Db) (user user' : AuthenticatedUser) (r : BusinessMemberRole)
    (roles : List BusinessMemberRole) (b : Business)
    → ((m : BusinessMember)
        → In m db.members
        → (c : Business) × (find_business m.business_id db ≡ some c))
    → business_context_guard db user ≡ ok user'
    → roles_guard (r ∷ roles) user' ≡ ok tt
    → require_current_business db user' ≡ ok b
    → Admitted db user (r ∷ roles) b
unfolding require_current_business find_business
guards-Admitted db user user' r roles b keyed h1 h2 h3 =
    let resolved = business_context_guard-eq-ok db user user' h1 in
    let m = resolved.member in
    let (listed, is_one) = find_first_sound (is_active_member user.id) db.members resolved.found in
    let (c, found) = keyed m listed in
    let business : user'.business_id ≡ some m.business_id =
      ap (λ u. u.business_id) resolved.result in
    let role : user'.role ≡ some m.role = ap (λ u. u.role) resolved.result in
    let same : c ≡ b = ok-injective (sym (current user' m.business_id business c found) ∙ h3) in
    let (_, key) = find_first_sound (λ (x : Business). x.id == m.business_id) db.businesses found in
    record {
      member = m;
      listed = listed;
      active = ground arith;
      is_user = is_number_sound user.id m.user_id (ground arith);
      of_business = subst (λ x. m.business_id ≡ x.id) same (ground arith);
      allowed = roles_guard-In r roles user' m.role role h2;
    }
  where
    current :
        (u : AuthenticatedUser) (k : ℕ)
        → u.business_id ≡ some k
        → (c : Business) → find_business k db ≡ some c
        → require_current_business db u ≡ ok c
    current u k e c found = rw (require_current_business, e, found) refl
