-- ===== src/Businesses/Owners.antt =====
-- businesses.service.ts: the owner of a business, through all that happens to its team.
use turno_flow.Prelude.{
  ℕ, suc, ◌<◌, ◌≡◌, ◌≢◌, refl, sym, ap, ◌∙◌, subst, arith, List, [], ◌∷◌, ◌++◌, Bool, true, not,
  ◌&&◌, Option, some, Option-cases, Bool-cases, inl, inr, ok, not_found, conflict, or_throw,
  or_throw-eq-ok, require, require-eq-ok, bind_elim, ok-injective, ◌==◌, any, find_first,
  find_first_sound, update_where, In, In-append_iff, In-update_where_other, All, All-append,
  All-update_where, Ordered, Ordered-append, update_where-Ordered, same_row,
}
use turno_flow.Text.{Text}
use turno_flow.Time.{Runtime}
use turno_flow.Schema.{Db, Business, BusinessMember, BusinessMemberRole, owner}
use turno_flow.Store.{outbox_create, audit_create}
use turno_flow.Store.Sound.{All-map}
use turno_flow.Businesses.{AuthenticatedUser, is_number, same_role, require_current_business}
use turno_flow.Businesses.Members.{
  InviteInput, is_member, is_pending, assert_staff_can_be_linked, add_account, add_invite,
  invite_member, change_member_role, deactivate_member,
}

-- The rows of the members' table have distinct identifiers below those still to be drawn.
pub record Team (n : ℕ) (members : List BusinessMember) : Type 0 where
  pub distinct : Ordered (λ a b. a.id ≢ b.id) members
  pub below : All (λ m. m.id < n) members

abbrev pub HasTeam : Db → Type 0
HasTeam db = Team db.next_id db.members

module _ (o : BusinessMember) where
  -- An active owner's row in the table.
  pub record Leads (n : ℕ) (members : List BusinessMember) : Type 0 where
    pub team : Team n members
    pub listed : In o members
    pub is_active : o.active ≡ true
    pub is_owner : o.role ≡ owner

  abbrev pub Leading : Db → Type 0
  Leading db = Leads db.next_id db.members

  mono : (n : ℕ) (members : List BusinessMember) → Leads n members → Leads (suc n) members
  mono n members l = record {
    team = record {
      distinct = l.team.distinct;
      below = All-map (λ m. m.id < n) (λ m. m.id < suc n) members l.team.below (λ m h. omega arith);
    };
    listed = l.listed;
    is_active = l.is_active;
    is_owner = l.is_owner;
  }

  insert :
      (n : ℕ) (members : List BusinessMember) (m : BusinessMember)
      → m.id ≡ n
      → Leads n members
      → Leads (suc n) (members ++ m ∷ [])
  insert n members m new l = record {
    team = record {
      distinct =
          Ordered-append (λ a b. a.id ≢ b.id) members m l.team.distinct
            (All-map (λ x. x.id < n) (λ x. x.id ≢ m.id) members l.team.below (λ x h. omega arith));
      below =
          All-append (λ x. x.id < suc n) members (m ∷ []) (mono n members l).team.below
            (omega arith, tt);
    };
    listed = (In-append_iff o members (m ∷ [])).1 (inl l.listed);
    is_active = l.is_active;
    is_owner = l.is_owner;
  }

  -- A write to another row.
  replace :
      (n : ℕ) (members : List BusinessMember) (c updated : BusinessMember)
      → In c members
      → c ≢ o
      → updated.id ≡ c.id
      → Leads n members
      → Leads n (update_where (λ m. m.id == c.id) (λ _. updated) members)
  replace n members c updated m other keeps l = record {
    team = record {
      distinct =
          update_where-Ordered (λ m. m.id == c.id) (λ _. updated) (λ m. m.id) members
            (λ x e. ground arith) l.team.distinct;
      below =
          All-update_where (λ m. m.id == c.id) (λ _. updated) (λ m. m.id < n) (λ m. m.id < n)
            members l.team.below (λ x h e. ground arith) (λ x h e. h);
    };
    listed = elim (Bool-cases (o.id == c.id)) [
      | inl e ↦
          absurd (other (same_row (λ m. m.id) members l.team.distinct m l.listed (ground arith)))
      | inr e ↦ In-update_where_other (λ m. m.id == c.id) (λ _. updated) members l.listed e
    ];
    is_active = l.is_active;
    is_owner = l.is_owner;
  }

  add_account-Leading :
      (user : ℕ) (b : Business) (input : InviteInput) (account : ℕ) (db db' : Db)
      {m : BusinessMember}
      → Leading db
      → add_account user b input account
          (find_first (λ x. x.business_id == b.id && is_number account x.user_id) db.members)
          db
        ≡ ok (db', m)
      → Leading db'
  unfolding add_account outbox_create audit_create
  add_account-Leading user b input account db db' {m} l h =
      elim (Option-cases (find_first own db.members)) [
        | inl e ↦
            subst (λ p. Leading p.0)
              (ok-injective (sym (ap (λ x. add_account user b input account x db) e) ∙ h))
              (mono _ _ (insert db.next_id db.members _ refl l))
        | inr (c, e) ↦
            bind_elim
              (require (not c.active)
                (conflict "User is already an active member of this business"))
              _ (sym (ap (λ x. add_account user b input account x db) e) ∙ h)
              (λ _ e1 h1.
                let idle = require-eq-ok (not c.active) _ e1 in
                let (listed, _) = find_first_sound own db.members e in
                subst (λ p. Leading p.0) (ok-injective h1)
                  (mono _ _ (
                    replace db.next_id db.members c _ listed
                      (λ same. differ c (rw same l.is_active) idle) refl l)))
      ]
    where
      own : BusinessMember → Bool
      own = λ x. x.business_id == b.id && is_number account x.user_id

      differ : (c : BusinessMember) → c.active ≡ true → not c.active ≡ true → ⊥
      differ c e d = ground arith

  add_invite-Leading :
      (user : ℕ) (b : Business) (input : InviteInput) (email : Text) (token_hash expires : ℕ)
      (db db' : Db) {m : BusinessMember}
      → Leading db
      → add_invite user b input email token_hash expires db ≡ ok (db', m)
      → Leading db'
  unfolding add_invite outbox_create audit_create
  add_invite-Leading user b input email token_hash expires db db' {m} l h =
      bind_elim
        (require (not (any (is_pending b.id email) db.members))
          (conflict "A pending invite already exists for this email"))
        _ h
        (λ _ _ h1.
          subst (λ p. Leading p.0) (ok-injective h1)
            (mono _ _ (insert db.next_id db.members _ refl l)))

  invite_member-Leading :
      (rt : Runtime) (accounts : Text → Option ℕ) (token_hash expires : ℕ)
      (user : AuthenticatedUser) (input : InviteInput) (db db' : Db) {m : BusinessMember}
      → Leading db
      → invite_member rt accounts token_hash expires user input db ≡ ok (db', m)
      → Leading db'
  unfolding invite_member
  invite_member-Leading rt accounts token_hash expires user input db db' {m} l h =
      bind_elim (require_current_business db user) _ h (λ b e1 h1.
        let email = rt.to_lower_case input.email in
        bind_elim (assert_staff_can_be_linked db b.id input.staff_member_id) _ h1 (λ _ e2 h2.
          elim (Option-cases (accounts email)) [
            | inl e ↦
                add_invite-Leading user.id b input email token_hash expires db db' l (rw e at h2)
            | inr (account, e) ↦ add_account-Leading user.id b input account db db' l (rw e at h2)
          ]))

  -- The row that a handler found by its key, and that is no owner's.
  replace_other :
      (db : Db) (b : Business) (k : ℕ) (c updated : BusinessMember)
      → updated.id ≡ c.id
      → find_first (is_member b.id k) db.members ≡ some c
      → not (same_role c.role owner) ≡ true
      → Leading db
      → Leads db.next_id (update_where (λ m. m.id == k) (λ _. updated) db.members)
  replace_other db b k c updated keeps found plain l =
      let (listed, key) = find_first_sound (is_member b.id k) db.members found in
      let is_k : c.id ≡ k = ground arith in
      subst (λ j. Leads db.next_id (update_where (λ m. m.id == j) (λ _. updated) db.members)) is_k
        (replace db.next_id db.members c updated listed
          (λ same. differ c.role (rw same l.is_owner) plain) keeps l)
    where
      differ : (r : BusinessMemberRole) → r ≡ owner → not (same_role r owner) ≡ true → ⊥
      differ r e d = let d' : not (same_role owner owner) ≡ true = rw e at d in cc d'

  change_member_role-Leading :
      (user : AuthenticatedUser) (k : ℕ) (role : BusinessMemberRole) (db db' : Db)
      {m : BusinessMember}
      → Leading db
      → change_member_role user k role db ≡ ok (db', m)
      → Leading db'
  unfolding change_member_role outbox_create audit_create
  change_member_role-Leading user k role db db' {m} l h =
      bind_elim (require_current_business db user) _ h (λ b e1 h1.
        bind_elim
          (or_throw (find_first (is_member b.id k) db.members) (not_found "Member not found")) _ h1
          (λ c e2 h2.
            bind_elim
              (require (not (same_role c.role owner))
                (conflict "Cannot change the role of the business owner"))
              _ h2
              (λ _ e3 h3.
                subst (λ p. Leading p.0) (ok-injective h3)
                  (mono _ _ (
                    replace_other db b k c _ refl
                      (or_throw-eq-ok (find_first (is_member b.id k) db.members) _ e2)
                      (require-eq-ok (not (same_role c.role owner)) _ e3) l)))))

  deactivate_member-Leading :
      (user : AuthenticatedUser) (k : ℕ) (db db' : Db) {m : BusinessMember}
      → Leading db
      → deactivate_member user k db ≡ ok (db', m)
      → Leading db'
  unfolding deactivate_member audit_create
  deactivate_member-Leading user k db db' {m} l h =
      bind_elim (require_current_business db user) _ h (λ b e1 h1.
        bind_elim
          (or_throw (find_first (is_member b.id k) db.members) (not_found "Member not found")) _ h1
          (λ c e2 h2.
            bind_elim
              (require (not (same_role c.role owner))
                (conflict "Cannot deactivate the business owner"))
              _ h2
              (λ _ e3 h3.
                subst (λ p. Leading p.0) (ok-injective h3)
                  (replace_other db b k c _ refl
                    (or_throw-eq-ok (find_first (is_member b.id k) db.members) _ e2)
                    (require-eq-ok (not (same_role c.role owner)) _ e3) l))))

-- Each constructor is one answered request about the team.
pub data TeamStep (rt : Runtime) (db db' : Db) : Type 0 where
  invitation :
      (accounts : Text → Option ℕ) (token_hash expires : ℕ) (user : AuthenticatedUser)
      (input : InviteInput) (m : BusinessMember)
      → invite_member rt accounts token_hash expires user input db ≡ ok (db', m)
      → TeamStep rt db db'
  role_change :
      (user : AuthenticatedUser) (k : ℕ) (role : BusinessMemberRole) (m : BusinessMember)
      → change_member_role user k role db ≡ ok (db', m)
      → TeamStep rt db db'
  deactivation :
      (user : AuthenticatedUser) (k : ℕ) (m : BusinessMember)
      → deactivate_member user k db ≡ ok (db', m)
      → TeamStep rt db db'

pub data TeamSteps (rt : Runtime) (db : Db) : Db → Type 0 where
  done : TeamSteps rt db db
  more : {db1 db2 : Db} → TeamSteps rt db db1 → TeamStep rt db1 db2 → TeamSteps rt db db2

module _ (rt : Runtime) (o : BusinessMember) where
  TeamStep-Leading : {db db' : Db} → Leading o db → TeamStep rt db db' → Leading o db'
  TeamStep-Leading l (invitation accounts token_hash expires user input m h) =
      invite_member-Leading o rt accounts token_hash expires user input _ _ l h
  TeamStep-Leading l (role_change user k role m h) =
      change_member_role-Leading o user k role _ _ l h
  TeamStep-Leading l (deactivation user k m h) = deactivate_member-Leading o user k _ _ l h

  TeamSteps-Leading : {db db' : Db} → Leading o db → TeamSteps rt db db' → Leading o db'
  TeamSteps-Leading l done = l
  TeamSteps-Leading l (more before step) = TeamStep-Leading (TeamSteps-Leading l before) step

-- No sequence of invitations, changes of role and deactivations, by whomever, changes the row of
-- an active owner.
pub TeamSteps-owner :
    (rt : Runtime) (o : BusinessMember) (db db' : Db)
    → HasTeam db
    → In o db.members
    → o.active ≡ true
    → o.role ≡ owner
    → TeamSteps rt db db'
    → In o db'.members
TeamSteps-owner rt o db db' team listed is_active is_owner steps =
    (TeamSteps-Leading rt o
      (record { team = team; listed = listed; is_active = is_active; is_owner = is_owner })
      steps).listed
