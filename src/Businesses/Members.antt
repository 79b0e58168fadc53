-- ===== src/Businesses/Members.antt =====
-- businesses.service.ts: the members of a team. `accounts` is the query for the user with an email
-- address; the hash of the random token and the runtime's date a week later are arguments.
use turno_flow.Prelude.{
  ℕ, suc, [], ◌∷◌, ◌++◌, Bool, true, false, not, ◌&&◌, Option, none, some, String, Result, ok,
  not_found, conflict, or_throw, require, ◌>>=◌, ◌>>◌, ◌==◌, any, find_first, update_where,
}
use turno_flow.Text.{Text, text_eq}
use turno_flow.Time.{Runtime}
use turno_flow.Events.{EventType}
use turno_flow.Schema.{
  Db, Business, BusinessMember, BusinessMemberRole, owner, active, pending_invite, inactive,
  member_payload, role_payload,
}
use turno_flow.Store.{outbox_create, audit_create}
use turno_flow.Businesses.{AuthenticatedUser, is_number, same_role, require_current_business}

pub record InviteInput : Type 0 where
  pub email : Text
  pub role : BusinessMemberRole
  pub staff_member_id : Option ℕ

-- A query for a staff member who is active, and for one to whom no account is linked.
abbrev is_linked : ℕ → ℕ → BusinessMember → Bool
is_linked business staff m =
    m.business_id == business
    && is_number staff m.staff_member_id
    && elim (m.user_id) [ none ↦ false | some u ↦ true ]

abbrev pub assert_staff_can_be_linked : Db → ℕ → Option ℕ → Result (Unit {0})
assert_staff_can_be_linked db business none = ok tt
assert_staff_can_be_linked db business (some k) = do
  require (any (λ s. s.active && s.business_id == business && s.id == k) db.staff_members)
      (not_found "Staff member not found")
  require (not (any (is_linked business k) db.members))
      (conflict "Staff member is already linked to a team member")

abbrev pub write_member : ℕ → (BusinessMember → BusinessMember) → Db → Db
write_member k f db = record db { members = update_where (λ m. m.id == k) f db.members }

abbrev pub insert_member : BusinessMember → Db → Db
insert_member m db = record db { next_id = suc db.next_id; members = db.members ++ m ∷ [] }

-- The audit row and the message of an invitation.
abbrev announce_member : String → ℕ → Business → ℕ → BusinessMemberRole → Db → Db
announce_member action user b k role db =
    outbox_create EventType.member_invited k b.id (member_payload b.id k role) (
      audit_create
        (record {
          action = action;
          business_id = b.id;
          entity_id = k;
          before = none;
          after = some (member_payload b.id k role);
          user_id = some user;
        })
        db)

abbrev rejoined : InviteInput → BusinessMember → BusinessMember
rejoined input m = record m {
  active = true;
  role = input.role;
  staff_member_id = input.staff_member_id;
  status = active;
}

-- `inviteMember` for an address that has an account, by the account's row in the team.
unfoldable pub add_account :
    ℕ
    → Business
    → InviteInput
    → (account : ℕ) → Option BusinessMember
    → Db
    → Result (Db × BusinessMember)
add_account user b input account (some m) db = do
  require (not m.active) (conflict "User is already an active member of this business")
  ok (
    announce_member "member.added" user b m.id input.role
        (write_member m.id (λ _. rejoined input m) db),
    rejoined input m,
  )
add_account user b input account none db =
    let m : BusinessMember = record {
      id = db.next_id;
      business_id = b.id;
      user_id = some account;
      active = true;
      role = input.role;
      staff_member_id = input.staff_member_id;
      status = active;
      invite_email = none;
      invite_expires_at = none;
      invite_token_hash = none;
    } in
    ok (announce_member "member.added" user b m.id input.role (insert_member m db), m)

abbrev pub is_pending : ℕ → Text → BusinessMember → Bool
is_pending business email m =
    m.business_id == business
    && elim (m.invite_email) [ none ↦ false | some e ↦ text_eq e email ]
    && elim (m.user_id) [ none ↦ true | some u ↦ false ]

-- `inviteMember` for an address without an account.
unfoldable pub add_invite :
    ℕ → Business → InviteInput → Text → (token_hash expires : ℕ) → Db → Result (Db × BusinessMember)
add_invite user b input email token_hash expires db = do
  require (not (any (is_pending b.id email) db.members))
      (conflict "A pending invite already exists for this email")
  let m : BusinessMember = record {
    id = db.next_id;
    business_id = b.id;
    user_id = none;
    active = false;
    role = input.role;
    staff_member_id = input.staff_member_id;
    status = pending_invite;
    invite_email = some email;
    invite_expires_at = some expires;
    invite_token_hash = some token_hash;
  }
  ok (announce_member "member.invited" user b m.id input.role (insert_member m db), m)

-- `inviteMember`
unfoldable pub invite_member :
    Runtime
    → (accounts : Text → Option ℕ) (token_hash expires : ℕ) → AuthenticatedUser
    → InviteInput
    → Db
    → Result (Db × BusinessMember)
unfolding add_account add_invite
invite_member rt accounts token_hash expires user input db = do
  b ← require_current_business db user
  let email = rt.to_lower_case input.email
  assert_staff_can_be_linked db b.id input.staff_member_id
  elim (accounts email) [
    | some account ↦
        add_account user.id b input account
          (find_first (λ m. m.business_id == b.id && is_number account m.user_id) db.members) db
    | none ↦ add_invite user.id b input email token_hash expires db
  ]

abbrev pub is_member : ℕ → ℕ → BusinessMember → Bool
is_member business k m = m.business_id == business && m.id == k

-- `changeMemberRole`
unfoldable pub change_member_role :
    AuthenticatedUser → ℕ → BusinessMemberRole → Db → Result (Db × BusinessMember)
change_member_role user k role db = do
  b ← require_current_business db user
  m ← or_throw (find_first (is_member b.id k) db.members) (not_found "Member not found")
  require (not (same_role m.role owner)) (conflict "Cannot change the role of the business owner")
  let updated = record m { role = role }
  ok (
    outbox_create EventType.member_role_changed k b.id (member_payload b.id k role) (
        audit_create
          (record {
            action = "member.role_changed";
            business_id = b.id;
            entity_id = k;
            before = some (role_payload m.role);
            after = some (role_payload role);
            user_id = some user.id;
          })
          (write_member k (λ _. updated) db)),
    updated,
  )

-- `deactivateMember`
unfoldable pub deactivate_member : AuthenticatedUser → ℕ → Db → Result (Db × BusinessMember)
deactivate_member user k db = do
  b ← require_current_business db user
  m ← or_throw (find_first (is_member b.id k) db.members) (not_found "Member not found")
  require (not (same_role m.role owner)) (conflict "Cannot deactivate the business owner")
  let updated = record m { active = false; status = inactive }
  ok (
    audit_create
        (record {
          action = "member.deactivated";
          business_id = b.id;
          entity_id = k;
          before = some (role_payload m.role);
          after = none;
          user_id = some user.id;
        })
        (write_member k (λ _. updated) db),
    updated,
  )
