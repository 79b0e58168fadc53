-- ===== src/Sessions.antt =====
-- apps/api/src/auth/auth.service.ts: accounts, sessions and the rotation of refresh tokens. Hashing,
-- signing and random tokens are the runtime's: they are fields of `Crypto` and arguments.
pub mod Rotation
pub mod Reuse
use turno_flow.Prelude.{
  ℕ, suc, ◌+◌, ◌*◌, List, [], ◌∷◌, ◌++◌, Bool, true, false, not, ◌&&◌, Option, none, some, Result,
  ok, err, constraint, thrown, conflict, unauthorized, bad_request, or_throw, require, ◌>>=◌, ◌>>◌,
  ltb, leb, ◌==◌, if◌then◌else◌, any, find_first, update_where,
}
use turno_flow.Text.{Text, text_eq}
use turno_flow.Time.{Runtime, day_ms}

pub record User : Type 0 where
  pub id : ℕ
  pub email : Text
  pub name : Text
  pub password_hash : Text

pub record RefreshToken : Type 0 where
  pub id : ℕ
  pub user_id : ℕ
  pub token_hash : ℕ
  pub family_id : ℕ
  pub expires_at : ℕ
  pub revoked_at : Option ℕ

-- A member row with what its invitation holds.
pub record Invite : Type 0 where
  pub id : ℕ
  pub invite_email : Option Text
  pub invite_token_hash : Option ℕ
  pub invite_expires_at : Option ℕ
  pub user_id : Option ℕ
  pub active : Bool

pub record Accounts : Type 0 where
  pub next_id : ℕ
  pub users : List User
  pub refresh_tokens : List RefreshToken
  pub members : List Invite

pub record Crypto : Type 0 where
  pub hash_token : ℕ → ℕ
  pub hash_password : Text → Text
  pub compare : Text → Text → Bool
  pub sign : ℕ → Text → Text

pub record AuthTokens : Type 0 where
  pub access_token : Text
  pub refresh_token : ℕ

-- `createRefreshTokenRecord`: 30 days from now. The column of hashes is unique.
unfoldable pub create_refresh_token_record : Crypto → ℕ → ℕ → ℕ → ℕ → Accounts → Result Accounts
create_refresh_token_record crypto now user token family db = do
  require (not (any (λ t. t.token_hash == crypto.hash_token token) db.refresh_tokens)) constraint
  ok (record db {
    next_id = suc db.next_id;
    refresh_tokens =
        db.refresh_tokens
        ++ record {
          id = db.next_id;
          user_id = user;
          token_hash = crypto.hash_token token;
          family_id = family;
          expires_at = now + 30 * day_ms;
          revoked_at = none;
        }
          ∷ [];
  })

-- `createSession`
unfoldable pub create_session :
    Crypto → ℕ → ℕ → ℕ → ℕ → Text → Accounts → Result (Accounts × AuthTokens)
unfolding create_refresh_token_record
create_session crypto now token family user email db = do
  db1 ← create_refresh_token_record crypto now user token family db
  ok (db1, record { access_token = crypto.sign user email; refresh_token = token })

unfoldable pub find_user : Text → Accounts → Option User
find_user email db = find_first (λ u. text_eq u.email email) db.users

abbrev pub new_user : Crypto → Text → Text → Text → ℕ → User
new_user crypto email name password id = record {
  id = id;
  email = email;
  name = name;
  password_hash = crypto.hash_password password;
}

abbrev pub is_some : Option User → Bool
is_some none = false
is_some (some u) = true

-- `register`
unfoldable pub register :
    Runtime → Crypto → ℕ → ℕ → ℕ → Text → Text → Text → Accounts → Result (Accounts × AuthTokens)
unfolding create_session find_user
register rt crypto now token family email name password db = do
  let key = rt.to_lower_case email
  require (not (is_some (find_user key db))) (conflict "Email is already registered")
  let user = new_user crypto key name password db.next_id
  create_session crypto now token family user.id user.email
      (record db { next_id = suc db.next_id; users = db.users ++ user ∷ [] })

-- `login`
unfoldable pub login :
    Runtime → Crypto → ℕ → ℕ → ℕ → Text → Text → Accounts → Result (Accounts × AuthTokens)
unfolding create_session find_user
login rt crypto now token family email password db = do
  user ← or_throw (find_user (rt.to_lower_case email) db) (unauthorized "Invalid credentials")
  require (crypto.compare password user.password_hash) (unauthorized "Invalid credentials")
  create_session crypto now token family user.id user.email db

abbrev pub is_unrevoked : Option ℕ → Bool
is_unrevoked none = true
is_unrevoked (some t) = false

abbrev pub revoke : ℕ → RefreshToken → RefreshToken
revoke now t = record t { revoked_at = some now }

-- `updateMany` on the tokens of a family that are not revoked.
unfoldable pub revoke_family : ℕ → ℕ → Accounts → Accounts
revoke_family now family db = record db {
  refresh_tokens =
      update_where (λ t. t.family_id == family && is_unrevoked t.revoked_at) (revoke now)
        db.refresh_tokens;
}

-- The transaction of `refresh`: the stored token is revoked, and a new one joins its family.
unfoldable pub rotate : Crypto → ℕ → ℕ → RefreshToken → Accounts → Result (Accounts × AuthTokens)
unfolding create_refresh_token_record
rotate crypto now token stored db = do
  user ← or_throw (find_first (λ u. u.id == stored.user_id) db.users) (thrown "No User found")
  db1 ← create_refresh_token_record crypto now user.id token stored.family_id (record db {
    refresh_tokens = update_where (λ t. t.id == stored.id) (revoke now) db.refresh_tokens;
  })
  ok (db1, record { access_token = crypto.sign user.id user.email; refresh_token = token })

-- A transaction that fails leaves the state as it was.
abbrev pub settle : Accounts → Result (Accounts × AuthTokens) → Accounts × Result AuthTokens
settle db (ok (db1, tokens)) = (db1, ok tokens)
settle db (err e) = (db, err e)

unfoldable pub refresh_stored :
    Crypto → ℕ → ℕ → RefreshToken → Option ℕ → Accounts → Accounts × Result AuthTokens
unfolding revoke_family rotate
refresh_stored crypto now token stored (some revoked) db =
    (revoke_family now stored.family_id db, err (unauthorized "Refresh token reuse detected"))
refresh_stored crypto now token stored none db = settle db (rotate crypto now token stored db)

-- The two tests of `refresh` on what the query by hash finds.
unfoldable pub refresh_found :
    Crypto → ℕ → ℕ → Option RefreshToken → Accounts → Accounts × Result AuthTokens
unfolding refresh_stored
refresh_found crypto now token none db = (db, err (unauthorized "Invalid refresh token"))
refresh_found crypto now token (some stored) db = elim (leb stored.expires_at now) [
  | true ↦ (db, err (unauthorized "Invalid refresh token"))
  | false ↦ refresh_stored crypto now token stored stored.revoked_at db
]

-- `refresh`, which may write and still throw; `token` is the new random token.
unfoldable pub refresh : Crypto → ℕ → ℕ → ℕ → Accounts → Accounts × Result AuthTokens
unfolding refresh_found
refresh crypto now token given db =
    refresh_found crypto now token
      (find_first (λ t. t.token_hash == crypto.hash_token given) db.refresh_tokens) db

-- `logout`
unfoldable pub logout : Crypto → ℕ → ℕ → Accounts → Accounts
logout crypto now given db = record db {
  refresh_tokens =
      update_where (λ t. is_unrevoked t.revoked_at && t.token_hash == crypto.hash_token given)
        (revoke now) db.refresh_tokens;
}

abbrev pub is_invited : ℕ → ℕ → Invite → Bool
is_invited now token_hash i =
    elim (i.invite_expires_at) [ none ↦ false | some t ↦ ltb now t ]
    && elim (i.invite_token_hash) [ none ↦ false | some h ↦ h == token_hash ]
    && elim (i.user_id) [ none ↦ true | some u ↦ false ]

-- The account that accepts an invitation: the one with its address, or a new one.
unfoldable pub invited_user : Crypto → Text → Text → Text → Accounts → Accounts × User
unfolding find_user
invited_user crypto email name password db = elim (find_user email db) [
  | some u ↦ (db, u)
  | none ↦
      let user = new_user crypto email name password db.next_id in
      (record db { next_id = suc db.next_id; users = db.users ++ user ∷ [] }, user)
]

-- `acceptInvite`; an empty address counts as none.
unfoldable pub accept_invite :
    Crypto → ℕ → ℕ → ℕ → ℕ → Text → Text → Accounts → Result (Accounts × AuthTokens)
unfolding create_session invited_user
accept_invite crypto now token family given name password db = do
  invite ←
      or_throw (find_first (is_invited now (crypto.hash_token given)) db.members)
        (bad_request "Invalid or expired invite token")
  email ← or_throw invite.invite_email (bad_request "Invalid or expired invite token")
  require (not (text_eq email [])) (bad_request "Invalid or expired invite token")
  let (db1, user) = invited_user crypto email name password db
  create_session crypto now token family user.id user.email (record db1 {
    members =
        update_where (λ i. i.id == invite.id)
          (λ i. record i {
            active = true;
            invite_email = none;
            invite_expires_at = none;
            invite_token_hash = none;
            user_id = some user.id;
          })
          db1.members;
  })
