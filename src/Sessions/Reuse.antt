-- ===== src/Sessions/Reuse.antt =====
-- auth.service.ts: refresh tokens after they were used or their session was closed.
use turno_flow.Prelude.{
  ℕ, ◌≡◌, refl, ◌∙◌, ap, subst, Bool, true, false, not, ◌&&◌, Option, some, arith, String, List, [],
  ◌∷◌, ◌++◌, Result, Failure, ok, err, constraint, thrown, unauthorized, require, or_throw,
  bind_elim, ok-injective, ◌==◌, leb, any, find_first, find_first_sound, update_where, Bool-cases,
  Option-cases, inl, inr, In-update_where, if◌then◌else◌,
}
use turno_flow.Sessions.{
  Accounts, RefreshToken, Crypto, AuthTokens, create_refresh_token_record, refresh, refresh_found,
  refresh_stored, logout, revoke, is_unrevoked, rotate, settle,
}
use turno_flow.Sessions.Rotation.{refresh-revoked}

module _ (p q : RefreshToken → Bool) (f : RefreshToken → RefreshToken) where
  -- A query finds the row that it found before an update that does not change its answers.
  find_first-update :
      (xs : List RefreshToken) {a : RefreshToken}
      → ((x : RefreshToken) → p (f x) ≡ p x)
      → find_first p xs ≡ some a
      → find_first p (update_where q f xs) ≡ some (if q a then f a else a)
  find_first-update [] {a} keeps h = absurd (cc h)
  find_first-update (x ∷ xs) {a} keeps h = elim (Bool-cases (p x)) [
    | inl e ↦
        let same : some x ≡ some a = rw e at h in
        let is_a : x ≡ a = cc same in
        subst
          (λ y.
            find_first p ((if q x then f x else x) ∷ update_where q f xs)
            ≡ some (if q y then f y else y))
          is_a (hit x e xs keeps)
    | inr e ↦ miss x e xs keeps (find_first-update xs keeps (rw e at h))
  ]
    where
      kept :
          (x : RefreshToken) (b : Bool)
          → ((x : RefreshToken) → p (f x) ≡ p x)
          → p (if b then f x else x) ≡ p x
      kept x true keeps = keeps x
      kept x false keeps = refl

      hit :
          (x : RefreshToken)
          → p x ≡ true
          → (xs : List RefreshToken) → ((x : RefreshToken) → p (f x) ≡ p x)
          → find_first p ((if q x then f x else x) ∷ update_where q f xs)
            ≡ some (if q x then f x else x)
      hit x e xs keeps = rw (kept x (q x) keeps, e) refl

      miss :
          (x : RefreshToken)
          → p x ≡ false
          → (xs : List RefreshToken) → ((x : RefreshToken) → p (f x) ≡ p x)
          → {r : Option RefreshToken} → find_first p (update_where q f xs) ≡ r
          → find_first p ((if q x then f x else x) ∷ update_where q f xs) ≡ r
      miss x e xs keeps h = rw (kept x (q x) keeps, e) h

find_first-append :
    (p : RefreshToken → Bool) (xs ys : List RefreshToken) {a : RefreshToken}
    → find_first p xs ≡ some a
    → find_first p (xs ++ ys) ≡ some a
find_first-append p [] ys {a} h = absurd (cc h)
find_first-append p (x ∷ xs) ys {a} h = elim (Bool-cases (p x)) [
  | inl e ↦ rw e (rw e at h)
  | inr e ↦ rw e (find_first-append p xs ys (rw e at h))
]

refused :
    {db db' : Accounts} {f : Failure} {tokens : AuthTokens}
    → ¬ (settle db (err f) ≡ (db', ok tokens))
refused {db} {db'} {f} {tokens} h = let clash : err f ≡ ok tokens = ap (λ p. p.1) h in cc

settle-eq-ok :
    (db : Accounts) (m : Result (Accounts × AuthTokens)) {db' : Accounts} {tokens : AuthTokens}
    → settle db m ≡ (db', ok tokens)
    → m ≡ ok (db', tokens)
settle-eq-ok db (ok (db1, t)) h =
    let same : t ≡ _ = ok-injective (ap (λ p. p.1) h) in ap ok (λ i. (ap (λ p. p.0) h i, same i))
settle-eq-ok db (err e) h = absurd (refused h)

-- A request that is refused as unauthorized.
abbrev pub Refused : Accounts × Result AuthTokens → Type 0
Refused p = (m : String) × (p.1 ≡ err (unauthorized m))

module _ (crypto : Crypto) (given : ℕ) where
  abbrev stored_as : RefreshToken → Bool
  stored_as t = t.token_hash == crypto.hash_token given

  revoked-Refused :
      (now token : ℕ) (db : Accounts) (t : RefreshToken)
      → find_first stored_as db.refresh_tokens ≡ some t
      → is_unrevoked t.revoked_at ≡ false
      → Refused (refresh crypto now token given db)
  revoked-Refused now token db t found revoked =
      elim (refresh-revoked crypto now token given db t found revoked) [
        | inl (_, e) ↦ ("Invalid refresh token", ap (λ p. p.1) e)
        | inr (_, e, _) ↦ ("Refresh token reuse detected", e)
      ]

  -- After a logout with a token, every refresh with it is refused, whenever it is made.
  pub logout-Refused :
      (now later token : ℕ) (db : Accounts)
      → Refused (refresh crypto later token given (logout crypto now given db))
  unfolding logout refresh refresh_found
  logout-Refused now later token db =
      let db' = logout crypto now given db in
      elim (Option-cases (find_first stored_as db'.refresh_tokens)) [
        | inl e ↦ ("Invalid refresh token", rw (refresh, e, refresh_found) refl)
        | inr (t, e) ↦
            let (listed, stored) = find_first_sound stored_as db'.refresh_tokens e in
            let open_now = λ (t : RefreshToken). is_unrevoked t.revoked_at && stored_as t in
            revoked-Refused later token db' t e
              (elim (In-update_where open_now (revoke now) t db.refresh_tokens listed) [
                | inl (_, shut) ↦ ground arith
                | inr (y, _, _, same) ↦ ap (λ t. is_unrevoked t.revoked_at) same
              ])
      ]

  -- What a rotation leaves of the token that was given.
  rotate-found :
      (now token : ℕ) (stored : RefreshToken) (db : Accounts) {db' : Accounts} {tokens : AuthTokens}
      → find_first stored_as db.refresh_tokens ≡ some stored
      → rotate crypto now token stored db ≡ ok (db', tokens)
      → find_first stored_as db'.refresh_tokens ≡ some (revoke now stored)
  unfolding rotate create_refresh_token_record
  rotate-found now token stored db {db'} found h =
      let used = λ (t : RefreshToken). t.id == stored.id in
      let rows = update_where used (revoke now) db.refresh_tokens in
      let is_used : used stored ≡ true = ground arith in
      let kept : find_first stored_as rows ≡ some (revoke now stored) = rw is_used at (
        find_first-update stored_as used (revoke now) db.refresh_tokens {a = stored} (λ x. refl)
          found) in
      bind_elim
        (or_throw (find_first (λ u. u.id == stored.user_id) db.users) (thrown "No User found")) _ h
        (λ user e1 h1.
          bind_elim
            (create_refresh_token_record crypto now user.id token stored.family_id
              (record db { refresh_tokens = rows }))
            _ h1
            (λ db1 e2 h2.
              bind_elim
                (require (not (any (λ t. t.token_hash == crypto.hash_token token) rows)) constraint)
                _ e2
                (λ _ e3 h3.
                  let written = ap (λ d. d.refresh_tokens) (ok-injective h3) in
                  let same = ap (λ p. p.0.refresh_tokens) (ok-injective h2) in
                  subst (λ xs. find_first stored_as xs ≡ some (revoke now stored)) (written ∙ same)
                    (find_first-append stored_as rows _ kept))))

  -- After a refresh that succeeds, every refresh with the same token is refused.
  pub refresh-Refused :
      (now token : ℕ) (db : Accounts) {db' : Accounts} {tokens : AuthTokens}
      → refresh crypto now token given db ≡ (db', ok tokens)
      → (later next : ℕ) → Refused (refresh crypto later next given db')
  unfolding refresh refresh_found refresh_stored
  refresh-Refused now token db {db'} h later next =
      elim (Option-cases (find_first stored_as db.refresh_tokens)) [
        | inl e ↦ absurd (refused (rw (refresh, e, refresh_found) at h))
        | inr (stored, e) ↦ elim (Bool-cases (leb stored.expires_at now)) [
          | inl late ↦ absurd (refused (rw (refresh, e, refresh_found, late) at h))
          | inr early ↦ elim (Option-cases stored.revoked_at) [
            | inr (t, r) ↦ absurd (refused (rw (refresh, e, refresh_found, early, r) at h))
            | inl r ↦
                let run =
                  settle-eq-ok db (rotate crypto now token stored db)
                    (rw (refresh, e, refresh_found, early, r) at h) in
                revoked-Refused later next db' (revoke now stored)
                  (rotate-found now token stored db e run) refl
          ]
        ]
      ]
