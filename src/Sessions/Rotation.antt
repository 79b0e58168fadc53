-- ===== src/Sessions/Rotation.antt =====
-- auth.service.ts: refresh tokens that are stored as revoked.
use turno_flow.Prelude.{
  ℕ, ◌≡◌, refl, sym, ap, subst, Bool, true, false, ◌&&◌, some, arith, err, unauthorized, ◌==◌, leb,
  find_first, Bool-cases, Option-cases, inl, inr, ◌⊎◌, All, All-update_where, All-of_each,
}
use turno_flow.Sessions.{
  Accounts, RefreshToken, Crypto, refresh, refresh_found, refresh_stored, revoke_family, revoke,
  is_unrevoked,
}

-- The tokens of a family are all revoked.
abbrev pub Shut : ℕ → Accounts → Type 0
Shut family db =
    All (λ t. t.family_id ≡ family → is_unrevoked t.revoked_at ≡ false) db.refresh_tokens

revoke_family-Shut : (now family : ℕ) (db : Accounts) → Shut family (revoke_family now family db)
unfolding revoke_family
revoke_family-Shut now family db =
    All-update_where (λ t. t.family_id == family && is_unrevoked t.revoked_at) (revoke now)
      (λ t. Unit {0}) (λ t. t.family_id ≡ family → is_unrevoked t.revoked_at ≡ false)
      db.refresh_tokens (All-of_each (λ t. Unit {0}) db.refresh_tokens (λ t m. tt))
      (λ t _ e same. refl) (λ t _ e same. ground arith)

module _ (crypto : Crypto) (now token given : ℕ) (db : Accounts) where
  abbrev stored_as : RefreshToken → Bool
  stored_as t = t.token_hash == crypto.hash_token given

  -- A token that is stored as revoked gives no session: it is refused, and unless it has expired,
  -- every token of its family is revoked.
  pub refresh-revoked :
      (t : RefreshToken)
      → find_first stored_as db.refresh_tokens ≡ some t
      → is_unrevoked t.revoked_at ≡ false
      → ((leb t.expires_at now ≡ true)
          × (refresh crypto now token given db ≡ (db, err (unauthorized "Invalid refresh token"))))
        ⊎ ((leb t.expires_at now ≡ false)
            × ((refresh crypto now token given db).1
                ≡ err (unauthorized "Refresh token reuse detected"))
            × Shut t.family_id (refresh crypto now token given db).0)
  unfolding refresh refresh_found refresh_stored
  refresh-revoked t found revoked = elim (Bool-cases (leb t.expires_at now)) [
    | inl late ↦ inl (late, rw (refresh, found, refresh_found, late) refl)
    | inr early ↦ elim (Option-cases t.revoked_at) [
      | inl e ↦ absurd (ground arith)
      | inr (at, e) ↦
          let run : refresh crypto now token given db ≡ (
            revoke_family now t.family_id db,
            err (unauthorized "Refresh token reuse detected"),
          ) =
            rw (refresh, found, refresh_found, early, e) refl in
          inr (
            early,
            ap (λ p. p.1) run,
            subst (λ p. Shut t.family_id p.0) (sym run) (revoke_family-Shut now t.family_id db),
          )
    ]
  ]
