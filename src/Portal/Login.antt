-- ===== src/Portal/Login.antt =====
-- customer-portal.service.ts: the tokens of login links.
use turno_flow.Prelude.{
  ℕ, ◌+◌, ◌*◌, ◌<◌, ◌≤◌, ◌≡◌, refl, subst, arith, List, [], ◌∷◌, ◌++◌, true, not, ◌&&◌, none, some,
  Bool-cases, inl, inr, ◌⊎◌, ok, err, unauthorized, or_throw, or_throw-eq-ok, require, bind_elim,
  ok-injective, leb, ◌==◌, find_first, find_first-update_where_own, update_where,
}
use turno_flow.Text.{Text}
use turno_flow.Time.{Runtime, minute_ms}
use turno_flow.Schema.{Business, Customer}
use turno_flow.Portal.{
  LoginToken, Portal, Session, new_login_token, find_slug, find_email, issue_token,
  request_login_link, is_unused, consume, exchange_login_token,
}

module _ (hash : ℕ → ℕ) where
  -- A login token is exchanged once: after that, every exchange of it is refused.
  pub exchange_login_token-once :
      (now token : ℕ) (p p' : Portal) {session : Session}
      → exchange_login_token hash now token p ≡ ok (p', session)
      → (later : ℕ)
      → exchange_login_token hash later token p' ≡ err (unauthorized "Invalid or expired token")
  unfolding exchange_login_token
  exchange_login_token-once now token p p' {session} h later =
      let asked = λ (t : LoginToken). t.token_hash == hash token in
      bind_elim
        (or_throw (find_first asked p.login_tokens) (unauthorized "Invalid or expired token")) _ h
        (λ t e1 h1.
          bind_elim
            (require (is_unused t.consumed_at && not (leb t.expires_at now))
              (unauthorized "Invalid or expired token"))
            _ h1
            (λ _ e2 h2.
              let found = or_throw-eq-ok (find_first asked p.login_tokens) _ e1 in
              let own : (t.id == t.id) ≡ true = ground arith in
              let used : find_first asked p'.login_tokens ≡ some (consume now t) =
                subst (λ q. find_first asked q.0.login_tokens ≡ some (consume now t))
                  (ok-injective h2)
                  (find_first-update_where_own (λ u. u.id == t.id) (consume now) asked
                    p.login_tokens (λ x. refl) own found) in
              rw (exchange_login_token, used) refl))

  find_first_fresh :
      (k : ℕ) (ts : List LoginToken) (t : LoginToken)
      → find_first (λ u. u.token_hash == k) ts ≡ none
      → t.token_hash ≡ k
      → find_first (λ u. u.token_hash == k) (ts ++ t ∷ []) ≡ some t
  find_first_fresh k [] t h e = let hit : (t.token_hash == k) ≡ true = ground arith in rw hit refl
  find_first_fresh k (x ∷ ts) t h e = elim (Bool-cases (x.token_hash == k)) [
    | inl d ↦ absurd (ground arith)
    | inr d ↦ rw d (find_first_fresh k ts t (rw d at h) e)
  ]

  -- The link that a known customer is sent, whose token is new, opens a session of that customer
  -- during the next 15 minutes, and at no later time.
  pub request_login_link-window :
      (rt : Runtime) (now token : ℕ) (slug email : Text) (p : Portal) (b : Business) (c : Customer)
      → find_slug slug p.db ≡ some b
      → find_email rt b.id email p.db ≡ some c
      → find_first (λ t. t.token_hash == hash token) p.login_tokens ≡ none
      → (at : ℕ)
      → ((at < now + 15 * minute_ms)
          × (p' : Portal) × (exchange_login_token hash at token
                (request_login_link rt hash now token slug email p)
              ≡ ok (p', record { business_id = b.id; customer_id = c.id })))
        ⊎ ((now + 15 * minute_ms ≤ at)
            × (exchange_login_token hash at token
                  (request_login_link rt hash now token slug email p)
                ≡ err (unauthorized "Invalid or expired token")))
  unfolding exchange_login_token request_login_link issue_token
  request_login_link-window rt now token slug email p b c e1 e2 fresh at =
      let t = new_login_token hash now token b.id c.id p.db.next_id in
      let issued = issue_token hash now token b c p in
      let sent : request_login_link rt hash now token slug email p
          ≡ issue_token hash now token b c p =
        rw (request_login_link, e1, e2) refl in
      let found : find_first (λ u. u.token_hash == hash token)
            (issue_token hash now token b c p).login_tokens
          ≡ some t =
        find_first_fresh (hash token) p.login_tokens t fresh refl in
      elim (Bool-cases (leb (now + 15 * minute_ms) at)) [
        | inr early ↦ inl (
          ground arith,
          record issued {
            login_tokens = update_where (λ u. u.id == t.id) (consume at) issued.login_tokens;
          },
          rw (sent, exchange_login_token, found, early) refl,
        )
        | inl late ↦ inr (ground arith, rw (sent, exchange_login_token, found, late) refl)
      ]
