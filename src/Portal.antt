-- ===== src/Portal.antt =====
-- apps/api/src/customer-portal/customer-portal.service.ts: the customers' own access. Random tokens
-- are arguments, and their SHA-256 is the argument `hash`; a session is what its JWT states.
pub mod Login
use turno_flow.Prelude.{
  ℕ, suc, ◌+◌, ◌*◌, ◌<◌, ◌≤◌, ◌≡◌, refl, sym, ap, ◌∙◌, subst, arith, List, [], ◌∷◌, ◌++◌, Bool,
  true, false, not, ◌&&◌, Option, none, some, Option-cases, Bool-cases, inl, inr, Result, ok, err,
  unauthorized, not_found, or_throw, or_throw-eq-ok, require, require-eq-ok, bind_elim,
  ok-injective, ◌>>=◌, ◌>>◌, leb, ◌==◌, if◌then◌else◌, any, find_first, find_first-update_where_own,
  update_where,
}
use turno_flow.Text.{Text, text_eq}
use turno_flow.Time.{Runtime, minute_ms}
use turno_flow.Events.{EventType}
use turno_flow.Schema.{Db, Business, Customer, Appointment, login_payload}
use turno_flow.Store.{outbox_create}
use turno_flow.Booking.{is_customer}
use turno_flow.Booking.Create.{book_appointment_for_customer}

pub record LoginToken : Type 0 where
  pub id : ℕ
  pub business_id : ℕ
  pub customer_id : ℕ
  pub token_hash : ℕ
  pub expires_at : ℕ
  pub consumed_at : Option ℕ

pub record Portal : Type 0 where
  pub db : Db
  pub login_tokens : List LoginToken

pub record Session : Type 0 where
  pub business_id : ℕ
  pub customer_id : ℕ

-- `LOGIN_TOKEN_TTL_MS`
abbrev pub login_token_ttl : ℕ
login_token_ttl = 15 * minute_ms

abbrev pub new_login_token : (ℕ → ℕ) → ℕ → ℕ → ℕ → ℕ → ℕ → LoginToken
new_login_token hash now token business customer id = record {
  id = id;
  business_id = business;
  customer_id = customer;
  token_hash = hash token;
  expires_at = now + login_token_ttl;
  consumed_at = none;
}

abbrev pub find_slug : Text → Db → Option Business
find_slug slug db = find_first (λ b. text_eq b.slug slug) db.businesses

abbrev pub find_email : Runtime → ℕ → Text → Db → Option Customer
find_email rt business email db =
    find_first (is_customer business (rt.to_lower_case email)) db.customers

-- The transaction of `requestLoginLink`.
unfoldable pub issue_token : (ℕ → ℕ) → ℕ → ℕ → Business → Customer → Portal → Portal
issue_token hash now token b c p = record {
  db =
      outbox_create EventType.customer_portal_login_requested c.id b.id (login_payload b c token)
        (record p.db { next_id = suc p.db.next_id });
  login_tokens = p.login_tokens ++ new_login_token hash now token b.id c.id p.db.next_id ∷ [];
}

-- `requestLoginLink`, which answers the same whatever it finds.
unfoldable pub request_login_link : Runtime → (ℕ → ℕ) → ℕ → ℕ → Text → Text → Portal → Portal
unfolding issue_token
request_login_link rt hash now token slug email p = elim (find_slug slug p.db) [
  | none ↦ p
  | some b ↦ elim (find_email rt b.id email p.db) [
    | none ↦ p
    | some c ↦ issue_token hash now token b c p
  ]
]

abbrev pub is_unused : Option ℕ → Bool
is_unused none = true
is_unused (some t) = false

abbrev pub consume : ℕ → LoginToken → LoginToken
consume now t = record t { consumed_at = some now }

-- `exchangeLoginToken`
unfoldable pub exchange_login_token : (ℕ → ℕ) → ℕ → ℕ → Portal → Result (Portal × Session)
exchange_login_token hash now token p = do
  t ←
      or_throw (find_first (λ t. t.token_hash == hash token) p.login_tokens)
        (unauthorized "Invalid or expired token")
  require (is_unused t.consumed_at && not (leb t.expires_at now))
      (unauthorized "Invalid or expired token")
  ok (
    record p { login_tokens = update_where (λ u. u.id == t.id) (consume now) p.login_tokens },
    record { business_id = t.business_id; customer_id = t.customer_id },
  )

abbrev pub is_own_appointment : ℕ → ℕ → ℕ → Appointment → Bool
is_own_appointment business customer k a =
    a.business_id == business && a.customer_id == customer && a.id == k

-- `rebookAppointment`
unfoldable pub rebook_appointment :
    Runtime → (now token : ℕ) → Session → ℕ → Option ℕ → ℕ → Db → Result (Db × Appointment)
unfolding book_appointment_for_customer
rebook_appointment rt now token session k staff starts_at db = do
  original ←
      or_throw
        (find_first (is_own_appointment session.business_id session.customer_id k) db.appointments)
        (not_found "Appointment not found")
  book_appointment_for_customer rt now token session.business_id session.customer_id
      original.service_id (some (elim staff [ none ↦ original.staff_member_id | some s ↦ s ]))
      starts_at db
