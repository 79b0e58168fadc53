-- ===== src/Businesses/Catalog.antt =====
-- businesses.service.ts: a new business and its services.
use turno_flow.Prelude.{
  ℕ, suc, [], ◌∷◌, ◌++◌, Bool, true, false, not, Option, none, some, String, Result, ok, conflict,
  thrown, or_throw, require, ◌>>=◌, ◌>>◌, ◌==◌, any, find_first, update_where,
}
use turno_flow.Text.{Text}
use turno_flow.Time.{Runtime}
use turno_flow.Events.{EventType}
use turno_flow.Schema.{
  Db, Business, BusinessMember, owner, active, Service, Payload, AuditLog, business_payload,
  service_payload,
}
use turno_flow.Store.{outbox_create, audit_create}
use turno_flow.Slug.{create_available_slug}
use turno_flow.Series.{default_timezone}
use turno_flow.Businesses.{
  AuthenticatedUser, is_associated, require_current_business, require_service,
}
use turno_flow.Businesses.Schedule.{or_else}

abbrev pub log_entry : String → ℕ → ℕ → ℕ → Option Payload → Option Payload → AuditLog
log_entry action user business k before after = record {
  action = action;
  business_id = business;
  entity_id = k;
  before = before;
  after = after;
  user_id = some user;
}

pub record BusinessInput : Type 0 where
  pub name : Text
  pub slug : Option Text
  pub timezone : Option Text

abbrev pub has_business : Db → ℕ → Bool
has_business db user = any (is_associated db.members user) db.businesses

abbrev pub new_business : BusinessInput → ℕ → Text → ℕ → Business
new_business input user slug id = record {
  id = id;
  owner_id = user;
  slug = slug;
  timezone = or_else input.timezone default_timezone;
  manual_deposits_enabled = false;
}

abbrev pub owner_row : ℕ → ℕ → ℕ → BusinessMember
owner_row business user id = record {
  id = id;
  business_id = business;
  user_id = some user;
  active = true;
  role = owner;
  staff_member_id = none;
  status = active;
  invite_email = none;
  invite_expires_at = none;
  invite_token_hash = none;
}

-- `createCurrent`
unfoldable pub create_current :
    Runtime
    → (normalize : Text → Text) → AuthenticatedUser
    → BusinessInput
    → Db
    → Result (Db × Business)
unfolding create_available_slug
create_current rt normalize user input db = do
  require (not (has_business db user.id)) (conflict "User already has a business")
  slug ← create_available_slug rt normalize db (or_else input.slug input.name)
  let b = new_business input user.id slug db.next_id
  let db1 = record db {
    next_id = suc (suc db.next_id);
    businesses = db.businesses ++ b ∷ [];
    members = db.members ++ owner_row b.id user.id (suc db.next_id) ∷ [];
  }
  ok (
    outbox_create EventType.business_created b.id b.id (business_payload b) (
        audit_create
          (log_entry "business.created" user.id b.id b.id none (some (business_payload b))) db1),
    b,
  )

pub record ServiceInput : Type 0 where
  pub duration_minutes : ℕ
  pub buffer_minutes : ℕ
  pub price_cents : ℕ
  pub deposit_enabled : Bool

-- `createService`
unfoldable pub create_service : AuthenticatedUser → ServiceInput → Db → Result (Db × Service)
create_service user input db = do
  b ← require_current_business db user
  let s : Service = record {
    id = db.next_id;
    business_id = b.id;
    active = true;
    duration_minutes = input.duration_minutes;
    buffer_minutes = input.buffer_minutes;
    price_cents = input.price_cents;
    deposit_enabled = input.deposit_enabled;
  }
  ok (
    outbox_create EventType.service_created s.id b.id (service_payload s) (
        audit_create (log_entry "service.created" user.id b.id s.id none (some (service_payload s)))
          (record db { next_id = suc db.next_id; services = db.services ++ s ∷ [] })),
    s,
  )

pub record ServiceUpdate : Type 0 where
  pub active : Option Bool
  pub duration_minutes : Option ℕ
  pub buffer_minutes : Option ℕ
  pub price_cents : Option ℕ
  pub deposit_enabled : Option Bool

abbrev pub updated_service : ServiceUpdate → Service → Service
updated_service input s = record s {
  active = or_else input.active s.active;
  duration_minutes = or_else input.duration_minutes s.duration_minutes;
  buffer_minutes = or_else input.buffer_minutes s.buffer_minutes;
  price_cents = or_else input.price_cents s.price_cents;
  deposit_enabled = or_else input.deposit_enabled s.deposit_enabled;
}

-- `updateService`
unfoldable pub update_service : AuthenticatedUser → ℕ → ServiceUpdate → Db → Result (Db × Service)
update_service user k input db = do
  b ← require_current_business db user
  require_service db b.id k
  before ← or_throw (find_first (λ s. s.id == k) db.services) (thrown "No Service found")
  let updated = updated_service input before
  ok (
    audit_create
        (log_entry "service.updated" user.id b.id k (some (service_payload before))
          (some (service_payload updated)))
        (record db { services = update_where (λ s. s.id == k) (λ _. updated) db.services }),
    updated,
  )
