-- ===== src/Payments.antt =====
-- apps/api/src/payments/payments.service.ts: manual deposits and the decisions on them. The private
-- handlers take the business that `requireCurrentBusiness` finds, and the user's identifier.
pub mod Closing
use turno_flow.Prelude.{
  ℕ, suc, ◌+◌, ◌-◌, List, [], ◌∷◌, ◌++◌, String, Bool, true, false, not, ◌&&◌, ◌||◌, Option, none,
  some, Result, ok, err, thrown, not_found, conflict, or_throw, require, ◌>>=◌, ◌>>◌, ltb, leb,
  ◌==◌, if◌then◌else◌, find_first, update_where,
}
use turno_flow.Text.{Text}
use turno_flow.Time.{Runtime}
use turno_flow.Events.{EventType}
use turno_flow.Schema.{
  Db, Business, Service, Appointment, Payment, AppointmentPaymentStatus, submitted, confirmed,
  rejected, voided, payment_payload,
}
use turno_flow.Store.{find_service, find_appointment, outbox_create, audit_create}
use turno_flow.Booking.{optional_trim}

-- The argument of `createManualPayment`.
pub record ManualPayment : Type 0 where
  pub amount_cents : ℕ
  pub customer_note : Option Text
  pub internal_note : Option Text
  pub reference : Option Text

-- `assertValidAmount`
unfoldable pub assert_valid_amount : ℕ → ℕ → Result (Unit {0})
assert_valid_amount amount price = do
  require (ltb 0 amount) (conflict "Payment amount must be greater than zero")
  require (not (ltb 0 price && ltb price amount))
      (conflict "Deposit cannot be greater than the service price")

-- `requireAppointment`
unfoldable pub require_appointment : ℕ → ℕ → Db → Result Appointment
require_appointment business k db =
    or_throw (find_first (λ a. a.business_id == business && a.id == k) db.appointments)
      (not_found "Appointment not found")

-- `remainingBalanceCents`
abbrev pub remaining_balance_cents : ℕ → Payment → ℕ
remaining_balance_cents price p = elim (p.status) [
  | confirmed ↦ price - p.amount_cents
  | submitted ↦ price
  | rejected ↦ price
  | voided ↦ price
]

-- `createManualPayment`
unfoldable pub create_manual_payment :
    Runtime → Business → ℕ → ℕ → ManualPayment → Db → Result (Db × Payment)
unfolding assert_valid_amount require_appointment
create_manual_payment rt business user k input db = do
  a ← require_appointment business.id k db
  service ← or_throw (find_service a.service_id db) (thrown "No Service found")
  assert_valid_amount input.amount_cents service.price_cents
  let payment : Payment = record {
    id = db.next_id;
    business_id = business.id;
    appointment_id = a.id;
    customer_id = a.customer_id;
    amount_cents = input.amount_cents;
    status = submitted;
    customer_note = optional_trim rt input.customer_note;
    internal_note = optional_trim rt input.internal_note;
    reference = optional_trim rt input.reference;
    confirmed_at = none;
    confirmed_by_user_id = none;
    rejected_at = none;
    rejected_by_user_id = none;
    voided_at = none;
    voided_by_user_id = none;
  }
  ok (
    outbox_create EventType.appointment_deposit_submitted payment.id business.id
        (payment_payload payment service.price_cents)
        (audit_create
          (record {
            action = "appointment_payment.submitted";
            business_id = business.id;
            entity_id = payment.id;
            before = none;
            after = some (payment_payload payment service.price_cents);
            user_id = some user;
          })
          (record db { next_id = suc db.next_id; payments = db.payments ++ payment ∷ [] })),
    payment,
  )

-- `transitionData`, applied to the row: a note that is absent or blank is stored as null.
abbrev pub transition_data :
    Runtime → AppointmentPaymentStatus → ℕ → ℕ → Option Text → Payment → Payment
transition_data rt confirmed user now note p = record p {
  confirmed_at = some now;
  confirmed_by_user_id = some user;
  internal_note = optional_trim rt note;
  status = confirmed;
}
transition_data rt rejected user now note p = record p {
  internal_note = optional_trim rt note;
  rejected_at = some now;
  rejected_by_user_id = some user;
  status = rejected;
}
transition_data rt other user now note p = record p {
  internal_note = optional_trim rt note;
  status = other;
  voided_at = some now;
  voided_by_user_id = some user;
}

-- `paymentEventType` and `paymentRoutingKey`
abbrev pub payment_event_type : AppointmentPaymentStatus → EventType
payment_event_type confirmed = EventType.appointment_deposit_confirmed
payment_event_type rejected = EventType.appointment_deposit_rejected
payment_event_type other = EventType.appointment_deposit_voided

-- `appointment_payment.${nextStatus.toLowerCase()}`
abbrev pub transition_action : AppointmentPaymentStatus → String
transition_action submitted = "appointment_payment.submitted"
transition_action confirmed = "appointment_payment.confirmed"
transition_action rejected = "appointment_payment.rejected"
transition_action voided = "appointment_payment.voided"

abbrev pub same_payment_status : AppointmentPaymentStatus → AppointmentPaymentStatus → Bool
same_payment_status submitted submitted = true
same_payment_status confirmed confirmed = true
same_payment_status rejected rejected = true
same_payment_status voided voided = true
same_payment_status _ _ = false

abbrev pub is_closed : AppointmentPaymentStatus → Bool
is_closed s = same_payment_status s voided || same_payment_status s rejected

module _ (rt : Runtime) (now : ℕ) (business : Business) (user : ℕ) (k : ℕ) where
  -- The transaction of `transitionPayment`.
  unfoldable pub transition_in_transaction :
      Payment → AppointmentPaymentStatus → Option Text → Db → Result (Db × Payment)
  transition_in_transaction before next note db = do
    a ← or_throw (find_appointment before.appointment_id db) (thrown "No Appointment found")
    service ← or_throw (find_service a.service_id db) (thrown "No Service found")
    let updated = transition_data rt next user now note before
    ok (
      outbox_create (payment_event_type next) updated.id business.id
          (payment_payload updated service.price_cents)
          (audit_create
            (record {
              action = transition_action next;
              business_id = business.id;
              entity_id = updated.id;
              before = some (payment_payload before service.price_cents);
              after = some (payment_payload updated service.price_cents);
              user_id = some user;
            })
            (record db {
              payments =
                  update_where (λ p. p.id == k) (transition_data rt next user now note) db.payments;
            })),
      updated,
    )

  -- `transitionPayment`
  unfoldable pub transition_payment :
      AppointmentPaymentStatus → Option Text → Db → Result (Db × Payment)
  unfolding transition_in_transaction
  transition_payment next note db = do
    before ←
        or_throw (find_first (λ p. p.business_id == business.id && p.id == k) db.payments)
          (not_found "Payment not found")
    require (not (is_closed before.status)) (conflict "Payment is already closed")
    if same_payment_status before.status next
        then ok (db, before)
        else transition_in_transaction before next note db

  -- `confirmPayment`, `rejectPayment` and `voidPayment`
  unfoldable pub confirm_payment : Option Text → Db → Result (Db × Payment)
  confirm_payment note db = transition_payment confirmed note db

  unfoldable pub reject_payment : Option Text → Db → Result (Db × Payment)
  reject_payment note db = transition_payment rejected note db

  unfoldable pub void_payment : Option Text → Db → Result (Db × Payment)
  void_payment note db = transition_payment voided note db
