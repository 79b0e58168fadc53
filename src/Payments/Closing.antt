-- ===== src/Payments/Closing.antt =====
-- payments.service.ts: closed payments under `transitionPayment`.
use turno_flow.Prelude.{
  ℕ, ◌≡◌, ◌≢◌, sym, ◌∙◌, ap, subst, Bool, true, false, not, ◌&&◌, Option, arith, List, [], ◌∷◌, ok,
  thrown, not_found, conflict, require, require-eq-ok, or_throw, or_throw-eq-ok, bind_elim,
  ok-injective, ◌==◌, find_first, find_first_sound, find_first-In, update_where, In, Ordered,
  Bool-cases, inl, inr, ◌⊎◌,
}
use turno_flow.Text.{Text}
use turno_flow.Time.{Runtime}
use turno_flow.Schema.{Db, Business, Payment, AppointmentPaymentStatus}
use turno_flow.Store.{find_appointment, find_service, outbox_create, audit_create}
use turno_flow.Booking.Changes.{some-injective}
use turno_flow.Payments.{
  transition_data, transition_in_transaction, transition_payment, is_closed, same_payment_status,
}

-- A row that an update does not touch stays in the table.
update_where-In :
    (p : Payment → Bool) (f : Payment → Payment) (x : Payment) (xs : List Payment)
    → In x xs
    → p x ≡ false
    → In x (update_where p f xs)
update_where-In p f x [] m miss = elim m [ ]
update_where-In p f x (y ∷ ys) (inl e) miss =
    let kept : p y ≡ false = subst (λ z. p z ≡ false) e miss in inl (rw kept e)
update_where-In p f x (y ∷ ys) (inr m) miss = inr (update_where-In p f x ys m miss)

module _ (rt : Runtime) (now : ℕ) (business : Business) (user k : ℕ) where
  -- The two ways in which a transition succeeds.
  pub record Transitioned (next : AppointmentPaymentStatus) (note : Option Text) (db db' : Db)
      (after : Payment) : Type 0 where
    pub before : Payment
    pub listed : In before db.payments
    pub named : before.id ≡ k
    pub pending : is_closed before.status ≡ false
    pub outcome :
        ((before.status ≡ next) × (db' ≡ db) × (after ≡ before))
        ⊎ ((after ≡ transition_data rt next user now note before)
            × (db'.payments
                ≡ update_where
                    (λ p. p.id == k)
                    (transition_data rt next user now note)
                    db.payments))

  same_payment_status_sound :
      (s t : AppointmentPaymentStatus) → same_payment_status s t ≡ true → s ≡ t
  same_payment_status_sound s t h = ground arith

  transition_in_transaction-eq-ok :
      (before : Payment) (next : AppointmentPaymentStatus) (note : Option Text) (db : Db) {db' : Db}
      {after : Payment}
      → transition_in_transaction rt now business user k before next note db ≡ ok (db', after)
      → (after ≡ transition_data rt next user now note before)
        × (db'.payments
            ≡ update_where (λ p. p.id == k) (transition_data rt next user now note) db.payments)
  unfolding transition_in_transaction outbox_create audit_create
  transition_in_transaction-eq-ok before next text db h =
      bind_elim
        (or_throw (find_appointment before.appointment_id db) (thrown "No Appointment found")) _ h
        (λ a e1 h1.
          bind_elim (or_throw (find_service a.service_id db) (thrown "No Service found")) _ h1
            (λ service e2 h2. (
              ap (λ p. p.1) (sym (ok-injective h2)),
              ap (λ p. p.0.payments) (sym (ok-injective h2)),
            )))

  pub transition_payment-eq-ok :
      (next : AppointmentPaymentStatus) (note : Option Text) (db : Db) {db' : Db} {after : Payment}
      → transition_payment rt now business user k next note db ≡ ok (db', after)
      → Transitioned next note db db' after
  unfolding transition_payment
  transition_payment-eq-ok next note db {db'} {after} h =
      let asked = λ (p : Payment). p.business_id == business.id && p.id == k in
      bind_elim (or_throw (find_first asked db.payments) (not_found "Payment not found")) _ h
        (λ before e1 h1.
          bind_elim (require (not (is_closed before.status)) (conflict "Payment is already closed"))
            _ h1
            (λ _ e2 h2.
              let (listed, asked_for) =
                find_first_sound asked db.payments
                  (or_throw-eq-ok (find_first asked db.payments) _ e1) in
              let unclosed = require-eq-ok (not (is_closed before.status)) _ e2 in
              record {
                before = before;
                listed = listed;
                named = ground arith;
                pending = ground arith;
                outcome = elim (Bool-cases (same_payment_status before.status next)) [
                  | inl e ↦
                      let same = ok-injective (rw e at h2) in
                      inl (
                        same_payment_status_sound before.status next e,
                        ap (λ p. p.0) (sym same),
                        ap (λ p. p.1) (sym same),
                      )
                  | inr e ↦ inr (transition_in_transaction-eq-ok before next note db (rw e at h2))
                ];
              }))

  -- Where identifiers are distinct, a rejected or voided payment is still in the table, unchanged,
  -- after any transition of any payment that succeeds, and a transition of that payment itself
  -- does not succeed.
  pub transition_payment-closed :
      (next : AppointmentPaymentStatus) (note : Option Text) (db : Db) {db' : Db} {after : Payment}
      → Ordered (λ p q. p.id ≢ q.id) db.payments
      → transition_payment rt now business user k next note db ≡ ok (db', after)
      → (p : Payment) → In p db.payments
      → is_closed p.status ≡ true
      → In p db'.payments × (p.id ≢ k)
  transition_payment-closed next note db {db'} distinct h p m closed =
      let run = transition_payment-eq-ok next note db h in
      let other : p.id ≢ k = λ e.
        let same : p ≡ run.before = some-injective (
          sym (find_first-In (λ q. q.id) k db.payments distinct m e)
          ∙ find_first-In (λ q. q.id) k db.payments distinct run.listed run.named) in
        let shut = ap (λ q. is_closed q.status) same in cc (shut, closed, run.pending) in
      (
        elim (run.outcome) [
          | inl (_, same, _) ↦ subst (λ d. In p d.payments) (sym same) m
          | inr (_, rows) ↦ subst (In p) (sym rows) (
              update_where-In (λ q. q.id == k) (transition_data rt next user now note) p db.payments
                m (ground arith))
        ],
        other,
      )
