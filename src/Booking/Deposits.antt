-- ===== src/Booking/Deposits.antt =====
-- appointments.service.ts: the checks on a deposit that comes with a booking.
use turno_flow.Prelude.{
  ℕ, ◌≤◌, ◌<◌, ◌≡◌, refl, subst, Bool, true, Option, none, some, arith, Result, ok, conflict,
  require, require-eq-ok, bind_elim, ◌>>◌, ◌==◌, ltb, leb, Bool-cases, inl, inr, ◌↔◌,
}
use turno_flow.Schema.{Service}
use turno_flow.Booking.Changes.{some-injective}
use turno_flow.Booking.{assert_deposit_can_be_submitted}

-- The conditions on a deposit of `cents`.
pub record IsAcceptable (enabled : Bool) (service : Service) (cents : ℕ) : Type 0 where
  pub of_business : enabled ≡ true
  pub of_service : service.deposit_enabled ≡ true
  pub priced : 0 < service.price_cents
  pub bounded : cents ≤ service.price_cents

module _ (enabled : Bool) (service : Service) (cents : ℕ) where
  -- The chain of checks on a deposit that is given.
  abbrev checks : Result (Unit {0})
  checks = do
    require enabled (conflict "Manual deposits are not enabled for this business")
    require service.deposit_enabled (conflict "This service does not accept optional deposits")
    require (ltb 0 service.price_cents) (conflict "Cannot submit a deposit for a free service")
    require (leb cents service.price_cents)
        (conflict "Deposit cannot be greater than the service price")

  checks_iff : (checks ≡ ok tt) ↔ IsAcceptable enabled service cents
  checks_iff = (
    λ h.
        bind_elim (require enabled (conflict "Manual deposits are not enabled for this business")) _
          h
          (λ _ e1 h1.
            bind_elim
              (require service.deposit_enabled
                (conflict "This service does not accept optional deposits"))
              _ h1
              (λ _ e2 h2.
                bind_elim
                  (require (ltb 0 service.price_cents)
                    (conflict "Cannot submit a deposit for a free service"))
                  _ h2
                  (λ _ e3 h3.
                    let priced = require-eq-ok (ltb 0 service.price_cents) _ e3 in
                    let bounded = require-eq-ok (leb cents service.price_cents) _ h3 in
                    record {
                      of_business = require-eq-ok enabled _ e1;
                      of_service = require-eq-ok service.deposit_enabled _ e2;
                      priced = ground arith;
                      bounded = ground arith;
                    }))),
    λ a.
        let priced : ltb 0 service.price_cents ≡ true = let p = a.priced in ground arith in
        let bounded : leb cents service.price_cents ≡ true = let p = a.bounded in ground arith in
        rw (a.of_business, a.of_service, priced, bounded) refl,
  )

-- A deposit is let through exactly if there is none, or it is 0, or the business and the service
-- accept deposits, the service has a price, and the deposit is at most the price.
pub assert_deposit_can_be_submitted_iff :
    (amount : Option ℕ) (enabled : Bool) (service : Service)
    → (assert_deposit_can_be_submitted amount enabled service ≡ ok tt)
      ↔ ((cents : ℕ) → amount ≡ some cents → 0 < cents → IsAcceptable enabled service cents)
unfolding assert_deposit_can_be_submitted
assert_deposit_can_be_submitted_iff none enabled service = (λ h cents e positive. cc, λ h. refl)
assert_deposit_can_be_submitted_iff (some n) enabled service = elim (Bool-cases (n == 0)) [
  | inl e ↦ (
    λ h cents same positive. absurd (ground arith),
    λ h. rw (assert_deposit_can_be_submitted, e) refl,
  )
  | inr e ↦
      let (to, from) = checks_iff enabled service n in
      (
        λ h cents same positive.
            subst (IsAcceptable enabled service) (some-injective same)
              (to (rw (assert_deposit_can_be_submitted, e) at h)),
        λ h. rw (assert_deposit_can_be_submitted, e) (from (h n refl (ground arith))),
      )
]
