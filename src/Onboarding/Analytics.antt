-- ===== src/Onboarding/Analytics.antt =====
-- onboarding.service.ts: the figures on the events of a set-up.
use turno_flow.Prelude.{
  ℕ, ◌+◌, ◌≡◌, refl, arith, List, [], ◌∷◌, map, Bool, true, false, not, ◌&&◌, ◌||◌, Option, none,
  some, if◌then◌else◌, keep, length, ltb,
}
use turno_flow.Time.{day_ms}
use turno_flow.Onboarding.{
  StepKey, step_keys, same_step, is_event, viewed, dismissed, resumed, advanced, completed,
  share_clicked, test_booking_clicked, BusinessOnboarding, OnboardingEvent,
}

-- `[...events].reverse().find(test)`
abbrev pub find_last {ℓ} : {A : Type ℓ} → (A → Bool) → List A → Option A
find_last p [] = none
find_last p (x ∷ xs) = elim (find_last p xs) [
  | some y ↦ some y
  | none ↦ if p x then some x else none
]

-- `event?.createdAt ?? null`
abbrev pub time_of : Option OnboardingEvent → Option ℕ
time_of none = none
time_of (some e) = some e.created_at

abbrev pub or_updated_at : Option ℕ → Option BusinessOnboarding → Option ℕ
or_updated_at (some t) onboarding = some t
or_updated_at none none = none
or_updated_at none (some o) = some o.updated_at

abbrev pub is_at : StepKey → OnboardingEvent → Bool
is_at key e = elim (e.step) [ none ↦ false | some k ↦ same_step k key ]

abbrev pub is_dismissal : OnboardingEvent → Bool
is_dismissal e = is_event e.event_type dismissed

pub record AnalyticsStep : Type 0 where
  pub abandonment_count : ℕ
  pub completed_at : Option ℕ
  pub event_count : ℕ
  pub key : StepKey
  pub last_activity_at : Option ℕ
  pub last_viewed_at : Option ℕ

pub record Analytics : Type 0 where
  pub current_step_entered_at : Option ℕ
  pub dismiss_count : ℕ
  pub last_activity_at : Option ℕ
  pub last_dismissed_at : Option ℕ
  pub last_shared_at : Option ℕ
  pub last_test_booking_at : Option ℕ
  pub stalled_step : Option StepKey
  pub steps : List AnalyticsStep

abbrev pub enters : StepKey → OnboardingEvent → Bool
enters key e =
    is_at key e
    && (is_event e.event_type advanced
        || is_event e.event_type viewed
        || is_event e.event_type resumed)

-- `buildAnalyticsStep`
unfoldable pub build_analytics_step : StepKey → List OnboardingEvent → AnalyticsStep
build_analytics_step key events =
    let own : List OnboardingEvent = keep (is_at key) events in
    record {
      abandonment_count = length (keep is_dismissal own);
      completed_at =
          time_of (
            find_last (λ e. is_event e.event_type advanced || is_event e.event_type completed) own);
      event_count = length own;
      key = key;
      last_activity_at = time_of (find_last (λ e. true) own);
      last_viewed_at = time_of (find_last (λ e. is_event e.event_type viewed) own);
    }

-- `Date.now() - entered > 24 h`
abbrev pub is_stale : ℕ → Option ℕ → Bool
is_stale now none = false
is_stale now (some t) = ltb (t + day_ms) now

-- `buildAnalytics`
unfoldable pub build_analytics :
    ℕ → StepKey → Bool → List OnboardingEvent → Option BusinessOnboarding → Analytics
unfolding build_analytics_step
build_analytics now current is_ready events onboarding =
    let entered = or_updated_at (time_of (find_last (enters current) events)) onboarding in
    record {
      current_step_entered_at = entered;
      dismiss_count = length (keep is_dismissal events);
      last_activity_at = or_updated_at (time_of (find_last (λ e. true) events)) onboarding;
      last_dismissed_at = time_of (find_last is_dismissal events);
      last_shared_at = time_of (find_last (λ e. is_event e.event_type share_clicked) events);
      last_test_booking_at =
          time_of (find_last (λ e. is_event e.event_type test_booking_clicked) events);
      stalled_step = if not is_ready && is_stale now entered then some current else none;
      steps = map (λ key. build_analytics_step key events) step_keys;
    }

abbrev pub total {ℓ} : {A : Type ℓ} → (A → ℕ) → List A → ℕ
total f [] = 0
total f (x ∷ xs) = f x + total f xs

abbrev has_step : OnboardingEvent → Bool
has_step e = elim (e.step) [ none ↦ false | some k ↦ true ]

-- The event counts of the steps add up to the number of events that name a step, and the numbers
-- of times that the steps were abandoned to the number of those that are dismissals.
pub build_analytics-total :
    (now : ℕ) (current : StepKey) (is_ready : Bool) (events : List OnboardingEvent)
    (onboarding : Option BusinessOnboarding)
    → (total (λ s. s.event_count) (build_analytics now current is_ready events onboarding).steps
        ≡ length (keep has_step events))
      × (total
            (λ s. s.abandonment_count)
            (build_analytics now current is_ready events onboarding).steps
          ≡ length (keep is_dismissal (keep has_step events)))
unfolding build_analytics build_analytics_step
build_analytics-total now current is_ready [] onboarding = (refl, refl)
build_analytics-total now current is_ready (e ∷ events) onboarding =
    let (all, gone) = build_analytics-total now current is_ready events onboarding in
    (ground arith, ground arith)
