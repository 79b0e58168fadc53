-- ===== src/Onboarding/Wizard.antt =====
-- apps/web/lib/onboarding.ts: the step at which the browser opens the set-up wizard.
use turno_flow.Prelude.{
  ◌≡◌, ◌<◌, ◌≤◌, ◌⊎◌, inl, inr, refl, arith, Bool, true, false, not, ◌&&◌, Bool-cases, ltb,
  if◌then◌else◌, Option, none, some, find_first,
}
use turno_flow.Text.{Text, codes, text_eq}
use turno_flow.Time.{Runtime}
use turno_flow.Onboarding.{
  StepKey, business, service, staff, availability, public_page, step_keys, BusinessSnapshot,
  is_complete,
}
use turno_flow.Onboarding.Status.{OnboardingStatus, build_status}
use turno_flow.Onboarding.Steps.{place, next_open, build_status-steps}

-- The text of a step's key.
abbrev pub step_name : StepKey → Text
step_name business = codes "business"
step_name service = codes "service"
step_name staff = codes "staff"
step_name availability = codes "availability"
step_name public_page = codes "public_page"

-- A requested text that is one of `orderedSteps`.
abbrev pub read_step : Option Text → Option StepKey
read_step none = none
read_step (some t) = find_first (λ k. text_eq (step_name k) t) step_keys

abbrev pub fallback_step : OnboardingStatus → StepKey
fallback_step status = if status.is_ready_to_sell then public_page else status.next_step

-- `orderedSteps.indexOf(step)` is the step's `place`.
abbrev pub clamp : (ready : Bool) (fallback : StepKey) → Option StepKey → StepKey
clamp ready fallback none = fallback
clamp ready fallback (some k) = if not ready && ltb (place fallback) (place k) then fallback else k

-- `resolveWizardStep`
unfoldable pub resolve_wizard_step : Option OnboardingStatus → Option Text → StepKey
resolve_wizard_step none requested = business
resolve_wizard_step (some status) requested =
    clamp status.is_ready_to_sell (fallback_step status) (read_step requested)

-- `shouldAutoOpenOnboarding`
abbrev pub should_auto_open_onboarding : Option OnboardingStatus → Bool
should_auto_open_onboarding none = false
should_auto_open_onboarding (some status) =
    not status.is_ready_to_sell && elim (status.dismissed_at) [ none ↦ true | some t ↦ false ]

clamp-place : (f : StepKey) (o : Option StepKey) → place (clamp false f o) ≤ place f
clamp-place f none = omega arith
clamp-place f (some k) = ground arith

clamp_own :
    (ready : Bool) (next k : StepKey)
    → place k ≤ place next
    → clamp ready (if ready then public_page else next) (some k) ≡ k
clamp_own true next k near = refl
clamp_own false next k near = ground arith

read_step-step_name : (k : StepKey) → read_step (some (step_name k)) ≡ some k
read_step-step_name business = refl
read_step-step_name service = refl
read_step-step_name staff = refl
read_step-step_name availability = refl
read_step-step_name public_page = refl

module _ (rt : Runtime) (b : BusinessSnapshot) where
  abbrev status : OnboardingStatus
  status = build_status rt b

  before_complete :
      (requested : Option Text) (k : StepKey)
      → place k < place (resolve_wizard_step (some status) requested)
      → is_complete rt b k ≡ true
  unfolding resolve_wizard_step
  before_complete requested k l = elim (Bool-cases status.is_ready_to_sell) [
    | inl ready ↦ (build_status-steps rt b).0.0 ready k
    | inr h ↦
        let near = clamp-place status.next_step (read_step requested) in
        let l' : place k < place (clamp false status.next_step (read_step requested)) = rw h at l in
        (next_open rt b h).1 k (omega arith)
  ]

  -- Whatever step the address asks for, the wizard opens one before which all steps are complete.
  -- A step's own key opens it if the set-up is ready or the step does not lie past the next one.
  pub resolve_wizard_step_complete :
      (requested : Option Text) (j k : StepKey)
      → place j < place (resolve_wizard_step (some (build_status rt b)) requested)
      → ((build_status rt b).is_ready_to_sell ≡ true)
        ⊎ (place k ≤ place (build_status rt b).next_step)
      → (is_complete rt b j ≡ true)
        × (resolve_wizard_step (some (build_status rt b)) (some (step_name k)) ≡ k)
  unfolding resolve_wizard_step
  resolve_wizard_step_complete requested j k before h = (
    before_complete requested j before,
    elim h [
      | inl ready ↦ rw (resolve_wizard_step, read_step-step_name k, ready) refl
      | inr near ↦
          rw (resolve_wizard_step, read_step-step_name k)
            (clamp_own status.is_ready_to_sell status.next_step k near)
    ],
  )
