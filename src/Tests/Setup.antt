-- ===== src/Tests/Setup.antt =====
-- The theorems on the set-up of a business at small inputs.
use turno_flow.Prelude.{
  ◌<◌, ◌≤◌, ◌≡◌, ◌↔◌, ◌⊎◌, refl, arith, [], ◌∷◌, true, false, none, some, ok, inr,
}
use turno_flow.Text.{codes}
use turno_flow.Onboarding.{StepKey, service, staff, share_clicked, BusinessSnapshot, is_complete}
use turno_flow.Onboarding.Status.{build_status}
use turno_flow.Onboarding.Progress.{ProgressInput, upserted, logged, update_progress}
use turno_flow.Onboarding.Steps.{place, build_status-steps}
use turno_flow.Onboarding.Wizard.{resolve_wizard_step, resolve_wizard_step_complete}
use turno_flow.Onboarding.Completion.{update_progress-completed}
use turno_flow.Tests.{runtime}

-- A business with a service and nobody to give it.
abbrev begun : BusinessSnapshot
begun = record {
  name = codes "Shop";
  slug = codes "shop";
  timezone = codes "UTC";
  email = none;
  services = record { duration_minutes = 45; price_cents = 5000; buffer_minutes = 15 } ∷ [];
  staff_members = [];
  availability_rules = [];
  onboarding = none;
  events = [];
}

-- Two of its five steps are complete.
begun_status :
    ((build_status runtime begun).next_step ≡ staff)
    × ((build_status runtime begun).progress_percent ≡ 40)
unfolding build_status
begun_status = (refl, refl)

build_status-steps_example :
    (((build_status runtime begun).is_ready_to_sell ≡ true)
      ↔ ((k : StepKey) → is_complete runtime begun k ≡ true))
    × (((build_status runtime begun).is_ready_to_sell ≡ true)
        ↔ ((build_status runtime begun).progress_percent ≡ 100))
    × (((build_status runtime begun).is_ready_to_sell ≡ true)
        ⊎ ((is_complete runtime begun (build_status runtime begun).next_step ≡ false)
            × ((k : StepKey)
                → place k < place (build_status runtime begun).next_step
                → is_complete runtime begun k ≡ true)))
build_status-steps_example = build_status-steps runtime begun

-- The address asks for a step that lies too far ahead.
redirected :
    resolve_wizard_step (some (build_status runtime begun)) (some (codes "public_page")) ≡ staff
unfolding resolve_wizard_step build_status
redirected = refl

before_staff :
    place service
    < place (resolve_wizard_step (some (build_status runtime begun)) (some (codes "public_page")))
unfolding resolve_wizard_step build_status
before_staff = omega arith

within : place staff ≤ place (build_status runtime begun).next_step
unfolding build_status
within = omega arith

resolve_wizard_step_complete_example :
    (is_complete runtime begun service ≡ true)
    × (resolve_wizard_step (some (build_status runtime begun)) (some (codes "staff")) ≡ staff)
resolve_wizard_step_complete_example =
    resolve_wizard_step_complete runtime begun (some (codes "public_page")) service staff
      before_staff (inr within)

-- The report that all is done, which is too early.
abbrev report : ProgressInput
report = record {
  current_step = none;
  event_type = some share_clicked;
  subtask_key = none;
  subtask_completed = none;
  is_completed = true;
  is_dismissed = none;
}

abbrev reported : BusinessSnapshot
reported = record begun {
  onboarding = some (upserted runtime 7 report begun);
  events = logged runtime 7 report begun;
}

reported-ok :
    update_progress runtime 7 report (some begun) ≡ ok (reported, build_status runtime reported)
unfolding update_progress
reported-ok = refl

update_progress-completed_example :
    ((build_status runtime reported).is_ready_to_sell
      ≡ (build_status runtime begun).is_ready_to_sell)
    × (((build_status runtime reported).completed_at ≡ (build_status runtime begun).completed_at)
        ⊎ (((build_status runtime begun).is_ready_to_sell ≡ true)
            × ((build_status runtime reported).completed_at ≡ some 7)))
update_progress-completed_example =
    update_progress-completed runtime 7 report begun reported reported-ok
