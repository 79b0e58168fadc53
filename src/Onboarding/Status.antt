-- ===== src/Onboarding/Status.antt =====
-- onboarding.service.ts: the status that is built of a snapshot.
use turno_flow.Prelude.{
  ℕ, ◌+◌, ◌*◌, ◌/◌, List, [], ◌∷◌, map, Bool, true, false, not, ◌&&◌, Option, none, some,
  if◌then◌else◌, keep, find_first, length,
}
use turno_flow.Time.{Runtime}
use turno_flow.Onboarding.{
  StepKey, public_page, step_keys, ProgressData, BusinessSnapshot, Task, tasks_of, empty_tasks,
  is_complete, business,
}

-- `Math.round((part / whole) * 100)`. Rounding to the nearest whole number goes by the exact
-- quotient: none of the program's has a half.
abbrev pub percent : ℕ → ℕ → ℕ
percent part whole = (200 * part + whole) / (2 * whole)

-- `calculateTaskProgress`
abbrev pub calculate_task_progress : List Task → ℕ
calculate_task_progress [] = 0
calculate_task_progress (t ∷ ts) =
    percent (length (keep (λ t. t.completed) (t ∷ ts))) (length (t ∷ ts))

pub record StepStatus : Type 0 where
  pub key : StepKey
  pub completed : Bool
  pub progress_percent : ℕ
  pub tasks : List Task

pub record OnboardingStatus : Type 0 where
  pub completed_at : Option ℕ
  pub current_step : StepKey
  pub dismissed_at : Option ℕ
  pub is_ready_to_sell : Bool
  pub next_step : StepKey
  pub progress_percent : ℕ
  pub steps : List StepStatus

-- `steps.every((step) => step.completed)`
abbrev pub every {ℓ} : {A : Type ℓ} → (A → Bool) → List A → Bool
every p [] = true
every p (x ∷ xs) = p x && every p xs

module _ (rt : Runtime) where
  abbrev pub progress_data_of : BusinessSnapshot → ProgressData
  progress_data_of b = elim (b.onboarding) [ none ↦ λ k. [] | some o ↦ o.progress_data ]

  abbrev pub step_status : BusinessSnapshot → StepKey → StepStatus
  step_status b key =
      let tasks : List Task = tasks_of rt b (progress_data_of b) key in
      record {
        key = key;
        completed = is_complete rt b key;
        progress_percent = calculate_task_progress tasks;
        tasks = tasks;
      }

  -- `buildStatusFromSnapshot` for a business, but for its analytics.
  unfoldable pub build_status : BusinessSnapshot → OnboardingStatus
  build_status b =
      let steps : List StepStatus = map (step_status b) step_keys in
      let next : StepKey = elim (find_first (λ s. not s.completed) steps) [
        | none ↦ public_page
        | some s ↦ s.key
      ] in
      let is_ready = every (λ s. s.completed) steps in
      let persisted : StepKey = elim (b.onboarding) [ none ↦ next | some o ↦ o.current_step ] in
      record {
        completed_at = elim (b.onboarding) [ none ↦ none | some o ↦ o.completed_at ];
        current_step = if is_ready then public_page else persisted;
        dismissed_at = elim (b.onboarding) [ none ↦ none | some o ↦ o.dismissed_at ];
        is_ready_to_sell = is_ready;
        next_step = next;
        progress_percent = percent (length (keep (λ s. s.completed) steps)) (length steps);
        steps = steps;
      }

abbrev empty_step : StepKey → StepStatus
empty_step key = record {
  key = key;
  completed = false;
  progress_percent = 0;
  tasks = empty_tasks key;
}

-- `getStatus`, by what the query for the user's business finds.
unfoldable pub get_status : Runtime → Option BusinessSnapshot → OnboardingStatus
unfolding build_status
get_status rt none = record {
  completed_at = none;
  current_step = business;
  dismissed_at = none;
  is_ready_to_sell = false;
  next_step = business;
  progress_percent = 0;
  steps = map empty_step step_keys;
}
get_status rt (some b) = build_status rt b
