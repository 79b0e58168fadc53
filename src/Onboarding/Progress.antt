-- ===== src/Onboarding/Progress.antt =====
-- onboarding.service.ts: what a request that reports progress writes.
use turno_flow.Prelude.{
  ℕ, List, [], ◌∷◌, ◌++◌, Bool, true, false, not, ◌&&◌, Option, none, some, Result, ok, not_found,
  or_throw, ◌>>=◌, if◌then◌else◌,
}
use turno_flow.Text.{Text, codes, text_eq}
use turno_flow.Time.{Runtime}
use turno_flow.Onboarding.{
  StepKey, same_step, OnboardingEventType, viewed, dismissed, resumed, advanced, completed,
  share_clicked, test_booking_clicked, Subtask, ProgressData, BusinessOnboarding, OnboardingEvent,
  BusinessSnapshot, is_filled,
}
use turno_flow.Onboarding.Status.{OnboardingStatus, build_status, progress_data_of}

-- The body of a request that reports progress; its step is one of the keys.
pub record ProgressInput : Type 0 where
  pub current_step : Option StepKey
  pub event_type : Option OnboardingEventType
  pub subtask_key : Option Text
  pub subtask_completed : Option Bool
  pub is_completed : Bool
  pub is_dismissed : Option Bool

-- `currentStep[key] = …`
abbrev pub set_subtask : Subtask → List Subtask → List Subtask
set_subtask t [] = t ∷ []
set_subtask t (u ∷ us) = if text_eq u.key t.key then t ∷ us else u ∷ set_subtask t us

abbrev pub done_subtask : ℕ → Text → Subtask
done_subtask now key = record { key = key; completed = true; completed_at = some now }

-- `subtaskCompleted ?? true`
abbrev pub requested_subtask : ℕ → Text → Option Bool → Subtask
requested_subtask now key (some false) = record {
  key = key;
  completed = false;
  completed_at = none;
}
requested_subtask now key _ = done_subtask now key

abbrev pub set_requested : ℕ → Option Text → Option Bool → List Subtask → List Subtask
set_requested now none flag tasks = tasks
set_requested now (some []) flag tasks = tasks
set_requested now (some (c ∷ cs)) flag tasks =
    set_subtask (requested_subtask now (c ∷ cs) flag) tasks

abbrev pub set_by_event : ℕ → Option OnboardingEventType → List Subtask → List Subtask
set_by_event now (some share_clicked) tasks =
    set_subtask (done_subtask now (codes "share_page")) tasks
set_by_event now (some test_booking_clicked) tasks =
    set_subtask (done_subtask now (codes "test_booking")) tasks
set_by_event now _ tasks = tasks

-- `mergeProgressData`. A step without subtasks and a step that is missing read the same.
unfoldable pub merge_progress_data : ℕ → ProgressInput → StepKey → ProgressData → ProgressData
merge_progress_data now input step existing key =
    if same_step key step
    then set_by_event now input.event_type
        (set_requested now input.subtask_key input.subtask_completed (existing key))
    else existing key

abbrev pub is_some_text : Option Text → Bool
is_some_text none = false
is_some_text (some t) = is_filled t

-- `resolveEventType`
unfoldable pub resolve_event_type :
    ProgressInput → StepKey → StepKey → Bool → Option OnboardingEventType
resolve_event_type input current requested is_ready = elim (input.event_type) [
  | some e ↦ some e
  | none ↦ if input.is_completed && is_ready then some completed else elim (input.is_dismissed) [
    | some true ↦ some dismissed
    | some false ↦ some resumed
    | none ↦
        if not (same_step requested current)
        then some advanced
        else if is_some_text input.subtask_key
        then some viewed
        else none
  ]
]

module _ (rt : Runtime) (now : ℕ) where
  abbrev pub requested_step : ProgressInput → OnboardingStatus → StepKey
  requested_step input status = elim (input.current_step) [
    | none ↦ status.current_step
    | some k ↦ k
  ]

  -- `input.completed && status.isReadyToSell ? new Date() : …`
  abbrev pub completion : ProgressInput → OnboardingStatus → Option ℕ → Option ℕ
  completion input status kept =
      if input.is_completed && status.is_ready_to_sell then some now else kept

  abbrev pub dismissal : Option Bool → Option ℕ → Option ℕ
  dismissal none kept = kept
  dismissal (some true) kept = some now
  dismissal (some false) kept = none

  -- The row after `businessOnboarding.upsert`.
  abbrev pub upserted : ProgressInput → BusinessSnapshot → BusinessOnboarding
  upserted input b =
      let status = build_status rt b in
      let step = requested_step input status in
      record {
        current_step = step;
        completed_at =
            completion input status (elim (b.onboarding) [ none ↦ none | some o ↦ o.completed_at ]);
        dismissed_at =
            dismissal input.is_dismissed
              (elim (b.onboarding) [ none ↦ none | some o ↦ o.dismissed_at ]);
        updated_at = now;
        progress_data = merge_progress_data now input step (progress_data_of rt b);
      }

  abbrev pub logged : ProgressInput → BusinessSnapshot → List OnboardingEvent
  logged input b =
      let status = build_status rt b in
      let step = requested_step input status in
      elim (resolve_event_type input status.current_step step status.is_ready_to_sell) [
        | none ↦ b.events
        | some e ↦ b.events ++ record { event_type = e; step = some step; created_at = now } ∷ []
      ]

  -- `updateProgress`, with the snapshot after it.
  unfoldable pub update_progress :
      ProgressInput → Option BusinessSnapshot → Result (BusinessSnapshot × OnboardingStatus)
  unfolding build_status merge_progress_data resolve_event_type
  update_progress input found = do
    b ← or_throw found (not_found "Current business is not configured")
    let after = record b { onboarding = some (upserted input b); events = logged input b }
    ok (after, build_status rt after)
