-- ===== src/Onboarding/Completion.antt =====
-- onboarding.service.ts: what a report of progress may complete.
use turno_flow.Prelude.{
  ℕ, ◌≡◌, ◌⊎◌, inl, inr, refl, subst, arith, List, [], ◌∷◌, true, false, ◌&&◌, Bool-cases, some, ok,
  ok-injective,
}
use turno_flow.Text.{Text, codes, text_eq}
use turno_flow.Text.Laws.{text_eq_self}
use turno_flow.Time.{Runtime}
use turno_flow.Onboarding.{
  StepKey, same_step, share_clicked, Subtask, ProgressData, BusinessSnapshot, is_done,
}
use turno_flow.Onboarding.Status.{OnboardingStatus, build_status}
use turno_flow.Onboarding.Progress.{
  ProgressInput, set_subtask, done_subtask, set_requested, merge_progress_data, update_progress,
}

is_done-set_subtask :
    (now : ℕ) (key : Text) (tasks : List Subtask)
    → is_done key (set_subtask (done_subtask now key) tasks) ≡ true
is_done-set_subtask now key [] = rw (text_eq_self key) refl
is_done-set_subtask now key (t ∷ ts) = elim (Bool-cases (text_eq t.key key)) [
  | inl e ↦ rw (e, text_eq_self key) refl
  | inr e ↦ ground (arith, is_done-set_subtask now key ts)
]

same_step_self : (k : StepKey) → same_step k k ≡ true
same_step_self k = ground arith

-- A click on the share link marks the task of sharing as done under the step of the request, and
-- leaves the subtasks of every other step as they were.
pub merge_progress_data-share :
    (now : ℕ) (input : ProgressInput) (step : StepKey) (existing : ProgressData)
    → input.event_type ≡ some share_clicked
    → (is_done (codes "share_page") (merge_progress_data now input step existing step) ≡ true)
      × ((k : StepKey)
          → same_step k step ≡ false
          → merge_progress_data now input step existing k ≡ existing k)
unfolding merge_progress_data
merge_progress_data-share now input step existing h = (
  rw (merge_progress_data, same_step_self step, h)
      (is_done-set_subtask now (codes "share_page")
        (set_requested now input.subtask_key input.subtask_completed (existing step))),
  λ k other. rw (merge_progress_data, other) refl,
)

-- A report of progress does not change whether the set-up is ready, and the time of completion
-- either stays or becomes the present one, which happens only if the set-up is ready.
pub update_progress-completed :
    (rt : Runtime) (now : ℕ) (input : ProgressInput) (b after : BusinessSnapshot)
    {status : OnboardingStatus}
    → update_progress rt now input (some b) ≡ ok (after, status)
    → (status.is_ready_to_sell ≡ (build_status rt b).is_ready_to_sell)
      × ((status.completed_at ≡ (build_status rt b).completed_at)
          ⊎ (((build_status rt b).is_ready_to_sell ≡ true) × (status.completed_at ≡ some now)))
unfolding update_progress build_status
update_progress-completed rt now input b after {status} h =
    subst
      (λ (p : BusinessSnapshot × OnboardingStatus).
        (p.1.is_ready_to_sell ≡ (build_status rt b).is_ready_to_sell)
        × ((p.1.completed_at ≡ (build_status rt b).completed_at)
            ⊎ (((build_status rt b).is_ready_to_sell ≡ true) × (p.1.completed_at ≡ some now))))
      (ok-injective h)
      (
        refl,
        elim (Bool-cases (input.is_completed && (build_status rt b).is_ready_to_sell)) [
          | inl e ↦ inr (ground arith, rw e refl)
          | inr e ↦ inl (rw e refl)
        ],
      )
