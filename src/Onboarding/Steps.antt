-- ===== src/Onboarding/Steps.antt =====
-- onboarding.service.ts: the steps of a status, and the step that the wizard opens.
use turno_flow.Prelude.{ℕ, ◌≡◌, ◌↔◌, ◌⊎◌, ◌<◌, arith, true, false, Bool-cases, inl, inr}
use turno_flow.Time.{Runtime}
use turno_flow.Onboarding.{
  StepKey, business, service, staff, availability, public_page, BusinessSnapshot, is_complete,
}
use turno_flow.Onboarding.Status.{build_status}

-- The place of a step in the order of the steps.
abbrev pub place : StepKey → ℕ
place business = 0
place service = 1
place staff = 2
place availability = 3
place public_page = 4

pub next_open :
    (rt : Runtime) (b : BusinessSnapshot)
    → (build_status rt b).is_ready_to_sell ≡ false
    → (is_complete rt b (build_status rt b).next_step ≡ false)
      × ((k : StepKey) → place k < place (build_status rt b).next_step → is_complete rt b k ≡ true)
unfolding build_status
next_open rt b h = (
  ground arith,
  λ k. elim k [
    | business ↦ λ l. ground arith
    | service ↦ λ l. ground arith
    | staff ↦ λ l. ground arith
    | availability ↦ λ l. ground arith
    | public_page ↦ λ l. ground arith
  ],
)

-- Whether the set-up is ready is whether all steps are complete, and whether the progress is 100
-- percent; while it is not, the next step is open and all steps before it are complete.
pub build_status-steps :
    (rt : Runtime) (b : BusinessSnapshot)
    → (((build_status rt b).is_ready_to_sell ≡ true) ↔ ((k : StepKey) → is_complete rt b k ≡ true))
      × (((build_status rt b).is_ready_to_sell ≡ true)
          ↔ ((build_status rt b).progress_percent ≡ 100))
      × (((build_status rt b).is_ready_to_sell ≡ true)
          ⊎ ((is_complete rt b (build_status rt b).next_step ≡ false)
              × ((k : StepKey)
                  → place k < place (build_status rt b).next_step
                  → is_complete rt b k ≡ true)))
unfolding build_status
build_status-steps rt b = (
  (
    λ h k. elim k [
      | business ↦ ground arith
      | service ↦ ground arith
      | staff ↦ ground arith
      | availability ↦ ground arith
      | public_page ↦ ground arith
    ],
    λ h. ground (arith, h business, h service, h staff, h availability, h public_page),
  ),
  (λ h. ground arith, λ h. ground arith),
  elim (Bool-cases (build_status rt b).is_ready_to_sell) [
    | inl h ↦ inl h
    | inr h ↦ inr (next_open rt b h)
  ],
)
