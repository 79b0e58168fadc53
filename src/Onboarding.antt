-- ===== src/Onboarding.antt =====
-- apps/api/src/businesses/onboarding.service.ts and onboarding.types.ts: how far the set-up of a
-- business is. The rows that the query for a user's business returns are a `BusinessSnapshot`;
-- titles and descriptions, which are only shown, are left out.
pub mod Status
pub mod Progress
pub mod Steps
pub mod Wizard
pub mod Completion
pub mod Analytics
use turno_flow.Prelude.{
  ℕ, suc, ◌+◌, ◌*◌, ◌/◌, List, [], ◌∷◌, ◌++◌, map, Bool, true, false, not, ◌&&◌, ◌||◌, Option, none,
  some, Result, ok, err, not_found, or_throw, ◌>>=◌, ltb, leb, ◌==◌, if◌then◌else◌, any, keep,
  find_first, length,
}
use turno_flow.Text.{Text, codes, text_eq}
use turno_flow.Time.{Runtime, day_ms}

-- `onboardingStepKeys`, in their order.
pub data StepKey : Type 0 where
  business service staff availability public_page : StepKey

abbrev pub step_keys : List StepKey
step_keys = business ∷ service ∷ staff ∷ availability ∷ public_page ∷ []

abbrev pub same_step : StepKey → StepKey → Bool
same_step business business = true
same_step service service = true
same_step staff staff = true
same_step availability availability = true
same_step public_page public_page = true
same_step _ _ = false

-- `onboardingEventTypes`
pub data OnboardingEventType : Type 0 where
  viewed dismissed resumed advanced completed share_clicked test_booking_clicked
        public_page_opened :
      OnboardingEventType

abbrev pub is_event : OnboardingEventType → OnboardingEventType → Bool
is_event viewed viewed = true
is_event dismissed dismissed = true
is_event resumed resumed = true
is_event advanced advanced = true
is_event completed completed = true
is_event share_clicked share_clicked = true
is_event test_booking_clicked test_booking_clicked = true
is_event public_page_opened public_page_opened = true
is_event _ _ = false

pub record Subtask : Type 0 where
  pub key : Text
  pub completed : Bool
  pub completed_at : Option ℕ

-- `ProgressData`: the subtasks of each step, in the order in which their keys were first set.
abbrev pub ProgressData : Type 0
ProgressData = StepKey → List Subtask

pub record BusinessOnboarding : Type 0 where
  pub current_step : StepKey
  pub completed_at : Option ℕ
  pub dismissed_at : Option ℕ
  pub updated_at : ℕ
  pub progress_data : ProgressData

pub record OnboardingEvent : Type 0 where
  pub event_type : OnboardingEventType
  pub step : Option StepKey
  pub created_at : ℕ

pub record SnapshotService : Type 0 where
  pub duration_minutes : ℕ
  pub price_cents : ℕ
  pub buffer_minutes : ℕ

pub record SnapshotStaff : Type 0 where
  pub id : ℕ
  pub name : Text
  pub email : Option Text

pub record SnapshotRule : Type 0 where
  pub staff_member_id : ℕ
  pub weekday : ℕ

-- Its services, staff members and rules are the active ones.
pub record BusinessSnapshot : Type 0 where
  pub name : Text
  pub slug : Text
  pub timezone : Text
  pub email : Option Text
  pub services : List SnapshotService
  pub staff_members : List SnapshotStaff
  pub availability_rules : List SnapshotRule
  pub onboarding : Option BusinessOnboarding
  pub events : List OnboardingEvent

pub record Task : Type 0 where
  pub key : Text
  pub required : Bool
  pub completed : Bool

abbrev pub task : Text → Bool → Bool → Task
task key required flag = record { key = key; required = required; completed = flag }

abbrev pub is_filled : Text → Bool
is_filled [] = false
is_filled (c ∷ cs) = true

abbrev pub has_any {ℓ} : {A : Type ℓ} → List A → Bool
has_any [] = false
has_any (x ∷ xs) = true

-- A JavaScript `Set` of numbers, as the numbers in the order of their first addition.
abbrev pub distinct_numbers : List ℕ → List ℕ
distinct_numbers [] = []
distinct_numbers (n ∷ ns) = n ∷ keep (λ m. not (m == n)) (distinct_numbers ns)

abbrev pub is_done : Text → List Subtask → Bool
is_done key tasks = elim (find_first (λ t. text_eq t.key key) tasks) [
  | none ↦ false
  | some t ↦ t.completed
]

module _ (rt : Runtime) where
  abbrev pub is_present : Text → Bool
  is_present t = is_filled (rt.trim t)

  abbrev pub is_given : Option Text → Bool
  is_given none = false
  is_given (some t) = is_present t

  abbrev pub build_business_tasks : BusinessSnapshot → List Task
  build_business_tasks b =
      task (codes "name") true (is_present b.name)
      ∷ task (codes "slug") true (is_present b.slug)
      ∷ task (codes "timezone") true (is_present b.timezone)
      ∷ task (codes "email") false (is_given b.email)
      ∷ []

  abbrev pub build_service_tasks : BusinessSnapshot → List Task
  build_service_tasks b =
      task (codes "service_exists") true (has_any b.services)
      ∷ task (codes "duration") true
          (elim (b.services) [ [] ↦ false | s ∷ rest ↦ leb 5 s.duration_minutes ])
      ∷ task (codes "price") false
          (elim (b.services) [ [] ↦ false | s ∷ rest ↦ leb 0 s.price_cents ])
      ∷ task (codes "buffer") false
          (elim (b.services) [ [] ↦ false | s ∷ rest ↦ leb 0 s.buffer_minutes ])
      ∷ []

  abbrev pub build_staff_tasks : BusinessSnapshot → List Task
  build_staff_tasks b =
      task (codes "staff_exists") true (has_any b.staff_members)
      ∷ task (codes "staff_name") true
          (elim (b.staff_members) [ [] ↦ false | s ∷ rest ↦ is_present s.name ])
      ∷ task (codes "staff_email") false
          (elim (b.staff_members) [ [] ↦ false | s ∷ rest ↦ is_given s.email ])
      ∷ []

  abbrev pub build_availability_tasks : BusinessSnapshot → List Task
  build_availability_tasks b =
      let weekdays : List ℕ = map (λ r. r.weekday) b.availability_rules in
      task (codes "rule_exists") true (has_any b.availability_rules)
      ∷ task (codes "weekday_coverage") false (leb 5 (length (distinct_numbers weekdays)))
      ∷ task (codes "assigned_staff") true
          (any (λ r. any (λ s. s.id == r.staff_member_id) b.staff_members) b.availability_rules)
      ∷ []

  abbrev pub build_public_page_tasks : BusinessSnapshot → ProgressData → List Task
  build_public_page_tasks b progress =
      task (codes "public_url") true (is_present b.slug)
      ∷ task (codes "booking_ready") true (has_any b.services && has_any b.availability_rules)
      ∷ task (codes "share_page") false (is_done (codes "share_page") (progress public_page))
      ∷ task (codes "test_booking") false (is_done (codes "test_booking") (progress public_page))
      ∷ []

  -- `taskMap`
  abbrev pub tasks_of : BusinessSnapshot → ProgressData → StepKey → List Task
  tasks_of b progress business = build_business_tasks b
  tasks_of b progress service = build_service_tasks b
  tasks_of b progress staff = build_staff_tasks b
  tasks_of b progress availability = build_availability_tasks b
  tasks_of b progress public_page = build_public_page_tasks b progress

  -- `stepCompletion`
  abbrev pub is_complete : BusinessSnapshot → StepKey → Bool
  is_complete b business = is_present b.name && is_present b.slug && is_present b.timezone
  is_complete b service = has_any b.services
  is_complete b staff = has_any b.staff_members
  is_complete b availability = has_any b.availability_rules
  is_complete b public_page =
      is_present b.slug
      && has_any b.services
      && has_any b.staff_members
      && has_any b.availability_rules

-- `emptyTasks`
abbrev pub empty_tasks : StepKey → List Task
empty_tasks business =
    task (codes "name") true false
    ∷ task (codes "slug") true false
    ∷ task (codes "timezone") true false
    ∷ task (codes "email") false false
    ∷ []
empty_tasks service =
    task (codes "service_exists") true false
    ∷ task (codes "duration") true false
    ∷ task (codes "price") false false
    ∷ task (codes "buffer") false false
    ∷ []
empty_tasks staff =
    task (codes "staff_exists") true false
    ∷ task (codes "staff_name") true false
    ∷ task (codes "staff_email") false false
    ∷ []
empty_tasks availability =
    task (codes "rule_exists") true false
    ∷ task (codes "weekday_coverage") false false
    ∷ task (codes "assigned_staff") true false
    ∷ []
empty_tasks public_page =
    task (codes "public_url") true false
    ∷ task (codes "booking_ready") true false
    ∷ task (codes "share_page") false false
    ∷ task (codes "test_booking") false false
    ∷ []
