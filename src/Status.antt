-- ===== src/Status.antt =====
-- apps/api/src/appointments/status.ts, and the counters that follow a change of status in
-- appointments.service.ts.
pub mod Laws
use turno_flow.Prelude.{
  ℕ, ◌+◌, ◌-◌, String, Bool, true, false, ◌&&◌, not, Option, none, some, if◌then◌else◌, List, [],
  ◌∷◌, Result, thrown, or_throw,
}
use turno_flow.Schema.{AppointmentStatus, Customer}

pub data PublicAppointmentStatus : Type 0 where
  pending confirmed cancelled_by_customer cancelled_by_business completed no_show :
      PublicAppointmentStatus

-- The text of a status in requests and answers.
abbrev pub api_name : PublicAppointmentStatus → String
api_name pending = "pending"
api_name confirmed = "confirmed"
api_name cancelled_by_customer = "cancelled_by_customer"
api_name cancelled_by_business = "cancelled_by_business"
api_name completed = "completed"
api_name no_show = "no_show"

-- The value that the database's column holds for a status.
abbrev pub column_value : AppointmentStatus → String
column_value AppointmentStatus.pending = "pending"
column_value AppointmentStatus.confirmed = "confirmed"
column_value AppointmentStatus.cancelled_by_customer = "cancelled_by_customer"
column_value AppointmentStatus.cancelled_by_business = "cancelled_by_business"
column_value AppointmentStatus.completed = "completed"
column_value AppointmentStatus.no_show = "no_show"

-- `apiToPrisma`
unfoldable pub to_prisma_appointment_status : PublicAppointmentStatus → AppointmentStatus
to_prisma_appointment_status cancelled_by_business = AppointmentStatus.cancelled_by_business
to_prisma_appointment_status cancelled_by_customer = AppointmentStatus.cancelled_by_customer
to_prisma_appointment_status completed = AppointmentStatus.completed
to_prisma_appointment_status confirmed = AppointmentStatus.confirmed
to_prisma_appointment_status no_show = AppointmentStatus.no_show
to_prisma_appointment_status pending = AppointmentStatus.pending

abbrev pub same_status : AppointmentStatus → AppointmentStatus → Bool
same_status AppointmentStatus.pending AppointmentStatus.pending = true
same_status AppointmentStatus.confirmed AppointmentStatus.confirmed = true
same_status AppointmentStatus.cancelled_by_customer AppointmentStatus.cancelled_by_customer = true
same_status AppointmentStatus.cancelled_by_business AppointmentStatus.cancelled_by_business = true
same_status AppointmentStatus.completed AppointmentStatus.completed = true
same_status AppointmentStatus.no_show AppointmentStatus.no_show = true
same_status _ _ = false

-- `Object.entries(apiToPrisma)`, in the order of the source.
abbrev pub api_statuses : List PublicAppointmentStatus
api_statuses =
    cancelled_by_business ∷ cancelled_by_customer ∷ completed ∷ confirmed ∷ no_show ∷ pending ∷ []

-- `prismaToApi.get(status)`: of two entries with one key, the map holds the later one.
abbrev pub api_status :
    AppointmentStatus → List PublicAppointmentStatus → Option PublicAppointmentStatus
api_status status [] = none
api_status status (s ∷ rest) = elim (api_status status rest) [
  | some t ↦ some t
  | none ↦ if same_status (to_prisma_appointment_status s) status then some s else none
]

-- `fromPrismaAppointmentStatus`
unfoldable pub from_prisma_appointment_status : AppointmentStatus → Result PublicAppointmentStatus
unfolding to_prisma_appointment_status
from_prisma_appointment_status status =
    or_throw (api_status status api_statuses) (thrown "Unsupported appointment status")

-- `activeAppointmentStatuses.includes(status)`
abbrev pub is_active_status : AppointmentStatus → Bool
is_active_status AppointmentStatus.pending = true
is_active_status AppointmentStatus.confirmed = true
is_active_status _ = false

-- `statusDelta`, which is -1, 0 or 1.
pub data Delta : Type 0 where
  lost kept gained : Delta

unfoldable pub status_delta : AppointmentStatus → AppointmentStatus → AppointmentStatus → Delta
status_delta previous next tracked =
    if same_status previous tracked && not (same_status next tracked)
    then lost
    else if not (same_status previous tracked) && same_status next tracked
    then gained
    else kept

-- `Math.max(0, count + delta)`
abbrev pub shift : ℕ → Delta → ℕ
shift n lost = n - 1
shift n kept = n
shift n gained = n + 1

abbrev pub is_kept : Delta → Bool
is_kept kept = true
is_kept _ = false

pub record CounterUpdate : Type 0 where
  pub completed_appointments : ℕ
  pub no_show_count : ℕ

-- `buildCustomerCounterUpdate`
unfoldable pub build_customer_counter_update :
    AppointmentStatus → AppointmentStatus → Customer → Option CounterUpdate
unfolding status_delta
build_customer_counter_update previous next customer =
    let no_show_delta = status_delta previous next AppointmentStatus.no_show in
    let completed_delta = status_delta previous next AppointmentStatus.completed in
    if is_kept no_show_delta && is_kept completed_delta
    then none
    else some (record {
      completed_appointments = shift customer.completed_appointments completed_delta;
      no_show_count = shift customer.no_show_count no_show_delta;
    })
