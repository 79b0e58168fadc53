-- ===== src/Dashboard.antt =====
-- apps/api/src/dashboard/dashboard.service.ts: the figures of a month. `collate` is the runtime's
-- `localeCompare` as a test of order.
pub mod Summaries
pub mod Ranking
use turno_flow.Prelude.{
  ℕ, zero, suc, ◌+◌, ◌*◌, ◌/◌, List, [], ◌∷◌, ◌++◌, map, Bool, true, false, not, ◌&&◌, ◌||◌, Option,
  none, some, ltb, leb, ◌==◌, if◌then◌else◌, keep, take, sort_by,
}
use turno_flow.Text.{Text}
use turno_flow.Time.{day_ms}
use turno_flow.Status.{same_status}
use turno_flow.Schema.{
  AppointmentStatus, pending, confirmed, cancelled_by_customer, cancelled_by_business, completed,
  no_show,
}

-- An appointment with the columns of its service and its customer that are read.
pub record MonthAppointment : Type 0 where
  pub status : AppointmentStatus
  pub price_cents : ℕ
  pub duration_minutes : ℕ
  pub service_id : ℕ
  pub service_name : Text
  pub customer_id : ℕ
  pub customer_name : Text

pub record Summary : Type 0 where
  pub active_appointments : ℕ
  pub cancelled_appointments : ℕ
  pub completed_appointments : ℕ
  pub estimated_revenue_cents : ℕ
  pub lost_revenue_cents : ℕ
  pub no_show_appointments : ℕ
  pub total_appointments : ℕ

abbrev pub no_summary : Summary
no_summary = record {
  active_appointments = 0;
  cancelled_appointments = 0;
  completed_appointments = 0;
  estimated_revenue_cents = 0;
  lost_revenue_cents = 0;
  no_show_appointments = 0;
  total_appointments = 0;
}

-- `items.reduce(step, start)`
abbrev pub reduce {ℓ κ} : {A : Type ℓ} {S : Type κ} → (S → A → S) → S → List A → S
reduce step s [] = s
reduce step s (x ∷ xs) = reduce step (step s x) xs

abbrev pub add_day : Summary → Summary → Summary
add_day s d = record {
  active_appointments = s.active_appointments + d.active_appointments;
  cancelled_appointments = s.cancelled_appointments + d.cancelled_appointments;
  completed_appointments = s.completed_appointments + d.completed_appointments;
  estimated_revenue_cents = s.estimated_revenue_cents + d.estimated_revenue_cents;
  lost_revenue_cents = s.lost_revenue_cents + d.lost_revenue_cents;
  no_show_appointments = s.no_show_appointments + d.no_show_appointments;
  total_appointments = s.total_appointments + d.total_appointments;
}

-- `sumDailyMetrics`
unfoldable pub sum_daily_metrics : List Summary → Summary
sum_daily_metrics days = reduce add_day no_summary days

abbrev pub is_cancelled : AppointmentStatus → Bool
is_cancelled cancelled_by_business = true
is_cancelled cancelled_by_customer = true
is_cancelled _ = false

abbrev pub is_active : AppointmentStatus → Bool
is_active confirmed = true
is_active pending = true
is_active _ = false

abbrev pub one_if : Bool → ℕ
one_if b = if b then 1 else 0

abbrev pub add_appointment : Summary → MonthAppointment → Summary
add_appointment s a = record {
  active_appointments = s.active_appointments + one_if (is_active a.status);
  cancelled_appointments = s.cancelled_appointments + one_if (is_cancelled a.status);
  completed_appointments = s.completed_appointments + one_if (same_status a.status completed);
  estimated_revenue_cents =
      s.estimated_revenue_cents + (if not (is_cancelled a.status) then a.price_cents else 0);
  lost_revenue_cents =
      s.lost_revenue_cents + (if same_status a.status no_show then a.price_cents else 0);
  no_show_appointments = s.no_show_appointments + one_if (same_status a.status no_show);
  total_appointments = s.total_appointments + 1;
}

-- `sumMetricsFromAppointments`
unfoldable pub sum_metrics_from_appointments : List MonthAppointment → Summary
sum_metrics_from_appointments rows = reduce add_appointment no_summary rows

-- `monthlySummary`: the stored days, or the appointments themselves where there are none.
unfoldable pub monthly_summary : List Summary → List MonthAppointment → Summary
unfolding sum_daily_metrics sum_metrics_from_appointments
monthly_summary [] rows = sum_metrics_from_appointments rows
monthly_summary (d ∷ ds) rows = sum_daily_metrics (d ∷ ds)

-- An entry of a `Map` from identifiers to a count and a name.
pub record Tally : Type 0 where
  pub key : ℕ
  pub times : ℕ
  pub name : Text

-- `counts.set(key, { times: (current?.times ?? 0) + 1, name })`
abbrev pub bump : ℕ → Text → List Tally → List Tally
bump key name [] = record { key = key; times = 1; name = name } ∷ []
bump key name (t ∷ ts) =
    if t.key == key
    then record { key = key; times = t.times + 1; name = name } ∷ ts
    else t ∷ bump key name ts

module _ (key : MonthAppointment → ℕ) (name : MonthAppointment → Text) where
  -- The loop, which skips cancelled appointments.
  abbrev pub tally : List Tally → MonthAppointment → List Tally
  tally counts a = if is_cancelled a.status then counts else bump (key a) (name a) counts

  abbrev pub tallies : List MonthAppointment → List Tally
  tallies rows = reduce tally [] rows

-- `right.times - left.times || left.name.localeCompare(right.name)`
abbrev pub ranks_before : (Text → Text → Bool) → Tally → Tally → Bool
ranks_before collate l r = ltb r.times l.times || (l.times == r.times && collate l.name r.name)

-- `topServices`
unfoldable pub top_services : (Text → Text → Bool) → List MonthAppointment → List Tally
top_services collate rows =
    take 5 (sort_by (ranks_before collate) (tallies (λ a. a.service_id) (λ a. a.service_name) rows))

-- `recurringCustomers`
unfoldable pub recurring_customers : (Text → Text → Bool) → List MonthAppointment → List Tally
recurring_customers collate rows = take 5 (
    sort_by (ranks_before collate)
      (keep (λ t. ltb 1 t.times) (tallies (λ a. a.customer_id) (λ a. a.customer_name) rows)))

-- A stored row with the instant of its date at midnight.
pub record DayMetrics : Type 0 where
  pub date : ℕ
  pub figures : Summary

-- `new Map(metrics.map(…)).get(key)`: the last row of the day.
abbrev pub figures_of : ℕ → List DayMetrics → Summary
figures_of date rows =
    reduce (λ found r. if r.date / day_ms == date / day_ms then r.figures else found) no_summary
      rows

-- `Array.from({ length: n }, …)`, from `index` on.
abbrev pub days_from : ℕ → ℕ → List DayMetrics → (rounds : ℕ) → List DayMetrics
days_from start index rows zero = []
days_from start index rows (suc n) =
    let date = start + index * day_ms in
    record { date = date; figures = figures_of date rows } ∷ days_from start (index + 1) rows n

-- `weeklyBreakdown`
unfoldable pub weekly_breakdown : ℕ → List DayMetrics → List DayMetrics
weekly_breakdown start rows = days_from start 0 rows 7
