-- ===== src/Series/Changes.antt =====
-- recurring-series.service.ts: changes of a series and its cancellation.
use turno_flow.Prelude.{
  ℕ, ◌-◌, List, [], ◌∷◌, String, Bool, true, false, not, ◌&&◌, Option, none, some, Result, ok,
  thrown, not_found, forbidden, or_throw, require, ◌>>=◌, ◌>>◌, ltb, ◌==◌, any, keep, update_where,
  length,
}
use turno_flow.Text.{Text}
use turno_flow.Events.{EventType}
use turno_flow.Status.{is_active_status}
use turno_flow.Schema.{
  Db, Appointment, AppointmentStatus, RecurringSeries, RecurringSeriesStatus, cancelled, completed,
  appointment_payload, Payload,
}
use turno_flow.Store.{update_customer, record_event, outbox_create}
use turno_flow.Series.{timezone_of, find_series}

abbrev pub is_closed : RecurringSeriesStatus → Bool
is_closed cancelled = true
is_closed completed = true
is_closed _ = false

abbrev pub is_cancelled : RecurringSeriesStatus → Bool
is_cancelled cancelled = true
is_cancelled _ = false

pub record SeriesUpdate : Type 0 where
  pub advance_notice_days : Option ℕ
  pub max_occurrences : Option ℕ
  pub status : Option RecurringSeriesStatus

abbrev pub updated_series : SeriesUpdate → RecurringSeries → RecurringSeries
updated_series input s = record s {
  advance_notice_days = elim (input.advance_notice_days) [
    | none ↦ s.advance_notice_days
    | some n ↦ n
  ];
  max_occurrences = elim (input.max_occurrences) [ none ↦ s.max_occurrences | some n ↦ some n ];
  status = elim (input.status) [ none ↦ s.status | some st ↦ st ];
}

abbrev pub write_series : ℕ → (RecurringSeries → RecurringSeries) → Db → Db
write_series k f db = record db {
  recurring_series = update_where (λ s. s.id == k) f db.recurring_series;
}

-- `updateSeries`
unfoldable pub update_series : ℕ → ℕ → SeriesUpdate → Db → Result (Db × RecurringSeries)
unfolding find_series
update_series business k input db = do
  existing ← or_throw (find_series business k db) (not_found "Recurring series not found")
  require (not (is_closed existing.status))
      (forbidden "Cannot update a cancelled or completed series")
  ok (write_series k (updated_series input) db, updated_series input existing)

-- The database client is generated from a schema and refuses a write of a column that is not one of
-- the schema's: `has_column` tells which are.
abbrev pub assert_columns : (String → Bool) → List String → Result (Unit {0})
assert_columns has_column [] = ok tt
assert_columns has_column (column ∷ columns) = do
  require (has_column column) (thrown "Unknown argument")
  assert_columns has_column columns

abbrev pub is_future_active : ℕ → ℕ → ℕ → Appointment → Bool
is_future_active now business k a =
    a.business_id == business
    && elim (a.recurring_series_id) [ none ↦ false | some s ↦ s == k ]
    && ltb now a.starts_at
    && is_active_status a.status

abbrev pub cancelled_row : Appointment → Appointment
cancelled_row a = record a { status = AppointmentStatus.cancelled_by_business }

-- `appointment.updateMany`: the exclusion constraint ignores cancelled rows.
unfoldable pub cancel_many : List Appointment → Db → Db
cancel_many rows db = record db {
  appointments = update_where (λ a. any (λ b. b.id == a.id) rows) cancelled_row db.appointments;
}

-- `outboxRows` and `appointmentEventRows`.
unfoldable pub announce_many : ℕ → Text → List Appointment → Db → Db
announce_many business zone [] db = db
announce_many business zone (a ∷ rows) db =
    let payload : Payload = appointment_payload (cancelled_row a) zone in
    announce_many business zone rows (
      outbox_create EventType.slot_released a.id business payload (
        outbox_create EventType.appointment_cancelled a.id business payload
          (record_event a.id business EventType.appointment_cancelled db)))

-- The transaction of `cancelSeries`. A count of cancelled appointments is no column of the rows of
-- this model.
unfoldable pub cancel_occurrences :
    (String → Bool) → ℕ → ℕ → Text → RecurringSeries → List Appointment → Db → Result Db
unfolding cancel_many announce_many
cancel_occurrences has_column business k zone series rows db = do
  let count = length rows
  let db1 = cancel_many rows db
  assert_columns has_column ("cancelledAppointments" ∷ "totalAppointments" ∷ [])
  let db2 =
      update_customer series.customer_id
        (λ c. record c { total_appointments = c.total_appointments - count }) db1
  ok (write_series k (λ s. record s { status = cancelled }) (announce_many business zone rows db2))

-- The early return of `cancelSeries`, or its transaction.
unfoldable pub cancel_rows :
    (String → Bool) → ℕ → ℕ → Text → RecurringSeries → List Appointment → Db → Result (Db × ℕ)
unfolding cancel_occurrences
cancel_rows has_column business k zone series [] db =
    ok (write_series k (λ s. record s { status = cancelled }) db, 0)
cancel_rows has_column business k zone series (a ∷ others) db = do
  db1 ← cancel_occurrences has_column business k zone series (a ∷ others) db
  ok (db1, length (a ∷ others))

-- `cancelSeries`
unfoldable pub cancel_series : (String → Bool) → ℕ → ℕ → ℕ → Db → Result (Db × ℕ)
unfolding find_series cancel_rows
cancel_series has_column now business k db = do
  series ← or_throw (find_series business k db) (not_found "Recurring series not found")
  require (not (is_cancelled series.status)) (forbidden "Series is already cancelled")
  cancel_rows has_column business k (timezone_of business db) series
      (keep (is_future_active now business k) db.appointments) db
