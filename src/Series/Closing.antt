-- ===== src/Series/Closing.antt =====
-- recurring-series.service.ts: the end of a series.
use turno_flow.Prelude.{
  ℕ, ◌≡◌, ◌≢◌, ◌<◌, ◌≤◌, ◌⊎◌, refl, ap, ◌∙◌, subst, List, String, Bool, true, not, ◌&&◌, Option,
  none, some, arith, ok, err, not_found, forbidden, require, or_throw, or_throw-eq-ok, bind_elim,
  ok-injective, ◌==◌, find_first-update_within, any, any_witness, keep, keep-In_iff, In, same_row,
  length, ltb,
}
use turno_flow.Schema.{Db, Appointment, AppointmentStatus, RecurringSeries}
use turno_flow.Store.Sound.{IsSound}
use turno_flow.Series.{is_series, find_series, timezone_of}
use turno_flow.Series.Changes.{
  SeriesUpdate, is_closed, is_cancelled, write_series, update_series, is_future_active,
  cancel_series,
}
use turno_flow.Series.Cancelling.{close, cancel_rows-Closed}

find_series-write_series :
    (business k : ℕ) (db : Db) {s : RecurringSeries}
    → find_series business k db ≡ some s
    → find_series business k (write_series k close db) ≡ some (close s)
unfolding find_series
find_series-write_series business k db h =
    find_first-update_within (λ s. s.id == k) close (is_series business k) db.recurring_series
      (λ x e. ground arith) (λ x. refl) h

module _ (now business k : ℕ) where
  -- An appointment of the series that is active and lies in the future.
  pub record Coming (a : Appointment) : Type 0 where
    pub of_business : a.business_id ≡ business
    pub of_series : a.recurring_series_id ≡ some k
    pub future : now < a.starts_at
    pub live : (a.status ≡ AppointmentStatus.pending) ⊎ (a.status ≡ AppointmentStatus.confirmed)

module _ (has_column : String → Bool) (now business k : ℕ) (db : Db) where
  abbrev rows : List Appointment
  rows = keep (is_future_active now business k) db.appointments

  abbrev is_row : Appointment → Bool
  is_row a = any (λ b. b.id == a.id) rows

  is_row-future :
      IsSound db
      → (a : Appointment) → In a db.appointments
      → is_row a ≡ true
      → is_future_active now business k a ≡ true
  is_row-future s a m h =
      let (r, n, e) = any_witness (λ b. b.id == a.id) rows h in
      let (listed, future) =
        (keep-In_iff (is_future_active now business k) r db.appointments).0 n in
      let same : r ≡ a = same_row (λ x. x.id) db.appointments s.distinct listed m (ground arith) in
      subst (λ x. is_future_active now business k x ≡ true) same future

  -- A series that was cancelled stays cancelled: every later update and every later cancellation
  -- of it are refused.
  pub cancel_series-final :
      (db' : Db) {n : ℕ} (input : SeriesUpdate) (later : ℕ)
      → cancel_series has_column now business k db ≡ ok (db', n)
      → (update_series business k input db'
          ≡ err (forbidden "Cannot update a cancelled or completed series"))
        × (cancel_series has_column later business k db'
            ≡ err (forbidden "Series is already cancelled"))
  unfolding cancel_series update_series find_series
  cancel_series-final db' {n} input later h =
      bind_elim (or_throw (find_series business k db) (not_found "Recurring series not found")) _ h
        (λ series e1 h1.
          bind_elim
            (require (not (is_cancelled series.status)) (forbidden "Series is already cancelled")) _
            h1
            (λ u e2 h2.
              let found =
                or_throw-eq-ok (find_series business k db) (not_found "Recurring series not found")
                  e1 in
              let c =
                cancel_rows-Closed has_column business k (timezone_of business db) series db rows
                  db' h2 in
              let inner : find_series business k c.inner ≡ some series =
                ap (λ t. turno_flow.Prelude.find_first (is_series business k) t) c.same_series
                ∙ found in
              let closed : find_series business k db' ≡ some (close series) =
                subst (λ d. find_series business k d ≡ some (close series)) c.result
                  (find_series-write_series business k c.inner inner) in
              (rw (update_series, closed) refl, rw (cancel_series, closed) refl)))

  pub cancel_series-IsSound :
      (db' : Db) {n : ℕ}
      → IsSound db
      → cancel_series has_column now business k db ≡ ok (db', n)
      → IsSound db'
  unfolding cancel_series
  cancel_series-IsSound db' {n} s h =
      bind_elim (or_throw (find_series business k db) (not_found "Recurring series not found")) _ h
        (λ series e1 h1.
          bind_elim
            (require (not (is_cancelled series.status)) (forbidden "Series is already cancelled")) _
            h1
            (λ u e2 h2.
              let c =
                cancel_rows-Closed has_column business k (timezone_of business db) series db rows
                  db' h2 in
              subst IsSound c.result
                (c.sound (λ a m e. let future = is_row-future s a m e in ground arith) s)))

module _ (business k : ℕ) (db : Db) where
  -- An update does not touch the booking tables.
  pub update_series-IsSound :
      (input : SeriesUpdate) (db' : Db) {series : RecurringSeries}
      → IsSound db
      → update_series business k input db ≡ ok (db', series)
      → IsSound db'
  unfolding update_series
  update_series-IsSound input db' {series} s h =
      bind_elim (or_throw (find_series business k db) (not_found "Recurring series not found")) _ h
        (λ existing e1 h1.
          bind_elim
            (require (not (is_closed existing.status))
              (forbidden "Cannot update a cancelled or completed series"))
            _ h1 (λ u e2 h2. subst (λ p. IsSound p.0) (ok-injective h2) s))
