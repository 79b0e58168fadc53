-- ===== src/Dashboard/Summaries.antt =====
-- dashboard.service.ts: the two sources of a month's figures.
use turno_flow.Prelude.{
  ◌+◌, ◌≡◌, refl, sym, ap, ◌∙◌, arith, List, [], ◌∷◌, ◌++◌, map, count, length,
}
use turno_flow.Status.{same_status}
use turno_flow.Schema.{completed, no_show}
use turno_flow.Dashboard.{
  MonthAppointment, Summary, no_summary, reduce, add_day, add_appointment, is_active, is_cancelled,
  sum_daily_metrics, sum_metrics_from_appointments,
}

-- The appointments of all days.
abbrev pub concat : List (List MonthAppointment) → List MonthAppointment
concat [] = []
concat (g ∷ gs) = g ++ concat gs

zero_left : (s : Summary) → add_day no_summary s ≡ s
zero_left s = grind arith

zero_right : (s : Summary) → add_day s no_summary ≡ s
zero_right s = grind arith

add_day_assoc : (a b c : Summary) → add_day (add_day a b) c ≡ add_day a (add_day b c)
add_day_assoc a b c = grind arith

one :
    (s : Summary) (a : MonthAppointment)
    → add_appointment s a ≡ add_day s (add_appointment no_summary a)
one s a = grind arith

-- A sum that starts from a summary adds to it.
add_appointments :
    (s : Summary) (rows : List MonthAppointment)
    → reduce add_appointment s rows ≡ add_day s (reduce add_appointment no_summary rows)
add_appointments s [] = sym (zero_right s)
add_appointments s (a ∷ rows) =
    add_appointments (add_appointment s a) rows
    ∙ ap (λ t. add_day t (reduce add_appointment no_summary rows)) (one s a)
    ∙ add_day_assoc s (add_appointment no_summary a) (reduce add_appointment no_summary rows)
    ∙ ap (add_day s) (sym (add_appointments (add_appointment no_summary a) rows))

add_days :
    (s : Summary) (days : List Summary)
    → reduce add_day s days ≡ add_day s (reduce add_day no_summary days)
add_days s [] = sym (zero_right s)
add_days s (d ∷ days) =
    add_days (add_day s d) days
    ∙ add_day_assoc s d (reduce add_day no_summary days)
    ∙ ap (λ t. add_day s (add_day t (reduce add_day no_summary days))) (sym (zero_left d))
    ∙ ap (add_day s) (sym (add_days (add_day no_summary d) days))

reduce-append :
    (s : Summary) (xs ys : List MonthAppointment)
    → reduce add_appointment s (xs ++ ys) ≡ reduce add_appointment (reduce add_appointment s xs) ys
reduce-append s [] ys = refl
reduce-append s (x ∷ xs) ys = reduce-append (add_appointment s x) xs ys

-- The sum of the days' figures is that of all their appointments, if each day's figures are those
-- of its appointments: it makes no difference from which of the two a month is summed up.
pub sum_daily_metrics-concat :
    (days : List (List MonthAppointment))
    → sum_daily_metrics (map sum_metrics_from_appointments days)
      ≡ sum_metrics_from_appointments (concat days)
unfolding sum_daily_metrics sum_metrics_from_appointments
sum_daily_metrics-concat [] = refl
sum_daily_metrics-concat (g ∷ gs) =
    add_days (add_day no_summary (sum_metrics_from_appointments g))
      (map sum_metrics_from_appointments gs)
    ∙ ap (λ t. add_day t (reduce add_day no_summary (map sum_metrics_from_appointments gs)))
        (zero_left (sum_metrics_from_appointments g))
    ∙ ap (add_day (sum_metrics_from_appointments g)) (sum_daily_metrics-concat gs)
    ∙ sym (add_appointments (sum_metrics_from_appointments g) (concat gs))
    ∙ sym (reduce-append no_summary g (concat gs))

-- What a summary says of the appointments: how many there are of each kind, and that each of them
-- is of one kind.
pub record Counts (s : Summary) (rows : List MonthAppointment) : Type 0 where
  pub active : s.active_appointments ≡ count (λ a. is_active a.status) rows
  pub cancelled : s.cancelled_appointments ≡ count (λ a. is_cancelled a.status) rows
  pub missed : s.no_show_appointments ≡ count (λ a. same_status a.status no_show) rows
  pub done : s.completed_appointments ≡ count (λ a. same_status a.status completed) rows
  pub all : s.total_appointments ≡ length rows
  pub parts :
      s.active_appointments + s.cancelled_appointments + s.completed_appointments
        + s.no_show_appointments
      ≡ s.total_appointments

add_appointment-Counts :
    (a : MonthAppointment) (rows : List MonthAppointment) (s : Summary)
    → Counts s rows
    → Counts (add_day (add_appointment no_summary a) s) (a ∷ rows)
add_appointment-Counts a rows s c = record {
  active = omega (arith, c.active);
  cancelled = omega (arith, c.cancelled);
  missed = omega (arith, c.missed);
  done = omega (arith, c.done);
  all = omega (arith, c.all);
  parts = ground (arith, c.parts);
}

-- The figures of a list of appointments count its appointments by kind, and the four kinds add up
-- to all of them.
pub sum_metrics_from_appointments-Counts :
    (rows : List MonthAppointment) → Counts (sum_metrics_from_appointments rows) rows
unfolding sum_metrics_from_appointments
sum_metrics_from_appointments-Counts [] = record {
  active = refl;
  cancelled = refl;
  missed = refl;
  done = refl;
  all = refl;
  parts = refl;
}
sum_metrics_from_appointments-Counts (a ∷ rows) =
    rw (add_appointments (add_appointment no_summary a) rows)
      (add_appointment-Counts a rows _ (sum_metrics_from_appointments-Counts rows))
