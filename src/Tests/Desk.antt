-- ===== src/Tests/Desk.antt =====
-- The theorems on the dashboard, on customers, on their portal and on reviews at small inputs.
use turno_flow.Prelude.{
  ℕ, ◌+◌, ◌*◌, ◌<◌, ◌≤◌, ◌≡◌, ◌⊎◌, refl, List, [], ◌∷◌, Bool, true, false, map, Option, none, some,
  Result, ok, err, conflict, unauthorized, length, All, Ordered, In,
}
use turno_flow.Text.{Text, codes, text_ltb}
use turno_flow.Time.{minute_ms}
use turno_flow.Schema.{
  Db, Customer, AppointmentStatus, completed, no_show, cancelled_by_customer, confirmed,
}
use turno_flow.Dashboard.{
  MonthAppointment, sum_daily_metrics, sum_metrics_from_appointments, top_services,
}
use turno_flow.Dashboard.Summaries.{
  concat, Counts, sum_daily_metrics-concat, sum_metrics_from_appointments-Counts,
}
use turno_flow.Dashboard.Ranking.{Ranked, top_services-Ranked}
use turno_flow.Businesses.{AuthenticatedUser}
use turno_flow.Customers.{CsvRecord, ImportResult, import_rows, import_chunks, import_csv}
use turno_flow.Customers.Chunks.{import_chunks-import_rows}
use turno_flow.Customers.Imports.{collected}
use turno_flow.Portal.{Portal, Session, request_login_link, issue_token, exchange_login_token}
use turno_flow.Portal.Login.{exchange_login_token-once, request_login_link-window}
use turno_flow.Reviews.{Review, SubmitReview, submit, submitted, highlights}
use turno_flow.Reviews.Submission.{Highlight, NoLater, Shown, submit-once, highlights-latest}
use turno_flow.Tests.{midnight, runtime, business, empty}

abbrev seen : AppointmentStatus → ℕ → MonthAppointment
seen status service = record {
  status = status;
  price_cents = 5000;
  duration_minutes = 45;
  service_id = service;
  service_name = codes "cut";
  customer_id = 10;
  customer_name = codes "Ana";
}

abbrev days : List (List MonthAppointment)
days =
    (seen completed 3 ∷ seen no_show 4 ∷ [])
    ∷ []
    ∷ (seen cancelled_by_customer 4 ∷ seen confirmed 3 ∷ [])
    ∷ []

sum_daily_metrics-concat_example :
    sum_daily_metrics (map sum_metrics_from_appointments days)
    ≡ sum_metrics_from_appointments (concat days)
sum_daily_metrics-concat_example = sum_daily_metrics-concat days

sum_metrics_from_appointments-Counts_example :
    Counts (sum_metrics_from_appointments (concat days)) (concat days)
sum_metrics_from_appointments-Counts_example = sum_metrics_from_appointments-Counts (concat days)

abbrev collate : Text → Text → Bool
collate a b = turno_flow.Prelude.not (text_ltb b a)

-- Service 3 has two appointments, service 4 one that counts.
ranking : map (λ t. t.times) (top_services collate (concat days)) ≡ 2 ∷ 1 ∷ []
unfolding top_services
ranking = refl

top_services-Ranked_example :
    Ranked
      (λ a. a.service_id)
      (λ a. a.service_name)
      1
      (concat days)
      (top_services collate (concat days))
top_services-Ranked_example = top_services-Ranked collate (concat days)

abbrev user : AuthenticatedUser
user = record { id = 2; business_id = some 1; role = none; staff_member_id = none }

abbrev file : List CsvRecord
file =
    record { name = codes "Ana"; email = codes "ana@x.org"; phone = [] }
    ∷ record { name = codes "Bo"; email = codes "bo.x"; phone = [] }
    ∷ record { name = codes "Ana M"; email = codes "ana@x.org"; phone = codes "123" }
    ∷ record { name = codes "Cy"; email = codes "cy@x.org"; phone = [] }
    ∷ []

abbrev ana : Customer
ana = record {
  id = 5;
  business_id = 1;
  email = codes "ana@x";
  name = codes "Ana";
  phone = none;
  total_appointments = 0;
  completed_appointments = 0;
  no_show_count = 0;
}

-- Ana is a customer already, and Cy is not.
abbrev with_ana : Db
with_ana = record empty { customers = record ana { email = codes "ana@x.org" } ∷ [] }

abbrev import_run : Result (Db × ImportResult)
import_run = import_csv runtime user file with_ana

abbrev imported_state : Result (Db × ImportResult) → Db
imported_state (ok p) = p.0
imported_state (err e) = empty

abbrev expected_result : ImportResult
expected_result = record {
  errors = record { email = codes "bo.x"; message = "Invalid email"; row = 3 } ∷ [];
  imported = 1;
  updated = 1;
}

import_chunks-import_rows_example :
    import_chunks 1 (length (collected runtime file).rows) 0 (collected runtime file).rows empty
    ≡ import_rows 1 (collected runtime file).rows empty
import_chunks-import_rows_example = import_chunks-import_rows 1 (collected runtime file).rows empty

abbrev portal : Portal
portal = record { db = record empty { customers = ana ∷ [] }; login_tokens = [] }

request_login_link-window_example :
    ((midnight + 60000 < midnight + 15 * minute_ms)
      × (p : Portal) × (exchange_login_token
            (λ t. t)
            (midnight + 60000)
            9
            (request_login_link runtime (λ t. t) midnight 9 (codes "shop") (codes "ana@x") portal)
          ≡ ok (p, record { business_id = 1; customer_id = 5 })))
    ⊎ ((midnight + 15 * minute_ms ≤ midnight + 60000)
        × (exchange_login_token
              (λ t. t)
              (midnight + 60000)
              9
              (request_login_link runtime (λ t. t) midnight 9 (codes "shop") (codes "ana@x") portal)
            ≡ err (unauthorized "Invalid or expired token")))
request_login_link-window_example =
    request_login_link-window (λ t. t) runtime midnight 9 (codes "shop") (codes "ana@x") portal
      business ana refl refl refl (midnight + 60000)

abbrev sent : Portal
sent = request_login_link runtime (λ t. t) midnight 9 (codes "shop") (codes "ana@x") portal

abbrev login : Result (Portal × Session)
login = exchange_login_token (λ t. t) midnight 9 sent

abbrev portal_after : Result (Portal × Session) → Portal
portal_after (ok p) = p.0
portal_after (err e) = portal

login-ok : login ≡ ok (portal_after login, record { business_id = 1; customer_id = 5 })
unfolding exchange_login_token request_login_link issue_token
login-ok = refl

exchange_login_token-once_example :
    exchange_login_token (λ t. t) midnight 9 (portal_after login)
    ≡ err (unauthorized "Invalid or expired token")
exchange_login_token-once_example =
    exchange_login_token-once (λ t. t) midnight 9 sent (portal_after login) login-ok midnight

abbrev review : Review
review = record {
  id = 1;
  business_id = 1;
  token = 5;
  rating = none;
  comment = none;
  submitted_at = none;
}

abbrev praise : SubmitReview
praise = record { rating = 5; comment = some (codes "good") }

praised : submit 7 5 praise (review ∷ []) ≡ ok (submitted 7 praise review ∷ [])
unfolding submit
praised = refl

submit-once_example :
    submit 8 5 praise (submitted 7 praise review ∷ []) ≡ err (conflict "Review already submitted")
submit-once_example =
    submit-once 7 5 praise (review ∷ []) (submitted 7 praise review ∷ []) praised 8 praise

abbrev praised_reviews : List Review
praised_reviews = submitted 7 praise review ∷ submitted 8 praise review ∷ review ∷ []

highlights-latest_example :
    (length (highlights 1 praised_reviews) ≤ 5)
    × All (λ r. In r praised_reviews × Highlight 1 r) (highlights 1 praised_reviews)
    × Ordered (λ l r. NoLater r l) (highlights 1 praised_reviews)
    × All (λ r. Shown 1 (highlights 1 praised_reviews) r) praised_reviews
highlights-latest_example = highlights-latest 1 praised_reviews
