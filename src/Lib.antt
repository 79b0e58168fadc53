-- ===== src/Lib.antt =====
-- TurnoFlow is a booking service for small businesses. Its API (apps/api/src) offers the free slots
-- of a day, books appointments, cancels and reschedules them, keeps a waitlist, takes manual deposits
-- and opens sessions; messages about what happened go to an outbox in the same transaction. This
-- library models the core of that API and proves what makes it correct.
--
-- Parts and files:
-- Prelude: tests, lists, tables (rows with a key) and the results of fallible code. A handler's
--   exception is an `err`; a transaction is a function from `Db` to a result that holds the new
--   `Db`, so that one that fails leaves the state as it was.
-- Text: strings as lists of UTF-16 code units.
-- Time (apps/api/src/common/time.ts): instants are milliseconds counted from the earliest date
--   of the runtime, so they are natural numbers. The time zone data, the parser of dates,
--   `localeCompare`, `toLowerCase` and `trim` are the fields of `Runtime`. Time/Clock is about
--   clock texts, Time/Zones about the instants of a zone.
-- Availability (apps/api/src/appointments/availability.ts): `calculateAvailability`, loop by
--   loop. The inner loop runs on fuel, `window_end + 1` rounds; each round moves the start on by
--   30 minutes and stops past the window's end, so the rounds do not run out. Availability/Spec
--   says what a free slot is, without loops.
-- Events (apps/api/src/events/event-types.ts): the event types, their names and routing keys.
-- Schema and Store (apps/api/prisma, apps/api/src/events/outbox.service.ts): the rows, the
--   queries and writes of the database client, the exclusion constraint
--   `appointments_active_staff_no_overlap` of the migrations, the outbox and the audit log.
--   Store/Sound states the invariant of the booking tables; Store/Replacements follows it through
--   an update.
-- Status (apps/api/src/appointments/status.ts): the two vocabularies of appointment statuses,
--   and `buildCustomerCounterUpdate`.
-- Booking (apps/api/src/appointments/appointments.service.ts): the queries and checks that the
--   handlers share, and in Booking/Create, Booking/Lifecycle and Booking/Waitlist the handlers
--   themselves. Booking/Runs, Booking/Changes and Booking/Rescheduling take apart the runs that
--   succeed; Booking/Openings says by which rows of the database a slot is open; Booking/System
--   makes the handlers, and those of Series, the steps of one system.
-- Series (apps/api/src/appointments/recurring-series.service.ts): series of appointments, which
--   are created through the checks of Booking. The loop over the occurrences is recursion on the
--   rounds that are left. The month arithmetic of `Date` and the columns that the generated
--   database client knows are parameters. Series/Changes is the update and the cancellation of a
--   series.
-- Payments (apps/api/src/payments/payments.service.ts): manual payments and the decisions on
--   them.
-- Sessions (apps/api/src/auth/auth.service.ts): accounts, refresh tokens and invitations.
--   Hashes, signatures and random tokens are parameters.
-- Publisher (apps/api/src/events/event-publisher.service.ts): a round of publishing, with the
--   answers of the broker as parameters.
-- Slug (apps/api/src/common/slug.ts): `toSlug`, and `createAvailableSlug` of the businesses
--   service, whose loop takes the source's 100 rounds.
-- Businesses (apps/api/src/businesses/businesses.service.ts, and the guards in
--   apps/api/src/common): whom a request is from and on which business it acts. Businesses/Members
--   is the team, Businesses/Schedule the weekly rules, Businesses/Exceptions the exceptions of
--   single days, Businesses/Catalog the founding of a business and its services,
--   Businesses/Staffing its staff, their assignments to services and the slots of the dashboard.
--   Businesses/Owners and Businesses/Weekly follow the team and the rules through sequences of
--   requests.
-- Onboarding (apps/api/src/businesses/onboarding.service.ts): the tasks and steps of the set-up.
--   Onboarding/Status, Onboarding/Progress and Onboarding/Analytics are the service's three parts,
--   Onboarding/Wizard is apps/web/lib/onboarding.ts. Progress data are a function from steps to
--   lists of subtasks.
-- Dashboard (apps/api/src/dashboard/dashboard.service.ts): the figures of a month, the rankings
--   and the weekly breakdown.
-- Customers (apps/api/src/customers/customers.service.ts): creation, and the import of a file
--   whose records are given. The loop over chunks runs on fuel, one round for each row; a round
--   takes up to 100 of the rows that are left, so the rounds do not run out. Customers/Writes
--   follows the upserts of an import through the table.
-- Portal (apps/api/src/customer-portal/customer-portal.service.ts): login links and sessions of
--   customers. Reviews (apps/api/src/reviews/reviews.service.ts): their submission and the public
--   highlights.
-- Tests: a small business, runs of the handlers on it, and the theorems at concrete inputs.
--
-- Conventions: identifiers and tokens are only compared, so they are numbers; new identifiers come
-- from `next_id`. Requests are taken one after another, each with one clock reading `now`; the
-- interleaving of two open transactions is not modelled.
--
-- Not modelled: a request without a user, which the guard of the business lets pass; a failure of
-- the write that marks a message as published; the defaults that stand in for a time zone or a
-- clock where a caller of `calculateAvailability` gives none; listings and the JSON that handlers
-- return, which change no state; of the businesses service, the update of a business, templates,
-- payment and reminder settings; of the dashboard, the metrics of staff members and the rates; of
-- the customers, their updates, notes, list and the end of a subscription; the rate limit; the
-- calendar, whose work is done by an external service; the workers in Go; and the views of the web
-- client.
pub mod Prelude
pub mod Text
pub mod Time
pub mod Availability
pub mod Events
pub mod Schema
pub mod Status
pub mod Store
pub mod Booking
pub mod Series
pub mod Payments
pub mod Sessions
pub mod Publisher
pub mod Slug
pub mod Businesses
pub mod Onboarding
pub mod Dashboard
pub mod Customers
pub mod Portal
pub mod Reviews
pub mod Tests
