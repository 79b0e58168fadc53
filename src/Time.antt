-- ===== src/Time.antt =====
-- apps/api/src/common/time.ts. An instant is the number of milliseconds since the earliest instant
-- that a `Date` holds, 8.64e15 ms before 1970, so it is a natural number; differences and order are
-- those of the source. The runtime's time zone data, its formatter and its parser of date texts are
-- the fields of `Runtime`.
pub mod Clock
pub mod Zones
use turno_flow.Prelude.{
  ℕ, ◌+◌, ◌-◌, ◌*◌, ◌/◌, ◌%◌, [], ◌∷◌, ◌++◌, String, Bool, true, false, ◌&&◌, ◌||◌, Option, none,
  some, Result, ok, or_throw, thrown, ◌>>=◌, leb, ◌==◌, if◌then◌else◌,
}
use text.Mathlib.Text.{◌==◌ as str_eq}
use turno_flow.Text.{Text, codes, is_digit, number}

-- The texts that `Intl.DateTimeFormat.formatToParts` gives for an instant in a time zone.
pub record Parts : Type 0 where
  pub year : Text
  pub month : Text
  pub day : Text
  pub hour : Text
  pub minute : Text
  pub second : Text

-- Time zones are named by texts. `none` is an invalid date.
pub record Runtime : Type 0 where
  pub parts : Text → ℕ → Parts
  pub weekday_name : Text → ℕ → String
  pub parse_date : Text → Option ℕ
  pub locale_leb : ℕ → ℕ → Bool
  pub to_lower_case : Text → Text
  pub trim : Text → Text

abbrev pub minute_ms : ℕ
minute_ms = 60000

abbrev pub day_ms : ℕ
day_ms = 86400000

-- 1970-01-01T00:00:00.000Z
abbrev pub unix_epoch : ℕ
unix_epoch = 8640000000000000

abbrev is_leap : ℕ → Bool
is_leap y = (y % 4 == 0 && not_century (y % 100)) || y % 400 == 0
  where
    not_century : ℕ → Bool
    not_century r = if r == 0 then false else true

-- Days in the year before the month, which counts from 0.
abbrev days_before_month : ℕ → ℕ
days_before_month m =
    if m == 0
    then 0
    else if m == 1
    then 31
    else if m == 2
    then 59
    else if m == 3
    then 90
    else if m == 4
    then 120
    else if m == 5
    then 151
    else if m == 6
    then 181
    else if m == 7
    then 212
    else if m == 8
    then 243
    else if m == 9
    then 273
    else if m == 10
    then 304
    else 334

-- Days from 1 January of year 0 to the first of a month; the year is at least 1.
abbrev days_to_month : ℕ → ℕ → ℕ
days_to_month y m =
    365 * y
    + (y - 1) / 4
    - (y - 1) / 100
    + (y - 1) / 400
    + 1
    + days_before_month m
    + (if is_leap y && leb 2 m then 1 else 0)

-- The runtime's `Date.UTC`, with the month counted from 1. Years up to 99 mean 1900 and later, and
-- a month or a day out of range runs into the neighbouring ones.
unfoldable pub utc_midnight : ℕ → ℕ → ℕ → ℕ
utc_midnight year month day =
    let months = (if leb year 99 then 1900 + year else year) * 12 + month - 1 in
    let days = days_to_month (months / 12) (months % 12) + day - 1 in
    unix_epoch + days * day_ms - 719528 * day_ms

unfoldable pub date_utc : ℕ → ℕ → ℕ → ℕ → ℕ → ℕ → ℕ
date_utc year month day hour minute second =
    utc_midnight year month day + hour * 3600000 + minute * minute_ms + second * 1000

-- `dateOnlyInTimeZone`
unfoldable pub date_only_in_time_zone : Runtime → ℕ → Text → Text
date_only_in_time_zone rt value zone =
    let p = rt.parts zone value in p.year ++ b'-' ∷ p.month ++ b'-' ∷ p.day

-- The groups of `/^(\d{4})-(\d{2})-(\d{2})$/`: year, month and day.
abbrev pub match_date : Text → Option (ℕ × ℕ × ℕ)
match_date (a ∷ b ∷ c ∷ d ∷ s ∷ e ∷ f ∷ t ∷ g ∷ h ∷ []) =
    if is_digit a
      && is_digit b
      && is_digit c
      && is_digit d
      && s == b'-'
      && is_digit e
      && is_digit f
      && t == b'-'
      && is_digit g
      && is_digit h
    then some (number (a ∷ b ∷ c ∷ d ∷ []), number (e ∷ f ∷ []), number (g ∷ h ∷ []))
    else none
match_date _ = none

-- `parseDateOnly`; the inner `none` is an invalid date, which is returned and not thrown.
unfoldable pub parse_date_only : Runtime → Text → Result (Option ℕ)
parse_date_only rt value = do
  parts ← or_throw (match_date value) (thrown "Date must use YYYY-MM-DD format")
  ok (rt.parse_date (value ++ codes "T00:00:00.000Z"))

-- `WEEKDAY_MAP[weekday] ?? 0`
unfoldable pub weekday_number : String → ℕ
weekday_number name =
    if str_eq name "Fri"
    then 5
    else if str_eq name "Mon"
    then 1
    else if str_eq name "Sat"
    then 6
    else if str_eq name "Sun"
    then 0
    else if str_eq name "Thu"
    then 4
    else if str_eq name "Tue"
    then 2
    else if str_eq name "Wed"
    then 3
    else 0

-- `weekdayInTimeZone`; formatting an invalid date throws.
unfoldable pub weekday_in_time_zone : Runtime → Text → Text → Result ℕ
unfolding weekday_number
weekday_in_time_zone rt date zone = do
  noon ← or_throw (rt.parse_date (date ++ codes "T12:00:00.000Z")) (thrown "Invalid time value")
  ok (weekday_number (rt.weekday_name zone noon))

-- `/^([01]\d|2[0-3]):([0-5]\d)$/`
abbrev pub match_time : Text → Option (ℕ × ℕ)
match_time (a ∷ b ∷ s ∷ c ∷ d ∷ []) =
    if ((leb b'0' a && leb a b'1' && is_digit b) || (a == b'2' && leb b'0' b && leb b b'3'))
      && s == b':'
      && leb b'0' c
      && leb c b'5'
      && is_digit d
    then some (number (a ∷ b ∷ []), number (c ∷ d ∷ []))
    else none
match_time _ = none

-- `minutesSinceMidnight`
unfoldable pub minutes_since_midnight : Text → Result ℕ
minutes_since_midnight value = do
  (hours, minutes) ← or_throw (match_time value) (thrown "Time must use HH:mm format")
  ok (hours * 60 + minutes)

-- The instant whose UTC clock shows what the zone's clock shows at `value`: `asUtc` of
-- `timeZoneOffsetMs`, which returns it less `value`.
unfoldable pub wall_clock : Runtime → Text → ℕ → ℕ
unfolding date_utc utc_midnight
wall_clock rt zone value =
    let p = rt.parts zone value in
    date_utc (number p.year) (number p.month) (number p.day) (number p.hour) (number p.minute)
      (number p.second)

-- `local - timeZoneOffsetMs(value, zone)`
unfoldable pub minus_offset : Runtime → Text → ℕ → ℕ → ℕ
minus_offset rt zone local value = local + value - wall_clock rt zone value

-- `dateAtZonedMinutes` past its test of the date: the offset is looked up twice, the second time
-- at the instant that the first one gives.
unfoldable pub local_instant : ℕ × ℕ × ℕ → ℕ → ℕ
unfolding date_utc
local_instant (year, month, day) minutes = date_utc year month day (minutes / 60) (minutes % 60) 0

unfoldable pub zoned_instant : Runtime → Text → ℕ × ℕ × ℕ → ℕ → ℕ
unfolding minus_offset
zoned_instant rt zone date minutes =
    let local = local_instant date minutes in
    minus_offset rt zone local (minus_offset rt zone local local)

unfoldable pub date_at_zoned_minutes : Runtime → Text → ℕ → Text → Result ℕ
date_at_zoned_minutes rt date minutes zone = do
  parts ← or_throw (match_date date) (thrown "Date must use YYYY-MM-DD format")
  ok (zoned_instant rt zone parts minutes)

pub record DayBounds : Type 0 where
  pub start : ℕ
  pub end : ℕ

-- `zonedDayBounds`
unfoldable pub zoned_day_bounds : Runtime → Text → Text → Result DayBounds
zoned_day_bounds rt date zone = do
  end ← date_at_zoned_minutes rt date (24 * 60) zone
  start ← date_at_zoned_minutes rt date 0 zone
  ok (record { start = start; end = end })
