-- ===== src/Ipc/Time.antt =====
-- Dates and timestamps (mg7x::time of ipc++/src/KdbType.C). Numbers are integers: the values for
-- which the source's int32_t or int64_t overflows are outside the model.
pub mod Calendar
pub mod Civil
pub mod Stamp
mod Clock
mod Tests
use mgkdb.Prelude.{ℕ, ◌+◌, ◌*◌, ◌/◌, ◌%◌, Bool, if◌then◌else◌}
use mgkdb.Prelude.Int.{ℤ, pos, negsuc, pos_part, neg_part, sub_ℕ, neg, ◌+ℤ◌, is_nonneg}

infixl 65 ◌-ℤ◌
unfoldable pub ◌-ℤ◌ : ℤ → ℤ → ℤ
a -ℤ b = sub_ℕ (pos_part a + neg_part b) (neg_part a + pos_part b)

-- `k * z`
unfoldable pub scale : ℕ → ℤ → ℤ
scale k (pos a) = pos (k * a)
scale k (negsuc a) = neg (k * (a + 1))

-- `z / k` and `z % k`, which C++ rounds towards 0.
unfoldable pub quot : ℤ → ℕ → ℤ
quot (pos a) k = pos (a / k)
quot (negsuc a) k = neg ((a + 1) / k)

unfoldable pub rem : ℤ → ℕ → ℤ
rem (pos a) k = pos (a % k)
rem (negsuc a) k = neg ((a + 1) % k)

abbrev pub nanos_in_day : ℕ
nanos_in_day = 86400000000000

abbrev pub nanos_in_hour : ℕ
nanos_in_hour = nanos_in_day / 24

abbrev pub nanos_in_minute : ℕ
nanos_in_minute = 60000000000

abbrev pub nanos_in_second : ℕ
nanos_in_second = 1000000000

abbrev pub millis_in_second : ℕ
millis_in_second = 1000

abbrev pub millis_in_minute : ℕ
millis_in_minute = 60 * millis_in_second

abbrev pub millis_in_hour : ℕ
millis_in_hour = 60 * millis_in_minute

abbrev pub days_since_0ad : ℕ
days_since_0ad = 730425

-- The days before a year that begins in March.
unfoldable pub days_before : ℤ → ℤ
days_before year = scale 365 year +ℤ quot year 4 -ℤ quot year 100 +ℤ quot year 400

-- `Date::getDays`
unfoldable pub get_days : ℤ → ℤ → ℤ → ℤ
get_days y m d =
    let month = rem (m +ℤ pos 9) 12 in
    let year = y -ℤ quot month 10 in
    days_before year +ℤ quot (scale 306 month +ℤ pos 5) 10 +ℤ (d -ℤ pos 1) -ℤ pos days_since_0ad

pub record Ymd : Type 0 where
  pub y : ℤ
  pub mm : ℤ
  pub dd : ℤ

-- What `Date::format_to` and `Timestamp::toDateNotation` print, once the year is found.
unfoldable pub in_year : ℤ → ℤ → Ymd
in_year y ddd =
    let mi = quot (scale 100 ddd +ℤ pos 52) 3060 in
    record {
      y = y +ℤ quot (mi +ℤ pos 2) 12;
      mm = rem (mi +ℤ pos 2) 12 +ℤ pos 1;
      dd = ddd -ℤ quot (scale 306 mi +ℤ pos 5) 10 +ℤ pos 1;
    }

-- The test `ddd < 0`, with `ddd` of the year `y`.
unfoldable pub in_year_of : ℤ → ℤ → Ymd
in_year_of g y =
    let ddd = g -ℤ days_before y in
    if is_nonneg ddd then in_year y ddd else in_year (y -ℤ pos 1) (g -ℤ days_before (y -ℤ pos 1))

-- `Date::format_to` of a date that is not null, up to the printing.
unfoldable pub date_fields : ℤ → Ymd
date_fields date =
    let g = pos days_since_0ad +ℤ date in in_year_of g (quot (scale 10000 g +ℤ pos 14780) 3652425)

-- `Timestamp::toDateNotation`, up to the printing.
unfoldable pub timestamp_date : ℤ → Ymd
timestamp_date nanos = date_fields (quot nanos nanos_in_day)

pub record Hmsn : Type 0 where
  pub h : ℤ
  pub m : ℤ
  pub s : ℤ
  pub n : ℤ

-- `Timestamp::toTimeNotation`, up to the printing.
unfoldable pub timestamp_time : ℤ → Hmsn
timestamp_time nanos =
    let day = rem nanos nanos_in_day in
    record {
      h = quot day nanos_in_hour;
      m = quot (rem day nanos_in_hour) nanos_in_minute;
      s = quot (rem day nanos_in_minute) nanos_in_second;
      n = rem day nanos_in_second;
    }

-- `Timespan::format_to` of a value that is not null, up to the printing: the days and the rest.
unfoldable pub timespan_fields : ℤ → ℤ × Hmsn
timespan_fields nanos = (quot nanos nanos_in_day, timestamp_time nanos)

-- `Month::format_to` of a value that is not null, up to the printing: the year and the month.
unfoldable pub month_fields : ℤ → ℤ × ℤ
month_fields mth = (pos 2000 +ℤ quot mth 12, rem mth 12 +ℤ pos 1)

-- `Minute::format_to` of a value that is not null, up to the printing.
unfoldable pub minute_fields : ℤ → ℤ × ℤ
minute_fields val = (quot val 60, rem val 60)

-- `Second::format_to` of a value that is not null, up to the printing.
unfoldable pub second_fields : ℤ → ℤ × ℤ × ℤ
second_fields secs =
    let hours = quot secs 3600 in
    let after = secs -ℤ scale 3600 hours in
    let mins = quot after 60 in (hours, mins, after -ℤ scale 60 mins)

-- `Time::format_to` of a value that is not null, up to the printing: the last field is the
-- milliseconds.
unfoldable pub time_fields : ℤ → ℤ × ℤ × ℤ × ℤ
time_fields time =
    let hours = quot time millis_in_hour in
    let after = time -ℤ scale millis_in_hour hours in
    let mins = quot after millis_in_minute in
    let rest = after -ℤ scale millis_in_minute mins in
    let secs = quot rest millis_in_second in
    (hours, mins, secs, rest -ℤ scale millis_in_second secs)

-- `Timestamp::getUTC`. An int64_t holds the sum for the years 1708 to 2291.
unfoldable pub get_utc : Ymd → Hmsn → ℤ
get_utc date time =
    time.n
    +ℤ scale nanos_in_second time.s
    +ℤ scale nanos_in_minute time.m
    +ℤ scale nanos_in_hour time.h
    +ℤ scale nanos_in_day (get_days date.y date.mm date.dd)
