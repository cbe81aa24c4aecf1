-- ===== src/Ipc/Time/Tests.antt =====
-- Tests and witnesses for dates.
use mgkdb.Prelude.{◌≡◌, arith}
use mgkdb.Prelude.Int.{pos, ◌+ℤ◌}
use mgkdb.Ipc.Time.{get_days, date_fields, timestamp_date, timestamp_time, get_utc}
use mgkdb.Ipc.Time.Calendar.{IsDate}
use mgkdb.Ipc.Time.Civil.{date_fields-get_days}
use mgkdb.Ipc.Time.Stamp.{IsTime, IsLong, ymd, hmsn, timestamp-get_utc, timestamp_date-before_2000}

leap_day : IsDate 2024 2 29
leap_day = record {
  years = omega arith;
  first_month = omega arith;
  last_month = omega arith;
  first_day = omega arith;
  last_day = omega arith;
}

old_day : IsDate 1999 12 30
old_day = record {
  years = omega arith;
  first_month = omega arith;
  last_month = omega arith;
  first_day = omega arith;
  last_day = omega arith;
}

noon : IsTime 12 34 56 789
noon = record {
  hours = omega arith;
  minutes = omega arith;
  seconds = omega arith;
  nanos = omega arith;
}

date_fields-get_days_example : date_fields (get_days (pos 2024) (pos 2) (pos 29)) ≡ ymd 2024 2 29
date_fields-get_days_example = date_fields-get_days 2024 2 29 leap_day

timestamp-get_utc_example :
    IsLong (get_utc (ymd 2024 2 29) (hmsn 12 34 56 789))
    × (timestamp_date (get_utc (ymd 2024 2 29) (hmsn 12 34 56 789)) ≡ ymd 2024 2 29)
    × (timestamp_time (get_utc (ymd 2024 2 29) (hmsn 12 34 56 789)) ≡ hmsn 12 34 56 789)
timestamp-get_utc_example =
    timestamp-get_utc 2024 2 29 12 34 56 789 leap_day noon (omega arith) (omega arith)

timestamp_date-before_2000_example :
    IsLong (get_utc (ymd 1999 12 30) (hmsn 12 34 56 789))
    × (timestamp_date (get_utc (ymd 1999 12 30) (hmsn 12 34 56 789))
        ≡ date_fields (get_days (pos 1999) (pos 12) (pos 30) +ℤ pos 1))
timestamp_date-before_2000_example =
    timestamp_date-before_2000 1999 12 30 12 34 56 789 old_day noon (omega arith) (omega arith)
      (omega arith)
