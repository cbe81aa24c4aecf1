-- ===== src/Ipc/Time/Stamp.antt =====
-- Timestamps, `Timestamp::getUTC`, `toDateNotation` and `toTimeNotation` (ipc++/src/KdbType.C).
use mgkdb.Prelude.{ℕ, ◌+◌, ◌-◌, ◌*◌, ◌/◌, ◌%◌, ◌^◌, ◌≤◌, ◌<◌, ◌≡◌, sym, ap, ◌∙◌, arith}
use mathlib.Core.Path.{subst}
use mgkdb.Prelude.Int.{ℤ, pos_part, neg_part, pos, negsuc, neg, ◌+ℤ◌}
use mgkdb.Ipc.Time.{
  ◌-ℤ◌, scale, quot, rem, nanos_in_day, nanos_in_hour, nanos_in_minute, nanos_in_second,
  days_since_0ad, get_days, Ymd, date_fields, timestamp_date, Hmsn, timestamp_time, get_utc,
}
use mgkdb.Ipc.Time.Calendar.{IsDate, day_number, from_2000, before_2000, from_1708, before_2292}
use mgkdb.Ipc.Time.Civil.{pos_add, pos_sub, get_days_lem, date_fields-get_days}

-- A time of day.
pub record IsTime (hour minute second nano : ℕ) : Type 0 where
  pub hours : hour < 24
  pub minutes : minute < 60
  pub seconds : second < 60
  pub nanos : nano < nanos_in_second

-- Its nanoseconds since midnight, summed as `getUTC` does.
abbrev pub nanos_of : ℕ → ℕ → ℕ → ℕ → ℕ
nanos_of hour minute second nano =
    nano + nanos_in_second * second + nanos_in_minute * minute + nanos_in_hour * hour

abbrev pub ymd : ℕ → ℕ → ℕ → Ymd
ymd y m d = record { y = pos y; mm = pos m; dd = pos d }

abbrev pub hmsn : ℕ → ℕ → ℕ → ℕ → Hmsn
hmsn hour minute second nano = record { h = pos hour; m = pos minute; s = pos second; n = pos nano }

get_utc_lem :
    (y m d hour minute second nano : ℕ)
    → get_utc (ymd y m d) (hmsn hour minute second nano)
      ≡ pos (nanos_of hour minute second nano)
        +ℤ scale nanos_in_day (get_days (pos y) (pos m) (pos d))
unfolding get_utc scale
get_utc_lem y m d hour minute second nano =
    let days : ℤ = scale nanos_in_day (get_days (pos y) (pos m) (pos d)) in
    ap (λ z. z +ℤ pos (nanos_in_minute * minute) +ℤ pos (nanos_in_hour * hour) +ℤ days)
      (pos_add nano (nanos_in_second * second))
    ∙ ap (λ z. z +ℤ pos (nanos_in_hour * hour) +ℤ days)
        (pos_add (nano + nanos_in_second * second) (nanos_in_minute * minute))
    ∙ ap (λ z. z +ℤ days)
        (pos_add (nano + nanos_in_second * second + nanos_in_minute * minute)
          (nanos_in_hour * hour))

in_day :
    (hour minute second nano : ℕ)
    → IsTime hour minute second nano
    → nanos_of hour minute second nano < nanos_in_day
in_day hour minute second nano t = omega (arith, t.hours, t.minutes, t.seconds, t.nanos)

time_lem :
    (hour minute second nano days : ℕ)
    → IsTime hour minute second nano
    → timestamp_time (pos (nanos_of hour minute second nano + nanos_in_day * days))
      ≡ hmsn hour minute second nano
unfolding timestamp_time quot rem
time_lem hour minute second nano days t =
    let day : (nanos_of hour minute second nano + nanos_in_day * days) % nanos_in_day
        ≡ nanos_of hour minute second nano =
      omega (arith, in_day hour minute second nano t) in
    let h' : nanos_of hour minute second nano / nanos_in_hour ≡ hour =
      omega (arith, t.minutes, t.seconds, t.nanos) in
    let m' : nanos_of hour minute second nano % nanos_in_hour / nanos_in_minute ≡ minute =
      omega (arith, t.minutes, t.seconds, t.nanos) in
    let s' : nanos_of hour minute second nano % nanos_in_minute / nanos_in_second ≡ second =
      omega (arith, t.seconds, t.nanos) in
    let n' : nanos_of hour minute second nano % nanos_in_second ≡ nano = omega (arith, t.nanos) in
    ap
      (λ k.
        hmsn (k / nanos_in_hour) (k % nanos_in_hour / nanos_in_minute)
          (k % nanos_in_minute / nanos_in_second) (k % nanos_in_second))
      day
    ∙ ap
        (λ k.
          hmsn k (nanos_of hour minute second nano % nanos_in_hour / nanos_in_minute)
            (nanos_of hour minute second nano % nanos_in_minute / nanos_in_second)
            (nanos_of hour minute second nano % nanos_in_second))
        h'
    ∙ ap
        (λ k.
          hmsn hour k (nanos_of hour minute second nano % nanos_in_minute / nanos_in_second)
            (nanos_of hour minute second nano % nanos_in_second))
        m'
    ∙ ap (λ k. hmsn hour minute k (nanos_of hour minute second nano % nanos_in_second)) s'
    ∙ ap (hmsn hour minute second) n'

-- The values of an int64_t.
abbrev pub IsLong : ℤ → Type 0
IsLong z = (pos_part z < 2 ^ 63) × (neg_part z ≤ 2 ^ 63)

IsLong-late :
    (days ns : ℕ) → days < 106751 → ns < nanos_in_day → IsLong (pos (ns + nanos_in_day * days))
IsLong-late days ns a b = (omega arith, omega arith)

IsLong-early :
    (g ns : ℕ) → g < 106751 → ns < nanos_in_day → IsLong (negsuc (nanos_in_day * (g + 1) - ns - 1))
IsLong-early g ns a b = (omega arith, omega arith)

day_late : (y m d : ℕ) → IsDate y m d → y < 2292 → day_number y m d - days_since_0ad < 106751
day_late y m d h bound = omega (arith, before_2292 y m d h bound)

day_early : (y m d : ℕ) → IsDate y m d → 1708 ≤ y → days_since_0ad - day_number y m d - 1 < 106751
day_early y m d h bound = omega (arith, from_1708 y m d h bound)

late_lem :
    (y m d : ℕ)
    → IsDate y m d
    → 2000 ≤ y
    → get_days (pos y) (pos m) (pos d) ≡ pos (day_number y m d - days_since_0ad)
late_lem y m d h late =
    get_days_lem y m d h ∙ pos_sub (day_number y m d) days_since_0ad (from_2000 y m d h late)

-- For a date of the years 2000 to 2291 and a time of day, the timestamp that `getUTC` gives is one of
-- an int64_t, and the date and the time that `toDateNotation` and `toTimeNotation` print for it are
-- that date and time.
pub timestamp-get_utc :
    (y m d hour minute second nano : ℕ)
    → IsDate y m d
    → IsTime hour minute second nano
    → 2000 ≤ y
    → y < 2292
    → IsLong (get_utc (ymd y m d) (hmsn hour minute second nano))
      × (timestamp_date (get_utc (ymd y m d) (hmsn hour minute second nano)) ≡ ymd y m d)
      × (timestamp_time (get_utc (ymd y m d) (hmsn hour minute second nano))
          ≡ hmsn hour minute second nano)
unfolding timestamp_date quot scale
timestamp-get_utc y m d hour minute second nano h t late bound =
    let days : ℕ = day_number y m d - days_since_0ad in
    let ns : ℕ = nanos_of hour minute second nano in
    let stamp : get_utc (ymd y m d) (hmsn hour minute second nano)
        ≡ pos (ns + nanos_in_day * days) =
      get_utc_lem y m d hour minute second nano
      ∙ ap (λ z. pos ns +ℤ scale nanos_in_day z) (late_lem y m d h late)
      ∙ pos_add ns (nanos_in_day * days) in
    (
      subst IsLong (sym stamp)
          (IsLong-late days ns (day_late y m d h bound) (in_day hour minute second nano t)),
      ap timestamp_date stamp
          ∙ ap (λ k. date_fields (pos k)) (whole ns days (in_day hour minute second nano t))
          ∙ ap date_fields (sym (late_lem y m d h late))
          ∙ date_fields-get_days y m d h,
      ap timestamp_time stamp ∙ time_lem hour minute second nano days t,
    )
  where
    whole : (a b : ℕ) → a < nanos_in_day → (a + nanos_in_day * b) / nanos_in_day ≡ b
    whole a b r = omega arith

below : (a b : ℕ) → a < b → pos a -ℤ pos b ≡ negsuc (b - a - 1)
unfolding ◌-ℤ◌
below a b r = ground arith

early_lem :
    (y m d : ℕ)
    → IsDate y m d
    → y < 2000
    → get_days (pos y) (pos m) (pos d) ≡ negsuc (days_since_0ad - day_number y m d - 1)
early_lem y m d h early =
    get_days_lem y m d h ∙ below (day_number y m d) days_since_0ad (before_2000 y m d h early)

-- The timestamp of a time `t` after midnight, `g + 1` days before 2000.01.01.
before_lem :
    (t g : ℕ)
    → 0 < t
    → t < nanos_in_day
    → pos t +ℤ neg (nanos_in_day * (g + 1)) ≡ negsuc (nanos_in_day * (g + 1) - t - 1)
unfolding ◌+ℤ◌
before_lem t g a b = ground arith

next : (g : ℕ) → negsuc g +ℤ pos 1 ≡ neg g
unfolding ◌+ℤ◌
next g = ground arith

-- For a date of the years 1708 to 1999 and a time after midnight, the timestamp that `getUTC` gives is
-- one of an int64_t, and the date that `toDateNotation` prints for it is that of the day after.
pub timestamp_date-before_2000 :
    (y m d hour minute second nano : ℕ)
    → IsDate y m d
    → IsTime hour minute second nano
    → 1708 ≤ y
    → y < 2000
    → 0 < nanos_of hour minute second nano
    → IsLong (get_utc (ymd y m d) (hmsn hour minute second nano))
      × (timestamp_date (get_utc (ymd y m d) (hmsn hour minute second nano))
          ≡ date_fields (get_days (pos y) (pos m) (pos d) +ℤ pos 1))
unfolding timestamp_date quot scale
timestamp_date-before_2000 y m d hour minute second nano h t bound early some_time =
    let g : ℕ = days_since_0ad - day_number y m d - 1 in
    let ns : ℕ = nanos_of hour minute second nano in
    let day = in_day hour minute second nano t in
    let stamp : get_utc (ymd y m d) (hmsn hour minute second nano)
        ≡ negsuc (nanos_in_day * (g + 1) - ns - 1) =
      get_utc_lem y m d hour minute second nano
      ∙ ap (λ z. pos ns +ℤ scale nanos_in_day z) (early_lem y m d h early)
      ∙ before_lem ns g some_time day in
    (
      subst IsLong (sym stamp) (IsLong-early g ns (day_early y m d h bound) day),
      ap timestamp_date stamp
          ∙ ap (λ k. date_fields (neg k)) (whole ns g some_time day)
          ∙ ap date_fields (sym (next g))
          ∙ ap (λ z. date_fields (z +ℤ pos 1)) (sym (early_lem y m d h early)),
    )
  where
    whole :
        (a g : ℕ)
        → 0 < a
        → a < nanos_in_day
        → (nanos_in_day * (g + 1) - a - 1 + 1) / nanos_in_day ≡ g
    whole a g p r = omega arith
