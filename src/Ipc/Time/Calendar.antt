-- ===== src/Ipc/Time/Calendar.antt =====
-- The calendar behind `Date::getDays` and `Date::format_to` (ipc++/src/KdbType.C), on natural
-- numbers.
use mgkdb.Prelude.{
  ℕ, ◌+◌, ◌-◌, ◌*◌, ◌/◌, ◌%◌, ◌≤◌, ◌<◌, ◌≡◌, sym, ap, inl, inr, Bool, Bool-cases, true, false, ◌||◌,
  ◌==◌, ==_iff, if◌then◌else◌, ltb, arith,
}
use mathlib.Core.Path.{subst}

-- The days before a year that begins in March.
abbrev pub base : ℕ → ℕ
base n = 365 * n + n / 4 - n / 100 + n / 400

pub estimate_lower : (n off : ℕ) → n ≤ (10000 * (base n + off) + 14780) / 3652425
estimate_lower n off = omega arith

pub estimate_upper :
    (n off : ℕ) → base n + off < base (n + 1) → (10000 * (base n + off) + 14780) / 3652425 ≤ n + 1
estimate_upper n off h = omega arith

-- A month that begins in March, and the days before it.
pub month_lem :
    (m d : ℕ)
    → m < 12
    → d < (306 * (m + 1) + 5) / 10 - (306 * m + 5) / 10
    → (100 * ((306 * m + 5) / 10 + d) + 52) / 3060 ≡ m
month_lem m d p q = omega arith

-- The calendar: `y` is a leap year, and the days of a month.
abbrev pub is_leap : ℕ → Bool
is_leap y = if y % 100 == 0 then y % 400 == 0 else y % 4 == 0

abbrev pub month_days : ℕ → ℕ → ℕ
month_days y m =
    if m == 2
    then (if is_leap y then 29 else 28)
    else if m == 4 || m == 6 || m == 9 || m == 11
    then 30
    else 31

-- A date from the year 1 on.
pub record IsDate (y m d : ℕ) : Type 0 where
  pub years : 1 ≤ y
  pub first_month : 1 ≤ m
  pub last_month : m ≤ 12
  pub first_day : 1 ≤ d
  pub last_day : d ≤ month_days y m

-- The month and the year that begin in March.
abbrev pub march_month : ℕ → ℕ
march_month m = (m + 9) % 12

abbrev pub march_year : ℕ → ℕ → ℕ
march_year y m = y - march_month m / 10

unfoldable pub days_off : ℕ → ℕ → ℕ
days_off m d = (306 * march_month m + 5) / 10 + (d - 1)

pub month_room :
    (y m d : ℕ)
    → IsDate y m d
    → d - 1 < (306 * (march_month m + 1) + 5) / 10 - (306 * march_month m + 5) / 10
month_room y m d h = ground arith

leap_room : (y : ℕ) → 1 ≤ y → is_leap y ≡ true → base y ≡ base (y - 1) + 366
leap_room y h l = ground arith

year_room : (y : ℕ) → 1 ≤ y → base (y - 1) + 365 ≤ base y
year_room y h = omega arith

feb_room : (y d : ℕ) → IsDate y 2 d → base (y - 1) + (337 + (d - 1)) < base y
feb_room y d h = elim (Bool-cases (is_leap y)) [
  | inl leap ↦ ground (arith, leap_room y h.years leap, h.last_day)
  | inr n ↦
      let short : d ≤ 28 = rw n at h.last_day in
      omega (arith, year_room y h.years, short, h.first_day)
]

off_short :
    (y m d : ℕ) → IsDate y m d → (m == 2) ≡ false → (306 * march_month m + 5) / 10 + (d - 1) < 365
off_short y m d h n =
    let early : march_month m ≤ 10 = ground (arith, h.first_month, h.last_month) in
    omega (arith, month_room y m d h, early)

year_after : (n off : ℕ) → off < 365 → base n + off < base (n + 1)
year_after n off h = omega arith

pub room :
    (y m d : ℕ) → IsDate y m d → base (march_year y m) + days_off m d < base (march_year y m + 1)
unfolding days_off
room y m d h = elim (Bool-cases (m == 2)) [
  | inl feb ↦
      let e : m ≡ 2 = (==_iff m 2).0 feb in
      let march : march_month m ≡ 11 = omega arith in
      let year : march_year y m ≡ y - 1 = omega arith in
      let here : y - 1 + 1 ≡ y = omega (arith, h.years) in
      subst (λ k. base (y - k / 10) + ((306 * k + 5) / 10 + (d - 1)) < base (y - k / 10 + 1))
        (sym march)
        (subst (λ k. base (y - 1) + (337 + (d - 1)) < base k) (sym here)
          (feb_room y d (subst (λ k. IsDate y k d) e h)))
  | inr n ↦
      year_after (march_year y m) ((306 * march_month m + 5) / 10 + (d - 1)) (off_short y m d h n)
]

abbrev pub day_number : ℕ → ℕ → ℕ → ℕ
day_number y m d = base (march_year y m) + days_off m d

pub from_2000 : (y m d : ℕ) → IsDate y m d → 2000 ≤ y → 730425 ≤ day_number y m d
unfolding days_off
from_2000 y m d h late = omega (arith, h.first_month, h.last_month, late)

base_early : (n : ℕ) → n < 1999 → base (n + 1) ≤ 730119
base_early n h = omega arith

spring_1999 :
    (y m d : ℕ) → IsDate y m d → y < 2000 → 1999 ≤ march_year y m → day_number y m d < 730425
unfolding days_off
spring_1999 y m d h early late =
    let year : y ≡ 1999 = omega arith in
    let k : march_month m ≤ 9 = omega (arith, h.first_month, h.last_month) in
    let n : march_year y m ≡ 1999 = omega arith in omega (arith, month_room y m d h, ap base n)

pub before_2000 : (y m d : ℕ) → IsDate y m d → y < 2000 → day_number y m d < 730425
before_2000 y m d h early = elim (Bool-cases (ltb (march_year y m) 1999)) [
  | inl l ↦
      let n : march_year y m < 1999 = ground arith in
      omega (arith, room y m d h, base_early (march_year y m) n)
  | inr l ↦ spring_1999 y m d h early (ground arith)
]

base_mono : (a b : ℕ) → a ≤ b → base a ≤ base b
base_mono a b h = omega arith

pub before_2292 : (y m d : ℕ) → IsDate y m d → y < 2292 → day_number y m d < 730425 + 106751
before_2292 y m d h bound =
    let n : march_year y m + 1 ≤ 2292 = omega arith in
    let top : base (march_year y m + 1) ≤ base 2292 = base_mono (march_year y m + 1) 2292 n in
    omega (arith, room y m d h, top)

pub from_1708 : (y m d : ℕ) → IsDate y m d → 1708 ≤ y → 730425 ≤ day_number y m d + 106751
unfolding days_off
from_1708 y m d h bound =
    let n : 1707 ≤ march_year y m = omega (arith, h.first_month, h.last_month) in
    omega (arith, base_mono 1707 (march_year y m) n)
