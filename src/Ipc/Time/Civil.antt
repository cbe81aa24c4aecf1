-- ===== src/Ipc/Time/Civil.antt =====
-- The calendar behind `Date::getDays` and `Date::format_to` (ipc++/src/KdbType.C).
use mgkdb.Prelude.{
  ℕ, ◌+◌, ◌-◌, ◌*◌, ◌/◌, ◌%◌, ◌≤◌, ◌<◌, ◌≡◌, sym, ap, ◌∙◌, inl, inr, Bool, Bool-cases, false, ◌==◌,
  ==_iff, if◌then◌else◌, arith,
}
use mathlib.Core.Path.{subst}
use mgkdb.Prelude.Int.{ℤ, pos, ◌+ℤ◌, is_nonneg}
use mgkdb.Ipc.Time.{
  ◌-ℤ◌, scale, quot, rem, days_since_0ad, days_before, get_days, Ymd, in_year, in_year_of,
  date_fields,
}
use mgkdb.Ipc.Time.Calendar.{
  base, estimate_lower, estimate_upper, month_lem, IsDate, march_month, march_year, days_off,
  month_room, room,
}

pub pos_add : (a b : ℕ) → pos a +ℤ pos b ≡ pos (a + b)
unfolding ◌+ℤ◌
pos_add a b = ground arith

pub pos_sub : (a b : ℕ) → b ≤ a → pos a -ℤ pos b ≡ pos (a - b)
unfolding ◌-ℤ◌
pos_sub a b h = ground arith

below_zero : (a b : ℕ) → a < b → is_nonneg (pos a -ℤ pos b) ≡ false
unfolding ◌-ℤ◌
below_zero a b h = ground arith

pub back : (a c : ℕ) → pos c +ℤ (pos a -ℤ pos c) ≡ pos a
unfolding ◌-ℤ◌ ◌+ℤ◌
back a c = ground arith

days_before_lem : (n : ℕ) → days_before (pos n) ≡ pos (base n)
unfolding days_before scale quot
days_before_lem n =
    ap (λ z. z -ℤ pos (n / 100) +ℤ pos (n / 400)) (pos_add (365 * n) (n / 4))
    ∙ ap (λ z. z +ℤ pos (n / 400)) (pos_sub (365 * n + n / 4) (n / 100) (omega arith))
    ∙ pos_add (365 * n + n / 4 - n / 100) (n / 400)

pub get_days_lem :
    (y m d : ℕ)
    → IsDate y m d
    → get_days (pos y) (pos m) (pos d)
      ≡ pos (base (march_year y m) + days_off m d) -ℤ pos days_since_0ad
unfolding get_days scale quot rem days_off
get_days_lem y m d h =
    let n : ℕ = march_year y m in
    let f : ℕ = (306 * march_month m + 5) / 10 in
    let tail = λ (year : ℤ) (month : ℤ).
      days_before year
      +ℤ quot (scale 306 month +ℤ pos 5) 10
      +ℤ (pos d -ℤ pos 1)
      -ℤ pos days_since_0ad in
    ap (λ z. tail (pos y -ℤ quot (rem z 12) 10) (rem z 12)) (pos_add m 9)
    ∙ ap (λ z. tail z (pos (march_month m)))
        (pos_sub y (march_month m / 10) (omega (arith, h.years)))
    ∙ ap
        (λ z.
          z
          +ℤ quot (pos (306 * march_month m) +ℤ pos 5) 10
          +ℤ (pos d -ℤ pos 1)
          -ℤ pos days_since_0ad)
        (days_before_lem n)
    ∙ ap (λ z. pos (base n) +ℤ quot z 10 +ℤ (pos d -ℤ pos 1) -ℤ pos days_since_0ad)
        (pos_add (306 * march_month m) 5)
    ∙ ap (λ z. pos (base n) +ℤ pos f +ℤ z -ℤ pos days_since_0ad) (pos_sub d 1 h.first_day)
    ∙ ap (λ z. z +ℤ pos (d - 1) -ℤ pos days_since_0ad) (pos_add (base n) f)
    ∙ ap (λ z. z -ℤ pos days_since_0ad) (pos_add (base n + f) (d - 1))
    ∙ ap (λ z. pos z -ℤ pos days_since_0ad) (add_assoc' (base n) f (d - 1))
  where
    add_assoc' : (a b c : ℕ) → a + b + c ≡ a + (b + c)
    add_assoc' a b c = omega arith

abbrev ymd : ℕ → ℕ → ℕ → Ymd
ymd y m d = record { y = pos y; mm = pos m; dd = pos d }

abbrev of_parts : ℤ → ℤ → ℤ → Ymd
of_parts a b c = record { y = a; mm = b; dd = c }

-- The fields, from the month that begins in March.
abbrev fields_of : ℤ → ℤ → ℤ → Ymd
fields_of year off mi =
    of_parts (year +ℤ quot (mi +ℤ pos 2) 12) (rem (mi +ℤ pos 2) 12 +ℤ pos 1)
      (off -ℤ quot (scale 306 mi +ℤ pos 5) 10 +ℤ pos 1)

fields_lem :
    (n k a : ℕ)
    → fields_of (pos n) (pos ((306 * k + 5) / 10 + a)) (pos k)
      ≡ of_parts (pos (n + (k + 2) / 12)) (pos ((k + 2) % 12 + 1)) (pos (a + 1))
unfolding scale quot rem
fields_lem n k a =
    let f : ℕ = (306 * k + 5) / 10 in
    ap
      (λ z.
        of_parts (pos n +ℤ quot z 12) (rem z 12 +ℤ pos 1)
          (pos (f + a) -ℤ quot (pos (306 * k) +ℤ pos 5) 10 +ℤ pos 1))
      (pos_add k 2)
    ∙ ap
        (λ z.
          of_parts (pos n +ℤ pos ((k + 2) / 12)) (pos ((k + 2) % 12) +ℤ pos 1)
            (pos (f + a) -ℤ quot z 10 +ℤ pos 1))
        (pos_add (306 * k) 5)
    ∙ ap (λ z. of_parts z (pos ((k + 2) % 12) +ℤ pos 1) (pos (f + a) -ℤ pos f +ℤ pos 1))
        (pos_add n ((k + 2) / 12))
    ∙ ap (λ z. of_parts (pos (n + (k + 2) / 12)) z (pos (f + a) -ℤ pos f +ℤ pos 1))
        (pos_add ((k + 2) % 12) 1)
    ∙ ap (λ z. of_parts (pos (n + (k + 2) / 12)) (pos ((k + 2) % 12 + 1)) (z +ℤ pos 1))
        (pos_sub (f + a) f (omega arith))
    ∙ ap (λ z. of_parts (pos (n + (k + 2) / 12)) (pos ((k + 2) % 12 + 1)) z) (pos_add (f + a - f) 1)
    ∙ ap (λ z. of_parts (pos (n + (k + 2) / 12)) (pos ((k + 2) % 12 + 1)) (pos z)) (omega arith)

in_year_lem :
    (y m d : ℕ) → IsDate y m d → in_year (pos (march_year y m)) (pos (days_off m d)) ≡ ymd y m d
unfolding in_year scale quot days_off
in_year_lem y m d h =
    let k : ℕ = march_month m in
    let off : ℕ = (306 * k + 5) / 10 + (d - 1) in
    let months : k < 12 = omega arith in
    let year : march_year y m + (k + 2) / 12 ≡ y =
      omega (arith, h.years, h.first_month, h.last_month) in
    let month : (k + 2) % 12 + 1 ≡ m = omega (arith, h.first_month, h.last_month) in
    let day : d - 1 + 1 ≡ d = omega (arith, h.first_day) in
    ap (λ z. fields_of (pos (march_year y m)) (pos off) (quot z 3060)) (pos_add (100 * off) 52)
    ∙ ap (λ z. fields_of (pos (march_year y m)) (pos off) (pos z))
        (month_lem k (d - 1) months (month_room y m d h))
    ∙ fields_lem (march_year y m) k (d - 1)
    ∙ ap (λ z. of_parts (pos z) (pos ((k + 2) % 12 + 1)) (pos (d - 1 + 1))) year
    ∙ ap (λ z. of_parts (pos y) (pos z) (pos (d - 1 + 1))) month
    ∙ ap (λ z. of_parts (pos y) (pos m) (pos z)) day

abbrev branch : ℤ → ℤ → ℤ → Ymd
branch g y ddd =
    if is_nonneg ddd then in_year y ddd else in_year (y -ℤ pos 1) (g -ℤ days_before (y -ℤ pos 1))

in_year_of_lem :
    (n off q : ℕ)
    → base n + off < base (n + 1)
    → n ≤ q
    → q ≤ n + 1
    → in_year_of (pos (base n + off)) (pos q) ≡ in_year (pos n) (pos off)
unfolding in_year_of
in_year_of_lem n off q r a b =
    let g : ℤ = pos (base n + off) in
    let this : g -ℤ pos (base n) ≡ pos off =
      pos_sub (base n + off) (base n) (omega arith) ∙ ap pos (omega arith) in
    elim (Bool-cases (q == n)) [
      | inl e ↦
          subst (λ k. in_year_of g (pos k) ≡ in_year (pos n) (pos off)) (sym ((==_iff q n).0 e))
            (ap (λ z. branch g (pos n) (g -ℤ z)) (days_before_lem n) ∙ ap (branch g (pos n)) this)
      | inr e ↦
          let next : q ≡ n + 1 = ground arith in
          let down : pos (n + 1) -ℤ pos 1 ≡ pos n =
            pos_sub (n + 1) 1 (omega arith) ∙ ap pos (omega arith) in
          subst (λ k. in_year_of g (pos k) ≡ in_year (pos n) (pos off)) (sym next)
            (ap (λ z. branch g (pos (n + 1)) (g -ℤ z)) (days_before_lem (n + 1))
              ∙ ap
                  (λ (b : Bool).
                    if b
                    then in_year (pos (n + 1)) (g -ℤ pos (base (n + 1)))
                    else in_year (pos (n + 1) -ℤ pos 1) (g -ℤ days_before (pos (n + 1) -ℤ pos 1)))
                  (below_zero (base n + off) (base (n + 1)) r)
              ∙ ap (λ z. in_year z (g -ℤ days_before z)) down
              ∙ ap (λ z. in_year (pos n) (g -ℤ z)) (days_before_lem n)
              ∙ ap (in_year (pos n)) this)
    ]

-- The date that `Date::format_to` prints for the number that `Date::getDays` gives for a date of
-- the calendar from the year 1 on is that date.
pub date_fields-get_days :
    (y m d : ℕ)
    → IsDate y m d
    → date_fields (get_days (pos y) (pos m) (pos d)) ≡ record { y = pos y; mm = pos m; dd = pos d }
unfolding date_fields scale quot
date_fields-get_days y m d h =
    let n : ℕ = march_year y m in
    let off : ℕ = days_off m d in
    let guess = λ (g : ℤ). in_year_of g (quot (scale 10000 g +ℤ pos 14780) 3652425) in
    ap date_fields (get_days_lem y m d h)
    ∙ ap guess (back (base n + off) days_since_0ad)
    ∙ ap (λ z. in_year_of (pos (base n + off)) (quot z 3652425))
        (pos_add (10000 * (base n + off)) 14780)
    ∙ in_year_of_lem n off ((10000 * (base n + off) + 14780) / 3652425) (room y m d h)
        (estimate_lower n off) (estimate_upper n off (room y m d h))
    ∙ in_year_lem y m d h
