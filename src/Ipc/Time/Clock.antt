-- ===== src/Ipc/Time/Clock.antt =====
-- The fields of times and months that ipc++/src/KdbType.C prints.
use mgkdb.Prelude.{ℕ, ◌+◌, ◌*◌, ◌/◌, ◌%◌, ◌<◌, ◌≡◌, ap, ◌∙◌, arith}
use mgkdb.Prelude.Int.{ℤ, pos, ◌+ℤ◌}
use mgkdb.Ipc.Time.{
  ◌-ℤ◌, scale, quot, rem, millis_in_second, millis_in_minute, millis_in_hour, second_fields,
  time_fields, month_fields,
}
use mgkdb.Ipc.Time.Civil.{pos_add, pos_sub}

-- What is left of `k * q + r`, as the source takes it away.
left_lem : (k q r : ℕ) → pos (k * q + r) -ℤ scale k (pos q) ≡ pos r
unfolding scale
left_lem k q r = pos_sub (k * q + r) (k * q) (omega arith) ∙ ap pos (omega arith)

-- A number of seconds is printed as its hours, minutes and seconds.
second_fields_lem :
    (hour minute second : ℕ)
    → minute < 60
    → second < 60
    → second_fields (pos (3600 * hour + (60 * minute + second)))
      ≡ (pos hour, pos minute, pos second)
unfolding second_fields quot
second_fields_lem hour minute second a b =
    let whole : (3600 * hour + (60 * minute + second)) / 3600 ≡ hour = omega arith in
    let part : (60 * minute + second) / 60 ≡ minute = omega arith in
    let secs : ℤ = pos (3600 * hour + (60 * minute + second)) in
    ap
      (λ k. (
        pos k,
        quot (secs -ℤ scale 3600 (pos k)) 60,
        secs -ℤ scale 3600 (pos k) -ℤ scale 60 (quot (secs -ℤ scale 3600 (pos k)) 60),
      ))
      whole
    ∙ ap (λ z. (pos hour, quot z 60, z -ℤ scale 60 (quot z 60)))
        (left_lem 3600 hour (60 * minute + second))
    ∙ ap (λ k. (pos hour, pos k, pos (60 * minute + second) -ℤ scale 60 (pos k))) part
    ∙ ap (λ z. (pos hour, pos minute, z)) (left_lem 60 minute second)

-- A number of milliseconds is printed as its hours, minutes, seconds and milliseconds.
time_fields_lem :
    (hour minute second milli : ℕ)
    → minute < 60
    → second < 60
    → milli < 1000
    → time_fields (
        pos (
          millis_in_hour * hour
          + (millis_in_minute * minute + (millis_in_second * second + milli))))
      ≡ (pos hour, pos minute, pos second, pos milli)
unfolding time_fields quot
time_fields_lem hour minute second milli a b c =
    let rest : ℕ = millis_in_second * second + milli in
    let after : ℕ = millis_in_minute * minute + rest in
    let time : ℤ = pos (millis_in_hour * hour + after) in
    let whole : (millis_in_hour * hour + after) / millis_in_hour ≡ hour = omega arith in
    let part : after / millis_in_minute ≡ minute = omega arith in
    let last : rest / millis_in_second ≡ second = omega arith in
    let fields : ℤ → ℤ → ℤ → ℤ → ℤ × ℤ × ℤ × ℤ = λ a b c d. (a, b, c, d) in
    let from_secs : ℤ → ℤ → ℤ → ℤ × ℤ × ℤ × ℤ =
      λ b z c. fields (pos hour) b c (z -ℤ scale millis_in_second c) in
    let from_mins : ℤ → ℤ → ℤ × ℤ × ℤ × ℤ = λ z b.
      let left = z -ℤ scale millis_in_minute b in from_secs b left (quot left millis_in_second) in
    let from_hours : ℤ → ℤ × ℤ × ℤ × ℤ = λ a.
      let left = time -ℤ scale millis_in_hour a in
      let b = quot left millis_in_minute in
      let left1 = left -ℤ scale millis_in_minute b in
      let c = quot left1 millis_in_second in fields a b c (left1 -ℤ scale millis_in_second c) in
    ap (λ k. from_hours (pos k)) whole
    ∙ ap (λ z. from_mins z (quot z millis_in_minute)) (left_lem millis_in_hour hour after)
    ∙ ap (λ k. from_mins (pos after) (pos k)) part
    ∙ ap (λ z. from_secs (pos minute) z (quot z millis_in_second))
        (left_lem millis_in_minute minute rest)
    ∙ ap (λ k. from_secs (pos minute) (pos rest) (pos k)) last
    ∙ ap (fields (pos hour) (pos minute) (pos second)) (left_lem millis_in_second second milli)

-- The number of months since January 2000 is printed as its year and month.
month_fields_lem :
    (year month : ℕ)
    → month < 12
    → month_fields (pos (12 * year + month)) ≡ (pos (2000 + year), pos (month + 1))
unfolding month_fields quot rem
month_fields_lem year month a =
    let whole : (12 * year + month) / 12 ≡ year = omega arith in
    let part : (12 * year + month) % 12 ≡ month = omega arith in
    ap (λ k. (pos 2000 +ℤ pos k, pos ((12 * year + month) % 12) +ℤ pos 1)) whole
    ∙ ap (λ k. (pos 2000 +ℤ pos year, pos k +ℤ pos 1)) part
    ∙ ap (λ z. (z, pos month +ℤ pos 1)) (pos_add 2000 year)
    ∙ ap (λ z. (pos (2000 + year), z)) (pos_add month 1)
