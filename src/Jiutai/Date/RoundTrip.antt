-- ===== src/Jiutai/Date/RoundTrip.antt =====
-- jiutai/jf_date.c: dates from 1970 on and their day numbers, each from the other.
use jiufeng.Prelude.{
  ℕ, zero, suc, ◌+◌, ◌-◌, ◌*◌, ◌^◌, ◌≤◌, ◌<◌, ◌≡◌, ◌∙◌, ap, true, false, some, arith, if◌then◌else◌,
}
use jiufeng.Prelude.Int.{ℤ, pos, ◌-ℤ◌, ◌+ℤ◌, int_laws, ltb_ℤ}
use jiufeng.Jiutai.Date.{
  is_leap_year, get_days_of_month, get_days_of_year, days_in_month, add_years,
  convert_date_to_days_from_1970, take_years, convert_days_from_1970_to_date,
}
use jiufeng.Jiutai.Date.Years.{
  month_sum, month_sum_le, tables_agree, days_in_month_lem, add_years-zero, find_month_hit,
}

-- A date from 1970 on, of a year up to which day numbers fit an `olint_t`, a signed 32-bit integer.
pub record IsDate (year mon day : ℕ) : Type 0 where
  pub since : 1970 ≤ year
  pub in_range : year < 5869000
  pub month_from : 1 ≤ mon
  pub month_to : mon ≤ 12
  pub day_from : 1 ≤ day
  pub day_to : day ≤ get_days_of_month year mon

pub days_lem :
    (year mon day : ℕ)
    → mon ≤ 12
    → convert_date_to_days_from_1970 year mon day
      ≡ add_years (year - 1970) 1970 0 + (month_sum year mon + day)
unfolding convert_date_to_days_from_1970
days_lem year mon day h =
    ap (add_years (year - 1970) 1970) (tables_agree (is_leap_year year) mon day h)
    ∙ add_years-zero (year - 1970) 1970 (month_sum year mon + day)

get_days_of_year_pos : (y : ℕ) → 0 < get_days_of_year y
unfolding get_days_of_year
get_days_of_year_pos y = ground arith

add_years-suc :
    (k y r : ℕ) → add_years (suc k) y 0 + r ≡ get_days_of_year y + (add_years k (y + 1) 0 + r)
unfolding add_years
add_years-suc k y r = omega (arith, add_years-zero k (y + 1) (0 + get_days_of_year y))

add_years-ge : (k y : ℕ) → k ≤ add_years k y 0
add_years-ge zero y = omega arith
add_years-ge (suc k) y =
    omega (arith, add_years-suc k y 0, add_years-ge k (y + 1), get_days_of_year_pos y)

add_years-le : (k y : ℕ) → add_years k y 0 ≤ 366 * k
unfolding get_days_of_year
add_years-le zero y = unfold add_years in omega arith
add_years-le (suc k) y = ground (arith, add_years-suc k y 0, add_years-le k (y + 1))

-- Day numbers do not overflow, nor do the sums that the loops make on the way, which only grow.
days_small :
    (year mon day : ℕ) → IsDate year mon day → convert_date_to_days_from_1970 year mon day < 2 ^ 31
unfolding get_days_of_year
days_small year mon day v =
    let sum = month_sum_le year mon day v.month_from v.month_to v.day_to in
    let years = add_years-le (year - 1970) 1970 in
    let range = v.in_range in ground (arith, days_lem year mon day v.month_to, sum, years, range)

take_away : (a b : ℕ) → pos (a + b) -ℤ pos a ≡ pos b
take_away a b = omega int_laws

not_above : (a b : ℕ) → a ≤ b → ltb_ℤ (pos 0) (pos a -ℤ pos b) ≡ false
unfolding ◌-ℤ◌
not_above a b h = ground arith

take_years_stop :
    (fuel : ℕ) (ret : ℤ) (y : ℕ)
    → ltb_ℤ (pos 0) ret ≡ false
    → take_years (suc fuel) ret y ≡ some (y, ret)
unfolding take_years
take_years_stop fuel ret y h = rw h

take_years_positive :
    (fuel n y : ℕ)
    → 0 < n
    → let ret = pos n -ℤ pos (get_days_of_year y) in
      take_years (suc fuel) (pos n) y ≡ take_years fuel ret (if ltb_ℤ (pos 0) ret then y + 1 else y)
unfolding take_years
take_years_positive fuel n y h = let e : ltb_ℤ (pos 0) (pos n) ≡ true = ground arith in rw e

take_years_last :
    (fuel n y : ℕ)
    → 0 < n
    → n ≤ get_days_of_year y
    → take_years (suc (suc fuel)) (pos n) y ≡ some (y, pos n -ℤ pos (get_days_of_year y))
take_years_last fuel n y h k =
    let stop = not_above n (get_days_of_year y) k in
    rw (take_years_positive (suc fuel) n y h, stop) (take_years_stop fuel _ y stop)

take_years_next :
    (fuel n y : ℕ)
    → 0 < n
    → take_years (suc fuel) (pos (get_days_of_year y + n)) y ≡ take_years fuel (pos n) (y + 1)
take_years_next fuel n y h =
    let e : ltb_ℤ (pos 0) (pos n) ≡ true = ground arith in
    rw (take_years_positive fuel (get_days_of_year y + n) y (omega arith), take_away _ n, e)

-- The loop over the years stops in the year that day `r` of it falls in.
take_years_lem :
    (k fuel y r : ℕ)
    → k + 1 < fuel
    → 0 < r
    → r ≤ get_days_of_year (y + k)
    → take_years fuel (pos (add_years k y 0 + r)) y
      ≡ some (y + k, pos r -ℤ pos (get_days_of_year (y + k)))
take_years_lem k zero y r f p q = absurd (omega arith)
take_years_lem k (suc zero) y r f p q = absurd (omega arith)
take_years_lem zero (suc (suc fuel)) y r f p q =
    let e : y + 0 ≡ y = omega arith in
    let g : 0 + r ≡ r = omega arith in
    unfold add_years in rw (e, g) (take_years_last fuel r y p (rw e at q))
take_years_lem (suc k) (suc (suc fuel)) y r f p q =
    let e : y + suc k ≡ y + 1 + k = omega arith in
    rw (add_years-suc k y r, e)
      (take_years_next (suc fuel) (add_years k (y + 1) 0 + r) y (omega arith)
        ∙ take_years_lem k (suc fuel) (y + 1) r (omega arith) p (rw e at q))

add_back : (a b : ℕ) → pos a -ℤ pos b +ℤ pos b ≡ pos a
add_back a b = omega int_laws

convert_lem :
    (n y mon day : ℕ)
    → take_years (n + 1) (pos n) 1970
      ≡ some (y, pos (month_sum y mon + day) -ℤ pos (get_days_of_year y))
    → 1 ≤ mon
    → mon ≤ 12
    → 1 ≤ day
    → day ≤ get_days_of_month y mon
    → convert_days_from_1970_to_date (pos n) ≡ some (y, mon, pos day)
unfolding convert_days_from_1970_to_date
convert_lem n y mon day h p q r s =
    let found =
      find_month_hit (days_in_month (is_leap_year y)) (mon - 1) 12 0 0 day (omega arith) r in
    let e : suc (mon - 1) ≡ mon = omega arith in
    let f : 0 + (mon - 1) + 1 ≡ mon = omega arith in
    let hit = rw (e, f) at (found (rw f (rw (days_in_month_lem y mon p q) at s))) in
    rw (
      h,
      convert_days_from_1970_to_date,
      add_back (month_sum y mon + day) (get_days_of_year y),
      hit,
    )

-- The day number of a date from 1970 up to the year 5868999 fits an `olint_t` and is converted back to
-- that date.
pub convert_days-convert_date :
    (year mon day : ℕ)
    → IsDate year mon day
    → (convert_date_to_days_from_1970 year mon day < 2 ^ 31)
      × (convert_days_from_1970_to_date (pos (convert_date_to_days_from_1970 year mon day))
          ≡ some (year, mon, pos day))
convert_days-convert_date year mon day v =
    let e : 1970 + (year - 1970) ≡ year = omega arith in
    let r = month_sum year mon + day in
    let n = add_years (year - 1970) 1970 0 + r in
    let years =
      take_years_lem (year - 1970) (n + 1) 1970 r (omega (arith, add_years-ge (year - 1970) 1970))
        (omega arith) (rw e (month_sum_le year mon day v.month_from v.month_to v.day_to)) in
    (
      days_small year mon day v,
      rw (days_lem year mon day v.month_to)
          (convert_lem n year mon day (rw e at years) v.month_from v.month_to v.day_from v.day_to),
    )
