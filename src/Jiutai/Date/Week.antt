-- ===== src/Jiutai/Date/Week.antt =====
-- jiutai/jf_date.c: the formula for the day of the week against the count of days.
use jiufeng.Prelude.{ℕ, suc, ◌+◌, ◌-◌, ◌*◌, ◌/◌, ◌%◌, ◌≤◌, ◌≡◌, refl, if◌then◌else◌, arith}
use jiufeng.Prelude.Int.{ℤ, pos, negsuc, ◌-ℤ◌, ◌+ℤ◌, int_laws, ltb_ℤ, pos_part, neg_part}
use jiufeng.Jiutai.Date.{
  get_days_of_year, add_months, convert_date_to_days_from_1970, rem_seven,
  get_day_of_week_from_date,
}
use jiufeng.Jiutai.Date.Years.{leaps, month_sum, by_months, add_years_closed, get_days_of_year_lem}
use jiufeng.Jiutai.Date.RoundTrip.{IsDate, days_lem}

-- `w % 7`, with 7 added if it is negative, is the residue of `w`.
residue :
    (w : ℤ) (a b c : ℕ)
    → pos_part w + 7 * a ≡ neg_part w + b + 7 * c
    → (let w' = rem_seven w in if ltb_ℤ w' (pos 0) then w' +ℤ pos 7 else w') ≡ pos (b % 7)
unfolding rem_seven ◌-ℤ◌ ◌+ℤ◌
residue (pos n) a b c h = ground arith
residue (negsuc n) a b c h = ground arith

-- The days from 1970 of a date, by leap years.
days_closed :
    (year mon day : ℕ)
    → IsDate year mon day
    → convert_date_to_days_from_1970 year mon day + 365 * 1970 + 477
      ≡ 365 * year + leaps (year - 1) + (month_sum year mon + day)
unfolding leaps
days_closed year mon day v =
    let e : 1969 + (year - 1970) ≡ year - 1 = omega arith in
    omega (arith, days_lem year mon day v.month_to, rw e at (add_years_closed (year - 1970) 1969 0))

-- The sum `w` of the code for the shifted year and `k` for `13 * (m + 1) / 5`.
abbrev week_sum : ℕ → ℕ → ℕ → ℤ
week_sum year k day =
    pos (year / 100 / 4)
    -ℤ pos (2 * (year / 100))
    +ℤ pos (year % 100)
    +ℤ pos (year % 100 / 4)
    +ℤ pos k
    +ℤ pos day
    -ℤ pos 1

week_sum_parts :
    (year k day : ℕ)
    → pos_part (week_sum year k day) + 2 * (year / 100) + 1
      ≡ neg_part (week_sum year k day) + year / 100 / 4 + year % 100 + year % 100 / 4 + k + day
week_sum_parts year k day = omega int_laws

week_core :
    (year k day days base t : ℕ)
    → base ≡ k + 7 * t
    → days + 365 * 1970 + 477 ≡ 365 * year + leaps year + base + day
    → (let w' = rem_seven (week_sum year k day) in if ltb_ℤ w' (pos 0) then w' +ℤ pos 7 else w')
      ≡ pos ((days + 3) % 7)
unfolding leaps
week_core year k day days base t e g =
    residue (week_sum year k day) (5218 * (year / 100) + 52 * (year % 100) + t) (days + 3) 102789
      (omega (arith, week_sum_parts year k day))

-- From March on the leap day of the year is behind, and counts as one of `leaps`.
later :
    (year k day days base t months : ℕ)
    → 1970 ≤ year
    → base ≡ k + 7 * t
    → months + 365 ≡ base + get_days_of_year year
    → days + 365 * 1970 + 477 ≡ 365 * year + leaps (year - 1) + (months + day)
    → (let w' = rem_seven (week_sum year k day) in if ltb_ℤ w' (pos 0) then w' +ℤ pos 7 else w')
      ≡ pos ((days + 3) % 7)
later year k day days base t months h e m g =
    let s : suc (year - 1) ≡ year = omega arith in
    week_core year k day days base t e (omega (arith, rw s at (get_days_of_year_lem (year - 1))))

-- On every date from 1970 up to the year 5868999, whose day numbers fit an `olint_t`, the day of the
-- week is that of the day number: day 1 is a Thursday.
pub day_of_week_counts :
    (year mon day : ℕ)
    → IsDate year mon day
    → get_day_of_week_from_date year mon day
      ≡ pos ((convert_date_to_days_from_1970 year mon day + 3) % 7)
unfolding get_day_of_week_from_date get_days_of_year add_months
day_of_week_counts year mon day v =
    by_months
      (λ m.
        convert_date_to_days_from_1970 year m day + 365 * 1970 + 477
          ≡ 365 * year + leaps (year - 1) + (month_sum year m + day)
        → get_day_of_week_from_date year m day
          ≡ pos ((convert_date_to_days_from_1970 year m day + 3) % 7))
      (λ g. week_core (year - 1) 36 day (days 1) 365 47 refl (omega arith))
      (λ g. week_core (year - 1) 39 day (days 2) 396 51 refl (omega arith))
      (λ g. later year 10 day (days 3) 59 7 _ v.since refl (ground arith) g)
      (λ g. later year 13 day (days 4) 90 11 _ v.since refl (ground arith) g)
      (λ g. later year 15 day (days 5) 120 15 _ v.since refl (ground arith) g)
      (λ g. later year 18 day (days 6) 151 19 _ v.since refl (ground arith) g)
      (λ g. later year 20 day (days 7) 181 23 _ v.since refl (ground arith) g)
      (λ g. later year 23 day (days 8) 212 27 _ v.since refl (ground arith) g)
      (λ g. later year 26 day (days 9) 243 31 _ v.since refl (ground arith) g)
      (λ g. later year 28 day (days 10) 273 35 _ v.since refl (ground arith) g)
      (λ g. later year 31 day (days 11) 304 39 _ v.since refl (ground arith) g)
      (λ g. later year 33 day (days 12) 334 43 _ v.since refl (ground arith) g) mon v.month_from
      v.month_to (days_closed year mon day v)
  where
    days : ℕ → ℕ
    days m = convert_date_to_days_from_1970 year m day
