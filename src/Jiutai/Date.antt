-- ===== src/Jiutai/Date.antt =====
-- jiutai/jf_date.c: leap years, day counts from 1970, days of the week.
-- Years, months and days are numbers from 0 on; the differences that may be negative are in ℤ.
-- The model is of months up to 12 (for a larger one the code reads past its table) and of years from
-- 1 to 5868999, up to which the day numbers fit `int`; from about year 5.88 million on they wrap in
-- the code.
pub mod Years
pub mod RoundTrip
pub mod Week
mod Tests
use jiufeng.Prelude.{
  ℕ, zero, suc, ◌+◌, ◌-◌, ◌*◌, ◌/◌, ◌%◌, Bool, true, false, ◌&&◌, ◌||◌, not, Option, none, some,
  List, [], ◌∷◌, ltb, leb, ◌==◌, if◌then◌else◌, get_or,
}
use jiufeng.Prelude.Int.{ℤ, pos, negsuc, pos_part, ◌+ℤ◌, ◌-ℤ◌, ltb_ℤ}

-- `jf_date_isLeapYear`
pub is_leap_year : ℕ → Bool
is_leap_year year = (year % 4 == 0) && not (year % 100 == 0) || (year % 400 == 0)

-- `jf_date_getDaysOfMonth`
pub get_days_of_month : ℕ → ℕ → ℕ
unfolding is_leap_year
get_days_of_month year mon =
    if (mon == 1)
      || (mon == 3)
      || (mon == 5)
      || (mon == 7)
      || (mon == 8)
      || (mon == 10)
      || (mon == 12)
    then 31
    else if mon == 2
    then (if is_leap_year year then 29 else 28)
    else 30

-- `_isDayInRange`
pub is_day_in_range : ℕ → ℕ → ℕ → Bool
unfolding get_days_of_month
is_day_in_range year month day =
    let dm = get_days_of_month year month in if leb day 0 || ltb dm day then false else true

-- `jf_date_getDaysOfYear`
pub get_days_of_year : ℕ → ℕ
unfolding is_leap_year
get_days_of_year year = if is_leap_year year then 366 else 365

-- The local arrays `a`, with `a[2]` set for the year: 12 entries in the conversion from a date, 13
-- in the conversion to one.
abbrev pub days_before_month : Bool → List ℕ
days_before_month leap =
    0 ∷ 31 ∷ (if leap then 29 else 28) ∷ 31 ∷ 30 ∷ 31 ∷ 30 ∷ 31 ∷ 31 ∷ 30 ∷ 31 ∷ 30 ∷ []

abbrev pub days_in_month : Bool → List ℕ
days_in_month leap =
    0 ∷ 31 ∷ (if leap then 29 else 28) ∷ 31 ∷ 30 ∷ 31 ∷ 30 ∷ 31 ∷ 31 ∷ 30 ∷ 31 ∷ 30 ∷ 31 ∷ []

-- `for (i = 0; i <= mon - 1; i ++) ret += a[i];` with `n` rounds left.
pub add_months : List ℕ → ℕ → ℕ → ℕ → ℕ
add_months a zero i ret = ret
add_months a (suc n) i ret = add_months a n (i + 1) (ret + get_or a i 0)

-- `while (start_year < year)` with `n` rounds left.
pub add_years : ℕ → ℕ → ℕ → ℕ
add_years zero start_year ret = ret
add_years (suc n) start_year ret = add_years n (start_year + 1) (ret + get_days_of_year start_year)

-- `jf_date_convertDateToDaysFrom1970`
pub convert_date_to_days_from_1970 : ℕ → ℕ → ℕ → ℕ
unfolding add_months add_years get_days_of_year
convert_date_to_days_from_1970 year mon day =
    add_years (year - 1970) 1970 (add_months (days_before_month (is_leap_year year)) mon 0 day)

-- `while (ret > 0)` on fuel: the year it stops at and `ret`.
pub take_years : ℕ → ℤ → ℕ → Option (ℕ × ℤ)
take_years zero ret start_year = none
take_years (suc fuel) ret start_year =
    let ret' = ret -ℤ pos (get_days_of_year start_year) in
    let more = take_years fuel ret' (if ltb_ℤ (pos 0) ret' then start_year + 1 else start_year) in
    if ltb_ℤ (pos 0) ret then more else some (start_year, ret)

-- `for (i = 0; i < 12; i ++)` with `n` rounds left: the month and the day, `none` if the loop ends
-- without its `break`, which leaves them unset.
pub find_month : List ℕ → ℤ → ℕ → ℕ → ℕ → Option (ℕ × ℤ)
find_month a ret zero i s = none
find_month a ret (suc n) i s =
    let s' = s + get_or a i 0 in
    let more = find_month a ret n (i + 1) s' in
    if ltb_ℤ (pos s') ret && not (ltb_ℤ (pos (s' + get_or a (i + 1) 0)) ret)
    then some (i + 1, ret -ℤ pos s')
    else more

-- `jf_date_convertDaysFrom1970ToDate`: the year, the month and the day. Every round of the first
-- loop but one takes a year off `days`, so the fuel is enough.
pub convert_days_from_1970_to_date : ℤ → Option (ℕ × ℕ × ℤ)
convert_days_from_1970_to_date days = elim (take_years (pos_part days + 1) days 1970) [
  | none ↦ none
  | some (year, ret) ↦
      elim (find_month (days_in_month (is_leap_year year)) (ret +ℤ pos (get_days_of_year year)) 12 0
        0) [ none ↦ none | some (mon, day) ↦ some (year, mon, day) ]
]

-- C's `w % 7`, with the sign of `w`.
pub rem_seven : ℤ → ℤ
rem_seven (pos n) = pos (n % 7)
rem_seven (negsuc n) = pos 0 -ℤ pos (suc n % 7)

-- `jf_date_getDayOfWeekFromDate`: 0 for Sunday.
pub get_day_of_week_from_date : ℕ → ℕ → ℕ → ℤ
unfolding rem_seven
get_day_of_week_from_date year mon day =
    let m = if leb mon 2 then mon + 12 else mon in
    let year' = if leb mon 2 then year - 1 else year in
    let c = year' / 100 in
    let y = year' % 100 in
    let w =
      pos (c / 4)
      -ℤ pos (2 * c)
      +ℤ pos y
      +ℤ pos (y / 4)
      +ℤ pos (13 * (m + 1) / 5)
      +ℤ pos day
      -ℤ pos 1 in
    let w' = rem_seven w in if ltb_ℤ w' (pos 0) then w' +ℤ pos 7 else w'

-- `jf_date_getNextDayOfWeek`; JF_DATE_SUNDAY is 0 and JF_DATE_SATURDAY is 6.
pub get_next_day_of_week : ℕ → ℕ
get_next_day_of_week dayofweek = if dayofweek == 6 then 0 else dayofweek + 1

-- `(dw == 6) || (dw == 0)`
pub is_weekend : ℤ → Bool
is_weekend (pos dw) = (dw == 6) || (dw == 0)
is_weekend (negsuc dw) = false

-- `jf_date_isWeekendForDate`
pub is_weekend_for_date : ℕ → ℕ → ℕ → Bool
unfolding is_weekend
is_weekend_for_date year mon day = is_weekend (get_day_of_week_from_date year mon day)
