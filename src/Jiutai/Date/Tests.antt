-- ===== src/Jiutai/Date/Tests.antt =====
-- Runs of jiutai/jf_date.c, and its theorems at concrete dates.
use jiufeng.Prelude.{◌+◌, ◌<◌, ◌^◌, ◌%◌, ◌≡◌, refl, true, some, arith}
use jiufeng.Prelude.Int.{pos, ◌+ℤ◌, ◌-ℤ◌}
use jiufeng.Jiutai.Date.{
  is_leap_year, get_days_of_month, get_days_of_year, convert_date_to_days_from_1970, take_years,
  find_month, convert_days_from_1970_to_date, get_day_of_week_from_date, is_weekend_for_date,
}
use jiufeng.Jiutai.Date.RoundTrip.{IsDate, convert_days-convert_date}
use jiufeng.Jiutai.Date.Week.{day_of_week_counts}

leap_day : IsDate 2024 2 29
unfolding get_days_of_month
leap_day = omega arith

new_year : convert_date_to_days_from_1970 1970 1 1 ≡ 1
unfolding convert_date_to_days_from_1970
new_year = refl

back_to_leap_day : convert_days_from_1970_to_date (pos 19783) ≡ some (2024, 2, pos 29)
unfolding convert_days_from_1970_to_date take_years get_days_of_year find_month ◌-ℤ◌ ◌+ℤ◌
    is_leap_year
back_to_leap_day = refl

-- Days up to 0 do not come before 1970: the year stays.
day_zero : convert_days_from_1970_to_date (pos 0) ≡ some (1970, 12, pos 31)
unfolding convert_days_from_1970_to_date take_years get_days_of_year find_month ◌-ℤ◌ ◌+ℤ◌
    is_leap_year
day_zero = refl

saturday : is_weekend_for_date 2024 3 2 ≡ true
unfolding is_weekend_for_date get_day_of_week_from_date ◌-ℤ◌ ◌+ℤ◌
saturday = refl

convert_days-convert_date_example :
    (convert_date_to_days_from_1970 2024 2 29 < 2 ^ 31)
    × (convert_days_from_1970_to_date (pos (convert_date_to_days_from_1970 2024 2 29))
        ≡ some (2024, 2, pos 29))
convert_days-convert_date_example = convert_days-convert_date 2024 2 29 leap_day

day_of_week_counts_example :
    get_day_of_week_from_date 2024 2 29 ≡ pos ((convert_date_to_days_from_1970 2024 2 29 + 3) % 7)
day_of_week_counts_example = day_of_week_counts 2024 2 29 leap_day
