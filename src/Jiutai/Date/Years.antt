-- ===== src/Jiutai/Date/Years.antt =====
-- jiutai/jf_date.c: the loops over years and months against closed sums.
use jiufeng.Prelude.{
  ℕ, zero, suc, ◌+◌, ◌-◌, ◌*◌, ◌/◌, ◌≤◌, ◌<◌, ◌≡◌, ◌∙◌, ap, refl, Bool, true, false, some, List,
  arith, get_or, ◌==◌, ==_iff,
}
use jiufeng.Prelude.Tables.{holds_under, test_of_table}
use jiufeng.Prelude.Int.{pos, ◌-ℤ◌}
use jiufeng.Jiutai.Date.{
  is_leap_year, get_days_of_month, get_days_of_year, days_before_month, days_in_month, add_months,
  add_years, find_month,
}

-- The leap years from 1 to `y`.
unfoldable pub leaps : ℕ → ℕ
leaps y = y / 4 - y / 100 + y / 400

-- A statement about a month is proved for each of the twelve.
pub by_months {ℓ} :
    (P : ℕ → Type ℓ)
    → P 1
    → P 2
    → P 3
    → P 4
    → P 5
    → P 6
    → P 7
    → P 8
    → P 9
    → P 10
    → P 11
    → P 12
    → (mon : ℕ) → 1 ≤ mon
    → mon ≤ 12
    → P mon
by_months P a b c d e f g h i j k l zero p q = absurd (omega arith)
by_months P a b c d e f g h i j k l (suc zero) p q = a
by_months P a b c d e f g h i j k l (suc (suc zero)) p q = b
by_months P a b c d e f g h i j k l (suc (suc (suc zero))) p q = c
by_months P a b c d e f g h i j k l (suc (suc (suc (suc zero)))) p q = d
by_months P a b c d e f g h i j k l (suc (suc (suc (suc (suc zero))))) p q = e
by_months P a b c d e f g h i j k l (suc (suc (suc (suc (suc (suc zero)))))) p q = f
by_months P a b c d e f g h i j k l (suc (suc (suc (suc (suc (suc (suc zero))))))) p q = g
by_months P a b c d e f g h i j k l (suc (suc (suc (suc (suc (suc (suc (suc zero)))))))) p q = h
by_months P a b c d e f g h i j k l (suc (suc (suc (suc (suc (suc (suc (suc (suc zero))))))))) p q =
    i
by_months P a b c d e f g h i j k l (suc (suc (suc (suc (suc (suc (suc (suc (suc (suc zero))))))))))
      p q =
    j
by_months P a b c d e f g h i j k l
      (suc (suc (suc (suc (suc (suc (suc (suc (suc (suc (suc zero))))))))))) p q =
    k
by_months P a b c d e f g h i j k l
      (suc (suc (suc (suc (suc (suc (suc (suc (suc (suc (suc (suc zero)))))))))))) p q =
    l
by_months P a b c d e f g h i j k l
      (suc (suc (suc (suc (suc (suc (suc (suc (suc (suc (suc (suc (suc n))))))))))))) p q =
    absurd (omega arith)

pub get_days_of_year_lem : (y : ℕ) → leaps y + get_days_of_year (suc y) ≡ leaps (suc y) + 365
unfolding leaps get_days_of_year
get_days_of_year_lem y = ground arith

pub add_years_closed :
    (n y ret : ℕ) → add_years n (suc y) ret + leaps y ≡ ret + 365 * n + leaps (y + n)
unfolding add_years
add_years_closed zero y ret = let e : y + 0 ≡ y = omega arith in rw e (omega arith)
add_years_closed (suc n) y ret =
    let e : suc y + 1 ≡ suc (suc y) = omega arith in
    let f : y + suc n ≡ suc y + n = omega arith in
    rw (e, f)
      (omega (
        arith,
        add_years_closed n (suc y) (ret + get_days_of_year (suc y)),
        get_days_of_year_lem y,
      ))

pub add_years-add : (n y a b : ℕ) → add_years n y (a + b) ≡ add_years n y a + b
unfolding add_years
add_years-add zero y a b = refl
add_years-add (suc n) y a b =
    let e : a + b + get_days_of_year y ≡ a + get_days_of_year y + b = omega arith in
    rw e (add_years-add n (y + 1) (a + get_days_of_year y) b)

pub add_years-zero : (n y d : ℕ) → add_years n y d ≡ add_years n y 0 + d
add_years-zero n y d = let e : 0 + d ≡ d = omega arith in rw e at (add_years-add n y 0 d)

-- `ret` only grows by what the loop adds.
pub add_months-add : (a : List ℕ) (n i s d : ℕ) → add_months a n i (s + d) ≡ add_months a n i s + d
unfolding add_months
add_months-add a zero i s d = refl
add_months-add a (suc n) i s d =
    let e : s + d + get_or a i 0 ≡ s + get_or a i 0 + d = omega arith in
    rw e (add_months-add a n (i + 1) (s + get_or a i 0) d)

pub add_months-zero : (a : List ℕ) (n i d : ℕ) → add_months a n i d ≡ add_months a n i 0 + d
add_months-zero a n i d = let e : 0 + d ≡ d = omega arith in rw e at (add_months-add a n i 0 d)

pub add_months-le : (a : List ℕ) (n i s : ℕ) → s ≤ add_months a n i s
unfolding add_months
add_months-le a zero i s = omega arith
add_months-le a (suc n) i s = omega (arith, add_months-le a n (i + 1) (s + get_or a i 0))

pos-sub : (a d : ℕ) → pos (a + d) -ℤ pos a ≡ pos d
unfolding ◌-ℤ◌
pos-sub a d = ground arith

-- The loop over the months stops at the month whose days reach `ret`, with the day in it.
pub find_month_hit :
    (a : List ℕ) (k n i s d : ℕ)
    → k < n
    → 0 < d
    → d ≤ get_or a (i + k + 1) 0
    → find_month a (pos (add_months a (suc k) i s + d)) n i s ≡ some (i + k + 1, pos d)
unfolding find_month add_months
find_month_hit a k zero i s d h p q = absurd (omega arith)
find_month_hit a zero (suc n) i s d h p q =
    let e : i + 0 + 1 ≡ i + 1 = omega arith in
    let q' : d ≤ get_or a (i + 1) 0 = rw e at q in
    rw e (ground (arith, pos-sub (s + get_or a i 0) d))
find_month_hit a (suc k) (suc n) i s d h p q =
    let e : i + suc k + 1 ≡ i + 1 + k + 1 = omega arith in
    let q' : d ≤ get_or a (i + 1 + k + 1) 0 = rw e at q in
    rw e (
      ground (
        arith,
        find_month_hit a k n (i + 1) (s + get_or a i 0) d (omega arith) p q',
        add_months-le a k (i + 1 + 1) (s + get_or a i 0 + get_or a (i + 1) 0),
      ))

-- The two tables have one sum up to `mon`.
sums_agree : Bool → ℕ → Bool
sums_agree leap mon =
    add_months (days_before_month leap) mon 0 0 == add_months (days_in_month leap) mon 0 0

months_table : (leap : Bool) → holds_under (sums_agree leap) 13 ≡ true
unfolding holds_under sums_agree add_months
months_table true = refl
months_table false = refl

-- The two tables agree as far as the sum over the months before `mon` goes.
pub tables_agree :
    (leap : Bool) (mon d : ℕ)
    → mon ≤ 12
    → add_months (days_before_month leap) mon 0 d ≡ add_months (days_in_month leap) mon 0 0 + d
unfolding sums_agree
tables_agree leap mon d h =
    let same = test_of_table (sums_agree leap) 13 mon (omega arith) (months_table leap) in
    add_months-zero (days_before_month leap) mon 0 d ∙ ap (λ t. t + d) ((==_iff _ _).0 same)

-- The day within the year of a date that the code takes for valid.
abbrev pub month_sum : ℕ → ℕ → ℕ
month_sum year mon = add_months (days_in_month (is_leap_year year)) mon 0 0

pub month_sum_le :
    (year mon day : ℕ)
    → 1 ≤ mon
    → mon ≤ 12
    → day ≤ get_days_of_month year mon
    → month_sum year mon + day ≤ get_days_of_year year
unfolding get_days_of_month get_days_of_year add_months
month_sum_le year mon day h k d =
    by_months (λ m. day ≤ get_days_of_month year m → month_sum year m + day ≤ get_days_of_year year)
      (λ d. ground arith) (λ d. ground arith) (λ d. ground arith) (λ d. ground arith)
      (λ d. ground arith) (λ d. ground arith) (λ d. ground arith) (λ d. ground arith)
      (λ d. ground arith) (λ d. ground arith) (λ d. ground arith) (λ d. ground arith) mon h k d

pub days_in_month_lem :
    (year mon : ℕ)
    → 1 ≤ mon
    → mon ≤ 12
    → get_days_of_month year mon ≡ get_or (days_in_month (is_leap_year year)) mon 0
unfolding get_days_of_month
days_in_month_lem year mon h k = ground arith
