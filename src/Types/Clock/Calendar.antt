-- ===== src/Types/Clock/Calendar.antt =====
-- `civil_from_days` (types.rs) is the proleptic Gregorian calendar.
use mcp_crewd_rs.Base.{
  ltb→lt, ap, Bool-cases, inl, inr, ℕ, zero, suc, ◌%◌, not, ◌&&◌, ◌||◌, eqb, refl, sym, subst, true,
  false, ltb, leb, if◌then◌else◌, ◌+◌, ◌-◌, ◌*◌, ◌/◌, ◌≤◌, ◌<◌, ◌≡◌, arith,
}
use mcp_crewd_rs.Types.Clock.{Civil, date_in_year, civil_from_days, year_of_era, day_of_year}

-- The Gregorian rules
abbrev pub leap : ℕ → ℕ
leap y = if (eqb (y % 4) 0 && not (eqb (y % 100) 0)) || eqb (y % 400) 0 then 1 else 0

abbrev pub month_length : ℕ → ℕ → ℕ
month_length y m =
    if eqb m 2 then 28 + leap y else if eqb m 4 || eqb m 6 || eqb m 9 || eqb m 11 then 30 else 31

abbrev pub IsDate : Civil → Type 0
IsDate c = (1 ≤ c.month) × (c.month ≤ 12) × (1 ≤ c.day) × (c.day ≤ month_length c.year c.month)

-- The days of the months 1 to m of a year, and of the years 1 to n
abbrev pub days_of_months : ℕ → ℕ → ℕ
days_of_months y zero = 0
days_of_months y (suc m) = days_of_months y m + month_length y (suc m)

abbrev pub days_of_years : ℕ → ℕ
days_of_years zero = 0
days_of_years (suc n) = days_of_years n + 365 + leap (suc n)

-- The days from 0001-01-01 to a date
abbrev pub day_number : Civil → ℕ
day_number c = days_of_years (c.year - 1) + days_of_months c.year (c.month - 1) + (c.day - 1)

leap_days_step :
    (y : ℕ) → suc y / 4 + suc y / 400 + y / 100 ≡ y / 4 + y / 400 + suc y / 100 + leap (suc y)
leap_days_step y = ground arith

days_of_years_lem : (n : ℕ) → days_of_years n + n / 100 ≡ 365 * n + n / 4 + n / 400
days_of_years_lem zero = omega arith
days_of_years_lem (suc n) = omega (arith, days_of_years_lem n, leap_days_step n)

march_on :
    (y mp : ℕ)
    → mp ≤ 9
    → (days_of_months y (mp + 2) ≡ 59 + leap y + (153 * mp + 2) / 5)
      × (month_length y (mp + 3) ≡ (153 * (mp + 1) + 2) / 5 - (153 * mp + 2) / 5)
march_on y zero h = (omega arith, refl)
march_on y (suc zero) h = (omega arith, refl)
march_on y (suc (suc zero)) h = (omega arith, refl)
march_on y (suc (suc (suc zero))) h = (omega arith, refl)
march_on y (suc (suc (suc (suc zero)))) h = (omega arith, refl)
march_on y (suc (suc (suc (suc (suc zero))))) h = (omega arith, refl)
march_on y (suc (suc (suc (suc (suc (suc zero)))))) h = (omega arith, refl)
march_on y (suc (suc (suc (suc (suc (suc (suc zero))))))) h = (omega arith, refl)
march_on y (suc (suc (suc (suc (suc (suc (suc (suc zero)))))))) h = (omega arith, refl)
march_on y (suc (suc (suc (suc (suc (suc (suc (suc (suc zero))))))))) h = (omega arith, refl)
march_on y (suc (suc (suc (suc (suc (suc (suc (suc (suc (suc n)))))))))) h =
    absurd (omega (arith, h))

-- A date from March on, and one in January or February of the next year
march-IsDate :
    (k mp day : ℕ)
    → mp ≤ 9
    → day < (153 * (mp + 1) + 2) / 5 - (153 * mp + 2) / 5
    → let c : Civil = record { year = suc k; month = mp + 3; day = day + 1 } in
      IsDate c × (day_number c + 306 ≡ days_of_years (suc k) + (153 * mp + 2) / 5 + day)
march-IsDate k mp day h in_month =
    let before : mp + 3 - 1 ≡ mp + 2 = omega arith in
    let year : suc k - 1 ≡ k = omega arith in
    (
      (
        omega arith,
        omega (arith, h),
        omega arith,
        subst (λ x. day + 1 ≤ x) (sym (march_on (suc k) mp h).1) (omega (arith, in_month)),
      ),
      rw (before, year, (march_on (suc k) mp h).0) (omega arith),
    )

leap-le : (y : ℕ) → leap y ≤ 1
leap-le y = ground arith

january-IsDate :
    (y day : ℕ)
    → day < 31
    → let c : Civil = record { year = y + 1; month = 1; day = day + 1 } in
      IsDate c × (day_number c ≡ days_of_years y + day)
january-IsDate y day h =
    let year : y + 1 - 1 ≡ y = omega arith in
    ((omega arith, omega arith, omega arith, omega (arith, h)), rw year (omega arith))

february-IsDate :
    (y day : ℕ)
    → day < 28 + leap (y + 1)
    → let c : Civil = record { year = y + 1; month = 2; day = day + 1 } in
      IsDate c × (day_number c ≡ days_of_years y + 31 + day)
february-IsDate y day h =
    let year : y + 1 - 1 ≡ y = omega arith in
    ((omega arith, omega arith, omega arith, omega (arith, h)), rw year (omega arith))

-- A day of the year that starts on March 1 of `suc k`
abbrev DateOf : ℕ → ℕ → Civil → Type 0
DateOf k doy c = IsDate c × (day_number c + 306 ≡ days_of_years (suc k) + doy)

autumn : (k doy : ℕ) → doy < 306 → DateOf k doy (date_in_year (suc k) doy)
unfolding date_in_year
autumn k doy h =
    let mp = (5 * doy + 2) / 153 in
    let early : ltb mp 10 ≡ true = ground arith in
    let late : leb (mp + 3) 2 ≡ false = ground arith in
    let found =
      march-IsDate k mp (doy - (153 * mp + 2) / 5) (omega (arith, h)) (omega (arith, h)) in
    rw (early, late) (found.0, omega (arith, found.1))

january : (k doy : ℕ) → 306 ≤ doy → doy < 337 → DateOf k doy (date_in_year (suc k) doy)
unfolding date_in_year
january k doy h l =
    let ten : (5 * doy + 2) / 153 ≡ 10 = omega arith in
    let found = january-IsDate (suc k) (doy - 306) (omega arith) in
    rw ten (found.0, omega (arith, found.1))

february :
    (k doy : ℕ) → 337 ≤ doy → doy < 365 + leap (suc k + 1) → DateOf k doy (date_in_year (suc k) doy)
unfolding date_in_year
february k doy h l =
    let eleven : (5 * doy + 2) / 153 ≡ 11 = omega (arith, l, leap-le (suc k + 1)) in
    let found = february-IsDate (suc k) (doy - 337) (omega (arith, l)) in
    rw eleven (found.0, omega (arith, found.1))

leap_year_end :
    (doe era : ℕ) → doe < 146097 → day_of_year doe < 365 + leap (year_of_era doe + era * 400 + 1)
leap_year_end doe era h = ground arith

day_of_year-le : (doe : ℕ) → doe < 146097 → day_of_year doe ≤ 365
day_of_year-le doe h = omega arith

year_of_era-lt : (doe : ℕ) → doe < 146097 → year_of_era doe < 400
year_of_era-lt doe h = omega arith

-- The days before the year are not more than the days in all.
year_start-le :
    (doe : ℕ)
    → doe < 146097
    → 365 * year_of_era doe + year_of_era doe / 4 - year_of_era doe / 100 ≤ doe
year_start-le doe h = omega arith

year_and_day :
    (doe : ℕ)
    → doe < 146097
    → 365 * year_of_era doe + year_of_era doe / 4 - year_of_era doe / 100 + day_of_year doe ≡ doe
year_and_day doe h = omega (arith, year_start-le doe h)

-- The date of any day number has a month from 1 to 12, a day from 1 to 31 and a year from 1970 on.
pub civil_from_days_ranges :
    (days : ℕ)
    → let c = civil_from_days days in
      (1 ≤ c.month) × (c.month ≤ 12) × (1 ≤ c.day) × (c.day ≤ 31) × (1970 ≤ c.year)
unfolding civil_from_days date_in_year
civil_from_days_ranges days = ground arith

-- The leap days of whole eras.
era_days :
    (era yoe : ℕ)
    → yoe < 400
    → let y = yoe + era * 400 in
      365 * y + y / 4 - y / 100 + y / 400 ≡ era * 146097 + (365 * yoe + yoe / 4 - yoe / 100)
era_days era yoe h = omega arith

any_date : (k doy : ℕ) → doy < 365 + leap (suc k + 1) → DateOf k doy (date_in_year (suc k) doy)
any_date k doy h = elim (Bool-cases (ltb doy 306)) [
  | inl early ↦ autumn k doy (ltb→lt _ _ early)
  | inr late ↦ elim (Bool-cases (ltb doy 337)) [
    | inl first ↦ january k doy (ground (arith, late)) (ltb→lt _ _ first)
    | inr second ↦ february k doy (ground (arith, second)) h
  ]
]

sum_up :
    (total start doy doe eras y : ℕ)
    → total + y / 100 ≡ 365 * y + y / 4 + y / 400
    → 365 * y + y / 4 - y / 100 + y / 400 ≡ eras + start
    → start + doy ≡ doe
    → total + doy ≡ eras + doe
sum_up total start doy doe eras y counted split rest = omega (arith, counted, split, rest)

-- The days to March 1 of an era's year, and the days since then
era_day :
    (era doe : ℕ)
    → doe < 146097
    → days_of_years (year_of_era doe + era * 400) + day_of_year doe ≡ era * 146097 + doe
era_day era doe h =
    let yoe = year_of_era doe in
    sum_up _ _ _ _ _ (yoe + era * 400) (days_of_years_lem (yoe + era * 400))
      (era_days era yoe (year_of_era-lt doe h)) (year_and_day doe h)

abbrev pub epoch : Civil
epoch = record { year = 1970; month = 1; day = 1 }

-- For any number of days, `civil_from_days` gives the date that comes so many days after 1970-01-01: a
-- date of the Gregorian calendar, with a month from 1 to 12 and a day of that month, in which the days
-- are counted over whole years, whole months and days.
pub civil_from_days_lem :
    (days : ℕ)
    → IsDate (civil_from_days days) × (day_number (civil_from_days days) ≡ day_number epoch + days)
unfolding civil_from_days
civil_from_days_lem days =
    let z = days + 719468 in
    let era = z / 146097 in
    let doe = z - era * 146097 in
    let small : doe < 146097 = omega arith in
    let y = year_of_era doe + era * 400 in
    let doy = day_of_year doe in
    let late : y ≡ suc (y - 1) = omega arith in
    let found : DateOf (y - 1) doy (date_in_year y doy) =
      subst (λ x. DateOf (y - 1) doy (date_in_year x doy)) (sym late)
        (any_date (y - 1) doy
          (subst (λ x. doy < 365 + leap (x + 1)) late (leap_year_end doe era small))) in
    (found.0, omega (arith, found.1, ap days_of_years late, era_day era doe small))
