-- ===== src/Date/Roundtrip.antt =====
-- The conversions of core/src/domain/date.c undo one another.
use alpha_fincial_pipline_c.Prelude.{
  ℕ, ◌+◌, ◌-◌, ◌/◌, ◌%◌, ◌≤◌, ◌<◌, ◌≡◌, sym, ap, ◌≢◌, leb, ◌==◌, ◌&&◌, ◌||◌, not, Bool,
  if◌then◌else◌, arith, true,
}
use mathlib.Core.Path.{subst}
use native.Mathlib.Decide.{ℕ_discrete}
use alpha_fincial_pipline_c.Prelude.Int.{ℤ, pos, negsuc, ◌+ℤ◌, ◌-ℤ◌, ◌*ℤ◌, rem_ℤ, eqb_ℤ}
use alpha_fincial_pipline_c.Date.{CivilDate, bool_ℕ, days_from_civil, civil_from_days, year_of_era}
use alpha_fincial_pipline_c.Date.Era.{
  start, finish, start-lt-finish, year_of_era_bounds, year_of_era-eq,
}
use alpha_fincial_pipline_c.Date.Civil.{
  calendar_year, day_number, era_exists, days_from_civil-eq, civil_from_days-eq, month_of, day_of,
  day_of_year, day_of_year-month_of,
}

-- The Gregorian calendar, stated on its own.
unfoldable pub is_leap : ℤ → Bool
is_leap y =
    eqb_ℤ (rem_ℤ y (pos 4)) (pos 0)
    && (not (eqb_ℤ (rem_ℤ y (pos 100)) (pos 0)) || eqb_ℤ (rem_ℤ y (pos 400)) (pos 0))

unfoldable pub days_in_month : ℤ → ℕ → ℕ
days_in_month y m =
    if (m == 4) || (m == 6) || (m == 9) || (m == 11)
    then 30
    else if m == 2
    then (if is_leap y then 29 else 28)
    else 31

pub record IsValid (c : CivilDate) : Type 0 where
  pub month_in : (1 ≤ c.month) × (c.month ≤ 12)
  pub day_in : (1 ≤ c.day) × (c.day ≤ days_in_month c.year c.month)

finish-le : (yoe : ℕ) → yoe < 400 → finish yoe ≤ start yoe + 366
unfolding finish start
finish-le yoe h = ground arith

regroup : (e : ℤ) (a b : ℕ) → pos a +ℤ e *ℤ pos 400 +ℤ pos b ≡ e *ℤ pos 400 +ℤ pos a +ℤ pos b
unfolding ◌+ℤ◌ ◌*ℤ◌
regroup e a b = ground arith

abbrev day_count : CivilDate → ℤ
day_count c = days_from_civil c.year c.month c.day

day_count-day_number :
    (e : ℤ) (doe : ℕ)
    → doe < 146097
    → day_count (civil_from_days (day_number e doe)) ≡ day_number e doe
day_count-day_number e doe h =
    let yoe = year_of_era doe in
    let b = year_of_era_bounds doe h in
    let doy = doe - start yoe in
    let r = day_of_year-month_of doy (omega (arith, finish-le yoe b.0)) in
    rw
      (
        civil_from_days-eq e doe h,
        regroup,
        days_from_civil-eq e yoe (month_of doy) (day_of doy) b.0 r.1 r.2 r.3 r.4,
        r.0,
      )
      (ap (day_number e) (omega arith))

-- Every day number, before the epoch too, is that of the date which `civil_from_days` gives.
pub days_from_civil-civil_from_days :
    (z : ℤ) → let c = civil_from_days z in days_from_civil c.year c.month c.day ≡ z
days_from_civil-civil_from_days z =
    let (e, doe, p, h) = era_exists z in rw p (day_count-day_number e doe h)

leap_of_era :
    (e : ℤ) (yoe : ℕ)
    → yoe < 400
    → is_leap (e *ℤ pos 400 +ℤ pos yoe +ℤ pos 1)
      ≡ (if yoe == 399 then true else (yoe + 1) % 4 == 0 && not ((yoe + 1) % 100 == 0))
unfolding is_leap ◌+ℤ◌ ◌*ℤ◌
leap_of_era e yoe h = ground arith

abbrev Fits : ℕ → ℕ → ℕ → Type 0
Fits yoe m d =
    (start yoe + day_of_year m d < finish yoe)
    × (month_of (day_of_year m d) ≡ m)
    × (day_of (day_of_year m d) ≡ d)

-- March 1st starts a year of an era, so a leap day is its last day.
february-Fits :
    (e : ℤ) (yoe d : ℕ)
    → yoe < 400
    → 1 ≤ d
    → d ≤ days_in_month (calendar_year e yoe 2) 2
    → Fits yoe 2 d
unfolding days_in_month start finish
february-Fits e yoe d h d1 k = ground (arith, leap_of_era e yoe h)

other-Fits :
    (y : ℤ) (yoe m d : ℕ)
    → yoe < 400
    → 1 ≤ m
    → m ≤ 12
    → m ≢ 2
    → 1 ≤ d
    → d ≤ days_in_month y m
    → Fits yoe m d
unfolding days_in_month start finish
other-Fits y yoe m d h m1 m12 ne d1 k = ground arith

valid-Fits :
    (e : ℤ) (yoe m d : ℕ)
    → yoe < 400
    → 1 ≤ m
    → m ≤ 12
    → 1 ≤ d
    → d ≤ days_in_month (calendar_year e yoe m) m
    → Fits yoe m d
valid-Fits e yoe m d h m1 m12 d1 k = elim (ℕ_discrete m 2) [
  | yes p ↦
      subst (λ n. d ≤ days_in_month (calendar_year e yoe n) n → Fits yoe n d) (sym p)
        (february-Fits e yoe d h d1) k
  | no p ↦ other-Fits (calendar_year e yoe m) yoe m d h m1 m12 p d1 k
]

abbrev year_floor : ℤ → ℤ
year_floor (pos n) = pos (n / 400)
year_floor (negsuc n) = negsuc (n / 400)

abbrev year_rest : ℤ → ℕ
year_rest (pos n) = n % 400
year_rest (negsuc n) = 399 - n % 400

year_split :
    (y : ℤ) (b : ℕ)
    → let w = y -ℤ pos b in
      (year_rest w < 400) × (y ≡ year_floor w *ℤ pos 400 +ℤ pos (year_rest w) +ℤ pos b)
unfolding ◌+ℤ◌ ◌-ℤ◌ ◌*ℤ◌
year_split y b = ground arith

pub days_in_month-le : (y : ℤ) (m : ℕ) → days_in_month y m ≤ 31
unfolding days_in_month
days_in_month-le y m = ground arith

found_again :
    (e : ℤ) (yoe m d : ℕ) (y : ℤ)
    → y ≡ calendar_year e yoe m
    → yoe < 400
    → 1 ≤ m
    → m ≤ 12
    → 1 ≤ d
    → d ≤ days_in_month y m
    → civil_from_days (days_from_civil y m d) ≡ record { year = y; month = m; day = d }
found_again e yoe m d y p h m1 m12 d1 k =
    let f = valid-Fits e yoe m d h m1 m12 d1 (rw (← p) k) in
    let doe = start yoe + day_of_year m d in
    let same = year_of_era-eq yoe doe h (omega arith) f.0 in
    let days : doe - start yoe ≡ day_of_year m d = omega arith in
    rw (
      p,
      days_from_civil-eq e yoe m d h m1 m12 d1 (omega (arith, days_in_month-le y m)),
      civil_from_days-eq e doe (omega (arith, start-lt-finish yoe h)),
      same,
      days,
      f.1,
      f.2,
      regroup,
    )

-- Every date of the Gregorian calendar is found again from its day number.
pub civil_from_days-days_from_civil :
    (c : CivilDate) → IsValid c → civil_from_days (days_from_civil c.year c.month c.day) ≡ c
civil_from_days-days_from_civil c v =
    let b = bool_ℕ (leb c.month 2) in
    let s = year_split c.year b in
    found_again (year_floor (c.year -ℤ pos b)) (year_rest (c.year -ℤ pos b)) c.month c.day c.year
      s.1 s.0 v.month_in.0 v.month_in.1 v.day_in.0 v.day_in.1

february_length :
    (e : ℤ) (yoe doy : ℕ)
    → yoe < 400
    → start yoe + doy < finish yoe
    → month_of doy ≡ 2
    → day_of doy ≤ days_in_month (calendar_year e yoe 2) 2
unfolding days_in_month start finish
february_length e yoe doy h k p = ground (arith, leap_of_era e yoe h)

other_length :
    (y : ℤ) (doy : ℕ) → doy < 366 → month_of doy ≢ 2 → day_of doy ≤ days_in_month y (month_of doy)
unfolding days_in_month
other_length y doy h p = ground arith

valid_in_year :
    (e : ℤ) (yoe doy : ℕ)
    → yoe < 400
    → start yoe + doy < finish yoe
    → let m = month_of doy in day_of doy ≤ days_in_month (calendar_year e yoe m) m
valid_in_year e yoe doy h k = elim (ℕ_discrete (month_of doy) 2) [
  | yes p ↦ rw p (february_length e yoe doy h k p)
  | no p ↦ other_length (calendar_year e yoe (month_of doy)) doy (omega (arith, finish-le yoe h)) p
]

day_number-IsValid : (e : ℤ) (doe : ℕ) → doe < 146097 → IsValid (civil_from_days (day_number e doe))
day_number-IsValid e doe h =
    let yoe = year_of_era doe in
    let b = year_of_era_bounds doe h in
    let doy = doe - start yoe in
    let r = day_of_year-month_of doy (omega (arith, finish-le yoe b.0)) in
    rw (civil_from_days-eq e doe h, regroup)
      record { month_in = (r.1, r.2); day_in = (r.3, valid_in_year e yoe doy b.0 (omega arith)) }

-- `civil_from_days` gives a date of the Gregorian calendar, February 29th in leap years only.
pub civil_from_days-IsValid : (z : ℤ) → IsValid (civil_from_days z)
civil_from_days-IsValid z = let (e, doe, p, h) = era_exists z in rw p (day_number-IsValid e doe h)
