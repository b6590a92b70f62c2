-- ===== src/Date/Civil.antt =====
-- The two conversions of core/src/domain/date.c, over the era and the day of the era.
use alpha_fincial_pipline_c.Prelude.{
  ℕ, ◌+◌, ◌-◌, ◌*◌, ◌/◌, ◌%◌, ◌^◌, ◌≤◌, ◌<◌, ◌≡◌, refl, ltb, leb, if◌then◌else◌, arith,
}
use alpha_fincial_pipline_c.Prelude.Int.{ℤ, pos, negsuc, ◌+ℤ◌, ◌-ℤ◌, ◌*ℤ◌}
use alpha_fincial_pipline_c.Prelude.Word.{word}
use alpha_fincial_pipline_c.Date.{
  bool_ℕ, era_of, day_of_era, days_from_civil, month_and_day, civil_from_days, year_of_era,
}
use alpha_fincial_pipline_c.Date.Era.{start, finish, year_of_era_bounds}

-- The month counted from March.
abbrev pub march_month : ℕ → ℕ
march_month m = if ltb 2 m then m - 3 else m + 9

abbrev pub day_of_year : ℕ → ℕ → ℕ
day_of_year m d = (153 * march_month m + 2) / 5 + d - 1

-- The year of `yoe`, counted from January, of era `e`.
abbrev pub calendar_year : ℤ → ℕ → ℕ → ℤ
calendar_year e yoe m = (e *ℤ pos 400 +ℤ pos yoe) +ℤ pos (bool_ℕ (leb m 2))

abbrev pub day_number : ℤ → ℕ → ℤ
day_number e doe = e *ℤ pos 146097 +ℤ pos doe -ℤ pos 719468

year-div-mod :
    (e : ℤ) (yoe b : ℕ)
    → yoe < 400
    → let y = e *ℤ pos 400 +ℤ pos yoe +ℤ pos b -ℤ pos b in
      (era_of 400 y ≡ e) × (y -ℤ e *ℤ pos 400 ≡ pos yoe)
unfolding ◌+ℤ◌ ◌-ℤ◌ ◌*ℤ◌
year-div-mod e yoe b h = ground arith

day-div-mod :
    (e : ℤ) (doe : ℕ)
    → doe < 146097
    → let z = day_number e doe +ℤ pos 719468 in
      (era_of 146097 z ≡ e) × (z -ℤ e *ℤ pos 146097 ≡ pos doe)
unfolding ◌+ℤ◌ ◌-ℤ◌ ◌*ℤ◌
day-div-mod e doe h = ground arith

-- Every day number is that of a day of an era.
abbrev era_floor : ℤ → ℤ
era_floor (pos n) = pos (n / 146097)
era_floor (negsuc n) = negsuc (n / 146097)

abbrev era_rest : ℤ → ℕ
era_rest (pos n) = n % 146097
era_rest (negsuc n) = 146096 - n % 146097

era_split : (z : ℤ) → (z ≡ era_floor z *ℤ pos 146097 +ℤ pos (era_rest z)) × (era_rest z < 146097)
unfolding ◌+ℤ◌ ◌*ℤ◌
era_split z = ground arith

shift_back : (z a : ℤ) → z +ℤ pos 719468 ≡ a → z ≡ a -ℤ pos 719468
unfolding ◌+ℤ◌ ◌-ℤ◌
shift_back z a h = ground arith

pub era_exists : (z : ℤ) → (e : ℤ) × (doe : ℕ) × (z ≡ day_number e doe) × (doe < 146097)
era_exists z =
    let s = z +ℤ pos 719468 in
    let p = era_split s in (era_floor s, era_rest s, shift_back z _ p.0, p.1)

day_of_era-eq :
    (yoe m d : ℕ)
    → yoe < 400
    → 1 ≤ m
    → m ≤ 12
    → 1 ≤ d
    → d ≤ 31
    → day_of_era (yoe % 2 ^ 32) m d ≡ start yoe + day_of_year m d
unfolding day_of_era start
day_of_era-eq yoe m d hy m1 m12 d1 d31 = ground arith

-- The day number of a month and a day of a year of an era, with no wrap-around.
pub days_from_civil-eq :
    (e : ℤ) (yoe m d : ℕ)
    → yoe < 400
    → 1 ≤ m
    → m ≤ 12
    → 1 ≤ d
    → d ≤ 31
    → days_from_civil (calendar_year e yoe m) m d ≡ day_number e (start yoe + day_of_year m d)
unfolding days_from_civil
days_from_civil-eq e yoe m d hy m1 m12 d1 d31 =
    let p = year-div-mod e yoe (bool_ℕ (leb m 2)) hy in
    rw (p.0, p.1, day_of_era-eq yoe m d hy m1 m12 d1 d31)

abbrev pub month_of : ℕ → ℕ
month_of doy = let mp = (5 * doy + 2) / 153 in if ltb mp 10 then mp + 3 else mp - 9

abbrev pub day_of : ℕ → ℕ
day_of doy = doy - (153 * ((5 * doy + 2) / 153) + 2) / 5 + 1

of_day_of_year :
    (doe yoe : ℕ)
    → doe < 146097
    → yoe ≡ year_of_era doe
    → yoe < 400
    → start yoe ≤ doe
    → doe < finish yoe
    → month_and_day doe ≡ (month_of (doe - start yoe), day_of (doe - start yoe))
unfolding month_and_day start finish
of_day_of_year doe yoe h e a b c = rw (← e) (ground arith)

pub month_and_day-eq :
    (doe : ℕ)
    → doe < 146097
    → let doy = doe - start (year_of_era doe) in month_and_day doe ≡ (month_of doy, day_of doy)
month_and_day-eq doe h = let b = year_of_era_bounds doe h in of_day_of_year doe _ h refl b.0 b.1 b.2

-- The date of a day of an era, with no wrap-around.
pub civil_from_days-eq :
    (e : ℤ) (doe : ℕ)
    → doe < 146097
    → let yoe = year_of_era doe in
      let doy = doe - start yoe in
      civil_from_days (day_number e doe) ≡ record {
        year = pos yoe +ℤ e *ℤ pos 400 +ℤ pos (bool_ℕ (leb (month_of doy) 2));
        month = month_of doy;
        day = day_of doy;
      }
unfolding civil_from_days
civil_from_days-eq e doe h =
    let p = day-div-mod e doe h in
    let small : doe % word ≡ doe = omega arith in rw (p.0, p.1, small, month_and_day-eq doe h)

-- A day of a year is the day of the month, counted from the month's start.
pub day_of_year-month_of :
    (doy : ℕ)
    → doy < 366
    → (day_of_year (month_of doy) (day_of doy) ≡ doy)
      × (1 ≤ month_of doy)
      × (month_of doy ≤ 12)
      × (1 ≤ day_of doy)
      × (day_of doy ≤ 31)
day_of_year-month_of doy h = ground arith

-- A month and a day are those of their day of the year.
pub month_of-day_of_year :
    (m d : ℕ)
    → 1 ≤ m
    → m ≤ 12
    → 1 ≤ d
    → d ≤ 31
    → day_of_year m d < (if ltb 2 m then (153 * (m - 2) + 2) / 5 else (153 * (m + 10) + 2) / 5)
    → (month_of (day_of_year m d) ≡ m) × (day_of (day_of_year m d) ≡ d)
month_of-day_of_year m d a b c e f = ground arith
