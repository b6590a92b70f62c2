-- ===== src/Date/Era.antt =====
-- The years of a 400-year era in core/src/domain/date.c: year `y` of an era, which starts on
-- March 1st, holds the days from `start y` up to `finish y`, and `year_of_era` finds it.
use alpha_fincial_pipline_c.Prelude.{
  ℕ, zero, suc, ◌+◌, ◌-◌, ◌*◌, ◌/◌, ◌≤◌, ◌<◌, ◌≡◌, refl, true, ◌&&◌, ltb, leb, ◌==◌, if◌then◌else◌,
  arith,
}
use native.Mathlib.Decide.{dec_lt}
use alpha_fincial_pipline_c.Prelude.Range.{all_below, all_below_lem}
use alpha_fincial_pipline_c.Date.{year_of_era}

unfoldable pub start : ℕ → ℕ
start y = 365 * y + y / 4 - y / 100

unfoldable pub finish : ℕ → ℕ
unfolding start
finish y = if y == 399 then 146097 else start (y + 1)

-- The days of an era that are not the leap days.
common : ℕ → ℕ
common doe = doe - doe / 1460 + doe / 36524 - doe / 146096

common_mono : (a b : ℕ) → a ≤ b → b < 146097 → common a ≤ common b
unfolding common
common_mono a b h k = omega arith

bounds_table :
    all_below 400
      (λ y. leb (365 * y) (common (start y)) && ltb (common (finish y - 1)) (365 * y + 365))
    ≡ true
unfolding all_below common finish start
bounds_table = refl

common_bounds :
    (y : ℕ) → y < 400 → (365 * y ≤ common (start y)) × (common (finish y - 1) < 365 * y + 365)
common_bounds y h = ground (arith, all_below_lem 400 _ y bounds_table h)

year_of_era-eq-common : (doe : ℕ) → doe < 146097 → year_of_era doe ≡ common doe / 365
unfolding year_of_era common
year_of_era-eq-common doe h = omega arith

start_zero : start 0 ≡ 0
unfolding start
start_zero = refl

finish_step : (y : ℕ) → y < 399 → finish y ≡ start (suc y)
unfolding finish start
finish_step y h = ground arith

pub finish_last : finish 399 ≡ 146097
unfolding finish
finish_last = refl

pub start-lt-finish : (y : ℕ) → y < 400 → (start y + 365 ≤ finish y) × (finish y ≤ 146097)
unfolding finish start
start-lt-finish y h = ground arith

-- A day between the start and the finish of year `y` lies in year `y`.
pub year_of_era-eq : (y doe : ℕ) → y < 400 → start y ≤ doe → doe < finish y → year_of_era doe ≡ y
year_of_era-eq y doe h lo hi = omega (
  arith,
  year_of_era-eq-common doe,
  common_bounds y h,
  start-lt-finish y h,
  common_mono (start y) doe lo (omega (arith, start-lt-finish y h)),
  common_mono doe (finish y - 1) (omega arith) (omega (arith, start-lt-finish y h)),
)

below_finish : (y doe : ℕ) → y < 400 → doe < 146097 → common doe < 365 * y + 365 → doe < finish y
below_finish y doe h k c = elim (dec_lt doe (finish y)) [
  | yes p ↦ p
  | no p ↦ elim (dec_lt y 399) [
    | yes q ↦ omega (
      arith,
      finish_step y q,
      common_bounds (suc y) (omega arith),
      common_mono (start (suc y)) doe (omega (arith, finish_step y q)) k,
    )
    | no q ↦ let e : y ≡ 399 = omega arith in omega (arith, rw e at p, finish_last)
  ]
]

above_start : (y doe : ℕ) → y < 400 → doe < 146097 → 365 * y ≤ common doe → start y ≤ doe
above_start zero doe h k c = omega (arith, start_zero)
above_start (suc y) doe h k c = elim (dec_lt doe (start (suc y))) [
  | no p ↦ omega arith
  | yes p ↦ omega (
    arith,
    finish_step y (omega arith),
    common_bounds y (omega arith),
    common_mono doe (finish y - 1) (omega (arith, finish_step y (omega arith)))
        (omega (arith, start-lt-finish y (omega arith))),
  )
]

-- `year_of_era` finds the year whose days hold `doe`.
pub year_of_era_bounds :
    (doe : ℕ)
    → doe < 146097
    → let y = year_of_era doe in (y < 400) × (start y ≤ doe) × (doe < finish y)
year_of_era_bounds doe h =
    let y = year_of_era doe in
    let small : y < 400 = omega (
      arith,
      year_of_era-eq-common doe h,
      common_bounds 399 (omega arith),
      finish_last,
      common_mono doe (finish 399 - 1) (omega (arith, finish_last)) (omega (arith, finish_last)),
    ) in
    (
      small,
      above_start y doe small h (omega (arith, year_of_era-eq-common doe h)),
      below_finish y doe small h (omega (arith, year_of_era-eq-common doe h)),
    )
