-- ===== src/Date/Text.antt =====
-- `alpha_date_parse` and `alpha_date_format` of core/src/domain/date.c on the texts of dates.
use alpha_fincial_pipline_c.Prelude.{
  ℕ, zero, suc, ◌+◌, ◌-◌, ◌/◌, ◌%◌, ◌≤◌, ◌<◌, ◌≡◌, ap, true, false, length, take-all, some, List,
  [], ◌∷◌, arith, ltb,
}
use native.Mathlib.Nat.{le_trans}
use alpha_fincial_pipline_c.Prelude.Int.{ℤ, pos}
use alpha_fincial_pipline_c.Domain.{ok, ◌>>=◌}
use alpha_fincial_pipline_c.Date.{
  CivilDate, days_from_civil, civil_from_days, decimal_from, decimal, zero_pad, print_civil,
  parse_digits, date_parse, date_format,
}
use alpha_fincial_pipline_c.Date.Roundtrip.{
  IsValid, days_from_civil-civil_from_days, civil_from_days-days_from_civil,
  civil_from_days-IsValid, days_in_month-le,
}

-- Any fuel above the number prints the same.
decimal_from_fuel :
    (f g n : ℕ) (rest : List ℕ) → n < f → n < g → decimal_from f n rest ≡ decimal_from g n rest
unfolding decimal_from
decimal_from_fuel zero g n rest h k = elim h [ ]
decimal_from_fuel (suc f) zero n rest h k = elim k [ ]
decimal_from_fuel (suc f) (suc g) n rest h k =
    ground (arith, decimal_from_fuel f g (n / 10) ((b'0' + n % 10) ∷ rest))

abbrev digit : ℕ → ℕ
digit n = b'0' + n % 10

two_digits :
    (n : ℕ) → n < 100 → zero_pad 2 (decimal_from (suc (suc n)) n []) ≡ digit (n / 10) ∷ digit n ∷ []
unfolding decimal_from
two_digits n h = ground arith

four_digits :
    (n : ℕ)
    → n < 10000
    → zero_pad 4 (decimal_from (suc (suc (suc (suc n)))) n [])
      ≡ digit (n / 1000) ∷ digit (n / 100) ∷ digit (n / 10) ∷ digit n ∷ []
unfolding decimal_from
four_digits n h = ground arith

zero_pad-decimal_two : (n : ℕ) → n < 100 → zero_pad 2 (decimal n) ≡ digit (n / 10) ∷ digit n ∷ []
zero_pad-decimal_two n h =
    rw (decimal_from_fuel (n + 1) (suc (suc n)) n [] (omega arith) (omega arith)) (two_digits n h)

zero_pad-decimal_four :
    (n : ℕ)
    → n < 10000
    → zero_pad 4 (decimal n) ≡ digit (n / 1000) ∷ digit (n / 100) ∷ digit (n / 10) ∷ digit n ∷ []
zero_pad-decimal_four n h =
    rw (decimal_from_fuel (n + 1) (suc (suc (suc (suc n)))) n [] (omega arith) (omega arith))
      (four_digits n h)

-- `parse_digits` reads back the digits of a number, whatever follows.
parse_two :
    (n : ℕ) (rest : List ℕ) → n < 100 → parse_digits (digit (n / 10) ∷ digit n ∷ rest) 2 ≡ some n
unfolding parse_digits
parse_two n rest h = ground arith

parse_four :
    (n : ℕ) (rest : List ℕ)
    → n < 10000
    → parse_digits (digit (n / 1000) ∷ digit (n / 100) ∷ digit (n / 10) ∷ digit n ∷ rest) 4 ≡ some n
unfolding parse_digits
parse_four n rest h = ground arith

ltb-false : (a b : ℕ) → b ≤ a → ltb a b ≡ false
ltb-false a b h = ground arith

-- The text of year `y`, month `m` and day `d`.
abbrev pub civil : ℕ → ℕ → ℕ → CivilDate
civil y m d = record { year = pos y; month = m; day = d }

-- `alpha_date_parse` accepts the ten characters of every year below 10000, month from 1 to 12 and
-- day from 1 to 31, whether or not the month has that day, and returns what `days_from_civil` does.
pub date_parse-print_civil :
    (y m d : ℕ)
    → y < 10000
    → 1 ≤ m
    → m ≤ 12
    → 1 ≤ d
    → d ≤ 31
    → date_parse (some (print_civil (civil y m d))) true ≡ ok (days_from_civil (pos y) m d)
unfolding date_parse
date_parse-print_civil y m d hy m1 m12 d1 d31 =
    rw
      (
        zero_pad-decimal_four y hy,
        zero_pad-decimal_two m (omega arith),
        zero_pad-decimal_two d (omega arith),
        parse_four y _ hy,
        parse_two m _ (omega arith),
        parse_two d _ (omega arith),
      )
      (ground arith)

length-print_civil :
    (y m d : ℕ) → y < 10000 → m < 100 → d < 100 → length (print_civil (civil y m d)) ≡ 10
length-print_civil y m d h k l =
    rw (zero_pad-decimal_four y h, zero_pad-decimal_two m k, zero_pad-decimal_two d l)

format_of :
    (z : ℤ) (y m d n : ℕ)
    → civil_from_days z ≡ civil y m d
    → y < 10000
    → m ≤ 12
    → d ≤ 31
    → 11 ≤ n
    → date_format z true n ≡ ok (print_civil (civil y m d))
unfolding date_format
format_of z y m d n e h m12 d31 k =
    rw (e, ltb-false n 11 k)
      (ap ok (
        take-all (n - 1) _ (omega (arith, length-print_civil y m d h (omega arith) (omega arith)))))

-- A day of the years 0 to 9999 is formatted, and the text parses back to that day.
pub date_parse-date_format :
    (z : ℤ) (y n : ℕ)
    → (civil_from_days z).year ≡ pos y
    → y < 10000
    → 11 ≤ n
    → (date_format z true n >>= λ s. date_parse (some s) true) ≡ ok z
date_parse-date_format z y n p h k =
    let c = civil_from_days z in
    let v = civil_from_days-IsValid z in
    let d31 = le_trans v.day_in.1 (days_in_month-le c.year c.month) in
    let e : civil_from_days z ≡ civil y c.month c.day =
      λ i. record { year = p i; month = c.month; day = c.day } in
    rw (
      format_of z y c.month c.day n e h v.month_in.1 d31 k,
      date_parse-print_civil y c.month c.day h v.month_in.0 v.month_in.1 v.day_in.0 d31,
      ← p,
      days_from_civil-civil_from_days z,
    )

-- A valid date of the years 0 to 9999 is parsed from its text, and formats to that text.
pub date_format-date_parse :
    (y m d n : ℕ)
    → y < 10000
    → IsValid (civil y m d)
    → 11 ≤ n
    → let text = print_civil (civil y m d) in
      (date_parse (some text) true >>= λ z. date_format z true n) ≡ ok text
date_format-date_parse y m d n h v k =
    let d31 = le_trans v.day_in.1 (days_in_month-le (pos y) m) in
    rw (date_parse-print_civil y m d h v.month_in.0 v.month_in.1 v.day_in.0 d31) (
      format_of (days_from_civil (pos y) m d) y m d n
        (civil_from_days-days_from_civil (civil y m d) v) h v.month_in.1 d31 k)
