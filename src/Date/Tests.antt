-- ===== src/Date/Tests.antt =====
-- Tests of core/src/domain/date.c.
use alpha_fincial_pipline_c.Prelude.{ℕ, ◌≡◌, refl, arith, true, List, [], ◌∷◌, some}
use alpha_fincial_pipline_c.Prelude.Int.{pos, negsuc, ◌+ℤ◌, ◌-ℤ◌, ◌*ℤ◌}
use alpha_fincial_pipline_c.Domain.{ok, ◌>>=◌}
use alpha_fincial_pipline_c.Date.Roundtrip.{
  IsValid, is_leap, days_in_month, days_from_civil-civil_from_days, civil_from_days-IsValid,
  civil_from_days-days_from_civil,
}
use alpha_fincial_pipline_c.Date.Text.{
  date_parse-date_format, date_format-date_parse, date_parse-print_civil, civil,
}
use alpha_fincial_pipline_c.Date.{
  print_civil, CivilDate, day_of_era, month_and_day, year_of_era, days_from_civil, civil_from_days,
  date_parse, date_format, parse_digits,
}

epoch : days_from_civil (pos 1970) 1 1 ≡ pos 0
unfolding days_from_civil day_of_era ◌+ℤ◌ ◌-ℤ◌ ◌*ℤ◌
epoch = refl

before_epoch : civil_from_days (negsuc 0) ≡ record { year = pos 1969; month = 12; day = 31 }
unfolding civil_from_days month_and_day year_of_era ◌+ℤ◌ ◌-ℤ◌ ◌*ℤ◌
before_epoch = refl

long_before :
    civil_from_days (days_from_civil (negsuc 800) 2 29)
    ≡ record { year = negsuc 800; month = 3; day = 1 }
unfolding civil_from_days month_and_day year_of_era ◌+ℤ◌ ◌-ℤ◌ ◌*ℤ◌ days_from_civil day_of_era
long_before = refl

abbrev text : List ℕ
text = b'2' ∷ b'0' ∷ b'2' ∷ b'6' ∷ b'-' ∷ b'0' ∷ b'8' ∷ b'-' ∷ b'3' ∷ b'0' ∷ []

parse_2026 : date_parse (some text) true ≡ ok (pos 20695)
unfolding date_parse ◌+ℤ◌ ◌-ℤ◌ ◌*ℤ◌ days_from_civil day_of_era parse_digits
parse_2026 = refl

format_2026 : date_format (pos 20695) true 11 ≡ ok text
unfolding date_format civil_from_days month_and_day year_of_era ◌+ℤ◌ ◌-ℤ◌ ◌*ℤ◌
format_2026 = refl

abbrev leap_day : CivilDate
leap_day = record { year = pos 2024; month = 2; day = 29 }

leap_day-IsValid : IsValid leap_day
unfolding days_in_month is_leap
leap_day-IsValid = omega arith

days_from_civil-civil_from_days_example :
    let c = civil_from_days (negsuc 36523) in days_from_civil c.year c.month c.day ≡ negsuc 36523
days_from_civil-civil_from_days_example = days_from_civil-civil_from_days (negsuc 36523)

civil_from_days-IsValid_example : IsValid (civil_from_days (negsuc 36523))
civil_from_days-IsValid_example = civil_from_days-IsValid (negsuc 36523)

civil_from_days-days_from_civil_example :
    civil_from_days (days_from_civil (pos 2024) 2 29) ≡ leap_day
civil_from_days-days_from_civil_example = civil_from_days-days_from_civil leap_day leap_day-IsValid

date_parse-date_format_example :
    (date_format (pos 20695) true 11 >>= λ s. date_parse (some s) true) ≡ ok (pos 20695)
unfolding civil_from_days month_and_day year_of_era ◌+ℤ◌ ◌-ℤ◌ ◌*ℤ◌
date_parse-date_format_example =
    date_parse-date_format (pos 20695) 2026 11 refl (omega arith) (omega arith)

date_format-date_parse_example :
    (date_parse (some (print_civil leap_day)) true >>= λ z. date_format z true 11)
    ≡ ok (print_civil leap_day)
date_format-date_parse_example =
    date_format-date_parse 2024 2 29 11 (omega arith) leap_day-IsValid (omega arith)

-- A day that is not in the calendar is accepted: February 31st is read as March 2nd or 3rd.
february_31 :
    date_parse (some (print_civil (civil 2026 2 31))) true ≡ ok (days_from_civil (pos 2026) 3 3)
unfolding days_from_civil day_of_era ◌+ℤ◌ ◌-ℤ◌ ◌*ℤ◌
february_31 =
    date_parse-print_civil 2026 2 31 (omega arith) (omega arith) (omega arith) (omega arith)
      (omega arith)
