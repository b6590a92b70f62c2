-- ===== src/RedisCache/Holidays/Print.antt =====
-- Calendars as `json.dumps` writes them, read by the parser of core/platform/cache/redis_cache.c.
use alpha_fincial_pipline_c.Prelude.{
  map, refl, ◌∙◌, zero, suc, append_assoc, append_nil, length-append, true, All, ℕ, ◌+◌, ◌/◌, ◌%◌,
  ◌≤◌, ◌<◌, ◌≡◌, ◌≢◌, ap, false, some, List, [], ◌∷◌, ◌++◌, length, arith,
}
use alpha_fincial_pipline_c.Prelude.Int.{ℤ, pos}
use alpha_fincial_pipline_c.RedisCache.Holidays.Sound.{IsIncreasing}
use alpha_fincial_pipline_c.Date.Text.{civil}
use alpha_fincial_pipline_c.Date.Roundtrip.{
  IsValid, days_in_month-le, civil_from_days-days_from_civil,
}
use alpha_fincial_pipline_c.RedisCache.Holidays.{
  parse_holiday_json, parse_array, parse_entries, next_entry, is_space, skip_space, max_holidays,
  calendar_day, civil_year_from_days, not_after_last, checked_day, entry_day, parse_fixed_decimal,
}

abbrev digit : ℕ → ℕ
digit n = b'0' + n

-- The twelve bytes of a date in quotes, before `rest`.
abbrev pub entry : ℕ → ℕ × ℕ → List ℕ → List ℕ
entry year (month, day) rest =
    b'"'
    ∷ digit (year / 1000)
    ∷ digit (year / 100 % 10)
    ∷ digit (year / 10 % 10)
    ∷ digit (year % 10)
    ∷ b'-'
    ∷ digit (month / 10)
    ∷ digit (month % 10)
    ∷ b'-'
    ∷ digit (day / 10)
    ∷ digit (day % 10)
    ∷ b'"'
    ∷ rest

-- `gap` stands behind each comma.
unfoldable pub print_entries : List ℕ → ℕ → List (ℕ × ℕ) → List ℕ
print_entries gap year [] = b']' ∷ []
print_entries gap year (date ∷ []) = entry year date (b']' ∷ [])
print_entries gap year (date ∷ next ∷ dates) =
    entry year date (b',' ∷ (gap ++ print_entries gap year (next ∷ dates)))

abbrev pub print_calendar : List ℕ → ℕ → List (ℕ × ℕ) → List ℕ
print_calendar gap year dates = b'[' ∷ print_entries gap year dates

abbrev pub day_of : ℕ → ℕ × ℕ → ℤ
day_of year (month, day) = calendar_day year month day

parse_four :
    (n : ℕ) (rest : List ℕ)
    → n < 10000
    → parse_fixed_decimal
        (digit (n / 1000) ∷ digit (n / 100 % 10) ∷ digit (n / 10 % 10) ∷ digit (n % 10) ∷ rest)
        4
        0
      ≡ some n
unfolding parse_fixed_decimal
parse_four n rest h = ground arith

parse_two :
    (n : ℕ) (rest : List ℕ)
    → n < 100
    → parse_fixed_decimal (digit (n / 10) ∷ digit (n % 10) ∷ rest) 2 0 ≡ some n
unfolding parse_fixed_decimal
parse_two n rest h = ground arith

year_of_day :
    (year month day : ℕ)
    → IsValid (civil year month day)
    → civil_year_from_days (calendar_day year month day) ≡ pos year
unfolding civil_year_from_days calendar_day
year_of_day year month day v =
    ap (λ c. c.year) (civil_from_days-days_from_civil (civil year month day) v)

checked_day-eq :
    (year month day : ℕ) (days : List ℤ)
    → year < 10000
    → IsValid (civil year month day)
    → not_after_last days (calendar_day year month day) ≡ false
    → checked_day (pos year) days (some year) (some month) (some day)
      ≡ some (calendar_day year month day)
unfolding checked_day
checked_day-eq year month day days h v l =
    let same = year_of_day year month day v in
    let month_in = v.month_in in
    let first = v.day_in.0 in
    let last : day ≤ 31 = omega (arith, v.day_in.1, days_in_month-le (pos year) month) in
    rw (same, l) (ground arith)

-- The date is read off the front, if there is room and it is after the last day.
entry_day-entry :
    (year month day : ℕ) (rest : List ℕ) (days : List ℤ)
    → year < 10000
    → IsValid (civil year month day)
    → length days ≢ max_holidays
    → not_after_last days (calendar_day year month day) ≡ false
    → entry_day (pos year) (entry year (month, day) rest) days ≡ some (calendar_day year month day)
unfolding entry_day
entry_day-entry year month day rest days h v n l =
    let month_in = v.month_in in
    let last : day ≤ 31 = omega (arith, v.day_in.1, days_in_month-le (pos year) month) in
    rw
      (
        parse_four year
            (b'-'
              ∷ digit (month / 10)
              ∷ digit (month % 10)
              ∷ b'-'
              ∷ digit (day / 10)
              ∷ digit (day % 10)
              ∷ b'"'
              ∷ rest)
            h,
        parse_two month (b'-' ∷ digit (day / 10) ∷ digit (day % 10) ∷ b'"' ∷ rest) (omega arith),
        parse_two day (b'"' ∷ rest) (omega arith),
        checked_day-eq year month day days h v l,
      )
      (ground arith)

not_after_last-append :
    (days : List ℤ) (d : ℤ) (l : List ℤ)
    → IsIncreasing (days ++ (d ∷ l))
    → not_after_last days d ≡ false
not_after_last-append [] d l h = refl
not_after_last-append (a ∷ []) d l h = ground arith
not_after_last-append (a ∷ b ∷ days) d l h = not_after_last-append (b ∷ days) d l h.1

skip_space-gap :
    (gap : List ℕ) (rest : List ℕ)
    → All (λ c. is_space c ≡ true) gap
    → skip_space (gap ++ (b'"' ∷ rest)) ≡ b'"' ∷ rest
unfolding skip_space
skip_space-gap [] rest h = refl
skip_space-gap (c ∷ gap) rest h = rw (h.0, skip_space-gap gap rest h.1) refl

module _ (gap : List ℕ) (spaces : All (λ c. is_space c ≡ true) gap) (year : ℕ) where
  -- What stands behind the last quote of a date, before the other dates.
  abbrev after_date : List (ℕ × ℕ) → List ℕ
  after_date [] = b']' ∷ []
  after_date (next ∷ dates) = b',' ∷ (gap ++ print_entries gap year (next ∷ dates))

  print_entries-cons :
      (date : ℕ × ℕ) (dates : List (ℕ × ℕ))
      → print_entries gap year (date ∷ dates) ≡ entry year date (after_date dates)
  unfolding print_entries
  print_entries-cons date [] = refl
  print_entries-cons date (next ∷ dates) = refl

  next_entry-after_date :
      (dates : List (ℕ × ℕ))
      → next_entry (skip_space (after_date dates)) ≡ some (print_entries gap year dates)
  unfolding next_entry skip_space print_entries
  next_entry-after_date [] = refl
  next_entry-after_date (next ∷ dates) =
      let skipped = skip_space-gap gap in
      rw (print_entries-cons next dates) (ap some (skip_space-gap gap _ spaces))

  length-after_date :
      (dates : List (ℕ × ℕ)) → length (print_entries gap year dates) ≤ length (after_date dates)
  unfolding print_entries
  length-after_date [] = omega arith
  length-after_date (next ∷ dates) =
      omega (arith, length-append gap (print_entries gap year (next ∷ dates)))

  abbrev pub AllValid : List (ℕ × ℕ) → Type 0
  AllValid = All (λ date. IsValid (civil year date.0 date.1))

  parse_entries-nil :
      (fuel : ℕ) (days : List ℤ)
      → parse_entries (suc fuel) (pos year) (print_entries gap year []) days
        ≡ some (some (days, []))
  unfolding parse_entries print_entries
  parse_entries-nil fuel days = refl

  parse_entries-entry :
      (fuel : ℕ) (date : ℕ × ℕ) (tail next : List ℕ) (days : List ℤ) (day : ℤ)
      → entry_day (pos year) (entry year date tail) days ≡ some day
      → next_entry (skip_space tail) ≡ some next
      → parse_entries (suc fuel) (pos year) (entry year date tail) days
        ≡ parse_entries fuel (pos year) next (days ++ (day ∷ []))
  unfolding parse_entries
  parse_entries-entry fuel (month, day_no) tail next days day e n = rw (e, n) refl

  parse_entries-print_entries :
      (dates : List (ℕ × ℕ)) (fuel : ℕ) (days : List ℤ)
      → year < 10000
      → length (print_entries gap year dates) < fuel
      → AllValid dates
      → IsIncreasing (days ++ map (day_of year) dates)
      → length days + length dates ≤ max_holidays
      → parse_entries fuel (pos year) (print_entries gap year dates) days
        ≡ some (some (days ++ map (day_of year) dates, []))
  parse_entries-print_entries dates zero days y f v i n = absurd (omega arith)
  parse_entries-print_entries [] (suc fuel) days y f v i n =
      parse_entries-nil fuel days ∙ rw (append_nil days) refl
  parse_entries-print_entries ((month, day) ∷ dates) (suc fuel) days y f v i n =
      let here = calendar_day year month day in
      let tail = after_date dates in
      let read =
        entry_day-entry year month day tail days y v.0 (omega arith)
          (not_after_last-append days here (map (day_of year) dates) i) in
      let regroup = append_assoc days (here ∷ []) (map (day_of year) dates) in
      let size = ap length (print_entries-cons (month, day) dates) in
      let later =
        parse_entries-print_entries dates fuel (days ++ (here ∷ [])) y
          (omega (arith, length-after_date dates, size)) v.1 (rw regroup i)
          (omega (arith, length-append days (here ∷ []))) in
      ap (λ text. parse_entries (suc fuel) (pos year) text days)
        (print_entries-cons (month, day) dates)
      ∙ parse_entries-entry fuel (month, day) tail (print_entries gap year dates) days here read
          (next_entry-after_date dates)
      ∙ later
      ∙ ap (λ l. some (some (l, []))) regroup

  print_entries-quote :
      (dates : List (ℕ × ℕ))
      → skip_space (print_entries gap year dates) ≡ print_entries gap year dates
  unfolding skip_space print_entries
  print_entries-quote [] = refl
  print_entries-quote (date ∷ []) = refl
  print_entries-quote (date ∷ next ∷ dates) = refl

  skip_bracket : (text : List ℕ) → skip_space (b'[' ∷ text) ≡ b'[' ∷ text
  unfolding skip_space
  skip_bracket text = refl

  skip_nil : skip_space [] ≡ []
  unfolding skip_space
  skip_nil = refl

  -- A calendar of at most 512 valid dates of one year, each after the one before it, printed with
  -- any white space behind the commas, is read back as its days.
  pub parse_holiday_json-print_calendar :
      (dates : List (ℕ × ℕ))
      → year < 10000
      → AllValid dates
      → IsIncreasing (map (day_of year) dates)
      → length dates ≤ max_holidays
      → parse_holiday_json (print_calendar gap year dates) (pos year)
        ≡ some (some (map (day_of year) dates))
  unfolding parse_holiday_json parse_array
  parse_holiday_json-print_calendar dates y v i n =
      let text = print_entries gap year dates in
      rw
        (
          skip_bracket text,
          print_entries-quote dates,
          parse_entries-print_entries dates (length text + 1) [] y (omega arith) v i (omega arith),
          skip_nil,
        )
        refl
