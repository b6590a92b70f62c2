-- ===== src/RedisCache/Holidays.antt =====
-- The calendar parser of core/platform/cache/redis_cache.c. A cursor is the list of the bytes from it
-- to the NUL. The file has its own copies of two conversions of core/src/domain/date.c, which compute
-- what those do.
pub mod Sound
pub mod Print
use alpha_fincial_pipline_c.Prelude.{
  ℕ, zero, suc, ◌+◌, ◌-◌, ◌*◌, Bool, true, false, not, ◌&&◌, ◌||◌, Option, none, some, List, [],
  ◌∷◌, ◌++◌, length, get_or, drop, ltb, leb, ◌==◌, if◌then◌else◌,
}
use alpha_fincial_pipline_c.Prelude.Int.{ℤ, pos, leb_ℤ, eqb_ℤ}
use alpha_fincial_pipline_c.Prelude.Word.{to_u32}
use alpha_fincial_pipline_c.Date.{days_from_civil, civil_from_days}

abbrev pub max_holidays : ℕ
max_holidays = 512

unfoldable pub calendar_day : ℕ → ℕ → ℕ → ℤ
unfolding days_from_civil
calendar_day year month day = days_from_civil (pos year) month day

unfoldable pub civil_year_from_days : ℤ → ℤ
unfolding civil_from_days
civil_year_from_days epoch_day = (civil_from_days epoch_day).year

-- `isspace` in the C locale.
abbrev pub is_space : ℕ → Bool
is_space c = c == b' ' || (leb 9 c && leb c 13)

unfoldable pub skip_space : List ℕ → List ℕ
skip_space [] = []
skip_space (c ∷ cursor) = let later = skip_space cursor in if is_space c then later else c ∷ cursor

-- `*cursor`
abbrev pub at : List ℕ → ℕ → ℕ
at cursor i = get_or cursor i 0

abbrev pub is_digit : ℕ → Bool
is_digit c = leb b'0' c && leb c b'9'

-- The loop of `parse_fixed_decimal`, with `parsed` so far. The code reads four digits at most.
unfoldable pub parse_fixed_decimal : List ℕ → ℕ → ℕ → Option ℕ
parse_fixed_decimal text zero parsed = some parsed
parse_fixed_decimal [] (suc digits) parsed = none
parse_fixed_decimal (c ∷ text) (suc digits) parsed =
    let later = parse_fixed_decimal text digits (parsed * 10 + (c - b'0')) in
    if is_digit c then later else none

-- `used > 0 && epoch_day <= days[used - 1]`
abbrev pub not_after_last : List ℤ → ℤ → Bool
not_after_last [] epoch_day = false
not_after_last (d ∷ []) epoch_day = leb_ℤ epoch_day d
not_after_last (d ∷ e ∷ days) epoch_day = not_after_last (e ∷ days) epoch_day

-- The checks on the three fields, and the day.
unfoldable pub checked_day : ℤ → List ℤ → Option ℕ → Option ℕ → Option ℕ → Option ℤ
checked_day expected_year days (some year) (some month) (some day) =
    let epoch_day = calendar_day year month day in
    if not (year == to_u32 expected_year)
      || ltb month 1
      || ltb 12 month
      || ltb day 1
      || ltb 31 day
      || not (eqb_ℤ (civil_year_from_days epoch_day) (pos year))
      || not_after_last days epoch_day
    then none
    else some epoch_day
checked_day expected_year days _ _ _ = none

-- The body of the loop up to the write: the day of the entry at the cursor.
unfoldable pub entry_day : ℤ → List ℕ → List ℤ → Option ℤ
entry_day expected_year cursor days =
    if length days == max_holidays
      || ltb (length cursor) 12
      || not (at cursor 0 == b'"')
      || not (at cursor 5 == b'-')
      || not (at cursor 8 == b'-')
      || not (at cursor 11 == b'"')
    then none
    else checked_day expected_year days (parse_fixed_decimal (drop 1 cursor) 4 0)
        (parse_fixed_decimal (drop 6 cursor) 2 0) (parse_fixed_decimal (drop 9 cursor) 2 0)

-- What follows an entry: the cursor for the next round, `none` if the text is refused.
unfoldable pub next_entry : List ℕ → Option (List ℕ)
next_entry (b ∷ cursor) =
    if b == b',' then some (skip_space cursor) else if b == b']' then some (b ∷ cursor) else none
next_entry [] = none

-- The loop, by fuel; the outer `none` means that it ran out. It ends with the days, and the text
-- behind the bracket.
unfoldable pub parse_entries : ℕ → ℤ → List ℕ → List ℤ → Option (Option (List ℤ × List ℕ))
parse_entries zero expected_year cursor days = none
parse_entries (suc fuel) expected_year cursor days =
    if at cursor 0 == b']'
    then some (some (days, drop 1 cursor))
    else elim (entry_day expected_year cursor days) [
      | none ↦ some none
      | some day ↦ elim (next_entry (skip_space (drop 12 cursor))) [
        | none ↦ some none
        | some next ↦ parse_entries fuel expected_year next (days ++ (day ∷ []))
      ]
    ]

abbrev pub all_read : List ℤ → List ℕ → Option (List ℤ)
all_read days [] = some days
all_read days (c ∷ cursor) = none

abbrev pub at_end : Option (List ℤ × List ℕ) → Option (List ℤ)
at_end none = none
at_end (some (days, rest)) = all_read days (skip_space rest)

abbrev pub finish : Option (Option (List ℤ × List ℕ)) → Option (Option (List ℤ))
finish none = none
finish (some r) = some (at_end r)

-- From the first byte that is no space. Every round of the loop takes twelve bytes.
unfoldable pub parse_array : List ℕ → ℤ → Option (Option (List ℤ))
parse_array [] expected_year = some none
parse_array (c ∷ cursor) expected_year =
    let body = skip_space cursor in
    if not (c == b'[')
    then some none
    else finish (parse_entries (length body + 1) expected_year body [])

unfoldable pub parse_holiday_json : List ℕ → ℤ → Option (Option (List ℤ))
parse_holiday_json json expected_year = parse_array (skip_space json) expected_year
