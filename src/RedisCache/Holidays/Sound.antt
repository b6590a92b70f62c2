-- ===== src/RedisCache/Holidays/Sound.antt =====
-- What the calendar parser of core/platform/cache/redis_cache.c accepts, and that it ends.
use alpha_fincial_pipline_c.Prelude.{
  ℕ, zero, suc, ◌+◌, ◌≤◌, ◌<◌, ◌≡◌, ◌≢◌, refl, false, Option, none, some, List, [], ◌∷◌, ◌++◌,
  length, length-append, length-drop, drop, arith, Bool-cases, inl, inr, Option-cases, All,
  All-append, ◌==◌,
}
use alpha_fincial_pipline_c.Prelude.Int.{ℤ, pos, ◌<ℤ◌}
use alpha_fincial_pipline_c.Prelude.Word.{to_u32}
use alpha_fincial_pipline_c.MarketHours.Holiday.{IsAscending}
use alpha_fincial_pipline_c.RedisCache.Holidays.{
  max_holidays, civil_year_from_days, skip_space, at, not_after_last, checked_day, entry_day,
  next_entry, parse_entries, all_read, at_end, parse_array, parse_holiday_json, parse_fixed_decimal,
}

-- Each day is after the one before it.
abbrev pub IsIncreasing : List ℤ → Type 0
IsIncreasing [] = Unit
IsIncreasing (a ∷ []) = Unit
IsIncreasing (a ∷ b ∷ l) = (a <ℤ b) × IsIncreasing (b ∷ l)

pub IsIncreasing-IsAscending : (l : List ℤ) → IsIncreasing l → IsAscending l
IsIncreasing-IsAscending [] h = tt
IsIncreasing-IsAscending (a ∷ []) h = tt
IsIncreasing-IsAscending (a ∷ b ∷ l) h = (omega arith, IsIncreasing-IsAscending (b ∷ l) h.1)

-- At most 512 days, in order, and all of the year.
pub record IsCalendar (year : ℤ) (days : List ℤ) : Type 0 where
  pub few : length days ≤ max_holidays
  pub increasing : IsIncreasing days
  pub of_year : All (λ d. civil_year_from_days d ≡ pos (to_u32 year)) days

IsIncreasing-append :
    (days : List ℤ) (d : ℤ)
    → IsIncreasing days
    → not_after_last days d ≡ false
    → IsIncreasing (days ++ (d ∷ []))
IsIncreasing-append [] d h n = tt
IsIncreasing-append (a ∷ []) d h n = (ground arith, tt)
IsIncreasing-append (a ∷ b ∷ l) d h n = (h.0, IsIncreasing-append (b ∷ l) d h.1 n)

checked_day-ok :
    (year : ℤ) (days : List ℤ) (y m d : Option ℕ) (day : ℤ)
    → checked_day year days y m d ≡ some day
    → (civil_year_from_days day ≡ pos (to_u32 year)) × (not_after_last days day ≡ false)
unfolding checked_day
checked_day-ok year days (some y) (some m) (some d) day e = ground arith
checked_day-ok year days none m d day e = ground arith
checked_day-ok year days (some y) none d day e = ground arith
checked_day-ok year days (some y) (some m) none day e = ground arith

skip_space-le : (cursor : List ℕ) → length (skip_space cursor) ≤ length cursor
unfolding skip_space
skip_space-le [] = omega arith
skip_space-le (c ∷ cursor) = ground (arith, skip_space-le cursor)

next_entry-le : (cursor next : List ℕ) → next_entry cursor ≡ some next → length next ≤ length cursor
unfolding next_entry
next_entry-le [] next e = ground arith
next_entry-le (b ∷ cursor) next e = ground (arith, skip_space-le cursor)

entry_day-ok :
    (year : ℤ) (cursor : List ℕ) (days : List ℤ) (day : ℤ)
    → entry_day year cursor days ≡ some day
    → (12 ≤ length cursor)
      × (length days ≢ max_holidays)
      × (civil_year_from_days day ≡ pos (to_u32 year))
      × (not_after_last days day ≡ false)
unfolding entry_day
entry_day-ok year cursor days day e = ground (
  arith,
  checked_day-ok year days (parse_fixed_decimal (drop 1 cursor) 4 0)
      (parse_fixed_decimal (drop 6 cursor) 2 0) (parse_fixed_decimal (drop 9 cursor) 2 0) day,
)

next-length :
    (cursor next : List ℕ)
    → 12 ≤ length cursor
    → next_entry (skip_space (drop 12 cursor)) ≡ some next
    → length next < length cursor
next-length cursor next h q =
    let a = next_entry-le (skip_space (drop 12 cursor)) next q in
    let b = skip_space-le (drop 12 cursor) in omega (arith, a, b, length-drop 12 cursor)

IsCalendar-append :
    (year : ℤ) (days : List ℤ) (day : ℤ)
    → IsCalendar year days
    → length days ≢ max_holidays
    → civil_year_from_days day ≡ pos (to_u32 year)
    → not_after_last days day ≡ false
    → IsCalendar year (days ++ (day ∷ []))
IsCalendar-append year days day c ne y n =
    let few = c.few in
    record {
      few = omega (arith, length-append days (day ∷ []));
      increasing = IsIncreasing-append days day c.increasing n;
      of_year =
          All-append (λ d. civil_year_from_days d ≡ pos (to_u32 year)) days (day ∷ []) c.of_year
            (y, tt);
    }

abbrev Ends : ℤ → Option (List ℤ × List ℕ) → Type 0
Ends year none = Unit
Ends year (some (days, rest)) = IsCalendar year days

-- The loop ends, and the days that it leaves with are a calendar.
parse_entries-IsCalendar :
    (fuel : ℕ) (year : ℤ) (cursor : List ℕ) (days : List ℤ)
    → length cursor < fuel
    → IsCalendar year days
    → (r : Option (List ℤ × List ℕ)) × (parse_entries fuel year cursor days ≡ some r) × Ends year r
unfolding parse_entries
parse_entries-IsCalendar zero year cursor days h c = absurd (omega arith)
parse_entries-IsCalendar (suc fuel) year cursor days h c = elim (Bool-cases (at cursor 0 == b']')) [
  | inl e ↦ (some (days, drop 1 cursor), rw e refl, c)
  | inr e ↦ elim (Option-cases (entry_day year cursor days)) [
    | inl p ↦ (none, rw (e, p) refl, tt)
    | inr (day, p) ↦ elim (Option-cases (next_entry (skip_space (drop 12 cursor)))) [
      | inl q ↦ (none, rw (e, p, q) refl, tt)
      | inr (next, q) ↦
          let (long, ne, y, n) = entry_day-ok year cursor days day p in
          let (r, runs, ends) =
            parse_entries-IsCalendar fuel year next (days ++ (day ∷ []))
              (omega (arith, next-length cursor next long q))
              (IsCalendar-append year days day c ne y n) in
          (r, rw (e, p, q) runs, ends)
    ]
  ]
]

-- What the parser accepts is a calendar; it may accept nothing.
abbrev pub Accepts : ℤ → Option (List ℤ) → Type 0
Accepts year none = Unit
Accepts year (some days) = IsCalendar year days

no_days : (year : ℤ) → IsCalendar year []
no_days year = record { few = omega arith; increasing = tt; of_year = tt }

all_read-Accepts :
    (year : ℤ) (days : List ℤ) (rest : List ℕ)
    → IsCalendar year days
    → Accepts year (all_read days rest)
all_read-Accepts year days [] h = h
all_read-Accepts year days (c ∷ rest) h = tt

at_end-Accepts : (year : ℤ) (r : Option (List ℤ × List ℕ)) → Ends year r → Accepts year (at_end r)
at_end-Accepts year none h = tt
at_end-Accepts year (some (days, rest)) h = all_read-Accepts year days (skip_space rest) h

parse_array-Accepts :
    (text : List ℕ) (year : ℤ)
    → (r : Option (List ℤ)) × (parse_array text year ≡ some r) × Accepts year r
unfolding parse_array
parse_array-Accepts [] year = (none, refl, tt)
parse_array-Accepts (c ∷ cursor) year = elim (Bool-cases (c == b'[')) [
  | inr e ↦ (none, rw e refl, tt)
  | inl e ↦
      let body = skip_space cursor in
      let (r, runs, ends) =
        parse_entries-IsCalendar (length body + 1) year body [] (omega arith) (no_days year) in
      (at_end r, rw (e, runs) refl, at_end-Accepts year r ends)
]

-- `parse_holiday_json` ends on every text. If it accepts the text, the days are at most 512, each
-- after the one before it, and all of the year.
pub parse_holiday_json-IsCalendar :
    (json : List ℕ) (year : ℤ)
    → (r : Option (List ℤ)) × (parse_holiday_json json year ≡ some r) × Accepts year r
unfolding parse_holiday_json
parse_holiday_json-IsCalendar json year = parse_array-Accepts (skip_space json) year
