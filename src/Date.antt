-- ===== src/Date.antt =====
-- core/src/domain/date.c: calendar dates as days since 1970-01-01. A string is the list of its
-- bytes before the NUL. `int64_t` is ℤ, and its bounds are not modelled;
-- `unsigned` wraps at 2 ^ 32.
pub mod Civil
pub mod Era
pub mod Text
pub mod Roundtrip
mod Tests
use alpha_fincial_pipline_c.Prelude.{
  ℕ, zero, suc, ◌+◌, ◌-◌, ◌*◌, ◌/◌, ◌%◌, Bool, true, false, not, ◌||◌, Option, none, some, List, [],
  ◌∷◌, ◌++◌, ltb, leb, ◌==◌, if◌then◌else◌, length, get_or, take, drop, replicate,
}
use alpha_fincial_pipline_c.Prelude.Int.{ℤ, pos, negsuc, ◌+ℤ◌, ◌-ℤ◌, ◌*ℤ◌, leb_ℤ, quot_ℤ}
use alpha_fincial_pipline_c.Prelude.Word.{word, u32, u32_sub, to_u32}
use alpha_fincial_pipline_c.Domain.{Result, ok, err, invalid_arg}

pub record CivilDate : Type 0 where
  pub year : ℤ
  pub month : ℕ
  pub day : ℕ

abbrev pub bool_ℕ : Bool → ℕ
bool_ℕ b = if b then 1 else 0

-- `m + (m > 2 ? -3U : 9U)`
abbrev pub shifted_month : ℕ → ℕ
shifted_month m = u32 (m + (if ltb 2 m then word - 3 else 9))

-- `(y >= 0 ? y : y - (k - 1)) / k`
abbrev pub era_of : ℕ → ℤ → ℤ
era_of k y = quot_ℤ (if leb_ℤ (pos 0) y then y else y -ℤ pos (k - 1)) (pos k)

-- The unsigned arithmetic of `days_from_civil`.
unfoldable pub day_of_era : ℕ → ℕ → ℕ → ℕ
day_of_era yoe m d =
    let doy = u32_sub (u32 (u32 (153 * shifted_month m + 2) / 5 + d)) 1 in
    u32 (u32_sub (u32 (yoe * 365 + yoe / 4)) (yoe / 100) + doy)

unfoldable pub days_from_civil : ℤ → ℕ → ℕ → ℤ
days_from_civil y0 m d =
    let y = y0 -ℤ pos (bool_ℕ (leb m 2)) in
    let era = era_of 400 y in
    let yoe = to_u32 (y -ℤ era *ℤ pos 400) in
    era *ℤ pos 146097 +ℤ pos (day_of_era yoe m d) -ℤ pos 719468

-- The year of its era that day `doe` of the era lies in.
pub year_of_era : ℕ → ℕ
year_of_era doe = u32_sub (u32 (u32_sub doe (doe / 1460) + doe / 36524)) (doe / 146096) / 365

-- The unsigned arithmetic of `civil_from_days`: month and day of day `doe` of an era.
pub month_and_day : ℕ → ℕ × ℕ
month_and_day doe =
    let yoe = year_of_era doe in
    let doy = u32_sub doe (u32_sub (u32 (365 * yoe + yoe / 4)) (yoe / 100)) in
    let mp = u32 (5 * doy + 2) / 153 in
    (u32 (mp + (if ltb mp 10 then 3 else word - 9)), u32 (u32_sub doy (u32 (153 * mp + 2) / 5) + 1))

unfoldable pub civil_from_days : ℤ → CivilDate
civil_from_days z0 =
    let z = z0 +ℤ pos 719468 in
    let era = era_of 146097 z in
    let doe = to_u32 (z -ℤ era *ℤ pos 146097) in
    let yy = pos (year_of_era doe) +ℤ era *ℤ pos 400 in
    let (m, d) = month_and_day doe in
    record { year = yy +ℤ pos (bool_ℕ (leb m 2)); month = m; day = d }

-- The loop of `parse_digits`, with `value` so far; the NUL that ends the string is no digit.
pub parse_digits_from : List ℕ → ℕ → ℕ → Option ℕ
parse_digits_from s zero value = some value
parse_digits_from [] (suc len) value = none
parse_digits_from (c ∷ s) (suc len) value =
    if ltb c b'0' || ltb b'9' c then none else parse_digits_from s len (value * 10 + (c - b'0'))

unfoldable pub parse_digits : List ℕ → ℕ → Option ℕ
unfolding parse_digits_from
parse_digits s len = parse_digits_from s len 0

-- The checks on the three parsed fields, and the result.
pub date_of_fields : Option ℕ → Option ℕ → Option ℕ → Result ℤ
date_of_fields (some year) (some month) (some day) =
    if ltb month 1 || ltb 12 month || ltb day 1 || ltb 31 day
    then err invalid_arg
    else ok (days_from_civil (pos year) month day)
date_of_fields _ _ _ = err invalid_arg

unfoldable pub date_parse : Option (List ℕ) → Bool → Result ℤ
unfolding date_of_fields
date_parse (some iso) true =
    if not (length iso == 10) || not (get_or iso 4 0 == b'-') || not (get_or iso 7 0 == b'-')
    then err invalid_arg
    else date_of_fields (parse_digits iso 4) (parse_digits (drop 5 iso) 2)
        (parse_digits (drop 8 iso) 2)
date_parse _ _ = err invalid_arg

-- `%u`: the decimal digits of `n`, by fuel, which `n + 1` rounds cover.
unfoldable pub decimal_from : ℕ → ℕ → List ℕ → List ℕ
decimal_from zero n rest = rest
decimal_from (suc fuel) n rest =
    let more = decimal_from fuel (n / 10) ((b'0' + n % 10) ∷ rest) in
    if ltb n 10 then (b'0' + n) ∷ rest else more

abbrev pub decimal : ℕ → List ℕ
decimal n = decimal_from (n + 1) n []

abbrev pub zero_pad : ℕ → List ℕ → List ℕ
zero_pad width s = replicate (width - length s) b'0' ++ s

-- `%0<width>lld`
abbrev pub print_signed : ℕ → ℤ → List ℕ
print_signed width (pos n) = zero_pad width (decimal n)
print_signed width (negsuc n) = b'-' ∷ zero_pad (width - 1) (decimal (suc n))

abbrev pub print_civil : CivilDate → List ℕ
print_civil c =
    print_signed 4 c.year
    ++ (b'-' ∷ (zero_pad 2 (decimal c.month) ++ (b'-' ∷ zero_pad 2 (decimal c.day))))

-- `snprintf` writes at most `n - 1` bytes and the NUL.
unfoldable pub date_format : ℤ → Bool → ℕ → Result (List ℕ)
unfolding decimal_from
date_format epoch_day out n =
    if not out || ltb n 11
    then err invalid_arg
    else ok (take (n - 1) (print_civil (civil_from_days epoch_day)))

unfoldable pub date_diff_days : ℤ → ℤ → ℤ
unfolding ◌-ℤ◌
date_diff_days a b = b -ℤ a
