-- ===== src/MarketData.antt =====
-- core/src/market_data/market_data.c: instrument ids, and changes in percent. A string is the list
-- of its bytes before the NUL.
pub mod Ids
mod Tests
use alpha_fincial_pipline_c.Prelude.{
  ℕ, zero, suc, ◌+◌, ◌-◌, Bool, true, false, not, ◌&&◌, ◌||◌, Option, none, some, List, [], ◌∷◌,
  ◌++◌, length, take, drop, leb, ◌==◌, if◌then◌else◌,
}
use alpha_fincial_pipline_c.Prelude.Int.{pos}
use alpha_fincial_pipline_c.Domain.{
  Result, ok, err, invalid_arg, range, Market, kospi, kosdaq, nyse, nasdaq,
}
use alpha_fincial_pipline_c.Double.{Double, ◌⊖◌, ◌⊗◌, ◌⊘◌, nought, hundred, round_dp}

abbrev pub market_suffix : Market → List ℕ
market_suffix kospi = b'K' ∷ b'S' ∷ []
market_suffix kosdaq = b'K' ∷ b'Q' ∷ []
market_suffix nyse = b'U' ∷ b'S' ∷ []
market_suffix nasdaq = b'U' ∷ b'S' ∷ []

-- `strcmp(a, b) == 0`
abbrev pub str_eq : List ℕ → List ℕ → Bool
str_eq [] [] = true
str_eq [] (y ∷ ys) = false
str_eq (x ∷ xs) [] = false
str_eq (x ∷ xs) (y ∷ ys) = x == y && str_eq xs ys

abbrev pub suffix_market : List ℕ → Market
suffix_market suffix =
    if str_eq suffix (b'K' ∷ b'S' ∷ [])
    then kospi
    else if str_eq suffix (b'K' ∷ b'Q' ∷ [])
    then kosdaq
    else if str_eq suffix (b'U' ∷ b'S' ∷ [])
    then nyse
    else kospi

-- `snprintf(out, n, "%s.%s", …)`: the length of the whole text decides.
unfoldable pub to_instrument_id : Option (List ℕ) → Market → Bool → ℕ → Result (List ℕ)
to_instrument_id (some ticker) market true n =
    let text = ticker ++ (b'.' ∷ market_suffix market) in
    if leb n (length text) then err range else ok text
to_instrument_id _ market _ n = err invalid_arg

-- `strrchr(s, '.')` as an index.
unfoldable pub last_dot : List ℕ → Option ℕ
last_dot [] = none
last_dot (c ∷ s) = elim (last_dot s) [
  | some i ↦ some (suc i)
  | none ↦ if c == b'.' then some 0 else none
]

-- The raw code and the market, once the id is split at `dot`.
abbrev pub split_at : List ℕ → Option ℕ → List ℕ × List ℕ
split_at instrument_id none = (instrument_id, b'K' ∷ b'S' ∷ [])
split_at instrument_id (some i) = (take i instrument_id, drop (suc i) instrument_id)

unfoldable pub from_instrument_id : Option (List ℕ) → Bool → ℕ → Bool → Result (List ℕ × Market)
from_instrument_id (some instrument_id) true raw_n true =
    let (raw, suffix) = split_at instrument_id (last_dot instrument_id) in
    if leb raw_n (length raw) then err range else ok (raw, suffix_market suffix)
from_instrument_id _ _ raw_n _ = err invalid_arg

module _ {ℓ} {W : Type ℓ} ⦃d : Double W⦄ where
  open d use {lit, lt, le, fabs, is_finite}

  abbrev pub max_abs_change_pct : W
  max_abs_change_pct = lit 999999 3

  -- `none` is `*has_value = false`. The two tests are `has_value != NULL` and `out != NULL`.
  unfoldable pub sanitize_change_pct : W → Bool → Bool → Result (Option W)
  sanitize_change_pct value has_value out =
      if not has_value || not out
      then err invalid_arg
      else if not (is_finite value) || lt max_abs_change_pct (fabs value)
      then ok none
      else ok (some (round_dp value (pos 3)))

  abbrev pub previous_or : Option W → W
  previous_or none = nought
  previous_or (some previous) = previous

  abbrev pub is_absent : Option W → Bool
  is_absent none = true
  is_absent (some previous) = false

  unfoldable pub compute_change_pct : W → Option W → Bool → Bool → Result (Option W)
  compute_change_pct current previous0 has_value out =
      let previous = previous_or previous0 in
      if not has_value || not out
      then err invalid_arg
      else if is_absent previous0
          || le previous nought
          || not (is_finite current)
          || not (is_finite previous)
      then ok none
      else sanitize_change_pct ((current ⊖ previous) ⊘ previous ⊗ hundred) has_value out
