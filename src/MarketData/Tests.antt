-- ===== src/MarketData/Tests.antt =====
-- Tests of core/src/market_data/market_data.c.
use alpha_fincial_pipline_c.Prelude.{ℕ, ◌≡◌, true, none, some, refl, List, [], ◌∷◌, arith}
use alpha_fincial_pipline_c.Prelude.Int.{pos, ◌*ℤ◌, ◌-ℤ◌}
use alpha_fincial_pipline_c.Domain.{ok, err, range, nyse, nasdaq, kospi}
use alpha_fincial_pipline_c.Double.{round_dp}
use alpha_fincial_pipline_c.Double.Fixed.{fixed_double}
use alpha_fincial_pipline_c.MarketData.{
  last_dot, to_instrument_id, from_instrument_id, sanitize_change_pct, compute_change_pct,
}
use alpha_fincial_pipline_c.MarketData.Ids.{from_instrument_id-to_instrument_id}

-- BRK.B
abbrev ticker : List ℕ
ticker = b'B' ∷ b'R' ∷ b'K' ∷ b'.' ∷ b'B' ∷ []

from_instrument_id-to_instrument_id_example :
    (id : List ℕ) × (to_instrument_id (some ticker) nasdaq true 16 ≡ ok id)
    × (from_instrument_id (some id) true 16 true ≡ ok (ticker, nyse))
from_instrument_id-to_instrument_id_example =
    from_instrument_id-to_instrument_id ticker nasdaq 16 16 (omega arith) (omega arith)

no_suffix : from_instrument_id (some (b'A' ∷ [])) true 2 true ≡ ok (b'A' ∷ [], kospi)
unfolding from_instrument_id last_dot
no_suffix = refl

too_long : from_instrument_id (some (b'A' ∷ [])) true 1 true ≡ err range
unfolding from_instrument_id last_dot
too_long = refl

-- From 200 to 210.
up_five :
    compute_change_pct (pos 210000000) (some (pos 200000000)) true true ≡ ok (some (pos 5000000))
unfolding compute_change_pct sanitize_change_pct ◌*ℤ◌ ◌-ℤ◌ round_dp
up_five = refl

no_previous : compute_change_pct (pos 210000000) none true true ≡ ok none
unfolding compute_change_pct
no_previous = refl
