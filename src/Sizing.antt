-- ===== src/Sizing.antt =====
-- core/src/portfolio/sizing.c: the denominator and the gate of the maximal position.
pub mod Gate
mod Tests
use alpha_fincial_pipline_c.Prelude.{ℕ, Bool, true, false, if◌then◌else◌}
use alpha_fincial_pipline_c.Double.{Double, ◌⊕◌, ◌⊗◌, ◌⊘◌, one, hundred}
use alpha_fincial_pipline_c.Risk.Config.{RiskConfig}

module _ {ℓ} {W : Type ℓ} ⦃d : Double W⦄ where
  open d use {lt, le, of_int}

  unfoldable pub max_position_denominator : Bool → W → W → W → W
  max_position_denominator true total_value paper_seed_capital intended_buy_value =
      let denom = if lt total_value paper_seed_capital then paper_seed_capital else total_value in
      if lt denom one then one else denom
  max_position_denominator false total_value paper_seed_capital intended_buy_value =
      let denom = total_value ⊕ intended_buy_value in if lt one denom then denom else one

  -- The answer, with the weight that goes through `next_weight_pct_out`.
  unfoldable pub max_position_allows_buy : RiskConfig → W → W → W → Bool × W
  max_position_allows_buy config existing_position_value intended_buy_value denominator =
      let next_value = existing_position_value ⊕ intended_buy_value in
      let next_weight_pct = next_value ⊘ denominator ⊗ hundred in
      (le next_weight_pct (of_int config.max_position_pct), next_weight_pct)
