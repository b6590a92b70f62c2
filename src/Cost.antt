-- ===== src/Cost.antt =====
-- core/src/backtest/cost_model.c and cost_model.h.
use alpha_fincial_pipline_c.Prelude.{if◌then◌else◌}
use alpha_fincial_pipline_c.Prelude.Int.{ℤ, pos}
use alpha_fincial_pipline_c.Domain.{Side, is_side_sell}
use alpha_fincial_pipline_c.Double.{Double, ◌⊕◌, ◌⊗◌, ◌⊘◌, nought, hundred}

pub record CostModel {ℓ} (W : Type ℓ) : Type ℓ where
  pub commission_rate : W
  pub tax_rate : W
  pub slippage_rate : W

pub record TradeCost {ℓ} (W : Type ℓ) : Type ℓ where
  pub commission : W
  pub tax : W
  pub slippage_cost : W
  pub total : W

module _ {ℓ} {W : Type ℓ} ⦃d : Double W⦄ where
  open d use {lit, of_int}

  unfoldable pub cost_model_make : W → W → ℤ → CostModel W
  cost_model_make commission_rate_pct tax_rate_pct slippage_bps = record {
    commission_rate = commission_rate_pct ⊘ hundred;
    tax_rate = tax_rate_pct ⊘ hundred;
    slippage_rate = of_int slippage_bps ⊘ lit 10000 0;
  }

  unfoldable pub cost_model_default : CostModel W
  unfolding cost_model_make
  cost_model_default = cost_model_make (lit 15 3) (lit 18 2) (pos 3)

  unfoldable pub cost_calculate : CostModel W → Side → W → ℤ → TradeCost W
  cost_calculate model side price quantity =
      let notional = price ⊗ of_int quantity in
      let commission = notional ⊗ model.commission_rate in
      let tax = if is_side_sell side then notional ⊗ model.tax_rate else nought in
      let slippage_cost = notional ⊗ model.slippage_rate in
      record {
        commission = commission;
        tax = tax;
        slippage_cost = slippage_cost;
        total = commission ⊕ tax ⊕ slippage_cost;
      }
