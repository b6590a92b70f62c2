-- ===== src/Risk/Config.antt =====
-- The data of core/include/alpha/risk.h.
use alpha_fincial_pipline_c.Prelude.{ℕ, List}
use alpha_fincial_pipline_c.Prelude.Int.{ℤ, pos}

pub record RiskConfig : Type 0 where
  pub max_position_pct : ℤ
  pub daily_loss_limit_pct : ℤ
  pub individual_stop_loss_pct : ℤ
  pub take_profit_pct : ℤ
  pub portfolio_drawdown_limit_pct : ℤ

abbrev pub risk_config_default : RiskConfig
risk_config_default = record {
  max_position_pct = pos 20;
  daily_loss_limit_pct = pos 3;
  individual_stop_loss_pct = pos 7;
  take_profit_pct = pos 5;
  portfolio_drawdown_limit_pct = pos 8;
}

pub record Position {ℓ} (W : Type ℓ) : Type ℓ where
  pub ticker : List ℕ
  pub quantity : ℤ
  pub avg_fill_price : W
  pub current_price : W

pub data ExitKind : Type 0 where
  no_exit take_profit stop_loss : ExitKind
