-- ===== src/Backtest.antt =====
-- The data of core/include/alpha/backtest.h. A fixed buffer of characters is the list of its bytes
-- before the NUL.
pub mod Signals
pub mod Metrics
pub mod Engine
mod Tests
use alpha_fincial_pipline_c.Prelude.{ℕ, List}
use alpha_fincial_pipline_c.Prelude.Int.{ℤ}
use alpha_fincial_pipline_c.Domain.{Side}

-- ALPHA_TICKER_CAP
abbrev pub ticker_cap : ℕ
ticker_cap = 32

pub record BacktestConfig {ℓ} (W : Type ℓ) : Type ℓ where
  pub ticker : List ℕ
  pub strategy : List ℕ
  pub train_start : ℤ
  pub train_end : ℤ
  pub test_start : ℤ
  pub test_end : ℤ
  pub initial_capital : ℤ
  pub commission_rate_pct : W
  pub tax_rate_pct : W
  pub slippage_bps : ℤ

pub record TradeRecord {ℓ} (W : Type ℓ) : Type ℓ where
  pub date : ℤ
  pub side : Side
  pub ticker : List ℕ
  pub price : W
  pub quantity : ℤ
  pub commission : W
  pub tax : W
  pub slippage_cost : W
  pub total_cost : W
  pub pnl : W

pub record DailySnapshot {ℓ} (W : Type ℓ) : Type ℓ where
  pub date : ℤ
  pub close_price : W
  pub cash : W
  pub position_qty : ℤ
  pub position_value : W
  pub portfolio_value : W
  pub daily_return_pct : W

pub record BacktestMetrics {ℓ} (W : Type ℓ) : Type ℓ where
  pub total_return_pct : W
  pub annual_return_pct : W
  pub sharpe_ratio : W
  pub max_drawdown_pct : W
  pub win_rate : W
  pub total_trades : ℕ
  pub avg_holding_days : W
  pub baseline_return_pct : W
  pub excess_return_pct : W

pub record BacktestResult {ℓ} (W : Type ℓ) : Type ℓ where
  pub config : BacktestConfig W
  pub metrics : BacktestMetrics W
  pub trades : List (TradeRecord W)
  pub snapshots : List (DailySnapshot W)
