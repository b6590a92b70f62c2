-- ===== src/Backtest/Metrics.antt =====
-- core/src/backtest/metrics.c: the figures of a run. Whether `malloc` succeeds for more than 512
-- entries is a parameter for each of the two buffers.
pub mod Fifo
use mathlib.Core.List.{foldl}
use alpha_fincial_pipline_c.Prelude.{
  not, ℕ, suc, ◌+◌, ◌-◌, Bool, true, false, ◌&&◌, ◌||◌, List, [], ◌∷◌, ◌++◌, map, length, get_or,
  leb, ltb, ◌==◌, if◌then◌else◌,
}
use alpha_fincial_pipline_c.Prelude.Int.{ℤ, pos, ◌+ℤ◌, ◌-ℤ◌, ltb_ℤ}
use alpha_fincial_pipline_c.Domain.{is_side_sell}
use alpha_fincial_pipline_c.Double.{Double, ◌⊕◌, ◌⊖◌, ◌⊗◌, ◌⊘◌, nought, one, hundred, round_dp}
use alpha_fincial_pipline_c.Backtest.{TradeRecord, DailySnapshot, BacktestMetrics}

-- The loop variables of `compute_avg_holding_days`; `tail` is the length of `queue`.
pub record Holding : Type 0 where
  pub queue : List ℤ
  pub head : ℕ
  pub total : ℤ
  pub matched : ℕ

abbrev pub no_holding : Holding
no_holding = record { queue = []; head = 0; total = pos 0; matched = 0 }

-- `holding > 0 ? holding : 0`
abbrev pub positive_part : ℤ → ℤ
positive_part holding = if ltb_ℤ (pos 0) holding then holding else pos 0

-- The sells and the wins among them.
pub record Wins : Type 0 where
  pub sells : ℕ
  pub wins : ℕ

abbrev pub no_wins : Wins
no_wins = record { sells = 0; wins = 0 }

-- The peak and the deepest drawdown.
pub record Drawdown {ℓ} (W : Type ℓ) : Type ℓ where
  pub peak : W
  pub mdd : W

module _ {ℓ} {W : Type ℓ} ⦃d : Double W⦄ where
  open d use {lit, lt, le, neg, of_int, sqrt, pow}

  abbrev pub trading_days_per_year : W
  trading_days_per_year = lit 252 0

  abbrev pub sum : List W → W
  sum = foldl (λ s x. s ⊕ x) nought

  unfoldable pub compute_sharpe : List W → W
  compute_sharpe returns =
      let n = length returns in
      let mean = sum returns ⊘ of_int (pos n) in
      let sq = foldl (λ s x. s ⊕ (x ⊖ mean) ⊗ (x ⊖ mean)) nought returns in
      let variance = sq ⊘ of_int (pos (n - 1)) in
      let std = sqrt variance in
      if ltb n 2
      then nought
      else if le std nought
      then nought
      else mean ⊘ std ⊗ sqrt trading_days_per_year

  unfoldable pub mdd_step : Drawdown W → DailySnapshot W → Drawdown W
  mdd_step s snapshot =
      let value = snapshot.portfolio_value in
      let peak = if lt s.peak value then value else s.peak in
      let dd = (value ⊖ peak) ⊘ peak ⊗ hundred in
      record { peak = peak; mdd = if lt dd s.mdd then dd else s.mdd }

  unfoldable pub compute_mdd : DailySnapshot W → List (DailySnapshot W) → W
  compute_mdd first rest =
      (foldl mdd_step (record { peak = first.portfolio_value; mdd = nought }) (first ∷ rest)).mdd

  -- A read behind the scratch space is ruled out by the test.
  unfoldable pub holding_step : Holding → TradeRecord W → Holding
  holding_step s trade =
      let holding = trade.date -ℤ get_or s.queue s.head (pos 0) in
      if not (is_side_sell trade.side)
      then record s { queue = s.queue ++ (trade.date ∷ []) }
      else if ltb s.head (length s.queue)
      then record s {
        head = s.head + 1;
        total = s.total +ℤ positive_part holding;
        matched = s.matched + 1;
      }
      else s

  unfoldable pub compute_avg_holding_days : List (TradeRecord W) → W
  unfolding holding_step
  compute_avg_holding_days trades =
      let s = foldl holding_step no_holding trades in
      if s.matched == 0 then nought else of_int s.total ⊘ of_int (pos s.matched)

  unfoldable pub wins_step : Wins → TradeRecord W → Wins
  wins_step s trade =
      if is_side_sell trade.side
      then record { sells = s.sells + 1; wins = if lt nought trade.pnl then s.wins + 1 else s.wins }
      else s

  unfoldable pub win_rate_of : List (TradeRecord W) → W
  unfolding wins_step
  win_rate_of trades =
      let s = foldl wins_step no_wins trades in
      if ltb 0 s.sells then of_int (pos s.wins) ⊘ of_int (pos s.sells) ⊗ hundred else nought

  abbrev pub no_metrics : BacktestMetrics W
  no_metrics = record {
    total_return_pct = nought;
    annual_return_pct = nought;
    sharpe_ratio = nought;
    max_drawdown_pct = nought;
    win_rate = nought;
    total_trades = 0;
    avg_holding_days = nought;
    baseline_return_pct = nought;
    excess_return_pct = nought;
  }

  -- `snapshots[ns - 1]`
  abbrev pub last_of : DailySnapshot W → List (DailySnapshot W) → DailySnapshot W
  last_of first [] = first
  last_of first (next ∷ rest) = last_of next rest

  unfoldable pub compute_metrics :
      Bool → Bool → List (DailySnapshot W) → List (TradeRecord W) → ℤ → BacktestMetrics W
  unfolding compute_sharpe compute_mdd mdd_step compute_avg_holding_days win_rate_of
  compute_metrics returns_heap queue_heap [] trades initial_capital = no_metrics
  compute_metrics returns_heap queue_heap (first ∷ rest) trades initial_capital =
      let ns = length (first ∷ rest) in
      let nt = length trades in
      let last = last_of first rest in
      let initial = of_int initial_capital in
      let total_return = (last.portfolio_value ⊖ initial) ⊘ initial in
      let total_return_pct = total_return ⊗ hundred in
      let annual_return_pct =
        if ltb 1 ns && lt (neg one) total_return
        then (pow (one ⊕ total_return) (trading_days_per_year ⊘ of_int (pos ns)) ⊖ one) ⊗ hundred
        else nought in
      let returns = map (λ s. s.daily_return_pct ⊘ hundred) (first ∷ rest) in
      let sharpe = if leb ns 512 || returns_heap then compute_sharpe returns else nought in
      let avg_holding_days =
        if ltb 0 nt && (leb nt 512 || queue_heap)
        then compute_avg_holding_days trades
        else nought in
      let baseline_return_pct =
        if lt nought first.close_price
        then (last.close_price ⊘ first.close_price ⊖ one) ⊗ hundred
        else nought in
      record {
        total_return_pct = round_dp total_return_pct (pos 4);
        annual_return_pct = round_dp annual_return_pct (pos 4);
        sharpe_ratio = round_dp sharpe (pos 4);
        max_drawdown_pct = round_dp (compute_mdd first rest) (pos 4);
        win_rate = round_dp (win_rate_of trades) (pos 4);
        total_trades = nt;
        avg_holding_days = round_dp avg_holding_days (pos 1);
        baseline_return_pct = round_dp baseline_return_pct (pos 4);
        excess_return_pct = round_dp (total_return_pct ⊖ baseline_return_pct) (pos 4);
      }
