-- ===== src/Backtest/Tests.antt =====
-- Tests of the backtest of core/src/backtest, in millionths.
use alpha_fincial_pipline_c.Prelude.{
  ◌≡◌, ◌≤◌, ◌++◌, ◌==◌, refl, true, List, [], ◌∷◌, map, length, if◌then◌else◌,
}
use mathlib.Core.List.{foldl}
use alpha_fincial_pipline_c.Prelude.Int.{pos, ℤ, ◌≤ℤ◌, ◌*ℤ◌, ◌+ℤ◌, ◌-ℤ◌}
use alpha_fincial_pipline_c.Domain.{buy, sell, ok}
use alpha_fincial_pipline_c.Double.{nought, ◌⊘◌}
use alpha_fincial_pipline_c.Double.Fixed.{fixed_double}
use alpha_fincial_pipline_c.Cost.{CostModel, cost_calculate}
use alpha_fincial_pipline_c.Backtest.{BacktestConfig, BacktestResult, TradeRecord, DailySnapshot}
use alpha_fincial_pipline_c.Backtest.Signals.{SignalFn, replay_signal, replay_lookup}
use alpha_fincial_pipline_c.Backtest.Metrics.{compute_metrics, compute_avg_holding_days}
use alpha_fincial_pipline_c.Backtest.Metrics.Fifo.{
  fifo_step, nothing_pending, compute_avg_holding_days-fifo,
}
use alpha_fincial_pipline_c.Backtest.Engine.{
  Bar, Heap, all_given, run_bars, backtest_run, run_from, trade_bar, take_snapshot, open_position,
  close_position, buy_shares,
}
use alpha_fincial_pipline_c.Backtest.Engine.Ledger.{Replays, backtest_run-ledger}
use alpha_fincial_pipline_c.Backtest.Engine.Causal.{replay_signal-IsCausal, run_bars-causal}

abbrev config : BacktestConfig ℤ
config = record {
  ticker = b'A' ∷ [];
  strategy = b'R' ∷ [];
  train_start = pos 0;
  train_end = pos 9;
  test_start = pos 10;
  test_end = pos 20;
  initial_capital = pos 1000;
  commission_rate_pct = pos 0;
  tax_rate_pct = pos 0;
  slippage_bps = pos 0;
}

abbrev cost : CostModel ℤ
cost = record { commission_rate = pos 0; tax_rate = pos 0; slippage_rate = pos 0 }

abbrev bars : List (Bar ℤ)
bars =
    record { date = pos 10; price = pos 100000000 }
    ∷ record { date = pos 11; price = pos 120000000 }
    ∷ []

abbrev later_bars : List (Bar ℤ)
later_bars = record { date = pos 12; price = pos 90000000 } ∷ []

-- Buy on the first day and sell on the second.
abbrev source : SignalFn ℤ
source = replay_signal ((pos 10, buy) ∷ (pos 11, sell) ∷ [])

abbrev result : BacktestResult ℤ
result =
    let r = run_bars config bars source cost in
    record {
      config = config;
      metrics = compute_metrics true true r.snapshots r.trades (pos 1000);
      trades = r.trades;
      snapshots = r.snapshots;
    }

abbrev all_there : Heap
all_there = record {
  trades_there = true;
  snapshots_there = true;
  returns_there = true;
  queue_there = true;
}

runs : backtest_run all_given all_there config bars source cost ≡ ok result
unfolding backtest_run
runs = refl

quantities : map (λ (t : TradeRecord ℤ). t.quantity) result.trades ≡ pos 10 ∷ pos 10 ∷ []
unfolding run_from trade_bar take_snapshot open_position close_position buy_shares cost_calculate
    replay_signal replay_lookup ◌*ℤ◌ ◌+ℤ◌ ◌-ℤ◌
quantities = refl

backtest_run-ledger_example :
    (final : ℤ) × Replays (pos 0) result.trades final
    × (pos 0 ≤ℤ final)
    × (length result.trades ≤ length bars)
    × (map (λ s. s.date) result.snapshots ≡ map (λ b. b.date) bars)
    × (map (λ s. s.close_price) result.snapshots ≡ map (λ b. b.price) bars)
backtest_run-ledger_example =
    backtest_run-ledger all_given all_there config bars source cost result runs

run_bars-causal_example :
    let r = run_bars config bars source cost in
    let longer = run_bars config (bars ++ later_bars) source cost in
    (ts : List (TradeRecord ℤ)) × (snaps : List (DailySnapshot ℤ)) × (longer.trades
      ≡ r.trades ++ ts)
    × (longer.snapshots ≡ r.snapshots ++ snaps)
run_bars-causal_example =
    run_bars-causal cost config source bars later_bars
      (replay_signal-IsCausal ((pos 10, buy) ∷ (pos 11, sell) ∷ []))

compute_avg_holding_days-fifo_example : compute_avg_holding_days result.trades ≡ (
    let s = foldl fifo_step nothing_pending result.trades in
    if s.matched == 0
    then nought
    else fixed_double.of_int s.total ⊘ fixed_double.of_int (pos s.matched))
compute_avg_holding_days-fifo_example = compute_avg_holding_days-fifo result.trades
