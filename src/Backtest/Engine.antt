-- ===== src/Backtest/Engine.antt =====
-- core/src/backtest/engine.c: the simulation of one ticker, bar by bar. The loop of
-- `alpha_backtest_run` returns what it writes to `trades` and `snapshots`, in order. Whether the
-- allocations succeed is a parameter, and so is the signal source, a function of its arguments.
pub mod Ledger
pub mod Causal
use alpha_fincial_pipline_c.Prelude.{
  ℕ, ◌+◌, ◌-◌, Bool, true, false, not, ◌&&◌, ◌||◌, Option, none, some, List, [], ◌∷◌, ◌++◌, map,
  length, take, leb, ltb, if◌then◌else◌,
}
use alpha_fincial_pipline_c.Prelude.Int.{ℤ, pos, ◌-ℤ◌, leb_ℤ, ltb_ℤ, eqb_ℤ}
use alpha_fincial_pipline_c.Domain.{
  Result, ok, err, invalid_arg, io, side_buy, side_sell, is_buy, is_sell, is_close,
}
use alpha_fincial_pipline_c.Double.{Double, ◌⊕◌, ◌⊖◌, ◌⊗◌, ◌⊘◌, nought, hundred}
use alpha_fincial_pipline_c.Cost.{CostModel, cost_calculate}
use alpha_fincial_pipline_c.Backtest.{
  ticker_cap, BacktestConfig, TradeRecord, DailySnapshot, BacktestResult,
}
use alpha_fincial_pipline_c.Backtest.Signals.{SignalFn}
use alpha_fincial_pipline_c.Backtest.Metrics.{compute_metrics}

pub record EngineState {ℓ} (W : Type ℓ) : Type ℓ where
  pub cash : W
  pub position_qty : ℤ
  pub avg_buy_price : W
  pub prev_portfolio_value : W

-- `dates[i]` and `prices[i]`
pub record Bar {ℓ} (W : Type ℓ) : Type ℓ where
  pub date : ℤ
  pub price : W

-- Which of the pointers that `alpha_backtest_run` is given are not NULL.
pub record Given : Type 0 where
  pub has_config : Bool
  pub has_prices : Bool
  pub has_dates : Bool
  pub has_signal_fn : Bool
  pub has_cost : Bool
  pub has_out : Bool

abbrev pub all_given : Given
all_given = record {
  has_config = true;
  has_prices = true;
  has_dates = true;
  has_signal_fn = true;
  has_cost = true;
  has_out = true;
}

-- Which calls of `malloc` succeed: the two of the engine, and the two of the metrics.
pub record Heap : Type 0 where
  pub trades_there : Bool
  pub snapshots_there : Bool
  pub returns_there : Bool
  pub queue_there : Bool

-- What the loop leaves behind.
pub record Run {ℓ} (W : Type ℓ) : Type ℓ where
  pub trades : List (TradeRecord W)
  pub snapshots : List (DailySnapshot W)
  pub final : EngineState W

abbrev pub copy_ticker : List ℕ → List ℕ
copy_ticker src = take (if leb ticker_cap (length src) then ticker_cap - 1 else length src) src

module _ {ℓ} {W : Type ℓ} ⦃d : Double W⦄ (cost : CostModel W) (config : BacktestConfig W) where
  open d use {lt, le, of_int, to_int, floor}

  -- The purchase of `quantity` shares, the second half of `open_position`.
  unfoldable pub buy_shares : EngineState W → ℤ → W → ℤ → EngineState W × TradeRecord W
  buy_shares state date price quantity =
      let c = cost_calculate cost side_buy price quantity in
      (
        record state {
          cash = state.cash ⊖ (price ⊗ of_int quantity ⊕ c.total);
          avg_buy_price = price;
          position_qty = quantity;
        },
        record {
          date = date;
          side = side_buy;
          ticker = copy_ticker config.ticker;
          price = price;
          quantity = quantity;
          commission = c.commission;
          tax = c.tax;
          slippage_cost = c.slippage_cost;
          total_cost = c.total;
          pnl = nought;
        },
      )

  unfoldable pub open_position : EngineState W → ℤ → W → Option (EngineState W × TradeRecord W)
  unfolding buy_shares
  open_position state date price =
      let unit = cost_calculate cost side_buy price (pos 1) in
      let effective_price = price ⊕ unit.total in
      let quantity = to_int (floor (state.cash ⊘ effective_price)) in
      let c = cost_calculate cost side_buy price quantity in
      let total_outlay = price ⊗ of_int quantity ⊕ c.total in
      let fewer = quantity -ℤ pos 1 in
      if le effective_price nought
      then none
      else if leb_ℤ quantity (pos 0)
      then none
      else if lt state.cash total_outlay
      then (if leb_ℤ fewer (pos 0) then none else some (buy_shares state date price fewer))
      else some (buy_shares state date price quantity)

  unfoldable pub close_position : EngineState W → ℤ → W → EngineState W × TradeRecord W
  close_position state date price =
      let qty = state.position_qty in
      let c = cost_calculate cost side_sell price qty in
      let pnl = (price ⊖ state.avg_buy_price) ⊗ of_int qty ⊖ c.total in
      (
        record state {
          cash = state.cash ⊕ (price ⊗ of_int qty ⊖ c.total);
          position_qty = pos 0;
          avg_buy_price = nought;
        },
        record {
          date = date;
          side = side_sell;
          ticker = copy_ticker config.ticker;
          price = price;
          quantity = qty;
          commission = c.commission;
          tax = c.tax;
          slippage_cost = c.slippage_cost;
          total_cost = c.total;
          pnl = pnl;
        },
      )

  unfoldable pub take_snapshot : EngineState W → ℤ → W → EngineState W × DailySnapshot W
  take_snapshot state date close_price =
      let position_value = of_int state.position_qty ⊗ close_price in
      let portfolio_value = state.cash ⊕ position_value in
      let daily_return_pct =
        if lt nought state.prev_portfolio_value
        then (portfolio_value ⊖ state.prev_portfolio_value) ⊘ state.prev_portfolio_value ⊗ hundred
        else nought in
      (
        record state { prev_portfolio_value = portfolio_value },
        record {
          date = date;
          close_price = close_price;
          cash = state.cash;
          position_qty = state.position_qty;
          position_value = position_value;
          portfolio_value = portfolio_value;
          daily_return_pct = daily_return_pct;
        },
      )

  abbrev pub traded :
      EngineState W → Option (EngineState W × TradeRecord W) → EngineState W × List (TradeRecord W)
  traded state none = (state, [])
  traded state (some (state', trade)) = (state', trade ∷ [])

  module _ (signal_fn : SignalFn W) (prices : List W) where
    -- The trade of bar `i`, if any.
    unfoldable pub trade_bar : ℕ → Bar W → EngineState W → EngineState W × List (TradeRecord W)
    trade_bar i bar state =
        let signal = signal_fn bar.date prices (i + 1) state.position_qty in
        if is_buy signal && eqb_ℤ state.position_qty (pos 0)
        then traded state (open_position state bar.date bar.price)
        else if (is_sell signal || is_close signal) && ltb_ℤ (pos 0) state.position_qty
        then traded state (some (close_position state bar.date bar.price))
        else (state, [])

    -- The loop from bar `i` on.
    unfoldable pub run_from : ℕ → List (Bar W) → EngineState W → Run W
    run_from i [] state = record { trades = []; snapshots = []; final = state }
    run_from i (bar ∷ bars) state =
        let (traded_state, trades) = trade_bar i bar state in
        let (next, snapshot) = take_snapshot traded_state bar.date bar.price in
        let rest = run_from (i + 1) bars next in
        record {
          trades = trades ++ rest.trades;
          snapshots = snapshot ∷ rest.snapshots;
          final = rest.final;
        }

module _ {ℓ} {W : Type ℓ} ⦃d : Double W⦄ where
  abbrev pub start_state : BacktestConfig W → EngineState W
  start_state config = record {
    cash = d.of_int config.initial_capital;
    position_qty = pos 0;
    avg_buy_price = nought;
    prev_portfolio_value = d.of_int config.initial_capital;
  }

  abbrev pub run_bars : BacktestConfig W → List (Bar W) → SignalFn W → CostModel W → Run W
  run_bars config bars signal_fn cost =
      run_from cost config signal_fn (map (λ b. b.price) bars) 0 bars (start_state config)

  unfoldable pub backtest_run :
      Given
      → Heap
      → BacktestConfig W
      → List (Bar W)
      → SignalFn W
      → CostModel W
      → Result (BacktestResult W)
  backtest_run given heap config bars signal_fn cost =
      let r = run_bars config bars signal_fn cost in
      if not given.has_config
        || not given.has_prices
        || not given.has_dates
        || not given.has_signal_fn
        || not given.has_cost
        || not given.has_out
      then err invalid_arg
      else if leb_ℤ config.test_start config.train_end
      then err invalid_arg
      else if ltb 0 (length bars) && (not heap.trades_there || not heap.snapshots_there)
      then err io
      else ok (record {
        config = config;
        metrics =
            compute_metrics heap.returns_there heap.queue_there r.snapshots r.trades
              config.initial_capital;
        trades = r.trades;
        snapshots = r.snapshots;
      })

  -- `alpha_backtest_result_free`: the buffers go, and the counts are zero.
  unfoldable pub backtest_result_free : Option (BacktestResult W) → Option (BacktestResult W)
  backtest_result_free none = none
  backtest_result_free (some result) = some (record result { trades = []; snapshots = [] })
