-- ===== src/Backtest/Engine/Ledger.antt =====
-- The trades of core/src/backtest/engine.c as a ledger of one position.
use alpha_fincial_pipline_c.Prelude.{
  ap₂, ℕ, ◌+◌, ◌≤◌, ◌≡◌, refl, sym, some, List, [], ◌∷◌, ◌++◌, length, map, arith, length-append,
}
use alpha_fincial_pipline_c.Prelude.Int.{ℤ, pos, ◌≤ℤ◌, ◌<ℤ◌}
use alpha_fincial_pipline_c.Domain.{ok, Side, side_buy, side_sell}
use alpha_fincial_pipline_c.Double.{Double}
use alpha_fincial_pipline_c.Cost.{CostModel}
use alpha_fincial_pipline_c.Backtest.{BacktestResult, BacktestConfig, TradeRecord}
use alpha_fincial_pipline_c.Backtest.Signals.{SignalFn}
use alpha_fincial_pipline_c.Backtest.Engine.{
  Given, Heap, backtest_run, EngineState, Bar, Run, buy_shares, open_position, close_position,
  take_snapshot, traded, trade_bar, run_from, run_bars, start_state,
}
use mathlib.Core.Path.{subst}

-- A purchase opens a position from none, with a positive quantity; a sale closes the whole of one.
abbrev pub Legal : Side → ℤ → ℤ → Type 0
Legal side_buy position quantity = (position ≡ pos 0) × (pos 0 <ℤ quantity)
Legal side_sell position quantity = (pos 0 <ℤ position) × (quantity ≡ position)

abbrev pub after_trade : Side → ℤ → ℤ
after_trade side_buy quantity = quantity
after_trade side_sell quantity = pos 0

-- The trades are legal one after another, from a position to a position.
abbrev pub Replays {ℓ} : {W : Type ℓ} → ℤ → List (TradeRecord W) → ℤ → Type 0
Replays position [] final = position ≡ final
Replays position (t ∷ ts) final =
    Legal t.side position t.quantity × Replays (after_trade t.side t.quantity) ts final

Replays-append {ℓ} :
    {W : Type ℓ} (p q r : ℤ) (ts us : List (TradeRecord W))
    → Replays p ts q
    → Replays q us r
    → Replays p (ts ++ us) r
Replays-append p q r [] us h k = subst (λ z. Replays z us r) (sym h) k
Replays-append p q r (t ∷ ts) us h k =
    (h.0, Replays-append (after_trade t.side t.quantity) q r ts us h.1 k)

module _ {ℓ} {W : Type ℓ} ⦃d : Double W⦄ (cost : CostModel W) (config : BacktestConfig W) where
  -- What one bar does to the position.
  pub record BarStep (s : EngineState W) (r : EngineState W × List (TradeRecord W)) : Type 0 where
    pub replays : Replays s.position_qty r.1 r.0.position_qty
    pub held : pos 0 ≤ℤ r.0.position_qty
    pub single : length r.1 ≤ 1

  open-BarStep :
      (s : EngineState W) (date : ℤ) (price : W)
      → s.position_qty ≡ pos 0
      → BarStep s (traded cost config s (open_position cost config s date price))
  unfolding open_position buy_shares
  open-BarStep s date price h = ground arith

  close-BarStep :
      (s : EngineState W) (date : ℤ) (price : W)
      → pos 0 <ℤ s.position_qty
      → BarStep s (traded cost config s (some (close_position cost config s date price)))
  unfolding close_position
  close-BarStep s date price h = ground arith

  module _ (signal_fn : SignalFn W) (prices : List W) where
    trade_bar-BarStep :
        (i : ℕ) (bar : Bar W) (s : EngineState W)
        → pos 0 ≤ℤ s.position_qty
        → BarStep s (trade_bar cost config signal_fn prices i bar s)
    unfolding trade_bar
    trade_bar-BarStep i bar s h =
        ground (arith, open-BarStep s bar.date bar.price, close-BarStep s bar.date bar.price)

    -- What the loop keeps: a legal ledger from the position before to the position behind, no
    -- short position, at most one trade a bar, and one snapshot for each bar, with its date and
    -- its price.
    pub record IsLedger (before : ℤ) (bars : List (Bar W)) (r : Run W) : Type ℓ where
      pub replays : Replays before r.trades r.final.position_qty
      pub held : pos 0 ≤ℤ r.final.position_qty
      pub few : length r.trades ≤ length bars
      pub dates : map (λ s. s.date) r.snapshots ≡ map (λ b. b.date) bars
      pub closes : map (λ s. s.close_price) r.snapshots ≡ map (λ b. b.price) bars

    snapshot_keeps :
        (s : EngineState W) (date : ℤ) (price : W)
        → ((take_snapshot cost config s date price).0.position_qty ≡ s.position_qty)
          × ((take_snapshot cost config s date price).1.date ≡ date)
          × ((take_snapshot cost config s date price).1.close_price ≡ price)
    unfolding take_snapshot
    snapshot_keeps s date price = (refl, refl, refl)

    run_from-IsLedger :
        (i : ℕ) (bars : List (Bar W)) (s : EngineState W)
        → pos 0 ≤ℤ s.position_qty
        → IsLedger s.position_qty bars (run_from cost config signal_fn prices i bars s)
    unfolding run_from
    run_from-IsLedger i [] s h = record {
      replays = refl;
      held = h;
      few = omega arith;
      dates = refl;
      closes = refl;
    }
    run_from-IsLedger i (bar ∷ bars) s h =
        let t = trade_bar cost config signal_fn prices i bar s in
        let b = trade_bar-BarStep i bar s h in
        let snap = take_snapshot cost config t.0 bar.date bar.price in
        let keeps = snapshot_keeps t.0 bar.date bar.price in
        let rest = run_from-IsLedger (i + 1) bars snap.0 (rw keeps.0 b.held) in
        let after = run_from cost config signal_fn prices (i + 1) bars snap.0 in
        record {
          replays =
              Replays-append s.position_qty t.0.position_qty after.final.position_qty t.1
                after.trades b.replays (rw keeps.0 at rest.replays);
          held = rest.held;
          few = omega (arith, length-append t.1 after.trades, b.single, rest.few);
          dates = ap₂ ◌∷◌ keeps.1 rest.dates;
          closes = ap₂ ◌∷◌ keeps.2 rest.closes;
        }

module _ {ℓ} {W : Type ℓ} ⦃d : Double W⦄ where
  pub backtest_run-ok :
      (given : Given) (heap : Heap) (config : BacktestConfig W) (bars : List (Bar W))
      (signal_fn : SignalFn W) (cost : CostModel W) (result : BacktestResult W)
      → backtest_run given heap config bars signal_fn cost ≡ ok result
      → let r = run_bars config bars signal_fn cost in
        (result.trades ≡ r.trades) × (result.snapshots ≡ r.snapshots)
  unfolding backtest_run
  backtest_run-ok given heap config bars signal_fn cost result e = ground arith

  -- A successful run is flat at the start, opens and closes whole positions in turn and is never
  -- short; it trades at most once a bar, and has a snapshot of every bar in order.
  pub backtest_run-ledger :
      (given : Given) (heap : Heap) (config : BacktestConfig W) (bars : List (Bar W))
      (signal_fn : SignalFn W) (cost : CostModel W) (result : BacktestResult W)
      → backtest_run given heap config bars signal_fn cost ≡ ok result
      → (final : ℤ) × Replays (pos 0) result.trades final
        × (pos 0 ≤ℤ final)
        × (length result.trades ≤ length bars)
        × (map (λ s. s.date) result.snapshots ≡ map (λ b. b.date) bars)
        × (map (λ s. s.close_price) result.snapshots ≡ map (λ b. b.price) bars)
  backtest_run-ledger given heap config bars signal_fn cost result e =
      let (same_trades, same_snapshots) =
        backtest_run-ok given heap config bars signal_fn cost result e in
      let r = run_bars config bars signal_fn cost in
      let l =
        run_from-IsLedger cost config signal_fn (map (λ b. b.price) bars) 0 bars
          (start_state config) (omega arith) in
      rw (same_trades, same_snapshots)
        (r.final.position_qty, l.replays, l.held, l.few, l.dates, l.closes)
