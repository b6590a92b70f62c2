-- ===== src/Backtest/Engine/Causal.antt =====
-- The engine of core/src/backtest/engine.c does not look ahead, if its signal source does not.
use alpha_fincial_pipline_c.Prelude.{
  ℕ, zero, suc, ◌+◌, ◌≤◌, ◌≡◌, refl, ap, List, [], ◌∷◌, ◌++◌, length, map, take, arith, length-map,
}
use mathlib.Core.List.{append_assoc, map-append}
use alpha_fincial_pipline_c.Prelude.Int.{ℤ}
use alpha_fincial_pipline_c.Domain.{Signal}
use alpha_fincial_pipline_c.Double.{Double}
use alpha_fincial_pipline_c.Cost.{CostModel}
use alpha_fincial_pipline_c.Backtest.{BacktestConfig, TradeRecord, DailySnapshot}
use alpha_fincial_pipline_c.Backtest.Signals.{SignalFn, replay_signal}
use alpha_fincial_pipline_c.Backtest.Engine.{
  EngineState, Bar, Run, take_snapshot, trade_bar, run_from, run_bars, start_state,
}

-- The source reads no price behind the first `n`.
abbrev pub IsCausal {ℓ} : {W : Type ℓ} → SignalFn W → Type ℓ
IsCausal {W = W} f =
    (day : ℤ) (ps qs : List W) (n : ℕ) (position : ℤ)
    → take n ps ≡ take n qs
    → f day ps n position ≡ f day qs n position

-- The replay of a table reads no price at all.
pub replay_signal-IsCausal {ℓ} :
    {W : Type ℓ} (source : List (ℤ × Signal)) → IsCausal {W = W} (replay_signal source)
unfolding replay_signal
replay_signal-IsCausal source day ps qs n position e = refl

take-append {ℓ} :
    {A : Type ℓ} (n : ℕ) (xs ys : List A) → n ≤ length xs → take n (xs ++ ys) ≡ take n xs
take-append zero xs ys h = refl
take-append (suc n) [] ys h = elim h [ ]
take-append (suc n) (x ∷ xs) ys h = ap (◌∷◌ x) (take-append n xs ys (omega arith))

module _ {ℓ} {W : Type ℓ} ⦃d : Double W⦄ (cost : CostModel W) (config : BacktestConfig W)
    (f : SignalFn W) where
  append_run : Run W → Run W → Run W
  append_run r s = record {
    trades = r.trades ++ s.trades;
    snapshots = r.snapshots ++ s.snapshots;
    final = s.final;
  }

  run_from-append :
      (prices : List W) (i j : ℕ) (xs ys : List (Bar W)) (s : EngineState W)
      → j ≡ i + length xs
      → let r = run_from cost config f prices i xs s in
        run_from cost config f prices i (xs ++ ys) s
        ≡ append_run r (run_from cost config f prices j ys r.final)
  unfolding run_from append_run
  run_from-append prices i j [] ys s e = let same : j ≡ i = omega arith in rw same
  run_from-append prices i j (x ∷ xs) ys s e =
      let t = trade_bar cost config f prices i x s in
      let next = (take_snapshot cost config t.0 x.date x.price).0 in
      rw (run_from-append prices (i + 1) j xs ys next (omega arith), append_assoc)

  module _ (causal : IsCausal f) (prices more : List W) where
    trade_bar-known :
        (i : ℕ) (bar : Bar W) (s : EngineState W)
        → i + 1 ≤ length prices
        → trade_bar cost config f (prices ++ more) i bar s ≡ trade_bar cost config f prices i bar s
    unfolding trade_bar
    trade_bar-known i bar s h = rw (
        causal bar.date (prices ++ more) prices (i + 1) s.position_qty
          (take-append (i + 1) prices more h))

    run_from-known :
        (i : ℕ) (xs : List (Bar W)) (s : EngineState W)
        → i + length xs ≤ length prices
        → run_from cost config f (prices ++ more) i xs s ≡ run_from cost config f prices i xs s
    unfolding run_from
    run_from-known i [] s h = refl
    run_from-known i (x ∷ xs) s h =
        let t = trade_bar cost config f prices i x s in
        let next = (take_snapshot cost config t.0 x.date x.price).0 in
        rw (trade_bar-known i x s (omega arith), run_from-known (i + 1) xs next (omega arith))

  -- With a source that reads no later price, a run over more bars repeats the run over the first
  -- ones: their trades and snapshots come first, unchanged.
  pub run_bars-causal :
      (xs ys : List (Bar W))
      → IsCausal f
      → let r = run_bars config xs f cost in
        let longer = run_bars config (xs ++ ys) f cost in
        (ts : List (TradeRecord W)) × (snaps : List (DailySnapshot W)) × (longer.trades
          ≡ r.trades ++ ts)
        × (longer.snapshots ≡ r.snapshots ++ snaps)
  unfolding append_run
  run_bars-causal xs ys causal =
      let prices = map (λ (b : Bar W). b.price) xs in
      let more = map (λ (b : Bar W). b.price) ys in
      let start = start_state config in
      let r = run_from cost config f prices 0 xs start in
      let rest = run_from cost config f (prices ++ more) (length xs) ys r.final in
      let e : run_bars config (xs ++ ys) f cost ≡ append_run r rest = rw (
        map-append,
        run_from-append (prices ++ more) 0 (length xs) xs ys start (omega arith),
        run_from-known causal prices more 0 xs start
            (omega (arith, length-map xs (λ (b : Bar W). b.price))),
      ) in
      (
        rest.trades,
        rest.snapshots,
        ap (λ (q : Run W). q.trades) e,
        ap (λ (q : Run W). q.snapshots) e,
      )
