-- ===== src/Backtest/Metrics/Fifo.antt =====
-- `compute_avg_holding_days` of core/src/backtest/metrics.c: the scratch array with two indices is
-- a first-in first-out queue.
use mathlib.Core.List.{foldl}
use alpha_fincial_pipline_c.Prelude.{
  inr, inl, ℕ, zero, suc, ◌+◌, ◌≤◌, ◌<◌, ◌≡◌, refl, ap, ◌∙◌, List, [], ◌∷◌, ◌++◌, length, get_or,
  drop, ltb, ◌==◌, if◌then◌else◌, arith, Bool-cases, length-append,
}
use alpha_fincial_pipline_c.Prelude.Int.{ℤ, pos, ◌+ℤ◌, ◌-ℤ◌}
use alpha_fincial_pipline_c.Domain.{is_side_sell}
use alpha_fincial_pipline_c.Double.{Double, ◌⊘◌, nought}
use alpha_fincial_pipline_c.Backtest.{TradeRecord}
use alpha_fincial_pipline_c.Backtest.Metrics.{
  Holding, no_holding, positive_part, holding_step, compute_avg_holding_days,
}

-- The dates of the purchases that are not yet matched, oldest first, and the sums.
pub record Pending : Type 0 where
  pub dates : List ℤ
  pub total : ℤ
  pub matched : ℕ

abbrev pub match_sell : List ℤ → ℤ → Pending → Pending
match_sell [] date s = s
match_sell (bought ∷ later) date s = record {
  dates = later;
  total = s.total +ℤ positive_part (date -ℤ bought);
  matched = s.matched + 1;
}

drop-append :
    (n : ℕ) (q : List ℤ) (x : ℤ) → n ≤ length q → drop n (q ++ (x ∷ [])) ≡ drop n q ++ (x ∷ [])
drop-append zero q x h = refl
drop-append (suc n) [] x h = elim h [ ]
drop-append (suc n) (y ∷ q) x h = drop-append n q x (omega arith)

drop-all : (n : ℕ) (q : List ℤ) → length q ≤ n → drop n q ≡ []
drop-all zero [] h = refl
drop-all zero (y ∷ q) h = elim h [ ]
drop-all (suc n) [] h = refl
drop-all (suc n) (y ∷ q) h = drop-all n q (omega arith)

drop-cons : (n : ℕ) (q : List ℤ) → n < length q → drop n q ≡ get_or q n (pos 0) ∷ drop (suc n) q
drop-cons n [] h = elim h [ ]
drop-cons zero (y ∷ q) h = refl
drop-cons (suc n) (y ∷ q) h = drop-cons n q (omega arith)

-- The queue that the array and its indices stand for.
view : Holding → Pending
view s = record { dates = drop s.head s.queue; total = s.total; matched = s.matched }

abbrev pub nothing_pending : Pending
nothing_pending = record { dates = []; total = pos 0; matched = 0 }

module _ {ℓ} {W : Type ℓ} ⦃d : Double W⦄ where
  pub fifo_step : Pending → TradeRecord W → Pending
  fifo_step s trade =
      if is_side_sell trade.side
      then match_sell s.dates trade.date s
      else record s { dates = s.dates ++ (trade.date ∷ []) }

  step-view :
      (s : Holding) (trade : TradeRecord W)
      → s.head ≤ length s.queue
      → ((holding_step s trade).head ≤ length (holding_step s trade).queue)
        × (view (holding_step s trade) ≡ fifo_step (view s) trade)
  unfolding holding_step fifo_step view
  step-view s trade h = elim (Bool-cases (is_side_sell trade.side)) [
    | inr e ↦ rw e (
      omega (arith, length-append s.queue (trade.date ∷ [])),
      rw (drop-append s.head s.queue trade.date h),
    )
    | inl e ↦ elim (Bool-cases (ltb s.head (length s.queue))) [
      | inl p ↦
          rw (e, p)
            (
              ground arith,
              let next : s.head + 1 ≡ suc s.head = omega arith in
                  rw (drop-cons s.head s.queue (ground arith), next),
            )
      | inr p ↦ rw (e, p) (h, rw (drop-all s.head s.queue (ground arith)))
    ]
  ]

  run-view :
      (trades : List (TradeRecord W)) (s : Holding)
      → s.head ≤ length s.queue
      → view (foldl holding_step s trades) ≡ foldl fifo_step (view s) trades
  run-view [] s h = refl
  run-view (t ∷ trades) s h =
      let (h', e) = step-view s t h in
      run-view trades (holding_step s t) h' ∙ ap (λ v. foldl fifo_step v trades) e

  -- The average holding time is that of matching each sell with the oldest purchase that is not
  -- yet matched; a sell with no such purchase does not count.
  pub compute_avg_holding_days-fifo :
      (trades : List (TradeRecord W))
      → compute_avg_holding_days trades ≡ (
          let s = foldl fifo_step nothing_pending trades in
          if s.matched == 0 then nought else d.of_int s.total ⊘ d.of_int (pos s.matched))
  unfolding compute_avg_holding_days view
  compute_avg_holding_days-fifo trades =
      ap
        (λ (s : Pending).
          if s.matched == 0 then nought else d.of_int s.total ⊘ d.of_int (pos s.matched))
        (run-view trades no_holding (omega arith))
