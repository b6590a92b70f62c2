-- ===== src/Risk.antt =====
-- core/src/risk/gates.c: the risk gates. A value that goes out through a pointer is returned beside
-- the result, `none` where the code does not write it.
pub mod Config
pub mod Exits
pub mod Drawdown
mod Tests
use alpha_fincial_pipline_c.Prelude.{
  ℕ, ◌+◌, Bool, true, false, ◌||◌, Option, none, some, List, [], ◌∷◌, ◌++◌, if◌then◌else◌,
}
use alpha_fincial_pipline_c.Prelude.Int.{ℤ, pos, leb_ℤ}
use alpha_fincial_pipline_c.Double.{Double, ◌⊖◌, ◌⊗◌, ◌⊘◌, nought, hundred}
use alpha_fincial_pipline_c.Risk.Config.{
  RiskConfig, Position, ExitKind, no_exit, take_profit, stop_loss,
}

abbrev pub is_none_exit : ExitKind → Bool
is_none_exit no_exit = true
is_none_exit _ = false

abbrev is_unset : Option ℕ → Bool
is_unset none = true
is_unset (some i) = false

abbrev pub chosen : Option ℕ → List ℕ
chosen none = []
chosen (some i) = i ∷ []

-- `first`, `second` and their pnl in the loop of the drawdown gate; `none` is the index -1.
pub record Weakest {ℓ} (W : Type ℓ) : Type ℓ where
  pub first : Option ℕ
  pub second : Option ℕ
  pub first_pnl : W
  pub second_pnl : W

module _ {ℓ} {W : Type ℓ} ⦃d : Double W⦄ where
  open d use {lt, le, neg, of_int}

  abbrev pub pnl_pct_of : W → W → W
  pnl_pct_of current avg_fill = (current ⊖ avg_fill) ⊘ avg_fill ⊗ hundred

  unfoldable pub check_rule_based_exit : Position W → RiskConfig → ExitKind × Option W
  check_rule_based_exit position config =
      let avg_fill = position.avg_fill_price in
      let current = position.current_price in
      let pnl_pct = pnl_pct_of current avg_fill in
      if leb_ℤ position.quantity (pos 0)
      then (no_exit, none)
      else if le avg_fill nought || le current nought
      then (no_exit, none)
      else if le (of_int config.take_profit_pct) pnl_pct
      then (take_profit, some pnl_pct)
      else if le pnl_pct (neg (of_int config.individual_stop_loss_pct))
      then (stop_loss, some pnl_pct)
      else (no_exit, none)

  -- The loop over the positions from index `i` on; what it writes at `fired` is appended.
  pub exits_from : ℕ → List (Position W) → RiskConfig → List (ℕ × ExitKind)
  exits_from i [] config = []
  exits_from i (position ∷ positions) config =
      let kind = (check_rule_based_exit position config).0 in
      let later = exits_from (i + 1) positions config in
      if is_none_exit kind then later else (i, kind) ∷ later

  unfoldable pub check_rule_based_exits : List (Position W) → RiskConfig → List (ℕ × ExitKind)
  check_rule_based_exits positions config = exits_from 0 positions config

  -- The test by which a position is skipped.
  abbrev pub is_skipped : Position W → Bool
  is_skipped position =
      leb_ℤ position.quantity (pos 0)
      || le position.avg_fill_price nought
      || le position.current_price nought

  pub weakest_step : ℕ → W → Weakest W → Weakest W
  weakest_step i pnl_pct s =
      if is_unset s.first || lt pnl_pct s.first_pnl
      then record {
        first = some i;
        second = s.first;
        first_pnl = pnl_pct;
        second_pnl = s.first_pnl;
      }
      else if is_unset s.second || lt pnl_pct s.second_pnl
      then record s { second = some i; second_pnl = pnl_pct }
      else s

  pub weakest_from : ℕ → List (Position W) → Weakest W → Weakest W
  weakest_from i [] s = s
  weakest_from i (position ∷ positions) s = weakest_from (i + 1) positions (
      if is_skipped position
      then s
      else weakest_step i (pnl_pct_of position.current_price position.avg_fill_price) s)

  abbrev pub no_weakest : Weakest W
  no_weakest = record { first = none; second = none; first_pnl = nought; second_pnl = nought }

  -- The indices written, and `dd_pct`.
  unfoldable pub check_portfolio_drawdown :
      List (Position W) → W → W → RiskConfig → List ℕ × Option W
  check_portfolio_drawdown positions current_equity baseline_equity config =
      let dd_pct = pnl_pct_of current_equity baseline_equity in
      let s = weakest_from 0 positions no_weakest in
      if le current_equity nought || le baseline_equity nought
      then ([], none)
      else if lt (neg (of_int config.portfolio_drawdown_limit_pct)) dd_pct
      then ([], some dd_pct)
      else (chosen s.first ++ chosen s.second, some dd_pct)

  unfoldable pub is_daily_loss_blocked : W → RiskConfig → Bool
  is_daily_loss_blocked daily_realized_pnl_pct config =
      le daily_realized_pnl_pct (neg (of_int config.daily_loss_limit_pct))
