-- ===== src/Risk/Tests.antt =====
-- Tests of core/src/risk/gates.c, in millionths.
use alpha_fincial_pipline_c.Prelude.{
  ℕ, ◌≡◌, ◌↔◌, refl, List, [], ◌∷◌, map, ◌||◌, take, if◌then◌else◌,
}
use alpha_fincial_pipline_c.Prelude.Int.{pos, ℤ, ◌*ℤ◌, ◌-ℤ◌}
use alpha_fincial_pipline_c.Double.{nought}
use alpha_fincial_pipline_c.Double.Fixed.{fixed_double}
use alpha_fincial_pipline_c.Risk.Config.{
  Position, risk_config_default, ExitKind, take_profit, stop_loss,
}
use alpha_fincial_pipline_c.Risk.{
  check_rule_based_exit, check_rule_based_exits, check_portfolio_drawdown, exits_from, pnl_pct_of,
}
use alpha_fincial_pipline_c.Risk.Exits.{Fired, IsIncreasing, Exits, check_rule_based_exits_lem}
use alpha_fincial_pipline_c.Risk.Drawdown.{weakest_first, check_portfolio_drawdown_lem}

abbrev position_at : ℕ → Position ℤ
position_at price = record {
  ticker = b'A' ∷ [];
  quantity = pos 3;
  avg_fill_price = pos 100000000;
  current_price = pos price;
}

-- Five percent up, seven percent down, and between.
abbrev positions : List (Position ℤ)
positions = position_at 105000000 ∷ position_at 93000000 ∷ position_at 99000000 ∷ []

fired :
    check_rule_based_exits positions risk_config_default ≡ (0, take_profit) ∷ (1, stop_loss) ∷ []
unfolding check_rule_based_exits exits_from check_rule_based_exit ◌*ℤ◌ ◌-ℤ◌
fired = refl

check_rule_based_exits_example :
    IsIncreasing 0 (check_rule_based_exits positions risk_config_default)
    × ((i : ℕ) (k : ExitKind)
        → Fired i k (check_rule_based_exits positions risk_config_default)
          ↔ Exits risk_config_default positions i k)
check_rule_based_exits_example = check_rule_based_exits_lem risk_config_default positions

-- Ten percent below the baseline.
check_portfolio_drawdown_example :
    (check_portfolio_drawdown positions (pos 90000000) (pos 100000000) risk_config_default).0 ≡ (
      if fixed_double.le (pos 90000000) nought
        || fixed_double.le (pos 100000000) nought
        || fixed_double.lt
            (fixed_double.neg
              (fixed_double.of_int risk_config_default.portfolio_drawdown_limit_pct))
            (pnl_pct_of (pos 90000000) (pos 100000000))
      then []
      else map (λ x. x.0) (take 2 (weakest_first positions)))
check_portfolio_drawdown_example =
    check_portfolio_drawdown_lem positions (pos 90000000) (pos 100000000) risk_config_default
