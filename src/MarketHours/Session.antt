-- ===== src/MarketHours/Session.antt =====
-- `alpha_next_trading_session_start` of core/src/calendar/market_hours.c.
use alpha_fincial_pipline_c.Prelude.{◌≡◌, true, false}
use alpha_fincial_pipline_c.Prelude.Int.{ℤ, pos, ◌+ℤ◌, ◌≤ℤ◌, ◌<ℤ◌}
use alpha_fincial_pipline_c.MarketHours.{is_weekend}

-- `day` is the first weekday from `first` on.
pub record IsFirstWeekday (first day : ℤ) : Type 0 where
  pub from_first : first ≤ℤ day
  pub within : day ≤ℤ first +ℤ pos 2
  pub weekday : is_weekend day ≡ false
  pub before : (k : ℤ) → first ≤ℤ k → k <ℤ day → is_weekend k ≡ true

abbrev Closed : ℤ → Type 0
Closed k = is_weekend k ≡ true
