-- ===== src/MarketHours.antt =====
-- core/src/calendar/market_hours.c: the start of the next KRX trading session. `int64_t` is ℤ.
-- Both `while` loops recur on fuel, `none` when it runs out: a weekend has two days, and the
-- holiday-aware loop leaves the calendar's coverage after `coverage` rounds.
pub mod Day
pub mod Session
pub mod Holiday
pub mod Calendar
mod Tests
use alpha_fincial_pipline_c.Prelude.{
  ℕ, zero, suc, ◌+◌, Bool, true, false, not, ◌&&◌, ◌||◌, Option, none, some, List, [], ◌∷◌,
  if◌then◌else◌,
}
use alpha_fincial_pipline_c.Prelude.Int.{
  ℤ, pos, negsuc, pos_part, ◌+ℤ◌, ◌-ℤ◌, ◌*ℤ◌, ltb_ℤ, leb_ℤ, eqb_ℤ, quot_ℤ, rem_ℤ,
}

abbrev pub kst_offset_seconds : ℤ
kst_offset_seconds = pos 32400

abbrev pub seconds_per_day : ℤ
seconds_per_day = pos 86400

-- ALPHA_SESSION_CALENDAR_INSUFFICIENT
abbrev pub calendar_insufficient : ℤ
calendar_insufficient = negsuc 0

abbrev differs : Bool → Bool → Bool
differs true b = not b
differs false b = b

unfoldable pub floor_div : ℤ → ℤ → ℤ
floor_div a b =
    let q = quot_ℤ a b in
    if not (eqb_ℤ (rem_ℤ a b) (pos 0)) && differs (ltb_ℤ a (pos 0)) (ltb_ℤ b (pos 0))
    then q -ℤ pos 1
    else q

pub is_weekend : ℤ → Bool
is_weekend epoch_day =
    let weekday = rem_ℤ (rem_ℤ (epoch_day +ℤ pos 3) (pos 7) +ℤ pos 7) (pos 7) in
    leb_ℤ (pos 5) weekday

pub kst_day_of : ℤ → ℤ
kst_day_of from_epoch = floor_div (from_epoch +ℤ kst_offset_seconds) seconds_per_day

unfoldable pub session_start_epoch : ℤ → ℤ
session_start_epoch kst_day = kst_day *ℤ seconds_per_day +ℤ pos 9 *ℤ pos 3600 -ℤ kst_offset_seconds

-- The loop of `alpha_next_trading_session_start`, and its return.
pub skip_weekend : ℕ → ℤ → Option ℤ
skip_weekend zero day = none
skip_weekend (suc fuel) day =
    let later = skip_weekend fuel (day +ℤ pos 1) in
    if is_weekend day then later else some (session_start_epoch day)

pub next_trading_session_start : ℤ → Option ℤ
next_trading_session_start from_epoch = skip_weekend 3 (kst_day_of from_epoch +ℤ pos 1)

pub is_holiday : ℤ → List ℤ → Bool
is_holiday epoch_day [] = false
is_holiday epoch_day (holiday ∷ holidays) =
    let later = is_holiday epoch_day holidays in
    if eqb_ℤ holiday epoch_day then true else if ltb_ℤ epoch_day holiday then false else later

-- The loop of the holiday-aware variant, with the check and the return behind it.
module _ (holidays : List ℤ) (calendar_max_day : ℤ) where
  pub skip_closed : ℕ → ℤ → Option ℤ
  skip_closed zero day = none
  skip_closed (suc fuel) day =
      let later = skip_closed fuel (day +ℤ pos 1) in
      if is_weekend day || is_holiday day holidays
      then (if ltb_ℤ calendar_max_day day then some calendar_insufficient else later)
      else if ltb_ℤ calendar_max_day day
      then some calendar_insufficient
      else some (session_start_epoch day)

-- Rounds of the loop that starts at `day`.
abbrev pub coverage : ℤ → ℤ → ℕ
coverage day calendar_max_day = suc (pos_part (calendar_max_day +ℤ pos 1 -ℤ day))

pub next_trading_session_start_holiday_aware : ℤ → List ℤ → ℤ → Option ℤ
next_trading_session_start_holiday_aware from_epoch holidays calendar_max_day =
    let day = kst_day_of from_epoch +ℤ pos 1 in
    skip_closed holidays calendar_max_day (coverage day calendar_max_day) day
