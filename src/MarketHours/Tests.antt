-- ===== src/MarketHours/Tests.antt =====
-- Tests of core/src/calendar/market_hours.c.
use alpha_fincial_pipline_c.Prelude.{◌≡◌, ◌+◌, ◌*◌, refl, some, [], ◌∷◌, ◌+◌, ◌*◌}
use alpha_fincial_pipline_c.Prelude.Int.{ℤ, pos, ◌+ℤ◌, ◌-ℤ◌, ◌*ℤ◌}
use alpha_fincial_pipline_c.MarketHours.{
  floor_div, is_weekend, is_holiday, kst_day_of, session_start_epoch, skip_weekend, skip_closed,
  calendar_insufficient, next_trading_session_start, next_trading_session_start_holiday_aware,
}
use alpha_fincial_pipline_c.MarketHours.Calendar.{
  IsKstDay, Session, next_trading_session_start_holiday_aware-Session,
}

-- 2026-08-28 15:00 KST, a Friday; the next session is on Monday, day 20696.
abbrev friday : ℤ
friday = pos (20693 * 86400 + 21600)

skips_weekend : next_trading_session_start friday ≡ some (pos (20696 * 86400))
unfolding next_trading_session_start skip_weekend is_weekend kst_day_of floor_div
    session_start_epoch ◌+ℤ◌ ◌-ℤ◌ ◌*ℤ◌
skips_weekend = refl

-- Monday is a holiday.
skips_holiday :
    next_trading_session_start_holiday_aware friday (pos 20696 ∷ []) (pos 20700)
    ≡ some (pos (20697 * 86400))
unfolding next_trading_session_start_holiday_aware skip_closed is_weekend is_holiday kst_day_of
    floor_div session_start_epoch ◌+ℤ◌ ◌-ℤ◌ ◌*ℤ◌
skips_holiday = refl

not_covered :
    next_trading_session_start_holiday_aware friday (pos 20696 ∷ []) (pos 20696)
    ≡ some calendar_insufficient
unfolding next_trading_session_start_holiday_aware skip_closed is_weekend is_holiday kst_day_of
    floor_div session_start_epoch ◌+ℤ◌ ◌-ℤ◌ ◌*ℤ◌
not_covered = refl

next_trading_session_start_holiday_aware-Session_example :
    (today : ℤ) × (r : ℤ) × IsKstDay friday today
    × (next_trading_session_start_holiday_aware friday (pos 20696 ∷ []) (pos 20700) ≡ some r)
    × Session (pos 20696 ∷ []) (pos 20700) (today +ℤ pos 1) r
next_trading_session_start_holiday_aware-Session_example =
    next_trading_session_start_holiday_aware-Session friday (pos 20696 ∷ []) (pos 20700) tt
