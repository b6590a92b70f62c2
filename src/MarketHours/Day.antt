-- ===== src/MarketHours/Day.antt =====
-- Days and seconds in core/src/calendar/market_hours.c.
use alpha_fincial_pipline_c.Prelude.{
  ◌≡◌, ◌≢◌, true, false, refl, arith, zero, suc, ℕ, ◌+◌, ◌-◌, ◌%◌, ◌<◌, leb,
}
use alpha_fincial_pipline_c.Prelude.Int.{ℤ, pos, negsuc, ◌+ℤ◌, ◌-ℤ◌, ◌*ℤ◌, ◌≤ℤ◌, ◌<ℤ◌}
use alpha_fincial_pipline_c.MarketHours.{
  floor_div, is_weekend, kst_day_of, session_start_epoch, calendar_insufficient, seconds_per_day,
  kst_offset_seconds,
}

-- The KST day of an instant is the one whose 86400 seconds hold it.
pub kst_day_of_bounds :
    (t : ℤ)
    → let local = t +ℤ kst_offset_seconds in
      let day = kst_day_of t in
      (day *ℤ seconds_per_day ≤ℤ local) × (local <ℤ (day +ℤ pos 1) *ℤ seconds_per_day)
unfolding kst_day_of floor_div ◌+ℤ◌ ◌-ℤ◌ ◌*ℤ◌
kst_day_of_bounds t = ground arith

pub session_start_epoch-eq : (day : ℤ) → session_start_epoch day ≡ day *ℤ seconds_per_day
unfolding session_start_epoch ◌+ℤ◌ ◌-ℤ◌ ◌*ℤ◌
session_start_epoch-eq day = ground arith

-- The session of a later day starts after the instant.
pub session_start_epoch-after : (t day : ℤ) → kst_day_of t <ℤ day → t <ℤ session_start_epoch day
unfolding ◌*ℤ◌ ◌+ℤ◌
session_start_epoch-after t day h =
    rw (session_start_epoch-eq day) (ground (arith, kst_day_of_bounds t))

-- The sentinel is no session start.
pub session_start_epoch-ne-insufficient :
    (day : ℤ) → session_start_epoch day ≢ calendar_insufficient
unfolding ◌*ℤ◌
session_start_epoch-ne-insufficient day = rw (session_start_epoch-eq day) (ground arith)

-- Monday is 0. Day 0 is a Thursday.
pub weekday : ℤ → ℕ
weekday (pos n) = (n + 3) % 7
weekday (negsuc n) = 6 - (n + 4) % 7

pub is_weekend-weekday : (day : ℤ) → is_weekend day ≡ leb 5 (weekday day)
unfolding is_weekend weekday ◌+ℤ◌
is_weekend-weekday (pos n) = ground arith
is_weekend-weekday (negsuc zero) = refl
is_weekend-weekday (negsuc (suc zero)) = refl
is_weekend-weekday (negsuc (suc (suc zero))) = refl
is_weekend-weekday (negsuc (suc (suc (suc n)))) = ground arith

pub weekday-suc : (day : ℤ) → weekday (day +ℤ pos 1) ≡ (weekday day + 1) % 7
unfolding weekday ◌+ℤ◌
weekday-suc (pos n) = ground arith
weekday-suc (negsuc zero) = refl
weekday-suc (negsuc (suc n)) = ground arith

pub weekday-lt : (day : ℤ) → weekday day < 7
unfolding weekday
weekday-lt (pos n) = omega arith
weekday-lt (negsuc n) = omega arith

-- Of three days in a row one is no weekend day.
pub is_weekend-three :
    (day : ℤ)
    → is_weekend day ≡ true
    → is_weekend (day +ℤ pos 1) ≡ true
    → is_weekend (day +ℤ pos 1 +ℤ pos 1) ≡ false
is_weekend-three day p q = ground (
  arith,
  is_weekend-weekday day,
  is_weekend-weekday (day +ℤ pos 1),
  is_weekend-weekday (day +ℤ pos 1 +ℤ pos 1),
  weekday-suc day,
  weekday-suc (day +ℤ pos 1),
  weekday-lt day,
)
