-- ===== src/MarketHours/Calendar.antt =====
-- `alpha_next_trading_session_start_holiday_aware` of core/src/calendar/market_hours.c against a
-- description of trading days of its own.
use alpha_fincial_pipline_c.Prelude.{
  ◌≤◌, ◌≡◌, ◌∙◌, true, false, arith, some, List, Bool-cases, inl, inr, ◌⊎◌,
}
use alpha_fincial_pipline_c.Prelude.Int.{ℤ, pos, negsuc, ◌+ℤ◌, ◌*ℤ◌, ◌≤ℤ◌, ◌<ℤ◌}
use alpha_fincial_pipline_c.MarketHours.{
  is_weekend, kst_day_of, next_trading_session_start_holiday_aware,
}
use alpha_fincial_pipline_c.MarketHours.Day.{
  kst_day_of_bounds, session_start_epoch-eq, weekday, is_weekend-weekday,
}
use alpha_fincial_pipline_c.MarketHours.Holiday.{
  IsAscending, Holds, is_holiday_sound, is_holiday_complete, is_closed, Outcome, opens,
  insufficient, next_trading_session_start_holiday_aware_lem,
}

-- The 86400 seconds of the day, nine hours ahead of UTC, hold the instant.
abbrev pub IsKstDay : ℤ → ℤ → Type 0
IsKstDay t day =
    (day *ℤ pos 86400 ≤ℤ t +ℤ pos 32400) × (t +ℤ pos 32400 <ℤ (day +ℤ pos 1) *ℤ pos 86400)

-- Saturday, Sunday, or a day of the calendar.
abbrev pub IsClosed : List ℤ → ℤ → Type 0
IsClosed holidays day = (5 ≤ weekday day) ⊎ Holds day holidays

-- The answer for the days from `first` on: 09:00 KST of the first trading day if it is at most
-- `last`, or -1 if there is none up to `last`.
pub data Session (holidays : List ℤ) (last first r : ℤ) : Type 0 where
  session :
      (day : ℤ)
      → r ≡ day *ℤ pos 86400
      → first ≤ℤ day
      → day ≤ℤ last
      → ¬ IsClosed holidays day
      → ((k : ℤ) → first ≤ℤ k → k <ℤ day → IsClosed holidays k)
      → Session holidays last first r
  uncovered :
      r ≡ negsuc 0
      → ((k : ℤ) → first ≤ℤ k → k ≤ℤ last → IsClosed holidays k)
      → Session holidays last first r

module _ (holidays : List ℤ) (last : ℤ) (sorted : IsAscending holidays) where
  is_closed-IsClosed : (day : ℤ) → is_closed holidays last day ≡ true → IsClosed holidays day
  is_closed-IsClosed day e = elim (Bool-cases (is_weekend day)) [
    | inl w ↦ inl (ground (arith, is_weekend-weekday day))
    | inr w ↦ inr (is_holiday_sound day holidays (ground arith))
  ]

  is_closed-Open : (day : ℤ) → is_closed holidays last day ≡ false → ¬ IsClosed holidays day
  is_closed-Open day e (inl w) = ground (arith, is_weekend-weekday day)
  is_closed-Open day e (inr h) = ground (arith, is_holiday_complete day holidays sorted h)

  Outcome-Session : (first r : ℤ) → Outcome holidays last first r → Session holidays last first r
  Outcome-Session first r (opens day e lo hi here before) =
      session day (e ∙ session_start_epoch-eq day) lo hi (is_closed-Open day here)
        (λ k a b. is_closed-IsClosed k (before k a b))
  Outcome-Session first r (insufficient e all) =
      uncovered e (λ k a b. is_closed-IsClosed k (all k a b))

-- For every instant and every sorted calendar the search ends. It returns 09:00 KST of the first day
-- behind the instant's KST day that is no Saturday, no Sunday and not on the calendar, if the
-- calendar covers that day, and -1 if it covers no such day. Day 0, 1970-01-01, is a Thursday.
pub next_trading_session_start_holiday_aware-Session :
    (t : ℤ) (holidays : List ℤ) (last : ℤ)
    → IsAscending holidays
    → (today : ℤ) × (r : ℤ) × IsKstDay t today
      × (next_trading_session_start_holiday_aware t holidays last ≡ some r)
      × Session holidays last (today +ℤ pos 1) r
next_trading_session_start_holiday_aware-Session t holidays last sorted =
    let (r, returns, found) = next_trading_session_start_holiday_aware_lem t holidays last in
    (
      kst_day_of t,
      r,
      kst_day_of_bounds t,
      returns,
      Outcome-Session holidays last sorted (kst_day_of t +ℤ pos 1) r found,
    )
