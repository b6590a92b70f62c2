-- ===== src/RedisCache/Tests.antt =====
-- Tests of core/platform/cache/redis_cache.c.
use alpha_fincial_pipline_c.Prelude.{
  All, ℕ, ◌+◌, ◌-◌, ◌*◌, ◌≡◌, refl, Bool, true, false, ◌&&◌, ◌||◌, Option, map, some, List, [], ◌∷◌,
  ◌++◌, take, ltb, ◌==◌, if◌then◌else◌, arith,
}
use alpha_fincial_pipline_c.Prelude.Int.{◌*ℤ◌, ◌+ℤ◌, ℤ, pos, ◌-ℤ◌}
use alpha_fincial_pipline_c.Domain.{Result, ok}
use alpha_fincial_pipline_c.Date.Roundtrip.{IsValid, days_in_month, is_leap}
use alpha_fincial_pipline_c.Date.Text.{civil}
use alpha_fincial_pipline_c.Date.{day_of_era, decimal, days_from_civil}
use alpha_fincial_pipline_c.RedisCache.{
  Command, time, get, ttl, del, set_ex, set_exat, Reply, status, string, integer, array, nil, Sent,
  lockout_prefix, ticks_prefix, holidays_prefix, ttl_latest_ticks, print_int, is_breaker_locked,
  set_latest_tick, get_latest_tick, set_breaker_lockout_next_session,
}
use alpha_fincial_pipline_c.RedisCache.Holidays.{
  calendar_day, parse_holiday_json, next_entry, skip_space, calendar_day,
}
use alpha_fincial_pipline_c.RedisCache.Holidays.Sound.{
  Accepts, IsIncreasing, parse_holiday_json-IsCalendar,
}
use alpha_fincial_pipline_c.RedisCache.Holidays.Print.{
  print_calendar, day_of, parse_holiday_json-print_calendar,
}
use alpha_fincial_pipline_c.RedisCache.Lockout.{Lockout, set_breaker_lockout_next_session-Lockout}
use alpha_fincial_pipline_c.RedisCache.Locked.{
  LockView, is_breaker_locked-LockView, get_latest_tick-set_latest_tick,
}

-- A `strtoll` that reads decimal digits only.
read_digits : List ℕ → ℕ → ℕ → ℤ × Bool × ℕ
read_digits [] n used = (pos n, false, used)
read_digits (c ∷ text) n used =
    let rest = read_digits text (n * 10 + (c - b'0')) (used + 1) in
    if ltb c b'0' || ltb b'9' c then (pos n, false, used) else rest

abbrev read_number : List ℕ → ℤ × Bool × ℕ
read_number text = read_digits text 0 0

eqb_text : List ℕ → List ℕ → Bool
eqb_text [] [] = true
eqb_text (a ∷ s) (b ∷ t) = a == b && eqb_text s t
eqb_text _ _ = false

eqb_text_refl : (s : List ℕ) → eqb_text s s ≡ true
unfolding eqb_text
eqb_text_refl [] = refl
eqb_text_refl (a ∷ s) = ground (arith, eqb_text_refl s)

-- 2026-01-02, a Friday, at 15:00 KST.
abbrev friday : ℕ
friday = 1767333600

abbrev year_2026 : List (ℕ × ℕ)
year_2026 = (1, 1) ∷ (1, 5) ∷ (3, 1) ∷ []

abbrev calendar_text : List ℕ
calendar_text = print_calendar (b' ' ∷ []) 2026 year_2026

abbrev calendar_key : List ℕ
calendar_key = holidays_prefix ++ print_int (pos 2026)

stored : Sent → List ℕ → Option Reply
unfolding eqb_text
stored [] key = some (if eqb_text key calendar_key then string calendar_text else nil)
stored (set_ex k value seconds ∷ sent) key =
    let rest = stored sent key in if eqb_text k key then some (string value) else rest
stored (set_exat k value expiry ∷ sent) key =
    let rest = stored sent key in if eqb_text k key then some (string (print_int value)) else rest
stored (del k ∷ sent) key = let rest = stored sent key in if eqb_text k key then some nil else rest
stored (c ∷ sent) key = stored sent key

expiry_of : Sent → List ℕ → ℤ
unfolding eqb_text
expiry_of [] key = pos (friday + 1000)
expiry_of (set_exat k value expiry ∷ sent) key =
    let rest = expiry_of sent key in if eqb_text k key then expiry else rest
expiry_of (c ∷ sent) key = expiry_of sent key

abbrev ok_text : List ℕ
ok_text = b'O' ∷ b'K' ∷ []

-- A server whose clock stands still.
store : Sent → Command → Option Reply
unfolding stored expiry_of
store sent time = some (array (some (decimal friday) ∷ some (decimal 0) ∷ []))
store sent (get key) = stored sent key
store sent (ttl key) = some (integer (expiry_of sent key -ℤ pos friday))
store sent (del key) = some (integer (pos 1))
store sent (set_ex key value seconds) = some (status ok_text)
store sent (set_exat key value expiry) = some (status ok_text)

abbrev scope : List ℕ
scope = b'a' ∷ []

abbrev locks : Result ℤ × Sent
locks = set_breaker_lockout_next_session read_number store (some scope) (pos friday) []

set_breaker_lockout_next_session-Lockout_example :
    Lockout read_number store scope (pos friday) [] locks
set_breaker_lockout_next_session-Lockout_example =
    set_breaker_lockout_next_session-Lockout read_number store scope (pos friday) []

is_breaker_locked-LockView_example :
    LockView read_number store
      (lockout_prefix ++ scope)
      locks.1
      (is_breaker_locked read_number store (some scope) true locks.1)
is_breaker_locked-LockView_example = is_breaker_locked-LockView read_number store scope true locks.1

abbrev ticker : List ℕ
ticker = b'5' ∷ b'9' ∷ []

abbrev payload : List ℕ
payload = b'7' ∷ b'0' ∷ b'1' ∷ []

store_stores :
    (key value : List ℕ) (seconds : ℕ) (sent : Sent)
    → store (set_ex key value seconds ∷ sent) (get key) ≡ some (string value)
unfolding store stored
store_stores key value seconds sent = rw (eqb_text_refl key) refl

abbrev set_tick : Command
set_tick = set_ex (ticks_prefix ++ ticker) payload ttl_latest_ticks

ticks : set_latest_tick read_number store (some ticker) (some payload) [] ≡ (ok tt, set_tick ∷ [])
unfolding set_latest_tick store
ticks = refl

get_latest_tick-set_latest_tick_example :
    (get_latest_tick read_number store (some ticker) true 3 (set_tick ∷ [])).0
    ≡ ok (some (take 2 payload))
get_latest_tick-set_latest_tick_example =
    get_latest_tick-set_latest_tick read_number store store_stores ticker payload 3 []
      (set_tick ∷ []) (omega arith) ticks

year_2026-AllValid : All (λ date. IsValid (civil 2026 date.0 date.1)) year_2026
unfolding days_in_month is_leap
year_2026-AllValid = (omega arith, (omega arith, (omega arith, tt)))

increasing : IsIncreasing (map (day_of 2026) year_2026)
unfolding calendar_day days_from_civil day_of_era ◌+ℤ◌ ◌-ℤ◌ ◌*ℤ◌
increasing = (omega arith, (omega arith, tt))

parse_holiday_json-print_calendar_example :
    parse_holiday_json calendar_text (pos 2026) ≡ some (some (map (day_of 2026) year_2026))
parse_holiday_json-print_calendar_example =
    parse_holiday_json-print_calendar (b' ' ∷ []) (refl, tt) 2026 year_2026 (omega arith)
      year_2026-AllValid increasing (omega arith)

parse_holiday_json-IsCalendar_example :
    (r : Option (List ℤ)) × (parse_holiday_json calendar_text (pos 2026) ≡ some r)
    × Accepts (pos 2026) r
parse_holiday_json-IsCalendar_example = parse_holiday_json-IsCalendar calendar_text (pos 2026)

-- A comma may stand behind the last date.
accepts_comma : next_entry (b',' ∷ b']' ∷ []) ≡ some (b']' ∷ [])
unfolding next_entry skip_space
accepts_comma = refl
