-- ===== src/RedisCache.antt =====
-- core/platform/cache/redis_cache.c: ticks and the lockout of the breaker in a Redis server. The
-- server is a parameter: its reply to a command, `none` for NULL, after the commands that it was sent
-- before. The state is the list of those, the latest first. `strtoll` is a parameter as well: its
-- value, whether it sets `errno`, and how many characters it reads.
pub mod Holidays
pub mod Lockout
pub mod Locked
mod Tests
use alpha_fincial_pipline_c.Prelude.{
  ℕ, suc, ◌+◌, ◌-◌, Bool, true, false, not, ◌&&◌, ◌||◌, Option, none, some, List, [], ◌∷◌, ◌++◌,
  length, take, ltb, leb, ◌==◌, if◌then◌else◌,
}
use alpha_fincial_pipline_c.Prelude.Int.{ℤ, pos, negsuc, ◌+ℤ◌, ◌-ℤ◌, ltb_ℤ, leb_ℤ, eqb_ℤ, quot_ℤ}
use alpha_fincial_pipline_c.Domain.{Error, Result, ok, err, invalid_arg, io, range}
use alpha_fincial_pipline_c.Date.{decimal, days_from_civil}
use alpha_fincial_pipline_c.MarketHours.{
  kst_offset_seconds, seconds_per_day, calendar_insufficient,
  next_trading_session_start_holiday_aware,
}
use alpha_fincial_pipline_c.RedisCache.Holidays.{
  max_holidays, calendar_day, civil_year_from_days, parse_holiday_json,
}

abbrev pub key_cap : ℕ
key_cap = 96

abbrev pub ttl_latest_ticks : ℕ
ttl_latest_ticks = 60

-- `%d`
abbrev pub print_int : ℤ → List ℕ
print_int (pos n) = decimal n
print_int (negsuc n) = b'-' ∷ decimal (suc n)

pub data Command : Type 0 where
  time : Command
  get ttl del : List ℕ → Command
  set_ex : List ℕ → List ℕ → ℕ → Command
  set_exat : List ℕ → ℤ → ℤ → Command

-- An element of an array is its text if it is a string.
pub data Reply : Type 0 where
  status string : List ℕ → Reply
  integer : ℤ → Reply
  array : List (Option (List ℕ)) → Reply
  nil failure : Reply

abbrev pub Sent : Type 0
Sent = List Command

-- A function with an error that also sends commands.
abbrev pub Talk {ℓ} : Type ℓ → Type ℓ
Talk A = Sent → Result A × Sent

abbrev pub continue {ℓ κ} :
    {A : Type ℓ} {B : Type κ} → Result A × Sent → (A → Talk B) → Result B × Sent
continue (ok a, sent) f = f a sent
continue (err e, sent) f = (err e, sent)

infixl 5 ◌>>=◌
abbrev pub ◌>>=◌ {ℓ κ} : {A : Type ℓ} {B : Type κ} → Talk A → (A → Talk B) → Talk B
◌>>=◌ m f sent = continue (m sent) f

abbrev pub pure {ℓ} : {A : Type ℓ} → Result A → Talk A
pure r sent = (r, sent)

-- `snprintf(key, KEY_CAP, "<prefix>%s", name)` and its test.
abbrev pub key_of : List ℕ → List ℕ → Result (List ℕ)
key_of prefix name =
    if leb key_cap (length (prefix ++ name)) then err range else ok (prefix ++ name)

-- hard_stop:lockout:
abbrev pub lockout_prefix : List ℕ
lockout_prefix =
    b'h' ∷ b'a' ∷ b'r' ∷ b'd' ∷ b'_' ∷ b's' ∷ b't' ∷ b'o' ∷ b'p' ∷ b':' ∷ b'l' ∷ b'o' ∷ b'c' ∷ b'k'
    ∷ b'o' ∷ b'u' ∷ b't' ∷ b':' ∷ []

-- redis:cache:latest_ticks:
abbrev pub ticks_prefix : List ℕ
ticks_prefix =
    b'r' ∷ b'e' ∷ b'd' ∷ b'i' ∷ b's' ∷ b':' ∷ b'c' ∷ b'a' ∷ b'c' ∷ b'h' ∷ b'e' ∷ b':' ∷ b'l' ∷ b'a'
    ∷ b't' ∷ b'e' ∷ b's' ∷ b't' ∷ b'_' ∷ b't' ∷ b'i' ∷ b'c' ∷ b'k' ∷ b's' ∷ b':' ∷ []

-- krx:holidays:
abbrev pub holidays_prefix : List ℕ
holidays_prefix =
    b'k' ∷ b'r' ∷ b'x' ∷ b':' ∷ b'h' ∷ b'o' ∷ b'l' ∷ b'i' ∷ b'd' ∷ b'a' ∷ b'y' ∷ b's' ∷ b':' ∷ []

-- `opened`: `redisConnect` returns a context with no error; `given`: `out` is not NULL. A new
-- connection has sent nothing.
unfoldable pub connect : Option (List ℕ) → Bool → Bool → Bool → Result Sent
connect none given opened allocates = err invalid_arg
connect (some host) given opened allocates =
    if not given then err invalid_arg else if opened && allocates then ok [] else err io

unfoldable pub breaker_key : Option (List ℕ) → Result (List ℕ)
breaker_key none = err invalid_arg
breaker_key (some []) = err invalid_arg
breaker_key (some (c ∷ scope)) = key_of lockout_prefix (c ∷ scope)

-- `strcmp(s, "OK") == 0`
abbrev pub is_ok_text : List ℕ → Bool
is_ok_text (a ∷ b ∷ []) = a == b'O' && b == b'K'
is_ok_text _ = false

abbrev pub reply_is_ok : Option Reply → Bool
reply_is_ok (some (status text)) = is_ok_text text
reply_is_ok _ = false

abbrev pub ok_or_io : Bool → Result (Unit {0})
ok_or_io b = if b then ok tt else err io

abbrev pub positive_ttl : Option Reply → Bool
positive_ttl (some (integer n)) = ltb_ℤ (pos 0) n
positive_ttl _ = false

-- A text that the parser refuses is no calendar.
abbrev pub calendar_of : ℤ → Option Reply → Option (List ℤ)
calendar_of year (some (string json)) = elim (parse_holiday_json json year) [
  | none ↦ none
  | some days ↦ days
]
calendar_of year _ = none

-- What is written to `out` if there is a value: `none` is `*has_value = false`.
abbrev pub tick_of : ℕ → Option Reply → Result (Option (List ℕ))
tick_of n (some nil) = ok none
tick_of n (some (string text)) =
    ok (some (take (if leb n (length text) then n - 1 else length text) text))
tick_of n _ = err io

-- Any error of a second calendar is ALPHA_ERR_IO.
abbrev pub as_io {ℓ} : {A : Type ℓ} → Result A × Sent → Result A × Sent
as_io (ok a, sent) = (ok a, sent)
as_io (err e, sent) = (err io, sent)

-- The search, which returns for every calendar (MarketHours/Holiday).
unfoldable pub search_session : ℤ → List ℤ → ℤ → ℤ
search_session now_epoch holidays calendar_max =
    elim (next_trading_session_start_holiday_aware now_epoch holidays calendar_max) [
      | none ↦ calendar_insufficient
      | some expiry ↦ expiry
    ]

abbrev pub year_end : ℤ → ℤ
year_end year = days_from_civil year 12 31

-- The year of the KST day, by the division of C.
abbrev pub kst_year : ℤ → ℤ
kst_year now_epoch = civil_year_from_days (quot_ℤ (now_epoch +ℤ kst_offset_seconds) seconds_per_day)

-- What `alpha_redis_is_breaker_locked` writes, and its status, `none` for ALPHA_OK.
pub record LockCheck : Type 0 where
  pub locked : Option Bool
  pub expires_at : Option ℤ
  pub status : Option Error

abbrev pub refused : Option Bool → Error → LockCheck
refused locked e = record { locked = locked; expires_at = none; status = some e }

-- The value and the TTL agree to a second, and the lockout is not over.
unfoldable pub is_consistent : ℤ → ℤ → Option Reply → Bool
is_consistent expiry server_now (some (integer n)) = not (
    leb_ℤ n (pos 0)
    || leb_ℤ expiry server_now
    || ltb_ℤ (expiry -ℤ server_now) n
    || ltb_ℤ (n +ℤ pos 1) (expiry -ℤ server_now))
is_consistent expiry server_now _ = false

module _ (server : Sent → Command → Option Reply) where
  -- `redisCommand`
  abbrev pub redis_command : Command → Talk (Option Reply)
  redis_command command sent = (ok (server sent command), command ∷ sent)

module _ (strtoll : List ℕ → ℤ × Bool × ℕ) where
  unfoldable pub parse_epoch : List ℕ → Option ℤ
  parse_epoch text =
      let (value, failed, used) = strtoll text in
      if failed || used == 0 || not (used == length text) || leb_ℤ value (pos 0)
      then none
      else some value

  abbrev pub time_of : Option Reply → Result ℤ
  time_of (some (array (some text ∷ element ∷ []))) = elim (parse_epoch text) [
    | none ↦ err io
    | some epoch ↦ ok epoch
  ]
  time_of _ = err io

  module _ (server : Sent → Command → Option Reply) where
    unfoldable pub redis_server_time : Talk ℤ
    redis_server_time = do reply ← redis_command server time; pure (time_of reply)

    abbrev pub with_ttl : List ℕ → List ℤ → Talk (List ℤ)
    with_ttl key days = do
      reply ← redis_command server (ttl key)
      pure (if positive_ttl reply then ok days else err io)

    abbrev pub if_calendar : List ℕ → Option (List ℤ) → Talk (List ℤ)
    if_calendar key none = pure (err io)
    if_calendar key (some days) = with_ttl key days

    unfoldable pub load_calendar : ℤ → Talk (List ℤ)
    load_calendar year = do
      key ← pure (key_of holidays_prefix (print_int year))
      reply ← redis_command server (get key)
      if_calendar key (calendar_of year reply)

    -- The pointer to the connection is not NULL here and below.
    unfoldable pub set_latest_tick : Option (List ℕ) → Option (List ℕ) → Talk (Unit {0})
    set_latest_tick (some ticker) (some payload) = do
      key ← pure (key_of ticks_prefix ticker)
      reply ← redis_command server (set_ex key payload ttl_latest_ticks)
      pure (ok_or_io (reply_is_ok reply))
    set_latest_tick _ _ = pure (err invalid_arg)

    -- `given`: neither `out` nor `has_value` is NULL.
    unfoldable pub get_latest_tick : Option (List ℕ) → Bool → ℕ → Talk (Option (List ℕ))
    get_latest_tick (some ticker) given n =
        if not given || n == 0 then pure (err invalid_arg) else do
          key ← pure (key_of ticks_prefix ticker)
          reply ← redis_command server (get key)
          pure (tick_of n reply)
    get_latest_tick none given n = pure (err invalid_arg)

    unfoldable pub set_breaker_lockout : Option (List ℕ) → ℤ → ℤ → Talk (Unit {0})
    unfolding breaker_key redis_server_time
    set_breaker_lockout none now_epoch expires_at = pure (err invalid_arg)
    set_breaker_lockout (some scope) now_epoch expires_at =
        if leb_ℤ expires_at now_epoch then pure (err invalid_arg) else do
          key ← pure (breaker_key (some scope))
          server_now ← redis_server_time
          if leb_ℤ expires_at server_now then pure (err invalid_arg) else do
            reply ← redis_command server (set_exat key expires_at expires_at)
            pure (ok_or_io (reply_is_ok reply))

    -- The search over the calendars of two years.
    unfoldable pub search_next_year : ℤ → ℤ → List ℤ → Talk ℤ
    unfolding load_calendar search_session
    search_next_year now_epoch year holidays = do
      next_holidays ← λ sent. as_io (load_calendar (year +ℤ pos 1) sent)
      pure (
          if ltb max_holidays (length holidays + length next_holidays)
          then err io
          else ok (search_session now_epoch (holidays ++ next_holidays) (year_end (year +ℤ pos 1))))

    unfoldable pub session_expiry : ℤ → Talk ℤ
    unfolding load_calendar search_session search_next_year
    session_expiry now_epoch = do
      let year = kst_year now_epoch
      holidays ← load_calendar year
      let expiry = search_session now_epoch holidays (year_end year)
      if eqb_ℤ expiry calendar_insufficient
          then search_next_year now_epoch year holidays
          else pure (ok expiry)

    -- The result is what goes out through `expires_at_out`.
    unfoldable pub set_breaker_lockout_next_session : Option (List ℕ) → ℤ → Talk ℤ
    unfolding redis_server_time session_expiry set_breaker_lockout
    set_breaker_lockout_next_session none now_epoch = pure (err invalid_arg)
    set_breaker_lockout_next_session (some scope) now_epoch = do
      server_now ← redis_server_time
      if ltb_ℤ now_epoch (server_now -ℤ pos 5) || ltb_ℤ (server_now +ℤ pos 5) now_epoch
          then pure (err invalid_arg)
          else do
            expiry ← session_expiry now_epoch
            if eqb_ℤ expiry calendar_insufficient || leb_ℤ expiry server_now
                then pure (err io)
                else do done ← set_breaker_lockout (some scope) now_epoch expiry; pure (ok expiry)

    unfoldable pub check_ttl : List ℕ → ℤ → Result ℤ × Sent → LockCheck × Sent
    unfolding is_consistent
    check_ttl key expiry (err e, sent) = (refused (some true) io, sent)
    check_ttl key expiry (ok server_now, sent) = (
      if is_consistent expiry server_now (server sent (ttl key))
          then record { locked = some true; expires_at = some expiry; status = none }
          else refused (some true) io,
      ttl key ∷ sent,
    )

    abbrev pub check_epoch : List ℕ → Option ℤ → Sent → LockCheck × Sent
    check_epoch key none sent = (refused (some true) io, sent)
    check_epoch key (some expiry) sent = check_ttl key expiry (redis_server_time sent)

    abbrev pub check_lockout : List ℕ → Option Reply → Sent → LockCheck × Sent
    check_lockout key (some nil) sent =
        (record { locked = some false; expires_at = none; status = none }, sent)
    check_lockout key (some (string text)) sent = check_epoch key (parse_epoch text) sent
    check_lockout key _ sent = (refused none io, sent)

    abbrev pub check_key : Result (List ℕ) → Sent → LockCheck × Sent
    check_key (err e) sent = (refused none e, sent)
    check_key (ok key) sent = check_lockout key (server sent (get key)) (get key ∷ sent)

    -- `given`: `locked` is not NULL.
    unfoldable pub is_breaker_locked : Option (List ℕ) → Bool → Sent → LockCheck × Sent
    unfolding breaker_key parse_epoch redis_server_time check_ttl
    is_breaker_locked none given sent = (refused none invalid_arg, sent)
    is_breaker_locked (some scope) false sent = (refused none invalid_arg, sent)
    is_breaker_locked (some scope) true sent = check_key (breaker_key (some scope)) sent

    unfoldable pub clear_breaker_lockout : Option (List ℕ) → Talk (Unit {0})
    unfolding breaker_key
    clear_breaker_lockout scope = do
      key ← pure (breaker_key scope)
      reply ← redis_command server (del key)
      pure (elim reply [ none ↦ err io | some r ↦ ok tt ])
