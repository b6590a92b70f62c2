-- ===== src/RedisCache/Locked.antt =====
-- What `alpha_redis_is_breaker_locked` of core/platform/cache/redis_cache.c reports, and the ticks that
-- are read back.
use alpha_fincial_pipline_c.Prelude.{
  ℕ, ◌-◌, ◌<◌, ◌≡◌, ◌≢◌, refl, Bool, true, false, Option, none, some, List, [], ◌∷◌, ◌++◌, length,
  take, take-all, leb, arith, Bool-cases, Option-cases, inl, inr, ap, ◌==◌,
}
use alpha_fincial_pipline_c.Prelude.Int.{ℤ, pos, ◌+ℤ◌, ◌-ℤ◌, ◌<ℤ◌, ◌≤ℤ◌}
use alpha_fincial_pipline_c.Domain.{Error, Result, ok, err, invalid_arg, range, io, Result-cases}
use alpha_fincial_pipline_c.RedisCache.{
  Command, time, get, ttl, set_ex, Reply, status, string, integer, array, nil, failure, Sent,
  key_cap, lockout_prefix, ticks_prefix, ttl_latest_ticks, LockCheck, refused, is_consistent,
  parse_epoch, time_of, redis_server_time, check_ttl, check_epoch, check_lockout, is_breaker_locked,
  set_latest_tick, get_latest_tick, tick_of,
}
use alpha_fincial_pipline_c.RedisCache.Lockout.{writes}

module _ (strtoll : List ℕ → ℤ × Bool × ℕ) (server : Sent → Command → Option Reply) where
  -- What the check reports after its commands. It never writes. It says that the scope is not locked
  -- only where the key is missing, and that it is, with an expiry, only if the stored instant is
  -- after the clock and agrees with the TTL. In every other case it fails, and does not say that
  -- the scope is not locked.
  pub data LockView (key : List ℕ) (sent : Sent) : LockCheck × Sent → Type 0 where
    free :
        server sent (get key) ≡ some nil
        → LockView key sent
            (record { locked = some false; expires_at = none; status = none }, get key ∷ sent)
    locked_until :
        (text : List ℕ) (expiry clock n : ℤ)
        → server sent (get key) ≡ some (string text)
        → parse_epoch strtoll text ≡ some expiry
        → time_of strtoll (server (get key ∷ sent) time) ≡ ok clock
        → server (time ∷ get key ∷ sent) (ttl key) ≡ some (integer n)
        → clock <ℤ expiry
        → pos 0 <ℤ n
        → n ≤ℤ expiry -ℤ clock
        → expiry -ℤ clock ≤ℤ n +ℤ pos 1
        → LockView key sent (
          record { locked = some true; expires_at = some expiry; status = none },
          ttl key ∷ time ∷ get key ∷ sent,
        )
    fails :
        (reported : Option Bool) (e : Error) (after : Sent)
        → reported ≢ some false
        → writes after ≡ writes sent
        → LockView key sent (refused reported e, after)

  is_consistent-ok :
      (expiry clock : ℤ) (reply : Option Reply)
      → is_consistent expiry clock reply ≡ true
      → (n : ℤ) × (reply ≡ some (integer n))
        × (clock <ℤ expiry)
        × (pos 0 <ℤ n)
        × (n ≤ℤ expiry -ℤ clock)
        × (expiry -ℤ clock ≤ℤ n +ℤ pos 1)
  unfolding is_consistent
  is_consistent-ok expiry clock (some (integer n)) h =
      (n, refl, ground arith, ground arith, ground arith, ground arith)
  is_consistent-ok expiry clock none h = absurd (ground arith)
  is_consistent-ok expiry clock (some (status text)) h = absurd (ground arith)
  is_consistent-ok expiry clock (some (string text)) h = absurd (ground arith)
  is_consistent-ok expiry clock (some (array l)) h = absurd (ground arith)
  is_consistent-ok expiry clock (some nil) h = absurd (ground arith)
  is_consistent-ok expiry clock (some failure) h = absurd (ground arith)

  locked_unknown : some true ≢ some false
  locked_unknown p = absurd (ground arith)

  check_string :
      (key text : List ℕ) (sent : Sent)
      → server sent (get key) ≡ some (string text)
      → LockView key sent
          (check_epoch strtoll server key (parse_epoch strtoll text) (get key ∷ sent))
  unfolding check_ttl redis_server_time
  check_string key text sent h = elim (Option-cases (parse_epoch strtoll text)) [
    | inl e ↦ rw e (fails (some true) io (get key ∷ sent) locked_unknown refl)
    | inr (expiry, e) ↦ elim (Result-cases (time_of strtoll (server (get key ∷ sent) time))) [
      | inr (f, q) ↦ rw (e, q) (fails (some true) io (time ∷ get key ∷ sent) locked_unknown refl)
      | inl (clock, q) ↦
          elim (Bool-cases
            (is_consistent expiry clock (server (time ∷ get key ∷ sent) (ttl key)))) [
              | inr c ↦
                  rw (e, q, c)
                    (fails (some true) io (ttl key ∷ time ∷ get key ∷ sent) locked_unknown refl)
              | inl c ↦
                  let (n, r, a, b, l, u) =
                    is_consistent-ok expiry clock (server (time ∷ get key ∷ sent) (ttl key)) c in
                  rw (e, q, c) (locked_until text expiry clock n h e q r a b l u)
            ]
    ]
  ]

  unread :
      (key : List ℕ) (sent : Sent) (e : Error) (after : Sent)
      → writes after ≡ writes sent
      → LockView key sent (refused none e, after)
  unread key sent e after w = fails none e after (λ p. absurd (ground arith)) w

  check_lockout-LockView :
      (key : List ℕ) (sent : Sent) (reply : Option Reply)
      → server sent (get key) ≡ reply
      → LockView key sent (check_lockout strtoll server key reply (get key ∷ sent))
  check_lockout-LockView key sent (some nil) h = free h
  check_lockout-LockView key sent (some (string text)) h = check_string key text sent h
  check_lockout-LockView key sent none h = unread key sent io (get key ∷ sent) refl
  check_lockout-LockView key sent (some (status text)) h = unread key sent io (get key ∷ sent) refl
  check_lockout-LockView key sent (some (integer n)) h = unread key sent io (get key ∷ sent) refl
  check_lockout-LockView key sent (some (array l)) h = unread key sent io (get key ∷ sent) refl
  check_lockout-LockView key sent (some failure) h = unread key sent io (get key ∷ sent) refl

  -- For every server, scope and history, `alpha_redis_is_breaker_locked` sends no write. It reports
  -- that the scope is not locked only if the server has no value for the scope's key. It succeeds
  -- and reports a lock only with the stored instant as expiry, if that is after the clock of the
  -- server and the time left is the TTL or a second more. In every other case it fails, sets no
  -- expiry, and does not report that the scope is not locked.
  pub is_breaker_locked-LockView :
      (scope : List ℕ) (given : Bool) (sent : Sent)
      → LockView
          (lockout_prefix ++ scope)
          sent
          (is_breaker_locked strtoll server (some scope) given sent)
  unfolding is_breaker_locked
  is_breaker_locked-LockView scope false sent =
      unread (lockout_prefix ++ scope) sent invalid_arg sent refl
  is_breaker_locked-LockView [] true sent = unread (lockout_prefix ++ []) sent invalid_arg sent refl
  is_breaker_locked-LockView (c ∷ scope) true sent =
      let key : List ℕ = lockout_prefix ++ (c ∷ scope) in
      elim (Bool-cases (leb key_cap (length key))) [
        | inl e ↦ rw e (unread key sent range sent refl)
        | inr e ↦ rw e (check_lockout-LockView key sent (server sent (get key)) refl)
      ]

  take_all :
      (n : ℕ) (payload : List ℕ)
      → tick_of n (some (string payload)) ≡ ok (some (take (n - 1) payload))
  take_all n payload = elim (Bool-cases (leb n (length payload))) [
    | inl e ↦ rw e refl
    | inr e ↦
        rw
          (
            e,
            take-all (length payload) payload (omega arith),
            take-all (n - 1) payload (ground arith),
          )
          refl
  ]

  abbrev failure_of : Sent → Result (Unit {0}) × Sent
  failure_of s = (err range, s)

  n_positive : (n : ℕ) → 0 < n → n == 0 ≡ false
  n_positive n h = ground arith

  answered : (out : Result (Unit {0}) × Sent) (after : Sent) → out ≡ (ok tt, after) → out.1 ≡ after
  answered out after e = ap (λ o. o.1) e

  -- If the server answers a GET that follows a SET with an expiry by what that stored, and the
  -- setter of a tick succeeds, then the getter with a buffer of n > 0 bytes, called next, returns
  -- the first n - 1 bytes of the payload. They are all of it if it is shorter than the buffer.
  pub get_latest_tick-set_latest_tick :
      (stores : (key value : List ℕ) (seconds : ℕ) (sent : Sent)
        → server (set_ex key value seconds ∷ sent) (get key) ≡ some (string value))
      (ticker payload : List ℕ) (n : ℕ) (sent after : Sent)
      → 0 < n
      → set_latest_tick strtoll server (some ticker) (some payload) sent ≡ (ok tt, after)
      → (get_latest_tick strtoll server (some ticker) true n after).0
        ≡ ok (some (take (n - 1) payload))
  unfolding set_latest_tick get_latest_tick
  get_latest_tick-set_latest_tick stores ticker payload n sent after h e =
      elim (Bool-cases (leb key_cap (length (ticks_prefix ++ ticker)))) [
        | inl l ↦ failed after (rw l at e)
        | inr l ↦
            let key : List ℕ = ticks_prefix ++ ticker in
            let set : Command = set_ex key payload ttl_latest_ticks in
            let same : set ∷ sent ≡ after = answered _ after (rw l at e) in
            rw (← same, l, n_positive n h, stores key payload ttl_latest_ticks sent)
              (take_all n payload)
      ]
    where
      failed : {P : Type 0} {s : Sent} (after : Sent) → failure_of s ≡ (ok tt, after) → P
      failed after p = absurd (ground arith)
