-- ===== src/RedisCache/Lockout.antt =====
-- What the lockout functions of core/platform/cache/redis_cache.c write to the server.
use mathlib.Core.Path.{subst}
use alpha_fincial_pipline_c.Prelude.{
  ℕ, ◌+◌, ◌≤◌, ◌≡◌, ◌≢◌, ◌∙◌, sym, refl, Bool, ◌||◌, Option, none, some, List, [], ◌∷◌, ◌++◌,
  length, ltb, leb, if◌then◌else◌, arith, Bool-cases, inl, inr,
}
use alpha_fincial_pipline_c.Prelude.Int.{ℤ, pos, ◌+ℤ◌, ◌-ℤ◌, ◌<ℤ◌, leb_ℤ, ltb_ℤ, eqb_ℤ}
use alpha_fincial_pipline_c.Domain.{
  Error, Result, ok, err, invalid_arg, range, io, Result-cases, OnOk,
}
use alpha_fincial_pipline_c.MarketHours.{calendar_insufficient, kst_day_of}
use alpha_fincial_pipline_c.MarketHours.Holiday.{
  Outcome, next_trading_session_start_holiday_aware_lem,
}
use alpha_fincial_pipline_c.RedisCache.{
  Command, time, get, ttl, del, set_ex, set_exat, Reply, status, string, integer, array, nil,
  failure, Sent, Talk, continue, lockout_prefix, holidays_prefix, print_int, key_cap, calendar_of,
  kst_year, year_end, time_of, if_calendar, load_calendar, search_session, positive_ttl, as_io,
  max_holidays, search_next_year, session_expiry, set_breaker_lockout,
  set_breaker_lockout_next_session, pure, reply_is_ok,
}
use alpha_fincial_pipline_c.RedisCache.Holidays.{max_holidays, parse_holiday_json}
use alpha_fincial_pipline_c.RedisCache.Holidays.Sound.{
  Accepts, IsCalendar, parse_holiday_json-IsCalendar,
}

-- The commands that change what the server stores.
abbrev pub writes : Sent → List Command
writes [] = []
writes (time ∷ sent) = writes sent
writes (get key ∷ sent) = writes sent
writes (ttl key ∷ sent) = writes sent
writes (del key ∷ sent) = del key ∷ writes sent
writes (set_ex key value seconds ∷ sent) = set_ex key value seconds ∷ writes sent
writes (set_exat key value expiry ∷ sent) = set_exat key value expiry ∷ writes sent

-- The run sends no write, and its value has the property.
abbrev pub Gives {ℓ} : {A : Type ℓ} → (A → Type 0) → Sent → Result A × Sent → Type 0
Gives Q sent out = (writes out.1 ≡ writes sent) × OnOk Q out.0

Gives-continue {ℓ κ} :
    {A : Type ℓ} {B : Type κ} (Q : A → Type 0) (R : B → Type 0) (sent : Sent)
    (out : Result A × Sent) (f : A → Talk B)
    → Gives Q sent out
    → ((a : A) (s : Sent) → Q a → Gives R s (f a s))
    → Gives R sent (continue out f)
Gives-continue Q R sent (ok a, s) f (w, q) h = let (v, r) = h a s q in (v ∙ w, r)
Gives-continue Q R sent (err e, s) f (w, q) h = (w, tt)

Gives-as_io {ℓ} :
    {A : Type ℓ} (Q : A → Type 0) (sent : Sent) (out : Result A × Sent)
    → Gives Q sent out
    → Gives Q sent (as_io out)
Gives-as_io Q sent (ok a, s) h = h
Gives-as_io Q sent (err e, s) h = (h.0, tt)

calendar_of-IsCalendar :
    (year : ℤ) (reply : Option Reply) (days : List ℤ)
    → calendar_of year reply ≡ some days
    → IsCalendar year days
calendar_of-IsCalendar year (some (string json)) days h =
    let (r, runs, accepts) = parse_holiday_json-IsCalendar json year in
    subst (Accepts year) (parsed (parse_holiday_json json year) r runs h) accepts
  where
    parsed :
        (out : Option (Option (List ℤ))) (r : Option (List ℤ))
        → out ≡ some r
        → elim out [ none ↦ none | some days ↦ days ] ≡ some days
        → r ≡ some days
    parsed none r e h = absurd (ground arith)
    parsed (some q) r e h = cc
calendar_of-IsCalendar year none days h = absurd (ground arith)
calendar_of-IsCalendar year (some (status text)) days h = absurd (ground arith)
calendar_of-IsCalendar year (some (integer n)) days h = absurd (ground arith)
calendar_of-IsCalendar year (some (array l)) days h = absurd (ground arith)
calendar_of-IsCalendar year (some nil) days h = absurd (ground arith)
calendar_of-IsCalendar year (some failure) days h = absurd (ground arith)

-- The search over a calendar, unless it returned the sentinel.
search_session-Outcome :
    (now_epoch : ℤ) (days : List ℤ) (last : ℤ)
    → Outcome days last (kst_day_of now_epoch +ℤ pos 1) (search_session now_epoch days last)
unfolding search_session
search_session-Outcome now_epoch days last =
    let (r, runs, o) = next_trading_session_start_holiday_aware_lem now_epoch days last in
    subst
      (λ x.
        Outcome days last (kst_day_of now_epoch +ℤ pos 1)
          (elim x [ none ↦ calendar_insufficient | some expiry ↦ expiry ]))
      (sym runs) o

-- The instant is what the search from now finds: on the calendar of the year, or on those of two
-- years, which are together not longer than one can be.
pub data NextSession (now_epoch expiry : ℤ) : Type 0 where
  this_year :
      (days : List ℤ)
      → IsCalendar (kst_year now_epoch) days
      → Outcome days (year_end (kst_year now_epoch)) (kst_day_of now_epoch +ℤ pos 1) expiry
      → NextSession now_epoch expiry
  next_year :
      (days next_days : List ℤ)
      → IsCalendar (kst_year now_epoch) days
      → IsCalendar (kst_year now_epoch +ℤ pos 1) next_days
      → length days + length next_days ≤ max_holidays
      → Outcome
          (days ++ next_days)
          (year_end (kst_year now_epoch +ℤ pos 1))
          (kst_day_of now_epoch +ℤ pos 1)
          expiry
      → NextSession now_epoch expiry

module _ (strtoll : List ℕ → ℤ × Bool × ℕ) (server : Sent → Command → Option Reply) where
  if_calendar-Gives :
      (year : ℤ) (key : List ℕ) (days : Option (List ℤ)) (sent : Sent)
      → ((found : List ℤ) → days ≡ some found → IsCalendar year found)
      → Gives (IsCalendar year) sent (if_calendar strtoll server key days sent)
  if_calendar-Gives year key none sent h = (refl, tt)
  if_calendar-Gives year key (some days) sent h =
      elim (Bool-cases (positive_ttl (server sent (ttl key)))) [
        | inl e ↦ rw e (refl, h days refl)
        | inr e ↦ rw e (refl, tt)
      ]

  load_calendar-Gives :
      (year : ℤ) (sent : Sent)
      → Gives (IsCalendar year) sent (load_calendar strtoll server year sent)
  unfolding load_calendar
  load_calendar-Gives year sent =
      elim (Bool-cases (leb key_cap (length (holidays_prefix ++ print_int year)))) [
        | inl e ↦ rw e (refl, tt)
        | inr e ↦
            let key : List ℕ = holidays_prefix ++ print_int year in
            let reply : Option Reply = server sent (get key) in
            rw e (
              if_calendar-Gives year key (calendar_of year reply) (get key ∷ sent)
                (calendar_of-IsCalendar year reply))
      ]

  search_next_year-Gives :
      (now_epoch : ℤ) (days : List ℤ) (sent : Sent)
      → IsCalendar (kst_year now_epoch) days
      → Gives
          (NextSession now_epoch)
          sent
          (search_next_year strtoll server now_epoch (kst_year now_epoch) days sent)
  unfolding search_next_year
  search_next_year-Gives now_epoch days sent c =
      let next : ℤ = kst_year now_epoch +ℤ pos 1 in
      Gives-continue (IsCalendar next) (NextSession now_epoch) sent _ _
        (Gives-as_io (IsCalendar next) sent (load_calendar strtoll server next sent)
          (load_calendar-Gives next sent))
        (λ next_days s d. elim (Bool-cases (ltb max_holidays (length days + length next_days))) [
          | inl e ↦ rw e (refl, tt)
          | inr e ↦ rw e (
            refl,
            next_year days next_days c d (ground arith)
                (search_session-Outcome now_epoch (days ++ next_days) (year_end next)),
          )
        ])

  session_expiry-Gives :
      (now_epoch : ℤ) (sent : Sent)
      → Gives (NextSession now_epoch) sent (session_expiry strtoll server now_epoch sent)
  unfolding session_expiry
  session_expiry-Gives now_epoch sent =
      let year : ℤ = kst_year now_epoch in
      Gives-continue (IsCalendar year) (NextSession now_epoch) sent _ _
        (load_calendar-Gives year sent)
        (λ days s c.
          elim (Bool-cases
            (eqb_ℤ (search_session now_epoch days (year_end year)) calendar_insufficient)) [
              | inl e ↦ rw e (search_next_year-Gives now_epoch days s c)
              | inr e ↦
                  rw e
                    (refl, this_year days c (search_session-Outcome now_epoch days (year_end year)))
            ])

  -- The run of the setter leaves the stored values alone and fails, or its last command is the only
  -- write: it sets the scope's key to an instant that expires the key, and that is the result if
  -- the setter succeeds.
  pub data Lockout (scope : List ℕ) (now_epoch : ℤ) (sent : Sent) : Result ℤ × Sent → Type 0 where
    kept :
        (e : Error) (after : Sent)
        → writes after ≡ writes sent
        → Lockout scope now_epoch sent (err e, after)
    sets :
        (r : Result ℤ) (before : Sent) (expiry clock : ℤ)
        → writes before ≡ writes sent
        → NextSession now_epoch expiry
        → expiry ≢ calendar_insufficient
        → now_epoch <ℤ expiry
        → time_of strtoll (server before time) ≡ ok clock
        → clock <ℤ expiry
        → OnOk (λ out. out ≡ expiry) r
        → Lockout scope now_epoch sent
            (r, set_exat (lockout_prefix ++ scope) expiry expiry ∷ time ∷ before)

  set_breaker_lockout-Lockout :
      (scope : List ℕ) (now_epoch expiry : ℤ) (start sent : Sent)
      → writes sent ≡ writes start
      → NextSession now_epoch expiry
      → expiry ≢ calendar_insufficient
      → Lockout scope now_epoch start (
          continue
            (set_breaker_lockout strtoll server (some scope) now_epoch expiry sent)
            (λ done. pure (ok expiry)))
  unfolding set_breaker_lockout
  set_breaker_lockout-Lockout [] now_epoch expiry start sent w n u =
      elim (Bool-cases (leb_ℤ expiry now_epoch)) [
        | inl e ↦ rw e (kept invalid_arg sent w)
        | inr e ↦ rw e (kept invalid_arg sent w)
      ]
  set_breaker_lockout-Lockout (c ∷ scope) now_epoch expiry start sent w n u =
      elim (Bool-cases (leb_ℤ expiry now_epoch)) [
        | inl e ↦ rw e (kept invalid_arg sent w)
        | inr e ↦ elim (Bool-cases (leb key_cap (length (lockout_prefix ++ (c ∷ scope))))) [
          | inl l ↦ rw (e, l) (kept range sent w)
          | inr l ↦ elim (Result-cases (time_of strtoll (server sent time))) [
            | inr (f, q) ↦ rw (e, l, q) (kept f (time ∷ sent) w)
            | inl (clock, q) ↦ elim (Bool-cases (leb_ℤ expiry clock)) [
              | inl d ↦ rw (e, l, q, d) (kept invalid_arg (time ∷ sent) w)
              | inr d ↦
                  elim (Bool-cases (
                    reply_is_ok (
                      server (time ∷ sent)
                        (set_exat (lockout_prefix ++ (c ∷ scope)) expiry expiry)))) [
                          | inl o ↦
                              rw (e, l, q, d, o)
                                (sets (ok expiry) sent expiry clock w n u (ground arith) q
                                  (ground arith) refl)
                          | inr o ↦
                              rw (e, l, q, d, o)
                                (sets (err io) sent expiry clock w n u (ground arith) q
                                  (ground arith) tt)
                        ]
            ]
          ]
        ]
      ]

  -- For every server, what `alpha_redis_set_breaker_lockout_next_session` sends is this: either no
  -- write, and it fails; or exactly one write, its last command, behind a query of the clock. That
  -- sets the scope's key to an instant that also expires the key. The instant is the start of the
  -- first session that the search finds on the calendars of this year, or of this year and the
  -- next, which are sorted and of their years. It is after both the event and the clock of the
  -- server, and it is the result if the function succeeds.
  pub set_breaker_lockout_next_session-Lockout :
      (scope : List ℕ) (now_epoch : ℤ) (sent : Sent)
      → Lockout scope now_epoch sent
          (set_breaker_lockout_next_session strtoll server (some scope) now_epoch sent)
  unfolding set_breaker_lockout_next_session
  set_breaker_lockout_next_session-Lockout scope now_epoch sent =
      elim (Result-cases (time_of strtoll (server sent time))) [
        | inr (f, q) ↦ rw q (kept f (time ∷ sent) refl)
        | inl (clock, q) ↦
            elim (Bool-cases
              (ltb_ℤ now_epoch (clock -ℤ pos 5) || ltb_ℤ (clock +ℤ pos 5) now_epoch)) [
                | inl e ↦ rw (q, e) (kept invalid_arg (time ∷ sent) refl)
                | inr e ↦
                    rw (q, e)
                      (found clock (session_expiry strtoll server now_epoch (time ∷ sent))
                        (session_expiry-Gives now_epoch (time ∷ sent)))
              ]
      ]
    where
      found :
          (clock : ℤ) (out : Result ℤ × Sent)
          → Gives (NextSession now_epoch) (time ∷ sent) out
          → Lockout scope now_epoch sent (
              continue out (λ expiry.
                if eqb_ℤ expiry calendar_insufficient || leb_ℤ expiry clock
                then pure (err io)
                else (λ s.
                    continue
                      (set_breaker_lockout strtoll server (some scope) now_epoch expiry s)
                      (λ done. pure (ok expiry)))))
      found clock (err f, s) (w, n) = kept f s w
      found clock (ok expiry, s) (w, n) =
          elim (Bool-cases (eqb_ℤ expiry calendar_insufficient || leb_ℤ expiry clock)) [
            | inl e ↦ rw e (kept io s w)
            | inr e ↦
                rw e (
                  set_breaker_lockout-Lockout scope now_epoch expiry sent s w n (λ p. ground arith))
          ]
