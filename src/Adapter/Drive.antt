-- ===== src/Adapter/Drive.antt =====
-- The loop of core/apps/c_driver_adapter.c: `ready`, `submit_one`, `wait_connection` and `drive`. A loop
-- has fuel, `none` is out of fuel.
use alpha_fincial_pipline_c.Prelude.{
  ℕ, zero, suc, ◌+◌, ◌%◌, ◌^◌, Bool, true, false, not, ◌&&◌, ◌||◌, Option, none, some, List, [],
  ◌∷◌, ◌++◌, take, ltb, ◌==◌, if◌then◌else◌,
}
use alpha_fincial_pipline_c.Prelude.Int.{pos, eqb_ℤ}
use alpha_fincial_pipline_c.Domain.{io}
use alpha_fincial_pipline_c.Double.{Double}
use alpha_fincial_pipline_c.Fixture.{same_text}
use alpha_fincial_pipline_c.Postgres.{
  Pg, ResultKind, position, exposure, wants_write, is_idle, is_ready, service,
}
use alpha_fincial_pipline_c.Postgres.Rows.{
  Rows, parse_position, parse_exposure, upsert_position, query_exposure,
}
use alpha_fincial_pipline_c.RedisAsync
use alpha_fincial_pipline_c.RedisAsync.{Redis, Watch, Notice, prefix, command, timeout}
use alpha_fincial_pipline_c.RedisCache.{lockout_prefix}
use alpha_fincial_pipline_c.LwsRuntime.{Ready, LwsCall, lws_call}
use alpha_fincial_pipline_c.Adapter.{
  Status, CaseKind, case_redis, case_db, PgValue, Adapter, Environment, op_count, is_redis, is_ok,
  next_question, fail_unless, value_of, exposure_of, watch_set_write, notices, pg_replies,
}

abbrev set_text : List ℕ
set_text = b'S' ∷ b'E' ∷ b'T' ∷ []

abbrev get_text : List ℕ
get_text = b'G' ∷ b'E' ∷ b'T' ∷ []

abbrev exists_text : List ℕ
exists_text = b'E' ∷ b'X' ∷ b'I' ∷ b'S' ∷ b'T' ∷ b'S' ∷ []

abbrev ex_text : List ℕ
ex_text = b'E' ∷ b'X' ∷ []

abbrev sixty : List ℕ
sixty = b'6' ∷ b'0' ∷ []

-- `snprintf` into a buffer of 160 bytes.
abbrev key_text : List ℕ → List ℕ → List ℕ
key_text prefix name = take 159 (prefix ++ name)

abbrev pub strategy_a : List ℕ
strategy_a = b's' ∷ b't' ∷ b'r' ∷ b'a' ∷ b't' ∷ b'e' ∷ b'g' ∷ b'y' ∷ b'-' ∷ b'a' ∷ []

abbrev pub strategy_b : List ℕ
strategy_b = b's' ∷ b't' ∷ b'r' ∷ b'a' ∷ b't' ∷ b'e' ∷ b'g' ∷ b'y' ∷ b'-' ∷ b'b' ∷ []

module _ {ℓ} {W : Type ℓ} ⦃d : Double W⦄ (env : Environment) where
  abbrev pub parse_value : ResultKind → Rows → Option (PgValue W)
  parse_value position rows = value_of (parse_position env.strtoll rows)
  parse_value exposure rows = exposure_of (parse_exposure env.strtoll rows)

  -- The answer of libpq has a number of its own.
  unfoldable pub pg_ready : Adapter W → Bool → Bool → Adapter W
  unfolding pg_replies watch_set_write service
  pg_ready a readable writable =
      let (pg, status, done) = service parse_value a.pg readable writable (env.libpq a.asked) in
      let served = pg_replies env (record (next_question a) { pg = pg }) done in
      let (written, set) = watch_set_write env served (wants_write pg) in
      if is_ok status then fail_unless (is_ok set) written else fail_unless false served

module _ {ℓ} {W : Type ℓ} (env : Environment) where
  unfoldable pub redis_ready : Adapter W → Bool → Bool → Bool → Adapter W
  unfolding notices
  redis_ready a readable writable timed_out =
      let handling = env.hiredis a.asked a.redis in
      let flags : Watch = record { read = readable; write = writable } in
      let (redis, status, told) =
        if timed_out
        then timeout a.redis handling.handled handling.broken
        else RedisAsync.service a.redis flags handling.reads handling.writes handling.broken in
      fail_unless (is_ok status) (notices env (record (next_question a) { redis = redis }) told)

  -- `now_ns() > deadline_ns`
  unfoldable pub is_late : Adapter W → ℕ → Adapter W × Bool
  is_late a deadline_ns = (next_question a, ltb deadline_ns (env.now a.asked))

module _ {ℓ} {W : Type ℓ} ⦃d : Double W⦄ (env : Environment) where
  abbrev pub ready_as : CaseKind → Adapter W → Ready → Adapter W
  ready_as case_db a r = pg_ready env a r.readable r.writable
  ready_as case_redis a r = redis_ready env a r.readable r.writable r.timer

  unfoldable pub ready : Adapter W → Ready → Adapter W
  unfolding pg_ready redis_ready
  ready a r = ready_as a.kind a r

  unfoldable pub readies : Adapter W → List Ready → Adapter W
  unfolding ready
  readies a [] = a
  readies a (r ∷ rs) = readies (ready a r) rs

  -- The calls of libwebsockets, each with the callbacks that it makes.
  unfoldable pub lws_events : Adapter W → List LwsCall → Adapter W
  unfolding readies
  lws_events a [] = a
  lws_events a (c ∷ cs) =
      let (runtime, rs) = lws_call a.runtime c in
      lws_events (readies (record a { runtime = runtime }) rs) cs

  -- `alpha_lws_runtime_service(adapter->runtime, 1)`: whether it succeeds.
  unfoldable pub runtime_service : Adapter W → Adapter W × Bool
  unfolding lws_events
  runtime_service a =
      (lws_events (next_question a) (env.calls a.asked a.runtime), env.serves a.asked)

module _ {ℓ} {W : Type ℓ} where
  abbrev pub redis_arguments : Adapter W → ℕ → List (List ℕ)
  redis_arguments a operation =
      if operation == 0
      then set_text ∷ key_text prefix a.ticker ∷ a.redis_value ∷ ex_text ∷ sixty ∷ []
      else if operation == 1
      then get_text ∷ key_text prefix a.ticker ∷ []
      else exists_text ∷ key_text lockout_prefix a.namespace_text ∷ []

  abbrev pub sent_count : Adapter W → Adapter W
  sent_count a = record a { submitted = (a.submitted + 1) % 2 ^ 64; inflight = true }

  -- The body of the loop of `drive`, up to the test of its condition, and whether it breaks off.
  abbrev pub may_submit : Adapter W → Bool
  may_submit a = not a.inflight && (is_redis a.kind || is_idle a.pg)

  abbrev pub is_connected : Adapter W → Bool
  is_connected a = elim a.kind [ case_redis ↦ a.connected | case_db ↦ is_ready a.pg.state ]

  unfoldable pub terminal_matches_service : Adapter W → Bool
  terminal_matches_service a = elim a.kind [
    | case_redis ↦ a.completed == a.total
    | case_db ↦ not (
        not (same_text a.db_row_a.strategy_id strategy_a)
        || not (eqb_ℤ a.db_row_a.quantity (pos 10))
        || not (eqb_ℤ a.db_row_a.current_price (pos 1000))
        || not (same_text a.db_row_b.strategy_id strategy_b)
        || not (eqb_ℤ a.db_row_b.quantity (pos 20))
        || not (eqb_ℤ a.db_row_b.current_price (pos 1200))
        || not (eqb_ℤ a.exposure.total_quantity (pos 30))
        || not (eqb_ℤ a.exposure.total_market_value (pos 34000)))
  ]

module _ {ℓ} {W : Type ℓ} (env : Environment) where
  abbrev pub submit_redis : Adapter W → ℕ → Adapter W × Status
  submit_redis a operation =
      let (redis, status) =
        command a.redis (some (redis_arguments a operation)) true (env.takes a.asked) in
      (record (next_question a) { redis = redis }, status)

  -- The user data is the address of the token.
  abbrev pub pg_request : Adapter W → ℕ → Pg × Status
  pg_request a operation =
      let takes = λ (params : List (List ℕ)). env.takes a.asked in
      let rest = env.flush_rest a.asked in
      let message = env.message a.asked in
      if operation == 0
      then upsert_position a.pg (some a.db_row_a) 0 takes rest message
      else if operation == 1
      then upsert_position a.pg (some a.db_row_b) 0 takes rest message
      else query_exposure a.pg (some a.ticker) 0 takes rest message

  abbrev pub submit_pg : Adapter W → ℕ → Adapter W × Status
  submit_pg a operation =
      let (pg, status) = pg_request a operation in (record (next_question a) { pg = pg }, status)

  abbrev pub submit_as : CaseKind → Adapter W → ℕ → Adapter W × Status
  submit_as case_redis a operation = submit_redis a operation
  submit_as case_db a operation = submit_pg a operation

  -- What follows an operation that was sent.
  abbrev pub watch_sent : CaseKind → Adapter W → Adapter W × Status
  watch_sent case_redis a = (a, none)
  watch_sent case_db a =
      let (next, status) = watch_set_write env a (wants_write a.pg) in
      (next, if is_ok status then none else some io)

  abbrev pub if_sent : Adapter W × Status → Adapter W × Status
  if_sent (a, none) = watch_sent a.kind (sent_count a)
  if_sent (a, some e) = (a, some e)

  abbrev pub with_token : Adapter W → Adapter W
  with_token a = record (next_question a) {
    token = record { index = a.submitted; started_ns = env.now a.asked };
  }

  unfoldable pub submit_one : Adapter W → Adapter W × Status
  unfolding watch_set_write upsert_position query_exposure command
  submit_one a = if_sent (submit_as a.kind (with_token a) (a.submitted % op_count))

module _ {ℓ} {W : Type ℓ} ⦃d : Double W⦄ (env : Environment) where
  abbrev pub serve_round : Adapter W → ℕ → Adapter W
  serve_round a deadline_ns =
      let (served, ok_service) = runtime_service env a in
      let (looked, late) = is_late env served deadline_ns in
      if ok_service then fail_unless (not late) looked else fail_unless false served

  unfoldable pub drive_round : Adapter W → ℕ → Adapter W
  unfolding submit_one runtime_service is_late
  drive_round a deadline_ns =
      let (sent, status) = submit_one env a in
      if may_submit a
      then (if is_ok status then serve_round sent deadline_ns else fail_unless false sent)
      else serve_round a deadline_ns

  unfoldable pub drive : ℕ → Adapter W → ℕ → Option (Adapter W × Bool)
  unfolding drive_round
  drive zero a deadline_ns = none
  drive (suc fuel) a deadline_ns =
      let rest = drive fuel (drive_round a deadline_ns) deadline_ns in
      if not a.failed && ltb a.completed a.total then rest else some (a, not a.failed)

  -- The result: whether the connection is there.
  unfoldable pub wait_connection : ℕ → Adapter W → ℕ → Option (Adapter W × Bool)
  unfolding runtime_service is_late
  wait_connection zero a deadline_ns = none
  wait_connection (suc fuel) a deadline_ns =
      let (served, ok_service) = runtime_service env a in
      let (looked, late) = is_late env served deadline_ns in
      let rest = wait_connection fuel looked deadline_ns in
      if a.failed
      then some (a, false)
      else if is_connected a
      then some (a, true)
      else if not ok_service
      then some (served, false)
      else if late
      then some (looked, false)
      else rest
