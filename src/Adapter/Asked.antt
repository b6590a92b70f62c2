-- ===== src/Adapter/Asked.antt =====
-- No step of core/apps/c_driver_adapter.c takes a question to the environment back.
use alpha_fincial_pipline_c.Prelude.{
  ℕ, ◌%◌, ◌≤◌, ◌<◌, Bool, true, false, none, some, List, [], ◌∷◌, if◌then◌else◌, arith,
}
use alpha_fincial_pipline_c.Double.{Double}
use alpha_fincial_pipline_c.Postgres.{Completion, wants_write, service}
use alpha_fincial_pipline_c.RedisAsync
use alpha_fincial_pipline_c.RedisAsync.{Watch, Notice, watches, timer, connects, replies, timeout}
use alpha_fincial_pipline_c.LwsRuntime.{Ready, LwsCall, lws_call}
use alpha_fincial_pipline_c.Adapter.{
  Status, CaseKind, case_redis, case_db, PgValue, Adapter, Environment, is_ok, next_question,
  fail_unless, op_count, notices, notice, pg_replies, pg_reply, redis_reply, finish_operation,
  reply_is_right, store_value, watch_set_write,
}
use alpha_fincial_pipline_c.Adapter.Drive.{
  parse_value, pg_ready, redis_ready, ready_as, ready, readies, lws_events, runtime_service,
  submit_as, with_token, watch_sent, if_sent, sent_count, submit_one,
}
use alpha_fincial_pipline_c.Adapter.Same.{
  Same-fail_unless, watch_set_write-Same, redis_watch-Same, redis_timer-Same, redis_connect-Same,
  store_value-Same,
}

module _ {ℓ} {W : Type ℓ} (env : Environment) where
  finish_operation-asked :
      (a : Adapter W) (right : Bool) → a.asked ≤ (finish_operation env a right).asked
  unfolding finish_operation
  finish_operation-asked a right = omega arith

  notice-asked : (a : Adapter W) (n : Notice) → a.asked ≤ (notice env a n).asked
  unfolding notice redis_reply
  notice-asked a (watches fd flags) = (redis_watch-Same env a fd flags).asks
  notice-asked a (timer timeout_ms) = (redis_timer-Same env a timeout_ms).asks
  notice-asked a (connects status) = (redis_connect-Same env a status).asks
  notice-asked a (replies status text integer user_data) =
      finish_operation-asked a (reply_is_right env a status text integer)

  notices-asked : (ns : List Notice) (a : Adapter W) → a.asked ≤ (notices env a ns).asked
  unfolding notices
  notices-asked [] a = omega arith
  notices-asked (n ∷ ns) a = omega (arith, notice-asked a n, notices-asked ns (notice env a n))

  pg_replies-asked :
      (cs : List (Completion (PgValue W))) (a : Adapter W) → a.asked ≤ (pg_replies env a cs).asked
  unfolding pg_replies pg_reply
  pg_replies-asked [] a = omega arith
  pg_replies-asked (c ∷ cs) a =
      let (stored, right) = store_value env a c.value in
      let kept = (store_value-Same env a c.value).asks in
      omega (
        arith,
        kept,
        finish_operation-asked stored right,
        pg_replies-asked cs (finish_operation env stored right),
      )

chosen-asked {ℓ} :
    {W : Type ℓ} (b : Bool) (x y : Adapter W) (k : ℕ)
    → k ≤ x.asked
    → k ≤ y.asked
    → k ≤ (if b then x else y).asked
chosen-asked true x y k h l = h
chosen-asked false x y k h l = l

module _ {ℓ} {W : Type ℓ} ⦃d : Double W⦄ (env : Environment) where
  pg_ready-asked :
      (a : Adapter W) (readable writable : Bool)
      → a.asked ≤ (pg_ready env a readable writable).asked
  unfolding pg_ready
  pg_ready-asked a readable writable =
      let r = service (parse_value env) a.pg readable writable (env.libpq a.asked) in
      let told : Adapter W = record (next_question a) { pg = r.0 } in
      let replied = pg_replies-asked env r.2 told in
      let served = pg_replies env told r.2 in
      let set = watch_set_write env served (wants_write r.0) in
      let written = (watch_set_write-Same env served (wants_write r.0)).asks in
      let checked = (Same-fail_unless (is_ok set.1) set.0).asks in
      chosen-asked (is_ok r.1) (fail_unless (is_ok set.1) set.0) (fail_unless false served) a.asked
        (omega (arith, replied, written, checked)) (omega (arith, replied))

  redis_ready-asked :
      (a : Adapter W) (readable writable timed_out : Bool)
      → a.asked ≤ (redis_ready env a readable writable timed_out).asked
  unfolding redis_ready
  redis_ready-asked a readable writable timed_out =
      let handling = env.hiredis a.asked a.redis in
      let flags : Watch = record { read = readable; write = writable } in
      let r =
        if timed_out
        then timeout a.redis handling.handled handling.broken
        else RedisAsync.service a.redis flags handling.reads handling.writes handling.broken in
      let asked : Adapter W = record (next_question a) { redis = r.0 } in
      let told = notices-asked env r.2 asked in
      let checked = (Same-fail_unless (is_ok r.1) (notices env asked r.2)).asks in
      omega (arith, told, checked)

  ready_as-asked :
      (kind : CaseKind) (a : Adapter W) (r : Ready) → a.asked ≤ (ready_as env kind a r).asked
  ready_as-asked case_db a r = pg_ready-asked a r.readable r.writable
  ready_as-asked case_redis a r = redis_ready-asked a r.readable r.writable r.timer

  readies-asked : (rs : List Ready) (a : Adapter W) → a.asked ≤ (readies env a rs).asked
  unfolding readies ready
  readies-asked [] a = omega arith
  readies-asked (r ∷ rs) a =
      omega (arith, ready_as-asked a.kind a r, readies-asked rs (ready env a r))

  lws_events-asked : (cs : List LwsCall) (a : Adapter W) → a.asked ≤ (lws_events env a cs).asked
  unfolding lws_events
  lws_events-asked [] a = omega arith
  lws_events-asked (c ∷ cs) a =
      let (runtime, rs) = lws_call a.runtime c in
      let called : Adapter W = record a { runtime = runtime } in
      omega (arith, readies-asked rs called, lws_events-asked cs (readies env called rs))

  pub runtime_service-asked : (a : Adapter W) → a.asked < (runtime_service env a).0.asked
  unfolding runtime_service
  runtime_service-asked a =
      omega (arith, lws_events-asked (env.calls a.asked a.runtime) (next_question a))

module _ {ℓ} {W : Type ℓ} (env : Environment) where
  submit_as-asked :
      (kind : CaseKind) (a : Adapter W) (operation : ℕ)
      → a.asked ≤ (submit_as env kind a operation).0.asked
  submit_as-asked case_redis a operation = omega arith
  submit_as-asked case_db a operation = omega arith

  watch_sent-asked : (kind : CaseKind) (a : Adapter W) → a.asked ≤ (watch_sent env kind a).0.asked
  watch_sent-asked case_redis a = omega arith
  watch_sent-asked case_db a = (watch_set_write-Same env a (wants_write a.pg)).asks

  if_sent-asked : (r : Adapter W × Status) → r.0.asked ≤ (if_sent env r).0.asked
  if_sent-asked (a, none) = omega (arith, watch_sent-asked a.kind (sent_count a))
  if_sent-asked (a, some e) = omega arith

  pub submit_one-asked : (a : Adapter W) → a.asked ≤ (submit_one env a).0.asked
  unfolding submit_one
  submit_one-asked a =
      let begun = with_token env a in
      let r = submit_as env a.kind begun (a.submitted % op_count) in
      omega (arith, submit_as-asked a.kind begun (a.submitted % op_count), if_sent-asked r)
