-- ===== src/RedisAsync/Tests.antt =====
-- Tests of core/platform/cache/redis_async.c.
use alpha_fincial_pipline_c.Prelude.{
  none, ℕ, ◌+◌, ◌≤◌, ◌≡◌, refl, true, false, some, List, [], ◌∷◌, length, arith, ◌++◌,
}
use alpha_fincial_pipline_c.Prelude.Int.{pos}
use alpha_fincial_pipline_c.Domain.{ok}
use alpha_fincial_pipline_c.RedisAsync.{
  Redis, Callback, replied, disconnected, add_read, text, latest_key, prefix, key_capacity,
  max_pending, watch_none, callbacks, callback, service, command, reconnect, start_connection,
}
use alpha_fincial_pipline_c.RedisAsync.Pending.{
  answered, Event, commands, serves, reconnects, run, run_bounds, step,
}
use alpha_fincial_pipline_c.RedisAsync.Replies.{service-exact}
use alpha_fincial_pipline_c.RedisAsync.Keys.{latest_key-injective}

abbrev ticker : List ℕ
ticker = b'0' ∷ b'0' ∷ b'5' ∷ []

makes_key : latest_key (some ticker) true key_capacity ≡ ok (prefix ++ ticker)
unfolding latest_key
makes_key = refl

latest_key-injective_example : (length (prefix ++ ticker) + 1 ≤ key_capacity) × (ticker ≡ ticker)
latest_key-injective_example =
    latest_key-injective ticker ticker (prefix ++ ticker) makes_key makes_key

abbrev redis : Redis
redis = record { context = some 5; host = []; port = pos 6379; watch = watch_none; pending = 0 }

-- Two commands, one reply, a disconnection, a command that is refused, and a new connection.
abbrev events : List Event
events =
    commands (some (ticker ∷ [])) true true
    ∷ commands (some (ticker ∷ [])) true true
    ∷ serves (record { read = true; write = true })
        (add_read ∷ replied (some (text ticker)) 7 ∷ disconnected 5 ∷ []) [] false
    ∷ commands (some (ticker ∷ [])) true true
    ∷ reconnects (some 6) true
    ∷ []

counts :
    ((run redis events).0.pending ≡ 1) × ((run redis events).1 ≡ 2) × ((run redis events).2 ≡ 1)
unfolding run step service command reconnect start_connection callbacks callback
counts = (refl, refl, refl)

run_bounds_example :
    let r = run redis events in
    (r.0.pending ≤ max_pending)
    × (redis.pending + r.1 ≤ r.0.pending + r.2)
    × (r.0.pending ≤ redis.pending + r.1)
run_bounds_example = run_bounds events redis (omega arith)

-- Two commands are pending; one is answered while it reads, the other by the disconnection.
abbrev busy : Redis
busy = record redis { pending = 2 }

abbrev reads : List Callback
reads = replied (some (text ticker)) 7 ∷ replied none 8 ∷ disconnected 5 ∷ []

service-exact_example :
    let r = service busy (record { read = true; write = true }) reads [] false in
    r.0.pending + answered r.2 ≡ busy.pending
service-exact_example =
    service-exact busy (record { read = true; write = true }) reads [] false (omega arith)
