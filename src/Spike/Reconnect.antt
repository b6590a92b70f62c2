-- ===== src/Spike/Reconnect.antt =====
-- The connections of Redis in spike/event_loop/main.c: a second one only behind the first.
use alpha_fincial_pipline_c.Prelude.{
  ℕ, ◌≡◌, inl, inr, Bool, true, ◌&&◌, ◌||◌, Option, none, some, List, [], ◌∷◌, ◌==◌, Bool-cases,
  arith,
}
use alpha_fincial_pipline_c.Prelude.Int.{pos, leb_ℤ, ltb_ℤ}
use alpha_fincial_pipline_c.Fixture.{same_text}
use alpha_fincial_pipline_c.Spike.{
  Spike, RedisStart, with_context, start_redis, SpikeReply, string_reply, status_reply, other_reply,
  RedisCall, replied, connected, disconnected, redis_reply, redis_again, redis_call, redis_calls,
}
use alpha_fincial_pipline_c.Spike.Sound.{
  IsSound, Generations, either, fail-IsSound, fail_unless-IsSound,
}

-- A step of Redis leaves the rest as it is.
with_redis :
    (app : Spike) (fd : Option ℕ) (generation : ℕ) (rt dc re : Bool)
    → IsSound app
    → Generations generation rt dc re
    → IsSound (record app {
      redis = fd;
      redis_generation = generation;
      redis_roundtrip = rt;
      redis_disconnect = dc;
      redis_recovered = re;
    })
with_redis app fd generation rt dc re h p = record {
  pg = h.pg;
  redis = p;
  curl = h.curl;
  room = h.room;
}

trip_generation :
    (generation : ℕ) (rt dc re rest : Bool)
    → (generation == 1 && rest) ≡ true
    → Generations generation rt dc re
    → Generations generation true dc re
trip_generation generation rt dc re rest e h = ground arith

recovered_generation :
    (generation : ℕ) (rt dc re rest : Bool)
    → (generation == 2 && rest) ≡ true
    → Generations generation rt dc re
    → Generations generation rt dc true
recovered_generation generation rt dc re rest e h = ground arith

next_generation :
    (generation : ℕ) (rt dc re : Bool)
    → (generation == 1 && rt) ≡ true
    → Generations generation rt dc re
    → Generations 2 rt true re
next_generation generation rt dc re e h = ground arith

redis_reply-IsSound :
    (app : Spike) (reply : Option SpikeReply) → IsSound app → IsSound (redis_reply app reply)
redis_reply-IsSound app none h = fail-IsSound app h
redis_reply-IsSound app (some (string_reply s)) h =
    either (app.redis_generation == 1 && same_text s (b'a' ∷ b'l' ∷ b'p' ∷ b'h' ∷ b'a' ∷ [])) _ _
      (λ e.
        with_redis app app.redis app.redis_generation true app.redis_disconnect app.redis_recovered
          h
          (trip_generation _ app.redis_roundtrip _ _
            (same_text s (b'a' ∷ b'l' ∷ b'p' ∷ b'h' ∷ b'a' ∷ [])) e h.redis))
      (λ e. h)
redis_reply-IsSound app (some (status_reply s)) h =
    either (app.redis_generation == 2 && same_text s (b'P' ∷ b'O' ∷ b'N' ∷ b'G' ∷ [])) _ _
      (λ e.
        with_redis app app.redis app.redis_generation app.redis_roundtrip app.redis_disconnect true
          h
          (recovered_generation _ _ _ app.redis_recovered
            (same_text s (b'P' ∷ b'O' ∷ b'N' ∷ b'G' ∷ [])) e h.redis))
      (λ e. h)
redis_reply-IsSound app (some other_reply) h = h

with_context-IsSound :
    (app : Spike) (context : Option ℕ) (sets : Bool)
    → IsSound app
    → IsSound (with_context app context sets).0
with_context-IsSound app none sets h = h
with_context-IsSound app (some fd) sets h =
    with_redis app (some fd) app.redis_generation app.redis_roundtrip app.redis_disconnect
      app.redis_recovered h h.redis

pub start_redis-IsSound :
    (app : Spike) (start : RedisStart) → IsSound app → IsSound (start_redis app start).0
unfolding start_redis
start_redis-IsSound app start h =
    elim (Bool-cases (leb_ℤ start.port (pos 0) || ltb_ℤ (pos 65535) start.port)) [
      | inl e ↦ rw e h
      | inr e ↦ rw e (with_context-IsSound app start.context start.sets h)
    ]

redis_again-IsSound :
    (app : Spike) (start : RedisStart)
    → (app.redis_generation == 1 && app.redis_roundtrip) ≡ true
    → IsSound app
    → IsSound (redis_again app start)
redis_again-IsSound app start e h =
    let cut : Spike = record app { redis_disconnect = true; redis = none; redis_generation = 2 } in
    let (next, started) = start_redis cut start in
    fail_unless-IsSound started next (
      start_redis-IsSound cut start (
        with_redis app none 2 app.redis_roundtrip true app.redis_recovered h
          (next_generation app.redis_generation _ app.redis_disconnect _ e h.redis)))

redis_call-IsSound : (app : Spike) (call : RedisCall) → IsSound app → IsSound (redis_call app call)
unfolding redis_call
redis_call-IsSound app (replied reply) h = redis_reply-IsSound app reply h
redis_call-IsSound app (connected success taken) h = fail_unless-IsSound (success && taken) app h
redis_call-IsSound app (disconnected start) h =
    either (app.redis_generation == 1 && app.redis_roundtrip) _ _
      (λ e. redis_again-IsSound app start e h) (λ e. h)

pub redis_calls-IsSound :
    (calls : List RedisCall) (app : Spike) → IsSound app → IsSound (redis_calls app calls)
unfolding redis_calls
redis_calls-IsSound [] app h = h
redis_calls-IsSound (call ∷ calls) app h =
    redis_calls-IsSound calls (redis_call app call) (redis_call-IsSound app call h)
