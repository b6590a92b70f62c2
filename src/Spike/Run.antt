-- ===== src/Spike/Run.antt =====
-- A run of spike/event_loop/main.c: `main` succeeds only behind all phases, and it ends.
use alpha_fincial_pipline_c.Prelude.{
  ℕ, zero, suc, ◌+◌, ◌≤◌, ◌≡◌, refl, ◌⊎◌, inl, inr, Bool, true, false, not, ◌&&◌, none, some, List,
  [], ◌∷◌, length, ltb, if◌then◌else◌, arith, if_some, ◌||◌, ◌==◌,
}
use mathlib.Core.Path.{subst}
use alpha_fincial_pipline_c.Spike.{
  Spike, RedisStart, CurlAnswer, run_timeout_seconds, max_curl_watches, fail, is_200,
  exercise_queue, check_queue, Request, start_redis, curl_action,
}
use alpha_fincial_pipline_c.Spike.Loop.{
  complete, Round, serve_round, main_loop, no_app, setup, finish, exit_code,
}
use alpha_fincial_pipline_c.Spike.Sound.{IsSound, either, fail-IsSound, Phases, Generations}
use alpha_fincial_pipline_c.Spike.Reconnect.{start_redis-IsSound}
use alpha_fincial_pipline_c.Spike.Curl.{curl_action-IsSound}
use alpha_fincial_pipline_c.Spike.Steps.{serve_round-IsSound}

main_loop-IsSound :
    (fuel : ℕ) (rounds : ℕ → Round) (k : ℕ) (app b : Spike)
    → IsSound app
    → main_loop fuel rounds k app ≡ some b
    → IsSound b
unfolding main_loop
main_loop-IsSound zero rounds k app b h e = absurd cc
main_loop-IsSound (suc fuel) rounds k app b h e =
    elim (if_some
      (not app.failed && not (complete app) && ltb (rounds k).elapsed run_timeout_seconds) _ _ b
      e) [
        | inl (c, f) ↦
            main_loop-IsSound fuel rounds (suc k) (serve_round app (rounds k)) b
              (serve_round-IsSound app (rounds k) h) f
        | inr (c, f) ↦ subst IsSound f h
      ]

check_queue-IsSound :
    (requests : List Request) (i : ℕ) (app : Spike)
    → IsSound app
    → IsSound (check_queue i requests app)
check_queue-IsSound [] i app h = record { pg = h.pg; redis = h.redis; curl = h.curl; room = h.room }
check_queue-IsSound (request ∷ requests) i app h =
    let marked : Spike = record app { cancellation = true } in
    let kept : IsSound marked = record {
      pg = h.pg;
      redis = h.redis;
      curl = h.curl;
      room = h.room;
    } in
    either request.cancelled _ _ (λ e. check_queue-IsSound requests (suc i) marked kept)
      (λ e.
        either (not (request.id == i + 1)) _ _ (λ f. fail-IsSound app h)
          (λ f. check_queue-IsSound requests (suc i) app h))

-- The state with an empty queue, before the connections are started.
begun : Spike
begun = record (exercise_queue no_app) { redis_generation = 1 }

begun-IsSound : IsSound begun
unfolding begun exercise_queue
begun-IsSound = record {
  pg = inl (refl, refl, refl);
  redis = inl (omega arith, refl, refl);
  curl = inl refl;
  room = omega arith;
}

pub setup-IsSound :
    (pg_starts : Bool) (redis : RedisStart) (curl_starts : Bool) (answer : CurlAnswer) (app : Spike)
    → setup pg_starts redis curl_starts answer ≡ some app
    → IsSound app
unfolding setup begun
setup-IsSound pg_starts redis curl_starts answer app e =
    let acted = curl_action (start_redis begun redis).0 answer in
    let sound =
      curl_action-IsSound (start_redis begun redis).0 answer
        (start_redis-IsSound begun redis begun-IsSound) in
    elim (if_some _ none acted app (swapped _ _ acted app e)) [
      | inl (c, f) ↦ absurd cc
      | inr (c, f) ↦ subst IsSound f sound
    ]
  where
    swapped :
        (x y : Bool) (z w : Spike)
        → (if x then none else if y then none else some z) ≡ some w
        → (if x || y then none else some z) ≡ some w
    swapped true y z w p = p
    swapped false y z w p = p

-- What `complete` says of the recoveries and the round trip.
complete_lem :
    (app : Spike)
    → complete app ≡ true
    → (app.pg_recovered ≡ true) × (app.redis_disconnect ≡ true) × (app.curl_roundtrip ≡ true)
unfolding complete
complete_lem app e = ground arith

exit_zero :
    (c : Bool) (b : Spike)
    → exit_code (if c then b else fail b) ≡ 0
    → (c ≡ true) × (b.failed ≡ false)
exit_zero true b e = (refl, zero_means b.failed e)
  where
    zero_means : (failed : Bool) → ◌≡◌ {A = ℕ} (if failed then 1 else 0) 0 → failed ≡ false
    zero_means true p = absurd (omega (arith, p))
    zero_means false p = refl
exit_zero false b e = absurd (omega (arith, e))

recovered_means :
    (state : ℕ) (roundtrip recovered sync : Bool)
    → recovered ≡ true
    → Phases state roundtrip recovered sync
    → (state ≡ 3) × (sync ≡ true)
recovered_means state roundtrip recovered sync e h = ground arith

cut_means :
    (generation : ℕ) (roundtrip disconnect recovered : Bool)
    → disconnect ≡ true
    → Generations generation roundtrip disconnect recovered
    → (generation ≡ 2) × (roundtrip ≡ true)
cut_means generation roundtrip disconnect recovered e h = ground arith

trip_means : (trip right : Bool) → trip ≡ true → (trip ≡ false) ⊎ (right ≡ true) → right ≡ true
trip_means trip right e h = ground arith

-- If the set-up and the loop of `main` come to a state with which the process exits with 0, then all
-- is complete and nothing failed. Postgres is in the recovery, behind a sync; Redis is on its second
-- connection, behind a round trip and a disconnection; the transfer has status 200, and the table of
-- 16 watches did not overflow. This holds whatever the libraries answer, in any order of events.
pub exit_code_lem :
    (pg_starts : Bool) (redis : RedisStart) (curl_starts : Bool) (answer : CurlAnswer) (fuel : ℕ)
    (rounds : ℕ → Round) (app b : Spike)
    → setup pg_starts redis curl_starts answer ≡ some app
    → main_loop fuel rounds 0 app ≡ some b
    → exit_code (finish b) ≡ 0
    → (complete b ≡ true)
      × (b.failed ≡ false)
      × (b.pg_state ≡ 3)
      × (b.pg_sync_seen ≡ true)
      × (b.redis_generation ≡ 2)
      × (b.redis_roundtrip ≡ true)
      × (is_200 b.curl_status ≡ true)
      × (length b.curl_watches ≤ max_curl_watches)
unfolding finish
exit_code_lem pg_starts redis curl_starts answer fuel rounds app b e f g =
    let sound =
      main_loop-IsSound fuel rounds 0 app b (setup-IsSound pg_starts redis curl_starts answer app e)
        f in
    let (all, right) = exit_zero (complete b) b g in
    let (recovers, cut, trip) = complete_lem b all in
    let (state, sync) =
      recovered_means b.pg_state b.pg_roundtrip b.pg_recovered b.pg_sync_seen recovers sound.pg in
    let (second, told) =
      cut_means b.redis_generation b.redis_roundtrip b.redis_disconnect b.redis_recovered cut
        sound.redis in
    (
      all,
      right,
      state,
      sync,
      second,
      told,
      trip_means b.curl_roundtrip _ trip sound.curl,
      sound.room,
    )
