-- ===== src/Spike/Steps.antt =====
-- Each step of spike/event_loop/main.c keeps to the phases: a tick, a callback, a round.
use alpha_fincial_pipline_c.Prelude.{ℕ, suc, Bool, true, ◌&&◌, List, [], ◌∷◌}
use alpha_fincial_pipline_c.Spike.{Spike, RedisCall, CurlAnswer}
use alpha_fincial_pipline_c.Spike.Loop.{
  Owner, owner_pg, owner_redis, owner_curl, Outcome, handle_redis, has_redis, serve_watch,
  serve_polled, poll_set, service_tick, RawReason, raw_rx, raw_writeable, timer_fired, raw_other,
  curl_if, raw_callback, SpikeEvent, ticks, calls_raw, events, Round, serve_round,
}
use alpha_fincial_pipline_c.Spike.Sound.{IsSound, either, fail-IsSound, pg_ready-IsSound}
use alpha_fincial_pipline_c.Spike.Reconnect.{redis_calls-IsSound}
use alpha_fincial_pipline_c.Spike.Curl.{curl_action-IsSound}

handle_redis-IsSound :
    (wanted : Bool) (app : Spike) (calls : List RedisCall)
    → IsSound app
    → IsSound (handle_redis wanted app calls)
unfolding handle_redis
handle_redis-IsSound wanted app calls h =
    either (wanted && has_redis app) _ _ (λ e. redis_calls-IsSound calls app h) (λ e. h)

serve_watch-IsSound :
    (app : Spike) (owner : Owner) (outcome : Outcome)
    → IsSound app
    → IsSound (serve_watch app owner outcome)
unfolding serve_watch
serve_watch-IsSound app owner_pg outcome h = pg_ready-IsSound app outcome.pg h
serve_watch-IsSound app owner_redis outcome h =
    handle_redis-IsSound outcome.writable _ outcome.writes
      (handle_redis-IsSound outcome.readable app outcome.reads h)
serve_watch-IsSound app (owner_curl i) outcome h = curl_action-IsSound app outcome.curl h

serve_polled-IsSound :
    (owners : List Owner) (i : ℕ) (app : Spike) (outcome : ℕ → Outcome)
    → IsSound app
    → IsSound (serve_polled i app owners outcome)
unfolding serve_polled
serve_polled-IsSound [] i app outcome h = h
serve_polled-IsSound (owner ∷ owners) i app outcome h =
    serve_polled-IsSound owners (suc i) _ outcome
      (either (outcome i).any _ _ (λ e. serve_watch-IsSound app owner (outcome i) h) (λ e. h))

service_tick-IsSound :
    (app : Spike) (polls : Bool) (outcome : ℕ → Outcome) (last : CurlAnswer)
    → IsSound app
    → IsSound (service_tick app polls outcome last)
unfolding service_tick
service_tick-IsSound app polls outcome last h =
    either polls _ _
      (λ e. curl_action-IsSound _ last (serve_polled-IsSound (poll_set app) 0 app outcome h))
      (λ e. fail-IsSound app h)

curl_if-IsSound :
    (wanted : Bool) (app : Spike) (answer : CurlAnswer)
    → IsSound app
    → IsSound (curl_if wanted app answer)
curl_if-IsSound wanted app answer h =
    either wanted _ _ (λ e. curl_action-IsSound app answer h) (λ e. h)

raw_callback-IsSound :
    (app : Spike) (owner : Owner) (reason : RawReason) (outcome : Outcome)
    → IsSound app
    → IsSound (raw_callback app owner reason outcome)
unfolding raw_callback
raw_callback-IsSound app owner_pg raw_rx outcome h = pg_ready-IsSound app outcome.pg h
raw_callback-IsSound app owner_pg raw_writeable outcome h = pg_ready-IsSound app outcome.pg h
raw_callback-IsSound app owner_pg timer_fired outcome h = h
raw_callback-IsSound app owner_pg raw_other outcome h = h
raw_callback-IsSound app owner_redis raw_rx outcome h =
    handle_redis-IsSound true app outcome.reads h
raw_callback-IsSound app owner_redis raw_writeable outcome h =
    handle_redis-IsSound true app outcome.writes h
raw_callback-IsSound app owner_redis timer_fired outcome h =
    handle_redis-IsSound true app outcome.reads h
raw_callback-IsSound app owner_redis raw_other outcome h = h
raw_callback-IsSound app (owner_curl i) raw_rx outcome h = curl_if-IsSound _ app outcome.curl h
raw_callback-IsSound app (owner_curl i) raw_writeable outcome h =
    curl_if-IsSound _ app outcome.curl h
raw_callback-IsSound app (owner_curl i) timer_fired outcome h = h
raw_callback-IsSound app (owner_curl i) raw_other outcome h = h

events-IsSound : (es : List SpikeEvent) (app : Spike) → IsSound app → IsSound (events app es)
unfolding events
events-IsSound [] app h = h
events-IsSound (ticks polls outcome last ∷ es) app h =
    events-IsSound es _ (service_tick-IsSound app polls outcome last h)
events-IsSound (calls_raw owner reason outcome ∷ es) app h =
    events-IsSound es _ (raw_callback-IsSound app owner reason outcome h)

pub serve_round-IsSound :
    (app : Spike) (round : Round) → IsSound app → IsSound (serve_round app round)
unfolding serve_round
serve_round-IsSound app round h =
    let served = events-IsSound round.calls app h in
    either round.serves _ _ (λ e. served) (λ e. fail-IsSound (events app round.calls) served)
