-- ===== src/Spike/Loop.antt =====
-- The event loop of spike/event_loop/main.c: what a tick polls and serves, the set-up, and `main`. The
-- loop of `main` has fuel, `none` is out of fuel.
use alpha_fincial_pipline_c.Prelude.{
  ℕ, zero, suc, Bool, true, false, not, ◌&&◌, ◌||◌, Option, none, some, List, [], ◌∷◌, get_elem?,
  ltb, if◌then◌else◌,
}
use alpha_fincial_pipline_c.Prelude.Int.{pos}
use alpha_fincial_pipline_c.Spike.{
  CurlWatch, Spike, PgAnswer, RedisStart, RedisCall, CurlAnswer, run_timeout_seconds, fail,
  exercise_queue, pg_ready, start_redis, redis_calls, curl_action,
}

pub data Owner : Type 0 where
  owner_pg owner_redis : Owner
  owner_curl : ℕ → Owner

-- The size of the arrays of `service_tick`.
abbrev pub max_polled : ℕ
max_polled = 18

abbrev pub is_active : CurlWatch → Bool
is_active watch = watch.curl_action.reads || watch.curl_action.writes

-- The third part of what is polled, from slot `i` and with `count` before it.
unfoldable pub poll_curl : ℕ → ℕ → List CurlWatch → List Owner
poll_curl i count [] = []
poll_curl i count (watch ∷ watches) =
    let skipped = poll_curl (suc i) count watches in
    let polled = owner_curl i ∷ poll_curl (suc i) (suc count) watches in
    if not (ltb count max_polled) then [] else if is_active watch then polled else skipped

abbrev pub poll_from : Option ℕ → List CurlWatch → List Owner
poll_from none watches = owner_pg ∷ poll_curl 0 1 watches
poll_from (some fd) watches = owner_pg ∷ owner_redis ∷ poll_curl 0 2 watches

unfoldable pub poll_set : Spike → List Owner
unfolding poll_curl
poll_set app = poll_from app.redis app.curl_watches

-- What `poll` says of an entry, and what the libraries do when it is served.
pub record Outcome : Type 0 where
  pub any : Bool
  pub readable : Bool
  pub writable : Bool
  pub pg : PgAnswer
  pub reads : List RedisCall
  pub writes : List RedisCall
  pub curl : CurlAnswer

abbrev pub has_redis : Spike → Bool
has_redis app = elim app.redis [ none ↦ false | some fd ↦ true ]

-- hiredis handles an event if there is a context.
unfoldable pub handle_redis : Bool → Spike → List RedisCall → Spike
unfolding redis_calls
handle_redis wanted app calls = if wanted && has_redis app then redis_calls app calls else app

unfoldable pub serve_watch : Spike → Owner → Outcome → Spike
unfolding pg_ready handle_redis curl_action
serve_watch app owner_pg outcome = pg_ready app outcome.pg
serve_watch app owner_redis outcome =
    handle_redis outcome.writable (handle_redis outcome.readable app outcome.reads) outcome.writes
serve_watch app (owner_curl i) outcome = curl_action app outcome.curl

-- The entries from place `i` on.
unfoldable pub serve_polled : ℕ → Spike → List Owner → (ℕ → Outcome) → Spike
unfolding serve_watch
serve_polled i app [] outcome = app
serve_polled i app (owner ∷ owners) outcome =
    let served = if (outcome i).any then serve_watch app owner (outcome i) else app in
    serve_polled (suc i) served owners outcome

-- `polls`: `poll` does not fail; `last` is the answer of libcurl behind the entries.
unfoldable pub service_tick : Spike → Bool → (ℕ → Outcome) → CurlAnswer → Spike
unfolding poll_set serve_polled
service_tick app polls outcome last =
    if polls then curl_action (serve_polled 0 app (poll_set app) outcome) last else fail app

pub data RawReason : Type 0 where
  raw_rx raw_writeable timer_fired raw_other : RawReason

abbrev pub wants_slot : Bool → Option CurlWatch → Bool
wants_slot writing none = false
wants_slot writing (some watch) =
    if writing then watch.curl_action.writes else watch.curl_action.reads

abbrev pub curl_if : Bool → Spike → CurlAnswer → Spike
curl_if wanted app answer = if wanted then curl_action app answer else app

-- The watch of the handle is not NULL.
unfoldable pub raw_callback : Spike → Owner → RawReason → Outcome → Spike
unfolding pg_ready handle_redis curl_action
raw_callback app owner_pg raw_rx outcome = pg_ready app outcome.pg
raw_callback app owner_pg raw_writeable outcome = pg_ready app outcome.pg
raw_callback app owner_redis raw_rx outcome = handle_redis true app outcome.reads
raw_callback app owner_redis raw_writeable outcome = handle_redis true app outcome.writes
raw_callback app owner_redis timer_fired outcome = handle_redis true app outcome.reads
raw_callback app (owner_curl i) raw_rx outcome =
    curl_if (wants_slot false (get_elem? app.curl_watches i)) app outcome.curl
raw_callback app (owner_curl i) raw_writeable outcome =
    curl_if (wants_slot true (get_elem? app.curl_watches i)) app outcome.curl
raw_callback app _ _ outcome = app

unfoldable pub complete : Spike → Bool
complete app =
    app.pg_roundtrip && app.pg_abort_seen && app.pg_sync_seen && app.pg_recovered
    && app.redis_roundtrip && app.redis_disconnect && app.redis_recovered && app.curl_roundtrip
    && app.backpressure && app.cancellation && app.request_match

-- What libwebsockets calls in `lws_service`.
pub data SpikeEvent : Type 0 where
  ticks : Bool → (ℕ → Outcome) → CurlAnswer → SpikeEvent
  calls_raw : Owner → RawReason → Outcome → SpikeEvent

abbrev pub event : Spike → SpikeEvent → Spike
event app (ticks polls outcome last) = service_tick app polls outcome last
event app (calls_raw owner reason outcome) = raw_callback app owner reason outcome

unfoldable pub events : Spike → List SpikeEvent → Spike
unfolding service_tick raw_callback
events app [] = app
events app (e ∷ es) = events (event app e) es

-- A round of the loop of `main`: the seconds since the start, what `lws_service` calls, and whether it
-- does not return a negative number.
pub record Round : Type 0 where
  pub elapsed : ℕ
  pub calls : List SpikeEvent
  pub serves : Bool

unfoldable pub serve_round : Spike → Round → Spike
unfolding events
serve_round app round =
    let served = events app round.calls in if round.serves then served else fail served

-- From round `k` on.
unfoldable pub main_loop : ℕ → (ℕ → Round) → ℕ → Spike → Option Spike
unfolding serve_round complete
main_loop zero rounds k app = none
main_loop (suc fuel) rounds k app =
    let rest = main_loop fuel rounds (suc k) (serve_round app (rounds k)) in
    if not app.failed && not (complete app) && ltb (rounds k).elapsed run_timeout_seconds
    then rest
    else some app

abbrev pub no_app : Spike
no_app = record {
  pg_state = 0;
  pg_roundtrip = false;
  pg_abort_seen = false;
  pg_sync_seen = false;
  pg_recovered = false;
  redis = none;
  redis_generation = 0;
  redis_roundtrip = false;
  redis_disconnect = false;
  redis_recovered = false;
  curl_watches = [];
  curl_roundtrip = false;
  curl_status = pos 0;
  queue = [];
  backpressure = false;
  cancellation = false;
  request_match = false;
  failed = false;
}

-- The set-up behind the event loop's own: whether libpq starts, what hiredis and libcurl answer, and
-- whether libcurl is there and takes the handle. `none` is a failure.
unfoldable pub setup : Bool → RedisStart → Bool → CurlAnswer → Option Spike
unfolding exercise_queue start_redis curl_action
setup pg_starts redis curl_starts answer =
    let queued = exercise_queue no_app in
    let (started, is_started) = start_redis (record queued { redis_generation = 1 }) redis in
    let acted = curl_action started answer in
    if not pg_starts || not is_started || not curl_starts
    then none
    else if acted.failed
    then none
    else some acted

-- What follows the loop.
unfoldable pub finish : Spike → Spike
unfolding complete
finish app = if complete app then app else fail app

abbrev pub exit_code : Spike → ℕ
exit_code app = if app.failed then 1 else 0
