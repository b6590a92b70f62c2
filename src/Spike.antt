-- ===== src/Spike.antt =====
-- spike/event_loop/main.c: the experiment that runs Postgres, Redis and HTTP on one event loop. What the
-- libraries answer and call is given with each step; a wakeup of the event loop has no effect here.
pub mod Loop
pub mod Sound
pub mod Reconnect
pub mod Curl
pub mod Polled
pub mod Steps
pub mod Run
mod Tests
use alpha_fincial_pipline_c.Prelude.{
  ℕ, zero, suc, ◌+◌, Bool, true, false, not, ◌&&◌, ◌||◌, Option, none, some, List, [], ◌∷◌, ◌++◌,
  get_elem?, set, length, ltb, leb, ◌==◌, if◌then◌else◌,
}
use alpha_fincial_pipline_c.Prelude.Int.{ℤ, pos, leb_ℤ, ltb_ℤ}
use alpha_fincial_pipline_c.Fixture.{same_text}

abbrev pub queue_capacity : ℕ
queue_capacity = 4

abbrev pub run_timeout_seconds : ℕ
run_timeout_seconds = 20

-- The size of `curl_watches`.
abbrev pub max_curl_watches : ℕ
max_curl_watches = 16

-- The bits CURL_POLL_IN and CURL_POLL_OUT.
pub record Interest : Type 0 where
  pub reads : Bool
  pub writes : Bool

abbrev pub no_interest : Interest
no_interest = record { reads = false; writes = false }

pub record CurlWatch : Type 0 where
  pub fd : ℕ
  pub curl_action : Interest

pub record Request : Type 0 where
  pub id : ℕ
  pub cancelled : Bool

-- `redis` is the file descriptor of the context; the count of the watches is the length of the list.
pub record Spike : Type 0 where
  pub pg_state : ℕ
  pub pg_roundtrip : Bool
  pub pg_abort_seen : Bool
  pub pg_sync_seen : Bool
  pub pg_recovered : Bool
  pub redis : Option ℕ
  pub redis_generation : ℕ
  pub redis_roundtrip : Bool
  pub redis_disconnect : Bool
  pub redis_recovered : Bool
  pub curl_watches : List CurlWatch
  pub curl_roundtrip : Bool
  pub curl_status : ℤ
  pub queue : List Request
  pub backpressure : Bool
  pub cancellation : Bool
  pub request_match : Bool
  pub failed : Bool

abbrev pub fail : Spike → Spike
fail app = record app { failed = true }

abbrev fail_unless : Bool → Spike → Spike
fail_unless b app = if b then app else fail app

abbrev request_at : ℕ → Request
request_at id = record { id = id; cancelled = id == 2 }

-- The second loop, from place `i` on.
abbrev check_queue : ℕ → List Request → Spike → Spike
check_queue i [] app = record app { request_match = true }
check_queue i (request ∷ requests) app =
    let passed = check_queue (suc i) requests (record app { cancellation = true }) in
    let next = check_queue (suc i) requests app in
    if request.cancelled then passed else if not (request.id == i + 1) then fail app else next

-- The queue is empty.
unfoldable pub exercise_queue : Spike → Spike
exercise_queue app =
    let queue = request_at 1 ∷ request_at 2 ∷ request_at 3 ∷ request_at 4 ∷ [] in
    check_queue 0 queue (record app {
      queue = queue;
      backpressure = if length queue == queue_capacity then true else app.backpressure;
    })

-- `queued`: all six calls of libpq succeed.
unfoldable pub pg_send_initial : Spike → Bool → Spike
pg_send_initial app true = record app { pg_state = 2 }
pg_send_initial app false = fail app

-- What `PQgetResult` returns: NULL, with whether the two calls behind it succeed; rows, with their
-- number and the first value; an error or an aborted pipeline; a sync; or another result.
pub data SpikeResult : Type 0 where
  boundary : Bool → SpikeResult
  tuples : ℕ → List ℕ → SpikeResult
  refused synced other : SpikeResult

abbrev take_tuples : Spike → ℕ → List ℕ → Spike
take_tuples app ntuples value =
    if app.pg_state == 2
    then record app { pg_roundtrip = true }
    else if app.pg_state == 3 && ntuples == 1 && same_text value (b'4' ∷ b'2' ∷ [])
    then record app { pg_recovered = true }
    else app

abbrev at_boundary : Spike → Bool → Spike
at_boundary app queued =
    if app.pg_state == 2 && app.pg_sync_seen
    then (if queued then record app { pg_state = 3 } else fail app)
    else app

-- The results up to the next time libpq is busy.
unfoldable pub drain_results : Spike → List SpikeResult → Spike
drain_results app [] = app
drain_results app (boundary queued ∷ results) = at_boundary app queued
drain_results app (tuples ntuples value ∷ results) =
    drain_results (take_tuples app ntuples value) results
drain_results app (refused ∷ results) = drain_results (record app { pg_abort_seen = true }) results
drain_results app (synced ∷ results) = drain_results (record app { pg_sync_seen = true }) results
drain_results app (other ∷ results) = drain_results app results

pub data SpikePoll : Type 0 where
  poll_failed poll_ok poll_again : SpikePoll

-- The answers of libpq while it is ready.
pub record PgAnswer : Type 0 where
  pub poll : SpikePoll
  pub queued : Bool
  pub consumes : Bool
  pub results : List SpikeResult

abbrev pg_poll : Spike → SpikePoll → Bool → Spike
pg_poll app poll_failed queued = fail app
pg_poll app poll_ok queued = pg_send_initial app queued
pg_poll app poll_again queued = app

unfoldable pub pg_drain : Spike → PgAnswer → Spike
unfolding drain_results
pg_drain app answer = if answer.consumes then drain_results app answer.results else fail app

-- A flush that is not done has no effect here.
unfoldable pub pg_ready : Spike → PgAnswer → Spike
unfolding pg_send_initial pg_drain
pg_ready app answer =
    if app.pg_state == 0 then pg_poll app answer.poll answer.queued else pg_drain app answer

-- The port that `strtol` reads, the context that hiredis returns if it has no error, and whether the
-- two callbacks are set.
pub record RedisStart : Type 0 where
  pub port : ℤ
  pub context : Option ℕ
  pub sets : Bool

abbrev with_context : Spike → Option ℕ → Bool → Spike × Bool
with_context app none sets = (app, false)
with_context app (some fd) sets = (record app { redis = some fd }, sets)

unfoldable pub start_redis : Spike → RedisStart → Spike × Bool
start_redis app start =
    if leb_ℤ start.port (pos 0) || ltb_ℤ (pos 65535) start.port
    then (app, false)
    else with_context app start.context start.sets

pub data SpikeReply : Type 0 where
  string_reply status_reply : List ℕ → SpikeReply
  other_reply : SpikeReply

-- What hiredis calls: the reply of a command, `none` for NULL or an error; the connection, with its
-- status and whether the commands are taken; the end of the connection, with what follows.
pub data RedisCall : Type 0 where
  replied : Option SpikeReply → RedisCall
  connected : Bool → Bool → RedisCall
  disconnected : RedisStart → RedisCall

abbrev redis_reply : Spike → Option SpikeReply → Spike
redis_reply app none = fail app
redis_reply app (some (string_reply s)) =
    if app.redis_generation == 1 && same_text s (b'a' ∷ b'l' ∷ b'p' ∷ b'h' ∷ b'a' ∷ [])
    then record app { redis_roundtrip = true }
    else app
redis_reply app (some (status_reply s)) =
    if app.redis_generation == 2 && same_text s (b'P' ∷ b'O' ∷ b'N' ∷ b'G' ∷ [])
    then record app { redis_recovered = true }
    else app
redis_reply app (some other_reply) = app

abbrev redis_again : Spike → RedisStart → Spike
redis_again app start =
    let (next, started) =
      start_redis (record app { redis_disconnect = true; redis = none; redis_generation = 2 })
        start in
    fail_unless started next

unfoldable pub redis_call : Spike → RedisCall → Spike
unfolding start_redis
redis_call app (replied reply) = redis_reply app reply
redis_call app (connected success taken) = fail_unless (success && taken) app
redis_call app (disconnected start) =
    if app.redis_generation == 1 && app.redis_roundtrip then redis_again app start else app

unfoldable pub redis_calls : Spike → List RedisCall → Spike
unfolding redis_call
redis_calls app [] = app
redis_calls app (call ∷ calls) = redis_calls (redis_call app call) calls

-- A call of `on_curl_socket`: `remove` is CURL_POLL_REMOVE; the slot is what was assigned to the
-- socket before, `none` for NULL.
pub data CurlCall : Type 0 where
  remove : Option ℕ → CurlCall
  wants : ℕ → Interest → Option ℕ → CurlCall

abbrev with_action : Spike → ℕ → Interest → Option CurlWatch → Spike
with_action app i interest none = app
with_action app i interest (some watch) = record app {
  curl_watches = set app.curl_watches i (record watch { curl_action = interest });
}

abbrev set_action : Spike → ℕ → Interest → Spike
set_action app i interest = with_action app i interest (get_elem? app.curl_watches i)

-- Returning -1 when the table is full has no effect on the state.
unfoldable pub on_curl_socket : Spike → CurlCall → Spike
on_curl_socket app (remove none) = app
on_curl_socket app (remove (some i)) = set_action app i no_interest
on_curl_socket app (wants fd interest (some i)) = set_action app i interest
on_curl_socket app (wants fd interest none) =
    if leb max_curl_watches (length app.curl_watches) then app else record app {
      curl_watches = app.curl_watches ++ (record { fd = fd; curl_action = interest } ∷ []);
    }

unfoldable pub curl_calls : Spike → List CurlCall → Spike
unfolding on_curl_socket
curl_calls app [] = app
curl_calls app (call ∷ calls) = curl_calls (on_curl_socket app call) calls

-- A message of libcurl: whether a transfer is done, whether its result is CURLE_OK, and its status.
pub record CurlMessage : Type 0 where
  pub done : Bool
  pub result_ok : Bool
  pub status : ℤ

abbrev pub is_200 : ℤ → Bool
is_200 status = leb_ℤ (pos 200) status && leb_ℤ status (pos 200)

unfoldable pub curl_message : Spike → CurlMessage → Spike
curl_message app message =
    let right = message.result_ok && is_200 message.status in
    if message.done
    then fail_unless right (record app { curl_status = message.status; curl_roundtrip = right })
    else app

unfoldable pub curl_messages : Spike → List CurlMessage → Spike
unfolding curl_message
curl_messages app [] = app
curl_messages app (message ∷ messages) = curl_messages (curl_message app message) messages

-- What libcurl does in `curl_multi_socket_action`, whether it returns CURLM_OK, and its messages.
pub record CurlAnswer : Type 0 where
  pub calls : List CurlCall
  pub succeeds : Bool
  pub messages : List CurlMessage

unfoldable pub curl_action : Spike → CurlAnswer → Spike
unfolding curl_calls curl_messages
curl_action app answer =
    let called = curl_calls app answer.calls in
    if answer.succeeds then curl_messages called answer.messages else fail called
