-- ===== src/Spike/Tests.antt =====
-- Tests of spike/event_loop/main.c: a run in which everything is completed in three ticks.
use alpha_fincial_pipline_c.Prelude.{
  ℕ, ◌≤◌, ◌≡◌, refl, true, false, Option, none, some, List, [], ◌∷◌, ◌++◌, length,
}
use alpha_fincial_pipline_c.Prelude.Int.{pos}
use alpha_fincial_pipline_c.Spike.{
  Spike, SpikeResult, tuples, refused, synced, boundary, poll_ok, RedisStart, RedisCall, replied,
  connected, disconnected, string_reply, status_reply, CurlAnswer, wants, max_curl_watches, is_200,
  exercise_queue, pg_send_initial, drain_results, pg_drain, pg_ready, start_redis, redis_call,
  redis_calls, on_curl_socket, curl_calls, curl_message, curl_messages, curl_action,
}
use alpha_fincial_pipline_c.Spike.Loop.{
  Outcome, Round, SpikeEvent, ticks, max_polled, poll_curl, poll_set, handle_redis, serve_watch,
  serve_polled, service_tick, complete, events, serve_round, main_loop, no_app, setup, finish,
  exit_code,
}
use alpha_fincial_pipline_c.Spike.Polled.{connections, active, poll_set_lem}
use alpha_fincial_pipline_c.Spike.Run.{setup-IsSound, exit_code_lem}

abbrev start : RedisStart
start = record { port = pos 56379; context = some 6; sets = true }

-- The socket of the transfer, in both directions.
abbrev socket : CurlAnswer
socket = record {
  calls = wants 9 (record { reads = true; writes = true }) none ∷ [];
  succeeds = true;
  messages = [];
}

abbrev quiet : CurlAnswer
quiet = record { calls = []; succeeds = true; messages = [] }

abbrev transferred : CurlAnswer
transferred = record {
  calls = [];
  succeeds = true;
  messages = record { done = true; result_ok = true; status = pos 200 } ∷ [];
}

abbrev outcome : List SpikeResult → List RedisCall → Outcome
outcome results calls = record {
  any = true;
  readable = true;
  writable = true;
  pg = record { poll = poll_ok; queued = true; consumes = true; results = results };
  reads = calls;
  writes = [];
  curl = quiet;
}

abbrev first : SpikeEvent
first = ticks true (λ i. outcome [] (connected true true ∷ [])) quiet

abbrev second : SpikeEvent
second =
    ticks true
      (λ i. outcome (tuples 1 (b'1' ∷ []) ∷ refused ∷ synced ∷ boundary true ∷ []) (
        replied (some (string_reply (b'a' ∷ b'l' ∷ b'p' ∷ b'h' ∷ b'a' ∷ [])))
        ∷ disconnected start
        ∷ []))
      transferred

abbrev third : SpikeEvent
third =
    ticks true
      (λ i.
        outcome (tuples 1 (b'4' ∷ b'2' ∷ []) ∷ []) (
          connected true true
          ∷ replied (some (status_reply (b'P' ∷ b'O' ∷ b'N' ∷ b'G' ∷ [])))
          ∷ []))
      quiet

abbrev rounds : ℕ → Round
rounds k = record { elapsed = k; calls = first ∷ second ∷ third ∷ []; serves = true }

abbrev of_setup : Option Spike → Spike
of_setup none = no_app
of_setup (some app) = app

abbrev begun : Spike
begun = of_setup (setup true start true socket)

abbrev ended : Spike
ended = of_setup (main_loop 3 rounds 0 begun)

sets_up : setup true start true socket ≡ some begun
unfolding setup exercise_queue start_redis curl_action curl_calls on_curl_socket curl_messages
sets_up = refl

ends : main_loop 3 rounds 0 begun ≡ some ended
unfolding setup exercise_queue start_redis curl_action curl_calls on_curl_socket curl_message
    curl_messages main_loop serve_round events service_tick serve_polled poll_set poll_curl
    serve_watch handle_redis pg_ready pg_drain pg_send_initial drain_results redis_calls redis_call
    complete
ends = refl

exits : exit_code (finish ended) ≡ 0
unfolding setup exercise_queue start_redis curl_action curl_calls on_curl_socket curl_message
    curl_messages main_loop serve_round events service_tick serve_polled poll_set poll_curl
    serve_watch handle_redis pg_ready pg_drain pg_send_initial drain_results redis_calls redis_call
    complete finish
exits = refl

exit_code_lem_example :
    (complete ended ≡ true)
    × (ended.failed ≡ false)
    × (ended.pg_state ≡ 3)
    × (ended.pg_sync_seen ≡ true)
    × (ended.redis_generation ≡ 2)
    × (ended.redis_roundtrip ≡ true)
    × (is_200 ended.curl_status ≡ true)
    × (length ended.curl_watches ≤ max_curl_watches)
exit_code_lem_example = exit_code_lem true start true socket 3 rounds begun ended sets_up ends exits

poll_set_lem_example :
    (poll_set begun ≡ connections begun.redis ++ active 0 begun.curl_watches)
    × (length (poll_set begun) ≤ max_polled)
poll_set_lem_example = poll_set_lem begun (setup-IsSound true start true socket begun sets_up)
