-- ===== src/Adapter/Tests.antt =====
-- Tests of core/apps/c_driver_adapter.c: a run of the Redis case, three operations.
use alpha_fincial_pipline_c.Prelude.{
  ℕ, ◌+◌, ◌*◌, ◌%◌, ◌^◌, ◌≤◌, ◌<◌, ◌≡◌, refl, ap, Bool, true, false, Option, none, some, List, [],
  ◌∷◌, length, replicate, ltb, if◌then◌else◌, arith,
}
use native.Mathlib.Nat.{mod-lt}
use alpha_fincial_pipline_c.Prelude.Int.{ℤ, pos}
use alpha_fincial_pipline_c.Double.Fixed.{fixed_double}
use alpha_fincial_pipline_c.Postgres.{Libpq, poll_ok}
use alpha_fincial_pipline_c.Postgres.Rows.{Rows}
use alpha_fincial_pipline_c.RedisAsync.{
  Callback, Reply, text, integer, replied, connected, add_write, callback, callbacks,
  start_connection, command, connect, service,
}
use alpha_fincial_pipline_c.LwsRuntime
use alpha_fincial_pipline_c.LwsRuntime.{
  Runtime, LwsCall, calls_back, raw_rx_file, empty_watch, lws_call, foreign_fd_callback, watch_add,
  free_slot, set_write,
}
use alpha_fincial_pipline_c.Adapter.{
  notice, notices, Adapter, Environment, redis_watch, add_watch, watch_set_write, redis_connect,
  redis_reply, finish_operation, reply_is_right,
}
use alpha_fincial_pipline_c.Adapter.Drive.{
  terminal_matches_service, drive, wait_connection, drive_round, submit_one, runtime_service,
  is_late, lws_events, readies, ready, redis_ready,
}
use alpha_fincial_pipline_c.Adapter.Count.{IsTimed}
use alpha_fincial_pipline_c.Adapter.Rounds.{IsFaithful}
use alpha_fincial_pipline_c.Adapter.Setup.{
  ticker_of, namespace_hash, Start, starts_redis, fresh, start, run_case, redis_text, kind_of,
  deadline_from,
}
use alpha_fincial_pipline_c.RedisAsync.Replies.{reply_count}
use alpha_fincial_pipline_c.Adapter.Text.{json_string, read_string, json_string-read_string}
use alpha_fincial_pipline_c.Adapter.Main.{run-completes}
use alpha_fincial_pipline_c.Adapter.Ends.{IsPast, run_case-ends}

abbrev reply_at : ℕ → Reply
reply_at k =
    if ltb k 10
    then text (b'O' ∷ b'K' ∷ [])
    else if ltb k 16
    then text redis_text
    else integer (pos 0)

-- A command is answered as soon as there is one; before that the connection is there.
abbrev reads_at : ℕ → ℕ → List Callback
reads_at k pending =
    if ltb 0 pending then replied (some (reply_at k)) 0 ∷ [] else connected true ∷ []

abbrev libpq_none : Libpq Rows
libpq_none = record {
  poll = poll_ok;
  enters_pipeline = true;
  syncs = true;
  flush_failed = false;
  flush_rest = false;
  consumes = true;
  results = [];
  message = [];
}

abbrev env : Environment
env = record {
  now = λ k. k * 10;
  requested = λ k. true;
  dups = λ k. true;
  adopted = λ k. some 9;
  cancel = pos 0;
  hiredis = λ k redis. record {
    reads = reads_at k redis.pending;
    writes = [];
    handled = [];
    broken = false;
  };
  libpq = λ k. libpq_none;
  calls = λ k runtime. calls_back 0 raw_rx_file ∷ [];
  serves = λ k. true;
  takes = λ k. true;
  flush_rest = λ k. false;
  message = λ k. [];
  strtoll = λ s. (pos 0, true, 0);
}

abbrev runtime : Runtime
runtime = record { watches = replicate 2 empty_watch; capacity = 2; count = 0 }

abbrev starting : Start
starting = starts_redis true (some 7) true (add_write ∷ [])

abbrev begun : Adapter ℤ
begun = start env (fresh (kind_of starting) 1 (b'n' ∷ []) runtime) starting

abbrev of_run : Option (Adapter ℤ × Bool) → Adapter ℤ × Bool
of_run none = (begun, false)
of_run (some r) = r

abbrev result : Adapter ℤ × Bool
result = of_run (run_case env 4 8 begun)

succeeds : (result.1 ≡ true) × (result.0.asked ≡ 24)
unfolding start fresh namespace_hash ticker_of notices notice redis_watch add_watch watch_set_write
    redis_connect redis_reply finish_operation reply_is_right callbacks callback connect
    start_connection command run_case drive wait_connection drive_round submit_one runtime_service
    is_late lws_events readies ready redis_ready LwsRuntime.lws_call LwsRuntime.foreign_fd_callback
    LwsRuntime.watch_add LwsRuntime.free_slot LwsRuntime.set_write terminal_matches_service service
succeeds = (refl, refl)

of_run-true : (x : Option (Adapter ℤ × Bool)) → (of_run x).1 ≡ true → x ≡ some ((of_run x).0, true)
of_run-true none e = absurd cc
of_run-true (some (a, right)) e = ap (λ b. some (a, b)) e

reads_at-replies : (k pending : ℕ) → reply_count (reads_at k pending) + 0 ≤ pending
reads_at-replies k pending = ground arith

env-IsFaithful : IsFaithful env
env-IsFaithful = record {
  io_replies = λ k redis. reads_at-replies k redis.pending;
  timeout_replies = λ k redis. omega arith;
}

run-completes_example :
    ((result.0.completed ≡ 3)
      × (result.0.submitted ≡ 3)
      × (result.0.inflight ≡ false)
      × (result.0.failed ≡ false)
      × (length result.0.latency_ns ≡ 3)
      × IsTimed 3 result.0.latency_ns)
    × (terminal_matches_service result.0 ≡ true)
run-completes_example =
    run-completes env env-IsFaithful 4 8 1 (b'n' ∷ []) runtime starting result.0 refl
      (of_run-true (run_case env 4 8 begun) succeeds.0)

below_word : (n : ℕ) → n % 2 ^ 64 < 2 ^ 64
below_word n = mod-lt n (omega arith)

-- The clock of `env` gets past each deadline, which has 64 bits.
env-IsPast : (k : ℕ) → (n : ℕ) × IsPast env (deadline_from env k) n
env-IsPast k = (2 ^ 64, λ j h. omega (arith, h, below_word (k * 10 + 5000000000)))

run_case-ends_example :
    (waits : ℕ) × (rounds : ℕ) × (r : Adapter ℤ × Bool) × (run_case env waits rounds begun ≡ some r)
run_case-ends_example = run_case-ends env begun env-IsPast

json_string-read_string_example :
    (text : List ℕ) × (json_string (b'a' ∷ 34 ∷ 92 ∷ []) ≡ 34 ∷ text)
    × (read_string text ≡ some (b'a' ∷ 34 ∷ 92 ∷ [], []))
json_string-read_string_example = json_string-read_string (b'a' ∷ 34 ∷ 92 ∷ [])
