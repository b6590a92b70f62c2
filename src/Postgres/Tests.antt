-- ===== src/Postgres/Tests.antt =====
-- Tests of core/platform/db/postgres.c, with a row that is a number.
use alpha_fincial_pipline_c.Prelude.{
  Bool, ◌||◌, if◌then◌else◌, ◌-◌, arith, ℕ, ◌≡◌, refl, true, false, Option, none, some, List, [],
  ◌∷◌, ◌++◌,
}
use alpha_fincial_pipline_c.Postgres.{
  connecting, Pg, PendingRequest, ResultKind, position, exposure, Libpq, boundary, pipeline_sync,
  tuples, pipeline_aborted, poll_ok, poll_writing, ready, libpq, slots, connect_start, connecting,
  service, send_request, drain_results, take_result,
}
use alpha_fincial_pipline_c.Postgres.Queue.{ring}
use alpha_fincial_pipline_c.Postgres.Invariant.{Holds}
use alpha_fincial_pipline_c.Postgres.Order.{requests_of}
use alpha_fincial_pipline_c.Prelude.Int.{ℤ, pos}
use alpha_fincial_pipline_c.Date.{decimal_from}
use alpha_fincial_pipline_c.Fixture.{same_text}
use alpha_fincial_pipline_c.Postgres.Rows.{
  Rows, PgPosition, parse_position, upsert_params, print_int, print_bool, Column, ticker_column,
  name_column, quantity_column, avg_price_column, current_price_column, is_paper_column,
  account_scope_column, strategy_id_column,
}
use alpha_fincial_pipline_c.Postgres.Echo.{
  Fits, print_t, is_integer, is_boolean, IsServer, Returns, parse_position-upsert_params,
}
use alpha_fincial_pipline_c.Postgres.Run.{Event, sends, serves, run, run-Holds}

-- The row of an exposure cannot be read.
abbrev parse_row : ResultKind → ℕ → Option ℕ
parse_row position n = some n
parse_row exposure n = none

abbrev first : PendingRequest
first = record { kind = position; user_data = 7 }

abbrev second : PendingRequest
second = record { kind = exposure; user_data = 8 }

-- A connection of depth 2 whose head stands on the last slot.
abbrev connected : Pg
connected = record {
  state = ready;
  connect_poll = poll_ok;
  flush_pending = false;
  sync_sent = false;
  fifo = slots 2;
  capacity = 2;
  head = 1;
  count = 0;
  error = libpq [];
}

abbrev answers : Libpq ℕ
answers = record {
  poll = poll_ok;
  enters_pipeline = true;
  syncs = true;
  flush_failed = false;
  flush_rest = false;
  consumes = true;
  results = tuples 40 ∷ boundary ∷ pipeline_aborted ∷ boundary ∷ pipeline_sync ∷ [];
  message = [];
}

-- Two requests that wrap around the ring, a third that finds it full, and one service call.
abbrev events : List (Event parse_row)
events =
    sends first true false []
    ∷ sends second true false []
    ∷ sends first true false []
    ∷ serves true true answers
    ∷ []

connected-Holds : Holds connected []
unfolding ring
connected-Holds = record {
  valid = record { size = refl; head_in = omega arith; count_in = omega arith };
  queue = refl;
}

run_completions :
    (run parse_row connected events).2
    ≡ record { request = first; value = some 40 } ∷ record { request = second; value = none } ∷ []
unfolding run service send_request drain_results take_result
run_completions = refl

run-Holds_example :
    (rest : List PendingRequest) × ([] ++ (run parse_row connected events).1
      ≡ requests_of (run parse_row connected events).2 ++ rest)
    × Holds (run parse_row connected events).0 rest
run-Holds_example = run-Holds parse_row events connected [] connected-Holds

abbrev fresh : Pg
fresh = record connected { state = connecting; connect_poll = poll_writing; head = 0 }

fresh_start : (connect_start true 2 true true true []).0 ≡ some fresh
unfolding connect_start
fresh_start = refl

-- The text of 3, and of 5 in the two prices.
abbrev read_digit : List ℕ → ℤ × Bool × ℕ
read_digit (c ∷ []) = (pos (c - b'0'), false, 1)
read_digit _ = (pos 0, true, 0)

abbrev held : PgPosition
held = record {
  ticker = b'A' ∷ [];
  name = b'B' ∷ [];
  quantity = pos 3;
  avg_price = pos 5;
  current_price = pos 5;
  is_paper = true;
  account_scope = b'S' ∷ [];
  strategy_id = [];
}

held-Fits : Fits held
held-Fits = record {
  ticker_fits = omega arith;
  name_fits = omega arith;
  scope_fits = omega arith;
  strategy_fits = omega arith;
  quantity_in = omega arith;
  avg_price_in = omega arith;
  current_price_in = omega arith;
}

abbrev written_bool : List ℕ → List ℕ
written_bool s = if same_text s (b't' ∷ b'r' ∷ b'u' ∷ b'e' ∷ []) then b't' ∷ [] else b'f' ∷ []

-- A server that keeps texts as they are.
abbrev written : Column → List ℕ → List ℕ
written is_paper_column s = written_bool s
written _ s = s

written_bool-print_bool : (b : Bool) → written_bool (print_bool b) ≡ print_t b
written_bool-print_bool true = refl
written_bool-print_bool false = refl

integers_kept : (c : Column) (s : List ℕ) → is_integer c ≡ true → written c s ≡ s
integers_kept is_paper_column s e = absurd cc
integers_kept ticker_column s e = refl
integers_kept name_column s e = refl
integers_kept quantity_column s e = refl
integers_kept avg_price_column s e = refl
integers_kept current_price_column s e = refl
integers_kept account_scope_column s e = refl
integers_kept strategy_id_column s e = refl

booleans_written :
    (c : Column) (b : Bool) → is_boolean c ≡ true → written c (print_bool b) ≡ print_t b
booleans_written is_paper_column b e = written_bool-print_bool b
booleans_written ticker_column b e = absurd cc
booleans_written name_column b e = absurd cc
booleans_written quantity_column b e = absurd cc
booleans_written avg_price_column b e = absurd cc
booleans_written current_price_column b e = absurd cc
booleans_written account_scope_column b e = absurd cc
booleans_written strategy_id_column b e = absurd cc

texts_kept : (c : Column) (s : List ℕ) → (is_integer c || is_boolean c) ≡ false → written c s ≡ s
texts_kept is_paper_column s e = absurd cc
texts_kept ticker_column s e = refl
texts_kept name_column s e = refl
texts_kept quantity_column s e = refl
texts_kept avg_price_column s e = refl
texts_kept current_price_column s e = refl
texts_kept account_scope_column s e = refl
texts_kept strategy_id_column s e = refl

written-IsServer : IsServer written
written-IsServer = record {
  integers = λ c z e h. integers_kept c (print_int z) e;
  booleans = booleans_written;
  texts = texts_kept;
}

abbrev returned : Rows
returned = record {
  ntuples = 1;
  fields =
      (b'A' ∷ [])
      ∷ (b'B' ∷ [])
      ∷ (b'3' ∷ [])
      ∷ (b'5' ∷ [])
      ∷ (b'5' ∷ [])
      ∷ (b't' ∷ [])
      ∷ (b'S' ∷ [])
      ∷ []
      ∷ [];
}

held-Returns : Returns written (upsert_params held) returned
unfolding decimal_from
held-Returns = record { one_row = refl; values = refl }

parse_position-upsert_params_example : parse_position read_digit returned ≡ some held
unfolding decimal_from
parse_position-upsert_params_example =
    parse_position-upsert_params written written-IsServer read_digit held returned held-Fits refl
      refl refl held-Returns
