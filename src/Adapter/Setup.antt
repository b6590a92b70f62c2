-- ===== src/Adapter/Setup.antt =====
-- `main` of core/apps/c_driver_adapter.c behind the reading of its fixture: the adapter that it sets up
-- for a case, and the run. A driver that was not created has a stand-in, which nothing uses, since
-- the adapter has failed.
use alpha_fincial_pipline_c.Prelude.{
  ℕ, zero, suc, ◌+◌, ◌*◌, ◌/◌, ◌%◌, ◌^◌, Bool, true, false, ◌&&◌, Option, none, some, List, [], ◌∷◌,
  ◌++◌, replicate, ltb, if◌then◌else◌,
}
use Prim.Native.Nat.{bit_xor}
use alpha_fincial_pipline_c.Prelude.Int.{pos}
use alpha_fincial_pipline_c.Double.{Double, nought}
use alpha_fincial_pipline_c.Postgres.{Pg, connecting, poll_writing, libpq, slots, connect_start}
use alpha_fincial_pipline_c.Postgres.Rows.{PgPosition, PgExposure}
use alpha_fincial_pipline_c.RedisAsync.{Redis, Callback, watch_none, callbacks, connect}
use alpha_fincial_pipline_c.LwsRuntime.{Runtime}
use alpha_fincial_pipline_c.Adapter.{
  Status, CaseKind, case_redis, case_db, Adapter, Environment, op_count, next_question, fail_unless,
  notices, add_watch,
}
use alpha_fincial_pipline_c.Adapter.Drive.{
  strategy_a, strategy_b, drive, wait_connection, terminal_matches_service,
}

-- FNV-1a on the bytes before the NUL, from the value so far.
abbrev hash_from : ℕ → List ℕ → ℕ
hash_from hash [] = hash
hash_from hash (c ∷ text) = hash_from (bit_xor hash c * 16777619 % 2 ^ 32) text

unfoldable pub namespace_hash : List ℕ → ℕ
namespace_hash text = hash_from 2166136261 text

abbrev hex_digit : ℕ → ℕ
hex_digit n = if ltb n 10 then b'0' + n else 87 + n

-- The `k` last digits.
abbrev hex_digits : ℕ → ℕ → List ℕ
hex_digits zero n = []
hex_digits (suc k) n = hex_digits k (n / 16) ++ (hex_digit (n % 16) ∷ [])

-- The value has 32 bits, so "%08x" prints 8 digits.
unfoldable pub ticker_of : CaseKind → List ℕ → List ℕ
unfolding namespace_hash
ticker_of case_redis namespace_text =
    b'0' ∷ b'0' ∷ b'5' ∷ b'9' ∷ b'3' ∷ b'0' ∷ b':' ∷ hex_digits 8 (namespace_hash namespace_text)
ticker_of case_db namespace_text = b'M' ∷ hex_digits 8 (namespace_hash namespace_text)

abbrev pub no_redis : Redis
no_redis = record { context = none; host = []; port = pos 0; watch = watch_none; pending = 0 }

abbrev pub no_pg : Pg
no_pg = record {
  state = connecting;
  connect_poll = poll_writing;
  flush_pending = false;
  sync_sent = false;
  fifo = slots 1;
  capacity = 1;
  head = 0;
  count = 0;
  error = libpq [];
}

abbrev no_row : PgPosition
no_row = record {
  ticker = [];
  name = [];
  quantity = pos 0;
  avg_price = pos 0;
  current_price = pos 0;
  is_paper = false;
  account_scope = [];
  strategy_id = [];
}

-- A row of the fixture.
abbrev row : List ℕ → ℕ → ℕ → List ℕ → PgPosition
row ticker quantity price strategy_id = record {
  ticker = ticker;
  name =
      b'M' ∷ b'V' ∷ b'P' ∷ b'-' ∷ b'2' ∷ b' ' ∷ b'f' ∷ b'i' ∷ b'x' ∷ b't' ∷ b'u' ∷ b'r' ∷ b'e' ∷ [];
  quantity = pos quantity;
  avg_price = pos 1000;
  current_price = pos price;
  is_paper = true;
  account_scope = b'p' ∷ b'a' ∷ b'p' ∷ b'e' ∷ b'r' ∷ [];
  strategy_id = strategy_id;
}

-- {"price":70000,"volume":10}
abbrev pub redis_text : List ℕ
redis_text =
    b'{' ∷ 34 ∷ b'p' ∷ b'r' ∷ b'i' ∷ b'c' ∷ b'e' ∷ 34 ∷ b':' ∷ b'7' ∷ b'0' ∷ b'0' ∷ b'0' ∷ b'0'
    ∷ b',' ∷ 34 ∷ b'v' ∷ b'o' ∷ b'l' ∷ b'u' ∷ b'm' ∷ b'e' ∷ 34 ∷ b':' ∷ b'1' ∷ b'0' ∷ b'}' ∷ []

-- What the libraries answer while the driver of the case is created. Redis: whether memory is there,
-- the file descriptor, whether the callbacks are set, and the callbacks that hiredis makes when it
-- is attached. Postgres: whether `pg_cleanup` succeeds, what `alpha_pg_connect_start` asks libpq, and
-- the socket.
pub data Start : Type 0 where
  starts_redis : Bool → Option ℕ → Bool → List Callback → Start
  starts_db : Bool → Bool → Bool → Bool → List ℕ → ℕ → Start

abbrev pub kind_of : Start → CaseKind
kind_of (starts_redis _ _ _ _) = case_redis
kind_of (starts_db _ _ _ _ _ _) = case_db

-- `(size_t)repeat * OP_COUNT`
abbrev pub total_of : ℕ → ℕ
total_of repeat = repeat * op_count % 2 ^ 64

-- 127.0.0.1
abbrev pub host : List ℕ
host = b'1' ∷ b'2' ∷ b'7' ∷ b'.' ∷ b'0' ∷ b'.' ∷ b'0' ∷ b'.' ∷ b'1' ∷ []

module _ {ℓ} {W : Type ℓ} ⦃d : Double W⦄ where
  abbrev no_exposure : PgExposure W
  no_exposure = record {
    ticker = [];
    total_quantity = pos 0;
    total_market_value = pos 0;
    total_aum = pos 0;
    exposure_pct = nought;
    strategy_count = pos 0;
  }

  -- The rows of the database case; the other case leaves them zero.
  abbrev with_rows : CaseKind → Adapter W → Adapter W
  with_rows case_redis a = a
  with_rows case_db a = record a {
    db_row_a = row a.ticker 10 1000 strategy_a;
    db_row_b = row a.ticker 20 1200 strategy_b;
  }

  -- The adapter before its driver is created.
  unfoldable pub fresh : CaseKind → ℕ → List ℕ → Runtime → Adapter W
  unfolding ticker_of
  fresh kind repeat namespace_text runtime = with_rows kind (record {
    runtime = runtime;
    watch = none;
    redis = no_redis;
    pg = no_pg;
    kind = kind;
    total = total_of repeat;
    submitted = 0;
    completed = 0;
    connected = false;
    inflight = false;
    failed = false;
    latency_ns = replicate (total_of repeat) 0;
    token = record { index = 0; started_ns = 0 };
    ticker = ticker_of kind namespace_text;
    namespace_text = namespace_text;
    redis_value = redis_text;
    db_row_a = no_row;
    db_row_b = no_row;
    exposure = no_exposure;
    asked = 0;
  })

module _ {ℓ} {W : Type ℓ} (env : Environment) where
  abbrev pub with_redis : Adapter W → Option Redis × Status → List Callback → Adapter W
  with_redis a (some redis, none) attaches =
      let (next, told) = callbacks redis attaches in notices env (record a { redis = next }) told
  with_redis a (some redis, some e) attaches = fail_unless false (record a { redis = redis })
  with_redis a (none, status) attaches = fail_unless false a

  abbrev pub with_pg : Adapter W → Option Pg × Status → ℕ → Adapter W
  with_pg a (some pg, none) socket =
      let (next, added) = add_watch env (record a { pg = pg }) socket true in fail_unless added next
  with_pg a (some pg, some e) socket = fail_unless false (record a { pg = pg })
  with_pg a (none, status) socket = fail_unless false a

  -- The creation of the driver, and of its watch.
  unfoldable pub start : Adapter W → Start → Adapter W
  unfolding callbacks notices add_watch connect connect_start
  start a (starts_redis allocates opened sets attaches) =
      with_redis a (connect (some host) (pos 56379) true allocates opened sets) attaches
  start a (starts_db cleaned allocates connects status_ok message socket) =
      if cleaned
      then with_pg a (connect_start true 1 allocates connects status_ok message) socket
      else fail_unless false a

-- Five seconds from question `k` on.
abbrev pub deadline_from : Environment → ℕ → ℕ
deadline_from env k = (env.now k + 5000000000) % 2 ^ 64

module _ {ℓ} {W : Type ℓ} where
  abbrev pub judged : Option (Adapter W × Bool) → Option (Adapter W × Bool)
  judged none = none
  judged (some (a, right)) = some (a, right && terminal_matches_service a)

module _ {ℓ} {W : Type ℓ} ⦃d : Double W⦄ (env : Environment) where
  abbrev pub drive_from : ℕ → Option (Adapter W × Bool) → Option (Adapter W × Bool)
  drive_from fuel none = none
  drive_from fuel (some (a, connected)) =
      let checked = fail_unless connected a in
      judged (drive env fuel (next_question checked) (deadline_from env checked.asked))

  -- From the wait for the connection to the check of the end; `waits` and `rounds` are fuel.
  unfoldable pub run_case : ℕ → ℕ → Adapter W → Option (Adapter W × Bool)
  unfolding drive wait_connection terminal_matches_service
  run_case waits rounds a =
      drive_from rounds (wait_connection env waits (next_question a) (deadline_from env a.asked))
