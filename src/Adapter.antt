-- ===== src/Adapter.antt =====
-- core/apps/c_driver_adapter.c: operations on Redis or Postgres, one after the other, from the event
-- runtime. It joins LwsRuntime, RedisAsync and Postgres. What the libraries and the clock answer is a
-- parameter, `Environment`: the answer to each question by its number, which the state counts.
pub mod Text
pub mod Drive
pub mod Same
pub mod Count
pub mod Rounds
pub mod Submit
pub mod Loop
pub mod Setup
pub mod Started
pub mod Main
pub mod Asked
pub mod Ends
mod Tests
use alpha_fincial_pipline_c.Prelude.{
  ℕ, suc, ◌+◌, ◌-◌, ◌%◌, ◌^◌, Bool, true, false, not, ◌&&◌, ◌||◌, Option, none, some, List, [], ◌∷◌,
  get_elem?, set, ltb, leb, ◌==◌, if◌then◌else◌,
}
use alpha_fincial_pipline_c.Prelude.Int.{ℤ, pos, eqb_ℤ}
use alpha_fincial_pipline_c.Domain.{Error, Result, ok, err, invalid_arg}
use alpha_fincial_pipline_c.Double.{Double}
use alpha_fincial_pipline_c.Fixture.{same_text}
use alpha_fincial_pipline_c.Postgres.{
  Pg, Libpq, Completion, ResultKind, position, exposure, wants_write,
}
use alpha_fincial_pipline_c.Postgres.Rows.{
  Rows, PgPosition, PgExposure, parse_position, parse_exposure,
}
use alpha_fincial_pipline_c.RedisAsync.{
  Redis, Watch, Callback, Notice, watches, timer, connects, replies,
}
use alpha_fincial_pipline_c.LwsRuntime
use alpha_fincial_pipline_c.LwsRuntime.{
  Runtime, Ready, LwsCall, lws_call, watch_add, set_write, set_timer,
}

abbrev pub op_count : ℕ
op_count = 3

-- A status: `none` is ALPHA_OK.
abbrev pub Status : Type 0
Status = Option Error

pub data CaseKind : Type 0 where
  case_redis case_db : CaseKind

pub record Token : Type 0 where
  pub index : ℕ
  pub started_ns : ℕ

-- The value of a result, by its kind.
pub data PgValue {ℓ} (W : Type ℓ) : Type ℓ where
  position_value : PgPosition → PgValue W
  exposure_value : PgExposure W → PgValue W

-- `watch` is the slot of the watch in the runtime; `db_row_a` and `db_row_b` are the two rows. `asked`
-- counts the questions to the environment.
pub record Adapter {ℓ} (W : Type ℓ) : Type ℓ where
  pub runtime : Runtime
  pub watch : Option ℕ
  pub redis : Redis
  pub pg : Pg
  pub kind : CaseKind
  pub total : ℕ
  pub submitted : ℕ
  pub completed : ℕ
  pub connected : Bool
  pub inflight : Bool
  pub failed : Bool
  pub latency_ns : List ℕ
  pub token : Token
  pub ticker : List ℕ
  pub namespace_text : List ℕ
  pub redis_value : List ℕ
  pub db_row_a : PgPosition
  pub db_row_b : PgPosition
  pub exposure : PgExposure W
  pub asked : ℕ

-- What hiredis does in one call: the callbacks while it reads, writes and handles a timeout, and
-- whether its context has an error behind that.
pub record Handling : Type 0 where
  pub reads : List Callback
  pub writes : List Callback
  pub handled : List Callback
  pub broken : Bool

-- `now` is `now_ns`; `requested`, `dups` and `adopted` are what LwsRuntime asks for; hiredis and
-- libwebsockets know the state they have been told; `takes` says whether a command or statement is
-- taken, `flush_rest` and `message` are libpq's.
pub record Environment : Type 0 where
  pub now : ℕ → ℕ
  pub requested : ℕ → Bool
  pub dups : ℕ → Bool
  pub adopted : ℕ → Option ℕ
  pub cancel : ℤ
  pub hiredis : ℕ → Redis → Handling
  pub libpq : ℕ → Libpq Rows
  pub calls : ℕ → Runtime → List LwsCall
  pub serves : ℕ → Bool
  pub takes : ℕ → Bool
  pub flush_rest : ℕ → Bool
  pub message : ℕ → List ℕ
  pub strtoll : List ℕ → ℤ × Bool × ℕ

abbrev pub is_redis : CaseKind → Bool
is_redis case_redis = true
is_redis case_db = false

abbrev pub is_ok : Status → Bool
is_ok none = true
is_ok (some e) = false

abbrev pub text_is : Option (List ℕ) → List ℕ → Bool
text_is none expected = false
text_is (some text) expected = same_text text expected

abbrev pub slot_of : ℕ → Option LwsRuntime.Watch → Option (ℕ × LwsRuntime.Watch)
slot_of i none = none
slot_of i (some watch) = some (i, watch)

-- `adapter->watch`; a slot behind the end, which the runtime never gives, is NULL.
abbrev pub watch_in : Runtime → Option ℕ → Option (ℕ × LwsRuntime.Watch)
watch_in runtime none = none
watch_in runtime (some i) = slot_of i (get_elem? runtime.watches i)

abbrev pub is_set : Result ℤ → Bool
is_set (ok usecs) = true
is_set (err e) = false

module _ {ℓ} {W : Type ℓ} where
  abbrev pub next_question : Adapter W → Adapter W
  next_question a = record a { asked = suc a.asked }

  -- `adapter->failed = true` if the status is an error.
  abbrev pub fail_unless : Bool → Adapter W → Adapter W
  fail_unless true a = a
  fail_unless false a = record a { failed = true }

  abbrev pub value_of : Option (PgPosition) → Option (PgValue W)
  value_of none = none
  value_of (some p) = some (position_value p)

  abbrev pub exposure_of : Option (PgExposure W) → Option (PgValue W)
  exposure_of none = none
  exposure_of (some e) = some (exposure_value e)

module _ {ℓ} {W : Type ℓ} (env : Environment) where
  abbrev pub write_at : Adapter W → Bool → Option (ℕ × LwsRuntime.Watch) → Adapter W × Status
  write_at a wants none = (a, some invalid_arg)
  write_at a wants (some (i, watch)) =
      let (next, status) = set_write watch wants (env.requested a.asked) in
      (
        record (next_question a) {
          runtime = record a.runtime { watches = set a.runtime.watches i next };
        },
        status,
      )

  -- `alpha_lws_watch_set_write(adapter->watch, wants_write)`
  unfoldable pub watch_set_write : Adapter W → Bool → Adapter W × Status
  watch_set_write a wants = write_at a wants (watch_in a.runtime a.watch)

  abbrev pub added_to : Adapter W → Runtime × Result ℕ → Adapter W × Bool
  added_to a (runtime, ok slot) =
      (record (next_question a) { runtime = runtime; watch = some slot }, true)
  added_to a (runtime, err e) = (record (next_question a) { runtime = runtime }, false)

  -- `alpha_lws_watch_add(adapter->runtime, fd, write, ready, adapter, &adapter->watch)`
  unfoldable pub add_watch : Adapter W → ℕ → Bool → Adapter W × Bool
  add_watch a fd write =
      added_to a
        (watch_add a.runtime (pos fd) write 0 true (env.dups a.asked) (env.adopted a.asked))

  abbrev pub watch_descriptor : Adapter W → ℕ → Bool → Option ℕ → Adapter W
  watch_descriptor a fd write none =
      let (next, added) = add_watch a fd write in fail_unless added next
  watch_descriptor a fd write (some i) =
      let (next, status) = watch_set_write a write in fail_unless (is_ok status) next

  -- A file descriptor `none` is -1.
  unfoldable pub redis_watch : Adapter W → Option ℕ → Watch → Adapter W
  unfolding watch_set_write add_watch
  redis_watch a none flags = a
  redis_watch a (some fd) flags =
      if not (flags.read || flags.write) then a else watch_descriptor a fd flags.write a.watch

  abbrev pub timer_at : Adapter W → ℕ → Option (ℕ × LwsRuntime.Watch) → Adapter W
  timer_at a timeout_ms none = a
  timer_at a timeout_ms (some (i, watch)) =
      fail_unless (is_set (set_timer env.cancel watch (pos timeout_ms))) a

  unfoldable pub redis_timer : Adapter W → ℕ → Adapter W
  redis_timer a timeout_ms = timer_at a timeout_ms (watch_in a.runtime a.watch)

  unfoldable pub redis_connect : Adapter W → Status → Adapter W
  redis_connect a status = fail_unless (is_ok status) (record a { connected = is_ok status })

  -- The token is `adapter->token`, which every operation uses.
  unfoldable pub finish_operation : Adapter W → Bool → Adapter W
  finish_operation a ok_reply =
      let ended = env.now a.asked in
      let late = not ok_reply || leb ended a.token.started_ns || leb a.total a.token.index in
      record (next_question a) {
        failed = if late then true else a.failed;
        latency_ns =
            if late
            then a.latency_ns
            else set a.latency_ns a.token.index (ended - a.token.started_ns);
        completed = (a.completed + 1) % 2 ^ 64;
        inflight = false;
      }

  -- Whether the reply is the one that the operation expects.
  unfoldable pub reply_is_right : Adapter W → Status → Option (List ℕ) → ℤ → Bool
  reply_is_right a status text integer =
      let operation = a.token.index % op_count in
      if operation == 0
      then is_ok status && text_is text (b'O' ∷ b'K' ∷ [])
      else if operation == 1
      then is_ok status && text_is text a.redis_value
      else is_ok status && eqb_ℤ integer (pos 0)

  unfoldable pub redis_reply : Adapter W → Status → Option (List ℕ) → ℤ → Adapter W
  unfolding finish_operation reply_is_right
  redis_reply a status text integer = finish_operation a (reply_is_right a status text integer)

  -- What the owner of the Redis adapter does when it is told something.
  unfoldable pub notice : Adapter W → Notice → Adapter W
  unfolding redis_watch redis_timer redis_connect redis_reply
  notice a (watches fd flags) = redis_watch a fd flags
  notice a (timer timeout_ms) = redis_timer a timeout_ms
  notice a (connects status) = redis_connect a status
  notice a (replies status text integer user_data) = redis_reply a status text integer

  unfoldable pub notices : Adapter W → List Notice → Adapter W
  unfolding notice
  notices a [] = a
  notices a (n ∷ ns) = notices (notice a n) ns

  -- An operation is sent with the kind of its result, so the cases with the other kind do not arise.
  unfoldable pub store_value : Adapter W → Option (PgValue W) → Adapter W × Bool
  store_value a none = (a, false)
  store_value a (some (position_value p)) =
      if a.token.index % op_count == 0
      then (record a { db_row_a = p }, true)
      else if a.token.index % op_count == 1
      then (record a { db_row_b = p }, true)
      else (a, false)
  store_value a (some (exposure_value e)) =
      if a.token.index % op_count == 2
      then (
        record a { exposure = e },
        eqb_ℤ e.total_quantity (pos 30) && eqb_ℤ e.total_market_value (pos 34000),
      )
      else (a, false)

  unfoldable pub pg_reply : Adapter W → Completion (PgValue W) → Adapter W
  unfolding store_value finish_operation
  pg_reply a c = let (stored, right) = store_value a c.value in finish_operation stored right

  unfoldable pub pg_replies : Adapter W → List (Completion (PgValue W)) → Adapter W
  unfolding pg_reply
  pg_replies a [] = a
  pg_replies a (c ∷ cs) = pg_replies (pg_reply a c) cs
