-- ===== src/Postgres.antt =====
-- core/platform/db/postgres.c: the pipelined connection. libpq answers through `Libpq`, one record
-- for each call of `alpha_pg_service`; the reading of a row is a parameter. A completion stands for the
-- call of `complete_head`, with the callback if it is not NULL; a callback does not use the
-- connection itself. The connection is not NULL.
pub mod Queue
pub mod Invariant
pub mod Order
pub mod Run
pub mod Rows
pub mod Echo
mod Tests
use alpha_fincial_pipline_c.Prelude.{
  replicate, ℕ, ◌+◌, ◌-◌, ◌%◌, Bool, true, false, not, ◌&&◌, ◌||◌, Option, none, some, List, [],
  ◌∷◌, ◌++◌, length, get_elem?, set, take, ltb, ◌==◌, if◌then◌else◌,
}
use alpha_fincial_pipline_c.Domain.{Error, invalid_arg, io, range, db}

-- ALPHA_PG_MIN_PIPELINE_DEPTH and ALPHA_PG_MAX_PIPELINE_DEPTH
abbrev pub min_pipeline_depth : ℕ
min_pipeline_depth = 1

abbrev pub max_pipeline_depth : ℕ
max_pipeline_depth = 64

-- A status: `none` is ALPHA_OK.
abbrev pub Status : Type 0
Status = Option Error

pub data PgState : Type 0 where
  connecting ready failed : PgState

pub data Poll : Type 0 where
  poll_reading poll_writing poll_failed poll_ok : Poll

pub data ResultKind : Type 0 where
  position exposure : ResultKind

-- A message from libpq, or one of the two of the driver.
pub data Message : Type 0 where
  libpq : List ℕ → Message
  unqueued aborted : Message

-- The callback is known by its user data.
pub record PendingRequest : Type 0 where
  pub kind : ResultKind
  pub user_data : ℕ

-- `fifo` has `capacity` slots; one that was never written is `none`.
pub record Pg : Type 0 where
  pub state : PgState
  pub connect_poll : Poll
  pub flush_pending : Bool
  pub sync_sent : Bool
  pub fifo : List (Option PendingRequest)
  pub capacity : ℕ
  pub head : ℕ
  pub count : ℕ
  pub error : Message

-- What `PQgetResult` returns: NULL, a sync, or a result with its rows.
pub data PgResult {ℓ} (Rows : Type ℓ) : Type ℓ where
  boundary : PgResult Rows
  pipeline_sync : PgResult Rows
  tuples : Rows → PgResult Rows
  pipeline_aborted : PgResult Rows
  other : List ℕ → PgResult Rows

-- What a callback is given: whose request, and the value, `none` for ALPHA_ERR_DB.
pub record Completion {ℓ} (V : Type ℓ) : Type ℓ where
  pub request : PendingRequest
  pub value : Option V

-- The outcomes of libpq's calls; `results` are those that it returns before it is busy again.
pub record Libpq {ℓ} (Rows : Type ℓ) : Type ℓ where
  pub poll : Poll
  pub enters_pipeline : Bool
  pub syncs : Bool
  pub flush_failed : Bool
  pub flush_rest : Bool
  pub consumes : Bool
  pub results : List (PgResult Rows)
  pub message : List ℕ

abbrev pub is_connecting : PgState → Bool
is_connecting connecting = true
is_connecting _ = false

abbrev pub is_ready : PgState → Bool
is_ready ready = true
is_ready _ = false

abbrev pub is_failed : PgState → Bool
is_failed failed = true
is_failed _ = false

abbrev pub is_reading : Poll → Bool
is_reading poll_reading = true
is_reading _ = false

abbrev pub is_writing : Poll → Bool
is_writing poll_writing = true
is_writing _ = false

abbrev pub is_poll_failed : Poll → Bool
is_poll_failed poll_failed = true
is_poll_failed _ = false

abbrev pub is_poll_ok : Poll → Bool
is_poll_ok poll_ok = true
is_poll_ok _ = false

-- The buffer holds 256 characters.
abbrev pub set_error : Pg → List ℕ → Pg
set_error pg message = record pg { error = libpq (take 255 message) }

abbrev pub slots : ℕ → List (Option PendingRequest)
slots capacity = replicate capacity none

-- `given`: no pointer is NULL; `allocates`: both `calloc` succeed; `connects`: `PQconnectStart` does
-- not return NULL; `status_ok`: the connection is not bad, and `PQsetnonblocking` succeeds.
unfoldable pub connect_start : Bool → ℕ → Bool → Bool → Bool → List ℕ → Option Pg × Status
connect_start given pipeline_depth allocates connects status_ok message =
    let pg : Pg = record {
      state = connecting;
      connect_poll = poll_writing;
      flush_pending = false;
      sync_sent = false;
      fifo = slots pipeline_depth;
      capacity = pipeline_depth;
      head = 0;
      count = 0;
      error = libpq [];
    } in
    if not given || ltb pipeline_depth min_pipeline_depth || ltb max_pipeline_depth pipeline_depth
    then (none, some invalid_arg)
    else if not allocates
    then (none, some io)
    else if not connects
    then (none, some db)
    else if status_ok
    then (some pg, none)
    else (some (record (set_error pg message) { state = failed }), some db)

unfoldable pub wants_read : Pg → Bool
wants_read pg =
    if is_connecting pg.state && is_reading pg.connect_poll
    then true
    else is_ready pg.state && (ltb 0 pg.count || pg.sync_sent)

unfoldable pub wants_write : Pg → Bool
wants_write pg =
    if is_connecting pg.state && is_writing pg.connect_poll
    then true
    else is_ready pg.state && (pg.flush_pending || (ltb 0 pg.count && not pg.sync_sent))

unfoldable pub is_idle : Pg → Bool
is_idle pg = not (not (pg.count == 0) || pg.sync_sent || pg.flush_pending)

-- `fifo[head]`, which a test of `count` makes sure of.
abbrev pub head_request : Pg → Option PendingRequest
head_request pg = elim (get_elem? pg.fifo pg.head) [ none ↦ none | some slot ↦ slot ]

unfoldable pub complete_head : Pg → Pg
complete_head pg = record pg { head = (pg.head + 1) % pg.capacity; count = pg.count - 1 }

abbrev pub completion {ℓ} : {V : Type ℓ} → Option PendingRequest → Option V → List (Completion V)
completion none value = []
completion (some request) value = record { request = request; value = value } ∷ []

module _ {ℓ κ} {Rows : Type ℓ} {V : Type κ} (parse : ResultKind → Rows → Option V) where
  abbrev pub parse_for : Option PendingRequest → Rows → Option V
  parse_for none rows = none
  parse_for (some request) rows = parse request.kind rows

  -- The value of a result, and the error that is set if there is none.
  abbrev pub value_of : Option PendingRequest → PgResult Rows → Option V
  value_of request (tuples rows) = parse_for request rows
  value_of request _ = none

  abbrev pub message_of : List ℕ → PgResult Rows → Message
  message_of message pipeline_aborted = aborted
  message_of message (other text) = libpq (take 255 text)
  message_of message _ = libpq (take 255 message)

  abbrev pub with_value : Pg → Message → Option V → Pg
  with_value pg message (some value) = pg
  with_value pg message none = record pg { error = message }

  -- A result that is no boundary and no sync: it belongs to the oldest request.
  unfoldable pub take_result : Pg → List ℕ → PgResult Rows → Pg × List (Completion V)
  unfolding complete_head
  take_result pg message result =
      let request = head_request pg in
      let value = value_of request result in
      (complete_head (with_value pg (message_of message result) value), completion request value)

  -- The loop of `drain_results`: the state, the status, and the callbacks made, in order.
  unfoldable pub drain_results :
      Pg → List ℕ → List (PgResult Rows) → Pg × Status × List (Completion V)
  drain_results pg message [] = (pg, none, [])
  drain_results pg message (boundary ∷ results) =
      let later = drain_results pg message results in
      if ltb 0 pg.count || pg.sync_sent then later else (pg, none, [])
  drain_results pg message (pipeline_sync ∷ results) =
      drain_results (record pg { sync_sent = false }) message results
  drain_results pg message (result ∷ results) =
      let (next, done) = take_result pg message result in
      let (last, status, later) = drain_results next message results in
      if pg.count == 0
      then (record pg { error = unqueued; state = failed }, some db, [])
      else (last, status, done ++ later)

  unfoldable pub service_connect : Pg → Bool → Bool → Libpq Rows → Pg × Status
  service_connect pg0 readable writable lib =
      let expected =
        (is_reading pg0.connect_poll && readable) || (is_writing pg0.connect_poll && writable) in
      let pg = record pg0 { connect_poll = lib.poll } in
      let broken = record (set_error pg lib.message) { state = failed } in
      if not expected
      then (pg0, none)
      else if is_poll_failed lib.poll
      then (broken, some db)
      else if is_poll_ok lib.poll && not lib.enters_pipeline
      then (broken, some db)
      else if is_poll_ok lib.poll
      then (record pg { state = ready }, none)
      else (pg, none)

  -- The write half of `alpha_pg_service`: the sync, and the flush.
  unfoldable pub service_sync : Pg → Bool → Libpq Rows → Pg × Status
  service_sync pg writable lib =
      if writable && ltb 0 pg.count && not pg.sync_sent
      then (if not lib.syncs
          then (record (set_error pg lib.message) { state = failed }, some db)
          else (record pg { sync_sent = true; flush_pending = true }, none))
      else (pg, none)

  unfoldable pub service_flush : Pg → Bool → Libpq Rows → Pg × Status
  service_flush pg writable lib =
      if writable && pg.flush_pending
      then (if lib.flush_failed
          then (set_error pg lib.message, some db)
          else (record pg { flush_pending = lib.flush_rest }, none))
      else (pg, none)

  unfoldable pub service_read : Pg → Bool → Libpq Rows → Pg × Status × List (Completion V)
  service_read pg readable lib =
      if readable
      then (if not lib.consumes
          then (set_error pg lib.message, some db, [])
          else drain_results pg lib.message lib.results)
      else (pg, none, [])

  abbrev pub and_then :
      Pg × Status → (Pg → Pg × Status × List (Completion V)) → Pg × Status × List (Completion V)
  and_then (pg, none) next = next pg
  and_then (pg, some e) next = (pg, some e, [])

  abbrev no_callback : Pg × Status → Pg × Status × List (Completion V)
  no_callback (pg, status) = (pg, status, [])

  unfoldable pub service : Pg → Bool → Bool → Libpq Rows → Pg × Status × List (Completion V)
  unfolding service_connect service_sync service_flush service_read
  service pg readable writable lib =
      if is_failed pg.state
      then (pg, some invalid_arg, [])
      else if is_connecting pg.state
      then no_callback (service_connect pg readable writable lib)
      else and_then (service_sync pg writable lib) (λ synced.
        and_then (service_flush synced writable lib) (λ flushed. service_read flushed readable lib))

-- `sent` is the outcome of `PQsendQueryParams`, `flush_rest` that of `PQflush`.
unfoldable pub send_request : Pg → PendingRequest → Bool → Bool → List ℕ → Pg × Status
send_request pg request sent flush_rest message =
    if not (is_ready pg.state)
    then (pg, some invalid_arg)
    else if pg.count == pg.capacity
    then (pg, some range)
    else if pg.sync_sent
    then (pg, some range)
    else if not sent
    then (set_error pg message, some db)
    else (
      record pg {
        fifo = set pg.fifo ((pg.head + pg.count) % pg.capacity) (some request);
        count = pg.count + 1;
        flush_pending = flush_rest;
      },
      none,
    )

-- The accessors; `none` is NULL.
abbrev pub state_of : Option Pg → PgState
state_of none = failed
state_of (some pg) = pg.state

abbrev pub pending_of : Option Pg → ℕ
pending_of none = 0
pending_of (some pg) = pg.count

abbrev pub capacity_of : Option Pg → ℕ
capacity_of none = 0
capacity_of (some pg) = pg.capacity
