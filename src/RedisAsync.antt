-- ===== src/RedisAsync.antt =====
-- core/platform/cache/redis_async.c: the adapter between hiredis and the event loop. What hiredis does
-- is a parameter: the callbacks that it makes while it handles an event, whether the context has an
-- error behind that, and whether a call succeeds. The callbacks by which hiredis asks to write while it
-- takes a command or a new context are left out: they change the watch alone, and no count. The
-- adapter is not NULL.
pub mod Pending
pub mod Replies
pub mod Keys
mod Tests
use alpha_fincial_pipline_c.Prelude.{
  ℕ, suc, ◌+◌, ◌-◌, ◌*◌, ◌/◌, ◌%◌, ◌^◌, Bool, true, false, not, ◌&&◌, ◌||◌, Option, none, some,
  List, [], ◌∷◌, ◌++◌, length, ltb, leb, if◌then◌else◌,
}
use alpha_fincial_pipline_c.Prelude.Int.{ℤ, pos, leb_ℤ}
use alpha_fincial_pipline_c.Domain.{Error, Result, ok, err, invalid_arg, range, io}

-- A status: `none` is ALPHA_OK.
abbrev pub Status : Type 0
Status = Option Error

abbrev pub max_pending : ℕ
max_pending = 64

-- The bits ALPHA_REDIS_WATCH_READ and ALPHA_REDIS_WATCH_WRITE.
pub record Watch : Type 0 where
  pub read : Bool
  pub write : Bool

abbrev pub watch_none : Watch
watch_none = record { read = false; write = false }

-- `context` is the file descriptor of the hiredis context, `none` where there is no context.
pub record Redis : Type 0 where
  pub context : Option ℕ
  pub host : List ℕ
  pub port : ℤ
  pub watch : Watch
  pub pending : ℕ

pub data Reply : Type 0 where
  text : List ℕ → Reply
  integer : ℤ → Reply
  nil other : Reply

-- What hiredis calls. `disconnected` is given the file descriptor, `replied` the user data.
pub data Callback : Type 0 where
  add_read del_read add_write del_write cleanup : Callback
  schedule_timer : ℕ → ℕ → Callback
  connected : Bool → Callback
  disconnected : ℕ → Callback
  replied : Option Reply → ℕ → Callback

-- What the owner of the event loop is told. A file descriptor `none` is -1.
pub data Notice : Type 0 where
  watches : Option ℕ → Watch → Notice
  timer : ℕ → Notice
  connects : Status → Notice
  replies : Status → Option (List ℕ) → ℤ → ℕ → Notice

abbrev pub publish_watch : Redis → Notice
publish_watch redis = watches redis.context redis.watch

abbrev pub set_watch : Redis → Watch → Redis × List Notice
set_watch redis watch =
    let next : Redis = record redis { watch = watch } in (next, publish_watch next ∷ [])

abbrev pub reply_notice : Option Reply → ℕ → Notice
reply_notice (some (text s)) user_data = replies none (some s) (pos 0) user_data
reply_notice (some (integer i)) user_data = replies none none i user_data
reply_notice (some nil) user_data = replies none none (pos 0) user_data
reply_notice (some other) user_data = replies (some io) none (pos 0) user_data
reply_notice none user_data = replies (some io) none (pos 0) user_data

abbrev pub connect_status : Bool → Status
connect_status true = none
connect_status false = some io

unfoldable pub callback : Redis → Callback → Redis × List Notice
callback redis add_read = set_watch redis (record { read = true; write = redis.watch.write })
callback redis del_read = set_watch redis (record { read = false; write = redis.watch.write })
callback redis add_write = set_watch redis (record { read = redis.watch.read; write = true })
callback redis del_write = set_watch redis (record { read = redis.watch.read; write = false })
callback redis cleanup = set_watch redis watch_none
callback redis (schedule_timer sec usec) = (redis, timer (sec * 1000 + usec / 1000) ∷ [])
callback redis (connected success) = (redis, connects (connect_status success) ∷ [])
callback redis (disconnected fd) = (
  record redis { context = none; watch = watch_none },
  watches (some fd) watch_none ∷ connects (some io) ∷ [],
)
callback redis (replied reply user_data) = (
  record redis { pending = if ltb 0 redis.pending then redis.pending - 1 else redis.pending },
  reply_notice reply user_data ∷ [],
)

-- The callbacks of one call of hiredis, in order.
unfoldable pub callbacks : Redis → List Callback → Redis × List Notice
callbacks redis [] = (redis, [])
callbacks redis (c ∷ cs) =
    let (next, notices) = callback redis c in
    let (last, later) = callbacks next cs in (last, notices ++ later)

abbrev pub has_context : Redis → Bool
has_context redis = elim redis.context [ none ↦ false | some fd ↦ true ]

-- What is given to `redisAsyncConnect` and the two calls behind it: the file descriptor of a
-- context with no error, and whether both callbacks are set.
unfoldable pub start_connection : Redis → Option ℕ → Bool → Redis × Status
start_connection redis none sets = (record redis { context = none }, some io)
start_connection redis (some fd) true = (record redis { context = some fd }, none)
start_connection redis (some fd) false = (record redis { context = none }, some io)

-- `given`: the callbacks and `out` are not NULL; `allocates`: `calloc` and `malloc` succeed.
unfoldable pub connect : Option (List ℕ) → ℤ → Bool → Bool → Option ℕ → Bool → Option Redis × Status
unfolding start_connection
connect none port given allocates opened sets = (none, some invalid_arg)
connect (some host) port given allocates opened sets =
    let fresh : Redis = record {
      context = none;
      host = host;
      port = port;
      watch = watch_none;
      pending = 0;
    } in
    let (redis, status) = start_connection fresh opened sets in
    if leb_ℤ port (pos 0) || not given
    then (none, some invalid_arg)
    else if not allocates
    then (none, some io)
    else elim status [ none ↦ (some redis, none) | some e ↦ (none, some io) ]

-- The status that the service and the timeout return.
abbrev pub status_behind : Redis → Bool → Status
status_behind redis broken = if has_context redis && not broken then none else some io

-- `reads` and `writes` are the callbacks that hiredis makes while it reads and writes.
unfoldable pub service :
    Redis → Watch → List Callback → List Callback → Bool → Redis × Status × List Notice
service redis ready reads writes broken =
    let (after_read, notices) = if ready.read then callbacks redis reads else (redis, []) in
    let (last, later) =
      if has_context after_read && ready.write
      then callbacks after_read writes
      else (after_read, []) in
    if not (has_context redis)
    then (redis, some invalid_arg, [])
    else (last, status_behind last broken, notices ++ later)

unfoldable pub timeout : Redis → List Callback → Bool → Redis × Status × List Notice
timeout redis handled broken =
    let (last, notices) = callbacks redis handled in
    if not (has_context redis)
    then (redis, some invalid_arg, [])
    else (last, status_behind last broken, notices)

-- `argv` with `argc` strings, `none` for NULL; `lengths`: it is not NULL; `sent`: hiredis takes it.
unfoldable pub command : Redis → Option (List (List ℕ)) → Bool → Bool → Redis × Status
command redis none lengths sent = (redis, some invalid_arg)
command redis (some argv) lengths sent =
    if not (has_context redis) || leb (length argv) 0 || not lengths
    then (redis, some invalid_arg)
    else if leb max_pending redis.pending
    then (redis, some range)
    else if not sent
    then (redis, some io)
    else (record redis { pending = redis.pending + 1 }, none)

-- redis:cache:latest_ticks:
abbrev pub prefix : List ℕ
prefix =
    b'r' ∷ b'e' ∷ b'd' ∷ b'i' ∷ b's' ∷ b':' ∷ b'c' ∷ b'a' ∷ b'c' ∷ b'h' ∷ b'e' ∷ b':' ∷ b'l' ∷ b'a'
    ∷ b't' ∷ b'e' ∷ b's' ∷ b't' ∷ b'_' ∷ b't' ∷ b'i' ∷ b'c' ∷ b'k' ∷ b's' ∷ b':' ∷ []

-- `sizeof(prefix)` is its length and the NUL; the subtraction wraps.
unfoldable pub latest_key : Option (List ℕ) → Bool → ℕ → Result (List ℕ)
latest_key none given capacity = err invalid_arg
latest_key (some ticker) given capacity =
    if leb (length ticker) 0 || not given
    then err invalid_arg
    else if ltb ((capacity + 2 ^ 64 - 26) % 2 ^ 64) (length ticker)
    then err range
    else ok (prefix ++ ticker)

-- The buffer of a key.
abbrev pub key_capacity : ℕ
key_capacity = 256

abbrev pub set_arguments : List ℕ → List ℕ → List (List ℕ)
set_arguments key json_payload =
    (b'S' ∷ b'E' ∷ b'T' ∷ []) ∷ key ∷ json_payload ∷ (b'E' ∷ b'X' ∷ []) ∷ (b'6' ∷ b'0' ∷ []) ∷ []

abbrev pub get_arguments : List ℕ → List (List ℕ)
get_arguments key = (b'G' ∷ b'E' ∷ b'T' ∷ []) ∷ key ∷ []

-- `sent` says of the arguments whether hiredis takes them.
unfoldable pub set_latest_tick :
    Redis → Option (List ℕ) → Option (List ℕ) → (List (List ℕ) → Bool) → Redis × Status
unfolding latest_key command
set_latest_tick redis ticker json_payload sent = elim (latest_key ticker true key_capacity) [
  | err e ↦ (redis, some e)
  | ok key ↦ elim json_payload [
    | none ↦ (redis, some invalid_arg)
    | some payload ↦
        command redis (some (set_arguments key payload)) true (sent (set_arguments key payload))
  ]
]

unfoldable pub get_latest_tick : Redis → Option (List ℕ) → (List (List ℕ) → Bool) → Redis × Status
unfolding latest_key command
get_latest_tick redis ticker sent = elim (latest_key ticker true key_capacity) [
  | err e ↦ (redis, some e)
  | ok key ↦ command redis (some (get_arguments key)) true (sent (get_arguments key))
]

unfoldable pub reconnect : Redis → Option ℕ → Bool → Redis × Status
unfolding start_connection
reconnect redis opened sets =
    if has_context redis then (redis, some range) else start_connection redis opened sets

-- What the owner is told while the adapter is closed: `frees` are the callbacks that hiredis makes
-- while it frees the context.
unfoldable pub close : Redis → List Callback → List Notice
unfolding callbacks
close redis frees = if has_context redis then (callbacks redis frees).1 else []
