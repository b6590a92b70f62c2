-- ===== src/LwsRuntime.antt =====
-- core/platform/event/lws_runtime.c: file descriptors that libwebsockets watches. A watch is named by its
-- slot in the array. What libwebsockets does is a parameter: whether a call succeeds, and the
-- callbacks that it makes. A callback of the owner is a notice; it does not call back into the file.
pub mod Slots
pub mod Run
mod Tests
use alpha_fincial_pipline_c.Prelude.{
  ℕ, zero, suc, ◌+◌, ◌-◌, ◌%◌, ◌^◌, Bool, true, false, not, ◌&&◌, ◌||◌, Option, none, some, List,
  [], ◌∷◌, ◌++◌, get_elem?, set, length, ltb, leb, ◌==◌, if◌then◌else◌,
}
use alpha_fincial_pipline_c.Prelude.Int.{ℤ, pos, negsuc, ◌*ℤ◌, leb_ℤ, ltb_ℤ, eqb_ℤ}
use alpha_fincial_pipline_c.Domain.{Error, Result, ok, err, invalid_arg, range, io}

abbrev pub Status : Type 0
Status = Option Error

-- `wsi` is `none` for NULL.
pub record Watch : Type 0 where
  pub wsi : Option ℕ
  pub callback_ctx : ℕ
  pub source_fd : ℤ
  pub wants_write : Bool
  pub active : Bool

-- The array of the watches has `capacity` slots.
pub record Runtime : Type 0 where
  pub watches : List Watch
  pub capacity : ℕ
  pub count : ℕ

-- A call of `ready_fn`.
pub record Ready : Type 0 where
  pub callback_ctx : ℕ
  pub readable : Bool
  pub writable : Bool
  pub timer : Bool

pub data Reason : Type 0 where
  raw_rx raw_rx_file raw_writeable raw_writeable_file timer_fired raw_close raw_close_file other :
      Reason

abbrev pub ready : Watch → Bool → Bool → Bool → Ready
ready watch readable writable timer = record {
  callback_ctx = watch.callback_ctx;
  readable = readable;
  writable = writable;
  timer = timer;
}

abbrev pub if_wanted : Watch → List Ready
if_wanted watch = if watch.wants_write then ready watch false true false ∷ [] else []

unfoldable pub foreign_fd_callback : Watch → Reason → Watch × List Ready
foreign_fd_callback watch raw_rx = (watch, ready watch true false false ∷ [])
foreign_fd_callback watch raw_rx_file = (watch, ready watch true false false ∷ [])
foreign_fd_callback watch raw_writeable = (watch, if_wanted watch)
foreign_fd_callback watch raw_writeable_file = (watch, if_wanted watch)
foreign_fd_callback watch timer_fired = (watch, ready watch false false true ∷ [])
foreign_fd_callback watch raw_close = (record watch { wsi = none }, [])
foreign_fd_callback watch raw_close_file = (record watch { wsi = none }, [])
foreign_fd_callback watch other = (watch, [])

unfoldable pub service_wakeup : List Watch → List Ready
service_wakeup [] = []
service_wakeup (watch ∷ watches) =
    let later = service_wakeup watches in
    if watch.active && watch.wants_write then ready watch false true false ∷ later else later

-- A slot of `calloc`.
abbrev pub empty_watch : Watch
empty_watch = record {
  wsi = none;
  callback_ctx = 0;
  source_fd = pos 0;
  wants_write = false;
  active = false;
}

abbrev pub replicate {ℓ} : {A : Type ℓ} → ℕ → A → List A
replicate zero a = []
replicate (suc n) a = a ∷ replicate n a

-- `given`: `out` is not NULL; `allocates`, `context`, `vhost`: those are made.
unfoldable pub runtime_create : ℕ → Bool → Bool → Bool → Bool → Option Runtime × Status
runtime_create watch_capacity given allocates context vhost =
    if watch_capacity == 0 || ltb 256 watch_capacity || not given
    then (none, some invalid_arg)
    else if not allocates || not context || not vhost
    then (none, some io)
    else (
      some (record {
        watches = replicate watch_capacity empty_watch;
        capacity = watch_capacity;
        count = 0;
      }),
      none,
    )

-- The handles that are closed, in order.
unfoldable pub runtime_destroy : List Watch → List ℕ
runtime_destroy [] = []
runtime_destroy (watch ∷ watches) = elim watch.wsi [
  | none ↦ runtime_destroy watches
  | some wsi ↦ wsi ∷ runtime_destroy watches
]

-- The first slot that is not active.
unfoldable pub free_slot : List Watch → Option ℕ
free_slot [] = none
free_slot (watch ∷ watches) =
    let later = free_slot watches in
    if not watch.active then some 0 else elim later [ none ↦ none | some i ↦ some (suc i) ]

-- `given`: `ready_fn` and `out` are not NULL; `dups`: the descriptor is duplicated; `adopted` is the
-- handle, `none` for NULL.
unfoldable pub watch_add : Runtime → ℤ → Bool → ℕ → Bool → Bool → Option ℕ → Runtime × Result ℕ
unfolding free_slot
watch_add runtime fd wants_write callback_ctx given dups adopted =
    if ltb_ℤ fd (pos 0) || not given
    then (runtime, err invalid_arg)
    else if runtime.count == runtime.capacity
    then (runtime, err range)
    else if not dups
    then (runtime, err io)
    else elim (free_slot runtime.watches) [
      | none ↦ (runtime, err range)
      | some i ↦
          let new : Watch = record {
            wsi = adopted;
            callback_ctx = callback_ctx;
            source_fd = fd;
            wants_write = wants_write;
            active = true;
          } in
          elim adopted [
            | none ↦ (
              record runtime { watches = set runtime.watches i (record new { active = false }) },
              err io,
            )
            | some wsi ↦ (
              record runtime {
                watches = set runtime.watches i new;
                count = (runtime.count + 1) % 2 ^ 64;
              },
              ok i,
            )
          ]
    ]

abbrev pub has_wsi : Watch → Bool
has_wsi watch = elim watch.wsi [ none ↦ false | some wsi ↦ true ]

-- `requested`: `lws_callback_on_writable` does not return a negative number.
unfoldable pub set_write : Watch → Bool → Bool → Watch × Status
set_write watch wants_write requested = if not (has_wsi watch) then (watch, some invalid_arg) else (
  record watch { wants_write = wants_write },
  if wants_write && not requested then some io else none,
)

-- The microseconds that libwebsockets is given; `cancel` is LWS_SET_TIMER_USEC_CANCEL.
unfoldable pub set_timer : ℤ → Watch → ℤ → Result ℤ
set_timer cancel watch timeout_ms =
    if not (has_wsi watch) || ltb_ℤ timeout_ms (negsuc 0)
    then err invalid_arg
    else ok (if ltb_ℤ timeout_ms (pos 0) then cancel else timeout_ms *ℤ pos 1000)

unfoldable pub callbacks : Watch → List Reason → Watch × List Ready
unfolding foreign_fd_callback
callbacks watch [] = (watch, [])
callbacks watch (reason ∷ reasons) =
    let (next, calls) = foreign_fd_callback watch reason in
    let (last, later) = callbacks next reasons in (last, calls ++ later)

-- `closing`: the callbacks that libwebsockets makes for the watch while it closes its handle.
unfoldable pub watch_remove : Runtime → ℕ → List Reason → Runtime × List Ready
unfolding callbacks
watch_remove runtime i closing = elim (get_elem? runtime.watches i) [
  | none ↦ (runtime, [])
  | some watch ↦
      let (closed, calls) = if has_wsi watch then callbacks watch closing else (watch, []) in
      if not watch.active then (runtime, []) else (
        record runtime {
          watches = set runtime.watches i (record closed { active = false });
          count = (runtime.count + 2 ^ 64 - 1) % 2 ^ 64;
        },
        calls,
      )
]

-- What libwebsockets calls while it serves: the wakeup, or the callback of a slot's handle.
pub data LwsCall : Type 0 where
  wakes : LwsCall
  calls_back : ℕ → Reason → LwsCall

unfoldable pub lws_call : Runtime → LwsCall → Runtime × List Ready
unfolding service_wakeup foreign_fd_callback
lws_call runtime wakes = (runtime, service_wakeup runtime.watches)
lws_call runtime (calls_back i reason) = elim (get_elem? runtime.watches i) [
  | none ↦ (runtime, [])
  | some watch ↦
      let (next, calls) = foreign_fd_callback watch reason in
      (record runtime { watches = set runtime.watches i next }, calls)
]

unfoldable pub lws_calls : Runtime → List LwsCall → Runtime × List Ready
unfolding lws_call
lws_calls runtime [] = (runtime, [])
lws_calls runtime (c ∷ cs) =
    let (next, calls) = lws_call runtime c in
    let (last, later) = lws_calls next cs in (last, calls ++ later)

-- The microseconds until the wakeup.
abbrev pub maximum_wait : ℤ → ℤ
maximum_wait timeout_ms = if eqb_ℤ timeout_ms (pos 0) then pos 1 else timeout_ms *ℤ pos 1000

-- `libwebsockets` says what is called, for the wait until the wakeup, and whether
-- `lws_service` does not return a negative number.
unfoldable pub runtime_service :
    Runtime → ℤ → (ℤ → List LwsCall × Bool) → Runtime × Status × List Ready
unfolding lws_calls
runtime_service runtime timeout_ms libwebsockets =
    let (cs, serves) = libwebsockets (maximum_wait timeout_ms) in
    let (next, calls) = lws_calls runtime cs in
    if ltb_ℤ timeout_ms (pos 0)
    then (runtime, some invalid_arg, [])
    else (next, if serves then none else some io, calls)

-- The slot `none` is NULL.
unfoldable pub watch_source_fd : Option Watch → ℤ
watch_source_fd none = negsuc 0
watch_source_fd (some watch) = watch.source_fd
