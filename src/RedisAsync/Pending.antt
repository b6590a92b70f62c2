-- ===== src/RedisAsync/Pending.antt =====
-- The count of pending commands of core/platform/cache/redis_async.c.
use alpha_fincial_pipline_c.Prelude.{
  none, some, ◌&&◌, if◌then◌else◌, Bool-cases, inl, inr, true, false, Bool, Option, ℕ, suc, ◌+◌,
  ◌≤◌, ◌≡◌, List, [], ◌∷◌, ◌++◌, arith,
}
use alpha_fincial_pipline_c.RedisAsync.{
  has_context, start_connection, reconnect, Watch, command, max_pending, Status, timeout, service,
  Redis, Callback, Notice, watches, timer, connects, replies, callback, callbacks,
}

-- How many replies the owner is told.
abbrev pub answered : List Notice → ℕ
answered [] = 0
answered (replies _ _ _ _ ∷ l) = suc (answered l)
answered (watches _ _ ∷ l) = answered l
answered (timer _ ∷ l) = answered l
answered (connects _ ∷ l) = answered l

pub answered-append : (xs ys : List Notice) → answered (xs ++ ys) ≡ answered xs + answered ys
answered-append [] ys = omega arith
answered-append (replies _ _ _ _ ∷ l) ys = omega (arith, answered-append l ys)
answered-append (watches _ _ ∷ l) ys = answered-append l ys
answered-append (timer _ ∷ l) ys = answered-append l ys
answered-append (connects _ ∷ l) ys = answered-append l ys

-- The count does not grow, and it falls by the replies that are told at most.
abbrev Falls : ℕ → ℕ → ℕ → Type 0
Falls before after told = (after ≤ before) × (before ≤ after + told)

callback-Falls :
    (redis : Redis) (c : Callback)
    → let r = callback redis c in Falls redis.pending r.0.pending (answered r.1)
unfolding callback
callback-Falls redis c = ground arith

callbacks-Falls :
    (cs : List Callback) (redis : Redis)
    → let r = callbacks redis cs in Falls redis.pending r.0.pending (answered r.1)
unfolding callbacks
callbacks-Falls [] redis = omega arith
callbacks-Falls (c ∷ cs) redis =
    let (next, notices) = callback redis c in
    let one = callback-Falls redis c in
    let more = callbacks-Falls cs (callback redis c).0 in
    omega
      (arith, one, more, answered-append (callback redis c).1 (callbacks (callback redis c).0 cs).1)

when-Falls :
    (b : Bool) (cs : List Callback) (redis : Redis)
    → let r = if b then callbacks redis cs else (redis, []) in
      Falls redis.pending r.0.pending (answered r.1)
when-Falls true cs redis = callbacks-Falls cs redis
when-Falls false cs redis = omega arith

service-Falls :
    (redis : Redis) (ready : Watch) (reads writes : List Callback) (broken : Bool)
    → let r = service redis ready reads writes broken in
      Falls redis.pending r.0.pending (answered r.2)
unfolding service
service-Falls redis ready reads writes broken = elim (Bool-cases (has_context redis)) [
  | inr e ↦ rw e (omega arith)
  | inl e ↦
      let read : Redis × List Notice = if ready.read then callbacks redis reads else (redis, []) in
      let b = has_context read.0 && ready.write in
      let written : Redis × List Notice = if b then callbacks read.0 writes else (read.0, []) in
      let reading = when-Falls ready.read reads redis in
      let writing = when-Falls b writes read.0 in
      let both = answered-append read.1 written.1 in rw e (omega (arith, reading, writing, both))
]

timeout-Falls :
    (redis : Redis) (handled : List Callback) (broken : Bool)
    → let r = timeout redis handled broken in Falls redis.pending r.0.pending (answered r.2)
unfolding timeout
timeout-Falls redis handled broken = ground (arith, callbacks-Falls handled redis)

-- A call of the owner, with what hiredis does in it.
pub data Event : Type 0 where
  commands : Option (List (List ℕ)) → Bool → Bool → Event
  serves : Watch → List Callback → List Callback → Bool → Event
  times_out : List Callback → Bool → Event
  reconnects : Option ℕ → Bool → Event

-- The accepted commands, and the replies told.
abbrev pub accepted_by : Status → ℕ
accepted_by none = 1
accepted_by (some e) = 0

unfoldable pub step : Redis → Event → Redis × ℕ × ℕ
unfolding service timeout command reconnect
step redis (commands argv lengths sent) =
    let r = command redis argv lengths sent in (r.0, accepted_by r.1, 0)
step redis (serves ready reads writes broken) =
    let r = service redis ready reads writes broken in (r.0, 0, answered r.2)
step redis (times_out handled broken) =
    let r = timeout redis handled broken in (r.0, 0, answered r.2)
step redis (reconnects opened sets) = ((reconnect redis opened sets).0, 0, 0)

unfoldable pub run : Redis → List Event → Redis × ℕ × ℕ
run redis [] = (redis, 0, 0)
run redis (event ∷ events) =
    let (next, accepted, told) = step redis event in
    let (last, more, later) = run next events in (last, accepted + more, told + later)

IsCounted : Redis → Redis × ℕ × ℕ → Type 0
IsCounted redis r =
    (r.0.pending ≤ max_pending)
    × (redis.pending + r.1 ≤ r.0.pending + r.2)
    × (r.0.pending ≤ redis.pending + r.1)

step-IsCounted :
    (event : Event) (redis : Redis)
    → redis.pending ≤ max_pending
    → IsCounted redis (step redis event)
unfolding step IsCounted command reconnect start_connection
step-IsCounted (commands none lengths sent) redis h = omega arith
step-IsCounted (commands (some argv) lengths sent) redis h = ground arith
step-IsCounted (serves ready reads writes broken) redis h =
    omega (arith, service-Falls redis ready reads writes broken)
step-IsCounted (times_out handled broken) redis h =
    omega (arith, timeout-Falls redis handled broken)
step-IsCounted (reconnects none sets) redis h = ground arith
step-IsCounted (reconnects (some fd) true) redis h = ground arith
step-IsCounted (reconnects (some fd) false) redis h = ground arith

-- Over any run from a count of at most 64, the count stays at most 64, whatever hiredis calls back.
-- It never exceeds the first count and the commands accepted, and it falls behind them by the
-- replies told at most: no accepted command leaves the count without a reply.
pub run_bounds :
    (events : List Event) (redis : Redis)
    → redis.pending ≤ max_pending
    → let r = run redis events in
      (r.0.pending ≤ max_pending)
      × (redis.pending + r.1 ≤ r.0.pending + r.2)
      × (r.0.pending ≤ redis.pending + r.1)
unfolding run IsCounted
run_bounds [] redis h = omega arith
run_bounds (event ∷ events) redis h =
    let one = step-IsCounted event redis h in
    let more = run_bounds events (step redis event).0 one.0 in omega (arith, one, more)
