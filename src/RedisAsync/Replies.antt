-- ===== src/RedisAsync/Replies.antt =====
-- The replies of core/platform/cache/redis_async.c: how many callbacks of commands hiredis makes.
use alpha_fincial_pipline_c.Prelude.{
  ℕ, suc, ◌+◌, ◌≤◌, ◌≡◌, Bool, true, false, ◌&&◌, List, [], ◌∷◌, if◌then◌else◌, Bool-cases, inl,
  inr, arith,
}
use alpha_fincial_pipline_c.RedisAsync.{
  Redis, Watch, Callback, Notice, callback, callbacks, service, timeout, has_context, replied,
}
use alpha_fincial_pipline_c.RedisAsync.Pending.{answered, answered-append}

-- The callbacks of commands among the callbacks.
abbrev pub reply_count : List Callback → ℕ
reply_count [] = 0
reply_count (replied _ _ ∷ cs) = suc (reply_count cs)
reply_count (_ ∷ cs) = reply_count cs

reply_count-cons :
    (c : Callback) (cs : List Callback)
    → reply_count (c ∷ cs) ≡ reply_count (c ∷ []) + reply_count cs
reply_count-cons c cs = ground arith

-- The count falls by the replies told, which are the callbacks of commands.
pub record IsExact (before told : ℕ) (r : Redis × List Notice) : Type 0 where
  pub falls : r.0.pending + answered r.1 ≡ before
  pub tells : answered r.1 ≡ told

callback-exact :
    (redis : Redis) (c : Callback)
    → reply_count (c ∷ []) ≤ redis.pending
    → let r = callback redis c in
      (r.0.pending + answered r.1 ≡ redis.pending) × (answered r.1 ≡ reply_count (c ∷ []))
unfolding callback
callback-exact redis c h = ground arith

pub callbacks-IsExact :
    (cs : List Callback) (redis : Redis)
    → reply_count cs ≤ redis.pending
    → IsExact redis.pending (reply_count cs) (callbacks redis cs)
unfolding callbacks
callbacks-IsExact [] redis h = record { falls = omega arith; tells = omega arith }
callbacks-IsExact (c ∷ cs) redis h =
    let count = reply_count-cons c cs in
    let one = callback-exact redis c (omega (arith, count, h)) in
    let next = (callback redis c).0 in
    let more = callbacks-IsExact cs next (omega (arith, count, one, h)) in
    let both = answered-append (callback redis c).1 (callbacks next cs).1 in
    record {
      falls = omega (arith, count, one, both, more.falls, more.tells);
      tells = omega (arith, count, one, both, more.tells);
    }

when-IsExact :
    (b : Bool) (cs : List Callback) (redis : Redis)
    → reply_count cs ≤ redis.pending
    → let r = if b then callbacks redis cs else (redis, []) in
      (r.0.pending + answered r.1 ≡ redis.pending) × (answered r.1 ≤ reply_count cs)
when-IsExact true cs redis h =
    let e = callbacks-IsExact cs redis h in (e.falls, omega (arith, e.tells))
when-IsExact false cs redis h = omega arith

-- A service call in which hiredis makes, while it reads and writes, at most as many callbacks of
-- commands as there are commands pending lowers the count of pending commands by exactly the number
-- of replies that the owner is told in that call, also if the call disconnects or is refused.
pub service-exact :
    (redis : Redis) (ready : Watch) (reads writes : List Callback) (broken : Bool)
    → reply_count reads + reply_count writes ≤ redis.pending
    → let r = service redis ready reads writes broken in r.0.pending + answered r.2 ≡ redis.pending
unfolding service
service-exact redis ready reads writes broken h = elim (Bool-cases (has_context redis)) [
  | inr e ↦ rw e (omega arith)
  | inl e ↦
      let read : Redis × List Notice = if ready.read then callbacks redis reads else (redis, []) in
      let b = has_context read.0 && ready.write in
      let written : Redis × List Notice = if b then callbacks read.0 writes else (read.0, []) in
      let reading = when-IsExact ready.read reads redis (omega arith) in
      let writing = when-IsExact b writes read.0 (omega (arith, reading, h)) in
      let both = answered-append read.1 written.1 in rw e (omega (arith, reading, writing, both))
]

pub timeout-exact :
    (redis : Redis) (handled : List Callback) (broken : Bool)
    → reply_count handled ≤ redis.pending
    → let r = timeout redis handled broken in r.0.pending + answered r.2 ≡ redis.pending
unfolding timeout
timeout-exact redis handled broken h =
    let e = callbacks-IsExact handled redis h in
    elim (Bool-cases (has_context redis)) [ inl c ↦ rw c e.falls | inr c ↦ rw c (omega arith) ]
