-- ===== src/Adapter/Rounds.antt =====
-- One round of the loop of core/apps/c_driver_adapter.c keeps the count of operations.
use alpha_fincial_pipline_c.Prelude.{
  ℕ, suc, ◌+◌, ◌≤◌, ◌≡◌, ◌∙◌, sym, refl, ap, Bool, true, false, List, [], ◌∷◌, ◌++◌, length,
  length-append, if◌then◌else◌, arith,
}
use mathlib.Core.Path.{subst}
use alpha_fincial_pipline_c.Double.{Double}
use alpha_fincial_pipline_c.Postgres.{Pg, PendingRequest, Completion, wants_write, service}
use alpha_fincial_pipline_c.Postgres.Order.{requests_of}
use alpha_fincial_pipline_c.Postgres.Run.{service-Answers}
use alpha_fincial_pipline_c.RedisAsync
use alpha_fincial_pipline_c.RedisAsync.{Redis, Watch, Notice, timeout}
use alpha_fincial_pipline_c.RedisAsync.Pending.{answered}
use alpha_fincial_pipline_c.RedisAsync.Replies.{reply_count, service-exact, timeout-exact}
use alpha_fincial_pipline_c.LwsRuntime.{Ready, LwsCall, lws_call}
use alpha_fincial_pipline_c.Adapter.{
  CaseKind, case_redis, case_db, Adapter, Environment, is_ok, next_question, fail_unless, notices,
  pg_replies, watch_set_write,
}
use alpha_fincial_pipline_c.Adapter.Drive.{
  parse_value, pg_ready, redis_ready, ready_as, ready, readies, lws_events, runtime_service,
}
use alpha_fincial_pipline_c.Adapter.Same.{
  core, Same, Same-check, Same-fail_unless, watch_set_write-Same,
}
use alpha_fincial_pipline_c.Adapter.Count.{
  Outstanding, IsCounted, Counts, Counts-Same, notices-Counts, pg_replies-Counts,
}

-- hiredis makes no more callbacks of commands in a call than there are commands pending.
pub record IsFaithful (env : Environment) : Type 0 where
  pub io_replies :
      (k : ℕ) (redis : Redis)
      → let h = env.hiredis k redis in reply_count h.reads + reply_count h.writes ≤ redis.pending
  pub timeout_replies :
      (k : ℕ) (redis : Redis) → reply_count (env.hiredis k redis).handled ≤ redis.pending

length-requests_of {κ} :
    {V : Type κ} (done : List (Completion V)) → length (requests_of done) ≡ length done
length-requests_of [] = refl
length-requests_of (c ∷ cs) = ap suc (length-requests_of cs)

requests_of-length {κ} :
    {V : Type κ} (done : List (Completion V)) (requests rest : List PendingRequest)
    → requests ≡ requests_of done ++ rest
    → length rest + length done ≡ length requests
requests_of-length done requests rest e =
    omega (arith, ap length e, length-append (requests_of done) rest, length-requests_of done)

module _ {ℓ} {W : Type ℓ} where
  -- Every reply that was told is handled.
  abbrev pub Rests : ℕ → Adapter W → Type 0
  Rests n a = (o : ℕ) × Counts n a o 0

  -- The library has been told something: its state, and the replies that are to be handled.
  pub told-Counts :
      {n : ℕ} (a : Adapter W) (redis : Redis) (pg : Pg) (o p k : ℕ)
      → Counts n a o 0
      → Outstanding a.kind redis pg p
      → p + k ≡ o
      → IsCounted n (record (core a) { redis = redis; pg = pg }) a.failed p k
  told-Counts a redis pg o p k h q e = record {
    whole = h.whole;
    small = h.small;
    outstanding = q;
    sum = omega (arith, h.sum, e);
    split = h.split;
    below = h.below;
    current = h.current;
    sized = h.sized;
    timed = h.timed;
  }

  pub chosen-Same :
      (b : Bool) (a x y : Adapter W) → Same a x → Same a y → Same a (if b then x else y)
  chosen-Same true a x y h k = h
  chosen-Same false a x y h k = k

  pub Rests-Same : {n : ℕ} (a b : Adapter W) → Same a b → Rests n a → Rests n b
  Rests-Same a b s (o, h) = (o, Counts-Same a b o 0 s h)

module _ {ℓ} {W : Type ℓ} ⦃d : Double W⦄ (env : Environment) where
  pg_ready-Rests :
      {n : ℕ} (a : Adapter W) (readable writable : Bool)
      → a.kind ≡ case_db
      → Rests n a
      → Rests n (pg_ready env a readable writable)
  unfolding pg_ready
  pg_ready-Rests a readable writable e (o, h) =
      let (requests, holds, l) = subst (λ c. Outstanding c a.redis a.pg o) e h.outstanding in
      let r = service (parse_value env) a.pg readable writable (env.libpq a.asked) in
      let answers =
        service-Answers (parse_value env) a.pg readable writable (env.libpq a.asked) requests
          holds in
      let p = length answers.rest in
      let left : Outstanding case_db a.redis r.0 p = (answers.rest, answers.holds, refl) in
      let told : Adapter W = record (next_question a) { pg = r.0 } in
      let counted =
        told-Counts a a.redis r.0 o p (length r.2) h
          (subst (λ c. Outstanding c a.redis r.0 p) (sym e) left)
          (requests_of-length r.2 requests answers.rest answers.split ∙ l) in
      let served = pg_replies env told r.2 in
      let (written, set) = watch_set_write env served (wants_write r.0) in
      let checked =
        Same-check (is_ok set) served written (watch_set_write-Same env served (wants_write r.0)) in
      Rests-Same served _
        (chosen-Same (is_ok r.1) served _ _ checked (Same-fail_unless false served))
        (p, pg_replies-Counts env r.2 told p counted)

  redis_told-Rests :
      {n : ℕ} (a : Adapter W) (redis : Redis) (ns : List Notice) (right : Bool)
      → a.kind ≡ case_redis
      → redis.pending + answered ns ≡ a.redis.pending
      → Rests n a
      → Rests n (fail_unless right (notices env (record (next_question a) { redis = redis }) ns))
  redis_told-Rests a redis ns right e same (o, h) =
      let pending : a.redis.pending ≡ o =
        subst (λ c. Outstanding c a.redis a.pg o) e h.outstanding in
      let left : Outstanding case_redis redis a.pg redis.pending = refl in
      let told : Adapter W = record (next_question a) { redis = redis } in
      let counted =
        told-Counts a redis a.pg o redis.pending (answered ns) h
          (subst (λ c. Outstanding c redis a.pg redis.pending) (sym e) left) (same ∙ pending) in
      Rests-Same (notices env told ns) _ (Same-fail_unless right (notices env told ns))
        (redis.pending, notices-Counts env ns told redis.pending counted)

module _ {ℓ} {W : Type ℓ} ⦃d : Double W⦄ (env : Environment) (faithful : IsFaithful env) where
  redis_ready-Rests :
      {n : ℕ} (a : Adapter W) (readable writable timed_out : Bool)
      → a.kind ≡ case_redis
      → Rests n a
      → Rests n (redis_ready env a readable writable timed_out)
  unfolding redis_ready
  redis_ready-Rests a readable writable true e h =
      let does = env.hiredis a.asked a.redis in
      let r = timeout a.redis does.handled does.broken in
      redis_told-Rests env a r.0 r.2 (is_ok r.1) e
        (timeout-exact a.redis does.handled does.broken (faithful.timeout_replies a.asked a.redis))
        h
  redis_ready-Rests a readable writable false e h =
      let does = env.hiredis a.asked a.redis in
      let flags : Watch = record { read = readable; write = writable } in
      let r = RedisAsync.service a.redis flags does.reads does.writes does.broken in
      redis_told-Rests env a r.0 r.2 (is_ok r.1) e
        (service-exact a.redis flags does.reads does.writes does.broken
          (faithful.io_replies a.asked a.redis))
        h

  ready_as-Rests :
      {n : ℕ} (kind : CaseKind) (a : Adapter W) (r : Ready)
      → a.kind ≡ kind
      → Rests n a
      → Rests n (ready_as env kind a r)
  ready_as-Rests case_db a r e h = pg_ready-Rests env a r.readable r.writable e h
  ready_as-Rests case_redis a r e h = redis_ready-Rests a r.readable r.writable r.timer e h

  readies-Rests : {n : ℕ} (rs : List Ready) (a : Adapter W) → Rests n a → Rests n (readies env a rs)
  unfolding readies ready
  readies-Rests [] a h = h
  readies-Rests (r ∷ rs) a h = readies-Rests rs (ready env a r) (ready_as-Rests a.kind a r refl h)

  lws_events-Rests :
      {n : ℕ} (cs : List LwsCall) (a : Adapter W) → Rests n a → Rests n (lws_events env a cs)
  unfolding lws_events
  lws_events-Rests [] a h = h
  lws_events-Rests (c ∷ cs) a h =
      let (runtime, rs) = lws_call a.runtime c in
      lws_events-Rests cs _ (readies-Rests rs (record a { runtime = runtime }) h)

  pub runtime_service-Rests :
      {n : ℕ} (a : Adapter W) → Rests n a → Rests n (runtime_service env a).0
  unfolding runtime_service
  runtime_service-Rests a h = lws_events-Rests (env.calls a.asked a.runtime) (next_question a) h
