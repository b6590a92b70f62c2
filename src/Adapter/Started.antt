-- ===== src/Adapter/Started.antt =====
-- The adapter that `main` of core/apps/c_driver_adapter.c sets up has nothing to handle.
use alpha_fincial_pipline_c.Prelude.{
  ℕ, ◌*◌, ◌≡◌, ◌∙◌, sym, refl, inl, inr, Bool, true, false, Option, none, some, List, [],
  length-replicate, arith,
}
use mathlib.Core.Path.{subst}
use native.Mathlib.Nat.{mod-lt}
use alpha_fincial_pipline_c.Prelude.Int.{pos}
use alpha_fincial_pipline_c.Double.{Double}
use alpha_fincial_pipline_c.Postgres.{Pg}
use alpha_fincial_pipline_c.Postgres.Queue.{ring}
use alpha_fincial_pipline_c.Postgres.Invariant.{Holds, connect_start-Holds}
use alpha_fincial_pipline_c.RedisAsync.{Redis, Callback, callbacks, connect, start_connection}
use alpha_fincial_pipline_c.RedisAsync.Pending.{answered}
use alpha_fincial_pipline_c.RedisAsync.Replies.{reply_count, callbacks-IsExact}
use alpha_fincial_pipline_c.LwsRuntime.{Runtime}
use alpha_fincial_pipline_c.Adapter.{
  Status, CaseKind, case_redis, case_db, Adapter, Environment, add_watch,
}
use alpha_fincial_pipline_c.Adapter.Setup.{
  Start, starts_redis, starts_db, kind_of, total_of, no_pg, fresh, with_redis, with_pg, start, host,
}
use alpha_fincial_pipline_c.Adapter.Same.{add_watch-Same, Same-check, Same-fail_unless}
use alpha_fincial_pipline_c.Adapter.Count.{Counts, Outstanding, notices-Counts}
use alpha_fincial_pipline_c.Adapter.Rounds.{Rests, Rests-Same, told-Counts}

no_pg-Holds : Holds no_pg []
unfolding ring
no_pg-Holds = record {
  valid = record { size = refl; head_in = omega arith; count_in = omega arith };
  queue = refl;
}

-- A fresh adapter has nothing to handle.
pub fresh-Counts {ℓ} :
    (W : Type ℓ) ⦃d : Double W⦄ (kind : CaseKind) (repeat : ℕ) (namespace_text : List ℕ)
    (runtime : Runtime)
    → Counts {W = W} (total_of repeat) (fresh kind repeat namespace_text runtime) 0 0
unfolding fresh
fresh-Counts W case_redis repeat namespace_text runtime = record {
  whole = refl;
  small = mod-lt (repeat * 3) (omega arith);
  outstanding = refl;
  sum = refl;
  split = refl;
  below = omega arith;
  current = inl refl;
  sized = length-replicate (total_of repeat) 0;
  timed = inr tt;
}
fresh-Counts W case_db repeat namespace_text runtime = record {
  whole = refl;
  small = mod-lt (repeat * 3) (omega arith);
  outstanding = ([], no_pg-Holds, refl);
  sum = refl;
  split = refl;
  below = omega arith;
  current = inl refl;
  sized = length-replicate (total_of repeat) 0;
  timed = inr tt;
}

-- Whatever the driver's creation returns, a driver that is there has no command pending.
IsIdleRedis : Option Redis × Status → Type 0
IsIdleRedis (none, status) = Unit
IsIdleRedis (some redis, status) = redis.pending ≡ 0

connect-IsIdleRedis :
    (allocates : Bool) (opened : Option ℕ) (sets : Bool)
    → IsIdleRedis (connect (some host) (pos 56379) true allocates opened sets)
unfolding IsIdleRedis connect start_connection
connect-IsIdleRedis false opened sets = tt
connect-IsIdleRedis true none sets = tt
connect-IsIdleRedis true (some fd) true = refl
connect-IsIdleRedis true (some fd) false = tt

IsIdlePg : Option Pg × Status → Type 0
IsIdlePg (none, status) = Unit
IsIdlePg (some pg, status) = Holds pg []

connect_start-IsIdlePg :
    (r : Option Pg × Status) → ((pg : Pg) → r.0 ≡ some pg → Holds pg []) → IsIdlePg r
unfolding IsIdlePg
connect_start-IsIdlePg (none, status) h = tt
connect_start-IsIdlePg (some pg, status) h = h pg refl

-- hiredis answers no command while it is attached.
abbrev pub AttachesOnly : Start → Type 0
AttachesOnly (starts_redis _ _ _ attaches) = reply_count attaches ≡ 0
AttachesOnly (starts_db _ _ _ _ _ _) = Unit

module _ {ℓ} {W : Type ℓ} (env : Environment) where
  with_redis-Rests :
      {n : ℕ} (a : Adapter W) (r : Option Redis × Status) (attaches : List Callback)
      → a.kind ≡ case_redis
      → Counts n a 0 0
      → reply_count attaches ≡ 0
      → IsIdleRedis r
      → Rests n (with_redis env a r attaches)
  unfolding IsIdleRedis
  with_redis-Rests a (none, status) attaches e h f g =
      Rests-Same a _ (Same-fail_unless false a) (0, h)
  with_redis-Rests a (some redis, some error) attaches e h f g =
      let created : Adapter W = record a { redis = redis } in
      let counted =
        told-Counts a redis a.pg 0 0 0 h (subst (λ c. Outstanding c redis a.pg 0) (sym e) g) refl in
      Rests-Same created _ (Same-fail_unless false created) (0, counted)
  with_redis-Rests a (some redis, none) attaches e h f g =
      let r = callbacks redis attaches in
      let exact = callbacks-IsExact attaches redis (omega (arith, f)) in
      let left : Outstanding case_redis r.0 a.pg r.0.pending = refl in
      let counted =
        told-Counts a r.0 a.pg 0 r.0.pending (answered r.1) h
          (subst (λ c. Outstanding c r.0 a.pg r.0.pending) (sym e) left) (exact.falls ∙ g) in
      (r.0.pending, notices-Counts env r.1 (record a { redis = r.0 }) r.0.pending counted)

  -- The adapter with a driver that holds nothing.
  created-Rests :
      {n : ℕ} (a : Adapter W) (pg : Pg)
      → a.kind ≡ case_db
      → Counts n a 0 0
      → Holds pg []
      → Rests n (record a { pg = pg })
  created-Rests a pg e h g =
      let held : Outstanding case_db a.redis pg 0 = ([], g, refl) in
      (
        0,
        told-Counts a a.redis pg 0 0 0 h (subst (λ c. Outstanding c a.redis pg 0) (sym e) held)
            refl,
      )

  with_pg-Rests :
      {n : ℕ} (a : Adapter W) (r : Option Pg × Status) (socket : ℕ)
      → a.kind ≡ case_db
      → Counts n a 0 0
      → IsIdlePg r
      → Rests n (with_pg env a r socket)
  unfolding IsIdlePg
  with_pg-Rests a (none, status) socket e h g = Rests-Same a _ (Same-fail_unless false a) (0, h)
  with_pg-Rests a (some pg, some error) socket e h g =
      let created : Adapter W = record a { pg = pg } in
      Rests-Same created _ (Same-fail_unless false created) (created-Rests a pg e h g)
  with_pg-Rests a (some pg, none) socket e h g =
      let created : Adapter W = record a { pg = pg } in
      let (next, added) = add_watch env created socket true in
      Rests-Same created _ (Same-check added created next (add_watch-Same env created socket true))
        (created-Rests a pg e h g)

  pub start-Rests :
      {n : ℕ} (a : Adapter W) (s : Start)
      → a.kind ≡ kind_of s
      → Counts n a 0 0
      → AttachesOnly s
      → Rests n (start env a s)
  unfolding start
  start-Rests a (starts_redis allocates opened sets attaches) e h f =
      with_redis-Rests a _ attaches e h f (connect-IsIdleRedis allocates opened sets)
  start-Rests a (starts_db false allocates connects status_ok message socket) e h f =
      Rests-Same a _ (Same-fail_unless false a) (0, h)
  start-Rests a (starts_db true allocates connects status_ok message socket) e h f =
      with_pg-Rests a _ socket e h
        (connect_start-IsIdlePg _ (connect_start-Holds true allocates connects status_ok 1 message))

pub fresh-kind {ℓ} :
    (W : Type ℓ) ⦃d : Double W⦄ (kind : CaseKind) (repeat : ℕ) (namespace_text : List ℕ)
    (runtime : Runtime)
    → (fresh {W = W} kind repeat namespace_text runtime).kind ≡ kind
unfolding fresh
fresh-kind W case_redis repeat namespace_text runtime = refl
fresh-kind W case_db repeat namespace_text runtime = refl
