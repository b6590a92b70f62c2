-- ===== src/Adapter/Count.antt =====
-- How the callbacks of core/apps/c_driver_adapter.c count the operations.
use alpha_fincial_pipline_c.Prelude.{
  ℕ, zero, suc, ◌+◌, ◌-◌, ◌%◌, ◌^◌, ◌≤◌, ◌<◌, ◌≡◌, ◌∙◌, sym, refl, ap, ◌⊎◌, inl, inr, Bool, true,
  false, not, ◌||◌, Option, List, [], ◌∷◌, set, length, length-set, leb, if◌then◌else◌, arith,
}
use alpha_fincial_pipline_c.Prelude.Int.{ℤ}
use native.Mathlib.Nat.{mod-eq_of_lt}
use alpha_fincial_pipline_c.Date.{bool_ℕ}
use alpha_fincial_pipline_c.Postgres.{Pg, PendingRequest, Completion}
use alpha_fincial_pipline_c.Postgres.Invariant.{Holds}
use alpha_fincial_pipline_c.RedisAsync.{Redis, Notice, watches, timer, connects, replies}
use alpha_fincial_pipline_c.RedisAsync.Pending.{answered}
use alpha_fincial_pipline_c.Adapter.{
  Status, CaseKind, case_redis, case_db, PgValue, Adapter, Environment, redis_watch, redis_timer,
  redis_connect, finish_operation, reply_is_right, redis_reply, notice, notices, store_value,
  pg_reply, pg_replies,
}
use alpha_fincial_pipline_c.Adapter.Same.{
  Core, core, Same, redis_watch-Same, redis_timer-Same, redis_connect-Same, store_value-Same,
}

-- The first `n` latencies are there and positive.
abbrev pub IsTimed : ℕ → List ℕ → Type 0
IsTimed zero l = Unit
IsTimed (suc n) [] = ⊥
IsTimed (suc n) (t ∷ l) = (0 < t) × IsTimed n l

-- How many operations the library behind the adapter has still to answer.
abbrev pub Outstanding : CaseKind → Redis → Pg → ℕ → Type 0
Outstanding case_redis redis pg o = redis.pending ≡ o
Outstanding case_db redis pg o =
    (requests : List PendingRequest) × Holds pg requests × (length requests ≡ o)

-- Of `n` operations; `k` replies of the library are still to be handled.
pub record IsCounted (n : ℕ) (c : Core) (failed : Bool) (o k : ℕ) : Type 0 where
  pub whole : c.total ≡ n
  pub small : n < 2 ^ 64
  pub outstanding : Outstanding c.kind c.redis c.pg o
  pub sum : o + k ≡ bool_ℕ c.inflight
  pub split : c.submitted ≡ c.completed + bool_ℕ c.inflight
  pub below : c.submitted ≤ n
  pub current : (c.inflight ≡ false) ⊎ (c.token.index ≡ c.completed)
  pub sized : length c.latency_ns ≡ n
  pub timed : (failed ≡ true) ⊎ IsTimed c.completed c.latency_ns

IsTimed-set :
    (n : ℕ) (l : List ℕ) (t : ℕ) → n < length l → 0 < t → IsTimed n l → IsTimed (suc n) (set l n t)
IsTimed-set n [] t h p q = absurd (omega arith)
IsTimed-set zero (x ∷ l) t h p q = (p, tt)
IsTimed-set (suc n) (x ∷ l) t h p q = (q.0, IsTimed-set n l t (omega arith) p q.1)

pub next_count : (n : ℕ) → n + 1 < 2 ^ 64 → (n + 1) % 2 ^ 64 ≡ suc n
next_count n h = mod-eq_of_lt h ∙ omega arith

one-true : (b : Bool) (o k : ℕ) → o + suc k ≡ bool_ℕ b → b ≡ true
one-true true o k h = refl
one-true false o k h = absurd (omega (arith, h))

index_of : {b : Bool} {i n : ℕ} → b ≡ true → (b ≡ false) ⊎ (i ≡ n) → i ≡ n
index_of e (inl f) = absurd cc
index_of e (inr f) = f

finished-length :
    (late : Bool) (l : List ℕ) (i t : ℕ) → length (if late then l else set l i t) ≡ length l
finished-length true l i t = refl
finished-length false l i t = length-set l i t

finished-IsTimed :
    (failed late : Bool) (n i t m : ℕ) (l : List ℕ)
    → m ≡ suc n
    → i ≡ n
    → (late ≡ false → (i < length l) × (0 < t))
    → (failed ≡ true) ⊎ IsTimed n l
    → ((if late then true else failed) ≡ true) ⊎ IsTimed m (if late then l else set l i t)
finished-IsTimed failed true n i t m l e f h k = inl refl
finished-IsTimed failed false n i t m l e f h (inl p) = inl p
finished-IsTimed failed false n i t m l e f h (inr p) =
    inr (rw (e, f) (IsTimed-set n l t (rw (sym f) (h refl).0) (h refl).1 p))

not_late :
    (right : Bool) (ended started total index : ℕ)
    → (not right || leb ended started || leb total index) ≡ false
    → (index < total) × (0 < ended - started)
not_late right ended started total index e = ground arith

module _ {ℓ} {W : Type ℓ} where
  abbrev pub Counts : ℕ → Adapter W → ℕ → ℕ → Type 0
  Counts n a o k = IsCounted n (core a) a.failed o k

  pub Counts-Same : {n : ℕ} (a b : Adapter W) (o k : ℕ) → Same a b → Counts n a o k → Counts n b o k
  Counts-Same {n = n} a b o k s h = kept (core b) s.same s.worse
    where
      kept :
          (c : Core)
          → c ≡ core a
          → (b.failed ≡ true) ⊎ (b.failed ≡ a.failed)
          → IsCounted n c b.failed o k
      kept c e (inl p) =
          rw (e, p)
            (record {
              whole = h.whole;
              small = h.small;
              outstanding = h.outstanding;
              sum = h.sum;
              split = h.split;
              below = h.below;
              current = h.current;
              sized = h.sized;
              timed = inl refl;
            })
      kept c e (inr p) = rw (e, p) h

module _ {ℓ} {W : Type ℓ} (env : Environment) where
  -- One of the replies that are left is handled.
  finish_operation-Counts :
      {n : ℕ} (a : Adapter W) (right : Bool) (o k : ℕ)
      → Counts n a o (suc k)
      → Counts n (finish_operation env a right) o k
  unfolding finish_operation
  finish_operation-Counts a right o k h =
      let busy : a.inflight ≡ true = one-true a.inflight o k h.sum in
      let one : bool_ℕ a.inflight ≡ 1 = ap bool_ℕ busy in
      let next : (a.completed + 1) % 2 ^ 64 ≡ suc a.completed =
        next_count a.completed (omega (arith, one, h.split, h.below, h.small)) in
      record {
        whole = h.whole;
        small = h.small;
        outstanding = h.outstanding;
        sum = omega (arith, one, h.sum);
        split = omega (arith, one, next, h.split);
        below = h.below;
        current = inl refl;
        sized = finished-length _ a.latency_ns a.token.index _ ∙ h.sized;
        timed =
            finished-IsTimed a.failed
              (not right || leb (env.now a.asked) a.token.started_ns || leb a.total a.token.index)
              a.completed a.token.index (env.now a.asked - a.token.started_ns)
              ((a.completed + 1) % 2 ^ 64) a.latency_ns next (index_of busy h.current)
              (λ e.
                let (x, y) =
                  not_late right (env.now a.asked) a.token.started_ns a.total a.token.index e in
                (omega (arith, h.sized, h.whole, x), y))
              h.timed;
      }

  redis_reply-Counts :
      {n : ℕ} (a : Adapter W) (status : Status) (text : Option (List ℕ)) (integer : ℤ) (o k : ℕ)
      → Counts n a o (suc k)
      → Counts n (redis_reply env a status text integer) o k
  unfolding redis_reply
  redis_reply-Counts a status text integer o k h =
      finish_operation-Counts a (reply_is_right env a status text integer) o k h

  -- What the owner is told leaves no reply to be handled.
  pub notices-Counts :
      {n : ℕ} (ns : List Notice) (a : Adapter W) (o : ℕ)
      → Counts n a o (answered ns)
      → Counts n (notices env a ns) o 0
  unfolding notices notice
  notices-Counts [] a o h = h
  notices-Counts (watches fd flags ∷ ns) a o h =
      notices-Counts ns (redis_watch env a fd flags) o
        (Counts-Same a _ o _ (redis_watch-Same env a fd flags) h)
  notices-Counts (timer timeout_ms ∷ ns) a o h =
      notices-Counts ns (redis_timer env a timeout_ms) o
        (Counts-Same a _ o _ (redis_timer-Same env a timeout_ms) h)
  notices-Counts (connects status ∷ ns) a o h =
      notices-Counts ns (redis_connect env a status) o
        (Counts-Same a _ o _ (redis_connect-Same env a status) h)
  notices-Counts (replies status text integer user_data ∷ ns) a o h =
      notices-Counts ns (redis_reply env a status text integer) o
        (redis_reply-Counts a status text integer o (answered ns) h)

  -- The callbacks of Postgres leave no reply to be handled.
  pub pg_replies-Counts :
      {n : ℕ} (cs : List (Completion (PgValue W))) (a : Adapter W) (o : ℕ)
      → Counts n a o (length cs)
      → Counts n (pg_replies env a cs) o 0
  unfolding pg_replies pg_reply
  pg_replies-Counts [] a o h = h
  pg_replies-Counts (c ∷ cs) a o h =
      let stored = store_value env a c.value in
      pg_replies-Counts cs (finish_operation env stored.0 stored.1) o (
        finish_operation-Counts stored.0 stored.1 o (length cs)
          (Counts-Same a stored.0 o _ (store_value-Same env a c.value) h))
