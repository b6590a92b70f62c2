-- ===== src/Adapter/Same.antt =====
-- What the callbacks of core/apps/c_driver_adapter.c leave as it is.
use alpha_fincial_pipline_c.Prelude.{
  ℕ, ◌%◌, ◌≤◌, ◌≡◌, ◌∙◌, refl, ◌⊎◌, inl, inr, Bool, true, false, ◌||◌, Option, none, some, List,
  ◌==◌, Bool-cases, arith,
}
use alpha_fincial_pipline_c.Prelude.Int.{pos}
use alpha_fincial_pipline_c.Domain.{Result, ok, err}
use alpha_fincial_pipline_c.Postgres.{Pg}
use alpha_fincial_pipline_c.RedisAsync.{Redis, Watch}
use alpha_fincial_pipline_c.LwsRuntime
use alpha_fincial_pipline_c.LwsRuntime.{Runtime, set_write, set_timer, watch_add}
use alpha_fincial_pipline_c.Adapter.{
  Status, CaseKind, Token, PgValue, position_value, exposure_value, Adapter, Environment, op_count,
  is_ok, fail_unless, watch_in, write_at, is_set, added_to, watch_descriptor, timer_at,
  watch_set_write, add_watch, redis_watch, redis_timer, redis_connect, store_value,
}

-- What the count of operations depends on.
pub record Core : Type 0 where
  pub kind : CaseKind
  pub total : ℕ
  pub submitted : ℕ
  pub completed : ℕ
  pub inflight : Bool
  pub latency_ns : List ℕ
  pub token : Token
  pub redis : Redis
  pub pg : Pg

module _ {ℓ} {W : Type ℓ} where
  abbrev pub core : Adapter W → Core
  core a = record {
    kind = a.kind;
    total = a.total;
    submitted = a.submitted;
    completed = a.completed;
    inflight = a.inflight;
    latency_ns = a.latency_ns;
    token = a.token;
    redis = a.redis;
    pg = a.pg;
  }

  -- The count does not change, and a failure stays. No question is taken back.
  pub record Same (a b : Adapter W) : Type 0 where
    pub same : core b ≡ core a
    pub worse : (b.failed ≡ true) ⊎ (b.failed ≡ a.failed)
    pub asks : a.asked ≤ b.asked

  pub Same-refl : (a : Adapter W) → Same a a
  Same-refl a = record { same = refl; worse = inr refl; asks = omega arith }

  pub Same-trans : (a b c : Adapter W) → Same a b → Same b c → Same a c
  Same-trans a b c h k = record {
    same = k.same ∙ h.same;
    worse = later k.worse h.worse;
    asks = omega (arith, h.asks, k.asks);
  }
    where
      later :
          (c.failed ≡ true) ⊎ (c.failed ≡ b.failed)
          → (b.failed ≡ true) ⊎ (b.failed ≡ a.failed)
          → (c.failed ≡ true) ⊎ (c.failed ≡ a.failed)
      later (inl p) q = inl p
      later (inr p) (inl q) = inl (p ∙ q)
      later (inr p) (inr q) = inr (p ∙ q)

  pub Same-fail_unless : (b : Bool) (a : Adapter W) → Same a (fail_unless b a)
  Same-fail_unless true a = Same-refl a
  Same-fail_unless false a = record { same = refl; worse = inl refl; asks = omega arith }

  -- A step to the same count and a check.
  pub Same-check : (b : Bool) (a c : Adapter W) → Same a c → Same a (fail_unless b c)
  Same-check b a c h = Same-trans a c (fail_unless b c) h (Same-fail_unless b c)

module _ {ℓ} {W : Type ℓ} (env : Environment) where
  write_at-Same :
      (a : Adapter W) (w : Bool) (found : Option (ℕ × LwsRuntime.Watch))
      → Same a (write_at env a w found).0
  write_at-Same a w none = Same-refl a
  write_at-Same a w (some (i, watch)) = record { same = refl; worse = inr refl; asks = omega arith }

  pub watch_set_write-Same : (a : Adapter W) (w : Bool) → Same a (watch_set_write env a w).0
  unfolding watch_set_write
  watch_set_write-Same a w = write_at-Same a w (watch_in a.runtime a.watch)

  added_to-Same : (a : Adapter W) (r : Runtime × Result ℕ) → Same a (added_to env a r).0
  added_to-Same a (runtime, ok slot) = record { same = refl; worse = inr refl; asks = omega arith }
  added_to-Same a (runtime, err e) = record { same = refl; worse = inr refl; asks = omega arith }

  pub add_watch-Same : (a : Adapter W) (fd : ℕ) (write : Bool) → Same a (add_watch env a fd write).0
  unfolding add_watch
  add_watch-Same a fd write =
      added_to-Same a
        (watch_add a.runtime (pos fd) write 0 true (env.dups a.asked) (env.adopted a.asked))

  watch_descriptor-Same :
      (a : Adapter W) (fd : ℕ) (write : Bool) (watch : Option ℕ)
      → Same a (watch_descriptor env a fd write watch)
  watch_descriptor-Same a fd write none =
      Same-check (add_watch env a fd write).1 a (add_watch env a fd write).0
        (add_watch-Same a fd write)
  watch_descriptor-Same a fd write (some i) =
      Same-check (is_ok (watch_set_write env a write).1) a (watch_set_write env a write).0
        (watch_set_write-Same a write)

  pub redis_watch-Same :
      (a : Adapter W) (fd : Option ℕ) (flags : Watch) → Same a (redis_watch env a fd flags)
  unfolding redis_watch
  redis_watch-Same a none flags = Same-refl a
  redis_watch-Same a (some fd) flags = elim (Bool-cases (flags.read || flags.write)) [
    | inr e ↦ rw e (Same-refl a)
    | inl e ↦ rw e (watch_descriptor-Same a fd flags.write a.watch)
  ]

  timer_at-Same :
      (a : Adapter W) (timeout_ms : ℕ) (found : Option (ℕ × LwsRuntime.Watch))
      → Same a (timer_at env a timeout_ms found)
  timer_at-Same a timeout_ms none = Same-refl a
  timer_at-Same a timeout_ms (some (i, watch)) =
      Same-fail_unless (is_set (set_timer env.cancel watch (pos timeout_ms))) a

  pub redis_timer-Same : (a : Adapter W) (timeout_ms : ℕ) → Same a (redis_timer env a timeout_ms)
  unfolding redis_timer
  redis_timer-Same a timeout_ms = timer_at-Same a timeout_ms (watch_in a.runtime a.watch)

  pub redis_connect-Same : (a : Adapter W) (status : Status) → Same a (redis_connect env a status)
  unfolding redis_connect
  redis_connect-Same a none = record { same = refl; worse = inr refl; asks = omega arith }
  redis_connect-Same a (some e) = record { same = refl; worse = inl refl; asks = omega arith }

  pub store_value-Same : (a : Adapter W) (v : Option (PgValue W)) → Same a (store_value env a v).0
  unfolding store_value
  store_value-Same a none = Same-refl a
  store_value-Same a (some (position_value p)) = elim (Bool-cases (a.token.index % op_count == 0)) [
    | inl e ↦ rw e (record { same = refl; worse = inr refl; asks = omega arith })
    | inr e ↦ elim (Bool-cases (a.token.index % op_count == 1)) [
      | inl f ↦ rw (e, f) (record { same = refl; worse = inr refl; asks = omega arith })
      | inr f ↦ rw (e, f) (Same-refl a)
    ]
  ]
  store_value-Same a (some (exposure_value x)) = elim (Bool-cases (a.token.index % op_count == 2)) [
    | inl e ↦ rw e (record { same = refl; worse = inr refl; asks = omega arith })
    | inr e ↦ rw e (Same-refl a)
  ]
