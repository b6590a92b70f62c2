-- ===== src/Adapter/Loop.antt =====
-- The loops of core/apps/c_driver_adapter.c, `wait_connection` and `drive`: what holds behind them.
use alpha_fincial_pipline_c.Prelude.{
  ℕ, zero, suc, ◌+◌, ◌≤◌, ◌<◌, ◌≡◌, refl, ◌⊎◌, inl, inr, Bool, true, false, not, ◌&&◌, some, List,
  length, ltb, if◌then◌else◌, Bool-cases, arith, if_some,
}
use mathlib.Core.Path.{subst}
use alpha_fincial_pipline_c.Date.{bool_ℕ}
use alpha_fincial_pipline_c.Double.{Double}
use alpha_fincial_pipline_c.Adapter.{Adapter, Environment, is_ok, fail_unless}
use alpha_fincial_pipline_c.Adapter.Drive.{
  runtime_service, is_late, submit_one, may_submit, serve_round, drive_round, drive,
}
use alpha_fincial_pipline_c.Adapter.Same.{Same, Same-check, Same-fail_unless}
use alpha_fincial_pipline_c.Adapter.Count.{IsTimed}
use alpha_fincial_pipline_c.Adapter.Rounds.{
  IsFaithful, Rests, Rests-Same, chosen-Same, runtime_service-Rests,
}
use alpha_fincial_pipline_c.Adapter.Submit.{submit_one-Rests}

not_busy : (busy b : Bool) → (not busy && b) ≡ true → busy ≡ false
not_busy false b e = refl
not_busy true b e = absurd cc

below_total :
    (failed : Bool) (completed total : ℕ)
    → (not failed && ltb completed total) ≡ true
    → completed < total
below_total failed completed total e = ground arith

at_end :
    (failed : Bool) (completed total : ℕ)
    → (not failed && ltb completed total) ≡ false
    → not failed ≡ true
    → (total ≤ completed) × (failed ≡ false)
at_end failed completed total e ok = ground arith

all_counted :
    (inflight : Bool) (submitted completed n : ℕ)
    → submitted ≡ completed + bool_ℕ inflight
    → submitted ≤ n
    → n ≤ completed
    → (inflight ≡ false) × (completed ≡ n)
all_counted false submitted completed n h k l = (refl, omega (arith, h, k, l))
all_counted true submitted completed n h k l = absurd (omega (arith, h, k, l))

completed-IsTimed :
    (failed : Bool) (completed n : ℕ) (l : List ℕ)
    → failed ≡ false
    → completed ≡ n
    → (failed ≡ true) ⊎ IsTimed completed l
    → IsTimed n l
completed-IsTimed failed completed n l e f (inl p) = absurd cc
completed-IsTimed failed completed n l e f (inr p) = subst (λ k. IsTimed k l) f p

chosen-Rests {ℓ} :
    {W : Type ℓ} {n : ℕ} (b : Bool) (x y : Adapter W)
    → Rests n x
    → Rests n y
    → Rests n (if b then x else y)
chosen-Rests true x y h k = h
chosen-Rests false x y h k = k

module _ {ℓ} {W : Type ℓ} ⦃d : Double W⦄ (env : Environment) (faithful : IsFaithful env) where
  serve_round-Rests :
      {n : ℕ} (a : Adapter W) (deadline_ns : ℕ)
      → Rests n a
      → Rests n (serve_round env a deadline_ns)
  unfolding is_late
  serve_round-Rests a deadline_ns h =
      let (served, ok_service) = runtime_service env a in
      let (looked, late) = is_late env served deadline_ns in
      let asked : Same served looked = record {
        same = refl;
        worse = inr refl;
        asks = omega arith;
      } in
      Rests-Same served _
        (chosen-Same ok_service served (fail_unless (not late) looked) (fail_unless false served)
          (Same-check (not late) served looked asked) (Same-fail_unless false served))
        (runtime_service-Rests env faithful a h)

  drive_round-Rests :
      {n : ℕ} (a : Adapter W) (deadline_ns : ℕ)
      → a.completed < n
      → Rests n a
      → Rests n (drive_round env a deadline_ns)
  unfolding drive_round
  drive_round-Rests a deadline_ns left h = elim (Bool-cases (may_submit a)) [
    | inr e ↦ rw e (serve_round-Rests a deadline_ns h)
    | inl e ↦
        let (sent, status) = submit_one env a in
        let rests = submit_one-Rests env a (not_busy a.inflight _ e) left h in
        rw e (
          chosen-Rests (is_ok status) (serve_round env sent deadline_ns) (fail_unless false sent)
            (serve_round-Rests sent deadline_ns rests)
            (Rests-Same sent (fail_unless false sent) (Same-fail_unless false sent) rests))
  ]

  -- What the loop leaves behind: a failure, or no operation left.
  pub record Finished (n : ℕ) (r : Adapter W × Bool) : Type 0 where
    pub rests : Rests n r.0
    pub done : r.1 ≡ true → (n ≤ r.0.completed) × (r.0.failed ≡ false)

  pub drive-Finished :
      {n : ℕ} (fuel : ℕ) (a : Adapter W) (deadline_ns : ℕ) (r : Adapter W × Bool)
      → Rests n a
      → drive env fuel a deadline_ns ≡ some r
      → Finished n r
  unfolding drive
  drive-Finished zero a deadline_ns r h e = absurd cc
  drive-Finished {n = n} (suc fuel) a deadline_ns r h e =
      elim (if_some (not a.failed && ltb a.completed a.total) _ _ r e) [
        | inl (c, f) ↦
            let (o, counts) = h in
            let left : a.completed < n =
              omega (arith, below_total a.failed a.completed a.total c, counts.whole) in
            drive-Finished fuel (drive_round env a deadline_ns) deadline_ns r
              (drive_round-Rests a deadline_ns left h) f
        | inr (c, f) ↦
            let (o, counts) = h in
            subst (Finished n) f (record {
              rests = h;
              done = λ ok.
                  let (x, y) = at_end a.failed a.completed a.total c ok in
                  (omega (arith, x, counts.whole), y);
            })
      ]

  -- Of `n` operations, counted right at first, with an honest hiredis: if `drive` returns true, all
  -- `n` were submitted, all were completed, none is in flight, the adapter did not fail, and each of the `n` latencies is
  -- positive.
  pub drive-completes :
      {n : ℕ} (fuel : ℕ) (a b : Adapter W) (deadline_ns : ℕ)
      → Rests n a
      → drive env fuel a deadline_ns ≡ some (b, true)
      → (b.completed ≡ n)
        × (b.submitted ≡ n)
        × (b.inflight ≡ false)
        × (b.failed ≡ false)
        × (length b.latency_ns ≡ n)
        × IsTimed n b.latency_ns
  drive-completes {n = n} fuel a b deadline_ns h e =
      let finished = drive-Finished fuel a deadline_ns (b, true) h e in
      let (o, counts) = finished.rests in
      let (all, right) = finished.done refl in
      let (idle, whole) =
        all_counted b.inflight b.submitted b.completed n counts.split counts.below all in
      (
        whole,
        omega (arith, counts.split, counts.below, all),
        idle,
        right,
        counts.sized,
        completed-IsTimed b.failed b.completed n b.latency_ns right whole counts.timed,
      )
