-- ===== src/Adapter/Main.antt =====
-- The whole run of core/apps/c_driver_adapter.c, from the set-up to the result.
use alpha_fincial_pipline_c.Prelude.{
  ℕ, zero, suc, ◌≡◌, ◌∙◌, sym, refl, ap, ◌⊎◌, inl, inr, Bool, true, false, not, Option, none, some,
  List, length, ltb, if◌then◌else◌, arith,
}
use mathlib.Core.Path.{subst}
use alpha_fincial_pipline_c.Double.{Double}
use alpha_fincial_pipline_c.LwsRuntime.{Runtime}
use alpha_fincial_pipline_c.Adapter.{Adapter, Environment, next_question, fail_unless}
use alpha_fincial_pipline_c.Adapter.Drive.{
  drive, wait_connection, terminal_matches_service, runtime_service, is_late, is_connected,
}
use alpha_fincial_pipline_c.Adapter.Setup.{
  Start, kind_of, total_of, fresh, start, deadline_from, judged, drive_from, run_case,
}
use alpha_fincial_pipline_c.Adapter.Same.{Same, Same-fail_unless}
use alpha_fincial_pipline_c.Adapter.Count.{IsTimed}
use alpha_fincial_pipline_c.Adapter.Rounds.{IsFaithful, Rests, Rests-Same, runtime_service-Rests}
use alpha_fincial_pipline_c.Adapter.Loop.{drive-completes}
use alpha_fincial_pipline_c.Adapter.Started.{AttachesOnly, fresh-Counts, fresh-kind, start-Rests}

some_if {ℓ} :
    {A : Type ℓ} (c : Bool) (y : A) (x : Option A) (r : A)
    → (if c then some y else x) ≡ some r
    → (y ≡ r) ⊎ (x ≡ some r)
some_if true y x r e = inl cc
some_if false y x r e = inr e

module _ {ℓ} {W : Type ℓ} ⦃d : Double W⦄ (env : Environment) (faithful : IsFaithful env) where
  wait_connection-Rests :
      {n : ℕ} (fuel : ℕ) (a : Adapter W) (deadline_ns : ℕ) (r : Adapter W × Bool)
      → Rests n a
      → wait_connection env fuel a deadline_ns ≡ some r
      → Rests n r.0
  unfolding wait_connection is_late
  wait_connection-Rests zero a deadline_ns r h e = absurd cc
  wait_connection-Rests {n = n} (suc fuel) a deadline_ns r h e =
      let (served, ok_service) = runtime_service env a in
      let after = runtime_service-Rests env faithful a h in
      let looked = next_question served in
      let asked : Same served looked = record {
        same = refl;
        worse = inr refl;
        asks = omega arith;
      } in
      let behind = Rests-Same served looked asked after in
      let at : (x : Adapter W × Bool) → Rests n x.0 → x ≡ r → Rests n r.0 =
        λ x k p. subst (λ y. Rests n y.0) p k in
      elim (some_if a.failed _ _ r e) [
        | inl p ↦ at (a, false) h p
        | inr f ↦ elim (some_if (is_connected a) _ _ r f) [
          | inl p ↦ at (a, true) h p
          | inr g ↦ elim (some_if (not ok_service) _ _ r g) [
            | inl p ↦ at (served, false) after p
            | inr k ↦ elim (some_if (ltb deadline_ns (env.now served.asked)) _ _ r k) [
              | inl p ↦ at (looked, false) behind p
              | inr l ↦ wait_connection-Rests fuel looked deadline_ns r behind l
            ]
          ]
        ]
      ]

module _ {ℓ} {W : Type ℓ} where
  -- The run succeeds only if the loop does, and the end matches.
  judged-true :
      (x : Option (Adapter W × Bool)) (b : Adapter W)
      → judged x ≡ some (b, true)
      → (x ≡ some (b, true)) × (terminal_matches_service b ≡ true)
  judged-true none b e = absurd cc
  judged-true (some (a, false)) b e = absurd cc
  judged-true (some (a, true)) b e =
      let same : a ≡ b = cc in
      let right : terminal_matches_service a ≡ true = cc in
      (ap (λ x. some (x, true)) same, sym (ap terminal_matches_service same) ∙ right)

module _ {ℓ} {W : Type ℓ} ⦃d : Double W⦄ (env : Environment) (faithful : IsFaithful env) where
  run_case-completes :
      {n : ℕ} (waits rounds : ℕ) (a b : Adapter W)
      → Rests n a
      → run_case env waits rounds a ≡ some (b, true)
      → ((b.completed ≡ n)
          × (b.submitted ≡ n)
          × (b.inflight ≡ false)
          × (b.failed ≡ false)
          × (length b.latency_ns ≡ n)
          × IsTimed n b.latency_ns)
        × (terminal_matches_service b ≡ true)
  unfolding run_case
  run_case-completes {n = n} waits rounds a b h e =
      behind (wait_connection env waits (next_question a) (deadline_from env a.asked))
        (λ r f.
          wait_connection-Rests env faithful waits (next_question a) (deadline_from env a.asked) r h
            f)
        e
    where
      behind :
          (w : Option (Adapter W × Bool))
          → ((r : Adapter W × Bool) → w ≡ some r → Rests n r.0)
          → drive_from env rounds w ≡ some (b, true)
          → ((b.completed ≡ n)
              × (b.submitted ≡ n)
              × (b.inflight ≡ false)
              × (b.failed ≡ false)
              × (length b.latency_ns ≡ n)
              × IsTimed n b.latency_ns)
            × (terminal_matches_service b ≡ true)
      behind none k f = absurd cc
      behind (some (waited, connected)) k f =
          let checked = fail_unless connected waited in
          let rests =
            Rests-Same waited checked (Same-fail_unless connected waited)
              (k (waited, connected) refl) in
          let (g, right) =
            judged-true (drive env rounds (next_question checked) (deadline_from env checked.asked))
              b f in
          (
            drive-completes env faithful rounds (next_question checked) b
                (deadline_from env checked.asked) rests g,
            right,
          )

  -- If hiredis makes no more callbacks of commands than there are commands pending, and none while it
  -- is attached, a run of either case from its set-up that returns true has submitted and completed
  -- `repeat` times three operations, modulo 2 ^ 64. None is in flight, the adapter did not fail, each
  -- operation has a positive latency, and the end matches the service.
  pub run-completes :
      (waits rounds repeat : ℕ) (namespace_text : List ℕ) (runtime : Runtime) (s : Start)
      (b : Adapter W)
      → AttachesOnly s
      → run_case env waits rounds (start env (fresh (kind_of s) repeat namespace_text runtime) s)
        ≡ some (b, true)
      → ((b.completed ≡ total_of repeat)
          × (b.submitted ≡ total_of repeat)
          × (b.inflight ≡ false)
          × (b.failed ≡ false)
          × (length b.latency_ns ≡ total_of repeat)
          × IsTimed (total_of repeat) b.latency_ns)
        × (terminal_matches_service b ≡ true)
  run-completes waits rounds repeat namespace_text runtime s b only e =
      let a : Adapter W = fresh (kind_of s) repeat namespace_text runtime in
      run_case-completes waits rounds (start env a s) b
        (start-Rests env a s (fresh-kind W (kind_of s) repeat namespace_text runtime)
          (fresh-Counts W (kind_of s) repeat namespace_text runtime) only)
        e
