-- ===== src/Adapter/Ends.antt =====
-- The loops of core/apps/c_driver_adapter.c end: each round asks the environment a question, and once
-- the clock is past the deadline the round fails.
use alpha_fincial_pipline_c.Prelude.{
  ℕ, zero, suc, ◌+◌, ◌≤◌, ◌<◌, ◌≡◌, ◌∙◌, refl, ap, ◌⊎◌, inl, inr, Bool, true, false, not, ◌&&◌,
  Option, some, ltb, if◌then◌else◌, Bool-cases, arith, if_ends,
}
use native.Mathlib.Decide.{dec_lt}
use alpha_fincial_pipline_c.Double.{Double}
use alpha_fincial_pipline_c.Adapter.{Adapter, Environment, is_ok, next_question, fail_unless}
use alpha_fincial_pipline_c.Adapter.Drive.{
  runtime_service, is_late, submit_one, may_submit, serve_round, drive_round, drive, is_connected,
  wait_connection,
}
use alpha_fincial_pipline_c.Adapter.Drive.{terminal_matches_service}
use alpha_fincial_pipline_c.Adapter.Setup.{deadline_from, judged, drive_from, run_case}
use alpha_fincial_pipline_c.Adapter.Asked.{runtime_service-asked, submit_one-asked}

-- The clock is past the deadline from question `n` on.
abbrev pub IsPast : Environment → ℕ → ℕ → Type 0
IsPast env deadline_ns n = (k : ℕ) → n ≤ k → deadline_ns < env.now k

unless_ends {ℓ} :
    {A : Type ℓ} (c : Bool) (y : A) (x : Option A)
    → (c ≡ false → (r : A) × (x ≡ some r))
    → (r : A) × ((if c then some y else x) ≡ some r)
unless_ends true y x h = (y, refl)
unless_ends false y x h = h refl

before_end :
    (env : Environment) (deadline_ns n : ℕ)
    → IsPast env deadline_ns n
    → (k : ℕ) → ltb deadline_ns (env.now k) ≡ false
    → k < n
before_end env deadline_ns n past k e = elim (dec_lt k n) [
  | yes p ↦ p
  | no p ↦ let late : deadline_ns < env.now k = past k (omega arith) in absurd (ground arith)
]

module _ {ℓ} {W : Type ℓ} ⦃d : Double W⦄ (env : Environment) where
  -- A round fails, or it asks a question and the clock is not past the deadline yet.
  Advances : ℕ → Adapter W → Adapter W → Type 0
  Advances n a b = (b.failed ≡ true) ⊎ ((a.asked < b.asked) × (a.asked < n))

  serve_round-Advances :
      (a : Adapter W) (deadline_ns n : ℕ)
      → IsPast env deadline_ns n
      → Advances n a (serve_round env a deadline_ns)
  unfolding Advances is_late
  serve_round-Advances a deadline_ns n past =
      let (served, ok_service) = runtime_service env a in
      let grows = runtime_service-asked env a in
      let late = ltb deadline_ns (env.now served.asked) in
      elim (Bool-cases ok_service) [
        | inr e ↦ rw e (inl refl)
        | inl e ↦ elim (Bool-cases late) [
          | inl l ↦ rw (e, l) (inl refl)
          | inr l ↦
              rw (e, l)
                (inr (
                  omega (arith, grows),
                  omega (arith, grows, before_end env deadline_ns n past served.asked l),
                ))
        ]
      ]

  chosen-Advances :
      (b : Bool) (a sent served : Adapter W) (n : ℕ)
      → a.asked ≤ sent.asked
      → Advances n sent served
      → Advances n a (if b then served else fail_unless false sent)
  unfolding Advances
  chosen-Advances false a sent served n h k = inl refl
  chosen-Advances true a sent served n h (inl p) = inl p
  chosen-Advances true a sent served n h (inr p) = inr (omega (arith, h, p))

  drive_round-Advances :
      (a : Adapter W) (deadline_ns n : ℕ)
      → IsPast env deadline_ns n
      → Advances n a (drive_round env a deadline_ns)
  unfolding Advances drive_round
  drive_round-Advances a deadline_ns n past = elim (Bool-cases (may_submit a)) [
    | inr e ↦ rw e (serve_round-Advances a deadline_ns n past)
    | inl e ↦
        let sent = submit_one env a in
        rw e (
          chosen-Advances (is_ok sent.1) a sent.0 (serve_round env sent.0 deadline_ns) n
            (submit_one-asked env a) (serve_round-Advances sent.0 deadline_ns n past))
  ]

  -- On this fuel the loop ends with a result.
  EndsOn : ℕ → Adapter W → ℕ → Type ℓ
  EndsOn fuel a deadline_ns = (r : Adapter W × Bool) × (drive env fuel a deadline_ns ≡ some r)

  failed-EndsOn :
      (fuel : ℕ) (a : Adapter W) (deadline_ns : ℕ)
      → a.failed ≡ true
      → EndsOn (suc fuel) a deadline_ns
  unfolding EndsOn drive
  failed-EndsOn fuel a deadline_ns e =
      if_ends _ _ (a, not a.failed) (inl (ap (λ b. not b && ltb a.completed a.total) e))

  round-EndsOn :
      (fuel : ℕ) (a : Adapter W) (deadline_ns n : ℕ)
      → IsPast env deadline_ns n
      → (Advances n a (drive_round env a deadline_ns)
          → EndsOn (suc fuel) (drive_round env a deadline_ns) deadline_ns)
      → EndsOn (suc (suc fuel)) a deadline_ns
  unfolding EndsOn drive
  round-EndsOn fuel a deadline_ns n past next =
      elim (Bool-cases (not a.failed && ltb a.completed a.total)) [
        | inr c ↦ if_ends _ _ (a, not a.failed) (inl c)
        | inl c ↦
            if_ends _ _ (a, not a.failed) (inr (next (drive_round-Advances a deadline_ns n past)))
      ]

  drive-EndsOn :
      (fuel : ℕ) (a : Adapter W) (deadline_ns n : ℕ)
      → IsPast env deadline_ns n
      → n ≤ fuel + a.asked
      → EndsOn (suc (suc fuel)) a deadline_ns
  unfolding Advances
  drive-EndsOn zero a deadline_ns n past h = round-EndsOn zero a deadline_ns n past (λ advances.
      elim advances [
        | inl p ↦ failed-EndsOn zero (drive_round env a deadline_ns) deadline_ns p
        | inr p ↦ absurd (omega (arith, h, p))
      ])
  drive-EndsOn (suc fuel) a deadline_ns n past h =
      let b = drive_round env a deadline_ns in
      round-EndsOn (suc fuel) a deadline_ns n past (λ advances. elim advances [
        | inl p ↦ failed-EndsOn (suc fuel) b deadline_ns p
        | inr p ↦ drive-EndsOn fuel b deadline_ns n past (omega (arith, h, p))
      ])

  -- With the clock past the deadline from question `n` on, `drive` ends with a result, on fuel for
  -- the questions up to `n` that are still to be asked and two rounds.
  pub drive-ends :
      (fuel : ℕ) (a : Adapter W) (deadline_ns n : ℕ)
      → IsPast env deadline_ns n
      → n ≤ fuel + a.asked
      → (r : Adapter W × Bool) × (drive env (suc (suc fuel)) a deadline_ns ≡ some r)
  unfolding EndsOn
  drive-ends fuel a deadline_ns n past h = drive-EndsOn fuel a deadline_ns n past h

  wait_connection-EndsOn :
      (fuel : ℕ) (a : Adapter W) (deadline_ns n : ℕ)
      → IsPast env deadline_ns n
      → n ≤ fuel + a.asked
      → (r : Adapter W × Bool) × (wait_connection env (suc fuel) a deadline_ns ≡ some r)
  unfolding wait_connection is_late
  wait_connection-EndsOn zero a deadline_ns n past h =
      let (served, ok_service) = runtime_service env a in
      let grows = runtime_service-asked env a in
      unless_ends a.failed _ _ (λ _. unless_ends (is_connected a) _ _ (λ _.
        unless_ends (not ok_service) _ _ (λ _.
          unless_ends (ltb deadline_ns (env.now served.asked)) _ _ (λ l.
            absurd (omega (arith, h, grows, before_end env deadline_ns n past served.asked l))))))
  wait_connection-EndsOn (suc fuel) a deadline_ns n past h =
      let (served, ok_service) = runtime_service env a in
      let grows = runtime_service-asked env a in
      unless_ends a.failed _ _ (λ _. unless_ends (is_connected a) _ _ (λ _.
        unless_ends (not ok_service) _ _ (λ _.
          unless_ends (ltb deadline_ns (env.now served.asked)) _ _ (λ _.
            wait_connection-EndsOn fuel (next_question served) deadline_ns n past
              (omega (arith, h, grows))))))

  -- If the clock gets past each deadline, the run has a result: there is fuel on which the wait for
  -- the connection and the loop both end, whatever the libraries answer.
  pub run_case-ends :
      (a : Adapter W)
      → ((k : ℕ) → (n : ℕ) × IsPast env (deadline_from env k) n)
      → (waits : ℕ) × (rounds : ℕ) × (r : Adapter W × Bool) × (run_case env waits rounds a ≡ some r)
  unfolding run_case EndsOn
  run_case-ends a past =
      let (n, setup_past) = past a.asked in
      let ((waited, connected), e) =
        wait_connection-EndsOn n (next_question a) (deadline_from env a.asked) n setup_past
          (omega arith) in
      let checked = fail_unless connected waited in
      let (m, drive_past) = past checked.asked in
      let ((b, right), f) =
        drive-EndsOn m (next_question checked) (deadline_from env checked.asked) m drive_past
          (omega arith) in
      (
        suc n,
        suc (suc m),
        (b, right && terminal_matches_service b),
        ap (drive_from env (suc (suc m))) e ∙ ap judged f,
      )
