-- ===== src/Risk/Exits.antt =====
-- The per-position gate of core/src/risk/gates.c, and its scan over the positions.
use alpha_fincial_pipline_c.Prelude.{
  ◌∙◌, ℕ, zero, suc, ◌+◌, ◌≤◌, ◌≡◌, ◌≢◌, refl, sym, ◌⊎◌, inl, inr, ◌↔◌, false, some, List, [], ◌∷◌,
  arith, get_elem?, Bool-cases,
}
use alpha_fincial_pipline_c.Prelude.Int.{pos, ◌<ℤ◌}
use alpha_fincial_pipline_c.Double.{Double, ◌≼◌, ◌⊖◌, ◌⊗◌, ◌⊘◌, nought, hundred}
use alpha_fincial_pipline_c.Risk.Config.{
  RiskConfig, Position, ExitKind, no_exit, take_profit, stop_loss,
}
use alpha_fincial_pipline_c.Risk.{
  check_rule_based_exit, exits_from, check_rule_based_exits, is_none_exit,
}
use mathlib.Core.Path.{subst}

-- The pair stands in the list.
abbrev pub Fired : ℕ → ExitKind → List (ℕ × ExitKind) → Type 0
Fired i k [] = ⊥
Fired i k ((j, l) ∷ out) = ((i ≡ j) × (k ≡ l)) ⊎ Fired i k out

-- Every index of the list is at least `n`, and they increase.
abbrev pub IsIncreasing : ℕ → List (ℕ × ExitKind) → Type 0
IsIncreasing n [] = Unit
IsIncreasing n ((j, l) ∷ out) = (n ≤ j) × IsIncreasing (suc j) out

IsIncreasing-mono :
    (n m : ℕ) (out : List (ℕ × ExitKind)) → n ≤ m → IsIncreasing m out → IsIncreasing n out
IsIncreasing-mono n m [] h r = tt
IsIncreasing-mono n m ((j, l) ∷ out) h r = (omega arith, r.1)

module _ {ℓ} {W : Type ℓ} ⦃d : Double W⦄ (config : RiskConfig) where
  open d use {neg, of_int, lt, le}

  -- A held position with positive prices.
  pub record IsPriced (p : Position W) : Type 0 where
    pub held : pos 0 <ℤ p.quantity
    pub fill : le p.avg_fill_price nought ≡ false
    pub current : le p.current_price nought ≡ false

  -- The profit or loss in percent of the fill price.
  abbrev pub pnl : Position W → W
  pnl p = (p.current_price ⊖ p.avg_fill_price) ⊘ p.avg_fill_price ⊗ hundred

  abbrev pub TakesProfit : Position W → Type 0
  TakesProfit p = of_int config.take_profit_pct ≼ pnl p

  abbrev pub StopsLoss : Position W → Type 0
  StopsLoss p = pnl p ≼ neg (of_int config.individual_stop_loss_pct)

  -- The gate fires for held and priced positions alone: it takes profit exactly at or above the
  -- target, stops a loss exactly at or below the limit where the target is not met, and reports
  -- the profit or loss exactly when it fires.
  pub check_rule_based_exit-cases :
      (p : Position W)
      → let r = check_rule_based_exit p config in
        ((r.0 ≡ take_profit) ↔ (IsPriced p × TakesProfit p))
        × ((r.0 ≡ stop_loss) ↔ (IsPriced p × (¬ TakesProfit p) × StopsLoss p))
        × ((r.1 ≡ some (pnl p)) ↔ (r.0 ≢ no_exit))
  unfolding check_rule_based_exit
  check_rule_based_exit-cases p = ground arith

  abbrev kind_of : Position W → ExitKind
  kind_of p = (check_rule_based_exit p config).0

  -- The gate fires for position `i` with kind `k`.
  abbrev Kinds : List (Position W) → ℕ → ExitKind → Type ℓ
  Kinds ps i k =
      (p : Position W) × (get_elem? ps i ≡ some p)
      × (k ≡ (check_rule_based_exit p config).0)
      × (k ≢ no_exit)

  exits_from-IsIncreasing :
      (n : ℕ) (ps : List (Position W)) → IsIncreasing n (exits_from n ps config)
  unfolding exits_from
  exits_from-IsIncreasing n [] = tt
  exits_from-IsIncreasing n (p ∷ ps) =
      let rest = exits_from-IsIncreasing (n + 1) ps in
      elim (Bool-cases (is_none_exit (kind_of p))) [
        | inl e ↦ rw e (IsIncreasing-mono n (n + 1) _ (omega arith) rest)
        | inr e ↦ rw e (omega arith, IsIncreasing-mono (suc n) (n + 1) _ (omega arith) rest)
      ]

  Kinds-behind :
      (n i : ℕ) (k : ExitKind) (p : Position W) (ps : List (Position W))
      → (j : ℕ) × (i ≡ n + 1 + j) × Kinds ps j k
      → (j : ℕ) × (i ≡ n + j) × Kinds (p ∷ ps) j k
  Kinds-behind n i k p ps (j, e, x) = (suc j, omega arith, x)

  Kinds-here :
      (n i : ℕ) (k : ExitKind) (p : Position W) (ps : List (Position W))
      → is_none_exit (kind_of p) ≡ false
      → i ≡ n
      → k ≡ kind_of p
      → (j : ℕ) × (i ≡ n + j) × Kinds (p ∷ ps) j k
  Kinds-here n i k p ps e a b = (0, omega arith, (p, refl, b, λ z. ground arith))

  Fired-sound :
      (n i : ℕ) (k : ExitKind) (ps : List (Position W))
      → Fired i k (exits_from n ps config)
      → (j : ℕ) × (i ≡ n + j) × Kinds ps j k
  unfolding exits_from
  Fired-sound n i k [] h = absurd h
  Fired-sound n i k (p ∷ ps) h =
      let ih = Fired-sound (n + 1) i k ps in
      elim (Bool-cases (is_none_exit (kind_of p))) [
        | inl e ↦ Kinds-behind n i k p ps (ih (rw e at h))
        | inr e ↦ here ih e (rw e at h)
      ]
    where
      here :
          (Fired i k (exits_from (n + 1) ps config) → (j : ℕ) × (i ≡ n + 1 + j) × Kinds ps j k)
          → is_none_exit (kind_of p) ≡ false
          → ((i ≡ n) × (k ≡ kind_of p)) ⊎ Fired i k (exits_from (n + 1) ps config)
          → (j : ℕ) × (i ≡ n + j) × Kinds (p ∷ ps) j k
      here ih e (inl (a, b)) = Kinds-here n i k p ps e a b
      here ih e (inr f) = Kinds-behind n i k p ps (ih f)

  Fired-complete :
      (n j m : ℕ) (k : ExitKind) (ps : List (Position W))
      → Kinds ps j k
      → m ≡ n + j
      → Fired m k (exits_from n ps config)
  unfolding exits_from
  Fired-complete n j m k [] (p, e, b, c) h = absurd (ground arith)
  Fired-complete n zero m k (p ∷ ps) (q, e, b, c) h =
      let same : kind_of q ≡ kind_of p = ground arith in
      elim (Bool-cases (is_none_exit (kind_of p))) [
        | inl z ↦ absurd (ground arith)
        | inr z ↦ rw z (inl (omega arith, b ∙ same))
      ]
  Fired-complete n (suc j) m k (p ∷ ps) x h =
      let rest = Fired-complete (n + 1) j m k ps x (omega arith) in
      elim (Bool-cases (is_none_exit (kind_of p))) [ inl z ↦ rw z rest | inr z ↦ rw z (inr rest) ]

  Kinds-at_zero :
      (ps : List (Position W)) (i : ℕ) (k : ExitKind)
      → (j : ℕ) × (i ≡ 0 + j) × Kinds ps j k
      → Kinds ps i k
  Kinds-at_zero ps i k (j, e, x) =
      let same : j ≡ i = omega arith in subst (λ n. Kinds ps n k) same x

  -- Position `i` is to be left, and why: it is held and priced, and its profit is at or above the
  -- target, or its loss at or below the limit.
  abbrev pub Exits : List (Position W) → ℕ → ExitKind → Type ℓ
  Exits ps i k =
      (p : Position W) × (get_elem? ps i ≡ some p)
      × IsPriced p
      × (((k ≡ take_profit) × TakesProfit p) ⊎ ((k ≡ stop_loss) × (¬ TakesProfit p) × StopsLoss p))

  Kinds-Exits : (ps : List (Position W)) (i : ℕ) (k : ExitKind) → Kinds ps i k → Exits ps i k
  Kinds-Exits ps i no_exit (p, at, e, ne) = absurd (ne refl)
  Kinds-Exits ps i take_profit (p, at, e, ne) =
      let (priced, takes) = (check_rule_based_exit-cases p).0.0 (sym e) in
      (p, at, priced, inl (refl, takes))
  Kinds-Exits ps i stop_loss (p, at, e, ne) =
      let (priced, keeps, stops) = (check_rule_based_exit-cases p).1.0 (sym e) in
      (p, at, priced, inr (refl, keeps, stops))

  Exits-Kinds : (ps : List (Position W)) (i : ℕ) (k : ExitKind) → Exits ps i k → Kinds ps i k
  Exits-Kinds ps i k (p, at, priced, inl (e, takes)) =
      let fires = (check_rule_based_exit-cases p).0.1 (priced, takes) in
      (p, at, e ∙ sym fires, λ z. cc)
  Exits-Kinds ps i k (p, at, priced, inr (e, keeps, stops)) =
      let fires = (check_rule_based_exit-cases p).1.1 (priced, keeps, stops) in
      (p, at, e ∙ sym fires, λ z. cc)

  -- The scan lists exactly the positions to be left, each with its kind, by increasing index: those
  -- held at positive prices whose profit is at or above the target, as TAKE_PROFIT, and those whose
  -- profit is below it and whose loss is at or below the limit, as STOP_LOSS. A test is IEEE 754's.
  pub check_rule_based_exits_lem :
      (ps : List (Position W))
      → IsIncreasing 0 (check_rule_based_exits ps config)
        × ((i : ℕ) (k : ExitKind) → Fired i k (check_rule_based_exits ps config) ↔ Exits ps i k)
  unfolding check_rule_based_exits
  check_rule_based_exits_lem ps = (
    exits_from-IsIncreasing 0 ps,
    λ i k. (
      λ f. Kinds-Exits ps i k (Kinds-at_zero ps i k (Fired-sound 0 i k ps f)),
      λ x. Fired-complete 0 i i k ps (Exits-Kinds ps i k x) (omega arith),
    ),
  )
