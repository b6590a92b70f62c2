-- ===== src/Risk/Drawdown.antt =====
-- The drawdown gate of core/src/risk/gates.c: the loop with two slots keeps the first two of a
-- stable ascending sort by pnl.
use mathlib.Core.List.{Perm}
use mathlib.Core.List.Perm
use alpha_fincial_pipline_c.Prelude.{
  ◌∙◌, ap, ◌||◌, ◌++◌, All, ℕ, ◌+◌, ◌<◌, ◌≡◌, refl, ◌⊎◌, inl, inr, false, none, some, List, [], ◌∷◌,
  arith, Bool-cases, map, take, if◌then◌else◌,
}
use alpha_fincial_pipline_c.Double.{Double, ◌≺◌, ◌≼◌, nought}
use alpha_fincial_pipline_c.Risk.Config.{RiskConfig, Position}
use alpha_fincial_pipline_c.Risk.{
  chosen, pnl_pct_of, is_skipped, Weakest, weakest_step, weakest_from, no_weakest,
  check_portfolio_drawdown,
}

-- A position that is not skipped: its index, and its pnl.
abbrev pub Candidate {ℓ} : Type ℓ → Type ℓ
Candidate W = ℕ × W

module _ {ℓ} {W : Type ℓ} ⦃d : Double W⦄ where
  open d use {lt, le, neg, of_int}

  unfoldable pub candidates : ℕ → List (Position W) → List (Candidate W)
  candidates i [] = []
  candidates i (p ∷ ps) =
      let rest = candidates (i + 1) ps in
      if is_skipped p then rest else (i, pnl_pct_of p.current_price p.avg_fill_price) ∷ rest

  -- Insertion behind equal elements.
  pub insert : Candidate W → List (Candidate W) → List (Candidate W)
  insert x [] = x ∷ []
  insert x (y ∷ l) = if lt x.1 y.1 then x ∷ y ∷ l else y ∷ insert x l

  pub sort_from : List (Candidate W) → List (Candidate W) → List (Candidate W)
  sort_from sorted [] = sorted
  sort_from sorted (x ∷ l) = sort_from (insert x sorted) l

  abbrev pub weakest_first : List (Position W) → List (Candidate W)
  weakest_first ps = sort_from [] (candidates 0 ps)

  -- The loop's variables, for the candidates so far in sorted order.
  slots : List (Candidate W) → Weakest W
  slots [] = no_weakest
  slots (a ∷ []) = record { first = some a.0; second = none; first_pnl = a.1; second_pnl = nought }
  slots (a ∷ b ∷ l) = record {
    first = some a.0;
    second = some b.0;
    first_pnl = a.1;
    second_pnl = b.1;
  }

  slots-insert :
      (x : Candidate W) (l : List (Candidate W))
      → weakest_step x.0 x.1 (slots l) ≡ slots (insert x l)
  unfolding weakest_step slots insert
  slots-insert x [] = refl
  slots-insert x (a ∷ []) = ground arith
  slots-insert x (a ∷ b ∷ l) = ground arith

  weakest_from-slots :
      (i : ℕ) (ps : List (Position W)) (l : List (Candidate W))
      → weakest_from i ps (slots l) ≡ slots (sort_from l (candidates i ps))
  unfolding weakest_from sort_from candidates
  weakest_from-slots i [] l = refl
  weakest_from-slots i (p ∷ ps) l =
      let x : Candidate W = (i, pnl_pct_of p.current_price p.avg_fill_price) in
      elim (Bool-cases (is_skipped p)) [
        | inl e ↦ rw e (weakest_from-slots (i + 1) ps l)
        | inr e ↦ rw (e, slots-insert x l) (weakest_from-slots (i + 1) ps (insert x l))
      ]

  chosen-slots :
      (l : List (Candidate W))
      → chosen (slots l).first ++ chosen (slots l).second ≡ map (λ x. x.0) (take 2 l)
  unfolding slots
  chosen-slots [] = refl
  chosen-slots (a ∷ []) = refl
  chosen-slots (a ∷ b ∷ l) = refl

  loop-chosen :
      (ps : List (Position W))
      → let s = weakest_from 0 ps no_weakest in
        chosen s.first ++ chosen s.second ≡ map (λ x. x.0) (take 2 (weakest_first ps))
  unfolding slots
  loop-chosen ps =
      ap (λ s. chosen s.first ++ chosen s.second) (weakest_from-slots 0 ps [])
      ∙ chosen-slots (weakest_first ps)

  -- The gate writes nothing unless both equities are positive and the drawdown reaches the limit.
  -- Then it writes the indices of the first two candidates of the stable ascending sort by pnl,
  -- or of all if there are fewer.
  pub check_portfolio_drawdown_lem :
      (ps : List (Position W)) (current baseline : W) (config : RiskConfig)
      → (check_portfolio_drawdown ps current baseline config).0 ≡ (
          if le current nought
            || le baseline nought
            || lt (neg (of_int config.portfolio_drawdown_limit_pct)) (pnl_pct_of current baseline)
          then []
          else map (λ x. x.0) (take 2 (weakest_first ps)))
  unfolding check_portfolio_drawdown
  check_portfolio_drawdown_lem ps current baseline config = rw (← loop-chosen ps) (ground arith)

  -- One candidate stands before another: a smaller pnl, or an equal one and a smaller index.
  abbrev pub Before : Candidate W → Candidate W → Type 0
  Before x y = (lt y.1 x.1 ≡ false) × ((x.1 ≺ y.1) ⊎ (x.0 < y.0))

  abbrev pub IsRanked : List (Candidate W) → Type ℓ
  IsRanked [] = Unit
  IsRanked (x ∷ l) = All (λ y. Before x y) l × IsRanked l

  abbrev pub IsNumber : Candidate W → Type 0
  IsNumber x = x.1 ≼ x.1
