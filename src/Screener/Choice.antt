-- ===== src/Screener/Choice.antt =====
-- The inner loop of `alpha_screener_select` of core/src/indicators/screener.c: the best candidate
-- that is not yet selected, the earliest of equal ones.
use alpha_fincial_pipline_c.Prelude.{
  if◌then◌else◌, ℕ, suc, ◌+◌, ◌<◌, ◌≡◌, ◌∙◌, sym, ap, ◌⊎◌, inl, inr, true, false, Option, none,
  some, List, [], ◌∷◌, arith, length, get_elem?, Bool-cases,
}
use native.Mathlib.Decide.{dec_lt}
use mathlib.Core.Path.{subst}
use alpha_fincial_pipline_c.Double.{Double, ◌≺◌, ◌≼◌}
use alpha_fincial_pipline_c.Double.Order.{not-lt-trans, IsOrdered, not-lt-trans, lt_trans}
use alpha_fincial_pipline_c.Screener.{
  is_better, best_step, ScreenerScore, is_selected, score_at, best_from,
}

module _ {ℓ} {W : Type ℓ} ⦃d : Double W⦄ (cs : List (ScreenerScore W)) where
  -- Candidate `i` passes.
  abbrev pub Passes : ℕ → Type ℓ
  Passes i = (c : ScreenerScore W) × (get_elem? cs i ≡ some c) × (c.passes ≡ true)

  -- The scores of passing candidates are numbers.
  abbrev pub HasNumbers : Type ℓ
  HasNumbers = (i : ℕ) → Passes i → score_at cs i ≼ score_at cs i

  abbrev pub Eligible : List ℕ → ℕ → Type ℓ
  Eligible selected i = Passes i × (is_selected i selected ≡ false)

  module _ (selected : List ℕ) where
    -- `b` is the best of the eligible candidates before `n`, the earliest of equal ones.
    pub record IsBest (n b : ℕ) : Type ℓ where
      pub within : b < n
      pub eligible : Eligible selected b
      pub above : (j : ℕ) → j < b → Eligible selected j → score_at cs j ≺ score_at cs b
      pub not_below :
          (j : ℕ)
          → b < j
          → j < n
          → Eligible selected j
          → d.lt (score_at cs b) (score_at cs j) ≡ false

    abbrev pub BestOf : ℕ → Option ℕ → Type ℓ
    BestOf n none = (j : ℕ) → j < n → ¬ Eligible selected j
    BestOf n (some b) = IsBest n b

    last_or_before : (j n : ℕ) → j < n + 1 → (j ≡ n) ⊎ (j < n)
    last_or_before j n h = omega arith

    skip : (n : ℕ) (best : Option ℕ) → ¬ Eligible selected n → BestOf n best → BestOf (n + 1) best
    skip n none no_n all = λ j h e. elim (last_or_before j n h) [
      | inl p ↦ no_n (subst (Eligible selected) p e)
      | inr p ↦ all j p e
    ]
    skip n (some b) no_n best = record {
      within = omega (arith, best.within);
      eligible = best.eligible;
      above = best.above;
      not_below = λ j l h e. elim (last_or_before j n h) [
        | inl p ↦ absurd (no_n (subst (Eligible selected) p e))
        | inr p ↦ best.not_below j l p e
      ];
    }

    take_first : (n : ℕ) → Eligible selected n → BestOf n none → IsBest (n + 1) n
    take_first n e all = record {
      within = omega arith;
      eligible = e;
      above = λ j h f. absurd (all j h f);
      not_below = λ j l h f. absurd (omega arith);
    }

    keep : (n b : ℕ) → d.lt (score_at cs b) (score_at cs n) ≡ false → IsBest n b → IsBest (n + 1) b
    keep n b p best = record {
      within = omega (arith, best.within);
      eligible = best.eligible;
      above = best.above;
      not_below = λ j l h e. elim (last_or_before j n h) [
        | inl q ↦ subst (λ k. d.lt (score_at cs b) (score_at cs k) ≡ false) (sym q) p
        | inr q ↦ best.not_below j l q e
      ];
    }

    module _ (laws : IsOrdered W) (numbers : HasNumbers) where
      replace :
          (n b : ℕ)
          → Eligible selected n
          → score_at cs b ≺ score_at cs n
          → IsBest n b
          → IsBest (n + 1) n
      replace n b e p best = record {
        within = omega arith;
        eligible = e;
        above = λ j h f. elim (dec_lt j b) [
          | yes q ↦ lt_trans laws _ _ _ (best.above j q f) p
          | no q ↦ elim (dec_lt b j) [
            | yes r ↦
                not-lt-trans laws _ _ _ (numbers b best.eligible.0) (numbers j f.0)
                  (best.not_below j r h f) p
            | no r ↦
                let same : b ≡ j = omega arith in subst (λ k. score_at cs k ≺ score_at cs n) same p
          ]
        ];
        not_below = λ j l h f. absurd (omega arith);
      }

      score_at-eq :
          (n : ℕ) (c : ScreenerScore W) → get_elem? cs n ≡ some c → score_at cs n ≡ c.score
      score_at-eq n c e = ground arith

      choose :
          (n : ℕ) (c : ScreenerScore W) (best : Option ℕ)
          → get_elem? cs n ≡ some c
          → Eligible selected n
          → BestOf n best
          → BestOf (n + 1) (if is_better cs c.score best then some n else best)
      choose n c none e el h = take_first n el h
      choose n c (some b) e el h = elim (Bool-cases (d.lt (score_at cs b) c.score)) [
        | inl p ↦ rw p (replace n b el (rw (score_at-eq n c e) p) h)
        | inr p ↦ rw p (keep n b (rw (score_at-eq n c e) p) h)
      ]

      passes_of :
          (n : ℕ) (c : ScreenerScore W) → get_elem? cs n ≡ some c → Passes n → c.passes ≡ true
      passes_of n c e (c', e', p) = ground arith

      -- One round keeps the best of the candidates seen.
      step :
          (n : ℕ) (c : ScreenerScore W) (best : Option ℕ)
          → get_elem? cs n ≡ some c
          → BestOf n best
          → BestOf (n + 1) (best_step cs selected n c best)
      unfolding best_step
      step n c best e h = elim (Bool-cases c.passes) [
        | inr p ↦ rw p (skip n best (λ el. clash (sym p ∙ passes_of n c e el.0)) h)
        | inl p ↦ elim (Bool-cases (is_selected n selected)) [
          | inl q ↦ rw (p, q) (skip n best (λ el. clash (sym el.1 ∙ q)) h)
          | inr q ↦ rw (p, q) (choose n c best e ((c, e, p), q) h)
        ]
      ]
        where
          clash : false ≡ true → ⊥
          clash r = cc

      -- `rest` is the list from index `n` on.
      abbrev IsRest : ℕ → List (ScreenerScore W) → Type ℓ
      IsRest n rest = (j k : ℕ) → j ≡ n + k → get_elem? cs j ≡ get_elem? rest k

      best_from-BestOf :
          (n m : ℕ) (rest : List (ScreenerScore W)) (best : Option ℕ)
          → IsRest n rest
          → m ≡ n + length rest
          → BestOf n best
          → BestOf m (best_from cs selected n rest best)
      unfolding best_from
      best_from-BestOf n m [] best at e h =
          let same : n ≡ m = omega arith in subst (λ k. BestOf k best) same h
      best_from-BestOf n m (c ∷ rest) best at e h =
          best_from-BestOf (n + 1) m rest (best_step cs selected n c best)
            (λ j k p. at j (suc k) (omega arith)) (omega arith)
            (step n c best (at n 0 (omega arith)) h)

      -- The loop over all candidates finds the best of the eligible ones, or that there is none.
      pub best_from_lem : BestOf (length cs) (best_from cs selected 0 cs none)
      best_from_lem =
          best_from-BestOf 0 (length cs) cs none (λ j k p. ap (get_elem? cs) (omega arith))
            (omega arith) (λ j h. absurd (omega arith))
