-- ===== src/Screener/Select.antt =====
-- `alpha_screener_select` of core/src/indicators/screener.c: the indices that it writes are those
-- of a stable descending sort, cut off at `cap`.
use alpha_fincial_pipline_c.Prelude.{
  ◌≢◌, ℕ, zero, suc, ◌+◌, ◌≤◌, ◌<◌, ◌≡◌, ◌⊎◌, inl, inr, false, Option, none, some, List, [], ◌∷◌,
  ◌++◌, arith, length, length-append, All, All-append, lt-length,
}
use native.Mathlib.Decide.{dec_lt}
use alpha_fincial_pipline_c.Double.{Double, ◌≺◌}
use alpha_fincial_pipline_c.Double.Order.{IsOrdered}
use alpha_fincial_pipline_c.Screener.{
  ScreenerScore, is_selected, score_at, best_from, select_from, screener_select,
}
use alpha_fincial_pipline_c.Screener.Choice.{
  Passes, HasNumbers, Eligible, IsBest, BestOf, best_from_lem,
}

is_selected-append :
    (j b : ℕ) (selected : List ℕ)
    → is_selected j (selected ++ (b ∷ [])) ≡ false
    → (is_selected j selected ≡ false) × (b ≢ j)
unfolding is_selected
is_selected-append j b [] h = ground arith
is_selected-append j b (k ∷ selected) h = ground (arith, is_selected-append j b selected)

module _ {ℓ} {W : Type ℓ} ⦃d : Double W⦄ (cs : List (ScreenerScore W)) where
  -- Candidate `i` comes before candidate `j`: it scores higher, or no less and stands earlier.
  abbrev pub Before : ℕ → ℕ → Type 0
  Before i j =
      (score_at cs j ≺ score_at cs i) ⊎ ((d.lt (score_at cs i) (score_at cs j) ≡ false) × (i < j))

  abbrev pub IsRanked : List ℕ → Type 0
  IsRanked [] = Unit
  IsRanked (i ∷ l) = All (Before i) l × IsRanked l

  -- The selected indices pass, stand in rank order, and come before every other passing one.
  pub record IsChoice (selected : List ℕ) : Type ℓ where
    pub passing : All (Passes cs) selected
    pub ranked : IsRanked selected
    pub first : (j : ℕ) → Eligible cs selected j → All (λ i. Before i j) selected

  IsRanked-append :
      (selected : List ℕ) (b : ℕ)
      → All (λ i. Before i b) selected
      → IsRanked selected
      → IsRanked (selected ++ (b ∷ []))
  IsRanked-append [] b h r = (tt, tt)
  IsRanked-append (i ∷ l) b h r =
      (All-append (Before i) l (b ∷ []) r.0 (h.0, tt), IsRanked-append l b h.1 r.1)

  IsChoice-append :
      (selected : List ℕ) (b : ℕ)
      → IsChoice selected
      → IsBest cs selected (length cs) b
      → IsChoice (selected ++ (b ∷ []))
  IsChoice-append selected b c best = record {
    passing = All-append (Passes cs) selected (b ∷ []) c.passing (best.eligible.0, tt);
    ranked = IsRanked-append selected b (c.first b best.eligible) c.ranked;
    first = λ j e.
        let (before, ne) = is_selected-append j b selected e.1 in
        All-append (λ i. Before i j) selected (b ∷ []) (c.first j (e.0, before))
          (behind j ne (e.0, before), tt);
  }
    where
      behind : (j : ℕ) → b ≢ j → Eligible cs selected j → Before b j
      behind j ne e = elim (dec_lt j b) [
        | yes p ↦ inl (best.above j p e)
        | no p ↦
            let after : b < j = omega arith in
            inr (best.not_below j after (lt-length cs j e.0.0 e.0.1) e, after)
      ]

  -- The outcome: the choice is complete, or as long as allowed.
  pub record IsSelection (cap : ℕ) (out : List ℕ) : Type ℓ where
    pub choice : IsChoice out
    pub within : length out ≤ cap
    pub full : (length out ≡ cap) ⊎ ((j : ℕ) → ¬ Eligible cs out j)

  module _ (laws : IsOrdered W) (numbers : HasNumbers cs) where
    select_from-IsSelection :
        (left cap : ℕ) (selected : List ℕ)
        → length selected + left ≡ cap
        → IsChoice selected
        → IsSelection cap (select_from cs left selected)
    unfolding select_from
    select_from-IsSelection zero cap selected e c = record {
      choice = c;
      within = omega arith;
      full = inl (omega arith);
    }
    select_from-IsSelection (suc left) cap selected e c =
        go (best_from cs selected 0 cs none) (best_from_lem cs selected laws numbers)
          (λ b. select_from-IsSelection left cap (selected ++ (b ∷ [])))
      where
        go :
            (best : Option ℕ)
            → BestOf cs selected (length cs) best
            → ((b : ℕ)
                → length (selected ++ (b ∷ [])) + left ≡ cap
                → IsChoice (selected ++ (b ∷ []))
                → IsSelection cap (select_from cs left (selected ++ (b ∷ []))))
            → IsSelection cap (elim best [
              | none ↦ selected
              | some b ↦ select_from cs left (selected ++ (b ∷ []))
            ])
        go none h rest = record {
          choice = c;
          within = omega arith;
          full = inr (λ j e. h j (lt-length cs j e.0.0 e.0.1) e);
        }
        go (some b) h rest =
            rest b (omega (arith, length-append selected (b ∷ []))) (IsChoice-append selected b c h)

    -- If the scores of passing candidates are numbers, `alpha_screener_select` writes at most `cap`
    -- indices, all of passing candidates, by descending score and equal scores by index. Every
    -- passing candidate that it leaves out comes behind all of them, and it leaves none out unless
    -- it has written `cap`.
    pub screener_select-IsSelection : (cap : ℕ) → IsSelection cap (screener_select cs cap)
    unfolding screener_select
    screener_select-IsSelection cap =
        select_from-IsSelection cap cap [] (omega arith)
          (record { passing = tt; ranked = tt; first = λ j e. tt })
