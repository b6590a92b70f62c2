-- ===== src/Screener.antt =====
-- core/src/indicators/screener.c: the score of a ticker, and the choice of the best candidates.
pub mod Choice
pub mod Select
mod Tests
use mathlib.Core.List.{foldl}
use alpha_fincial_pipline_c.Prelude.{
  ℕ, zero, suc, ◌+◌, Bool, true, false, not, ◌||◌, Option, none, some, List, [], ◌∷◌, ◌++◌, length,
  get_elem?, ltb, ◌==◌, if◌then◌else◌,
}
use alpha_fincial_pipline_c.Prelude.Int.{pos}
use alpha_fincial_pipline_c.Double.{Double, ◌⊕◌, ◌⊘◌, nought}

abbrev pub min_data_days : ℕ
min_data_days = 5

pub record ScreenerBar {ℓ} (W : Type ℓ) : Type ℓ where
  pub volume : W
  pub change_pct : Option W

pub record ScreenerScore {ℓ} (W : Type ℓ) : Type ℓ where
  pub passes : Bool
  pub score : W

-- The scan of `out_indices` for `i`.
pub is_selected : ℕ → List ℕ → Bool
is_selected i [] = false
is_selected i (k ∷ selected) = let later = is_selected i selected in if k == i then true else later

module _ {ℓ} {W : Type ℓ} ⦃d : Double W⦄ where
  open d use {lt, le, fabs, of_int}

  abbrev pub change_of : Option W → W
  change_of none = nought
  change_of (some change_pct) = fabs change_pct

  abbrev pub screener_fail : ScreenerScore W
  screener_fail = record { passes = false; score = nought }

  -- The score of today's bar over the past bars.
  unfoldable pub score_over : ScreenerBar W → List (ScreenerBar W) → W → W → ScreenerScore W
  score_over today past vol_threshold pct_threshold =
      let change_pct = change_of today.change_pct in
      let past_sum = foldl (λ sum bar. sum ⊕ bar.volume) nought past in
      let past_count = length past in
      let avg_volume = if ltb 0 past_count then past_sum ⊘ of_int (pos past_count) else nought in
      let volume_ratio = if lt nought avg_volume then today.volume ⊘ avg_volume else nought in
      record {
        passes = le vol_threshold volume_ratio || le pct_threshold change_pct;
        score = volume_ratio ⊘ vol_threshold ⊕ change_pct ⊘ pct_threshold;
      }

  unfoldable pub screener_score : List (ScreenerBar W) → W → W → ScreenerScore W
  unfolding score_over
  screener_score [] vol_threshold pct_threshold = screener_fail
  screener_score (today ∷ past) vol_threshold pct_threshold =
      if ltb (length (today ∷ past)) min_data_days
      then screener_fail
      else score_over today past vol_threshold pct_threshold

  -- `candidates[i].score`
  abbrev pub score_at : List (ScreenerScore W) → ℕ → W
  score_at candidates i = elim (get_elem? candidates i) [ none ↦ nought | some c ↦ c.score ]

  -- `best < 0 || score > candidates[best].score`
  abbrev pub is_better : List (ScreenerScore W) → W → Option ℕ → Bool
  is_better candidates score none = true
  is_better candidates score (some best) = lt (score_at candidates best) score

  -- One round of the loop over the candidates, with `best` so far (`none` is -1).
  pub best_step : List (ScreenerScore W) → List ℕ → ℕ → ScreenerScore W → Option ℕ → Option ℕ
  best_step candidates selected i c best =
      if not c.passes
      then best
      else if is_selected i selected
      then best
      else if is_better candidates c.score best
      then some i
      else best

  -- The loop over the candidates from index `i` on.
  pub best_from : List (ScreenerScore W) → List ℕ → ℕ → List (ScreenerScore W) → Option ℕ → Option ℕ
  unfolding best_step
  best_from candidates selected i [] best = best
  best_from candidates selected i (c ∷ rest) best =
      best_from candidates selected (i + 1) rest (best_step candidates selected i c best)

  -- The outer loop, with `left` = `cap - selected` rounds to go at most.
  pub select_from : List (ScreenerScore W) → ℕ → List ℕ → List ℕ
  select_from candidates zero selected = selected
  select_from candidates (suc left) selected =
      elim (best_from candidates selected 0 candidates none) [
        | none ↦ selected
        | some best ↦ select_from candidates left (selected ++ (best ∷ []))
      ]

  -- The indices written, in order.
  unfoldable pub screener_select : List (ScreenerScore W) → ℕ → List ℕ
  screener_select candidates cap = select_from candidates cap []
