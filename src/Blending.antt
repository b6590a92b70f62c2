-- ===== src/Blending.antt =====
-- core/src/portfolio/blending.c: the weighted blend of the strategies' signals.
pub mod Laws
mod Tests
use mathlib.Core.List.{foldl}
use alpha_fincial_pipline_c.Prelude.{
  ℕ, Bool, true, false, ◌&&◌, ◌||◌, Option, none, some, List, [], ◌∷◌, ◌++◌, length, if◌then◌else◌,
}
use alpha_fincial_pipline_c.Prelude.Int.{pos}
use alpha_fincial_pipline_c.Domain.{Signal, buy, sell, hold, is_buy, is_sell}
use alpha_fincial_pipline_c.Double.{Double, ◌⊕◌, ◌⊖◌, ◌⊗◌, ◌⊘◌, nought, one, round_dp}

pub record BlendInput {ℓ} (W : Type ℓ) : Type ℓ where
  pub signal : Signal
  pub confidence : W
  pub weight : W

pub record BlendResult {ℓ} (W : Type ℓ) : Type ℓ where
  pub signal : Signal
  pub confidence : W
  pub weighted_score : W
  pub conflict : Bool

-- The variables of the second loop.
pub record Blend {ℓ} (W : Type ℓ) : Type ℓ where
  pub score : W
  pub confidence : W
  pub has_buy : Bool
  pub has_sell : Bool

module _ {ℓ} {W : Type ℓ} ⦃d : Double W⦄ where
  open d use {lit, lt, le, neg, of_int}

  abbrev pub blend_threshold : W
  blend_threshold = lit 15 2

  unfoldable pub clamp01 : W → W
  clamp01 value = if lt value nought then nought else if lt one value then one else value

  unfoldable pub signal_score : Signal → W
  signal_score signal = if is_buy signal then one else if is_sell signal then neg one else nought

  -- `weight` of pass 1.
  abbrev pub counted_weight : BlendInput W → W
  counted_weight input = if lt nought input.weight then input.weight else nought

  -- Pass 1.
  unfoldable pub total_weight : List (BlendInput W) → W
  total_weight = foldl (λ total input. total ⊕ counted_weight input) nought

  -- `raw_weight` of pass 2.
  abbrev pub raw_weight : BlendInput W → W
  raw_weight input = if lt nought input.weight then input.weight else nought

  -- The weight of an input, of `count` inputs with the weights' total `total`.
  abbrev pub weight_of : ℕ → W → BlendInput W → W
  weight_of count total input =
      let norm_factor = if lt nought total then total else one in
      let equal_weight = if le total nought then one ⊘ of_int (pos count) else nought in
      if lt nought total then raw_weight input ⊘ norm_factor else equal_weight

  -- One round of pass 2.
  unfoldable pub blend_step : ℕ → W → Blend W → BlendInput W → Blend W
  unfolding clamp01 signal_score
  blend_step count total s input =
      let confidence = clamp01 input.confidence in
      let weight = weight_of count total input in
      record {
        score = s.score ⊕ signal_score input.signal ⊗ weight ⊗ confidence;
        confidence = s.confidence ⊕ confidence ⊗ weight;
        has_buy = if is_buy input.signal then true else s.has_buy;
        has_sell =
            if is_buy input.signal
            then s.has_sell
            else if is_sell input.signal
            then true
            else s.has_sell;
      }

  abbrev pub no_blend : Blend W
  no_blend = record { score = nought; confidence = nought; has_buy = false; has_sell = false }

  unfoldable pub blend_all : List (BlendInput W) → Blend W
  unfolding blend_step total_weight
  blend_all inputs = foldl (blend_step (length inputs) (total_weight inputs)) no_blend inputs

  unfoldable pub decide_signal : W → Signal
  decide_signal score =
      if lt blend_threshold score
      then buy
      else if lt score (neg blend_threshold)
      then sell
      else hold

  abbrev pub blend_default : BlendResult W
  blend_default = record {
    signal = hold;
    confidence = nought;
    weighted_score = nought;
    conflict = false;
  }

  unfoldable pub blend_signals : Option (List (BlendInput W)) → BlendResult W
  unfolding decide_signal
  blend_signals none = blend_default
  blend_signals (some []) = blend_default
  blend_signals (some (input ∷ inputs)) =
      let s = blend_all (input ∷ inputs) in
      record {
        signal = decide_signal s.score;
        confidence = round_dp (clamp01 s.confidence) (pos 4);
        weighted_score = round_dp s.score (pos 6);
        conflict = s.has_buy && s.has_sell;
      }

  abbrev pub leg : Bool → Signal → W → W → List (BlendInput W)
  leg present signal confidence weight =
      if present
      then record { signal = signal; confidence = confidence; weight = weight } ∷ []
      else []

  unfoldable pub blend_ab : Bool → Signal → W → Bool → Signal → W → W → BlendResult W
  blend_ab has_a a_signal a_confidence has_b b_signal b_confidence blend_ratio =
      let ratio = clamp01 blend_ratio in
      blend_signals (
        some
          (leg has_a a_signal a_confidence (one ⊖ ratio) ++ leg has_b b_signal b_confidence ratio))
