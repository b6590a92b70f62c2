-- ===== src/Blending/Laws.antt =====
-- What the blend of core/src/portfolio/blending.c reports and ignores.
use mathlib.Core.List.{foldl}
use alpha_fincial_pipline_c.Prelude.{
  ◌⊎◌, ◌∙◌, ap, ℕ, ◌≡◌, refl, map, length-map, ◌↔◌, Bool, true, false, ◌&&◌, ◌||◌, some, List, [],
  ◌∷◌, arith, if◌then◌else◌, length,
}
use alpha_fincial_pipline_c.Domain.{Signal, buy, sell, hold, is_buy, is_sell, is_close}
use alpha_fincial_pipline_c.Double.{Double, ◌≼◌, nought, one, ◌⊕◌}
use alpha_fincial_pipline_c.Double.Order.{IsOrdered}
use alpha_fincial_pipline_c.Blending.{
  counted_weight, raw_weight, no_blend, BlendInput, Blend, blend_step, blend_all, blend_signals,
  clamp01, total_weight,
}

-- Some input has the signal that the test recognises.
any_signal {ℓ} : {W : Type ℓ} → (Signal → Bool) → List (BlendInput W) → Bool
any_signal test [] = false
any_signal test (input ∷ inputs) = test input.signal || any_signal test inputs

-- Some input has the signal.
abbrev pub Says {ℓ} : {W : Type ℓ} → Signal → List (BlendInput W) → Type 0
Says signal [] = ⊥
Says signal (input ∷ inputs) = (input.signal ≡ signal) ⊎ Says signal inputs

is_buy-eq : (s : Signal) → (is_buy s ≡ true) ↔ (s ≡ buy)
is_buy-eq s = ground arith

is_sell-eq : (s : Signal) → (is_sell s ≡ true) ↔ (s ≡ sell)
is_sell-eq s = ground arith

any_signal-Says {ℓ} :
    {W : Type ℓ} (test : Signal → Bool) (signal : Signal)
    → ((s : Signal) → (test s ≡ true) ↔ (s ≡ signal))
    → (inputs : List (BlendInput W)) → (any_signal test inputs ≡ true) ↔ Says signal inputs
unfolding any_signal
any_signal-Says test signal same [] = ground arith
any_signal-Says test signal same (input ∷ inputs) =
    ground (arith, same input.signal, any_signal-Says test signal same inputs)

module _ {ℓ} {W : Type ℓ} ⦃d : Double W⦄ where
  open d use {neg, lt}

  step_flags :
      (n : ℕ) (total : W) (s : Blend W) (input : BlendInput W)
      → let r = blend_step n total s input in
        (r.has_buy ≡ (s.has_buy || is_buy input.signal))
        × (r.has_sell ≡ (s.has_sell || is_sell input.signal))
  unfolding blend_step
  step_flags n total s input = ground arith

  flags_lem :
      (n : ℕ) (total : W) (inputs : List (BlendInput W)) (s : Blend W)
      → let r = foldl (blend_step n total) s inputs in
        (r.has_buy ≡ (s.has_buy || any_signal is_buy inputs))
        × (r.has_sell ≡ (s.has_sell || any_signal is_sell inputs))
  unfolding any_signal
  flags_lem n total [] s = ground arith
  flags_lem n total (input ∷ inputs) s =
      ground
        (arith, flags_lem n total inputs (blend_step n total s input), step_flags n total s input)

  conflict-any_signal :
      (inputs : List (BlendInput W))
      → (blend_signals (some inputs)).conflict
        ≡ (any_signal is_buy inputs && any_signal is_sell inputs)
  unfolding blend_signals blend_all any_signal
  conflict-any_signal [] = refl
  conflict-any_signal (input ∷ inputs) =
      let all = input ∷ inputs in
      ground (arith, flags_lem (length all) (total_weight all) all no_blend)

  -- The blend of any inputs reports a conflict exactly if the signal of one of them is BUY and the
  -- signal of one of them is SELL. Weights and confidences play no part, and HOLD and CLOSE neither.
  pub blend_signals-Says :
      (inputs : List (BlendInput W))
      → ((blend_signals (some inputs)).conflict ≡ true) ↔ (Says buy inputs × Says sell inputs)
  blend_signals-Says inputs = rw (conflict-any_signal inputs) (
      ground (
        arith,
        any_signal-Says is_buy buy is_buy-eq inputs,
        any_signal-Says is_sell sell is_sell-eq inputs,
      ))

  -- Two inputs that the blend does not tell apart.
  pub record SameInput (a b : BlendInput W) : Type ℓ where
    pub same_buy : is_buy a.signal ≡ is_buy b.signal
    pub same_sell : is_sell a.signal ≡ is_sell b.signal
    pub same_confidence : a.confidence ≡ b.confidence
    pub same_counted : counted_weight a ≡ counted_weight b
    pub same_weight : raw_weight a ≡ raw_weight b

  step_congr :
      (n : ℕ) (total : W) (s : Blend W) {a b : BlendInput W}
      → SameInput a b
      → blend_step n total s a ≡ blend_step n total s b
  unfolding blend_step
  step_congr n total s h = rw (h.same_buy, h.same_sell, h.same_confidence, h.same_weight)

  module _ (f : BlendInput W → BlendInput W) (same : (a : BlendInput W) → SameInput (f a) a) where
    foldl_congr :
        (n : ℕ) (total : W) (s : Blend W) (inputs : List (BlendInput W))
        → foldl (blend_step n total) s (map f inputs) ≡ foldl (blend_step n total) s inputs
    foldl_congr n total s [] = refl
    foldl_congr n total s (a ∷ inputs) =
        ap (λ t. foldl (blend_step n total) t (map f inputs)) (step_congr n total s (same a))
        ∙ foldl_congr n total (blend_step n total s a) inputs

    weights_congr :
        (acc : W) (inputs : List (BlendInput W))
        → foldl (λ total input. total ⊕ counted_weight input) acc (map f inputs)
          ≡ foldl (λ total input. total ⊕ counted_weight input) acc inputs
    weights_congr acc [] = refl
    weights_congr acc (a ∷ inputs) =
        ap (λ w. foldl (λ total input. total ⊕ counted_weight input) (acc ⊕ w) (map f inputs))
          ((same a).same_counted)
        ∙ weights_congr (acc ⊕ counted_weight a) inputs

    blend_signals-map :
        (inputs : List (BlendInput W))
        → blend_signals (some (map f inputs)) ≡ blend_signals (some inputs)
    unfolding blend_signals blend_all total_weight
    blend_signals-map [] = refl
    blend_signals-map (a ∷ inputs) =
        let all = a ∷ inputs in
        rw (
          length-map all f,
          weights_congr nought all,
          foldl_congr (length all) (total_weight all) no_blend all,
        )

  abbrev pub close_as_hold : BlendInput W → BlendInput W
  close_as_hold input = record input {
    signal = if is_close input.signal then hold else input.signal;
  }

  -- Reading every CLOSE among the inputs as a HOLD changes nothing in the result of the blend.
  pub blend_signals-close_as_hold :
      (inputs : List (BlendInput W))
      → blend_signals (some (map close_as_hold inputs)) ≡ blend_signals (some inputs)
  blend_signals-close_as_hold = blend_signals-map close_as_hold (λ a. record {
    same_buy = ground arith;
    same_sell = ground arith;
    same_confidence = refl;
    same_counted = refl;
    same_weight = refl;
  })

  -- The weight where it is positive, and otherwise zero.
  abbrev pub clamp_weight : BlendInput W → BlendInput W
  clamp_weight input = record input {
    weight = if lt nought input.weight then input.weight else nought;
  }

  -- Under the laws of the order of doubles, replacing every weight that is not positive, a NaN among
  -- them, by zero changes nothing in the result of the blend.
  pub blend_signals-clamp_weight :
      IsOrdered W
      → (inputs : List (BlendInput W))
      → blend_signals (some (map clamp_weight inputs)) ≡ blend_signals (some inputs)
  blend_signals-clamp_weight laws = blend_signals-map clamp_weight (λ a. record {
    same_buy = refl;
    same_sell = refl;
    same_confidence = refl;
    same_counted = ground (arith, laws.lt_iff nought nought);
    same_weight = ground (arith, laws.lt_iff nought nought);
  })

  -- On a number `clamp01` lands in the unit interval, if 0 is at most 1.
  pub clamp01_bounds :
      IsOrdered W
      → (x : W) → x ≼ x
      → d.le nought one ≡ true
      → (nought ≼ clamp01 x) × (clamp01 x ≼ one)
  unfolding clamp01
  clamp01_bounds laws x num unit = ground (
    arith,
    laws.lt_iff x nought,
    laws.lt_iff one x,
    laws.le_total x nought num,
    laws.le_total x one num,
    laws.refl_of_le nought one unit,
  )
