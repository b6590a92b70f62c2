-- ===== src/Double.antt =====
-- What the C code does with a `double`: its literals, the IEEE operations, the comparisons, and the
-- calls of libm and of the C library's conversions. None of these is implemented in core/, so they
-- are parameters; core/src/domain/round.c is modelled on top of them.
pub mod Order
pub mod Fixed
use alpha_fincial_pipline_c.Prelude.{ℕ, Bool, List, ◌≡◌, true, if◌then◌else◌, take}
use alpha_fincial_pipline_c.Prelude.Int.{ℤ, pos, pos_part, ltb_ℤ}

pub record Double {ℓ} (W : Type ℓ) : Type ℓ where
  -- the literal m / 10 ^ k
  pub lit : ℕ → ℕ → W
  -- `(double)n`, and `(int64_t)x`, which truncates
  pub of_int : ℤ → W
  pub to_int : W → ℤ
  pub add : W → W → W
  pub sub : W → W → W
  pub mul : W → W → W
  pub div : W → W → W
  pub neg : W → W
  pub lt : W → W → Bool
  pub le : W → W → Bool
  -- `isfinite`, `fabs`, `floor`, `sqrt`, `pow`
  pub is_finite : W → Bool
  pub fabs : W → W
  pub floor : W → W
  pub sqrt : W → W
  pub pow : W → W → W
  -- the whole output of `"%.*f"`, and `strtod`
  pub print_fixed : ℕ → W → List ℕ
  pub strtod : List ℕ → W

module _ {ℓ} {W : Type ℓ} ⦃d : Double W⦄ where
  infixl 65 ◌⊕◌ ◌⊖◌
  infixl 70 ◌⊗◌ ◌⊘◌
  infix 50 ◌≺◌ ◌≼◌
  abbrev pub ◌⊕◌ : W → W → W
  ◌⊕◌ = d.add

  abbrev pub ◌⊖◌ : W → W → W
  ◌⊖◌ = d.sub

  abbrev pub ◌⊗◌ : W → W → W
  ◌⊗◌ = d.mul

  abbrev pub ◌⊘◌ : W → W → W
  ◌⊘◌ = d.div

  abbrev pub nought : W
  nought = d.lit 0 0

  abbrev pub one : W
  one = d.lit 1 0

  abbrev pub hundred : W
  hundred = d.lit 100 0

  -- The comparisons as statements.
  abbrev pub ◌≺◌ : W → W → Type 0
  x ≺ y = d.lt x y ≡ true

  abbrev pub ◌≼◌ : W → W → Type 0
  x ≼ y = d.le x y ≡ true

  -- `alpha_round_dp`: `snprintf` keeps 63 characters of the text in its buffer of 64.
  unfoldable pub round_dp : W → ℤ → W
  round_dp value ndigits0 =
      let ndigits = if ltb_ℤ ndigits0 (pos 0) then pos 0 else ndigits0 in
      d.strtod (take 63 (d.print_fixed (pos_part ndigits) value))
