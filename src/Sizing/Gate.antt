-- ===== src/Sizing/Gate.antt =====
-- The bounds of the denominator of core/src/portfolio/sizing.c.
use alpha_fincial_pipline_c.Prelude.{◌≡◌, Bool, true, false, arith}
use alpha_fincial_pipline_c.Double.{Double, ◌⊕◌, ◌≼◌, one}
use alpha_fincial_pipline_c.Double.Order.{IsOrdered, le_of_not_lt}
use alpha_fincial_pipline_c.Sizing.{max_position_denominator}

module _ {ℓ} {W : Type ℓ} ⦃d : Double W⦄ (laws : IsOrdered W) where
  -- On numbers the denominator is at least one. In a paper account it is also at least the total
  -- value and the seed capital, and in another account at least the total value with the purchase.
  pub max_position_denominator_bounds :
      (paper : Bool) (total seed intended : W)
      → d.le one one ≡ true
      → total ≼ total
      → seed ≼ seed
      → d.le (total ⊕ intended) (total ⊕ intended) ≡ true
      → let denominator = max_position_denominator paper total seed intended in
        (d.le one denominator ≡ true)
        × (paper ≡ true → (total ≼ denominator) × (seed ≼ denominator))
        × (paper ≡ false → d.le (total ⊕ intended) denominator ≡ true)
  unfolding max_position_denominator
  max_position_denominator_bounds true total seed intended n1 nt ns nb = ground (
    arith,
    laws.lt_iff total seed,
    le_of_not_lt laws total seed nt ns,
    laws.lt_iff total one,
    le_of_not_lt laws total one nt n1,
    laws.lt_iff seed one,
    le_of_not_lt laws seed one ns n1,
    laws.le_trans total seed one,
    laws.le_trans seed total one,
  )
  max_position_denominator_bounds false total seed intended n1 nt ns nb =
      ground
        (arith, laws.lt_iff one (total ⊕ intended), le_of_not_lt laws one (total ⊕ intended) n1 nb)
