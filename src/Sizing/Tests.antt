-- ===== src/Sizing/Tests.antt =====
-- Tests of core/src/portfolio/sizing.c, in millionths.
use alpha_fincial_pipline_c.Prelude.{◌≡◌, refl, true, false}
use alpha_fincial_pipline_c.Prelude.Int.{pos, ◌+ℤ◌}
use alpha_fincial_pipline_c.Double.{one, ◌⊕◌, ◌≼◌}
use alpha_fincial_pipline_c.Double.Fixed.{fixed_double, Fixed-IsOrdered}
use alpha_fincial_pipline_c.Sizing.{max_position_denominator}
use alpha_fincial_pipline_c.Sizing.Gate.{max_position_denominator_bounds}

-- A paper account whose seed capital is above its value.
max_position_denominator_bounds_example :
    (fixed_double.le one
        (max_position_denominator true (pos 800000000) (pos 900000000) (pos 5000000))
      ≡ true)
    × (true ≡ true
        → (pos 800000000
            ≼ max_position_denominator true (pos 800000000) (pos 900000000) (pos 5000000))
          × (pos 900000000
              ≼ max_position_denominator true (pos 800000000) (pos 900000000) (pos 5000000)))
    × (true ≡ false
        → fixed_double.le
            (pos 800000000 ⊕ pos 5000000)
            (max_position_denominator true (pos 800000000) (pos 900000000) (pos 5000000))
          ≡ true)
unfolding ◌+ℤ◌
max_position_denominator_bounds_example =
    max_position_denominator_bounds Fixed-IsOrdered true (pos 800000000) (pos 900000000)
      (pos 5000000) refl refl refl refl

seed : max_position_denominator true (pos 800000000) (pos 900000000) (pos 5000000) ≡ pos 900000000
unfolding max_position_denominator
seed = refl
