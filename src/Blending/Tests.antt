-- ===== src/Blending/Tests.antt =====
-- Tests of core/src/portfolio/blending.c, in millionths.
use alpha_fincial_pipline_c.Prelude.{◌≡◌, ◌↔◌, true, some, List, [], ◌∷◌, map}
use alpha_fincial_pipline_c.Prelude.Int.{pos, ℤ}
use alpha_fincial_pipline_c.Domain.{buy, sell, close}
use alpha_fincial_pipline_c.Double.Fixed.{fixed_double, Fixed-IsOrdered}
use alpha_fincial_pipline_c.Blending.{BlendInput, blend_signals}
use alpha_fincial_pipline_c.Blending.Laws.{
  blend_signals-close_as_hold, close_as_hold, Says, blend_signals-Says, clamp_weight,
  blend_signals-clamp_weight,
}

abbrev inputs : List (BlendInput ℤ)
inputs =
    record { signal = buy; confidence = pos 900000; weight = pos 500000 }
    ∷ record { signal = close; confidence = pos 1500000; weight = pos 0 }
    ∷ record { signal = sell; confidence = pos 200000; weight = pos 500000 }
    ∷ []

blend_signals-clamp_weight_example :
    blend_signals (some (map clamp_weight inputs)) ≡ blend_signals (some inputs)
blend_signals-clamp_weight_example = blend_signals-clamp_weight Fixed-IsOrdered inputs

blend_signals-Says_example :
    ((blend_signals (some inputs)).conflict ≡ true) ↔ (Says buy inputs × Says sell inputs)
blend_signals-Says_example = blend_signals-Says inputs

blend_signals-close_as_hold_example :
    blend_signals (some (map close_as_hold inputs)) ≡ blend_signals (some inputs)
blend_signals-close_as_hold_example = blend_signals-close_as_hold inputs
