-- ===== src/Screener/Tests.antt =====
-- Tests of core/src/indicators/screener.c, in millionths.
use alpha_fincial_pipline_c.Prelude.{◌≡◌, refl, true, false, List, [], ◌∷◌, arith}
use alpha_fincial_pipline_c.Prelude.Int.{pos, ℤ, leb_ℤ}
use alpha_fincial_pipline_c.Double.Fixed.{fixed_double, Fixed-IsOrdered}
use alpha_fincial_pipline_c.Screener.{
  ScreenerScore, score_at, screener_select, select_from, best_from, best_step, is_selected,
}
use alpha_fincial_pipline_c.Screener.Select.{IsSelection, screener_select-IsSelection}

-- The best two are equal, and one does not pass.
abbrev candidates : List (ScreenerScore ℤ)
candidates =
    record { passes = true; score = pos 2 }
    ∷ record { passes = true; score = pos 5 }
    ∷ record { passes = false; score = pos 9 }
    ∷ record { passes = true; score = pos 5 }
    ∷ []

best_two : screener_select candidates 2 ≡ 1 ∷ 3 ∷ []
unfolding screener_select select_from best_from best_step is_selected
best_two = refl

leb_ℤ-refl : (x : ℤ) → leb_ℤ x x ≡ true
leb_ℤ-refl x = ground arith

screener_select-IsSelection_example : IsSelection candidates 2 (screener_select candidates 2)
screener_select-IsSelection_example =
    screener_select-IsSelection candidates Fixed-IsOrdered
      (λ i p. leb_ℤ-refl (score_at candidates i)) 2
