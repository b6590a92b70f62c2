-- ===== src/Double/Order.antt =====
-- The order of doubles, as IEEE 754 has it: total on numbers, and false at a NaN, which is the
-- value that is not `<=` itself.
use alpha_fincial_pipline_c.Prelude.{◌≡◌, ◌↔◌, ◌⊎◌, false, arith}
use alpha_fincial_pipline_c.Double.{Double, ◌≺◌, ◌≼◌}

pub record IsOrdered {ℓ} (W : Type ℓ) ⦃d : Double W⦄ : Type ℓ where
  pub lt_iff : (a b : W) → (a ≺ b) ↔ ((a ≼ b) × (d.le b a ≡ false))
  pub le_total : (a b : W) → a ≼ a → b ≼ b → (a ≼ b) ⊎ (b ≼ a)
  pub refl_of_le : (a b : W) → a ≼ b → (a ≼ a) × (b ≼ b)
  pub le_trans : (a b c : W) → a ≼ b → b ≼ c → a ≼ c

module _ {ℓ} {W : Type ℓ} ⦃d : Double W⦄ (laws : IsOrdered W) where
  open laws use {le_trans, le_total, lt_iff}

  pub lt_trans : (x y z : W) → x ≺ y → y ≺ z → x ≺ z
  lt_trans x y z h k =
      ground (arith, lt_iff x y, lt_iff y z, lt_iff x z, le_trans x y z, le_trans y z x)

  pub le_of_not_lt : (x y : W) → x ≼ x → y ≼ y → d.lt x y ≡ false → y ≼ x
  le_of_not_lt x y nx ny h = ground (arith, le_total x y nx ny, lt_iff x y)

  pub not-lt-trans : (x y z : W) → x ≼ x → y ≼ y → d.lt x y ≡ false → x ≺ z → y ≺ z
  not-lt-trans x y z nx ny h k =
      ground
        (arith, le_of_not_lt x y nx ny h, lt_iff x z, lt_iff y z, le_trans y x z, le_trans z y x)

  pub lt_asymm : (x y : W) → x ≺ y → d.lt y x ≡ false
  lt_asymm x y h = ground (arith, lt_iff x y, lt_iff y x)

  pub lt_of_lt_not_lt : (x y z : W) → y ≼ y → z ≼ z → x ≺ y → d.lt z y ≡ false → x ≺ z
  lt_of_lt_not_lt x y z ny nz h k =
      ground
        (arith, le_of_not_lt z y nz ny k, lt_iff x y, lt_iff x z, le_trans x y z, le_trans y z x)
