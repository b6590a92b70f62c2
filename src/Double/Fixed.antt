-- ===== src/Double/Fixed.antt =====
-- A concrete arithmetic for the tests, exact and with no NaN: integers that count millionths.
use alpha_fincial_pipline_c.Prelude.{
  ℕ, ◌+◌, ◌*◌, ◌/◌, ◌^◌, true, List, [], ◌∷◌, if◌then◌else◌, arith, ltb,
}
use alpha_fincial_pipline_c.Prelude.Int.{
  ℤ, pos, pos_part, neg_part, ◌+ℤ◌, ◌-ℤ◌, ◌*ℤ◌, ltb_ℤ, leb_ℤ, quot_ℤ,
}
use alpha_fincial_pipline_c.Double.{Double}
use alpha_fincial_pipline_c.Double.Order.{IsOrdered}

abbrev pub unit : ℕ
unit = 1000000

abbrev pub read : List ℕ → ℤ
read [] = pos 0
read (sign ∷ []) = pos 0
read (sign ∷ magnitude ∷ l) = if ltb sign 1 then pos magnitude else pos 0 -ℤ pos magnitude

-- `print_fixed` drops the digits behind the places wanted, and writes a sign and a magnitude, which
-- `strtod` reads back.
instance abbrev pub fixed_double : Double ℤ
fixed_double = record {
  lit = λ m k. pos (m * unit / 10 ^ k);
  of_int = λ n. n *ℤ pos unit;
  to_int = λ x. quot_ℤ x (pos unit);
  add = λ x y. x +ℤ y;
  sub = λ x y. x -ℤ y;
  mul = λ x y. quot_ℤ (x *ℤ y) (pos unit);
  div = λ x y. quot_ℤ (x *ℤ pos unit) y;
  neg = λ x. pos 0 -ℤ x;
  lt = ltb_ℤ;
  le = leb_ℤ;
  is_finite = λ x. true;
  fabs = λ x. pos (pos_part x + neg_part x);
  floor = λ x. quot_ℤ x (pos unit) *ℤ pos unit;
  sqrt = λ x. x;
  pow = λ x y. x;
  print_fixed = λ n x.
      (if ltb_ℤ x (pos 0) then 1 else 0)
      ∷ ((pos_part x + neg_part x) * 10 ^ n / unit * unit / 10 ^ n)
      ∷ [];
  strtod = read;
}

pub Fixed-IsOrdered : IsOrdered ℤ
Fixed-IsOrdered = ground arith
