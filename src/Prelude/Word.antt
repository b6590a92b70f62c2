-- ===== src/Prelude/Word.antt =====
-- C's `unsigned` of 32 bits: wrap-around, subtraction, and the conversion from a signed integer.
use Prim.Native.Nat.{ℕ, ◌+◌, ◌-◌, ◌%◌, ◌^◌}
use alpha_fincial_pipline_c.Prelude.Int.{ℤ, pos, negsuc, ◌-ℤ◌}
use alpha_fincial_pipline_c.Prelude.Tests.{ltb, if◌then◌else◌}

abbrev pub word : ℕ
word = 2 ^ 32

abbrev pub u32 : ℕ → ℕ
u32 n = n % word

abbrev pub u32_sub : ℕ → ℕ → ℕ
u32_sub a b = (a + word - b) % word

abbrev pub to_u32 : ℤ → ℕ
to_u32 (pos n) = n % word
to_u32 (negsuc n) = word - 1 - n % word

-- The conversion to `int`, which gcc defines to wrap.
abbrev pub to_i32 : ℤ → ℤ
to_i32 z = let n = to_u32 z in if ltb n (2 ^ 31) then pos n else pos n -ℤ pos word
