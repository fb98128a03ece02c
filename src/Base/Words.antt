-- ===== src/Base/Words.antt =====
-- C's 32-bit `int` as its bit pattern, a number below 2^32. A pattern from 2^31 on is negative.
-- Atomic additions wrap; where the C sum overflows a plain `int`, the pattern is the two's
-- complement result.
use Prim.Native.Nat.{ℕ, ◌+◌, ◌-◌, ◌/◌, ◌%◌, ◌^◌, ◌<◌}
use mathlib.Core.Logic.{◌≢◌}
use mathlib.Core.Bool.{Bool}
use mathlib.Core.Option.{Option, none, some}
use native.Mathlib.Omega.{arith}
use native.Mathlib.Decide.{dec_lt}
use native.Mathlib.Nat.{div-add-mod}
use imx8mp_building_blocks.Base.Tests.{ltb, leb, ◌==◌, if◌then◌else◌}

abbrev pub int_mod : ℕ
int_mod = 2 ^ 32

abbrev pub int_min : ℕ
int_min = 2 ^ 31

-- The pattern of -1.
abbrev pub minus_one : ℕ
minus_one = int_mod - 1

abbrev pub is_neg : ℕ → Bool
is_neg a = leb int_min a

abbrev pub int_add : ℕ → ℕ → ℕ
int_add a b = (a + b) % int_mod

abbrev pub int_sub : ℕ → ℕ → ℕ
int_sub a b = (a + int_mod - b) % int_mod

-- a <= b as signed numbers: with the sign bit flipped the patterns are in order.
abbrev pub int_le : ℕ → ℕ → Bool
int_le a b = leb (int_add a int_min) (int_add b int_min)

abbrev pub int_lt : ℕ → ℕ → Bool
int_lt a b = ltb (int_add a int_min) (int_add b int_min)

-- `a % n` as an array index, for n > 0: the remainder has the sign of `a`, and a negative one is
-- outside every array.
abbrev pub index_mod : ℕ → ℕ → Option ℕ
index_mod a n = if is_neg a then (if (int_mod - a) % n == 0 then some 0 else none) else some (a % n)

-- Numbers less than `c` apart have different remainders.
pub mod_ne : (c m n : ℕ) → m < n → n < m + c → m % c ≢ n % c
mod_ne c m n lt near e = elim (dec_lt (m / c) (n / c)) [
  | yes p ↦ absurd (grind (arith, div-add-mod m c, div-add-mod n c))
  | no p ↦ absurd (grind (arith, div-add-mod m c, div-add-mod n c))
]
