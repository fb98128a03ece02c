-- ===== src/DisplayTest/Error.antt =====
-- The error of draw_line in tools/bb-display-test.c: its tests as C's int, and what a round makes of it.
use imx8mp_building_blocks.Base.{
  ℕ, ◌+◌, ◌*◌, ◌^◌, ◌≤◌, ◌≡◌, ◌∙◌, refl, ap, ap₂, leb, Bool, if◌then◌else◌, arith,
}
use native.Mathlib.Nat.{mul-le-mul}
use imx8mp_building_blocks.Base.Words.{int_add, int_le}
use imx8mp_building_blocks.DisplayTest.Signed.{signed, room, int_le-signed}
use imx8mp_building_blocks.DisplayTest.Bresenham.{Moved, moves, stays, steps}

-- The coordinates stay below this.
abbrev pub limit : ℕ
limit = 2 ^ 14

signed_eq : (s t s' t' : ℕ) → s + t' ≡ s' + t → t ≤ room → t' ≤ room → signed s t ≡ signed s' t'
signed_eq s t s' t' e h h' = omega arith

abbrev pub error_at : ℕ → ℕ → ℕ → ℕ → ℕ
error_at a b n m = signed (a + b * n) (b + a * m)

module _ (a b n m : ℕ) (fits : b + a * m ≤ 2 ^ 29) (fits' : a + b * n ≤ 2 ^ 29) (a_fits : a ≤ limit)
    (b_fits : b ≤ limit) where
  doubled :
      int_add (error_at a b n m) (error_at a b n m) ≡ signed (2 * (a + b * n)) (2 * (b + a * m))
  doubled = omega arith

  pub steps_right :
      int_le (signed 0 b) (int_add (error_at a b n m) (error_at a b n m)) ≡ steps a b n m
  steps_right =
      ap (int_le (signed 0 b)) doubled
      ∙ int_le-signed 0 b (2 * (a + b * n)) (2 * (b + a * m)) (omega arith) (omega arith)
          (omega arith) (omega arith)
      ∙ ap₂ leb (omega arith) (omega arith)

  a_signed : a ≡ signed a 0
  a_signed = omega arith

  pub steps_down : int_le (int_add (error_at a b n m) (error_at a b n m)) a ≡ steps b a m n
  steps_down =
      ap₂ int_le doubled a_signed
      ∙ int_le-signed (2 * (a + b * n)) (2 * (b + a * m)) a 0 (omega arith) (omega arith)
          (omega arith) (omega arith)
      ∙ ap₂ leb (omega arith) (omega arith)

-- The error after a round.
abbrev pub error_after : ℕ → ℕ → ℕ → Bool → Bool → ℕ
error_after a b e right down =
    let e' = if right then int_add e (signed 0 b) else e in if down then int_add e' a else e'

pub error-next :
    (a b : ℕ) {n m n' m' : ℕ} {right down : Bool}
    → b + a * m ≤ 2 ^ 29
    → a + b * n ≤ 2 ^ 29
    → a ≤ limit
    → b ≤ limit
    → Moved right n n'
    → Moved down m m'
    → error_after a b (error_at a b n m) right down ≡ error_at a b n' m'
error-next a b h h' a_fits b_fits (moves n) (moves m) = omega arith
error-next a b h h' a_fits b_fits (moves n) (stays m) = omega arith
error-next a b h h' a_fits b_fits (stays n) (moves m) = omega arith
error-next a b h h' a_fits b_fits (stays n) (stays m) = refl

pub product_fits : (a b m : ℕ) → a ≤ limit → b ≤ limit → m ≤ b → b + a * m ≤ 2 ^ 29
product_fits a b m h h' le =
    let m_fits : m ≤ limit = omega arith in omega (arith, mul-le-mul h m_fits)

pub start-error : (a b : ℕ) → a ≤ limit → b ≤ limit → int_add a (signed 0 b) ≡ error_at a b a b
start-error a b h h' =
    let sum : int_add a (signed 0 b) ≡ signed a b = omega arith in
    let fits = product_fits a b b h h' (omega arith) in
    sum ∙ signed_eq a b (a + b * a) (b + a * b) (omega arith) (omega arith) (omega arith)
