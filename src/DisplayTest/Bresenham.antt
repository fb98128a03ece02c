-- ===== src/DisplayTest/Bresenham.antt =====
-- The choices of draw_line in tools/bb-display-test.c, with the error as a difference of natural numbers.
use imx8mp_building_blocks.Base.{
  ℕ, zero, suc, ◌+◌, ◌*◌, ◌≤◌, ◌<◌, max, ◌≡◌, refl, leb, Bool, true, false, arith, dec_le,
}

leb-true : {a b : ℕ} → a ≤ b → leb a b ≡ true
leb-true h = ground arith

leb-false : {a b : ℕ} → b < a → leb a b ≡ false
leb-false h = ground arith

-- `n` and `m` are the steps that are left along the longer side, which has `a` steps, and the shorter one, of `b`. The
-- error is a + b * n - (b + a * m).
pub record Major (a b n m : ℕ) : Type 0 where
  pub longer : b ≤ a
  pub left : n ≤ a
  pub left_short : m ≤ b
  pub low : 2 * (a * m) + b ≤ 2 * a + 2 * (b * n)
  pub high : 2 * (b * n) ≤ a + 2 * (a * m)

-- The tests of the loop: a step to the side of `a`, and one to the side of `b`.
abbrev pub steps : ℕ → ℕ → ℕ → ℕ → Bool
steps a b n m = leb (2 * (b + a * m)) (2 * (a + b * n) + b)

-- Whether a step is made, and what is left after it.
pub data Moved : Bool → ℕ → ℕ → Type 0 where
  moves : (n : ℕ) → Moved true (suc n) n
  stays : (n : ℕ) → Moved false n n

Major-start : (a b : ℕ) → b ≤ a → Major a b a b
Major-start a b h = record {
  longer = h;
  left = omega arith;
  left_short = omega arith;
  low = omega arith;
  high = omega arith;
}

Major-end : (a b m : ℕ) → Major a b 0 m → m ≡ 0
Major-end a b zero v = refl
Major-end a b (suc m) v = let low = v.low in let short = v.left_short in absurd (omega arith)

Major-steps : (a b n m : ℕ) → Major a b (suc n) m → steps a b (suc n) m ≡ true
Major-steps a b n m v = let low = v.low in ground arith

-- What is left after a round that makes no step to the shorter side, and after one that makes one.
Major-level :
    (a b n m : ℕ) → Major a b (suc n) m → 2 * (b + a * m) + a < 2 * (a + b * suc n) → Major a b n m
Major-level a b n m v level =
    let low = v.low in
    let high = v.high in
    let left = v.left in
    let longer = v.longer in
    record {
      longer = longer;
      left = omega arith;
      left_short = v.left_short;
      low = omega arith;
      high = omega arith;
    }

Major-down :
    (a b n m : ℕ)
    → Major a b (suc n) (suc m)
    → 2 * (a + b * suc n) ≤ 2 * (b + a * suc m) + a
    → Major a b n m
Major-down a b n m v down =
    let low = v.low in
    let high = v.high in
    let left = v.left in
    let longer = v.longer in
    let short = v.left_short in
    record {
      longer = longer;
      left = omega arith;
      left_short = omega arith;
      low = omega arith;
      high = omega arith;
    }

Major-rest :
    (a b n m : ℕ)
    → Major a b (suc n) m
    → (m' : ℕ) × Moved (steps b a m (suc n)) m m' × Major a b n m'
Major-rest a b n zero v =
    let left = v.left in
    let level : 2 * (b + a * 0) + a < 2 * (a + b * suc n) = omega arith in
    (0, rw (leb-false level) (stays 0), Major-level a b n 0 v level)
Major-rest a b n (suc m) v = elim (dec_le (2 * (a + b * suc n)) (2 * (b + a * suc m) + a)) [
  | yes down ↦ (m, rw (leb-true down) (moves m), Major-down a b n m v down)
  | no not_down ↦
      let level : 2 * (b + a * suc m) + a < 2 * (a + b * suc n) = omega arith in
      (suc m, rw (leb-false level) (stays (suc m)), Major-level a b n (suc m) v level)
]

-- A state of the loop with `k` rounds left, of a line that is wider than tall or the other way round.
pub data At (a b : ℕ) : ℕ → ℕ → ℕ → Type 0 where
  wide : {k m : ℕ} → Major a b k m → At a b k k m
  tall : {k n : ℕ} → Major b a k n → At a b k n k

pub record Next (a b k n m : ℕ) : Type 0 where
  pub rest_x : ℕ
  pub rest_y : ℕ
  pub x_moves : Moved (steps a b n m) n rest_x
  pub y_moves : Moved (steps b a m n) m rest_y
  pub goes_on : At a b k rest_x rest_y

pub At-start : (a b : ℕ) → At a b (max a b) a b
At-start a b = elim (dec_le b a) [
  | yes h ↦ let larger : max a b ≡ a = omega arith in rw larger (wide (Major-start a b h))
  | no h ↦
      let larger : max a b ≡ b = omega arith in rw larger (tall (Major-start b a (omega arith)))
]

pub At-end : {a b n m : ℕ} → At a b 0 n m → (n ≡ 0) × (m ≡ 0)
At-end (wide v) = (refl, Major-end _ _ _ v)
At-end (tall v) = (Major-end _ _ _ v, refl)

pub At-Next : {a b k n m : ℕ} → At a b (suc k) n m → Next a b k n m
At-Next {a} {b} {k} (wide {m = m} v) =
    let (rest, moved, left) = Major-rest a b k m v in
    record {
      rest_x = k;
      rest_y = rest;
      x_moves = rw (Major-steps a b k m v) (moves k);
      y_moves = moved;
      goes_on = wide left;
    }
At-Next {a} {b} {k} (tall {n = n} v) =
    let (rest, moved, left) = Major-rest b a k n v in
    record {
      rest_x = rest;
      rest_y = k;
      x_moves = moved;
      y_moves = rw (Major-steps b a k n v) (moves k);
      goes_on = tall left;
    }

pub At-le : {a b k n m : ℕ} → At a b k n m → (n ≤ a) × (m ≤ b)
At-le (wide v) = (v.left, v.left_short)
At-le (tall v) = (v.left_short, v.left)
