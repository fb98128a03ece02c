-- ===== src/DisplayTest.antt =====
-- tools/bb-display-test.c: the routines that draw. What is drawn comes out as a list of points, or of indices into the
-- framebuffer; the colour is passed on.
pub mod Signed
pub mod Bresenham
pub mod Error
pub mod Line
mod Tests
use imx8mp_building_blocks.Base.{
  ℕ, zero, suc, ◌+◌, ◌-◌, ◌*◌, ◌/◌, ◌%◌, ◌==◌, ◌&&◌, not, Bool, true, false, Option, none, some,
  List, [], ◌∷◌, ◌++◌, map, if◌then◌else◌,
}
use imx8mp_building_blocks.Base.Words.{int_mod, is_neg, int_add, int_sub, int_le, int_lt, minus_one}

abbrev pub abs : ℕ → ℕ
abs a = if is_neg a then int_sub 0 a else a

-- What draw_line computes of its two ends.
pub record Segment : Type 0 where
  pub dx : ℕ
  pub sx : ℕ
  pub dy : ℕ
  pub sy : ℕ
  pub x1 : ℕ
  pub y1 : ℕ

abbrev pub towards : ℕ → ℕ → ℕ
towards from to = if int_lt from to then 1 else minus_one

abbrev pub segment : ℕ → ℕ → ℕ → ℕ → Segment
segment x0 y0 x1 y1 = record {
  dx = abs (int_sub x1 x0);
  sx = towards x0 x1;
  dy = int_sub 0 (abs (int_sub y1 y0));
  sy = towards y0 y1;
  x1 = x1;
  y1 = y1;
}

abbrev pub ahead_of : ℕ × ℕ → Option (List (ℕ × ℕ)) → Option (List (ℕ × ℕ))
ahead_of p none = none
ahead_of p (some ps) = some (p ∷ ps)

-- The loop of draw_line, for at most as many rounds as are given: the points, none if it does not end in them.
unfoldable pub walk_line : ℕ → Segment → ℕ → ℕ → ℕ → Option (List (ℕ × ℕ))
walk_line zero l x y err = none
walk_line (suc rounds) l x y err =
    let e2 = int_add err err in
    let right = int_le l.dy e2 in
    let down = int_le e2 l.dx in
    let err' = if right then int_add err l.dy else err in
    let rest =
      walk_line rounds l (if right then int_add x l.sx else x) (if down then int_add y l.sy else y)
        (if down then int_add err' l.dx else err') in
    if (x == l.x1) && (y == l.y1) then some ((x, y) ∷ []) else ahead_of (x, y) rest

unfoldable pub draw_line : ℕ → ℕ → ℕ → ℕ → ℕ → Option (List (ℕ × ℕ))
unfolding walk_line
draw_line rounds x0 y0 x1 y1 =
    let l = segment x0 y0 x1 y1 in walk_line rounds l x0 y0 (int_add l.dx l.dy)

-- put_pixel: the index that is written. Coordinates are left unchecked above.
unfoldable pub put_pixel : ℕ → ℕ → ℕ → List ℕ
put_pixel stride x y =
    if not (is_neg x) && not (is_neg y) then (y * stride + x) % int_mod ∷ [] else []

abbrev pub cells : ℕ → ℕ → List ℕ
cells start zero = []
cells start (suc n) = start ∷ cells (start + 1) n

-- The rows of fill_rect: `n` of them from `y` on.
unfoldable pub fill_rows : ℕ → ℕ → ℕ → ℕ → ℕ → List ℕ
fill_rows stride x y w zero = []
fill_rows stride x y w (suc n) =
    cells ((y * stride + x) % int_mod) w ++ fill_rows stride x (y + 1) w n

-- A negative count makes no round.
abbrev pub rounds_of : ℕ → ℕ
rounds_of n = if is_neg n then 0 else n

-- What is left of a side from `at` on, and its length, ahead of the framebuffer.
abbrev pub clip : ℕ → ℕ → ℕ × ℕ
clip at length = if is_neg at then (0, int_add length at) else (at, length)

-- fill_rect
unfoldable pub fill_rect : ℕ → ℕ → ℕ → ℕ → ℕ → List ℕ
unfolding fill_rows
fill_rect stride x y w h =
    let (x', w') = clip x w in
    let (y', h') = clip y h in fill_rows stride x' y' (rounds_of w') (rounds_of h')

-- draw_rect: above, below, left and right.
unfoldable pub draw_rect : ℕ → ℕ → ℕ → ℕ → ℕ → List ℕ
unfolding fill_rect
draw_rect stride x y w h =
    fill_rect stride x y w 1
    ++ fill_rect stride x (int_sub (int_add y h) 1) w 1
    ++ fill_rect stride x y 1 h
    ++ fill_rect stride (int_sub (int_add x w) 1) y 1 h
