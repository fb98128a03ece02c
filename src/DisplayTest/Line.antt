-- ===== src/DisplayTest/Line.antt =====
-- draw_line of tools/bb-display-test.c ends, and draws a path from one end to the other.
use imx8mp_building_blocks.Base.{
  dec_lt, ℕ, zero, suc, ◌+◌, ◌-◌, ◌≤◌, ◌<◌, max, ◌≡◌, ◌∙◌, ◌⊎◌, refl, ap, ◌==◌, ◌&&◌, Bool, true,
  false, some, List, [], ◌∷◌, if◌then◌else◌, arith, inl, inr,
}
use imx8mp_building_blocks.Base.Words.{int_add, int_sub, int_le, int_lt, minus_one}
use imx8mp_building_blocks.DisplayTest.{
  Segment, abs, towards, segment, ahead_of, walk_line, draw_line,
}
use imx8mp_building_blocks.DisplayTest.Signed.{signed}
use imx8mp_building_blocks.DisplayTest.Error.{
  limit, error_at, error_after, steps_right, steps_down, error-next, product_fits, start-error,
}
use imx8mp_building_blocks.DisplayTest.Bresenham.{
  Moved, moves, stays, steps, At, wide, tall, At-le, At-start, At-end, At-Next,
}

-- Neighbours: at most one apart.
abbrev Near : ℕ → ℕ → Type 0
Near x x' = (x ≤ x' + 1) × (x' ≤ x + 1)

-- A path of `k` steps from a point to the end (x1, y1), each to one of the eight neighbours.
pub data PathTo (x1 y1 : ℕ) : ℕ → ℕ → ℕ → List (ℕ × ℕ) → Type 0 where
  ends : {x y : ℕ} → x ≡ x1 → y ≡ y1 → PathTo x1 y1 zero x y ((x, y) ∷ [])
  goes :
      {k x y x' y' : ℕ} {ps : List (ℕ × ℕ)}
      → Near x x'
      → Near y y'
      → PathTo x1 y1 k x' y' ps
      → PathTo x1 y1 (suc k) x y ((x, y) ∷ ps)

-- `n` steps of `s` lead from `x` to `x1`.
abbrev Ahead : ℕ → ℕ → ℕ → ℕ → Type 0
Ahead s x x1 n = ((s ≡ 1) × (x1 ≡ x + n)) ⊎ ((s ≡ minus_one) × (x ≡ x1 + n))

Moved-Ahead :
    {s x x1 n n' : ℕ} {d : Bool}
    → x1 ≤ limit
    → n ≤ limit
    → Ahead s x x1 n
    → Moved d n n'
    → Ahead s (if d then int_add x s else x) x1 n' × Near x (if d then int_add x s else x)
Moved-Ahead h h' ahead (stays n) = (ahead, (omega arith, omega arith))
Moved-Ahead h h' (inl (e, e')) (moves n) =
    rw e (inl (refl, omega arith), (omega arith, omega arith))
Moved-Ahead h h' (inr (e, e')) (moves n) =
    rw e (inr (refl, omega arith), (omega arith, omega arith))

not_there : (s x x1 n : ℕ) → Ahead s x x1 (suc n) → (x == x1) ≡ false
not_there s x x1 n (inl (e, e')) = ground arith
not_there s x x1 n (inr (e, e')) = ground arith

arrived : (s x x1 : ℕ) → Ahead s x x1 0 → x ≡ x1
arrived s x x1 (inl (e, e')) = omega arith
arrived s x x1 (inr (e, e')) = omega arith

-- One round that is not the last.
round :
    (rounds : ℕ) (l : Segment) (x y e : ℕ) (right down : Bool)
    → int_le l.dy (int_add e e) ≡ right
    → int_le (int_add e e) l.dx ≡ down
    → ((x == l.x1) && (y == l.y1)) ≡ false
    → walk_line (suc rounds) l x y e
      ≡ ahead_of
          (x, y)
          (walk_line rounds l
            (if right then int_add x l.sx else x)
            (if down then int_add y l.sy else y)
            (let e' = if right then int_add e l.dy else e in if down then int_add e' l.dx else e'))
unfolding walk_line
round rounds l x y e right down er ed here = rw (er, ed, here) refl

same : {x y : ℕ} → x ≡ y → (x == y) ≡ true
same e = ground arith

last_round :
    (l : Segment) (x y e : ℕ) → x ≡ l.x1 → y ≡ l.y1 → walk_line 1 l x y e ≡ some ((x, y) ∷ [])
unfolding walk_line
last_round l x y e h h' = rw (same h, same h') refl

and_false : (b : Bool) → (b && false) ≡ false
and_false true = refl
and_false false = refl

-- While steps are left the end is not reached.
on_the_way :
    (s x x1 s' y y1 : ℕ) {a b k n m : ℕ}
    → At a b (suc k) n m
    → Ahead s x x1 n
    → Ahead s' y y1 m
    → ((x == x1) && (y == y1)) ≡ false
on_the_way s x x1 s' y y1 (wide v) h h' = rw (not_there s x x1 _ h) refl
on_the_way s x x1 s' y y1 (tall v) h h' = rw (not_there s' y y1 _ h') (and_false (x == x1))

module _ (l : Segment) (b : ℕ) (height : l.dy ≡ signed 0 b) (a_fits : l.dx ≤ limit)
    (b_fits : b ≤ limit) (x1_fits : l.x1 ≤ limit) (y1_fits : l.y1 ≤ limit) where
  round-error :
      (rounds n m x y e : ℕ)
      → n ≤ l.dx
      → m ≤ b
      → e ≡ error_at l.dx b n m
      → ((x == l.x1) && (y == l.y1)) ≡ false
      → let right = steps l.dx b n m in
        let down = steps b l.dx m n in
        walk_line (suc rounds) l x y e
        ≡ ahead_of
            (x, y)
            (walk_line rounds l
              (if right then int_add x l.sx else x)
              (if down then int_add y l.sy else y)
              (error_after l.dx b (error_at l.dx b n m) right down))
  round-error rounds n m x y e n_fits m_fits ee here =
      let fits = product_fits l.dx b m a_fits b_fits m_fits in
      let fits' = product_fits b l.dx n b_fits a_fits n_fits in
      let right = steps l.dx b n m in
      let down = steps b l.dx m n in
      let err = error_at l.dx b n m in
      ap (walk_line (suc rounds) l x y) ee
      ∙ round rounds l x y err right down
          (ap (λ dy. int_le dy (int_add err err)) height
            ∙ steps_right l.dx b n m fits fits' a_fits b_fits)
          (steps_down l.dx b n m fits fits' a_fits b_fits) here
      ∙ ap
          (λ dy.
            ahead_of (x, y)
              (walk_line rounds l (if right then int_add x l.sx else x)
                (if down then int_add y l.sy else y)
                (let e' = if right then int_add err dy else err in
                  if down then int_add e' l.dx else e')))
          height

  walk_line-PathTo :
      (k n m x y e : ℕ)
      → At l.dx b k n m
      → Ahead l.sx x l.x1 n
      → Ahead l.sy y l.y1 m
      → e ≡ error_at l.dx b n m
      → (ps : List (ℕ × ℕ)) × (walk_line (suc k) l x y e ≡ some ps) × PathTo l.x1 l.y1 k x y ps
  walk_line-PathTo zero n m x y e at h h' ee =
      let (n_zero, m_zero) = At-end at in
      let x_there = arrived l.sx x l.x1 (rw n_zero at h) in
      let y_there = arrived l.sy y l.y1 (rw m_zero at h') in
      ((x, y) ∷ [], last_round l x y e x_there y_there, ends x_there y_there)
  walk_line-PathTo (suc k) n m x y e at h h' ee =
      let (n_fits, m_fits) = At-le at in
      let next = At-Next at in
      let (h_x, near_x) = Moved-Ahead x1_fits (omega arith) h next.x_moves in
      let (h_y, near_y) = Moved-Ahead y1_fits (omega arith) h' next.y_moves in
      let fits = product_fits l.dx b m a_fits b_fits m_fits in
      let fits' = product_fits b l.dx n b_fits a_fits n_fits in
      let e_next = error-next l.dx b fits fits' a_fits b_fits next.x_moves next.y_moves in
      let (ps, walked, path) =
        walk_line-PathTo k next.rest_x next.rest_y _ _ _ next.goes_on h_x h_y e_next in
      (
        (x, y) ∷ ps,
        round-error (suc k) n m x y e n_fits m_fits ee (on_the_way l.sx x l.x1 l.sy y l.y1 at h h')
            ∙ ap (ahead_of (x, y)) walked,
        goes near_x near_y path,
      )

-- The two ends of a line, and what draw_line computes of them.
abbrev pub gap : ℕ → ℕ → ℕ
gap from to = (from - to) + (to - from)

gap-abs : (from to : ℕ) → from < limit → to < limit → abs (int_sub to from) ≡ gap from to
gap-abs from to h h' = ground arith

gap-le : (from to : ℕ) → from < limit → to < limit → gap from to ≤ limit
gap-le from to h h' = omega arith

towards-Ahead :
    (from to : ℕ) → from < limit → to < limit → Ahead (towards from to) from to (gap from to)
towards-Ahead from to h h' = elim (dec_lt from to) [
  | yes up ↦ let less : int_lt from to ≡ true = ground arith in rw less (inl (refl, omega arith))
  | no down ↦
      let not_less : int_lt from to ≡ false = ground arith in rw not_less (inr (refl, omega arith))
]

-- Between any two points with coordinates below 2^14 the loop of draw_line ends: it draws a shortest path from the
-- first to the second by steps to one of the eight neighbours, in one round more than the larger difference of their
-- coordinates.
pub draw_line-PathTo :
    (x0 y0 x1 y1 : ℕ)
    → x0 < limit
    → y0 < limit
    → x1 < limit
    → y1 < limit
    → let k = max (gap x0 x1) (gap y0 y1) in
      (ps : List (ℕ × ℕ)) × (draw_line (suc k) x0 y0 x1 y1 ≡ some ps) × PathTo x1 y1 k x0 y0 ps
unfolding draw_line
draw_line-PathTo x0 y0 x1 y1 hx0 hy0 hx1 hy1 =
    let l = segment x0 y0 x1 y1 in
    let b = gap y0 y1 in
    let wide_eq : l.dx ≡ gap x0 x1 = gap-abs x0 x1 hx0 hx1 in
    let rounds : max l.dx b ≡ max (gap x0 x1) b = ap (λ w. max w b) wide_eq in
    let height : l.dy ≡ signed 0 b = ap (int_sub 0) (gap-abs y0 y1 hy0 hy1) in
    let a_fits : l.dx ≤ limit = rw wide_eq (gap-le x0 x1 hx0 hx1) in
    let b_fits : b ≤ limit = gap-le y0 y1 hy0 hy1 in
    let ahead : Ahead l.sx x0 x1 l.dx = rw wide_eq (towards-Ahead x0 x1 hx0 hx1) in
    let found =
      walk_line-PathTo l b height a_fits b_fits (omega arith) (omega arith) (max l.dx b) l.dx b x0
        y0 (int_add l.dx l.dy) (At-start l.dx b) ahead (towards-Ahead y0 y1 hy0 hy1)
        (ap (int_add l.dx) height ∙ start-error l.dx b a_fits b_fits) in
    rw rounds at found
