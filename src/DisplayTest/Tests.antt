-- ===== src/DisplayTest/Tests.antt =====
-- Lines and rectangles on a screen of eight pixels to a row.
use imx8mp_building_blocks.Base.{ℕ, suc, ◌≡◌, refl, max, some, List, [], ◌∷◌, arith}
use imx8mp_building_blocks.Base.Words.{minus_one}
use imx8mp_building_blocks.DisplayTest.{draw_line, fill_rect, draw_rect}
use imx8mp_building_blocks.DisplayTest.Line.{PathTo, gap, draw_line-PathTo}

draw_line-PathTo_example :
    let k = max (gap 5 1) (gap 1 3) in
    (ps : List (ℕ × ℕ)) × (draw_line (suc k) 5 1 1 3 ≡ some ps) × PathTo 1 3 k 5 1 ps
draw_line-PathTo_example =
    draw_line-PathTo 5 1 1 3 (omega arith) (omega arith) (omega arith) (omega arith)

drawn : draw_line 5 5 1 1 3 ≡ some ((5, 1) ∷ (4, 2) ∷ (3, 2) ∷ (2, 3) ∷ (1, 3) ∷ [])
unfolding draw_line
drawn = refl

-- What lies left of the screen is left out.
clipped : fill_rect 8 minus_one 1 3 2 ≡ 8 ∷ 9 ∷ 16 ∷ 17 ∷ []
unfolding fill_rect
clipped = refl

-- What lies right of it is drawn at the start of the next row.
wrapped : fill_rect 8 7 0 2 1 ≡ 7 ∷ 8 ∷ []
unfolding fill_rect
wrapped = refl

bordered : draw_rect 8 1 1 2 2 ≡ 9 ∷ 10 ∷ 17 ∷ 18 ∷ 9 ∷ 17 ∷ 10 ∷ 18 ∷ []
unfolding draw_rect
bordered = refl
