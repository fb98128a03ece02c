-- ===== src/Pool/Lifecycle/Tests.antt =====
-- Pools of two and three frames, with allocators that grant and refuse.
use imx8mp_building_blocks.Base.{
  ℕ, ◌+◌, ◌≡◌, refl, true, false, Option, none, some, [], ◌∷◌, ◌++◌, arith, ltb, if◌then◌else◌,
}
use imx8mp_building_blocks.Base.Words.{minus_one}
use imx8mp_building_blocks.Pool.{heap}
use imx8mp_building_blocks.Pool.Lifecycle.{free, free_frames, destroy_locks, destroy, init}
use imx8mp_building_blocks.Pool.Lifecycle.Freed.{granted, grants, free_all, init-destroy}

-- Addresses for the first two frames only.
abbrev two_blocks : ℕ → Option ℕ
two_blocks i = if ltb i 2 then some (i + 100) else none

init-destroy_example :
    let (status, p, released) = init two_blocks two_blocks true 3 64 false in
    (status ≡ minus_one)
    × (released ++ (destroy p).1
        ≡ free (heap 100) ∷ free (heap 101) ∷ free_frames ∷ destroy_locks ∷ [])
unfolding granted grants free_all
init-destroy_example = init-destroy two_blocks two_blocks 64 3 (omega arith)

accepts_two : (init two_blocks two_blocks true 2 64 false).0 ≡ 0
unfolding init
accepts_two = refl
