-- ===== src/DisplayTest/Signed.antt =====
-- Differences of natural numbers as C's int.
use imx8mp_building_blocks.Base.{ℕ, ◌+◌, ◌-◌, ◌%◌, ◌^◌, ◌≤◌, ◌≡◌, leb, arith}
use imx8mp_building_blocks.Base.Words.{int_mod, int_min, int_add, int_le}

abbrev pub signed : ℕ → ℕ → ℕ
signed s t = (s + int_mod - t) % int_mod

abbrev pub room : ℕ
room = 2 ^ 30

pub add-signed :
    (s t s' t' : ℕ)
    → t ≤ room
    → t' ≤ room
    → int_add (signed s t) (signed s' t') ≡ signed (s + s') (t + t')
add-signed s t s' t' h h' = omega arith

pub signed-cancel : (s t c : ℕ) → t + c ≤ room → signed (s + c) (t + c) ≡ signed s t
signed-cancel s t c h = omega arith

shifted : (s t : ℕ) → s ≤ room → t ≤ room → int_add (signed s t) int_min ≡ s + int_min - t
shifted s t h h' = omega arith

pub int_le-signed :
    (s t s' t' : ℕ)
    → s ≤ room
    → t ≤ room
    → s' ≤ room
    → t' ≤ room
    → int_le (signed s t) (signed s' t') ≡ leb (s + t') (s' + t)
int_le-signed s t s' t' h1 h2 h3 h4 = rw (shifted s t h1 h2, shifted s' t' h3 h4) (ground arith)
