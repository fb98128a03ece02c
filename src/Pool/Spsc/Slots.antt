-- ===== src/Pool/Spsc/Slots.antt =====
-- The slots of the frame array: reference counts, and the frames from one index up to another.
use imx8mp_building_blocks.Base.{
  ℕ, zero, suc, ◌+◌, ◌%◌, ◌≤◌, ◌<◌, ◌≡◌, refl, ap₂, ◌≢◌, List, [], ◌∷◌, ◌++◌, arith, ◌==◌,
  if◌then◌else◌, length, get_or, set, get_elem?, some, get_or-set_ne, ap,
}
use imx8mp_building_blocks.Pool.{Frame, zeroed, FramePool, update_frame}
use imx8mp_building_blocks.Pool.Spsc.{content}

abbrev pub refs : List Frame → ℕ → ℕ
refs fs i = (get_or fs i zeroed).refcount

-- The contents of the slots of the `n` indices from `r` on.
abbrev pub window : List Frame → ℕ → ℕ → ℕ → List Frame
window fs c r zero = []
window fs c r (suc n) = content (get_or fs (r % c) zeroed) ∷ window fs c (suc r) n

pub refs-set :
    (fs : List Frame) (i j : ℕ) (f : Frame)
    → i < length fs
    → refs (set fs i f) j ≡ (if i == j then f.refcount else refs fs j)
refs-set [] i j f h = absurd (omega arith)
refs-set (x ∷ xs) zero zero f h = refl
refs-set (x ∷ xs) zero (suc j) f h = ground arith
refs-set (x ∷ xs) (suc i) zero f h = ground arith
refs-set (x ∷ xs) (suc i) (suc j) f h = ground (arith, refs-set xs i j f)

pub get_elem?-eq-get_or :
    (fs : List Frame) (i : ℕ) → i < length fs → get_elem? fs i ≡ some (get_or fs i zeroed)
get_elem?-eq-get_or [] i h = absurd (omega arith)
get_elem?-eq-get_or (x ∷ xs) zero h = refl
get_elem?-eq-get_or (x ∷ xs) (suc i) h = get_elem?-eq-get_or xs i (omega arith)

-- An operation on a frame inside the array is one write.
pub frames-update_frame :
    (p : FramePool) (i : ℕ) (g : Frame → Frame)
    → i < length p.frames
    → update_frame p i g ≡ record p { frames = set p.frames i (g (get_or p.frames i zeroed)) }
frames-update_frame p i g h = rw (get_elem?-eq-get_or p.frames i h, update_frame)

-- A write outside the window does not change it.
pub window-set :
    (fs : List Frame) (c r n i : ℕ) (f : Frame)
    → ((k : ℕ) → r ≤ k → k < r + n → i ≢ k % c)
    → window (set fs i f) c r n ≡ window fs c r n
window-set fs c r zero i f out = refl
window-set fs c r (suc n) i f out =
    ap₂ (λ x xs. content x ∷ xs)
      (get_or-set_ne fs i (r % c) f zeroed (out r (omega arith) (omega arith)))
      (window-set fs c (suc r) n i f (λ k lo hi. out k (omega arith) (omega arith)))

-- The window grows at its end.
pub window-suc :
    (fs : List Frame) (c r n : ℕ)
    → window fs c r (suc n) ≡ window fs c r n ++ content (get_or fs ((r + n) % c) zeroed) ∷ []
window-suc fs c r zero = ap (λ k. content (get_or fs (k % c) zeroed) ∷ []) (omega arith)
window-suc fs c r (suc n) =
    let e : suc r + n ≡ r + suc n = omega arith in
    ap (λ xs. content (get_or fs (r % c) zeroed) ∷ xs) (rw e at (window-suc fs c (suc r) n))
