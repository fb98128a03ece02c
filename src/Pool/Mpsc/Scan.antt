-- ===== src/Pool/Mpsc/Scan.antt =====
-- The two loops over the frames: the first free one, the first ready one.
use imx8mp_building_blocks.Base.{
  ℕ, zero, suc, ◌+◌, ◌<◌, ◌≡◌, Option, none, some, List, [], ◌∷◌, arith, length, ◌==◌, true, false,
  Bool, Bool-cases, inl, inr,
}
use imx8mp_building_blocks.Base.Words.{int_le, int_min}
use imx8mp_building_blocks.Pool.{Frame, first_free, first_ready}
use imx8mp_building_blocks.Pool.Spsc.Slots.{refs}

-- All reference counts are non-negative.
abbrev pub Counted : List Frame → Type 0
Counted fs = (i : ℕ) → refs fs i < int_min

-- What the scan from index `k` on for a frame with `test` gives: an index that passes, with none
-- before it that does, or none at all.
abbrev pub Finds : (ℕ → Bool) → List Frame → ℕ → Option ℕ → Type 0
Finds test fs k none = (i : ℕ) → i < length fs → test (refs fs i) ≡ false
Finds test fs k (some j) =
    (i : ℕ) × (j ≡ k + i)
    × (i < length fs)
    × (test (refs fs i) ≡ true)
    × ((m : ℕ) → m < i → test (refs fs m) ≡ false)

abbrev pub is_free : ℕ → Bool
is_free n = n == 0

abbrev pub is_ready : ℕ → Bool
is_ready n = int_le 2 n

Finds-here :
    (test : ℕ → Bool) (f : Frame) (fs : List Frame) (k : ℕ)
    → test f.refcount ≡ true
    → Finds test (f ∷ fs) k (some k)
Finds-here test f fs k h = (0, omega arith, omega arith, h, λ m lt. absurd (omega arith))

Finds-later :
    (test : ℕ → Bool) (f : Frame) (fs : List Frame) (k : ℕ) (o : Option ℕ)
    → test f.refcount ≡ false
    → Finds test fs (k + 1) o
    → Finds test (f ∷ fs) k o
Finds-later test f fs k none h rest = before
  where
    before : (i : ℕ) → i < suc (length fs) → test (refs (f ∷ fs) i) ≡ false
    before zero lt = h
    before (suc i) lt = rest i (omega arith)
Finds-later test f fs k (some j) h (i, e, lt, passes, first) =
    (suc i, omega arith, omega arith, passes, before)
  where
    before : (m : ℕ) → m < suc i → test (refs (f ∷ fs) m) ≡ false
    before zero lt = h
    before (suc m) lt = first m (omega arith)

pub first_free-Finds : (fs : List Frame) (k : ℕ) → Finds is_free fs k (first_free fs k)
unfolding first_free
first_free-Finds [] k = λ i lt. absurd (omega arith)
first_free-Finds (f ∷ fs) k = elim (Bool-cases (is_free f.refcount)) [
  | inl found ↦ rw found (Finds-here is_free f fs k found)
  | inr not_yet ↦
      rw not_yet
        (Finds-later is_free f fs k (first_free fs (k + 1)) not_yet (first_free-Finds fs (k + 1)))
]

pub first_ready-Finds : (fs : List Frame) (k : ℕ) → Finds is_ready fs k (first_ready fs k)
unfolding first_ready
first_ready-Finds [] k = λ i lt. absurd (omega arith)
first_ready-Finds (f ∷ fs) k = elim (Bool-cases (is_ready f.refcount)) [
  | inl found ↦ rw found (Finds-here is_ready f fs k found)
  | inr not_yet ↦
      rw not_yet (
        Finds-later is_ready f fs k (first_ready fs (k + 1)) not_yet (first_ready-Finds fs (k + 1)))
]
