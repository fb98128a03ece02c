-- ===== src/Pool/Mpsc/Ready.antt =====
-- The frames that are ready, the invariant on their number, and what the scanning calls give.
use imx8mp_building_blocks.Base.{
  ℕ, zero, suc, ◌+◌, ◌^◌, ◌≤◌, ◌<◌, ◌≡◌, ◌≢◌, refl, Option, none, some, List, [], ◌∷◌, arith,
  length, get_or, set, if◌then◌else◌, true, false, length-set,
}
use imx8mp_building_blocks.Base.Words.{int_sub}
use imx8mp_building_blocks.Pool.{
  Frame, zeroed, FramePool, Got, frame, wait, update_frame, first_free, first_ready, mp_acquire,
  mp_dequeue,
}
use imx8mp_building_blocks.Pool.Spsc.Slots.{refs, refs-set}
use imx8mp_building_blocks.Pool.Mpsc.{Queue}
use imx8mp_building_blocks.Pool.Mpsc.Scan.{Finds, is_free, is_ready}

abbrev pub weight : Frame → ℕ
weight f = if is_ready f.refcount then 1 else 0

-- How many frames are ready.
unfoldable pub ready : List Frame → ℕ
ready [] = 0
ready (f ∷ fs) = weight f + ready fs

pub ready-le-length : (fs : List Frame) → ready fs ≤ length fs
unfolding ready
ready-le-length [] = omega arith
ready-le-length (f ∷ fs) = ground (arith, ready-le-length fs)

ready-set :
    (fs : List Frame) (i : ℕ) (f : Frame)
    → i < length fs
    → ready (set fs i f) + weight (get_or fs i zeroed) ≡ ready fs + weight f
unfolding ready
ready-set [] i f h = absurd (omega arith)
ready-set (x ∷ xs) zero f h = omega arith
ready-set (x ∷ xs) (suc i) f h = omega (arith, ready-set xs i f (omega arith))

pub ready-none :
    (fs : List Frame) → ((i : ℕ) → i < length fs → is_ready (refs fs i) ≡ false) → ready fs ≡ 0
unfolding ready
ready-none [] h = refl
ready-none (f ∷ fs) h =
    rw (h 0 (omega arith)) (rw (ready-none fs (λ i lt. h (suc i) (omega arith))))

abbrev pub held : Option ℕ → ℕ
held none = 0
held (some i) = 1

pub record Inv (q : Queue) : Type 0 where
  pub short : length q.pool.frames < 2 ^ 30
  pub counts : (i : ℕ) → refs q.pool.frames i ≤ 2
  pub balance : q.pool.mp_pending + q.unsignalled + held q.taken ≡ ready q.pool.frames
  pub kept : (i : ℕ) → q.taken ≡ some i → (i < length q.pool.frames) × (refs q.pool.frames i ≡ 2)

-- A write of one frame, with what it does to the balance.
module _ {q : Queue} (v : Inv q) (i : ℕ) (f : Frame) (lt : i < length q.pool.frames) where
  open q use {pool}
  open pool use {frames}

  pub write_keeps :
      (pending unsignalled : ℕ) (taken : Option ℕ)
      → f.refcount ≤ 2
      → pending + unsignalled + held taken + weight (get_or frames i zeroed)
        ≡ pool.mp_pending + q.unsignalled + held q.taken + weight f
      → ((j : ℕ) → taken ≡ some j → (i ≢ j) × (q.taken ≡ some j))
      → Inv (record {
        pool = record pool { frames = set frames i f; mp_pending = pending };
        unsignalled = unsignalled;
        taken = taken;
      })
  write_keeps pending unsignalled taken two sums same = record {
    short = omega (arith, v.short, length-set frames i f);
    counts = λ j. ground (arith, refs-set frames i j f lt, v.counts j);
    balance = omega (arith, v.balance, ready-set frames i f lt, sums);
    kept = λ j e.
        let (ne, was) = same j e in
        let (within, two_refs) = v.kept j was in
        (
          omega (arith, within, length-set frames i f),
          ground (arith, refs-set frames i j f lt, ne),
        );
  }

-- What the two scanning calls give, by the result of their scan.
abbrev pub acquired : FramePool → Option ℕ → Got × FramePool
acquired p none = (Got.null, p)
acquired p (some i) = (frame i, update_frame p i (λ f. record f { refcount = 1 }))

pub mp_acquire_lem : (p : FramePool) → mp_acquire p ≡ acquired p (first_free p.frames 0)
unfolding mp_acquire
mp_acquire_lem p = ground arith

abbrev pub dequeued : FramePool → Option ℕ → Got × FramePool
dequeued p none = (Got.null, record p { mp_pending = int_sub p.mp_pending 1 })
dequeued p (some i) = (frame i, record p { mp_pending = int_sub p.mp_pending 1 })

pub mp_dequeue_lem :
    (p : FramePool) → p.mp_pending ≢ 0 → mp_dequeue p ≡ dequeued p (first_ready p.frames 0)
unfolding mp_dequeue
mp_dequeue_lem p ne = ground arith

pub mp_dequeue-wait : (p : FramePool) → p.mp_pending ≡ 0 → mp_dequeue p ≡ (wait, p)
unfolding mp_dequeue
mp_dequeue-wait p e = ground arith

pub acquired_inv :
    (p : FramePool) (o : Option ℕ) (i : ℕ)
    → Finds is_free p.frames 0 o
    → (acquired p o).0 ≡ frame i
    → (i < length p.frames)
      × (refs p.frames i ≡ 0)
      × ((acquired p o).1 ≡ update_frame p i (λ f. record f { refcount = 1 }))
acquired_inv p none i found e = absurd (cc)
acquired_inv p (some j) i (k, at, lt, passes, first) e = (ground arith, ground arith, ground arith)

pub dequeued_inv :
    (p : FramePool) (o : Option ℕ) (i : ℕ)
    → Finds is_ready p.frames 0 o
    → (dequeued p o).0 ≡ frame i
    → (i < length p.frames)
      × (is_ready (refs p.frames i) ≡ true)
      × ((m : ℕ) → m < i → is_ready (refs p.frames m) ≡ false)
      × ((dequeued p o).1 ≡ record p { mp_pending = int_sub p.mp_pending 1 })
dequeued_inv p none i found e = absurd (cc)
dequeued_inv p (some j) i (k, at, lt, passes, first) e =
    (ground arith, ground arith, (λ m before. first m (ground arith)), ground arith)
