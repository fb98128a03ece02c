-- ===== src/Pool/Mpsc/Balance.antt =====
-- The number of pending frames against the frames that are ready, in every interleaving.
use imx8mp_building_blocks.Base.{
  ℕ, ◌+◌, ◌≤◌, ◌<◌, ◌≡◌, ◌≢◌, ap, Option, none, some, List, arith, length, get_or, ◌∙◌,
}
use imx8mp_building_blocks.Pool.{
  Frame, zeroed, FramePool, frame, update_frame, mark, signal, first_free, first_ready, mp_acquire,
  mp_dequeue, mp_release,
}
use imx8mp_building_blocks.Pool.Spsc.Slots.{refs, frames-update_frame}
use imx8mp_building_blocks.Pool.Spsc.Order.{IsFresh}
use imx8mp_building_blocks.Pool.Mpsc.{
  Queue, refcount_of, start, Step, acquire, enqueue_mark, enqueue_signal, dequeue, release, Reach,
  here, next,
}
use imx8mp_building_blocks.Pool.Mpsc.Scan.{first_free-Finds, first_ready-Finds}
use imx8mp_building_blocks.Pool.Mpsc.Ready.{
  ready, weight, held, Inv, write_keeps, acquired_inv, dequeued_inv, mp_acquire_lem, mp_dequeue_lem,
  mp_dequeue-wait, ready-le-length, ready-none,
}

module _ {q : Queue} (v : Inv q) where
  open q use {pool}
  open pool use {frames}

  update-Inv :
      (i : ℕ) (g : Frame → Frame) (unsignalled : ℕ) (taken : Option ℕ)
      → i < length frames
      → (g (get_or frames i zeroed)).refcount ≤ 2
      → unsignalled + held taken + weight (get_or frames i zeroed)
        ≡ q.unsignalled + held q.taken + weight (g (get_or frames i zeroed))
      → ((j : ℕ) → taken ≡ some j → (i ≢ j) × (q.taken ≡ some j))
      → Inv (record { pool = update_frame pool i g; unsignalled = unsignalled; taken = taken })
  update-Inv i g unsignalled taken lt two sums same = rw (frames-update_frame pool i g lt) (
      write_keeps v i (g (get_or frames i zeroed)) lt pool.mp_pending unsignalled taken two
        (omega (arith, sums)) same)

  -- Only a frame with another count than 2 is written while the consumer keeps the one it took.
  other : (i j : ℕ) → refs frames i ≢ 2 → q.taken ≡ some j → (i ≢ j) × (q.taken ≡ some j)
  other i j ne t = ((λ same. ne (ap (refs frames) same ∙ (v.kept j t).1)), t)

  acquire-Inv :
      (i : ℕ) → (mp_acquire pool).0 ≡ frame i → Inv (record q { pool = (mp_acquire pool).1 })
  acquire-Inv i e =
      let (lt, z, wrote) =
        acquired_inv pool (first_free frames 0) i (first_free-Finds frames 0)
          (rw mp_acquire_lem at e) in
      rw (mp_acquire_lem, wrote)
        (update-Inv i (λ f. record f { refcount = 1 }) q.unsignalled q.taken lt (omega arith)
          (ground (arith, z)) (λ j t. other i j (omega (arith, z)) t))

  mark-Inv :
      (i : ℕ)
      → i < length frames
      → refcount_of pool i ≡ 1
      → Inv (record q { pool = mark pool i; unsignalled = q.unsignalled + 1 })
  unfolding mark
  mark-Inv i lt one =
      update-Inv i _ (q.unsignalled + 1) q.taken lt (omega (arith, one)) (ground (arith, one))
        (λ j t. other i j (omega (arith, one)) t)

  signal-Inv :
      (n : ℕ) → q.unsignalled ≡ n + 1 → Inv (record q { pool = signal pool; unsignalled = n })
  unfolding signal
  signal-Inv n e = record {
    short = v.short;
    counts = v.counts;
    balance = omega (arith, v.balance, v.short, ready-le-length frames);
    kept = v.kept;
  }

  dequeue-Inv :
      (i : ℕ)
      → q.taken ≡ none
      → (mp_dequeue pool).0 ≡ frame i
      → Inv (record q { pool = (mp_dequeue pool).1; taken = some i })
  dequeue-Inv i free e =
      let (lt, passes, first, wrote) =
        dequeued_inv pool (first_ready frames 0) i (first_ready-Finds frames 0)
          (rw (mp_dequeue_lem pool pending) at e) in
      rw (mp_dequeue_lem pool pending, wrote)
        (record {
          short = v.short;
          counts = v.counts;
          balance =
              omega (arith, v.balance, v.short, ready-le-length frames, pending, ap held free);
          kept = λ j t. ground (arith, lt, passes, v.counts i);
        })
    where
      pending : pool.mp_pending ≢ 0
      pending z = absurd (ground (arith, mp_dequeue-wait pool z))

  release-Inv :
      (i : ℕ) → q.taken ≡ some i → Inv (record q { pool = mp_release pool i; taken = none })
  unfolding mp_release
  release-Inv i e =
      let (lt, two) = v.kept i e in
      update-Inv i _ q.unsignalled none lt (omega arith) (ground (arith, two, ap held e))
        (λ j t. absurd (cc))

Step-Inv : {q t : Queue} → Step q t → Inv q → Inv t
Step-Inv (acquire i e) v = acquire-Inv v i e
Step-Inv (enqueue_mark i lt e) v = mark-Inv v i lt e
Step-Inv (enqueue_signal n e) v = signal-Inv v n e
Step-Inv (dequeue i free e) v = dequeue-Inv v i free e
Step-Inv (release i e) v = release-Inv v i e

ready-zero : (fs : List Frame) → ((i : ℕ) → refs fs i ≡ 0) → ready fs ≡ 0
ready-zero fs z = ready-none fs (λ i lt. ground (arith, z i))

pub Reach-Inv :
    {p : FramePool} {q : Queue} → IsFresh p → p.mp_pending ≡ 0 → Reach (start p) q → Inv q
Reach-Inv {p} f e here = record {
  short = omega (arith, f.sized, f.small);
  counts = λ i. omega (arith, f.unused i);
  balance = omega (arith, e, ready-zero p.frames f.unused);
  kept = λ i t. absurd (cc);
}
Reach-Inv f e (next r st) = Step-Inv st (Reach-Inv f e r)
