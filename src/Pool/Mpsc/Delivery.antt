-- ===== src/Pool/Mpsc/Delivery.antt =====
-- What the consumer of the queue under a mutex gets.
use imx8mp_building_blocks.Base.{ℕ, ◌+◌, ◌<◌, ◌≡◌, ◌≢◌, Option, none, some, arith}
use imx8mp_building_blocks.Pool.{FramePool, frame, first_free, first_ready, mp_acquire, mp_dequeue}
use imx8mp_building_blocks.Pool.Spsc.Order.{IsFresh}
use imx8mp_building_blocks.Pool.Mpsc.{Queue, refcount_of, start, Reach}
use imx8mp_building_blocks.Pool.Mpsc.Scan.{Finds, is_ready, first_free-Finds, first_ready-Finds}
use imx8mp_building_blocks.Pool.Mpsc.Ready.{
  ready, held, Inv, dequeued, acquired_inv, mp_acquire_lem, mp_dequeue_lem, ready-none,
}
use imx8mp_building_blocks.Pool.Mpsc.Balance.{Reach-Inv}

-- However producers and the consumer interleave, the pending count, the frames marked ready and not
-- yet counted, and the frame that the consumer keeps make up the frames with two references.
pub pending_balance :
    {p : FramePool} {q : Queue}
    → IsFresh p
    → p.mp_pending ≡ 0
    → Reach (start p) q
    → q.pool.mp_pending + q.unsignalled + held q.taken ≡ ready q.pool.frames
pending_balance f e r = (Reach-Inv f e r).balance

module _ {q : Queue} (v : Inv q) (pending : q.pool.mp_pending ≢ 0) where
  open q use {pool}

  scan_delivers :
      (o : Option ℕ)
      → Finds is_ready pool.frames 0 o
      → (i : ℕ) × ((dequeued pool o).0 ≡ frame i)
        × (refcount_of pool i ≡ 2)
        × ((m : ℕ) → m < i → refcount_of pool m ≢ 2)
  scan_delivers none all = absurd (omega (arith, pending, v.balance, ready-none pool.frames all))
  scan_delivers (some j) (i, at, lt, passes, first) = (
    i,
    ground (arith, at),
    ground (arith, passes, v.counts i),
    λ m before. ground (arith, first m before),
  )

-- A consumer that holds no frame and finds the pending count above 0 always gets a frame, never
-- NULL. It is the one of lowest index among the ready frames, whichever was enqueued first.
pub dequeue_delivers :
    {p : FramePool} {q : Queue}
    → IsFresh p
    → p.mp_pending ≡ 0
    → Reach (start p) q
    → q.pool.mp_pending ≢ 0
    → (i : ℕ) × ((mp_dequeue q.pool).0 ≡ frame i)
      × (refcount_of q.pool i ≡ 2)
      × ((m : ℕ) → m < i → refcount_of q.pool m ≢ 2)
dequeue_delivers {q = q} f e r pending = rw (mp_dequeue_lem q.pool pending) (
    scan_delivers (Reach-Inv f e r) pending (first_ready q.pool.frames 0)
      (first_ready-Finds q.pool.frames 0))

-- While the consumer keeps a frame, no producer is given it.
pub kept-acquire :
    {p : FramePool} {q : Queue} (i : ℕ)
    → IsFresh p
    → p.mp_pending ≡ 0
    → Reach (start p) q
    → q.taken ≡ some i
    → (mp_acquire q.pool).0 ≢ frame i
kept-acquire {q = q} i f e r keeps given =
    let (lt, z, wrote) =
      acquired_inv q.pool (first_free q.pool.frames 0) i (first_free-Finds q.pool.frames 0)
        (rw mp_acquire_lem at given) in
    omega (arith, z, ((Reach-Inv f e r).kept i keeps).1)

-- bb_pool_mp_dequeue leaves the frame that it returns ready: called again before the frame is
-- released, while others are pending, it returns the same frame.
pub dequeue_again :
    (p : FramePool) (i : ℕ)
    → (mp_dequeue p).0 ≡ frame i
    → (mp_dequeue p).1.mp_pending ≢ 0
    → (mp_dequeue (mp_dequeue p).1).0 ≡ frame i
unfolding mp_dequeue
dequeue_again p i got more = ground arith
