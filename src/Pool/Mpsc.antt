-- ===== src/Pool/Mpsc.antt =====
-- The queue under a mutex of libbb/bb_pool.c, as any number of producers and one consumer whose
-- calls interleave. A producer owns a frame with one reference; it marks it ready, and then counts
-- it under the mutex. `unsignalled` counts the frames between the two, and `taken` is the frame
-- that the consumer has not given back. No operation reads these two.
pub mod Scan
pub mod Ready
pub mod Balance
pub mod Delivery
mod Tests
use imx8mp_building_blocks.Base.{ℕ, ◌+◌, ◌-◌, ◌<◌, ◌≡◌, ◌≢◌, Option, none, some, length, get_or}
use imx8mp_building_blocks.Pool.{
  Frame, zeroed, FramePool, Got, frame, update_frame, mark, signal, mp_acquire, mp_dequeue,
  mp_release,
}

pub record Queue : Type 0 where
  pub pool : FramePool
  pub unsignalled : ℕ
  pub taken : Option ℕ

abbrev pub refcount_of : FramePool → ℕ → ℕ
refcount_of p i = (get_or p.frames i zeroed).refcount

abbrev pub start : FramePool → Queue
start p = record { pool = p; unsignalled = 0; taken = none }

-- One step of a producer or of the consumer. The number of steps under way stays below 2^31.
pub data Step (q : Queue) : Queue → Type 0 where
  acquire :
      (i : ℕ) → (mp_acquire q.pool).0 ≡ frame i → Step q (record q { pool = (mp_acquire q.pool).1 })
  enqueue_mark :
      (i : ℕ)
      → i < length q.pool.frames
      → refcount_of q.pool i ≡ 1
      → Step q (record q { pool = mark q.pool i; unsignalled = q.unsignalled + 1 })
  enqueue_signal :
      (n : ℕ) → q.unsignalled ≡ n + 1 → Step q (record q { pool = signal q.pool; unsignalled = n })
  dequeue :
      (i : ℕ)
      → q.taken ≡ none
      → (mp_dequeue q.pool).0 ≡ frame i
      → Step q (record q { pool = (mp_dequeue q.pool).1; taken = some i })
  release :
      (i : ℕ) → q.taken ≡ some i → Step q (record q { pool = mp_release q.pool i; taken = none })

pub data Reach (q : Queue) : Queue → Type 0 where
  here : Reach q q
  next : {t u : Queue} → Reach q t → Step t u → Reach q u
