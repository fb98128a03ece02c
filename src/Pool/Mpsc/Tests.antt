-- ===== src/Pool/Mpsc/Tests.antt =====
-- A run over a pool of two frames in which the frame that is enqueued last is delivered first.
use imx8mp_building_blocks.Base.{ℕ, zero, suc, ◌+◌, ◌<◌, ◌≡◌, ◌≢◌, refl, some, [], ◌∷◌, arith, true}
use imx8mp_building_blocks.Pool.{
  Frame, zeroed, FramePool, frame, mark, signal, mp_acquire, mp_dequeue,
}
use imx8mp_building_blocks.Pool.Spsc.Slots.{refs}
use imx8mp_building_blocks.Pool.Spsc.Order.{IsFresh}
use imx8mp_building_blocks.Pool.Mpsc.{
  Queue, refcount_of, start, acquire, enqueue_mark, enqueue_signal, dequeue, Reach, here, next,
}
use imx8mp_building_blocks.Pool.Mpsc.Ready.{ready}
use imx8mp_building_blocks.Pool.Mpsc.Delivery.{pending_balance, dequeue_delivers}

abbrev frame_with : ℕ → Frame
frame_with n = record zeroed { refcount = n }

abbrev pool_with : ℕ → ℕ → ℕ → FramePool
pool_with a b pending = record {
  allocated = true;
  frames = frame_with a ∷ frame_with b ∷ [];
  count = 2;
  write_idx = 0;
  read_idx = 0;
  mp_pending = pending;
}

pool_with-refs : (i : ℕ) → refs (pool_with 0 0 0).frames i ≡ 0
pool_with-refs zero = refl
pool_with-refs (suc zero) = refl
pool_with-refs (suc (suc i)) = refl

pool_with-IsFresh : IsFresh (pool_with 0 0 0)
pool_with-IsFresh = record {
  positive = omega arith;
  small = omega arith;
  sized = refl;
  written = refl;
  read = refl;
  unused = pool_with-refs;
}

-- Both frames acquired; frame 1 is enqueued, and frame 0 after it.
abbrev both_ready : Queue
both_ready = start (pool_with 2 2 2)

both_ready-Reach : Reach (start (pool_with 0 0 0)) both_ready
unfolding mp_acquire mark signal
both_ready-Reach =
    next
      (next
        (next
          (next (next (next here (acquire 0 refl)) (acquire 1 refl))
            (enqueue_mark 1 (omega arith) refl))
          (enqueue_signal 0 refl))
        (enqueue_mark 0 (omega arith) refl))
      (enqueue_signal 0 refl)

abbrev first_taken : Queue
first_taken = record { pool = pool_with 2 2 1; unsignalled = 0; taken = some 0 }

first_taken-Reach : Reach (start (pool_with 0 0 0)) first_taken
unfolding mp_dequeue
first_taken-Reach = next both_ready-Reach (dequeue 0 refl refl)

pending_balance_example : 1 + 0 + 1 ≡ ready first_taken.pool.frames
pending_balance_example = pending_balance pool_with-IsFresh refl first_taken-Reach

dequeue_delivers_example :
    (i : ℕ) × ((mp_dequeue both_ready.pool).0 ≡ frame i)
    × (refcount_of both_ready.pool i ≡ 2)
    × ((m : ℕ) → m < i → refcount_of both_ready.pool m ≢ 2)
dequeue_delivers_example = dequeue_delivers pool_with-IsFresh refl both_ready-Reach (omega arith)
