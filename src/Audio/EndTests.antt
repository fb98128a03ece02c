-- ===== src/Audio/EndTests.antt =====
-- The end of a codec thread with a frame left in the lock-free pool, and with a playback pool that is full.
use imx8mp_building_blocks.Base.{ℕ, zero, suc, ◌+◌, ◌<◌, ◌≡◌, ◌≢◌, refl, [], ◌∷◌, arith, true}
use imx8mp_building_blocks.Pool.{
  Frame, zeroed, FramePool, wait, claim, sp_commit, sp_dequeue, sp_release, advance, peek,
  mp_acquire, mp_dequeue, mark, signal, first_free,
}
use imx8mp_building_blocks.Pool.Spsc
use imx8mp_building_blocks.Pool.Spsc.{Producer, Consumer, System}
use imx8mp_building_blocks.Pool.Spsc.Slots.{refs}
use imx8mp_building_blocks.Pool.Spsc.Order.{IsFresh}
use imx8mp_building_blocks.Pool.Mpsc
use imx8mp_building_blocks.Pool.Mpsc.{Queue}
use imx8mp_building_blocks.Audio.Rounds.{drain, send_end, send_sentinel}
use imx8mp_building_blocks.Audio.Shutdown.{Drains, takes, empty, drain_empties}
use imx8mp_building_blocks.Audio.Sentinel.{after_try, sentinel_wakes}

abbrev free_pool : FramePool
free_pool = record {
  allocated = true;
  frames = zeroed ∷ zeroed ∷ [];
  count = 2;
  write_idx = 0;
  read_idx = 0;
  mp_pending = 0;
}

free_pool-refs : (i : ℕ) → refs free_pool.frames i ≡ 0
free_pool-refs zero = refl
free_pool-refs (suc zero) = refl
free_pool-refs (suc (suc i)) = refl

free_pool-IsFresh : IsFresh free_pool
free_pool-IsFresh = record {
  positive = omega arith;
  small = omega arith;
  sized = refl;
  written = refl;
  read = refl;
  unused = free_pool-refs;
}

abbrev used : Frame
used = record zeroed { refcount = 1 }

-- One frame is committed, and the capture thread has ended.
abbrev one_left : System
one_left = record {
  pool = record free_pool { frames = used ∷ zeroed ∷ []; write_idx = 1 };
  producer = Producer.idle;
  consumer = Consumer.idle;
  sent = zeroed ∷ [];
  received = [];
}

one_left-Reach : Spsc.Reach (Spsc.start free_pool) one_left
unfolding claim sp_commit
one_left-Reach =
    Spsc.next
      (Spsc.next
        (Spsc.next (Spsc.next Spsc.here (Spsc.acquire_load refl)) (Spsc.acquire_check 0 refl refl))
        (Spsc.acquire_claim 0 0 refl refl))
      (Spsc.commit 0 refl (omega arith))

-- The drain takes the frame that is left, and ends.
abbrev drained : System
drained = record {
  pool = record free_pool { frames = zeroed ∷ zeroed ∷ []; write_idx = 1; read_idx = 1 };
  producer = Producer.idle;
  consumer = Consumer.idle;
  sent = zeroed ∷ [];
  received = zeroed ∷ [];
}

one_round : Drains 1 one_left drained
unfolding sp_dequeue sp_release advance peek
one_round =
    takes {s = one_left} {t = one_left} 0 (Spsc.here, refl, refl) refl
      (empty {s = drained} {t = drained} (Spsc.here, refl, refl) refl)

drain_empties_example :
    (1 + one_left.pool.read_idx ≡ drained.pool.write_idx)
    × (drained.pool.read_idx ≡ drained.pool.write_idx)
    × (drained.producer ≡ Producer.idle
        → (i : ℕ) → i < drained.pool.count
        → refs drained.pool.frames i ≡ 0)
    × ((v : System) × Drains 1 one_left v × (v.pool ≡ drain 1 one_left.pool))
drain_empties_example = drain_empties 1 free_pool-IsFresh one_left-Reach refl one_round

-- Both frames wait for the playback thread.
abbrev full : Queue
full = Mpsc.start (record free_pool {
  frames = record zeroed { refcount = 2 } ∷ record zeroed { refcount = 2 } ∷ [];
  mp_pending = 2;
})

full-Reach : Mpsc.Reach (Mpsc.start free_pool) full
unfolding mp_acquire mark signal
full-Reach =
    Mpsc.next
      (Mpsc.next
        (Mpsc.next
          (Mpsc.next (Mpsc.next (Mpsc.next Mpsc.here (Mpsc.acquire 0 refl)) (Mpsc.acquire 1 refl))
            (Mpsc.enqueue_mark 1 (omega arith) refl))
          (Mpsc.enqueue_signal 0 refl))
        (Mpsc.enqueue_mark 0 (omega arith) refl))
      (Mpsc.enqueue_signal 0 refl)

full-unheld : (i : ℕ) → refs full.pool.frames i ≢ 1
full-unheld zero = omega arith
full-unheld (suc zero) = omega arith
full-unheld (suc (suc i)) = omega arith

sentinel_wakes_example : (mp_dequeue (after_try full.pool)).0 ≢ wait
sentinel_wakes_example = sentinel_wakes free_pool-IsFresh refl full-Reach refl refl full-unheld

-- The first try finds no free frame, the second does.
second_try : send_end 100 (full.pool ∷ free_pool ∷ []) ≡ send_sentinel free_pool
unfolding send_end send_sentinel mp_acquire first_free
second_try = refl
