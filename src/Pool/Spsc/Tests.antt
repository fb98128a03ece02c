-- ===== src/Pool/Spsc/Tests.antt =====
-- A run of two threads over a pool of two frames.
use imx8mp_building_blocks.Base.{
  ℕ, zero, suc, ◌≤◌, ◌≡◌, ◌≢◌, refl, List, [], ◌∷◌, ◌++◌, arith, length, true,
}
use imx8mp_building_blocks.Pool.{
  Frame, zeroed, FramePool, Got, frame, claim, sp_commit, peek, advance, sp_acquire, sp_dequeue,
}
use imx8mp_building_blocks.Pool.Spsc.{
  Producer, Consumer, System, acquire_load, acquire_check, acquire_claim, fill, commit,
  dequeue_load, dequeue_check, dequeue_peek, dequeue_advance, Reach, here, next, start,
}
use imx8mp_building_blocks.Pool.Spsc.Slots.{refs}
use imx8mp_building_blocks.Pool.Spsc.Order.{IsFresh, exclusive, fifo}
use imx8mp_building_blocks.Pool.Spsc.Calls.{acquire_exact, dequeue_exact}

abbrev two_frames : FramePool
two_frames = record {
  allocated = true;
  frames = zeroed ∷ zeroed ∷ [];
  count = 2;
  write_idx = 0;
  read_idx = 0;
  mp_pending = 0;
}

two_frames-refs : (i : ℕ) → refs two_frames.frames i ≡ 0
two_frames-refs zero = refl
two_frames-refs (suc zero) = refl
two_frames-refs (suc (suc i)) = refl

two_frames-IsFresh : IsFresh two_frames
two_frames-IsFresh = record {
  positive = omega arith;
  small = omega arith;
  sized = refl;
  written = refl;
  read = refl;
  unused = two_frames-refs;
}

abbrev sample : Frame
sample = record zeroed { bytes = 7 ∷ []; size = 1; frame_num = 5 }

abbrev used : Frame
used = record sample { refcount = 1 }

-- One frame committed.
abbrev one_sent : System
one_sent = record {
  pool = record two_frames { frames = used ∷ zeroed ∷ []; write_idx = 1 };
  producer = Producer.idle;
  consumer = Consumer.idle;
  sent = sample ∷ [];
  received = [];
}

one_sent-Reach : Reach (start two_frames) one_sent
unfolding claim sp_commit
one_sent-Reach =
    next
      (next
        (next (next (next here (acquire_load refl)) (acquire_check 0 refl refl))
          (acquire_claim 0 0 refl refl))
        (fill 0 sample refl))
      (commit 0 refl (omega arith))

-- The consumer has seen it.
one_seen-Reach : Reach (start two_frames) (record one_sent { consumer = Consumer.checked 0 })
one_seen-Reach = next (next one_sent-Reach (dequeue_load refl)) (dequeue_check 1 refl refl)

-- Then both threads hold a frame.
abbrev both_busy : System
both_busy = record one_sent {
  pool = record two_frames {
    frames = used ∷ record zeroed { refcount = 1 } ∷ [];
    write_idx = 1;
    read_idx = 1;
  };
  producer = Producer.filling 1;
  consumer = Consumer.reading 0;
  received = sample ∷ [];
}

both_busy-Reach : Reach (start two_frames) both_busy
unfolding claim peek advance
both_busy-Reach =
    next
      (next
        (next (next (next one_seen-Reach (dequeue_peek 0 0 refl refl)) (acquire_load refl))
          (acquire_check 1 refl refl))
        (acquire_claim 1 1 refl refl))
      (dequeue_advance 0 refl)

exclusive_example : ◌≢◌ {A = ℕ} 1 0
exclusive_example = exclusive 1 0 two_frames-IsFresh both_busy-Reach refl refl

fifo_example :
    (rest : List Frame) × (sample ∷ [] ≡ [] ++ rest) × (length rest ≡ 1) × (length rest ≤ 2)
fifo_example = fifo two_frames-IsFresh one_sent-Reach

acquire_exact_example : (sp_acquire one_sent.pool).0 ≡ frame 1
acquire_exact_example = acquire_exact two_frames-IsFresh one_sent-Reach refl

dequeue_exact_example : sp_dequeue one_sent.pool ≡ (frame 0, advance one_sent.pool)
dequeue_exact_example = dequeue_exact two_frames-IsFresh one_sent-Reach

-- A full pool: the second call of the producer gives the other frame, the third none.
sp_acquire_full : (sp_acquire (record one_sent.pool { write_idx = 2 })).0 ≡ Got.null
unfolding sp_acquire
sp_acquire_full = refl
