-- ===== src/Pool/Spsc.antt =====
-- The lock-free queue of libbb/bb_pool.c as two threads that interleave at each atomic operation.
-- The producer is capture_thread_fn and the consumer codec_thread_fn of
-- middleware/bb_audio_stream.c. `sent` and `received` record the frames in the order in which
-- they are committed and taken; no operation reads them.
pub mod Slots
pub mod Live
pub mod Inv
pub mod Moves
pub mod Order
pub mod Calls
mod Tests
use imx8mp_building_blocks.Base.{ℕ, ◌+◌, ◌<◌, ◌≡◌, true, false, List, [], ◌∷◌, ◌++◌, get_or}
use imx8mp_building_blocks.Base.Words.{int_le, int_min}
use imx8mp_building_blocks.Pool.{
  Frame, zeroed, FramePool, Got, frame, update_frame, is_full, claim, sp_commit, peek, advance,
  sp_release,
}

-- Where the producer stands: outside, after each load of bb_pool_sp_acquire, or filling a frame.
pub data Producer : Type 0 where
  idle : Producer
  loaded : ℕ → Producer
  checked : ℕ → Producer
  filling : ℕ → Producer

-- Where the consumer stands: outside, after each load of bb_pool_sp_dequeue, about to increment
-- the index, or reading a frame.
pub data Consumer : Type 0 where
  idle : Consumer
  loaded : ℕ → Consumer
  checked : ℕ → Consumer
  ready : ℕ → Consumer
  reading : ℕ → Consumer

pub record System : Type 0 where
  pub pool : FramePool
  pub producer : Producer
  pub consumer : Consumer
  pub sent : List Frame
  pub received : List Frame

-- A frame without its reference count.
abbrev pub content : Frame → Frame
content f = record f { refcount = 0 }

abbrev pub frame_at : FramePool → ℕ → Frame
frame_at p i = get_or p.frames i zeroed

-- What the producer writes into its frame: anything but the reference count.
abbrev pub fill_frame : FramePool → ℕ → Frame → FramePool
fill_frame p i c = update_frame p i λ f. record c { refcount = f.refcount }

abbrev pub start : FramePool → System
start p = record { pool = p; producer = idle; consumer = idle; sent = []; received = [] }

-- One atomic operation of one thread. `write_idx` stays a non-negative `int`.
pub data Step (s : System) : System → Type 0 where
  acquire_load :
      s.producer ≡ Producer.idle → Step s (record s { producer = loaded s.pool.write_idx })
  acquire_full :
      (w : ℕ)
      → s.producer ≡ Producer.loaded w
      → is_full s.pool.count w s.pool.read_idx ≡ true
      → Step s (record s { producer = idle })
  acquire_check :
      (w : ℕ)
      → s.producer ≡ Producer.loaded w
      → is_full s.pool.count w s.pool.read_idx ≡ false
      → Step s (record s { producer = checked w })
  acquire_claim :
      (w i : ℕ)
      → s.producer ≡ Producer.checked w
      → (claim s.pool w).0 ≡ frame i
      → Step s (record s { pool = (claim s.pool w).1; producer = filling i })
  acquire_taken :
      (w : ℕ)
      → s.producer ≡ Producer.checked w
      → (claim s.pool w).0 ≡ Got.null
      → Step s (record s { producer = idle })
  fill :
      (i : ℕ) (c : Frame)
      → s.producer ≡ Producer.filling i
      → Step s (record s { pool = fill_frame s.pool i c })
  commit :
      (i : ℕ)
      → s.producer ≡ Producer.filling i
      → s.pool.write_idx + 1 < int_min
      → Step s (record s {
        pool = sp_commit s.pool;
        producer = idle;
        sent = s.sent ++ content (frame_at s.pool i) ∷ [];
      })
  abort :
      (i : ℕ)
      → s.producer ≡ Producer.filling i
      → Step s (record s { pool = sp_release s.pool i; producer = idle })
  dequeue_load :
      s.consumer ≡ Consumer.idle → Step s (record s { consumer = loaded s.pool.write_idx })
  dequeue_empty :
      (w : ℕ)
      → s.consumer ≡ Consumer.loaded w
      → int_le w s.pool.read_idx ≡ true
      → Step s (record s { consumer = idle })
  dequeue_check :
      (w : ℕ)
      → s.consumer ≡ Consumer.loaded w
      → int_le w s.pool.read_idx ≡ false
      → Step s (record s { consumer = checked s.pool.read_idx })
  dequeue_peek :
      (r i : ℕ)
      → s.consumer ≡ Consumer.checked r
      → peek s.pool r ≡ frame i
      → Step s (record s { consumer = ready i })
  dequeue_unready :
      (r : ℕ)
      → s.consumer ≡ Consumer.checked r
      → peek s.pool r ≡ Got.null
      → Step s (record s { consumer = idle })
  dequeue_advance :
      (i : ℕ)
      → s.consumer ≡ Consumer.ready i
      → Step s (record s {
        pool = advance s.pool;
        consumer = reading i;
        received = s.received ++ content (frame_at s.pool i) ∷ [];
      })
  release :
      (i : ℕ)
      → s.consumer ≡ Consumer.reading i
      → Step s (record s { pool = sp_release s.pool i; consumer = idle })

pub data Reach (s : System) : System → Type 0 where
  here : Reach s s
  next : {t u : System} → Reach s t → Step t u → Reach s u
