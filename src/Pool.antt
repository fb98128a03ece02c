-- ===== src/Pool.antt =====
-- libbb/bb_pool.h and bb_pool.c: the frame pool, its lock-free queue between one producer and
-- one consumer, and its queue under a mutex. An operation returns the new pool; a frame that it
-- hands out is the index into `p->frames`.
pub mod Lifecycle
pub mod Spsc
pub mod Mpsc
use imx8mp_building_blocks.Base.{
  ℕ, zero, suc, ◌+◌, Bool, true, false, ◌&&◌, not, Option, none, some, List, [], ◌∷◌, ◌++◌, ltb,
  leb, ◌==◌, if◌then◌else◌, get_elem?, set, replicate,
}
use imx8mp_building_blocks.Base.Bytes.{Bytes}
use imx8mp_building_blocks.Base.Words.{
  int_add, int_sub, int_le, int_lt, is_neg, minus_one, index_mod,
}

-- What `f->data` is: NULL, `MAP_FAILED`, a block of `malloc`, or a mapping.
pub data Pointer : Type 0 where
  null map_failed : Pointer
  heap mapped : ℕ → Pointer

-- `bb_frame_t`, with the contents of its buffer in `bytes`.
pub record Frame : Type 0 where
  pub buffer : Pointer
  pub bytes : Bytes
  pub size : ℕ
  pub fd : ℕ
  pub refcount : ℕ
  pub pts : ℕ
  pub frame_num : ℕ
  pub fourcc : ℕ

-- What `calloc` gives.
abbrev pub zeroed : Frame
zeroed = record {
  buffer = null;
  bytes = [];
  size = 0;
  fd = 0;
  refcount = 0;
  pts = 0;
  frame_num = 0;
  fourcc = 0;
}

-- `bb_frame_pool_t`; `allocated` tells whether `p->frames` is not NULL.
pub record FramePool : Type 0 where
  pub allocated : Bool
  pub frames : List Frame
  pub count : ℕ
  pub write_idx : ℕ
  pub read_idx : ℕ
  pub mp_pending : ℕ

-- What memset(p, 0, sizeof(*p)) gives.
abbrev pub no_pool : FramePool
no_pool = record {
  allocated = false;
  frames = [];
  count = 0;
  write_idx = 0;
  read_idx = 0;
  mp_pending = 0;
}

-- The result of a call that hands out a frame: NULL, a frame, an access outside the array, or a
-- caller that goes on waiting for the condition variable.
pub data Got : Type 0 where
  null : Got
  frame : ℕ → Got
  fault : Got
  wait : Got

abbrev pub set_frame : FramePool → ℕ → Frame → FramePool
set_frame p i f = record p { frames = set p.frames i f }

-- The frame at an index that `%` computed, with what is done with it.
abbrev pub at_frame {ℓ} : {A : Type ℓ} → FramePool → Option ℕ → A → (ℕ → Frame → A) → A
at_frame p none out use_frame = out
at_frame p (some i) out use_frame = elim (get_elem? p.frames i) [
  | none ↦ out
  | some f ↦ use_frame i f
]

-- The test of bb_pool_sp_acquire on the two indices that it has loaded.
abbrev pub is_full : ℕ → ℕ → ℕ → Bool
is_full count w r = int_le count (int_sub w r)

-- The compare-and-exchange of bb_pool_sp_acquire at the slot of the loaded index.
unfoldable pub claim : FramePool → ℕ → Got × FramePool
claim p w =
    at_frame p (index_mod w p.count) (fault, p)
      λ i f.
        if f.refcount == 0 then (frame i, set_frame p i (record f { refcount = 1 })) else (null, p)

unfoldable pub sp_acquire : FramePool → Got × FramePool
unfolding claim
sp_acquire p = if is_full p.count p.write_idx p.read_idx then (null, p) else claim p p.write_idx

unfoldable pub sp_commit : FramePool → FramePool
sp_commit p = record p { write_idx = int_add p.write_idx 1 }

-- The load of the reference count in bb_pool_sp_dequeue.
unfoldable pub peek : FramePool → ℕ → Got
peek p r =
    at_frame p (index_mod r p.count) fault λ i f. if int_lt f.refcount 1 then null else frame i

-- The increment that ends bb_pool_sp_dequeue.
unfoldable pub advance : FramePool → FramePool
advance p = record p { read_idx = int_add p.read_idx 1 }

unfoldable pub sp_dequeue : FramePool → Got × FramePool
unfolding peek advance
sp_dequeue p =
    if int_le p.write_idx p.read_idx
    then (null, p)
    else elim (peek p p.read_idx) [ frame i ↦ (frame i, advance p) | g ↦ (g, p) ]

-- The operations on a frame of the pool, given by its index.
abbrev pub update_frame : FramePool → ℕ → (Frame → Frame) → FramePool
update_frame p i g = elim (get_elem? p.frames i) [ none ↦ p | some f ↦ set_frame p i (g f) ]

unfoldable pub sp_release : FramePool → ℕ → FramePool
sp_release p i = update_frame p i λ f. record f { refcount = 0 }

-- The loop of bb_pool_mp_acquire from index `i` on: the first frame with no reference.
unfoldable pub first_free : List Frame → ℕ → Option ℕ
first_free [] i = none
first_free (f ∷ fs) i = if f.refcount == 0 then some i else first_free fs (i + 1)

unfoldable pub mp_acquire : FramePool → Got × FramePool
unfolding first_free
mp_acquire p = elim (first_free p.frames 0) [
  | none ↦ (null, p)
  | some i ↦ (frame i, update_frame p i λ f. record f { refcount = 1 })
]

unfoldable pub frame_ref : FramePool → ℕ → FramePool
frame_ref p i = update_frame p i λ f. record f { refcount = int_add f.refcount 1 }

unfoldable pub frame_unref : FramePool → ℕ → FramePool
frame_unref p i = update_frame p i λ f. record f { refcount = int_sub f.refcount 1 }

-- The two halves of bb_pool_mp_enqueue: the frame becomes ready, then the consumer is told.
unfoldable pub mark : FramePool → ℕ → FramePool
mark p i = update_frame p i λ f. record f { refcount = int_add f.refcount 1 }

unfoldable pub signal : FramePool → FramePool
signal p = record p { mp_pending = int_add p.mp_pending 1 }

unfoldable pub mp_enqueue : FramePool → ℕ → FramePool
unfolding mark signal
mp_enqueue p i = signal (mark p i)

-- The loop of bb_pool_mp_dequeue from index `i` on: the first frame with two references.
unfoldable pub first_ready : List Frame → ℕ → Option ℕ
first_ready [] i = none
first_ready (f ∷ fs) i = if int_le 2 f.refcount then some i else first_ready fs (i + 1)

-- At `mp_pending == 0` the caller sleeps on the condition variable.
unfoldable pub mp_dequeue : FramePool → Got × FramePool
unfolding first_ready
mp_dequeue p =
    if p.mp_pending == 0
    then (wait, p)
    else let q = record p { mp_pending = int_sub p.mp_pending 1 } in
      elim (first_ready p.frames 0) [ none ↦ (null, q) | some i ↦ (frame i, q) ]

unfoldable pub mp_release : FramePool → ℕ → FramePool
mp_release p i = update_frame p i λ f. record f { refcount = 0 }
