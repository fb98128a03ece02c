-- ===== src/Pool/Lifecycle.antt =====
-- bb_pool_init and bb_pool_destroy of libbb/bb_pool.c. The results of the allocator are
-- parameters: `malloc` and `mmap` give the address for the buffer of each frame, or none when the
-- call fails, and `calloc` tells whether the array of frames is granted.
pub mod Freed
mod Tests
use imx8mp_building_blocks.Base.{
  ℕ, zero, suc, ◌+◌, Bool, true, false, Option, none, some, List, [], ◌∷◌, ◌++◌, if◌then◌else◌,
  replicate,
}
use imx8mp_building_blocks.Base.Words.{minus_one, is_neg}
use imx8mp_building_blocks.Pool.{
  Pointer, null, map_failed, heap, mapped, Frame, zeroed, FramePool, no_pool,
}

-- What bb_pool_destroy gives back to the system.
pub data Release : Type 0 where
  unmap : Pointer → ℕ → Release
  close : ℕ → Release
  free : Pointer → Release
  free_frames : Release
  destroy_locks : Release

unfoldable pub release_frame : Frame → List Release
release_frame f = elim f.buffer [
  | null ↦ []
  | q ↦ if is_neg f.fd then free q ∷ [] else unmap q f.size ∷ close f.fd ∷ []
]

unfoldable pub release_frames : List Frame → List Release
unfolding release_frame
release_frames [] = []
release_frames (f ∷ fs) = release_frame f ++ release_frames fs

unfoldable pub destroy : FramePool → FramePool × List Release
unfolding release_frames
destroy p =
    if p.allocated
    then (no_pool, release_frames p.frames ++ free_frames ∷ destroy_locks ∷ [])
    else (p, [])

module _ (malloc mmap : ℕ → Option ℕ) (calloc : Bool) where
  -- `malloc` reports failure by NULL, `mmap` by `MAP_FAILED`.
  allocate : Bool → ℕ → Pointer
  allocate true i = elim (mmap i) [ none ↦ map_failed | some a ↦ mapped a ]
  allocate false i = elim (malloc i) [ none ↦ null | some a ↦ heap a ]

  unfoldable pub init_frame : Bool → ℕ → ℕ → Frame
  unfolding allocate
  init_frame dmabuf size i = record zeroed {
    buffer = allocate dmabuf i;
    size = size;
    fd = minus_one;
  }

  -- The loop over the frames from index `i` on, with `n` frames left: whether it ran to the end,
  -- and the frames. What it did not reach is as `calloc` left it.
  unfoldable pub init_frames : Bool → ℕ → ℕ → ℕ → Bool × List Frame
  unfolding init_frame
  init_frames dmabuf size zero i = (true, [])
  init_frames dmabuf size (suc n) i =
      let f = init_frame dmabuf size i in
      let rest = init_frames dmabuf size n (suc i) in
      elim f.buffer [ null ↦ (false, f ∷ replicate n zeroed) | q ↦ (rest.0, f ∷ rest.1) ]

  -- The status, the pool, and what was given back on the way. A `count` below 0 makes a request
  -- for more than there is, which `calloc` refuses.
  unfoldable pub init : ℕ → ℕ → Bool → ℕ × FramePool × List Release
  unfolding init_frames destroy
  init count size dmabuf =
      if is_neg count
      then (minus_one, no_pool, [])
      else if calloc
      then (let made = init_frames dmabuf size count 0 in
          let p : FramePool = record no_pool { allocated = true; frames = made.1; count = count } in
          let (q, released) = destroy p in if made.0 then (0, p, []) else (minus_one, q, released))
      else (minus_one, no_pool, [])
