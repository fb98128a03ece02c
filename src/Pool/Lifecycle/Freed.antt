-- ===== src/Pool/Lifecycle/Freed.antt =====
-- What bb_pool_init sets up, and what of it is given back, by which call.
use imx8mp_building_blocks.Base.{
  ℕ, zero, suc, ◌^◌, ◌<◌, ◌≡◌, refl, Bool, true, false, Option, none, some, List, [], ◌∷◌, ◌++◌,
  arith, if◌then◌else◌, replicate, length, length-replicate, Bool-cases, append-nil, inl, inr,
}
use imx8mp_building_blocks.Base.Words.{minus_one, is_neg, int_min}
use imx8mp_building_blocks.Pool.{Pointer, map_failed, heap, mapped, zeroed, no_pool}
use imx8mp_building_blocks.Pool.Spsc.Slots.{refs}
use imx8mp_building_blocks.Pool.Spsc.Order.{IsFresh}
use imx8mp_building_blocks.Pool.Lifecycle.{
  Release, free, free_frames, destroy_locks, release_frames, destroy, init_frames, init,
}

-- The addresses that an allocator grants to the frames from `i` on, up to its first refusal.
unfoldable pub granted : (ℕ → Option ℕ) → ℕ → ℕ → List ℕ
granted alloc zero i = []
granted alloc (suc n) i = elim (alloc i) [ none ↦ [] | some a ↦ a ∷ granted alloc n (suc i) ]

-- No allocation is refused.
unfoldable pub grants : (ℕ → Option ℕ) → ℕ → ℕ → Bool
grants alloc zero i = true
grants alloc (suc n) i = elim (alloc i) [ none ↦ false | some a ↦ grants alloc n (suc i) ]

unfoldable pub free_all : List ℕ → List Release
free_all [] = []
free_all (a ∷ rest) = free (heap a) ∷ free_all rest

release_frames-zeroed : (n : ℕ) → release_frames (replicate n zeroed) ≡ []
unfolding release_frames
release_frames-zeroed zero = refl
release_frames-zeroed (suc n) = release_frames-zeroed n

module _ (malloc mmap : ℕ → Option ℕ) (calloc : Bool) (size : ℕ) where
  init_frames-heap :
      (n i : ℕ)
      → ((init_frames malloc mmap calloc false size n i).0 ≡ grants malloc n i)
        × (release_frames (init_frames malloc mmap calloc false size n i).1
            ≡ free_all (granted malloc n i))
  unfolding init_frames release_frames grants granted free_all
  init_frames-heap zero i = (refl, refl)
  init_frames-heap (suc n) i = ground (arith, init_frames-heap n (suc i), release_frames-zeroed n)

  frames-length :
      (dmabuf : Bool) (n i : ℕ) → length (init_frames malloc mmap calloc dmabuf size n i).1 ≡ n
  unfolding init_frames
  frames-length dmabuf zero i = refl
  frames-length dmabuf (suc n) i =
      ground (arith, frames-length dmabuf n (suc i), length-replicate n zeroed)

  frames-unused :
      (dmabuf : Bool) (n i j : ℕ) → refs (init_frames malloc mmap calloc dmabuf size n i).1 j ≡ 0
  unfolding init_frames
  frames-unused dmabuf zero i j = refl
  frames-unused dmabuf (suc n) i zero = ground arith
  frames-unused dmabuf (suc n) i (suc j) =
      ground (arith, frames-unused dmabuf n (suc i) j, unused_zeroed n j)
    where
      unused_zeroed : (n j : ℕ) → refs (replicate n zeroed) j ≡ 0
      unused_zeroed zero j = refl
      unused_zeroed (suc n) zero = refl
      unused_zeroed (suc n) (suc j) = unused_zeroed n j

-- A pool of heap buffers: bb_pool_init succeeds exactly when every buffer is granted. What it
-- gives back itself, with what bb_pool_destroy gives back of the pool that it leaves, is each
-- granted buffer, once, by `free`, and then the array and the locks.
pub init-destroy :
    (malloc mmap : ℕ → Option ℕ) (size count : ℕ)
    → count < int_min
    → let (status, p, released) = init malloc mmap true count size false in
      (status ≡ (if grants malloc count 0 then 0 else minus_one))
      × (released ++ (destroy p).1
          ≡ free_all (granted malloc count 0) ++ free_frames ∷ destroy_locks ∷ [])
unfolding init destroy
init-destroy malloc mmap size count small =
    let (done, freed) = init_frames-heap malloc mmap true size count 0 in
    let positive : is_neg count ≡ false = ground arith in
    elim (Bool-cases (grants malloc count 0)) [
      | inl all ↦ rw (positive, done, all, freed) (refl, refl)
      | inr short ↦ rw (positive, done, short, freed) (refl, append-nil _)
    ]

accepted_pool :
    (malloc mmap : ℕ → Option ℕ) (size count : ℕ) (dmabuf : Bool)
    → (init malloc mmap true count size dmabuf).0 ≡ 0
    → (init malloc mmap true count size dmabuf).1 ≡ record no_pool {
      allocated = true;
      frames = (init_frames malloc mmap true dmabuf size count 0).1;
      count = count;
    }
unfolding init
accepted_pool malloc mmap size count dmabuf accepted = ground arith

-- A pool that bb_pool_init accepts is fresh: both indices at 0 and no frame in use, whatever the
-- kind of its buffers.
pub init-IsFresh :
    (malloc mmap : ℕ → Option ℕ) (size count : ℕ) (dmabuf : Bool)
    → 0 < count
    → count < 2 ^ 30
    → (init malloc mmap true count size dmabuf).0 ≡ 0
    → IsFresh (init malloc mmap true count size dmabuf).1
init-IsFresh malloc mmap size count dmabuf positive small accepted =
    rw (accepted_pool malloc mmap size count dmabuf accepted) (record {
      positive = positive;
      small = small;
      sized = frames-length malloc mmap true size dmabuf count 0;
      written = refl;
      read = refl;
      unused = frames-unused malloc mmap true size dmabuf count 0;
    })

-- What `mmap` leaves in the frames from `i` on.
unfoldable pub mappings : (ℕ → Option ℕ) → ℕ → ℕ → List Pointer
mappings mmap zero i = []
mappings mmap (suc n) i =
    elim (mmap i) [ none ↦ map_failed | some a ↦ mapped a ] ∷ mappings mmap n (suc i)

unfoldable pub free_pointers : List Pointer → List Release
free_pointers [] = []
free_pointers (q ∷ rest) = free q ∷ free_pointers rest

init_frames-mapped :
    (malloc mmap : ℕ → Option ℕ) (size n i : ℕ)
    → ((init_frames malloc mmap true true size n i).0 ≡ true)
      × (release_frames (init_frames malloc mmap true true size n i).1
          ≡ free_pointers (mappings mmap n i))
unfolding init_frames release_frames mappings free_pointers
init_frames-mapped malloc mmap size zero i = (refl, refl)
init_frames-mapped malloc mmap size (suc n) i =
    ground (arith, init_frames-mapped malloc mmap size n (suc i))

-- A pool with `use_dmabuf`, before any descriptor is imported: bb_pool_init succeeds whatever
-- `mmap` answers, and bb_pool_destroy hands every mapping, and every `MAP_FAILED`, to `free`.
pub init_dmabuf-destroy :
    (malloc mmap : ℕ → Option ℕ) (size count : ℕ)
    → count < int_min
    → let (status, p, released) = init malloc mmap true count size true in
      (status ≡ 0)
      × (released ≡ [])
      × ((destroy p).1 ≡ free_pointers (mappings mmap count 0) ++ free_frames ∷ destroy_locks ∷ [])
unfolding init destroy
init_dmabuf-destroy malloc mmap size count small =
    ground (arith, init_frames-mapped malloc mmap size count 0)
