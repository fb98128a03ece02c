-- ===== src/Audio/Sentinel.antt =====
-- The frame of size 0 with which the codec thread of middleware/bb_audio_stream.c ends the playback thread.
use imx8mp_building_blocks.Base.{
  ℕ, suc, ◌<◌, ◌≡◌, ◌≢◌, ◌∙◌, ◌⊎◌, refl, ap, sym, Option, none, some, List, [], ◌∷◌, arith,
  Option-cases, inl, inr, length, length-set, get_elem?,
}
use imx8mp_building_blocks.Base.Words.{int_add}
use imx8mp_building_blocks.Pool.{
  Frame, FramePool, wait, mp_enqueue, mp_dequeue, mp_release, update_frame, first_free, first_ready,
  mark, signal,
}
use imx8mp_building_blocks.Pool.Spsc.Slots.{refs}
use imx8mp_building_blocks.Pool.Spsc.Order.{IsFresh}
use imx8mp_building_blocks.Pool.Mpsc.{
  Queue, start, Step, acquire, enqueue_mark, enqueue_signal, dequeue, release, Reach, here, next,
}
use imx8mp_building_blocks.Pool.Mpsc.Scan.{first_free-Finds}
use imx8mp_building_blocks.Pool.Mpsc.Ready.{
  ready, held, Inv, acquired, mp_acquire_lem, mp_dequeue_lem, dequeued, ready-le-length,
}
use imx8mp_building_blocks.Pool.Mpsc.Balance.{Reach-Inv}
use imx8mp_building_blocks.Audio.Rounds.{send_sentinel, sent_empty}

abbrev pub or_else : FramePool → Option FramePool → FramePool
or_else p none = p
or_else p (some q) = q

-- The pool after a try to send the frame.
abbrev pub after_try : FramePool → FramePool
after_try p = or_else p (send_sentinel p)

length-update_frame :
    (p : FramePool) (i : ℕ) (g : Frame → Frame)
    → length (update_frame p i g).frames ≡ length p.frames
length-update_frame p i g = elim (Option-cases (get_elem? p.frames i)) [
  | inl e ↦ rw (e, update_frame) refl
  | inr (f, e) ↦ rw (e, update_frame) (length-set p.frames i (g f))
]

update-pending :
    (p : FramePool) (i : ℕ) (g : Frame → Frame) → (update_frame p i g).mp_pending ≡ p.mp_pending
update-pending p i g = elim (Option-cases (get_elem? p.frames i)) [
  | inl e ↦ rw (e, update_frame) refl
  | inr (f, e) ↦ rw (e, update_frame) refl
]

length-acquired : (p : FramePool) (o : Option ℕ) → length (acquired p o).1.frames ≡ length p.frames
length-acquired p none = refl
length-acquired p (some i) = length-update_frame p i _

length-mp_dequeue : (p : FramePool) → length (mp_dequeue p).1.frames ≡ length p.frames
unfolding mp_dequeue
length-mp_dequeue p = ground arith

Step-length : {q t : Queue} → Step q t → length t.pool.frames ≡ length q.pool.frames
unfolding mark signal mp_release
Step-length {q} (acquire i e) =
    rw mp_acquire_lem (length-acquired q.pool (first_free q.pool.frames 0))
Step-length {q} (enqueue_mark i lt e) = length-update_frame q.pool i _
Step-length (enqueue_signal n e) = refl
Step-length {q} (dequeue i free e) = length-mp_dequeue q.pool
Step-length {q} (release i e) = length-update_frame q.pool i _

Reach-length :
    {p : FramePool} {q : Queue} → Reach (start p) q → length q.pool.frames ≡ length p.frames
Reach-length here = refl
Reach-length (next r st) = Step-length st ∙ Reach-length r

-- Frames with two references each are all ready.
ready_all : (fs : List Frame) → ((i : ℕ) → i < length fs → refs fs i ≡ 2) → ready fs ≡ length fs
unfolding ready
ready_all [] h = refl
ready_all (f ∷ fs) h =
    ground (arith, h 0 (omega arith), ready_all fs (λ i lt. h (suc i) (omega arith)))

enqueue-pending : (p : FramePool) (i : ℕ) → (mp_enqueue p i).mp_pending ≡ int_add p.mp_pending 1
unfolding mp_enqueue mark signal
enqueue-pending p i = ap (λ n. int_add n 1) (update-pending p i _)

sentinel_lem :
    (p : FramePool) → after_try p ≡ or_else p (sent_empty (acquired p (first_free p.frames 0)))
unfolding send_sentinel
sentinel_lem p = ap (λ g. or_else p (sent_empty g)) (mp_acquire_lem p)

-- A try finds no free frame and changes nothing, or it counts one more frame.
try_cases :
    (p : FramePool)
    → ((first_free p.frames 0 ≡ none) × (after_try p ≡ p))
      ⊎ ((after_try p).mp_pending ≡ int_add p.mp_pending 1)
try_cases p = elim (Option-cases (first_free p.frames 0)) [
  | inl e ↦ inl (e, sentinel_lem p ∙ ap (λ o. or_else p (sent_empty (acquired p o))) e)
  | inr (i, e) ↦ inr (
      ap (λ q. q.mp_pending) (sentinel_lem p ∙ ap (λ o. or_else p (sent_empty (acquired p o))) e)
      ∙ enqueue-pending (update_frame (update_frame p i _) i _) i
      ∙ ap (λ n. int_add n 1) (update-pending (update_frame p i _) i _ ∙ update-pending p i _))
]

module _ {q : Queue} (v : Inv q) (outside : q.taken ≡ none) (counted : q.unsignalled ≡ 0) where
  -- With no free frame and none in the hands of a producer, every frame waits for the consumer.
  full-pending :
      0 < length q.pool.frames
      → ((i : ℕ) → refs q.pool.frames i ≢ 1)
      → first_free q.pool.frames 0 ≡ none
      → q.pool.mp_pending ≢ 0
  full-pending some_frames unheld e z =
      let none_free = rw e at (first_free-Finds q.pool.frames 0) in
      let all =
        ready_all q.pool.frames (λ i lt. ground (arith, none_free i lt, unheld i, v.counts i)) in
      omega (arith, all, v.balance, ap held outside, counted, z, some_frames)

  try-pending :
      0 < length q.pool.frames
      → ((i : ℕ) → refs q.pool.frames i ≢ 1)
      → (after_try q.pool).mp_pending ≢ 0
  try-pending some_frames unheld = elim (try_cases q.pool) [
    | inl (e, same) ↦ rw same (full-pending some_frames unheld e)
    | inr told ↦ λ z. omega (arith, told, z, v.balance, v.short, ready-le-length q.pool.frames)
  ]

not_waiting : (p : FramePool) (o : Option ℕ) → (dequeued p o).0 ≡ wait → ⊥
not_waiting p none e = cc
not_waiting p (some i) e = cc

-- The codec thread ends as the only producer, holding no frame, while the playback thread is outside of the pool. After
-- one try to send the frame of size 0, whether there was a free frame or not, bb_pool_mp_dequeue does not wait.
pub sentinel_wakes :
    {p : FramePool} {q : Queue}
    → IsFresh p
    → p.mp_pending ≡ 0
    → Reach (start p) q
    → q.taken ≡ none
    → q.unsignalled ≡ 0
    → ((i : ℕ) → refs q.pool.frames i ≢ 1)
    → (mp_dequeue (after_try q.pool)).0 ≢ wait
sentinel_wakes {p} {q} f e r outside counted unheld waits =
    let pending =
      try-pending (Reach-Inv f e r) outside counted
        (omega (arith, Reach-length r, f.sized, f.positive)) unheld in
    not_waiting (after_try q.pool) (first_ready (after_try q.pool).frames 0)
      (sym (ap (λ x. x.0) (mp_dequeue_lem (after_try q.pool) pending)) ∙ waits)
