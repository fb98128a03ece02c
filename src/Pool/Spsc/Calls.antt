-- ===== src/Pool/Spsc/Calls.antt =====
-- The calls of the queue, whole: their results in every state that the threads reach, and each
-- call as a run of one thread's steps.
use imx8mp_building_blocks.Base.{
  ℕ, ◌+◌, ◌-◌, ◌%◌, ◌≤◌, ◌<◌, ◌≡◌, refl, ap, ◌∙◌, arith, true, false, ltb, if◌then◌else◌,
  Bool-cases, inl, inr, ◌∷◌, [], ◌++◌, ◌⊎◌, length, Bool, List, append-nil,
}
use imx8mp_building_blocks.Base.Words.{int_min}
use native.Mathlib.Nat.{add-mod_right}
use imx8mp_building_blocks.Pool.{
  Frame, FramePool, Got, frame, claim, peek, advance, sp_acquire, sp_dequeue, is_full,
}
use imx8mp_building_blocks.Pool.Spsc.{
  Producer, Consumer, System, acquire_load, acquire_full, acquire_check, acquire_claim,
  acquire_taken, dequeue_load, dequeue_empty, dequeue_check, dequeue_peek, dequeue_advance, Reach,
  here, next, start, content, frame_at,
}
use imx8mp_building_blocks.Pool.Spsc.Slots.{refs}
use imx8mp_building_blocks.Pool.Spsc.Inv.{Inv, holds, reads, claim_lem, peek_lem}
use imx8mp_building_blocks.Pool.Spsc.Moves.{inside}
use imx8mp_building_blocks.Pool.Spsc.Order.{IsFresh, Reach-Inv}

module _ {s : System} (v : Inv s) (quiet : s.producer ≡ Producer.idle) where
  open s use {pool}
  open pool use {frames, count, write_idx, read_idx}

  none_held : holds s.producer ≡ 0
  none_held = rw quiet refl

  claim_free : write_idx + reads s.consumer < read_idx + count → refs frames (write_idx % count) ≡ 0
  claim_free lt = v.live.free write_idx (omega (arith, none_held)) lt

  claim_busy :
      write_idx < read_idx + count
      → read_idx + count ≤ write_idx + reads s.consumer
      → refs frames (write_idx % count) ≡ 1
  claim_busy lt full =
      let d = reads s.consumer in
      let e : write_idx ≡ read_idx - d + count = omega (arith, v.live.room, v.live.back) in
      let same : write_idx % count ≡ (read_idx - d) % count =
        ap (λ k. k % count) e ∙ add-mod_right (read_idx - d) count in
      omega (
        arith,
        ap (refs frames) same,
        v.live.busy (read_idx - d) (omega (arith, v.live.back))
            (omega (arith, v.live.positive, none_held)),
      )

  acquire-eq : (sp_acquire pool).0 ≡ (
      if ltb (write_idx + reads s.consumer) (read_idx + count)
      then frame (write_idx % count)
      else Got.null)
  unfolding sp_acquire
  acquire-eq = ground (
    arith,
    claim_lem pool write_idx v.live.range (inside v write_idx),
    claim_free,
    claim_busy,
    v.live.order,
    v.live.range,
    v.live.small,
    v.live.room,
  )

module _ {s : System} (v : Inv s) where
  open s use {pool}
  open pool use {frames, count, write_idx, read_idx}

  pub dequeue-eq : sp_dequeue pool ≡ (
      if ltb read_idx write_idx then (frame (read_idx % count), advance pool) else (Got.null, pool))
  unfolding sp_dequeue
  dequeue-eq = ground (
    arith,
    peek_lem pool read_idx,
    inside v read_idx,
    v.live.busy read_idx,
    v.live.order,
    v.live.range,
  )

-- In every state of the two threads in which the producer stands outside, bb_pool_sp_acquire gives
-- the slot of the write index, or NULL exactly when the frames committed and the one being read
-- fill the pool; it never goes outside the array.
pub acquire_exact :
    {p : FramePool} {s : System}
    → IsFresh p
    → Reach (start p) s
    → s.producer ≡ Producer.idle
    → (sp_acquire s.pool).0 ≡ (
        if ltb (s.pool.write_idx + reads s.consumer) (s.pool.read_idx + s.pool.count)
        then frame (s.pool.write_idx % s.pool.count)
        else Got.null)
acquire_exact f r quiet = acquire-eq (Reach-Inv f r) quiet

-- In every state of the two threads, bb_pool_sp_dequeue takes the frame of the read index and
-- steps over it, or gives NULL and changes nothing exactly when no committed frame is left.
pub dequeue_exact :
    {p : FramePool} {s : System}
    → IsFresh p
    → Reach (start p) s
    → sp_dequeue s.pool ≡ (
        if ltb s.pool.read_idx s.pool.write_idx
        then (frame (s.pool.read_idx % s.pool.count), advance s.pool)
        else (Got.null, s.pool))
dequeue_exact f r = dequeue-eq (Reach-Inv f r)

-- The producer after a call that gave `g`.
abbrev pub after_acquire : Got → Producer
after_acquire (frame i) = Producer.filling i
after_acquire _ = Producer.idle

sp_acquire_lem :
    (p : FramePool)
    → sp_acquire p
      ≡ (if is_full p.count p.write_idx p.read_idx then (Got.null, p) else claim p p.write_idx)
unfolding sp_acquire
sp_acquire_lem p = refl

claim_cases :
    (p : FramePool) (w : ℕ)
    → w < int_min
    → w % p.count < length p.frames
    → ((claim p w).0 ≡ frame (w % p.count)) ⊎ (claim p w ≡ (Got.null, p))
claim_cases p w small within = ground (arith, claim_lem p w small within)

-- bb_pool_sp_acquire is a run of the producer's steps with none of the consumer's between them.
pub acquire_run :
    {p : FramePool} {s : System}
    → IsFresh p
    → Reach (start p) s
    → s.producer ≡ Producer.idle
    → Reach s
        (record s { pool = (sp_acquire s.pool).1; producer = after_acquire (sp_acquire s.pool).0 })
acquire_run {s = s} f r quiet = rw sp_acquire_lem (elim (Bool-cases full) [
  | inl stop ↦ rw stop (next (next here (acquire_load quiet)) (acquire_full w refl stop))
  | inr go ↦ rw go (elim (claim_cases s.pool w v.live.range (inside v w)) [
    | inl won ↦ rw won (next (checking go) (acquire_claim w (w % s.pool.count) refl won))
    | inr lost ↦ rw lost (next (checking go) (acquire_taken w refl (ap (λ x. x.0) lost)))
  ])
])
  where
    v : Inv s
    v = Reach-Inv f r

    w : ℕ
    w = s.pool.write_idx

    full : Bool
    full = is_full s.pool.count w s.pool.read_idx

    checking : full ≡ false → Reach s (record s { producer = Producer.checked w })
    checking go = next (next here (acquire_load quiet)) (acquire_check w refl go)

-- The consumer after a call that gave `g`, and the frames that it has taken.
abbrev pub after_dequeue : Got → Consumer
after_dequeue (frame i) = Consumer.reading i
after_dequeue _ = Consumer.idle

abbrev pub taken : FramePool → Got → List Frame
taken p (frame i) = content (frame_at p i) ∷ []
taken p _ = []

-- bb_pool_sp_dequeue is a run of the consumer's steps with none of the producer's between them.
pub dequeue_run :
    {p : FramePool} {s : System}
    → IsFresh p
    → Reach (start p) s
    → s.consumer ≡ Consumer.idle
    → Reach s (record s {
      pool = (sp_dequeue s.pool).1;
      consumer = after_dequeue (sp_dequeue s.pool).0;
      received = s.received ++ taken s.pool (sp_dequeue s.pool).0;
    })
dequeue_run {s = s} f r quiet = rw (dequeue-eq v) (elim (Bool-cases (ltb r0 w)) [
  | inl more ↦ rw more (next (peeked more) (dequeue_advance (r0 % s.pool.count) refl))
  | inr done ↦
      rw (done, append-nil s.received)
        (next (next here (dequeue_load quiet))
          (dequeue_empty w refl (ground (arith, v.live.range, v.live.order))))
])
  where
    v : Inv s
    v = Reach-Inv f r

    w : ℕ
    w = s.pool.write_idx

    r0 : ℕ
    r0 = s.pool.read_idx

    found : r0 < w → peek s.pool r0 ≡ frame (r0 % s.pool.count)
    found lt =
        peek_lem s.pool r0 (omega (arith, v.live.range)) (inside v r0)
          (v.live.busy r0 (omega arith) (omega arith))

    peeked : ltb r0 w ≡ true → Reach s (record s { consumer = Consumer.ready (r0 % s.pool.count) })
    peeked more =
        next
          (next (next here (dequeue_load quiet))
            (dequeue_check w refl (ground (arith, v.live.range))))
          (dequeue_peek r0 (r0 % s.pool.count) refl (found (ground arith)))
