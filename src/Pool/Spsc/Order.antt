-- ===== src/Pool/Spsc/Order.antt =====
-- Every interleaving of the two threads: which frame each holds, and in which order frames pass.
use imx8mp_building_blocks.Base.{
  ℕ, zero, ◌^◌, suc, ◌-◌, ◌%◌, ◌≤◌, ◌<◌, ◌≡◌, ◌≢◌, refl, sym, ap, List, ◌++◌, arith, length,
}
use imx8mp_building_blocks.Base.Words.{mod_ne}
use imx8mp_building_blocks.Pool.{Frame, FramePool, frame, peek}
use imx8mp_building_blocks.Pool.Spsc.{
  Producer, Consumer, System, Step, acquire_load, acquire_full, acquire_check, acquire_claim,
  acquire_taken, fill, commit, abort, dequeue_load, dequeue_empty, dequeue_check, dequeue_peek,
  dequeue_unready, dequeue_advance, release, Reach, here, next, start,
}
use imx8mp_building_blocks.Pool.Spsc.Slots.{refs, window}
use imx8mp_building_blocks.Pool.Spsc.Inv.{Inv, holds, reads}
use imx8mp_building_blocks.Pool.Spsc.Moves.{
  not_full, not_empty, claim-Inv, fill-Inv, abort-Inv, commit-Inv, advance-Inv, release-Inv,
  peek-checked, producer_goes, consumer_goes, holding, having,
}

-- A pool as bb_pool_init leaves it.
pub record IsFresh (p : FramePool) : Type 0 where
  pub positive : 0 < p.count
  pub small : p.count < 2 ^ 30
  pub sized : length p.frames ≡ p.count
  pub written : p.write_idx ≡ 0
  pub read : p.read_idx ≡ 0
  pub unused : (i : ℕ) → refs p.frames i ≡ 0

pub Inv-start : {p : FramePool} → IsFresh p → Inv (start p)
Inv-start {p} f = record {
  live = record {
    positive = f.positive;
    small = f.small;
    sized = f.sized;
    range = omega (arith, f.written);
    order = omega (arith, f.written, f.read);
    back = omega arith;
    room = omega (arith, f.written);
    busy = λ n lo hi. absurd (omega (arith, f.written));
    free = λ n lo hi. f.unused (n % p.count);
  };
  producer = tt;
  consumer = tt;
  order = rw (f.written, f.read) refl;
}

pub Step-Inv : {s t : System} → Step s t → Inv s → Inv t
Step-Inv (acquire_load e) v = producer_goes v _ (rw e refl) refl
Step-Inv (acquire_full w e h) v = producer_goes v _ (rw e refl) tt
Step-Inv (acquire_check w e h) v =
    let at = (holding v (Producer.loaded w) e).1 in
    producer_goes v _ (rw e refl) (at, omega (arith, at, not_full v w at h))
Step-Inv (acquire_claim w i e h) v = claim-Inv v w i e h
Step-Inv (acquire_taken w e h) v = producer_goes v _ (rw e refl) tt
Step-Inv (fill i c e) v = fill-Inv v i c e
Step-Inv (commit i e small) v = commit-Inv v i e small
Step-Inv (abort i e) v = abort-Inv v i e
Step-Inv (dequeue_load e) v = consumer_goes v _ (rw e refl) (omega arith)
Step-Inv (dequeue_empty w e h) v = consumer_goes v _ (rw e refl) tt
Step-Inv (dequeue_check w e h) v =
    let known = (having v (Consumer.loaded w) e).1 in
    consumer_goes v _ (rw e refl) (refl, omega (arith, known, not_empty v w known h))
Step-Inv {s} (dequeue_peek r i e h) v =
    let known = (having v (Consumer.checked r) e).1 in
    consumer_goes v _ (rw e refl) (ground (arith, known, peek-checked v r e), ground (arith, known))
Step-Inv (dequeue_unready r e h) v = consumer_goes v _ (rw e refl) tt
Step-Inv (dequeue_advance i e) v = advance-Inv v i e
Step-Inv (release i e) v = release-Inv v i e

pub Reach-Inv : {p : FramePool} {s : System} → IsFresh p → Reach (start p) s → Inv s
Reach-Inv f here = Inv-start f
Reach-Inv f (next r st) = Step-Inv st (Reach-Inv f r)

-- However the two threads interleave, they never hold the same slot.
pub exclusive :
    {p : FramePool} {s : System} (i j : ℕ)
    → IsFresh p
    → Reach (start p) s
    → s.producer ≡ Producer.filling i
    → s.consumer ≡ Consumer.reading j
    → i ≢ j
exclusive {s = s} i j f r ei ej =
    let v = Reach-Inv f r in
    let (lp, at) = holding v (Producer.filling i) ei in
    let (lc, back) = having v (Consumer.reading j) ej in
    let h : holds s.producer ≡ 1 = rw ei refl in
    let d : reads s.consumer ≡ 1 = rw ej refl in
    rw (at, back)
      λ e.
        mod_ne s.pool.count (s.pool.read_idx - 1) s.pool.write_idx
          (omega (arith, v.live.order, v.live.back)) (omega (arith, v.live.room, v.live.back))
          (sym e)

length-window : (fs : List Frame) (c r n : ℕ) → length (window fs c r n) ≡ n
length-window fs c r zero = refl
length-window fs c r (suc n) = ap suc (length-window fs c (suc r) n)

-- However the two threads interleave, the frames taken are the frames committed, in that order and
-- with their contents, but for the last ones, which are still in the pool: as many as the indices
-- differ by, and no more than the pool has frames.
pub fifo :
    {p : FramePool} {s : System}
    → IsFresh p
    → Reach (start p) s
    → (rest : List Frame) × (s.sent ≡ s.received ++ rest)
      × (length rest ≡ s.pool.write_idx - s.pool.read_idx)
      × (length rest ≤ s.pool.count)
fifo {s = s} f r =
    let v = Reach-Inv f r in
    let fs = s.pool.frames in
    let n : ℕ = s.pool.write_idx - s.pool.read_idx in
    (
      window fs s.pool.count s.pool.read_idx n,
      v.order,
      length-window fs s.pool.count s.pool.read_idx n,
      omega (arith, length-window fs s.pool.count s.pool.read_idx n, v.live.room, v.live.order),
    )

-- A consumer that has seen a committed frame finds its reference count set: the second test of
-- bb_pool_sp_dequeue never fails, and the access is inside the array.
pub ready_when_committed :
    {p : FramePool} {s : System} (r : ℕ)
    → IsFresh p
    → Reach (start p) s
    → s.consumer ≡ Consumer.checked r
    → peek s.pool r ≡ frame (r % s.pool.count)
ready_when_committed r f reach e = peek-checked (Reach-Inv f reach) r e
