-- ===== src/Audio/Shutdown.antt =====
-- The end of the codec thread of middleware/bb_audio_stream.c: the lock-free pool is drained, and the playback thread
-- is woken.
use imx8mp_building_blocks.Base.{
  ℕ, zero, suc, ◌+◌, ◌++◌, ◌-◌, ◌%◌, ◌≤◌, ◌<◌, ◌≡◌, ◌∙◌, refl, ap, sym, ltb, if◌then◌else◌, arith,
  Bool, true, false, Bool-cases, Option-cases, inl, inr, get_elem?,
}
use native.Mathlib.Nat.{mod-eq_of_lt, add-mod_right}
use native.Mathlib.Decide.{dec_lt}
use imx8mp_building_blocks.Pool.{
  Frame, FramePool, Got, frame, advance, sp_dequeue, sp_release, update_frame,
}
use imx8mp_building_blocks.Pool.Spsc.{Producer, Consumer, System, Reach, here, next, start, release}
use imx8mp_building_blocks.Pool.Spsc.Slots.{refs}
use imx8mp_building_blocks.Pool.Spsc.Inv.{Inv, holds, reads}
use imx8mp_building_blocks.Pool.Spsc.Order.{IsFresh, Reach-Inv}
use imx8mp_building_blocks.Pool.Spsc.Calls.{dequeue-eq, dequeue_exact, dequeue_run, taken}
use imx8mp_building_blocks.Audio.Rounds.{drain}

Reach-append : {s t u : System} → Reach s t → Reach t u → Reach s u
Reach-append r here = r
Reach-append r (next q st) = next (Reach-append r q) st

-- A state of the two threads with the pool that the drain leaves, and nothing left in it.
record IsDrained (s : System) (q : FramePool) : Type 0 where
  pub state : System
  pub reached : Reach s state
  pub pool : state.pool ≡ q
  pub outside : state.consumer ≡ Consumer.idle
  pub producer : state.producer ≡ s.producer
  pub level : q.read_idx ≡ s.pool.write_idx
  pub same : q.write_idx ≡ s.pool.write_idx

-- One round of the drain that finds a frame.
abbrev round : System → ℕ → System
round s i = record s {
  pool = sp_release (advance s.pool) i;
  consumer = Consumer.idle;
  received = s.received ++ taken s.pool (frame i);
}

update-indices :
    (p : FramePool) (i : ℕ) (g : Frame → Frame)
    → ((update_frame p i g).write_idx ≡ p.write_idx) × ((update_frame p i g).read_idx ≡ p.read_idx)
update-indices p i g = elim (Option-cases (get_elem? p.frames i)) [
  | inl e ↦ rw (e, update_frame) (refl, refl)
  | inr (fr, e) ↦ rw (e, update_frame) (refl, refl)
]

drain-null : (n : ℕ) (p : FramePool) → sp_dequeue p ≡ (Got.null, p) → drain n p ≡ p
unfolding drain
drain-null zero p e = refl
drain-null (suc n) p e = rw (e, drain) refl

drain-frame :
    (n i : ℕ) (p q : FramePool)
    → sp_dequeue p ≡ (frame i, q)
    → drain (suc n) p ≡ drain n (sp_release q i)
unfolding drain
drain-frame n i p q e = rw (e, drain) (ap (λ (d : Got × FramePool). drain n (sp_release d.1 i)) e)

already :
    (s : System)
    → s.consumer ≡ Consumer.idle
    → s.pool.read_idx ≡ s.pool.write_idx
    → IsDrained s s.pool
already s quiet level = record {
  state = s;
  reached = here;
  pool = refl;
  outside = quiet;
  producer = refl;
  level = level;
  same = refl;
}

drain-zero : {p : FramePool} → drain zero p ≡ p
unfolding drain
drain-zero = refl

-- A round ahead of the drain.
after :
    {s : System} (i : ℕ) {q : FramePool}
    → Reach s (round s i)
    → (round s i).pool.write_idx ≡ s.pool.write_idx
    → IsDrained (round s i) q
    → IsDrained s q
after i step w d = record {
  state = d.state;
  reached = Reach-append step d.reached;
  pool = d.pool;
  outside = d.outside;
  producer = d.producer;
  level = d.level ∙ w;
  same = d.same ∙ w;
}

module _ {p : FramePool} (f : IsFresh p) where
  dequeued :
      (s : System)
      → Reach (start p) s
      → sp_dequeue s.pool ≡ (
          if ltb s.pool.read_idx s.pool.write_idx
          then (frame (s.pool.read_idx % s.pool.count), advance s.pool)
          else (Got.null, s.pool))
  dequeued s r = dequeue_exact f r

  round-Reach :
      (s : System) (i : ℕ)
      → Reach (start p) s
      → s.consumer ≡ Consumer.idle
      → sp_dequeue s.pool ≡ (frame i, advance s.pool)
      → Reach s (round s i)
  round-Reach s i r quiet e = next (rw e at (dequeue_run f r quiet)) (release i refl)

  advance-level :
      (s : System) (i : ℕ)
      → Reach (start p) s
      → s.pool.read_idx < s.pool.write_idx
      → ((round s i).pool.write_idx ≡ s.pool.write_idx)
        × ((round s i).pool.read_idx ≡ s.pool.read_idx + 1)
  unfolding sp_release advance
  advance-level s i r more =
      let v = Reach-Inv f r in
      let (w, rd) = update-indices (advance s.pool) i (λ g. record g { refcount = 0 }) in
      (omega (arith, w), omega (arith, rd, v.live.range))

  drain-IsDrained :
      (n : ℕ) (s : System)
      → Reach (start p) s
      → s.consumer ≡ Consumer.idle
      → s.pool.write_idx - s.pool.read_idx ≤ n
      → IsDrained s (drain n s.pool)
  drain-IsDrained zero s r quiet le =
      rw drain-zero (already s quiet (omega (arith, le, (Reach-Inv f r).live.order)))
  drain-IsDrained (suc n) s r quiet le = elim (Bool-cases (ltb s.pool.read_idx s.pool.write_idx)) [
    | inr done ↦
        let e : sp_dequeue s.pool ≡ (Got.null, s.pool) = rw done at (dequeued s r) in
        rw (drain-null (suc n) s.pool e)
          (already s quiet (ground (arith, (Reach-Inv f r).live.order, done)))
    | inl more ↦
        let i = s.pool.read_idx % s.pool.count in
        let e : sp_dequeue s.pool ≡ (frame i, advance s.pool) = rw more at (dequeued s r) in
        let lt : s.pool.read_idx < s.pool.write_idx = ground (arith, more) in
        let step = round-Reach s i r quiet e in
        let (w, rd) = advance-level s i r lt in
        rw (drain-frame n i s.pool (advance s.pool) e) (
          after i step w
            (drain-IsDrained n (round s i) (Reach-append r step) refl (omega (arith, w, rd, le))))
  ]

-- Among as many numbers in a row as the modulus, one has the given remainder.
remainder_hit : (w c i : ℕ) → i < c → (n : ℕ) × (w ≤ n) × (n < w + c) × (n % c ≡ i)
remainder_hit zero c i lt = (i, omega arith, omega arith, mod-eq_of_lt lt)
remainder_hit (suc w) c i lt =
    let (n, le, above, e) = remainder_hit w c i lt in
    elim (dec_lt w n) [
      | yes later ↦ (n, omega arith, omega arith, e)
      | no first ↦ (n + c, omega arith, omega arith, add-mod_right n c ∙ e)
    ]

-- A state with nothing left in the pool.
module _ {s : System} (v : Inv s) (level : s.pool.read_idx ≡ s.pool.write_idx)
    (outside : s.consumer ≡ Consumer.idle) where
  nothing_left : sp_dequeue s.pool ≡ (Got.null, s.pool)
  nothing_left = dequeue-eq v ∙ rw level (ground arith)

  all_free : s.producer ≡ Producer.idle → (i : ℕ) → i < s.pool.count → refs s.pool.frames i ≡ 0
  all_free quiet i lt =
      let (n, le, above, e) = remainder_hit s.pool.write_idx s.pool.count i lt in
      let held : holds s.producer ≡ 0 = rw quiet refl in
      let read : reads s.consumer ≡ 0 = rw outside refl in
      ap (refs s.pool.frames) (sym e) ∙ v.live.free n (omega (arith, held)) (omega (arith, read))

-- What happens ahead of a call of bb_pool_sp_dequeue: steps of the capture thread, which take no frame.
abbrev pub Meanwhile : System → System → Type 0
Meanwhile s t = Reach s t × (t.consumer ≡ Consumer.idle) × (t.pool.read_idx ≡ s.pool.read_idx)

-- The drain among the steps of the capture thread, with the number of its rounds that find a frame.
pub data Drains : ℕ → System → System → Type 0 where
  empty : {s t : System} → Meanwhile s t → sp_dequeue t.pool ≡ (Got.null, t.pool) → Drains zero s t
  takes :
      {n : ℕ} {s t u : System} (i : ℕ)
      → Meanwhile s t
      → sp_dequeue t.pool ≡ (frame i, advance t.pool)
      → Drains n (round t i) u
      → Drains (suc n) s u

found : Got → Bool
found (frame i) = true
found Got.null = false
found Got.wait = false
found Got.fault = false

module _ {p : FramePool} (f : IsFresh p) where
  more_left :
      (t : System) (i : ℕ)
      → Reach (start p) t
      → sp_dequeue t.pool ≡ (frame i, advance t.pool)
      → t.pool.read_idx < t.pool.write_idx
  unfolding found
  more_left t i r e = elim (Bool-cases (ltb t.pool.read_idx t.pool.write_idx)) [
    | inl more ↦ ground (arith, more)
    | inr done ↦
        let null : sp_dequeue t.pool ≡ (Got.null, t.pool) = rw done at (dequeued f t r) in
        let clash : true ≡ false = ap (λ d. found d.0) (sym e ∙ null) in absurd (cc)
  ]

  none_left :
      (t : System)
      → Reach (start p) t
      → sp_dequeue t.pool ≡ (Got.null, t.pool)
      → t.pool.read_idx ≡ t.pool.write_idx
  unfolding found
  none_left t r e = elim (Bool-cases (ltb t.pool.read_idx t.pool.write_idx)) [
    | inr done ↦ let order = (Reach-Inv f r).live.order in ground (arith, done)
    | inl more ↦
        let some_frame = (rw more at (dequeued f t r)) in
        let clash : false ≡ true = ap (λ d. found d.0) (sym e ∙ some_frame) in absurd (cc)
  ]

  Drains-end :
      {n : ℕ} {s u : System}
      → Reach (start p) s
      → Drains n s u
      → Reach (start p) u
        × (u.consumer ≡ Consumer.idle)
        × (n + s.pool.read_idx ≡ u.pool.write_idx)
        × (u.pool.read_idx ≡ u.pool.write_idx)
  Drains-end {s = s} r (empty {t = t} (run, quiet, same) e) =
      let r' = Reach-append r run in let level = none_left t r' e in (r', quiet, omega arith, level)
  Drains-end {s = s} r (takes {n = n} {t = t} {u = u} i (run, quiet, same) e rest) =
      let r' = Reach-append r run in
      let lt = more_left t i r' e in
      let step = round-Reach f t i r' quiet e in
      let (w, rd) = advance-level f t i r' lt in
      let (r'', quiet', count, level) = Drains-end (Reach-append r' step) rest in
      (r'', quiet', omega arith, level)

  Drains-alone :
      (n : ℕ) (s : System)
      → Reach (start p) s
      → s.consumer ≡ Consumer.idle
      → n + s.pool.read_idx ≡ s.pool.write_idx
      → (u : System) × Drains n s u × (u.pool ≡ drain n s.pool)
  Drains-alone zero s r quiet count =
      let e : sp_dequeue s.pool ≡ (Got.null, s.pool) =
        nothing_left (Reach-Inv f r) (omega arith) quiet in
      (s, empty (here, quiet, refl) e, sym (drain-null zero s.pool e))
  Drains-alone (suc n) s r quiet count =
      let i = s.pool.read_idx % s.pool.count in
      let lt : s.pool.read_idx < s.pool.write_idx = omega arith in
      let more : ltb s.pool.read_idx s.pool.write_idx ≡ true = ground arith in
      let e : sp_dequeue s.pool ≡ (frame i, advance s.pool) = rw more at (dequeued f s r) in
      let step = round-Reach f s i r quiet e in
      let (w, rd) = advance-level f s i r lt in
      let (u, drains, same) = Drains-alone n (round s i) (Reach-append r step) refl (omega arith) in
      (
        u,
        takes i (here, quiet, refl) e drains,
        same ∙ sym (drain-frame n i s.pool (advance s.pool) e),
      )

-- The drain at the end of the codec thread, from any state that the two threads reach with the thread outside the
-- queue, where the capture thread makes any steps ahead of each call of bb_pool_sp_dequeue: the drain takes every frame
-- that is committed before its last call, which finds the queue empty; if the capture thread holds no frame then, every
-- frame is free. If the capture thread makes no step, the drain ends after as many rounds as frames were committed.
pub drain_empties :
    {p : FramePool} {s u : System} (n : ℕ)
    → IsFresh p
    → Reach (start p) s
    → s.consumer ≡ Consumer.idle
    → Drains n s u
    → (n + s.pool.read_idx ≡ u.pool.write_idx)
      × (u.pool.read_idx ≡ u.pool.write_idx)
      × (u.producer ≡ Producer.idle → (i : ℕ) → i < u.pool.count → refs u.pool.frames i ≡ 0)
      × ((v : System) × Drains (s.pool.write_idx - s.pool.read_idx) s v
          × (v.pool ≡ drain (s.pool.write_idx - s.pool.read_idx) s.pool))
drain_empties {p} {s} n f r quiet d =
    let order = (Reach-Inv f r).live.order in
    let (r', quiet', count, level) = Drains-end f r d in
    (
      count,
      level,
      λ idle. all_free (Reach-Inv f r') level quiet' idle,
      Drains-alone f (s.pool.write_idx - s.pool.read_idx) s r quiet (omega arith),
    )
