-- ===== src/Audio/Through/Capture.antt =====
-- A round of the capture thread on an empty pool.
use imx8mp_building_blocks.Base.{
  ℕ, zero, suc, ◌+◌, ◌%◌, ◌^◌, ◌<◌, ◌≡◌, ◌∙◌, refl, ap, List, [], ◌∷◌, arith, length, set,
  get_or-set_self, length-set,
}
use imx8mp_building_blocks.Base.Bytes.{Bytes}
use imx8mp_building_blocks.Base.Words.{int_min, int_add}
use imx8mp_building_blocks.Pool.{
  Frame, zeroed, FramePool, Got, frame, update_frame, sp_acquire, sp_commit, sp_dequeue, advance,
  sp_release,
}
use imx8mp_building_blocks.Pool.Spsc.Slots.{refs, refs-set, frames-update_frame}
use imx8mp_building_blocks.Audio.{Stream, frames_to_bytes, overwrite}
use imx8mp_building_blocks.Audio.Rounds.{
  Answer, frames, again, Round, quiet, counted, capture_drop, capture_frame, capture_round,
}
use imx8mp_building_blocks.Pool.Spsc.{frame_at}
use imx8mp_building_blocks.Pool.Spsc.Inv.{claim_lem, peek_lem}
use native.Mathlib.Nat.{mod-lt}

pub set-set {ℓ} : {A : Type ℓ} (xs : List A) (i : ℕ) (x y : A) → set (set xs i x) i y ≡ set xs i y
set-set [] i x y = refl
set-set (z ∷ xs) zero x y = refl
set-set (z ∷ xs) (suc i) x y = ap (λ r. z ∷ r) (set-set xs i x y)

-- Two writes of the same slot are one.
pub update-set :
    (p : FramePool) (i : ℕ) (f : Frame) (g : Frame → Frame)
    → i < length p.frames
    → update_frame (record p { frames = set p.frames i f }) i g
      ≡ record p { frames = set p.frames i (g f) }
update-set p i f g lt =
    rw
      (
        frames-update_frame (record p { frames = set p.frames i f }) i g
            (omega (arith, length-set p.frames i f)),
        get_or-set_self p.frames i f zeroed lt,
        set-set p.frames i f (g f),
      )
      refl

-- A lock-free pool in which nothing is in use.
pub record IsEmpty (p : FramePool) : Type 0 where
  pub positive : 0 < p.count
  pub small : p.count < 2 ^ 30
  pub sized : length p.frames ≡ p.count
  pub level : p.read_idx ≡ p.write_idx
  pub range : p.write_idx + 1 < int_min
  pub unused : (i : ℕ) → refs p.frames i ≡ 0

abbrev pub slot : FramePool → ℕ
slot p = p.write_idx % p.count

-- The pool with one committed frame, in the slot that was free.
abbrev pub filled : FramePool → Frame → FramePool
filled p f = record p { frames = set p.frames (slot p) f; write_idx = p.write_idx + 1 }

-- The pool after that frame has been taken and given back.
abbrev pub emptied : FramePool → Frame → FramePool
emptied p f = record p {
  frames = set p.frames (slot p) (record f { refcount = 0 });
  write_idx = p.write_idx + 1;
  read_idx = p.write_idx + 1;
}

module _ {p : FramePool} (v : IsEmpty p) where
  pub inside : slot p < length p.frames
  inside = omega (arith, mod-lt p.write_idx v.positive, v.sized)

  pub acquire-empty : sp_acquire p ≡ (
    frame (slot p),
    record p { frames = set p.frames (slot p) (record (frame_at p (slot p)) { refcount = 1 }) },
  )
  unfolding sp_acquire
  acquire-empty = ground (
    arith,
    claim_lem p p.write_idx (omega (arith, v.range)) inside,
    v.unused (slot p),
    v.level,
    v.positive,
    v.small,
    v.range,
  )

  module _ (f : Frame) (one : f.refcount ≡ 1) where
    pub dequeue-filled :
        sp_dequeue (filled p f)
        ≡ (frame (slot p), record (filled p f) { read_idx = p.write_idx + 1 })
    unfolding sp_dequeue advance
    dequeue-filled = rw v.level (
        rw
          (peek_lem (filled p f) p.write_idx (omega (arith, v.range))
            (omega (arith, length-set p.frames (slot p) f, inside))
            (ground (arith, refs-set p.frames (slot p) (slot p) f inside, one)))
          (ground (arith, v.range, v.level)))

    pub release-filled :
        sp_release (record (filled p f) { read_idx = p.write_idx + 1 }) (slot p) ≡ emptied p f
    unfolding sp_release
    release-filled =
        update-set (record p { write_idx = p.write_idx + 1; read_idx = p.write_idx + 1 }) (slot p) f
          (λ g. record g { refcount = 0 }) inside

    pub emptied-IsEmpty : p.write_idx + 2 < int_min → IsEmpty (emptied p f)
    emptied-IsEmpty more = record {
      positive = v.positive;
      small = v.small;
      sized = length-set p.frames (slot p) _ ∙ v.sized;
      level = refl;
      range = omega arith;
      unused = λ i.
          ground
            (arith, refs-set p.frames (slot p) i (record f { refcount = 0 }) inside, v.unused i);
    }

-- What capture_thread_fn makes of its frame.
abbrev pub captured : ℕ → Bytes → Stream → Frame
captured n bytes s =
    let f = frame_at s.sp_pool (slot s.sp_pool) in
    record f {
      bytes = overwrite bytes f.bytes;
      size = frames_to_bytes n s.cfg.channels s.cfg.fmt;
      refcount = 1;
    }

-- A round of the capture thread after bb_pool_sp_acquire.
pub capture_got : Answer → ℕ → Stream → Got × FramePool → Round
capture_got a x s (got, p) = elim got [
  | frame i ↦ capture_frame a x (record s { sp_pool = p }) i
  | _ ↦ capture_drop a x s
]

-- The end of a round that has read `n` frames into the pool.
pub committed : ℕ → Stream → FramePool → Round
committed n s q =
    quiet again 0 (record s { sp_pool = sp_commit q; cap_frames = counted s.cap_frames n })

pub capture_round-empty :
    (n : ℕ) (bytes : Bytes) (s : Stream)
    → IsEmpty s.sp_pool
    → capture_round (frames n bytes) 0 s
      ≡ quiet again 0 (record s {
        sp_pool = filled s.sp_pool (captured n bytes s);
        cap_frames = counted s.cap_frames n;
      })
unfolding capture_round capture_frame sp_commit capture_got committed
capture_round-empty n bytes s v =
    ap (capture_got (frames n bytes) 0 s) (acquire-empty v)
    ∙ ap (λ q. committed n s q) written
    ∙ ap
        (λ w. quiet again 0 (record s {
          sp_pool = record (filled s.sp_pool (captured n bytes s)) { write_idx = w };
          cap_frames = counted s.cap_frames n;
        }))
        no_wrap
  where
    no_wrap : int_add s.sp_pool.write_idx 1 ≡ s.sp_pool.write_idx + 1
    no_wrap = omega (arith, v.range)

    written :
        update_frame
          (record s.sp_pool {
            frames =
                set s.sp_pool.frames
                  (slot s.sp_pool)
                  (record (frame_at s.sp_pool (slot s.sp_pool)) { refcount = 1 });
          })
          (slot s.sp_pool)
          (λ f. record f {
            bytes = overwrite bytes f.bytes;
            size = frames_to_bytes n s.cfg.channels s.cfg.fmt;
          })
        ≡ record s.sp_pool { frames = set s.sp_pool.frames (slot s.sp_pool) (captured n bytes s) }
    written = update-set s.sp_pool (slot s.sp_pool) _ _ (inside v)
