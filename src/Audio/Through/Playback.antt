-- ===== src/Audio/Through/Playback.antt =====
-- The rounds of the codec and the playback thread that carry that frame on.
use imx8mp_building_blocks.Base.{
  ℕ, ◌+◌, ◌≡◌, ◌≢◌, ◌∙◌, refl, ap, Bool, false, Option, none, some, List, [], ◌∷◌, ◌==◌,
  if◌then◌else◌, arith, get_or, set, take, get_or-set_self,
}
use imx8mp_building_blocks.Base.Words.{int_le}
use imx8mp_building_blocks.Pool.{
  Frame, zeroed, FramePool, Got, frame, wait, update_frame, sp_release, mp_acquire, mp_enqueue,
  mp_dequeue, mp_release, mark, signal, first_free, first_ready,
}
use imx8mp_building_blocks.Audio.{Stream, frames_to_bytes, bytes_to_frames, overwrite}
use imx8mp_building_blocks.Audio.Rounds.{
  Answer, Encoded, frames, again, leave, blocked, Round, quiet, counted, codec_fill, codec_frame,
  codec_round, playback_frame, playback_round,
}
use imx8mp_building_blocks.Audio.Through.Capture.{
  IsEmpty, slot, filled, emptied, inside, dequeue-filled, release-filled,
}

-- A pool under a mutex in which nothing is pending, and the first frame is free.
pub record IsReady (p : FramePool) (g : Frame) (gs : List Frame) : Type 0 where
  pub listed : p.frames ≡ g ∷ gs
  pub free : g.refcount ≡ 0
  pub none_pending : p.mp_pending ≡ 0

-- What codec_thread_fn makes of the first frame, without a codec.
abbrev pub passed : Frame → Frame → Frame
passed f g = record g {
  bytes = overwrite (take f.size f.bytes) g.bytes;
  size = f.size;
  pts = f.pts;
  frame_num = f.frame_num;
  refcount = 2;
}

pub acquire-ready :
    (p : FramePool) (g : Frame) (gs : List Frame)
    → IsReady p g gs
    → mp_acquire p ≡ (frame 0, record p { frames = record g { refcount = 1 } ∷ gs })
unfolding mp_acquire first_free
acquire-ready p g gs r = rw (r.listed, r.free, update_frame) refl

-- A round of the codec thread after its two calls for frames.
pub codec_got : Encoded → Stream → Got × FramePool → Stream
codec_got e s (got, p) = elim got [ frame i ↦ codec_frame e i (record s { sp_pool = p }) | _ ↦ s ]

pub codec_frame_got : Encoded → ℕ → Stream → Got × FramePool → Stream
codec_frame_got e i s (got, p) = elim got [
  | frame j ↦ record s {
    sp_pool = sp_release s.sp_pool i;
    mp_pool =
        mp_enqueue (update_frame p j (codec_fill s.cfg.codec e (get_or s.sp_pool.frames i zeroed)))
          j;
  }
  | _ ↦ record s {
    drop_frames = counted s.drop_frames s.cap_dev.period_frames;
    sp_pool = sp_release s.sp_pool i;
  }
]

pub codec_round-filled :
    (s : Stream) (p : FramePool) (f g : Frame) (gs : List Frame)
    → IsEmpty p
    → f.refcount ≡ 1
    → IsReady s.mp_pool g gs
    → s.cfg.codec ≡ false
    → codec_round none (record s { sp_pool = filled p f }) ≡ record s {
      sp_pool = emptied p f;
      mp_pool = record s.mp_pool { frames = passed f g ∷ gs; mp_pending = 1 };
    }
unfolding codec_round codec_frame codec_fill mp_enqueue mark signal codec_got codec_frame_got
codec_round-filled s p f g gs v one r plain =
    ap (codec_got none (record s { sp_pool = filled p f })) (dequeue-filled v f one)
    ∙ ap (codec_frame_got none (slot p) t) (acquire-ready s.mp_pool g gs r)
    ∙ ap (λ q. record s { sp_pool = q; mp_pool = enqueued s.cfg.codec kept s.mp_pool.mp_pending })
        (release-filled v f one)
    ∙ ap (λ b. record s { sp_pool = emptied p f; mp_pool = enqueued b kept s.mp_pool.mp_pending })
        plain
    ∙ ap (λ h. record s { sp_pool = emptied p f; mp_pool = enqueued false h s.mp_pool.mp_pending })
        (get_or-set_self p.frames (slot p) f zeroed (inside v))
    ∙ ap (λ n. record s { sp_pool = emptied p f; mp_pool = enqueued false f n }) r.none_pending
  where
    t : Stream
    t = record s { sp_pool = record (filled p f) { read_idx = p.write_idx + 1 } }

    kept : Frame
    kept = get_or (set p.frames (slot p) f) (slot p) zeroed

    enqueued : Bool → Frame → ℕ → FramePool
    enqueued codec h n =
        mp_enqueue
          (record s.mp_pool {
            frames = codec_fill codec none h (record g { refcount = 1 }) ∷ gs;
            mp_pending = n;
          })
          0

-- A round of the playback thread after bb_pool_mp_dequeue.
pub playback_got : Answer → ℕ → Stream → Got × FramePool → Round
playback_got a x s (got, p) = elim got [
  | frame i ↦ playback_frame a x (record s { mp_pool = p }) i
  | wait ↦ quiet blocked x s
  | _ ↦ quiet again x (record s { mp_pool = p })
]

pub dequeue-ready :
    (p : FramePool) (g : Frame) (gs : List Frame)
    → g.refcount ≡ 2
    → mp_dequeue (record p { frames = g ∷ gs; mp_pending = 1 })
      ≡ (frame 0, record p { frames = g ∷ gs; mp_pending = 0 })
unfolding mp_dequeue first_ready
dequeue-ready p g gs two = ap (λ n. scanned (if int_le 2 n then some 0 else first_ready gs 1)) two
  where
    scanned : Option ℕ → Got × FramePool
    scanned o = elim o [
      | none ↦ (Got.null, record p { frames = g ∷ gs; mp_pending = 0 })
      | some i ↦ (frame i, record p { frames = g ∷ gs; mp_pending = 0 })
    ]

-- The end of a round of the playback thread that has written `m` frames of the first frame.
abbrev pub written : ℕ → Stream → Frame → List Frame → Round
written m s g gs =
    let n = bytes_to_frames g.size s.cfg.channels s.cfg.fmt in
    record {
      flow = again;
      xruns = 0;
      stream = record s {
        mp_pool = record s.mp_pool { frames = record g { refcount = 0 } ∷ gs; mp_pending = 0 };
        pb_frames = counted s.pb_frames m;
      };
      played = (n, take (frames_to_bytes n s.cfg.channels s.cfg.fmt) g.bytes) ∷ [];
    }

pub playback_round-ready :
    (m x : ℕ) (s : Stream) (g : Frame) (gs : List Frame)
    → g.refcount ≡ 2
    → g.size ≢ 0
    → playback_round
        (frames m [])
        x
        (record s { mp_pool = record s.mp_pool { frames = g ∷ gs; mp_pending = 1 } })
      ≡ written m s g gs
unfolding playback_round playback_frame mp_release playback_got
playback_round-ready m x s g gs two filled_ =
    ap
      (playback_got (frames m []) x
        (record s { mp_pool = record s.mp_pool { frames = g ∷ gs; mp_pending = 1 } }))
      (dequeue-ready s.mp_pool g gs two)
    ∙ ap (λ b. if b then quiet leave x stopped else written m s g gs) more
  where
    more : (g.size == 0) ≡ false
    more = ground arith

    stopped : Stream
    stopped = record s {
      mp_pool = record s.mp_pool { frames = record g { refcount = 0 } ∷ gs; mp_pending = 0 };
    }
