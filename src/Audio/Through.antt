-- ===== src/Audio/Through.antt =====
-- A period of audio on its way through the three threads of middleware/bb_audio_stream.c, one after the
-- other, without a codec.
mod Capture
mod Playback
mod Periods
pub use Periods.{IsPeriod}
use imx8mp_building_blocks.Base.{
  ℕ, zero, suc, ◌+◌, ◌*◌, ◌/◌, ◌%◌, ◌^◌, ◌≤◌, ◌<◌, ◌≡◌, ◌≢◌, ap, sym, All, Bool, true, false,
  Option, none, some, List, [], ◌∷◌, ◌++◌, ◌==◌, ltb, leb, if◌then◌else◌, arith, inl, inr,
  Bool-cases, length, get_or, set, drop, get_or-set_self,
}
use imx8mp_building_blocks.Base.Bytes.{Bytes}
use imx8mp_building_blocks.Base.Words.{int_mod, int_min, int_add, int_sub, int_le, int_lt, is_neg}
use imx8mp_building_blocks.Pool.{
  Frame, zeroed, FramePool, Got, frame, wait, update_frame, is_full, claim, sp_acquire, sp_commit,
  sp_dequeue, peek, advance, sp_release, mp_acquire, mp_enqueue, mp_dequeue, mp_release, mark,
  signal, first_free, first_ready,
}
use imx8mp_building_blocks.Pool.Spsc.Slots.{refs, frames-update_frame}
use imx8mp_building_blocks.Audio.{Format, s16_le, s24_le, s32_le, Stream, Config, sample_bytes}
use imx8mp_building_blocks.Audio.Rounds.{
  Answer, Encoded, frames, Flow, again, leave, blocked, Round, quiet, counted, capture_drop,
  capture_frame, capture_round, codec_fill, codec_frame, codec_round, playback_frame,
  playback_round,
}
use imx8mp_building_blocks.Pool.Spsc.Inv.{claim_lem, peek_lem}
use native.Mathlib.Nat.{mod-lt, mul-pos, mul-le-mul, mul-add-div, zero-div}
use imx8mp_building_blocks.Audio.Through.Capture.{
  set-set, update-set, filled, emptied, acquire-empty, dequeue-filled, release-filled,
  emptied-IsEmpty, captured, capture_got, committed,
}
use imx8mp_building_blocks.Audio.Through.Playback.{
  passed, acquire-ready, codec_got, codec_frame_got, playback_got, dequeue-ready,
}
use imx8mp_building_blocks.Audio.Through.Periods.{
  IsPeriod, sample_positive, frame_bytes, frame_positive, whole_frames, frame_le, n_le,
}

-- One round of each thread, with a read of `n` frames.
abbrev pub pass : Stream → ℕ → Bytes → Round
pass s n bytes =
    playback_round (frames n []) 0 (codec_round none (capture_round (frames n bytes) 0 s).stream)

-- What bb_audio_write is given over such rounds.
unfoldable pub run : Stream → List (ℕ × Bytes) → List (ℕ × Bytes)
run s [] = []
run s ((n, bytes) ∷ periods) =
    let rest = run (pass s n bytes).stream periods in (pass s n bytes).played ++ rest

-- A stream without a codec whose pools are empty, with room for `more` commits of the write index.
pub record IsIdle (s : Stream) (more : ℕ) : Type 0 where
  pub positive : 0 < s.sp_pool.count
  pub small : s.sp_pool.count < 2 ^ 30
  pub sized : length s.sp_pool.frames ≡ s.sp_pool.count
  pub level : s.sp_pool.read_idx ≡ s.sp_pool.write_idx
  pub range : s.sp_pool.write_idx + more < int_min
  pub unused : (i : ℕ) → refs s.sp_pool.frames i ≡ 0
  pub first : Frame
  pub others : List Frame
  pub listed : s.mp_pool.frames ≡ first ∷ others
  pub free : first.refcount ≡ 0
  pub none_pending : s.mp_pool.mp_pending ≡ 0
  pub plain : s.cfg.codec ≡ false

module _ {s : Stream} {more : ℕ} (n : ℕ) (bytes : Bytes) (v : IsIdle s (suc more)) where
  -- The stream after the rounds, and the frame that was written.
  abbrev final_frame : Frame
  final_frame = passed (captured n bytes s) v.first

  abbrev before_write : Stream
  before_write = record s {
    sp_pool = emptied s.sp_pool (captured n bytes s);
    cap_frames = counted s.cap_frames n;
  }

abbrev pub IsPeriods : Config → List (ℕ × Bytes) → Type 0
IsPeriods cfg = All (λ (n, bytes). IsPeriod cfg n bytes)

-- The frame that the codec thread enqueues when `encode` fails has size 0, and ends the playback thread
-- as a frame of size 0 does that asks it to stop: no error is set, and nothing is played.
pub encode_error-ends :
    (a : Answer) (x i : ℕ) (s : Stream) (sp mp : Frame)
    → get_or s.mp_pool.frames i zeroed ≡ record (codec_fill true none sp mp) { refcount = 2 }
    → playback_frame a x s i ≡ quiet leave x (record s { mp_pool = mp_release s.mp_pool i })
unfolding playback_frame codec_fill
encode_error-ends a x i s sp mp e =
    let f = get_or s.mp_pool.frames i zeroed in
    let silent : (f.size == 0) ≡ true = ap (λ g. g.size == 0) e in ground (arith, silent)
