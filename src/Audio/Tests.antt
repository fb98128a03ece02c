-- ===== src/Audio/Tests.antt =====
-- A stream of 16-bit mono over pools of two frames.
use imx8mp_building_blocks.Base.{
  ℕ, ◌+◌, ◌≡◌, refl, true, false, none, some, List, [], ◌∷◌, ltb, if◌then◌else◌,
}
use imx8mp_building_blocks.Base.Bytes.{Bytes}
use imx8mp_building_blocks.Base.Words.{is_neg}
use imx8mp_building_blocks.Pool.{Frame, zeroed, FramePool, no_pool, Got, sp_acquire, claim}
use imx8mp_building_blocks.Pool.Lifecycle.{init}
use imx8mp_building_blocks.Audio.{Device, Config, no_config, Stream, no_stream}
use imx8mp_building_blocks.Audio.Lifecycle.{capture, Answers, stream_init}
use imx8mp_building_blocks.Audio.Rollback.{IsBalanced, stream_init-IsBalanced}

abbrev mono : Config
mono = record no_config { channels = 1; rate = 48000; pool_frames = 2 }

abbrev two_free : FramePool
two_free = record no_pool { allocated = true; frames = zeroed ∷ zeroed ∷ []; count = 2 }

abbrev line : Device
line = record { fd = 7; period_frames = 2; period_bytes = 4 }

abbrev running : Stream
running = record (no_stream mono) {
  cap_dev = line;
  pb_dev = line;
  sp_pool = two_free;
  mp_pool = two_free;
  running = true;
}

abbrev three_periods : List (ℕ × Bytes)
three_periods = (2, 1 ∷ 2 ∷ 3 ∷ 4 ∷ []) ∷ (1, 5 ∷ 6 ∷ []) ∷ (2, 7 ∷ 8 ∷ 9 ∷ 10 ∷ []) ∷ []

offered : (sp_acquire running.sp_pool).0 ≡ Got.frame 0
unfolding sp_acquire claim
offered = refl

-- Two frames are committed, and none is taken.
abbrev behind : Stream
behind = record running { sp_pool = record two_free { write_idx = 2 } }

behind-full : (sp_acquire behind.sp_pool).0 ≡ Got.null
unfolding sp_acquire
behind-full = refl

-- Both devices open, and the heap refuses the second buffer of the second pool.
abbrev poor : Answers
poor = record {
  capture_opens = some line;
  playback_opens = some line;
  calloc_sp = true;
  malloc_sp = λ i. some (i + 100);
  calloc_mp = true;
  malloc_mp = λ i. if ltb i 1 then some 200 else none;
  codec_init = none;
}

stream_init-IsBalanced_example : IsBalanced capture 0 (stream_init poor mono)
stream_init-IsBalanced_example = stream_init-IsBalanced capture poor mono

abbrev rich : Answers
rich = record poor { malloc_mp = λ i. some (i + 200) }

rich-accepted : is_neg (stream_init rich mono).0 ≡ false
unfolding stream_init init
rich-accepted = refl

abbrev failed_frame : Frame
failed_frame = record zeroed { bytes = 1 ∷ 2 ∷ []; refcount = 2 }

abbrev waiting : Stream
waiting = record running { mp_pool = record two_free { frames = failed_frame ∷ zeroed ∷ [] } }
