-- ===== src/Loopback.antt =====
-- tools/bb-audio-loopback.c, over the functions of Audio/Lifecycle. What the threads make of the stream meanwhile and
-- what the system answers are arguments; the log and the drop rate are left out.
pub mod Report
pub mod Devices
mod Tests
use imx8mp_building_blocks.Base.{
  ℕ, zero, suc, ◌+◌, ◌-◌, ◌%◌, ltb, ◌&&◌, Bool, true, false, Option, none, some, List, [], ◌∷◌,
  ◌++◌, if◌then◌else◌,
}
use imx8mp_building_blocks.Base.Bytes.{Bytes}
use imx8mp_building_blocks.Base.Words.{int_mod, is_neg, int_add, int_sub}
use imx8mp_building_blocks.Json.Reader.{atoi}
use imx8mp_building_blocks.Audio.{Format, s16_le, Config, Stream}
use imx8mp_building_blocks.Audio.Lifecycle.{
  Request, Answers, stream_init, stream_start, stream_stop, stream_destroy, stream_stats,
}

-- BB_AUDIO_STREAM_CONFIG_DEFAULT
abbrev pub default_config : Config
default_config = record {
  card = 2;
  dev = 0;
  rate = 48000;
  channels = 2;
  fmt = s16_le;
  pool_frames = 4;
  cpu_capture = 0;
  cpu_codec = 1;
  cpu_playback = 2;
  rt_priority = 80;
  codec = false;
}

-- An argument of the command line as a number, or what it is without one.
unfoldable pub number_or : ℕ → List Bytes → ℕ → ℕ
unfolding atoi
number_or default [] i = default
number_or default (word ∷ words) zero = atoi word
number_or default (word ∷ words) (suc i) = number_or default words i

-- What the tool meets: the answers to bb_audio_stream_init, whether calloc grants the context of each thread, what pthread_create returns for each thread, the stream as
-- the threads leave it after so many seconds and at the end, and whether a signal has come by then.
pub record Run : Type 0 where
  pub answers : Answers
  pub contexts : ℕ → Bool
  pub playback_rc : ℕ
  pub codec_rc : ℕ
  pub capture_rc : ℕ
  pub later : ℕ → Stream → Stream
  pub at_end : Stream → Stream
  pub interrupted : ℕ → Bool

-- A line of the report.
pub record Row : Type 0 where
  pub second : ℕ
  pub cap : ℕ
  pub pb : ℕ
  pub drop : ℕ
  pub cap_delta : ℕ
  pub pb_delta : ℕ
  pub warns : Bool

-- The loop from second `t` on, with `n` seconds left.
unfoldable pub report : Run → Stream → ℕ → ℕ → ℕ → ℕ → List Row
unfolding stream_stats
report r s zero t last_cap last_pb = []
report r s (suc n) t last_cap last_pb =
    let (cap, pb, drop) = stream_stats (r.later (t + 1) s) in
    let rest = report r s n (t + 1) cap pb in
    if r.interrupted t
    then []
    else record {
      second = t + 1;
      cap = cap;
      pb = pb;
      drop = drop;
      cap_delta = int_sub cap last_cap;
      pb_delta = int_sub pb last_pb;
      warns = ltb 0 drop;
    }
      ∷ rest

-- The status, what has been asked, the report, the final counts, and whether errors are told of at the end.
pub record RunOutcome : Type 0 where
  pub status : ℕ
  pub asked : List Request
  pub rows : List Row
  pub totals : Option (ℕ × ℕ × ℕ)
  pub tells_errors : Bool

abbrev pub failed_run : List Request → RunOutcome
failed_run asked = record {
  status = 1;
  asked = asked;
  rows = [];
  totals = none;
  tells_errors = false;
}

-- main, once the stream runs, for so many seconds.
unfoldable pub run_stream : Run → ℕ → Stream → List Request → RunOutcome
unfolding report stream_stop stream_destroy
run_stream r duration s asked =
    let (stopped, stop_asks) = stream_stop (r.at_end s) in
    let (gone, destroy_asks) = stream_destroy stopped in
    record {
      status = 0;
      asked = asked ++ (stop_asks ++ destroy_asks);
      rows = report r s (if is_neg duration then 0 else duration) 0 0 0;
      totals = some (stream_stats stopped);
      tells_errors = gone.error;
    }

-- What follows bb_audio_stream_start, with its status and what has been asked ahead of it.
unfoldable pub after_start : Run → ℕ → List Request → ℕ × Stream × List Request → RunOutcome
unfolding run_stream
after_start r duration asked (status, s, more) =
    if is_neg status
    then failed_run (asked ++ (more ++ (stream_destroy s).1))
    else run_stream r duration s (asked ++ more)

-- What follows bb_audio_stream_init: none where bb_audio_stream_start dereferences a NULL.
unfoldable pub after_init : Run → ℕ → ℕ × Stream × List Request → Option RunOutcome
unfolding stream_start after_start
after_init r duration (status, s, asked) =
    if is_neg status
    then some (failed_run asked)
    else elim (stream_start r.contexts r.playback_rc r.codec_rc r.capture_rc s) [
      | none ↦ none
      | some x ↦ some (after_start r duration asked x)
    ]

-- main
unfoldable pub loopback : Run → List Bytes → Option RunOutcome
unfolding number_or stream_init after_init
loopback r args =
    let cfg : Config = record default_config {
      rate = number_or 48000 args 1;
      channels = number_or 2 args 2;
    } in
    after_init r (number_or 5 args 0) (stream_init r.answers cfg)
