-- ===== src/Audio.antt =====
-- middleware/bb_audio_stream.c: three threads that carry periods of audio from the capture device over
-- a lock-free pool to the codec, and over a pool under a mutex to the playback device.
pub mod Rounds
pub mod Lifecycle
pub mod Through
pub mod Xruns
pub mod Rollback
pub mod Shutdown
pub mod Sentinel
mod EndTests
mod Tests
use imx8mp_building_blocks.Base.{
  ℕ, ◌+◌, ◌*◌, ◌/◌, ◌%◌, Bool, true, false, List, [], ◌++◌, length, drop,
}
use imx8mp_building_blocks.Base.Bytes.{Bytes}
use imx8mp_building_blocks.Base.Words.{int_mod}
use imx8mp_building_blocks.Pool.{FramePool, no_pool}

-- `bb_audio_fmt_t`
pub data Format : Type 0 where
  s16_le s24_le s32_le : Format

-- `bb_audio_t`, the fields that the stream reads. It takes the channels and the rate from its configuration, also where
-- the device has settled on others.
pub record Device : Type 0 where
  pub fd : ℕ
  pub period_frames : ℕ
  pub period_bytes : ℕ

-- `bb_audio_stream_config_t`; `codec` tells whether `codec_ops` is given.
pub record Config : Type 0 where
  pub card : ℕ
  pub dev : ℕ
  pub rate : ℕ
  pub channels : ℕ
  pub fmt : Format
  pub pool_frames : ℕ
  pub cpu_capture : ℕ
  pub cpu_codec : ℕ
  pub cpu_playback : ℕ
  pub rt_priority : ℕ
  pub codec : Bool

-- `bb_audio_stream_t`, but for the thread handles; `codec_ctx` tells whether there is a context.
pub record Stream : Type 0 where
  pub cfg : Config
  pub cap_dev : Device
  pub pb_dev : Device
  pub sp_pool : FramePool
  pub mp_pool : FramePool
  pub running : Bool
  pub error : Bool
  pub cap_frames : ℕ
  pub pb_frames : ℕ
  pub drop_frames : ℕ
  pub codec_ctx : Bool

abbrev pub no_device : Device
no_device = record { fd = 0; period_frames = 0; period_bytes = 0 }

-- What memset makes of a configuration.
abbrev pub no_config : Config
no_config = record {
  card = 0;
  dev = 0;
  rate = 0;
  channels = 0;
  fmt = s16_le;
  pool_frames = 0;
  cpu_capture = 0;
  cpu_codec = 0;
  cpu_playback = 0;
  rt_priority = 0;
  codec = false;
}

-- What memset leaves of everything but the configuration.
abbrev pub no_stream : Config → Stream
no_stream cfg = record {
  cfg = cfg;
  cap_dev = no_device;
  pb_dev = no_device;
  sp_pool = no_pool;
  mp_pool = no_pool;
  running = false;
  error = false;
  cap_frames = 0;
  pb_frames = 0;
  drop_frames = 0;
  codec_ctx = false;
}

abbrev pub sample_bytes : Format → ℕ
sample_bytes s16_le = 2
sample_bytes s24_le = 3
sample_bytes s32_le = 4

-- Products of 32-bit unsigned numbers.
abbrev pub frames_to_bytes : ℕ → ℕ → Format → ℕ
frames_to_bytes frames ch fmt = (frames * ch * sample_bytes fmt) % int_mod

-- The number of frames of `size` bytes, as the playback thread divides.
abbrev pub bytes_to_frames : ℕ → ℕ → Format → ℕ
bytes_to_frames size ch fmt = (size / ((ch * sample_bytes fmt) % int_mod)) % int_mod

-- A buffer after a write of `bytes` at its start.
abbrev pub overwrite : Bytes → Bytes → Bytes
overwrite bytes old = bytes ++ drop (length bytes) old
