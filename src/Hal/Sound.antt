-- ===== src/Hal/Sound.antt =====
-- hal/bb_hal_audio.c: the parameters that bb_audio_open settles with the driver, reading and writing.
pub mod Bounds
mod Tests
use imx8mp_building_blocks.Base.{
  ℕ, zero, suc, ◌+◌, ◌-◌, ◌*◌, ◌/◌, ◌%◌, ◌^◌, ◌==◌, ltb, Bool, true, false, not, ◌||◌, ◌⊎◌, inl,
  inr, Option, none, some, List, [], ◌∷◌, ◌++◌, if◌then◌else◌,
}
use imx8mp_building_blocks.Base.Words.{int_mod, minus_one, int_sub}
use imx8mp_building_blocks.Audio.{Format, s16_le, s24_le, s32_le}
use imx8mp_building_blocks.Audio.Lifecycle.{einval}

unfoldable pub clamp_u32 : ℕ → ℕ → ℕ → ℕ
clamp_u32 v lo hi = if ltb v lo then lo else if ltb hi v then hi else v

abbrev pub fmt_bytes : Format → ℕ
fmt_bytes s16_le = 2
fmt_bytes s24_le = 3
fmt_bytes s32_le = 4

-- The intervals that SNDRV_PCM_IOCTL_HW_REFINE leaves, as far as they are read: the lower limit of the buffer is not.
pub record Limits : Type 0 where
  pub ch_min : ℕ
  pub ch_max : ℕ
  pub rate_min : ℕ
  pub rate_max : ℕ
  pub ps_min : ℕ
  pub ps_max : ℕ
  pub bs_max : ℕ
  pub bytes_max : ℕ

-- The single values that are asked for, or that the driver has settled on.
pub record Params : Type 0 where
  pub channels : ℕ
  pub rate : ℕ
  pub period : ℕ
  pub buffer : ℕ

-- The size of a period, of about 10 ms.
unfoldable pub period_of : ℕ → Limits → ℕ
unfolding clamp_u32
period_of rate l =
    let target = clamp_u32 (rate / 100) l.ps_min l.ps_max in
    let at_least = if ltb target 16 then 16 else target in
    if ltb l.ps_max at_least then l.ps_max else at_least

-- The size of a frame in bytes, an `unsigned int`.
abbrev pub bytes_per_frame : ℕ → Format → ℕ
bytes_per_frame channels fmt = channels * fmt_bytes fmt % int_mod

-- The size of the buffer, which is whole periods.
unfoldable pub buffer_of : ℕ → ℕ → Limits → ℕ
buffer_of bytes period l =
    let from_bytes = l.bytes_max / bytes in
    let bs_max = if ltb from_bytes l.bs_max then from_bytes else l.bs_max in
    bs_max / period * period

-- Phase 2: `none` where the code divides by zero.
unfoldable pub narrow : ℕ → ℕ → Format → Limits → Option Params
unfolding clamp_u32 period_of buffer_of
narrow rate channels fmt l =
    let channels' = clamp_u32 channels l.ch_min l.ch_max in
    let rate' = clamp_u32 rate l.rate_min l.rate_max in
    let period = period_of rate' l in
    let bytes = bytes_per_frame channels' fmt in
    if bytes == 0 || period == 0
    then none
    else some (record {
      channels = channels';
      rate = rate';
      period = period;
      buffer = buffer_of bytes period l;
    })

-- `bb_audio_t`; `fd` is none for -1.
pub record Sound : Type 0 where
  pub fd : Option ℕ
  pub capture : Bool
  pub fmt : Format
  pub rate : ℕ
  pub channels : ℕ
  pub period_frames : ℕ
  pub buffer_frames : ℕ
  pub period_bytes : ℕ

-- What the calls of open and ioctl answer.
pub record Driver : Type 0 where
  pub opens : Option ℕ
  pub refines : Option Limits
  pub settles : Params → Option Params
  pub takes_sw_params : Bool
  pub prepares : Bool

-- The loop that doubles the boundary while it is below twice the buffer: `none` if 64 rounds are not
-- enough, and then no number is, since the boundary has become 0.
unfoldable pub boundary_from : ℕ → ℕ → ℕ → Option ℕ
boundary_from zero boundary limit = none
boundary_from (suc rounds) boundary limit =
    let more = boundary_from rounds (boundary * 2 % 2 ^ 64) limit in
    if ltb boundary limit then more else some boundary

unfoldable pub boundary_of : ℕ → Option ℕ
unfolding boundary_from
boundary_of buffer = boundary_from 64 (buffer * 4 % int_mod) (buffer * 2 % int_mod)

-- The software parameters of phase 3.
pub record SwParams : Type 0 where
  pub avail_min : ℕ
  pub start_threshold : ℕ
  pub stop_threshold : ℕ
  pub boundary : Option ℕ

-- Closing a descriptor.
pub data Closed : Type 0 where
  close : ℕ → Closed

-- The device before it is opened.
abbrev pub unopened : Bool → Format → Sound
unopened capture fmt = record {
  fd = none;
  capture = capture;
  fmt = fmt;
  rate = 0;
  channels = 0;
  period_frames = 0;
  buffer_frames = 0;
  period_bytes = 0;
}

-- The device with what the driver has settled on.
unfoldable pub read_back : Params → Sound → Sound
read_back p a = record a {
  rate = p.rate;
  channels = p.channels;
  period_frames = p.period;
  buffer_frames = p.buffer;
  period_bytes = p.period * p.channels % int_mod * fmt_bytes a.fmt % int_mod;
}

unfoldable pub sw_params : Sound → SwParams
unfolding boundary_of
sw_params a = record {
  avail_min = a.period_frames;
  start_threshold = if a.capture then 1 else a.period_frames * 2 % int_mod;
  stop_threshold = a.buffer_frames;
  boundary = boundary_of a.buffer_frames;
}

-- What bb_audio_open leaves: a status, the device, what it has closed, and the software parameters that it
-- has set. `crash` is the division by zero.
pub data Opened : Type 0 where
  crash : Opened
  opened : ℕ → Sound → List Closed → Option SwParams → Opened

-- The label `fail`.
abbrev pub fail : ℕ → Sound → Option SwParams → Opened
fail fd a sw = opened minus_one (record a { fd = none }) (close fd ∷ []) sw

-- Phases 3 and 4.
unfoldable pub prepare : Driver → ℕ → Sound → Opened
unfolding sw_params
prepare d fd a =
    if not d.takes_sw_params
    then fail fd a none
    else if not d.prepares
    then fail fd a (some (sw_params a))
    else opened 0 a [] (some (sw_params a))

unfoldable pub open_with : Driver → ℕ → Sound → ℕ → ℕ → Opened
unfolding narrow read_back prepare
open_with d fd a rate channels = elim d.refines [
  | none ↦ fail fd a none
  | some limits ↦ elim (narrow rate channels a.fmt limits) [
    | none ↦ crash
    | some wanted ↦ elim (d.settles wanted) [
      | none ↦ fail fd a none
      | some p ↦ prepare d fd (read_back p a)
    ]
  ]
]

-- bb_audio_open
unfoldable pub sound_open : Driver → Bool → ℕ → ℕ → Format → Opened
unfolding open_with
sound_open d capture rate channels fmt =
    let a = unopened capture fmt in
    elim d.opens [
      | none ↦ opened minus_one a [] none
      | some fd ↦ open_with d fd (record a { fd = some fd }) rate channels
    ]

-- The bytes asked of the driver for a number of frames.
abbrev pub wanted_bytes : Sound → ℕ → ℕ
wanted_bytes a frames = frames * a.channels % int_mod * fmt_bytes a.fmt % int_mod

-- bb_audio_read, or bb_audio_write: the driver answers with a number of bytes, or errno.
unfoldable pub transfer : Bool → (ℕ → ℕ ⊎ ℕ) → Sound → ℕ → ℕ
transfer capture driver a frames = elim a.fd [
  | none ↦ einval
  | some fd ↦
      if (if capture then a.capture else not a.capture)
      then elim (driver (wanted_bytes a frames)) [
        | inl n ↦ n / bytes_per_frame a.channels a.fmt
        | inr errno ↦ int_sub 0 errno
      ]
      else einval
]

-- bb_audio_close
unfoldable pub sound_close : Sound → Sound × List Closed
sound_close a = elim a.fd [ none ↦ (a, []) | some fd ↦ (record a { fd = none }, close fd ∷ []) ]
