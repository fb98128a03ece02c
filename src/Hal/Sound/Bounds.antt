-- ===== src/Hal/Sound/Bounds.antt =====
-- The parameters that bb_audio_open asks for lie within what the hardware can do.
use imx8mp_building_blocks.Base.{
  ℕ, ◌*◌, ◌/◌, ◌%◌, ◌^◌, ◌<◌, ◌≤◌, ◌≡◌, ◌∙◌, refl, ap, ap₂, sym, ◌==◌, ltb, Bool, true, false, ◌||◌,
  some, if◌then◌else◌, arith, inl,
}
use imx8mp_building_blocks.Base.Words.{int_mod}
use imx8mp_building_blocks.Audio.{Format, s16_le, s24_le, s32_le}
use native.Mathlib.Nat.{
  div-mul-le_self, mul-le-mul_right, mul-mod_left, le_trans, mod-eq_of_lt, mul_assoc,
  mul-div_cancel, le-mul_of_pos_right, mul_comm, mul-pos,
}
use imx8mp_building_blocks.Hal.Sound.{
  clamp_u32, Limits, Params, period_of, bytes_per_frame, fmt_bytes, buffer_of, narrow, boundary_of,
  Sound, transfer,
}

-- Limits that are not contradictory, as the driver gives them: lower ones that do not exceed the upper
-- ones, a channel and a frame at least, and frames whose size in bytes fits 32 bits.
pub record AreLimits (l : Limits) : Type 0 where
  pub channels : l.ch_min ≤ l.ch_max
  pub rates : l.rate_min ≤ l.rate_max
  pub periods : l.ps_min ≤ l.ps_max
  pub one_channel : 0 < l.ch_min
  pub one_frame : 0 < l.ps_max
  pub frame_fits : l.ch_max * 4 < int_mod

-- What is asked for, within the limits.
pub record Fits (l : Limits) (fmt : Format) (p : Params) : Type 0 where
  pub channels_low : l.ch_min ≤ p.channels
  pub channels_high : p.channels ≤ l.ch_max
  pub rate_low : l.rate_min ≤ p.rate
  pub rate_high : p.rate ≤ l.rate_max
  pub period_low : l.ps_min ≤ p.period
  pub period_high : p.period ≤ l.ps_max
  pub buffer_frames : p.buffer ≤ l.bs_max
  pub buffer_bytes : p.buffer * bytes_per_frame p.channels fmt ≤ l.bytes_max
  pub whole_periods : p.buffer % p.period ≡ 0

clamp_u32-low : (v lo hi : ℕ) → lo ≤ hi → lo ≤ clamp_u32 v lo hi
unfolding clamp_u32
clamp_u32-low v lo hi h = ground arith

clamp_u32-high : (v lo hi : ℕ) → lo ≤ hi → clamp_u32 v lo hi ≤ hi
unfolding clamp_u32
clamp_u32-high v lo hi h = ground arith

module _ (rate : ℕ) (l : Limits) (h : AreLimits l) where
  period_of-low : l.ps_min ≤ period_of rate l
  unfolding period_of
  period_of-low = ground (arith, h.periods)

  period_of-high : period_of rate l ≤ l.ps_max
  unfolding period_of
  period_of-high = ground arith

  period_of-pos : 0 < period_of rate l
  unfolding period_of
  period_of-pos = ground (arith, h.one_frame)

module _ (bytes period : ℕ) (l : Limits) where
  buffer_of-frames : buffer_of bytes period l ≤ l.bs_max
  unfolding buffer_of
  buffer_of-frames =
      let whole =
        div-mul-le_self
          (if ltb (l.bytes_max / bytes) l.bs_max then l.bytes_max / bytes else l.bs_max) period in
      ground arith

  buffer_of-bytes : buffer_of bytes period l * bytes ≤ l.bytes_max
  unfolding buffer_of
  buffer_of-bytes =
      let whole =
        div-mul-le_self
          (if ltb (l.bytes_max / bytes) l.bs_max then l.bytes_max / bytes else l.bs_max) period in
      let fits : buffer_of bytes period l ≤ l.bytes_max / bytes = ground arith in
      le_trans (mul-le-mul_right bytes fits) (div-mul-le_self l.bytes_max bytes)

  buffer_of-whole : buffer_of bytes period l % period ≡ 0
  unfolding buffer_of
  buffer_of-whole = mul-mod_left _ period

bytes_per_frame-pos :
    (channels max : ℕ) (fmt : Format)
    → 0 < channels
    → channels ≤ max
    → max * 4 < int_mod
    → 0 < bytes_per_frame channels fmt
bytes_per_frame-pos channels max s16_le pos le fits = omega arith
bytes_per_frame-pos channels max s24_le pos le fits = omega arith
bytes_per_frame-pos channels max s32_le pos le fits = omega arith

-- Whatever rate and number of channels are asked for: within limits that are not contradictory, the channels being fewer
-- than 2 ^ 30, bb_audio_open never divides by zero, and asks for a number of channels, a rate and a period within their
-- limits. The buffer is whole periods, none perhaps, and within the upper limits on its frames and, as the code counts
-- the bytes of a sample, on its bytes; its lower limit is not read.
pub narrow-Fits :
    (rate channels : ℕ) (fmt : Format) (l : Limits)
    → AreLimits l
    → (p : Params) × (narrow rate channels fmt l ≡ some p) × Fits l fmt p
unfolding narrow
narrow-Fits rate channels fmt l h = (
  wanted,
  rw (no_zero) refl,
  record {
    channels_low = clamp_u32-low channels l.ch_min l.ch_max h.channels;
    channels_high = clamp_u32-high channels l.ch_min l.ch_max h.channels;
    rate_low = clamp_u32-low rate l.rate_min l.rate_max h.rates;
    rate_high = clamp_u32-high rate l.rate_min l.rate_max h.rates;
    period_low = period_of-low rate' l h;
    period_high = period_of-high rate' l h;
    buffer_frames = buffer_of-frames bytes (period_of rate' l) l;
    buffer_bytes = buffer_of-bytes bytes (period_of rate' l) l;
    whole_periods = buffer_of-whole bytes (period_of rate' l) l;
  },
)
  where
    rate' : ℕ
    rate' = clamp_u32 rate l.rate_min l.rate_max

    bytes : ℕ
    bytes = bytes_per_frame (clamp_u32 channels l.ch_min l.ch_max) fmt

    wanted : Params
    wanted = record {
      channels = clamp_u32 channels l.ch_min l.ch_max;
      rate = rate';
      period = period_of rate' l;
      buffer = buffer_of bytes (period_of rate' l) l;
    }

    no_zero : (bytes == 0 || period_of rate' l == 0) ≡ false
    no_zero = ground (
      arith,
      bytes_per_frame-pos (clamp_u32 channels l.ch_min l.ch_max) l.ch_max fmt
          (omega (arith, clamp_u32-low channels l.ch_min l.ch_max h.channels, h.one_channel))
          (clamp_u32-high channels l.ch_min l.ch_max h.channels) h.frame_fits,
      period_of-pos rate' l h,
    )

-- A buffer of fewer than 2 ^ 30 frames: the boundary is four times the buffer, and the loop that doubles it
-- makes no round.
pub boundary_of-small : (buffer : ℕ) → buffer < 2 ^ 30 → boundary_of buffer ≡ some (buffer * 4)
unfolding boundary_of
boundary_of-small buffer h = ground arith

-- The sizes of some frames and of one, where they do not wrap around.
pub sizes :
    (frames ch fb : ℕ)
    → 0 < ch
    → 0 < fb
    → 0 < frames
    → frames * (ch * fb) < int_mod
    → (frames * ch % int_mod * fb % int_mod ≡ frames * (ch * fb)) × (ch * fb % int_mod ≡ ch * fb)
sizes frames ch fb pos_ch pos_fb pos fits =
    let assoc : frames * (ch * fb) ≡ frames * ch * fb = sym (mul_assoc frames ch fb) in
    let first : frames * ch < int_mod = omega (arith, le-mul_of_pos_right (frames * ch) pos_fb) in
    let second : ch * fb < int_mod =
      omega (arith, le-mul_of_pos_right (ch * fb) pos, mul_comm (ch * fb) frames) in
    (
      ap (λ x. x * fb % int_mod) (mod-eq_of_lt first) ∙ mod-eq_of_lt (rw assoc at fits) ∙ sym assoc,
      mod-eq_of_lt second,
    )

-- The division undoes the products.
moved_back :
    (frames ch fb : ℕ)
    → 0 < ch
    → 0 < fb
    → 0 < frames
    → frames * (ch * fb) < int_mod
    → frames * ch % int_mod * fb % int_mod / (ch * fb % int_mod) ≡ frames
moved_back frames ch fb pos_ch pos_fb pos fits =
    let (some_frames, one_frame) = sizes frames ch fb pos_ch pos_fb pos fits in
    ap₂ ◌/◌ some_frames one_frame ∙ mul-div_cancel frames (mul-pos pos_ch pos_fb)

pub fmt_bytes-pos : (fmt : Format) → 0 < fmt_bytes fmt
fmt_bytes-pos s16_le = omega arith
fmt_bytes-pos s24_le = omega arith
fmt_bytes-pos s32_le = omega arith

-- A driver that moves all the bytes that it is asked for makes bb_audio_read, and bb_audio_write, return the
-- number of frames that they were given, on an open device of the right direction with a channel at
-- least, if the bytes are fewer than 2 ^ 32.
pub transfer_whole :
    (capture : Bool) (a : Sound) (fd frames : ℕ)
    → a.fd ≡ some fd
    → a.capture ≡ capture
    → 0 < a.channels
    → 0 < frames
    → frames * (a.channels * fmt_bytes a.fmt) < int_mod
    → transfer capture (λ bytes. inl bytes) a frames ≡ frames
unfolding transfer
transfer_whole true a fd frames opened dir pos some_frames fits =
    rw (opened, dir)
      (moved_back frames a.channels (fmt_bytes a.fmt) pos (fmt_bytes-pos a.fmt) some_frames fits)
transfer_whole false a fd frames opened dir pos some_frames fits =
    rw (opened, dir)
      (moved_back frames a.channels (fmt_bytes a.fmt) pos (fmt_bytes-pos a.fmt) some_frames fits)
