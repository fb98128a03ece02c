-- ===== src/Hal/Sound/Tests.antt =====
-- Limits like those of the NAU8822, with a stereo stream.
use imx8mp_building_blocks.Base.{◌^◌, ◌≡◌, refl, true, none, some, [], ◌∷◌, arith}
use imx8mp_building_blocks.Audio.{s16_le}
use imx8mp_building_blocks.Hal.Sound.{
  Limits, Params, narrow, Sound, sound_open, opened, close, unopened, boundary_of,
}
use imx8mp_building_blocks.Hal.Sound.Bounds.{AreLimits, Fits, narrow-Fits}

abbrev codec : Limits
codec = record {
  ch_min = 1;
  ch_max = 2;
  rate_min = 8000;
  rate_max = 48000;
  ps_min = 32;
  ps_max = 4096;
  bs_max = 16384;
  bytes_max = 65536;
}

codec-AreLimits : AreLimits codec
codec-AreLimits = record {
  channels = omega arith;
  rates = omega arith;
  periods = omega arith;
  one_channel = omega arith;
  one_frame = omega arith;
  frame_fits = omega arith;
}

narrow-Fits_example : (p : Params) × (narrow 96000 8 s16_le codec ≡ some p) × Fits codec s16_le p
narrow-Fits_example = narrow-Fits 96000 8 s16_le codec codec-AreLimits

stereo :
    narrow 48000 2 s16_le codec
    ≡ some (record { channels = 2; rate = 48000; period = 480; buffer = 16320 })
unfolding narrow
stereo = refl

abbrev open_capture : Sound
open_capture = record (unopened true s16_le) { fd = some 5; channels = 2 }

-- A driver that refuses the parameters: the descriptor is closed.
refused :
    sound_open
      (record {
        opens = some 5;
        refines = some codec;
        settles = λ p. none;
        takes_sw_params = true;
        prepares = true;
      })
      true
      48000
      2
      s16_le
    ≡ opened 4294967295 (unopened true s16_le) (close 5 ∷ []) none
unfolding sound_open
refused = refl

-- The doubling of 0 does not end.
endless : boundary_of (2 ^ 30) ≡ none
unfolding boundary_of
endless = refl
