-- ===== src/AudioTest/Tests.antt =====
-- A device with a period of 480 frames whose driver moves half of what it is asked for.
use imx8mp_building_blocks.Base.{
  ℕ, suc, ◌/◌, ◌+◌, ◌≡◌, refl, false, true, ◌⊎◌, inl, inr, some, [], ◌∷◌, arith,
}
use imx8mp_building_blocks.Audio.{s16_le}
use imx8mp_building_blocks.Hal.Sound.{Sound}
use imx8mp_building_blocks.AudioTest.{
  write_rounds, measure_all, nothing_measured, read_rounds, ready, timeout,
}
use imx8mp_building_blocks.AudioTest.Playback.{IsPlaying, Moves, write_rounds-total}

abbrev speaker : Sound
speaker = record {
  fd = some 5;
  capture = false;
  fmt = s16_le;
  rate = 48000;
  channels = 2;
  period_frames = 480;
  buffer_frames = 1920;
  period_bytes = 1920;
}

speaker-IsPlaying : IsPlaying speaker 5
speaker-IsPlaying = record {
  opened = refl;
  playing = refl;
  some_channels = omega arith;
  some_period = omega arith;
  fits = omega arith;
}

-- Half of the bytes, and a frame at least.
abbrev slow : ℕ → ℕ → ℕ ⊎ ℕ
slow k bytes = inl (bytes / 2 + 2)

slow-Moves : Moves slow 4
slow-Moves k bytes le = (bytes / 2 + 2, refl, omega arith, omega arith)

write_rounds-total_example : write_rounds (suc 1000) slow speaker 1000 0 0 ≡ some 1000
write_rounds-total_example =
    write_rounds-total speaker 5 speaker-IsPlaying slow slow-Moves 1000 (omega arith)

-- An error ends the loop with what is written so far.
unplugged : write_rounds 5 (λ k bytes. inr 19) speaker 1000 0 480 ≡ some 480
unfolding write_rounds
unplugged = refl

-- Three samples, 5, -7 and 3.
measured :
    measure_all (5 ∷ 65529 ∷ 3 ∷ []) nothing_measured
    ≡ record { sum = 1; sum_sq = 83; nsamples = 3; peak = 7 }
unfolding measure_all
measured = refl

-- The sample -32768 makes the peak negative, and the next sample takes its place.
lost_peak :
    measure_all (32768 ∷ 3 ∷ []) nothing_measured
    ≡ record { sum = 18446744073709518851; sum_sq = 1073741833; nsamples = 2; peak = 3 }
unfolding measure_all
lost_peak = refl

-- A second without data ends the capture.
silence :
    read_rounds (timeout ∷ []) (record speaker { capture = true }) 1000 0 nothing_measured
    ≡ some (0, nothing_measured)
unfolding read_rounds
silence = refl

one_frame :
    read_rounds
      (ready (λ bytes. inl 4) (5 ∷ 65529 ∷ 3 ∷ []) ∷ [])
      (record speaker { capture = true })
      1
      0
      nothing_measured
    ≡ some (1, record { sum = 18446744073709551614; sum_sq = 74; nsamples = 2; peak = 7 })
unfolding read_rounds
one_frame = refl
