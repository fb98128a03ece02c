-- ===== src/AudioTest/Playback.antt =====
-- The loop of test_playback in tools/bb-audio-test.c ends when everything is written.
use imx8mp_building_blocks.Base.{
  ℕ, zero, suc, ◌+◌, ◌-◌, ◌*◌, ◌/◌, ◌≤◌, ◌<◌, ◌≡◌, ◌∙◌, ◌⊎◌, refl, ap, ltb, true, false, some, inl,
  arith, dec_lt,
}
use native.Mathlib.Nat.{mul-pos, mul-le-mul_right, le-div_iff_mul-le, div-le_of_le-mul, mul_comm}
use imx8mp_building_blocks.Base.Words.{int_mod, int_min, int_add, is_neg}
use imx8mp_building_blocks.Hal.Sound.{Sound, fmt_bytes, wanted_bytes, transfer}
use imx8mp_building_blocks.Hal.Sound.Bounds.{sizes, fmt_bytes-pos}
use imx8mp_building_blocks.AudioTest.{chunk_of, write_rounds}

-- The driver moves a frame at least, and no more than it is asked for.
abbrev pub Moves : (ℕ → ℕ → ℕ ⊎ ℕ) → ℕ → Type 0
Moves driver frame =
    (k bytes : ℕ) → frame ≤ bytes → (m : ℕ) × (driver k bytes ≡ inl m) × (frame ≤ m) × (m ≤ bytes)

-- A device for playback whose periods fit.
pub record IsPlaying (a : Sound) (fd : ℕ) : Type 0 where
  pub opened : a.fd ≡ some fd
  pub playing : a.capture ≡ false
  pub some_channels : 0 < a.channels
  pub some_period : 0 < a.period_frames
  pub fits : a.period_frames * (a.channels * fmt_bytes a.fmt) < int_min

module _ (a : Sound) (fd : ℕ) (v : IsPlaying a fd) (driver : ℕ → ℕ → ℕ ⊎ ℕ)
    (moves : Moves driver (a.channels * fmt_bytes a.fmt)) where
  chunk_moved :
      (k frames : ℕ)
      → 0 < frames
      → frames ≤ a.period_frames
      → (n : ℕ) × (transfer false (driver k) a frames ≡ n) × (0 < n) × (n ≤ frames)
  unfolding transfer
  chunk_moved k frames pos le =
      let size = a.channels * fmt_bytes a.fmt in
      let pos_size = mul-pos v.some_channels (fmt_bytes-pos a.fmt) in
      let fits : frames * size < int_mod = omega (arith, mul-le-mul_right size le, v.fits) in
      let (wanted, one) =
        sizes frames a.channels (fmt_bytes a.fmt) v.some_channels (fmt_bytes-pos a.fmt) pos fits in
      let enough : size ≤ frames * size = omega (arith, mul-le-mul_right size pos) in
      let (m, answered, low, high) = moves k (frames * size) enough in
      let moved : driver k (wanted_bytes a frames) ≡ inl m = ap (driver k) wanted ∙ answered in
      (
        m / size,
        rw (v.opened, v.playing, moved, one) refl,
        (le-div_iff_mul-le pos_size).1 (omega arith),
        div-le_of_le-mul size (omega (arith, mul_comm frames size)),
      )

  chunk_fits :
      (total written : ℕ)
      → 0 < a.period_frames
      → written < total
      → let chunk = chunk_of (total - written) a.period_frames in
        (0 < chunk) × (chunk ≤ a.period_frames) × (chunk ≤ total - written)
  chunk_fits total written period more = (ground arith, ground arith, ground arith)

  writes :
      (rounds total k written : ℕ)
      → total < int_min
      → written ≤ total
      → total - written < rounds
      → write_rounds rounds driver a total k written ≡ some total
  unfolding write_rounds
  writes zero total k written small le enough = absurd (omega arith)
  writes (suc rounds) total k written small le enough = elim (dec_lt written total) [
    | yes more ↦
        let chunk = chunk_of (total - written) a.period_frames in
        let (pos_chunk, fits, left) = chunk_fits total written v.some_period more in
        let (n, moved, pos, le) = chunk_moved k chunk pos_chunk fits in
        let less : ltb written total ≡ true = ground arith in
        let fine : is_neg n ≡ false = ground arith in
        let sum : int_add written n ≡ written + n = omega arith in
        rw (less, moved, fine, sum)
          (writes rounds total (k + 1) (written + n) small (omega arith) (omega arith))
    | no done ↦
        let not_less : ltb written total ≡ false = ground arith in
        let all : written ≡ total = omega arith in rw (not_less, all) refl
  ]

  -- For a number of frames below 2 ^ 31, on an open playback device with a channel at least and a period of one frame or
  -- more and fewer than 2 ^ 31 bytes: where the driver moves a frame at least in each write, and no more than it is
  -- asked for, the loop of test_playback ends, after one round more than there are frames at the most, and exactly that
  -- number of frames is written.
  pub write_rounds-total :
      (total : ℕ) → total < int_min → write_rounds (suc total) driver a total 0 0 ≡ some total
  write_rounds-total total small = writes (suc total) total 0 0 small (omega arith) (omega arith)
