-- ===== src/Audio/Through/Periods.antt =====
-- The arithmetic of a period: frames and bytes.
use imx8mp_building_blocks.Base.{
  ℕ, zero, suc, ◌+◌, ◌*◌, ◌/◌, ◌%◌, ◌≤◌, ◌<◌, ◌≡◌, ◌∙◌, refl, ap, [], ◌∷◌, ◌++◌, arith, length,
  take, drop,
}
use imx8mp_building_blocks.Base.Bytes.{Bytes}
use imx8mp_building_blocks.Base.Words.{int_mod}
use imx8mp_building_blocks.Audio.{
  Format, s16_le, s24_le, s32_le, Config, sample_bytes, frames_to_bytes, bytes_to_frames, overwrite,
}
use native.Mathlib.Nat.{mul-pos, mul-le-mul, mul-add-div, zero-div}

pub take-overwrite :
    (n : ℕ) (bytes old : Bytes) → n ≡ length bytes → take n (overwrite bytes old) ≡ bytes
take-overwrite n bytes old e = go n bytes (drop (length bytes) old) e
  where
    go : (n : ℕ) (xs ys : Bytes) → n ≡ length xs → take n (xs ++ ys) ≡ xs
    go zero [] ys e = refl
    go (suc n) [] ys e = absurd (omega arith)
    go zero (x ∷ xs) ys e = absurd (omega arith)
    go (suc n) (x ∷ xs) ys e = ap (λ r. x ∷ r) (go n xs ys (omega arith))

-- A read of `n` frames, whose size in bytes is a 32-bit number.
pub record IsPeriod (cfg : Config) (n : ℕ) (bytes : Bytes) : Type 0 where
  pub some_frames : 0 < n
  pub some_channels : 0 < cfg.channels
  pub fits : n * cfg.channels * sample_bytes cfg.fmt < int_mod
  pub whole : length bytes ≡ n * cfg.channels * sample_bytes cfg.fmt

module _ {cfg : Config} {n : ℕ} {bytes : Bytes} (h : IsPeriod cfg n bytes) where
  pub size-eq : frames_to_bytes n cfg.channels cfg.fmt ≡ length bytes
  size-eq = omega (arith, h.fits, h.whole)

  pub sample_positive : (fmt : Format) → 0 < sample_bytes fmt
  sample_positive s16_le = omega arith
  sample_positive s24_le = omega arith
  sample_positive s32_le = omega arith

  abbrev pub frame_bytes : ℕ
  frame_bytes = cfg.channels * sample_bytes cfg.fmt

  pub frame_positive : 0 < frame_bytes
  frame_positive = mul-pos h.some_channels (sample_positive cfg.fmt)

  pub whole_frames : length bytes ≡ frame_bytes * n
  whole_frames = grind (arith, h.whole)

  pub frame_le : frame_bytes ≤ length bytes
  frame_le =
      let self : frame_bytes ≤ frame_bytes = omega arith in
      let one : frame_bytes * 1 ≤ frame_bytes * n = mul-le-mul self h.some_frames in
      omega (arith, one, whole_frames)

  pub n_le : n ≤ length bytes
  n_le =
      let self : n ≤ n = omega arith in
      let one : 1 * n ≤ frame_bytes * n = mul-le-mul frame_positive self in
      omega (arith, one, whole_frames)

  pub size_positive : 0 < length bytes
  size_positive = omega (arith, frame_le, frame_positive)

  pub bytes_to_frames-size : bytes_to_frames (length bytes) cfg.channels cfg.fmt ≡ n
  bytes_to_frames-size =
      let small : length bytes < int_mod = omega (arith, h.fits, h.whole) in
      let all_in : frame_bytes % int_mod ≡ frame_bytes = omega (arith, frame_le) in
      let exact : (frame_bytes * n + 0) / frame_bytes ≡ n + 0 / frame_bytes =
        mul-add-div frame_positive n 0 in
      let none_left : 0 / frame_bytes ≡ 0 = zero-div frame_bytes in
      let padded : length bytes ≡ frame_bytes * n + 0 = omega (arith, whole_frames) in
      ap (λ d. (length bytes / d) % int_mod) all_in
      ∙ ap (λ l. (l / frame_bytes) % int_mod) padded
      ∙ ap (λ q. q % int_mod) (exact ∙ ap (λ r. n + r) none_left)
      ∙ omega (arith, n_le)
