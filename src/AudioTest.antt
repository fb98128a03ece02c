-- ===== src/AudioTest.antt =====
-- tools/bb-audio-test.c: the loops of the two tests over Hal/Sound. The tone is floating-point arithmetic, and is left
-- out with the messages and the averages that are printed.
pub mod Playback
mod Tests
use imx8mp_building_blocks.Base.{
  ℕ, zero, suc, ◌+◌, ◌-◌, ◌*◌, ◌%◌, ◌^◌, ◌==◌, ltb, Bool, true, false, ◌⊎◌, Option, none, some,
  List, [], ◌∷◌, ◌++◌, take, if◌then◌else◌,
}
use imx8mp_building_blocks.Base.Words.{int_mod, is_neg, int_add, int_sub, minus_one}
use imx8mp_building_blocks.Audio.{s16_le}
use imx8mp_building_blocks.Hal.Sound.{
  Sound, Driver, Opened, crash, opened, Closed, sound_open, sound_close, transfer,
}

-- The frames of a round.
abbrev pub chunk_of : ℕ → ℕ → ℕ
chunk_of left period = if ltb period left then period else left

-- The loop of test_playback: what the driver answers in each round, from round `k` on, for at most so many rounds. It
-- gives the frames that are written, and none if it does not end.
unfoldable pub write_rounds : ℕ → (ℕ → ℕ → ℕ ⊎ ℕ) → Sound → ℕ → ℕ → ℕ → Option ℕ
unfolding transfer
write_rounds zero driver a total k written = none
write_rounds (suc rounds) driver a total k written =
    let n = transfer false (driver k) a (chunk_of (total - written) a.period_frames) in
    let rest = write_rounds rounds driver a total (k + 1) (int_add written n) in
    if ltb written total then (if is_neg n then some written else rest) else some written

-- A test ends with a status and the descriptors that are closed; `stuck` if its loop does not end in the rounds given,
-- or bb_audio_open divides by zero.
pub data Ending : Type 0 where
  stuck : Ending
  ended : ℕ → List Closed → Ending

abbrev pub on_written : Sound → Option ℕ → Ending
on_written a none = stuck
on_written a (some written) = ended 0 (sound_close a).1

-- What is done with an open device, if the heap grants the buffer.
abbrev pub with_device : Bool → Opened → (Sound → Ending) → Ending
with_device granted crash test = stuck
with_device granted (opened status a closed sw) test =
    if is_neg status
    then ended minus_one closed
    else if granted
    then test a
    else ended minus_one (sound_close a).1

-- test_playback
unfoldable pub test_playback : ℕ → Driver → Bool → (ℕ → ℕ → ℕ ⊎ ℕ) → ℕ → Ending
unfolding sound_open sound_close write_rounds
test_playback rounds d granted driver seconds =
    with_device granted (sound_open d false 48000 2 s16_le)
      (λ a. on_written a (write_rounds rounds driver a (a.rate * seconds % int_mod) 0 0))

-- The sums of test_capture as 64-bit patterns, and the peak as one of 16 bits.
pub record Measure : Type 0 where
  pub sum : ℕ
  pub sum_sq : ℕ
  pub nsamples : ℕ
  pub peak : ℕ

abbrev pub nothing_measured : Measure
nothing_measured = record { sum = 0; sum_sq = 0; nsamples = 0; peak = 0 }

-- An `int16_t` as an int, and as an `int64_t`.
abbrev pub int_of : ℕ → ℕ
int_of s = if ltb s (2 ^ 15) then s else s + 2 ^ 32 - 2 ^ 16

abbrev pub int64_of : ℕ → ℕ
int64_of s = if ltb s (2 ^ 15) then s else s + 2 ^ 64 - 2 ^ 16

-- `if (value > peak) peak = value`, which cuts the int to 16 bits.
unfoldable pub raise : ℕ → ℕ → ℕ
raise value peak =
    if ltb (int_add (int_of peak) (2 ^ 31)) (int_add value (2 ^ 31)) then value % 2 ^ 16 else peak

unfoldable pub measure : ℕ → Measure → Measure
unfolding raise
measure s m = record {
  sum = (m.sum + int64_of s) % 2 ^ 64;
  sum_sq = (m.sum_sq + int64_of s * int64_of s) % 2 ^ 64;
  nsamples = m.nsamples + 1;
  peak = raise (int_sub 0 (int_of s)) (raise (int_of s) m.peak);
}

unfoldable pub measure_all : List ℕ → Measure → Measure
unfolding measure
measure_all [] m = m
measure_all (s ∷ samples) m = measure_all samples (measure s m)

-- What a round of test_capture meets: poll ends without data, fails, or tells of data, with what the driver answers to
-- the read and the samples that the buffer holds then.
pub data Poll : Type 0 where
  timeout failed : Poll
  ready : (ℕ → ℕ ⊎ ℕ) → List ℕ → Poll

-- The loop of test_capture over what its rounds meet: the frames that are read and the sums, none if it does not end
-- with them.
unfoldable pub read_rounds : List Poll → Sound → ℕ → ℕ → Measure → Option (ℕ × Measure)
unfolding transfer measure_all
read_rounds [] a total read m = if ltb read total then none else some (read, m)
read_rounds (poll ∷ polls) a total read m =
    if ltb read total
    then elim poll [
      | timeout ↦ some (read, m)
      | failed ↦ some (read, m)
      | ready driver buf ↦
          let n = transfer true driver a (chunk_of (total - read) a.period_frames) in
          let m' = measure_all (take (n * a.channels % int_mod) buf) m in
          let rest = read_rounds polls a total (int_add read n) m' in
          if is_neg n then some (read, m) else rest
    ]
    else some (read, m)

abbrev pub on_read : Sound → Option (ℕ × Measure) → Ending
on_read a none = stuck
on_read a (some (read, m)) = ended 0 (sound_close a).1

-- test_capture
unfoldable pub test_capture : Driver → Bool → List Poll → ℕ → Ending
unfolding sound_open sound_close read_rounds
test_capture d granted polls seconds =
    with_device granted (sound_open d true 48000 2 s16_le)
      (λ a. on_read a (read_rounds polls a (a.rate * seconds % int_mod) 0 nothing_measured))
