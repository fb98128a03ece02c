-- ===== src/Loopback/Tests.antt =====
-- Two seconds of a stream that captures 48000 frames in each and drops some, and one whose codec thread cannot start.
use imx8mp_building_blocks.Base.{
  ℕ, Bool, Option, none, ◌==◌, ◌+◌, ◌*◌, ◌%◌, ◌≡◌, refl, true, false, some, List, [], ◌∷◌,
}
use imx8mp_building_blocks.Base.Bytes.{Bytes, codes}
use imx8mp_building_blocks.Base.Words.{int_mod}
use imx8mp_building_blocks.Audio.{Device, no_config, no_stream}
use imx8mp_building_blocks.Audio.Lifecycle.{Answers}
use imx8mp_building_blocks.Loopback.{Run, RunOutcome, report, loopback}

abbrev codec_chip : Device
codec_chip = record { fd = 7; period_frames = 480; period_bytes = 1920 }

abbrev granting : Answers
granting = record {
  capture_opens = some codec_chip;
  playback_opens = some codec_chip;
  calloc_sp = true;
  malloc_sp = λ i. some (i + 100);
  calloc_mp = true;
  malloc_mp = λ i. some (i + 200);
  codec_init = none;
}

abbrev steady : Run
steady = record {
  answers = granting;
  contexts = λ i. true;
  playback_rc = 0;
  codec_rc = 0;
  capture_rc = 0;
  later =
      λ i s. record s { cap_frames = 48000 * i % int_mod; pb_frames = 47520 * i; drop_frames = i };
  at_end = λ s. record s { error = true };
  interrupted = λ i. false;
}

abbrev two_seconds : List Bytes
two_seconds = codes "2" ∷ []

-- What is told at the end, and the status.
abbrev told : Option RunOutcome → Option (Bool × ℕ)
told none = none
told (some o) = some (o.tells_errors, o.status)

-- The stream has seen an error, and nothing is said of it: bb_audio_stream_destroy has cleared the flag.
silent : told (loopback steady two_seconds) ≡ some (false, 0)
unfolding loopback
silent = refl

-- A device that does not open, and a context that is not granted.
no_card :
    told (loopback (record steady { answers = record granting { playback_opens = none } }) [])
    ≡ some (false, 1)
unfolding loopback
no_card = refl

no_memory : told (loopback (record steady { contexts = λ i. i == 0 }) []) ≡ none
unfolding loopback
no_memory = refl

rows :
    report steady (no_stream no_config) 2 0 0 0
    ≡ record {
      second = 1;
      cap = 48000;
      pb = 47520;
      drop = 1;
      cap_delta = 48000;
      pb_delta = 47520;
      warns = true;
    }
      ∷ record {
        second = 2;
        cap = 96000;
        pb = 95040;
        drop = 2;
        cap_delta = 48000;
        pb_delta = 47520;
        warns = true;
      }
      ∷ []
unfolding report
rows = refl
