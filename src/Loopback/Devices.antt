-- ===== src/Loopback/Devices.antt =====
-- What tools/bb-audio-loopback.c does with its devices.
use imx8mp_building_blocks.Base.{false, ℕ, true, Option, some, [], ◌≡◌, List}
use imx8mp_building_blocks.Base.Bytes.{Bytes}
use imx8mp_building_blocks.Audio.{Stream}
use imx8mp_building_blocks.Audio.Lifecycle.{Direction, Request}
use imx8mp_building_blocks.Audio.Rollback.{opens, closes}
use imx8mp_building_blocks.Loopback.{Run, RunOutcome}

abbrev Untouched : Direction → List Request → Type 0
Untouched d asked = (opens d asked ≡ 0) × (closes d asked ≡ 0)

-- The threads of the stream are created.
pub record Starts (r : Run) : Type 0 where
  pub granted : (i : ℕ) → r.contexts i ≡ true
  pub playback_runs : r.playback_rc ≡ 0
  pub codec_runs : r.codec_rc ≡ 0
  pub capture_runs : r.capture_rc ≡ 0

started : Stream → ℕ × Stream × List Request
started s = (
  0,
  record s { running = true; error = false; cap_frames = 0; pb_frames = 0; drop_frames = 0 },
  [],
)

-- A run that does not crash, with its devices closed.
Closes : Direction → Option RunOutcome → Type 0
Closes d run = (o : RunOutcome) × (run ≡ some o) × (opens d o.asked ≡ closes d o.asked)
