-- ===== src/Log/Tests.antt =====
-- A log of at most 16 bytes.
use imx8mp_building_blocks.Base.{◌≡◌, refl, true, false, arith}
use imx8mp_building_blocks.Base.Bytes.{codes}
use imx8mp_building_blocks.Json.Writer.{print_int, digits}
use imx8mp_building_blocks.Log.{Log, log_write, to_file}
use imx8mp_building_blocks.Log.Rotation.{IsBounded, log_write-IsBounded}

abbrev small : Log
small = record {
  ident = codes "bb-led";
  dest = record { to_journal = false; to_file = true; to_stderr = false; to_crash = false };
  opened = true;
  max_size = 16;
  current_size = 12;
  level = 3;
  crash_count = 0;
  file = codes "first line..";
}

small-IsBounded : IsBounded small
small-IsBounded = record { limit = omega arith; size = omega arith; file = omega arith }

log_write-IsBounded_example :
    IsBounded (log_write 40 true 1 (codes "now") (codes "main.c") 7 (codes "failed") small).log
unfolding print_int digits
log_write-IsBounded_example =
    log_write-IsBounded 40 1 (codes "now") (codes "main.c") 7 (codes "failed") small (omega arith)
      small-IsBounded

-- A file that cannot be shortened stays above the limit, and is counted as half of it.
abbrev full : Log
full = record small { current_size = 16; file = codes "first line......" }

kept :
    (log_write 60 false 1 (codes "now") (codes "main.c") 7 (codes "failed") full).log.current_size
    ≡ 8
unfolding log_write to_file print_int digits
kept = refl
