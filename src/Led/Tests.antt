-- ===== src/Led/Tests.antt =====
-- Runs of the blinking thread, and commands of the LED block.
use imx8mp_building_blocks.Base.{
  ◌≡◌, refl, true, false, none, some, List, [], ◌∷◌, arith, replicate,
}
use imx8mp_building_blocks.Base.Bytes.{codes}
use imx8mp_building_blocks.Base.Words.{minus_one}
use imx8mp_building_blocks.Board.{forlinx}
use imx8mp_building_blocks.Json.Writer.{
  write_object, c_string, add_all, add, add_string, add_int, print_int,
}
use imx8mp_building_blocks.Json.Reader.{get_string, find_key, after_word, skip_colon, string_from}
use imx8mp_building_blocks.Led.{
  Led, Reads, blink, on_cmd, led_off, set_brightness, blink_done, block_init, block_stop,
}
use imx8mp_building_blocks.Led.Blink.{steady, flashes, blink_counts}

blink_counts_example : blink 3 (replicate 4 steady) 0 ≡ (true, 3, flashes 3)
blink_counts_example = blink_counts 3 (omega arith) (omega arith)

-- The LED is switched off by a command while it is on for the second time.
abbrev cut_short : List Reads
cut_short = steady ∷ record steady { after_on = false } ∷ []

abbrev lit : Led
lit = record {
  sysfs = record {
    name = codes "heartbeat";
    max_brightness = 255;
    present = true;
    brightness = 255;
    trigger = [];
  };
  blink_active = true;
  on_ms = 500;
  off_ms = 500;
  count = 0;
}

stop-dark :
    (on_cmd (codes "{\"cmd\":\"stop\"}") lit).0
    ≡ record lit { sysfs = record lit.sysfs { brightness = 0 }; blink_active = false }
unfolding on_cmd get_string find_key after_word skip_colon string_from led_off set_brightness
stop-dark = refl

-- The event at the end of three cycles.
told : blink_done 3 ≡ codes "{\"type\":\"blink_done\",\"cycles\":3}"
unfolding blink_done write_object c_string add_all add add_string add_int print_int
told = refl

-- On the board of Forlinx the block takes the LED called heartbeat from the kernel; without it init fails.
started : (block_init forlinx (some 255) true lit).1.sysfs.trigger ≡ codes "none"
unfolding block_init
started = refl

not_there : (block_init forlinx none false lit).0 ≡ minus_one
unfolding block_init
not_there = refl

stopped : (block_stop lit).blink_active ≡ false
unfolding block_stop
stopped = refl
