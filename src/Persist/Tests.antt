-- ===== src/Persist/Tests.antt =====
-- A configuration of two lines.
use imx8mp_building_blocks.Base.{
  none, length, map, take, ◌≡◌, refl, true, some, List, [], ◌∷◌, ◌++◌, arith, All,
}
use imx8mp_building_blocks.Base.Bytes.{Bytes, codes}
use imx8mp_building_blocks.Json.Writer.{c_string}
use imx8mp_building_blocks.Stdio.{fgets_all, fgets_from}
use imx8mp_building_blocks.Stdio.Lines.{IsLine, unlines}
use imx8mp_building_blocks.Persist.{config_get, config_set, replace, matches}
use imx8mp_building_blocks.Persist.Logs.{BootEntry, boot_log_read, machine_id, ensure_mounted}
use imx8mp_building_blocks.Persist.BootLog.{IsEntry, add_entries, read-add_entries}
use imx8mp_building_blocks.Persist.Updates.{UpdateEntry, update_log_read}
use imx8mp_building_blocks.Persist.UpdateLine.{IsUpdate}
use imx8mp_building_blocks.Persist.UpdateLog.{add_updates, without_success, read-add_updates}
use imx8mp_building_blocks.Persist.Config.{config_set-get}

abbrev network : List Bytes
network = codes "address=10.0.0.2" ∷ codes "mask=24" ∷ []

network-IsLine : All (IsLine 512) network
network-IsLine = (
  record { whole = ground arith; short = omega arith },
  (record { whole = ground arith; short = omega arith }, tt),
)

config_set-get_example :
    config_get
      (config_set true (some (unlines network)) (codes "mask") (codes "16")).1
      (codes "mask")
    ≡ some (codes "16")
config_set-get_example =
    config_set-get (codes "mask") (codes "16") (ground arith) (ground arith) (omega arith) network
      network-IsLine (ground arith, (ground arith, tt))

-- Without a newline at the end of the file, a new entry is glued to its last line.
glued :
    (config_set true (some (codes "a=1")) (codes "b") (codes "2")).1
    ≡ some (codes "a=1b=2" ++ 10 ∷ [])
unfolding config_set fgets_all fgets_from replace matches c_string
glued = refl

abbrev first_boot : BootEntry
first_boot = record { timestamp = 1700000000; slot = b'a'; success = 1; boot_time_ms = 5200 }

abbrev second_boot : BootEntry
second_boot = record { timestamp = 1700000500; slot = b'b'; success = 0; boot_time_ms = 0 }

first_boot-IsEntry : IsEntry first_boot
first_boot-IsEntry = record {
  timestamp = omega arith;
  slot = refl;
  slot_some = omega arith;
  success = omega arith;
  boot_time_ms = omega arith;
}

second_boot-IsEntry : IsEntry second_boot
second_boot-IsEntry = record {
  timestamp = omega arith;
  slot = refl;
  slot_some = omega arith;
  success = omega arith;
  boot_time_ms = omega arith;
}

-- With room for one entry the older one is read.
read-add_entries_example :
    boot_log_read (add_entries (first_boot ∷ second_boot ∷ []) none) 1
    ≡ take 1 (first_boot ∷ second_boot ∷ [])
read-add_entries_example =
    read-add_entries first_boot (second_boot ∷ []) 1 (first_boot-IsEntry, (second_boot-IsEntry, tt))

no_id : machine_id (some []) ≡ codes "unknown"
unfolding machine_id
no_id = refl

-- A mount point whose name only starts like the target passes for it.
mistaken_mount :
    ensure_mounted (codes "/persist") (some (codes "/dev/sda1 /persist-old ext4 rw 0 0")) none ≡ 0
unfolding ensure_mounted
mistaken_mount = refl

abbrev upgrade : UpdateEntry
upgrade = record {
  timestamp = 1700000000;
  from_version = codes "1.0";
  to_version = codes "1.1";
  target_slot = b'b';
  success = 1;
}

abbrev no_update : UpdateEntry
no_update = record {
  timestamp = 0;
  from_version = [];
  to_version = [];
  target_slot = 0;
  success = 0;
}

upgrade-IsUpdate : IsUpdate upgrade
upgrade-IsUpdate = record {
  timestamp = omega arith;
  from_plain = ground arith;
  from_fits = omega arith;
  to_plain = ground arith;
  to_fits = omega arith;
  slot = ground arith;
  success = omega arith;
}

-- A successful update is read back as a failed one.
read-add_updates_example :
    update_log_read (add_updates (upgrade ∷ []) none) (no_update ∷ no_update ∷ [])
    ≡ take (length (no_update ∷ no_update ∷ [])) (map without_success (upgrade ∷ []))
read-add_updates_example =
    read-add_updates upgrade [] (no_update ∷ no_update ∷ []) (upgrade-IsUpdate, tt)

-- A line with a NUL loses its end, and its newline with it.
cut_line :
    (config_set true (some (codes "a=1" ++ 0 ∷ 10 ∷ [])) (codes "b") (codes "2")).1
    ≡ some (codes "a=1b=2" ++ 10 ∷ [])
unfolding config_set fgets_all fgets_from replace matches c_string
cut_line = refl
