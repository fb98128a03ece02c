-- ===== src/Update/Tests.antt =====
-- A package, its installation, and the command lines.
use imx8mp_building_blocks.Base.{
  ℕ, suc, ◌-◌, ap, ◌≡◌, refl, true, false, none, some, [], ◌∷◌, ◌++◌, inl, arith, All, length, drop,
  replicate, set,
}
use imx8mp_building_blocks.Base.Bytes.{Bytes, codes}
use imx8mp_building_blocks.Board.{nxp_evk, forlinx, boot_b, device}
use imx8mp_building_blocks.Json.Reader.{after_word}
use imx8mp_building_blocks.Json.Writer.{print_int, digits}
use imx8mp_building_blocks.Stdio.{fgets_first, fgets_all, fgets_from}
use imx8mp_building_blocks.Update.{
  Manifest, manifest_size, verify, read_manifest, has_magic, fread, target_slot, current_slot,
  current_version,
}
use imx8mp_building_blocks.Update.Shell.{text, set_env, extract}
use imx8mp_building_blocks.Update.Install.{
  Environment, Source, header, header_size, create, install,
}
use imx8mp_building_blocks.Update.Slots.{Spares, chosen, install-Spares}
use imx8mp_building_blocks.Update.Activation.{Outcome, install-Outcome}
use imx8mp_building_blocks.Update.Package.{create-read}
use imx8mp_building_blocks.Update.Options.{main, parse, no_options, missing, show_slot}
use imx8mp_building_blocks.Update.Options.Sized.{parse-sized}

abbrev auto : Manifest
auto = set (replicate manifest_size 0) 64 b'='

abbrev from_slot_a : Environment
from_slot_a = record {
  bbu = some (header auto);
  memory = replicate manifest_size 7;
  cmdline = some (codes "root=/dev/mmcblk0p6 boot_slot=a");
  work_dir = some (codes "/tmp/bb-update-1");
  extracts = true;
  has_boot_tar = true;
  boot_mount = some (codes "/tmp/bb-boot-1");
  rootfs_mount = some (codes "/tmp/bb-rootfs-1");
  has_script = true;
  log_opens = true;
  now = 1700000000;
}

abbrev path : Bytes
path = codes "/tmp/up.bbu"

install-Spares_example :
    All (Spares forlinx (current_slot from_slot_a.cmdline)) (install forlinx from_slot_a path).1
unfolding target_slot read_manifest has_magic fread current_slot fgets_first fgets_all fgets_from
    after_word
install-Spares_example = install-Spares forlinx from_slot_a path refl (inl refl)

install-Outcome_example :
    Outcome from_slot_a
      (read_manifest from_slot_a.bbu from_slot_a.memory).1
      (chosen from_slot_a)
      (install nxp_evk from_slot_a path)
install-Outcome_example = install-Outcome nxp_evk from_slot_a path

abbrev host : Source
host = record {
  opens = true;
  temp_dir = some (codes "/tmp/bb-update-create-1");
  script_readable = false;
  archived = replicate 400 31;
}

create-read_example :
    (verify (create host path auto none (codes "rootfs.tar.gz") none).1 ≡ 0)
    × (read_manifest
          (create host path auto none (codes "rootfs.tar.gz") none).1
          (replicate manifest_size 1)
        ≡ (0, auto))
create-read_example =
    create-read host path none (codes "rootfs.tar.gz") none (codes "/tmp/bb-update-create-1") refl
      refl auto refl (replicate manifest_size 1) refl

-- What tail prints from the byte of a number on.
tail_from : ℕ → Bytes → Bytes
tail_from n t = drop (n - 1) t

tail_from-suc : (n : ℕ) (t : Bytes) → tail_from (suc n) t ≡ drop n t
unfolding tail_from
tail_from-suc n t = let e : suc n - 1 ≡ n = omega arith in ap (λ (k : ℕ). drop k t) e

abbrev cut_short : Environment
cut_short = record from_slot_a { bbu = some (0x42 ∷ 0x48 ∷ 0x55 ∷ 0x42 ∷ []) }

parse-sized_example :
    length (parse (codes "--from" ∷ replicate 40 b'1' ∷ []) (no_options 17)).manifest
    ≡ manifest_size
parse-sized_example = parse-sized 17 (codes "--from" ∷ replicate 40 b'1' ∷ [])

boot_device : device nxp_evk boot_b ≡ codes "/dev/mmcblk1p2"
unfolding device print_int digits
boot_device = refl

environment :
    text (set_env b'b')
    ≡ codes "fw_setenv boot_slot b && fw_setenv boot_attempt 3 && fw_setenv boot_ok 0"
unfolding text
environment = refl

unpacking :
    text (extract header_size path (codes "/tmp/d"))
    ≡ codes "tail -c +352 /tmp/up.bbu | tar xzf - -C /tmp/d 2>/dev/null"
unfolding text digits
unpacking = refl

version :
    current_version 64
      (some (codes "ID=x" ++ 10 ∷ codes "BUILDING_BLOCKS_VERSION=1.2\"" ++ 10 ∷ []))
    ≡ codes "1.2"
unfolding current_version
version = refl

-- A package needs both versions.
unversioned :
    main 17 (codes "create" ∷ codes "--rootfs" ∷ codes "r.tar.gz" ∷ codes "out.bbu" ∷ []) ≡ missing
unfolding main
unversioned = refl

slot_shown : main 17 (codes "slot" ∷ []) ≡ show_slot
unfolding main
slot_shown = refl
