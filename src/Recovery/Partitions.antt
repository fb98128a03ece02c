-- ===== src/Recovery/Partitions.antt =====
-- What the check of the partitions and a factory reset do to the partitions of each board.
use imx8mp_building_blocks.Base.{
  ℕ, ◌+◌, ◌==◌, ◌≡◌, ◌≢◌, refl, ap, Option, none, some, List, [], ◌∷◌, if◌then◌else◌, All, map,
}
use imx8mp_building_blocks.Base.Bytes.{Bytes}
use imx8mp_building_blocks.Board.{
  Board, nxp_evk, forlinx, Part, boot_a, boot_b, rootfs_a, rootfs_b, persist, log, device, byte_ne,
}
use imx8mp_building_blocks.Json.Reader.{after_word}
use imx8mp_building_blocks.Json.Writer.{print_int, digits}
use imx8mp_building_blocks.Stdio.{has_word}
use imx8mp_building_blocks.Recovery.{
  Command, fsck_ext4, fsck_vfat, unpack, dd, wipe, parts, check, check_all, verify_partitions,
  reimage, factory_reset,
}

-- The check that suits the file system of a partition: vfat on the boot partitions, ext4 elsewhere.
abbrev pub suited : Board → Part → Command
suited b boot_a = fsck_vfat (device b boot_a)
suited b boot_b = fsck_vfat (device b boot_b)
suited b p = fsck_ext4 (device b p)

-- How many of a row of calls fail.
abbrev pub failures : (ℕ → Command → ℕ) → ℕ → List Command → ℕ
failures answer i [] = 0
failures answer i (c ∷ cs) =
    let rest = failures answer (i + 1) cs in (if answer i c == 0 then 0 else 1) + rest

check_all-eq :
    (answer : ℕ → Command → ℕ) (i : ℕ) (devices : List Bytes)
    → check_all answer i devices ≡ (failures answer i (map check devices), map check devices)
unfolding check_all
check_all-eq answer i [] = refl
check_all-eq answer i (d ∷ ds) = rw (check_all-eq answer (i + 1) ds) refl

-- On the Forlinx board bb_recovery_verify_partitions checks each of the six partitions once, as what it
-- is, and returns how many checks fail. On the NXP board it checks the vfat boot partitions as ext4, and
-- the rootfs of slot B as vfat.
pub verify_partitions-suited :
    (answer : ℕ → Command → ℕ)
    → (verify_partitions forlinx answer
        ≡ (failures answer 0 (map (suited forlinx) parts), map (suited forlinx) parts))
      × ((verify_partitions nxp_evk answer).1
          ≡ fsck_ext4 (device nxp_evk boot_a)
            ∷ fsck_ext4 (device nxp_evk boot_b)
            ∷ fsck_ext4 (device nxp_evk rootfs_a)
            ∷ fsck_vfat (device nxp_evk rootfs_b)
            ∷ fsck_ext4 (device nxp_evk persist)
            ∷ fsck_ext4 (device nxp_evk log)
            ∷ [])
unfolding verify_partitions check has_word after_word device print_int digits
verify_partitions-suited answer = (
  check_all-eq answer 0 (map (device forlinx) parts),
  ap (λ (r : ℕ × List Command). r.1) (check_all-eq answer 0 (map (device nxp_evk) parts)),
)

-- The partition that a command writes to.
abbrev pub written : Command → Option Bytes
written (unpack part image) = some part
written (dd image part) = some part
written (wipe part) = some part
written c = none

-- The partitions that a row of commands writes to, in order.
abbrev pub targets : List Command → List Bytes
targets [] = []
targets (c ∷ cs) = elim (written c) [ none ↦ targets cs | some part ↦ part ∷ targets cs ]

-- bb_recovery_factory_reset writes to the rootfs partitions of both slots, to persist and to log of the
-- Forlinx board, in this order, and to none else. It does the same on the NXP board, where none of them
-- is a partition of the system.
pub factory_reset-targets :
    (targets factory_reset.1
      ≡ device forlinx rootfs_a
        ∷ device forlinx rootfs_b
        ∷ device forlinx persist
        ∷ device forlinx log
        ∷ [])
    × ((p : Part) → All (λ d. d ≢ device nxp_evk p) (targets factory_reset.1))
unfolding factory_reset reimage has_word after_word device print_int digits
factory_reset-targets = (refl, apart)
  where
    apart : (p : Part) → All (λ d. d ≢ device nxp_evk p) (targets factory_reset.1)
    apart p = (
      byte_ne 11 _ _ refl,
      (byte_ne 11 _ _ refl, (byte_ne 11 _ _ refl, (byte_ne 11 _ _ refl, tt))),
    )
