-- ===== src/Recovery/Tests.antt =====
-- A snapshot named before-update, and single calls.
use imx8mp_building_blocks.Base.{
  ℕ, ◌==◌, ◌≡◌, refl, true, none, some, [], ◌∷◌, ◌++◌, if◌then◌else◌, arith,
}
use imx8mp_building_blocks.Base.Bytes.{codes}
use imx8mp_building_blocks.Board.{forlinx, device}
use imx8mp_building_blocks.Json.Writer.{print_int, digits}
use imx8mp_building_blocks.Recovery.{
  Command, fsck_vfat, unpack, restore_snapshot, snapshot_create, list_snapshots, is_active, reason,
  text, reimage, snapshot_delete,
}
use imx8mp_building_blocks.Recovery.Snapshots.{packed, restore-create}

-- Every image fails, and so does every check of an ext4 partition.
answer : ℕ → Command → ℕ
answer i (fsck_vfat part) = 0
answer i c = 256

restore-create_example :
    restore_snapshot answer true
      (snapshot_create none true (codes "before-update")).1
      (codes "before-update")
    ≡ (
      (if answer 0 (unpack (codes "/dev/mmcblk0p9") (packed (codes "before-update"))) == 0
          then 0
          else 1),
      unpack (codes "/dev/mmcblk0p9") (packed (codes "before-update")) ∷ [],
    )
restore-create_example = restore-create (codes "before-update") (omega arith) answer

listing : list_snapshots (some (codes "\"a\",\"b\"" ++ 10 ∷ [])) ≡ codes "[\"a\",\"b\"]"
unfolding list_snapshots
listing = refl

in_recovery : is_active forlinx (some (codes "console=ttymxc1 root=/dev/mmcblk0p8 rw")) ≡ true
unfolding is_active device print_int digits
in_recovery = refl

stored_reason : reason (some (codes "3" ++ 10 ∷ [])) ≡ 3
unfolding reason
stored_reason = refl

-- An image is unpacked, and its partition formatted first, if any part of its path looks like a tar file.
mistaken :
    reimage (codes "/dev/mmcblk0p6") (codes "/mnt/v1.tar.d/rootfs.img")
    ≡ unpack (codes "/dev/mmcblk0p6") (codes "/mnt/v1.tar.d/rootfs.img")
unfolding reimage
mistaken = refl

deletion : text (snapshot_delete []) ≡ codes "rm -rf /recovery/snapshots/"
unfolding text snapshot_delete
deletion = refl
