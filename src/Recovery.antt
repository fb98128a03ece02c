-- ===== src/Recovery.antt =====
-- libbb/bb_recovery.c: the request for recovery, the check of the partitions, images, and snapshots.
pub mod Partitions
pub mod Snapshots
mod Tests
use imx8mp_building_blocks.Base.{
  ℕ, suc, ◌+◌, ◌-◌, ◌==◌, Bool, true, false, ◌||◌, Option, none, some, List, [], ◌∷◌, ◌++◌,
  if◌then◌else◌, length, take, map,
}
use imx8mp_building_blocks.Base.Bytes.{Bytes, codes}
use imx8mp_building_blocks.Base.Words.{minus_one, int_sub}
use imx8mp_building_blocks.Board.{
  Board, Part, boot_a, boot_b, rootfs_a, rootfs_b, recovery, persist, log, device,
}
use imx8mp_building_blocks.Bus.Lines.{newline}
use imx8mp_building_blocks.Bus.Words.{scan_word}
use imx8mp_building_blocks.Json.Reader.{after_word, atoi}
use imx8mp_building_blocks.Stdio.{fgets_all, fgets_first, snprintf, has_word}

-- The commands given to system(), but for the redirection of their messages.
pub data Command : Type 0 where
  fsck_ext4 : Bytes → Command
  fsck_vfat : Bytes → Command
  unpack : Bytes → Bytes → Command
  dd : Bytes → Bytes → Command
  set_env : Bytes → Bytes → Command
  wipe : Bytes → Command
  pack_persist : Bytes → Command
  copy_release : Bytes → Command
  remove_tree : Bytes → Command

-- bb_recovery_request, with what popen and pclose answer. The reason is not used.
unfoldable pub request : ℕ → Option ℕ → ℕ
request reason none = minus_one
request reason (some rc) = if rc == 0 then 0 else minus_one

-- bb_recovery_is_active, if "/" is there: `none` if /proc/cmdline cannot be opened.
unfoldable pub is_active : Board → Option Bytes → Bool
unfolding fgets_first has_word
is_active b none = false
is_active b (some cmdline) = elim (fgets_first 512 cmdline) [
  | none ↦ false
  | some line ↦ has_word (codes "root=" ++ device b recovery) line
]

-- bb_recovery_reason, from the file of the persist partition.
unfoldable pub reason : Option Bytes → ℕ
unfolding atoi
reason none = 0
reason (some text) = atoi text

-- The devices that bb_recovery_verify_partitions goes through.
abbrev pub parts : List Part
parts = boot_a ∷ boot_b ∷ rootfs_a ∷ rootfs_b ∷ persist ∷ log ∷ []

unfoldable pub check : Bytes → Command
unfolding has_word
check part =
    if has_word (codes "p4") part || has_word (codes "p5") part
    then fsck_vfat part
    else fsck_ext4 part

-- The loop: `answer i c` is the status of the i-th call of system(), if it is given `c`.
unfoldable pub check_all : (ℕ → Command → ℕ) → ℕ → List Bytes → ℕ × List Command
unfolding check
check_all answer i [] = (0, [])
check_all answer i (part ∷ rest) =
    let (failures, commands) = check_all answer (i + 1) rest in
    let failed : ℕ = if answer i (check part) == 0 then 0 else 1 in
    (failed + failures, check part ∷ commands)

unfoldable pub verify_partitions : Board → (ℕ → Command → ℕ) → ℕ × List Command
unfolding device check_all
verify_partitions b answer = check_all answer 0 (map (λ p. snprintf 32 (device b p)) parts)

-- The command of bb_recovery_reimage, which returns its status.
unfoldable pub reimage : Bytes → Bytes → Command
unfolding has_word
reimage partition image =
    if has_word (codes ".tar") image || has_word (codes ".tgz") image
    then unpack partition image
    else dd image partition

-- bb_recovery_factory_reset runs them all, whatever they answer, and returns 0.
unfoldable pub factory_reset : ℕ × List Command
unfolding reimage
factory_reset = (
  0,
  reimage (codes "/dev/mmcblk0p6") (codes "/recovery/factory/rootfs-a.img")
      ∷ reimage (codes "/dev/mmcblk0p7") (codes "/recovery/factory/rootfs-b.img")
      ∷ set_env (codes "boot_slot") (codes "a")
      ∷ set_env (codes "boot_attempt") (codes "3")
      ∷ set_env (codes "boot_ok") (codes "0")
      ∷ set_env (codes "recovery_mode") (codes "0")
      ∷ wipe (codes "/dev/mmcblk0p9")
      ∷ wipe (codes "/dev/mmcblk0p11")
      ∷ [],
)

-- The directory of a snapshot.
unfoldable pub snapshot_dir : Bytes → Bytes
snapshot_dir label = snprintf 256 (codes "/recovery/snapshots/" ++ label)

-- sscanf(line, "%127s %127s", part, img) == 2
unfoldable pub two_words : Bytes → Option (Bytes × Bytes)
unfolding scan_word
two_words line =
    let (part, behind) = scan_word 127 line in
    let (img, rest) = scan_word 127 behind in
    elim part [ [] ↦ none | c ∷ p ↦ elim img [ [] ↦ none | d ∷ q ↦ some (c ∷ p, d ∷ q) ] ]

-- The loop of bb_recovery_restore_snapshot.
unfoldable pub restore_lines : (ℕ → Command → ℕ) → ℕ → Bytes → List Bytes → ℕ × List Command
unfolding two_words reimage
restore_lines answer i path [] = (0, [])
restore_lines answer i path (line ∷ lines) =
    let skipped = restore_lines answer i path lines in
    let (errors, commands) = restore_lines answer (i + 1) path lines in
    elim (two_words line) [
      | none ↦ skipped
      | some (part, img) ↦
          let command = reimage part (snprintf 256 (path ++ (b'/' ∷ img))) in
          let failed : ℕ = if answer i command == 0 then 0 else 1 in
          (failed + errors, command ∷ commands)
    ]

-- bb_recovery_restore_snapshot: whether the directory is there, which is asked before the partition is
-- mounted, and the text of the manifest.
unfoldable pub restore_snapshot : (ℕ → Command → ℕ) → Bool → Option Bytes → Bytes → ℕ × List Command
unfolding snapshot_dir fgets_all restore_lines
restore_snapshot answer false manifest label = (minus_one, [])
restore_snapshot answer true none label = (minus_one, [])
restore_snapshot answer true (some manifest) label =
    restore_lines answer 0 (snapshot_dir label) (fgets_all 256 manifest)

-- The text from `c` on without a newline at its end.
unfoldable pub without_newline : ℕ → Bytes → Bytes
without_newline c [] = if c == newline then [] else c ∷ []
without_newline c (d ∷ s) = c ∷ without_newline d s

-- bb_recovery_list_snapshots, from what the shell prints: the labels in quotes, with commas.
unfoldable pub list_snapshots : Option Bytes → Bytes
unfolding without_newline
list_snapshots none = codes "[]"
list_snapshots (some printed) = elim (take 4095 printed) [
  | [] ↦ codes "[]"
  | c ∷ s ↦ b'[' ∷ without_newline c s ++ b']' ∷ []
]

-- bb_snapshot_create, with errno if the partition cannot be mounted: the status, the text of the
-- manifest, and the commands.
unfoldable pub snapshot_create : Option ℕ → Bool → Bytes → ℕ × Option Bytes × List Command
unfolding snapshot_dir
snapshot_create (some errno) opens label = (int_sub 0 errno, none, [])
snapshot_create none false label = (minus_one, none, [])
snapshot_create none true label = (
  0,
  some (codes "/dev/mmcblk0p9 persist.tar.gz" ++ newline ∷ []),
  pack_persist (snapshot_dir label) ∷ copy_release (snapshot_dir label) ∷ [],
)

-- bb_snapshot_delete: its status is that of the command.
unfoldable pub snapshot_delete : Bytes → Command
unfolding snapshot_dir
snapshot_delete label = remove_tree (snapshot_dir label)

-- The command lines, in buffers of 256 or 512 bytes.
unfoldable pub text : Command → Bytes
text (fsck_ext4 part) = snprintf 256 (codes "fsck.ext4 -n " ++ (part ++ codes " >/dev/null 2>&1"))
text (fsck_vfat part) = snprintf 256 (codes "fsck.vfat -n " ++ (part ++ codes " >/dev/null 2>&1"))
text (unpack part image) = snprintf 512 (
    codes "mkfs.ext4 -F "
    ++ (part
        ++ (codes " && mkdir -p /tmp/reimage && mount "
            ++ (part
                ++ (codes " /tmp/reimage && tar xzf "
                    ++ (image ++ codes " -C /tmp/reimage && umount /tmp/reimage"))))))
text (dd image part) =
    snprintf 512
      (codes "dd if=" ++ (image ++ (codes " of=" ++ (part ++ codes " bs=4M status=progress"))))
text (set_env name value) = codes "fw_setenv " ++ (name ++ (b' ' ∷ value))
text (wipe part) = codes "mkfs.ext4 -F " ++ part
text (pack_persist dir) =
    snprintf 512 (codes "tar czf " ++ (dir ++ codes "/persist.tar.gz -C /persist . 2>/dev/null"))
text (copy_release dir) =
    snprintf 512 (codes "cp /etc/os-release " ++ (dir ++ codes "/os-release 2>/dev/null"))
text (remove_tree dir) = snprintf 256 (codes "rm -rf " ++ dir)
