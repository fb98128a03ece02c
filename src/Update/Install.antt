-- ===== src/Update/Install.antt =====
-- bb_update_install and bb_update_create: what they ask of the shell, and the package that is created.
use imx8mp_building_blocks.Base.{
  ℕ, ◌+◌, ◌%◌, ◌/◌, ◌==◌, Bool, true, false, Option, none, some, List, [], ◌∷◌, ◌++◌, if◌then◌else◌,
  length, drop,
}
use imx8mp_building_blocks.Base.Bytes.{Bytes, codes}
use imx8mp_building_blocks.Base.Words.{minus_one, is_neg}
use imx8mp_building_blocks.Bus.Lines.{newline}
use imx8mp_building_blocks.Json.Writer.{digits}
use imx8mp_building_blocks.Stdio.{snprintf}
use imx8mp_building_blocks.Board.{Board, boot_a, boot_b, rootfs_a, rootfs_b, device}
use imx8mp_building_blocks.Update.{
  Manifest, manifest_size, from_version, to_version, target_slot, magic, verify, read_manifest,
  current_slot,
}
use imx8mp_building_blocks.Update.Shell.{
  Effect, run, remove_dir, log_line, format_vfat, format_ext4, extract, mount, untar, umount,
  script, remove_tree, set_env, copy, archive,
}

-- What an installation meets. `memory` is what its manifest holds before it is read, and a directory of
-- mkdtemp is `none` if it fails.
pub record Environment : Type 0 where
  pub bbu : Option Bytes
  pub memory : Manifest
  pub cmdline : Option Bytes
  pub work_dir : Option Bytes
  pub extracts : Bool
  pub has_boot_tar : Bool
  pub boot_mount : Option Bytes
  pub rootfs_mount : Option Bytes
  pub has_script : Bool
  pub log_opens : Bool
  pub now : ℕ

-- '=' stands for the slot that is not in use.
unfoldable pub choose_slot : ℕ → ℕ → ℕ
choose_slot current slot = if slot == b'=' then (if current == b'a' then b'b' else b'a') else slot

abbrev pub boot_part : Board → ℕ → Bytes
boot_part b target = device b (if target == b'a' then boot_a else boot_b)

abbrev pub rootfs_part : Board → ℕ → Bytes
rootfs_part b target = device b (if target == b'a' then rootfs_a else rootfs_b)

-- snprintf(…, "%s/…", dir)
abbrev pub inside : Bytes → Bytes → Bytes
inside dir name = snprintf 256 (dir ++ name)

-- Step 7, with the answers of stat and mkdtemp.
unfoldable pub write_boot : Bool → Option Bytes → Bytes → Bytes → List Effect
write_boot false mount_dir part dir = []
write_boot true none part dir = []
write_boot true (some mnt) part dir =
    run (mount part mnt)
    ∷ run (untar (inside dir (codes "/boot.tar.gz")) mnt)
    ∷ run (umount mnt)
    ∷ remove_dir mnt
    ∷ []

-- Step 9, with the answer of access.
abbrev pub run_script : Bool → Bytes → List Effect
run_script false mnt = []
run_script true mnt = run (script (inside mnt (codes "/post-install.sh"))) ∷ []

-- Steps 8 and 9, with the answer of mkdtemp.
unfoldable pub write_rootfs : Bool → Option Bytes → Bytes → Bytes → List Effect
write_rootfs has_script none part dir = []
write_rootfs has_script (some mnt) part dir =
    run (mount part mnt)
      ∷ run (untar (inside dir (codes "/rootfs.tar.gz")) mnt)
      ∷ run_script has_script mnt
    ++ (run (umount mnt) ∷ remove_dir mnt ∷ [])

-- The line of the log of step 11.
unfoldable pub log_entry : ℕ → Manifest → ℕ → Bytes
unfolding digits from_version to_version
log_entry now m target =
    codes "{\"ts\":"
    ++ (digits 20 now
        ++ (codes ",\"from\":\""
            ++ (from_version m
                ++ (codes "\",\"to\":\""
                    ++ (to_version m
                        ++ (codes "\",\"slot\":\""
                            ++ (target ∷ codes "\",\"ok\":false}" ++ newline ∷ [])))))))

-- Step 5.
abbrev pub format : Board → ℕ → List Effect
format b target =
    run (format_vfat (boot_part b target)) ∷ run (format_ext4 (rootfs_part b target)) ∷ []

-- Steps 7 to 9, with the removal of the directory.
abbrev pub write_parts : Board → Environment → ℕ → Bytes → List Effect
write_parts b a target dir =
    write_boot a.has_boot_tar a.boot_mount (boot_part b target) dir
    ++ (write_rootfs a.has_script a.rootfs_mount (rootfs_part b target) dir
        ++ run (remove_tree dir) ∷ [])

-- Steps 10 and 11. The status of fw_setenv changes a message only.
unfoldable pub activate : Environment → Manifest → ℕ → List Effect
unfolding log_entry
activate a m target =
    run (set_env target) ∷ (if a.log_opens then log_line (log_entry a.now m target) ∷ [] else [])

-- Where the archive starts for `tail -c +`.
abbrev pub header_size : ℕ
header_size = 8 + manifest_size

-- From step 5 on.
unfoldable pub install_to : Board → Environment → Bytes → Manifest → ℕ → ℕ × List Effect
unfolding write_boot write_rootfs activate
install_to b a path m target = elim a.work_dir [
  | none ↦ (minus_one, format b target)
  | some dir ↦
      let started = format b target ++ run (extract header_size path dir) ∷ [] in
      if a.extracts
      then (0, started ++ (write_parts b a target dir ++ activate a m target))
      else (minus_one, started)
]

-- bb_update_install(path).
unfoldable pub install : Board → Environment → Bytes → ℕ × List Effect
unfolding verify read_manifest current_slot choose_slot install_to
install b a path =
    let (readable, m) = read_manifest a.bbu a.memory in
    if is_neg (verify a.bbu)
    then (minus_one, [])
    else if is_neg readable
    then (minus_one, [])
    else install_to b a path m (choose_slot (current_slot a.cmdline) (target_slot m))

-- What bb_update_create meets; `archived` is the tar archive that the shell appends.
pub record Source : Type 0 where
  pub opens : Bool
  pub temp_dir : Option Bytes
  pub script_readable : Bool
  pub archived : Bytes

-- A `uint32_t` as fwrite writes it.
abbrev pub to_le32 : ℕ → Bytes
to_le32 n = n % 256 ∷ n / 256 % 256 ∷ n / 65536 % 256 ∷ n / 16777216 % 256 ∷ []

abbrev pub header : Manifest → Bytes
header m = to_le32 magic ++ (to_le32 1 ++ m)

-- The header is shorter than the buffer of the stream, so it reaches the file when the stream is closed,
-- at its start, over what the file holds then.
unfoldable pub flush : Bytes → Bytes → Bytes
flush buffer file = buffer ++ drop (length buffer) file

-- bb_update_create: the status, the file, and the commands.
unfoldable pub create :
    Source → Bytes → Manifest → Option Bytes → Bytes → Option Bytes → ℕ × Option Bytes × List Effect
unfolding flush
create s output m boot rootfs post =
    if s.opens
    then elim s.temp_dir [
      | none ↦ (minus_one, some (flush (header m) []), [])
      | some dir ↦ (
        0,
        some (flush (header m) s.archived),
        (elim boot [ none ↦ [] | some tar ↦ run (copy tar (dir ++ codes "/boot.tar.gz")) ∷ [] ])
            ++ (run (copy rootfs (dir ++ codes "/rootfs.tar.gz")) ∷ (elim post [
              | none ↦ []
              | some file ↦
                  if s.script_readable
                  then run (copy file (dir ++ codes "/post-install.sh")) ∷ []
                  else []
            ])
                ++ (run (archive dir output) ∷ run (remove_tree dir) ∷ [])),
      )
    ]
    else (minus_one, none, [])
