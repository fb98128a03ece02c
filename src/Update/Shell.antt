-- ===== src/Update/Shell.antt =====
-- The commands that tools/bb-update/bb_update.c gives to system(), and the other changes it makes.
use imx8mp_building_blocks.Base.{ℕ, Option, none, some, ◌∷◌, ◌++◌}
use imx8mp_building_blocks.Base.Bytes.{Bytes, codes}
use imx8mp_building_blocks.Json.Writer.{digits}
use imx8mp_building_blocks.Stdio.{snprintf}

-- A `run` is a call of system(): `text` is the command line.
pub data Command : Type 0 where
  format_vfat : Bytes → Command
  format_ext4 : Bytes → Command
  extract : ℕ → Bytes → Bytes → Command
  mount : Bytes → Bytes → Command
  untar : Bytes → Bytes → Command
  umount : Bytes → Command
  script : Bytes → Command
  remove_tree : Bytes → Command
  set_env : ℕ → Command
  copy : Bytes → Bytes → Command
  archive : Bytes → Bytes → Command

pub data Effect : Type 0 where
  run : Command → Effect
  remove_dir : Bytes → Effect
  log_line : Bytes → Effect

-- The line in a buffer of `cmd`, or of `env_cmd`.
unfoldable pub text : Command → Bytes
unfolding digits
text (format_vfat part) = snprintf 512 (codes "mkfs.vfat -F 32 " ++ (part ++ codes " 2>/dev/null"))
text (format_ext4 part) = snprintf 512 (codes "mkfs.ext4 -F " ++ (part ++ codes " 2>/dev/null"))
text (extract skip path dir) = snprintf 512 (
    codes "tail -c +"
    ++ (digits 20 skip
        ++ (b' ' ∷ path ++ (codes " | tar xzf - -C " ++ (dir ++ codes " 2>/dev/null")))))
text (mount part dir) = snprintf 512 (codes "mount " ++ (part ++ (b' ' ∷ dir)))
text (untar tar dir) = snprintf 512 (codes "tar xzf " ++ (tar ++ (codes " -C " ++ dir)))
text (umount dir) = snprintf 512 (codes "umount " ++ dir)
text (script path) = snprintf 512 (codes "sh " ++ path)
text (remove_tree dir) = snprintf 512 (codes "rm -rf " ++ dir)
text (set_env slot) = snprintf 256 (
    codes "fw_setenv boot_slot "
    ++ (slot ∷ codes " && fw_setenv boot_attempt 3 && fw_setenv boot_ok 0"))
text (copy from to) = snprintf 512 (codes "cp " ++ (from ++ (b' ' ∷ to)))
text (archive dir output) =
    snprintf 512
      (codes "tar czf - -C " ++ (dir ++ (codes " . >> " ++ (output ++ codes " 2>/dev/null"))))

-- The partition that a command formats or mounts.
abbrev pub partition_of : Effect → Option Bytes
partition_of (run (format_vfat part)) = some part
partition_of (run (format_ext4 part)) = some part
partition_of (run (mount part dir)) = some part
partition_of e = none
