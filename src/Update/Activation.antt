-- ===== src/Update/Activation.antt =====
-- When an installation tells the boot loader of the new slot.
use imx8mp_building_blocks.Base.{
  ℕ, sym, Bool, true, false, Option, none, some, List, [], ◌∷◌, ◌++◌, inl, inr, arith, All,
  All-append, if◌then◌else◌, Bool-cases, Option-cases, append_assoc,
}
use imx8mp_building_blocks.Base.Bytes.{Bytes}
use imx8mp_building_blocks.Base.Words.{minus_one, is_neg}
use imx8mp_building_blocks.Board.{Board}
use imx8mp_building_blocks.Update.{Manifest, read_manifest, verify}
use imx8mp_building_blocks.Update.Shell.{
  Effect, run, remove_dir, log_line, set_env, Command, extract,
}
use imx8mp_building_blocks.Update.Install.{
  Environment, write_boot, write_rootfs, format, write_parts, activate, install_to, install,
  log_entry, header_size,
}
use imx8mp_building_blocks.Update.Slots.{chosen}

abbrev IsOther : Command → Type 0
IsOther (set_env slot) = ⊥
IsOther c = Unit {0}

-- Neither the boot loader nor the log is changed.
abbrev pub IsQuiet : Effect → Type 0
IsQuiet (run c) = IsOther c
IsQuiet (remove_dir dir) = Unit
IsQuiet (log_line line) = ⊥

write_boot-IsQuiet :
    (present : Bool) (m : Option Bytes) (part dir : Bytes)
    → All IsQuiet (write_boot present m part dir)
unfolding write_boot
write_boot-IsQuiet false m part dir = tt
write_boot-IsQuiet true none part dir = tt
write_boot-IsQuiet true (some m) part dir = omega arith

write_rootfs-IsQuiet :
    (has_script : Bool) (m : Option Bytes) (part dir : Bytes)
    → All IsQuiet (write_rootfs has_script m part dir)
unfolding write_rootfs
write_rootfs-IsQuiet s none part dir = tt
write_rootfs-IsQuiet true (some m) part dir = omega arith
write_rootfs-IsQuiet false (some m) part dir = omega arith

write_parts-IsQuiet :
    (b : Board) (a : Environment) (target : ℕ) (dir : Bytes)
    → All IsQuiet (write_parts b a target dir)
write_parts-IsQuiet b a target dir =
    All-append IsQuiet _ _ (write_boot-IsQuiet a.has_boot_tar a.boot_mount _ dir)
      (All-append IsQuiet _ _ (write_rootfs-IsQuiet a.has_script a.rootfs_mount _ dir) (tt, tt))

-- The line of the update log, if it can be opened.
abbrev logged : Environment → Manifest → ℕ → List Effect
logged a m target = if a.log_opens then log_line (log_entry a.now m target) ∷ [] else []

-- What comes before the boot loader is told, in an installation that succeeds, or all of one that does
-- not.
pub data Outcome (a : Environment) (m : Manifest) (target : ℕ) : ℕ × List Effect → Type 0 where
  failed : (es : List Effect) → All IsQuiet es → Outcome a m target (minus_one, es)
  installed :
      (es : List Effect)
      → All IsQuiet es
      → Outcome a m target (0, es ++ run (set_env target) ∷ logged a m target)

install_to-Outcome :
    (b : Board) (a : Environment) (path : Bytes) (m : Manifest) (target : ℕ)
    → Outcome a m target (install_to b a path m target)
unfolding install_to activate
install_to-Outcome b a path m target = elim (Option-cases a.work_dir) [
  | inl fails ↦ rw fails (failed (format b target) (tt, (tt, tt)))
  | inr (dir, e) ↦
      let started = format b target ++ run (extract header_size path dir) ∷ [] in
      let quiet : All IsQuiet started = (tt, (tt, (tt, tt))) in
      elim (Bool-cases a.extracts) [
        | inl yes_ ↦
            rw
              (
                e,
                yes_,
                sym (
                    append_assoc started (write_parts b a target dir)
                      (run (set_env target) ∷ logged a m target)),
              )
              (installed (started ++ write_parts b a target dir) (
                All-append IsQuiet started (write_parts b a target dir) quiet
                  (write_parts-IsQuiet b a target dir)))
        | inr no_ ↦ rw (e, no_) (failed started quiet)
      ]
]

-- An installation that fails, at whatever step, has changed neither the environment of the boot loader
-- nor the update log. One that succeeds ends with one call of fw_setenv for the chosen slot, after all writing, and
-- then one line in the update log if that can be opened; nothing ahead of them touches either.
pub install-Outcome :
    (b : Board) (a : Environment) (path : Bytes)
    → Outcome a (read_manifest a.bbu a.memory).1 (chosen a) (install b a path)
unfolding install
install-Outcome b a path = elim (Bool-cases (is_neg (verify a.bbu))) [
  | inl bad ↦ rw bad (failed [] tt)
  | inr good ↦ rw good (elim (Bool-cases (is_neg (read_manifest a.bbu a.memory).0)) [
    | inl bad ↦ rw bad (failed [] tt)
    | inr good' ↦ rw good' (install_to-Outcome b a path (read_manifest a.bbu a.memory).1 (chosen a))
  ])
]
