-- ===== src/Update/Slots.antt =====
-- Which partitions an installation formats and mounts, and when the boot loader is told of it.
use imx8mp_building_blocks.Base.{
  ℕ, ◌≡◌, ◌≢◌, refl, Bool, true, false, Option, none, some, List, [], ◌∷◌, ◌⊎◌, inl, inr, All,
  All-append, Bool-cases, Option-cases,
}
use imx8mp_building_blocks.Base.Bytes.{Bytes}
use imx8mp_building_blocks.Base.Words.{is_neg}
use imx8mp_building_blocks.Board.{Board, nxp_evk, forlinx, device, byte_ne}
use imx8mp_building_blocks.Json.Writer.{print_int, digits}
use imx8mp_building_blocks.Update.{Manifest, target_slot, read_manifest, verify, current_slot}
use imx8mp_building_blocks.Update.Shell.{Effect, partition_of}
use imx8mp_building_blocks.Update.Install.{
  Environment, choose_slot, boot_part, rootfs_part, write_boot, write_rootfs, format, write_parts,
  activate, install_to, install,
}

-- The partitions of a slot are all that an effect formats or mounts.
abbrev Within : Board → ℕ → Effect → Type 0
Within b target e =
    (partition_of e ≡ none)
    ⊎ ((partition_of e ≡ some (boot_part b target))
        ⊎ (partition_of e ≡ some (rootfs_part b target)))

module _ (b : Board) (target : ℕ) where
  write_boot-Within :
      (present : Bool) (m : Option Bytes) (dir : Bytes)
      → All (Within b target) (write_boot present m (boot_part b target) dir)
  unfolding write_boot
  write_boot-Within false m dir = tt
  write_boot-Within true none dir = tt
  write_boot-Within true (some m) dir = (inr (inl refl), (inl refl, (inl refl, (inl refl, tt))))

  write_rootfs-Within :
      (has_script : Bool) (m : Option Bytes) (dir : Bytes)
      → All (Within b target) (write_rootfs has_script m (rootfs_part b target) dir)
  unfolding write_rootfs
  write_rootfs-Within s none dir = tt
  write_rootfs-Within true (some m) dir =
      (inr (inr refl), (inl refl, (inl refl, (inl refl, (inl refl, tt)))))
  write_rootfs-Within false (some m) dir = (inr (inr refl), (inl refl, (inl refl, (inl refl, tt))))

  activate-Within : (a : Environment) (m : Manifest) → All (Within b target) (activate a m target)
  unfolding activate
  activate-Within a m = elim (Bool-cases a.log_opens) [
    | inl opens ↦ rw opens (inl refl, (inl refl, tt))
    | inr fails ↦ rw fails (inl refl, tt)
  ]

  write_parts-Within :
      (a : Environment) (dir : Bytes) → All (Within b target) (write_parts b a target dir)
  write_parts-Within a dir =
      All-append (Within b target) _ _ (write_boot-Within a.has_boot_tar a.boot_mount dir) (
        All-append (Within b target) _ _ (write_rootfs-Within a.has_script a.rootfs_mount dir)
          (inl refl, tt))

  install_to-Within :
      (a : Environment) (path : Bytes) (m : Manifest)
      → All (Within b target) (install_to b a path m target).1
  unfolding install_to
  install_to-Within a path m = elim (Option-cases a.work_dir) [
    | inl fails ↦ rw fails formats
    | inr (dir, e) ↦ elim (Bool-cases a.extracts) [
      | inl yes_ ↦
          rw (e, yes_)
            (
              inr (inl refl),
              (
                inr (inr refl),
                (
                  inl refl,
                  All-append (Within b target) _ _ (write_parts-Within a dir) (activate-Within a m),
                ),
              ),
            )
      | inr no_ ↦ rw (e, no_) (inr (inl refl), (inr (inr refl), (inl refl, tt)))
    ]
  ]
    where
      formats : All (Within b target) (format b target)
      formats = (inr (inl refl), (inr (inr refl), tt))

-- The slot that an installation writes.
abbrev pub chosen : Environment → ℕ
chosen a = choose_slot (current_slot a.cmdline) (target_slot (read_manifest a.bbu a.memory).1)

install-Within :
    (b : Board) (a : Environment) (path : Bytes) → All (Within b (chosen a)) (install b a path).1
unfolding install
install-Within b a path = elim (Bool-cases (is_neg (verify a.bbu))) [
  | inl bad ↦ rw bad tt
  | inr good ↦ rw good (elim (Bool-cases (is_neg (read_manifest a.bbu a.memory).0)) [
    | inl bad ↦ rw bad tt
    | inr good' ↦ rw good' (install_to-Within b (chosen a) a path (read_manifest a.bbu a.memory).1)
  ])
]

-- The slots of the boot loader.
abbrev pub IsSlot : ℕ → Type 0
IsSlot c = (c ≡ b'a') ⊎ (c ≡ b'b')

-- Nothing of the slot is formatted or mounted.
pub record Spares (b : Board) (slot : ℕ) (e : Effect) : Type 0 where
  pub boot : partition_of e ≢ some (boot_part b slot)
  pub rootfs : partition_of e ≢ some (rootfs_part b slot)

abbrev Apart : Board → ℕ → ℕ → Type 0
Apart b s t =
    (boot_part b s ≢ boot_part b t)
    × (boot_part b s ≢ rootfs_part b t)
    × (rootfs_part b s ≢ boot_part b t)
    × (rootfs_part b s ≢ rootfs_part b t)

b-Apart-a : (b : Board) → Apart b b'b' b'a'
unfolding device print_int digits
b-Apart-a nxp_evk =
    (byte_ne 13 _ _ refl, byte_ne 13 _ _ refl, byte_ne 13 _ _ refl, byte_ne 13 _ _ refl)
b-Apart-a forlinx =
    (byte_ne 13 _ _ refl, byte_ne 13 _ _ refl, byte_ne 13 _ _ refl, byte_ne 13 _ _ refl)

a-Apart-b : (b : Board) → Apart b b'a' b'b'
unfolding device print_int digits
a-Apart-b nxp_evk =
    (byte_ne 13 _ _ refl, byte_ne 13 _ _ refl, byte_ne 13 _ _ refl, byte_ne 13 _ _ refl)
a-Apart-b forlinx =
    (byte_ne 13 _ _ refl, byte_ne 13 _ _ refl, byte_ne 13 _ _ refl, byte_ne 13 _ _ refl)

other-Apart :
    (b : Board) (current : ℕ) → IsSlot current → Apart b (choose_slot current b'=') current
unfolding choose_slot
other-Apart b current (inl e) = rw e (b-Apart-a b)
other-Apart b current (inr e) = rw e (a-Apart-b b)

Within-Spares :
    (b : Board) (s t : ℕ)
    → Apart b s t
    → (es : List Effect) → All (Within b s) es
    → All (Spares b t) es
Within-Spares b s t apart [] h = tt
Within-Spares b s t apart (e ∷ es) (h, hs) =
    (record { boot = boot_apart h; rootfs = rootfs_apart h }, Within-Spares b s t apart es hs)
  where
    boot_apart : Within b s e → partition_of e ≢ some (boot_part b t)
    boot_apart (inl x) y = cc
    boot_apart (inr (inl x)) y = apart.0 (cc)
    boot_apart (inr (inr x)) y = apart.2 (cc)

    rootfs_apart : Within b s e → partition_of e ≢ some (rootfs_part b t)
    rootfs_apart (inl x) y = cc
    rootfs_apart (inr (inl x)) y = apart.1 (cc)
    rootfs_apart (inr (inr x)) y = apart.3 (cc)

-- A package whose slot is '=': if the system runs from slot a or b, no command of its installation
-- formats or mounts a partition of that slot.
pub install-Spares :
    (b : Board) (a : Environment) (path : Bytes)
    → target_slot (read_manifest a.bbu a.memory).1 ≡ b'='
    → IsSlot (current_slot a.cmdline)
    → All (Spares b (current_slot a.cmdline)) (install b a path).1
install-Spares b a path auto slot =
    Within-Spares b (chosen a) (current_slot a.cmdline)
      (rw auto (other-Apart b (current_slot a.cmdline) slot)) (install b a path).1
      (install-Within b a path)
