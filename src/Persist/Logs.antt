-- ===== src/Persist/Logs.antt =====
-- The partition, the machine id and the boot log of libbb/bb_persist.c.
use imx8mp_building_blocks.Base.{
  ℕ, zero, suc, ◌^◌, ◌==◌, Bool, true, false, Option, none, some, List, [], ◌∷◌, ◌++◌,
  if◌then◌else◌,
}
use imx8mp_building_blocks.Base.Bytes.{Bytes, codes}
use imx8mp_building_blocks.Base.Words.{minus_one, int_mod, int_sub}
use imx8mp_building_blocks.Bus.Lines.{newline}
use imx8mp_building_blocks.Json.Writer.{digits, print_int}
use imx8mp_building_blocks.Stdio.{fgets_all, fgets_first, has_word}
use imx8mp_building_blocks.Stdio.Scan.{scan_number, scan_char}

-- The search for a mount of `target` in /proc/mounts.
unfoldable pub is_mounted : Bytes → List Bytes → Bool
unfolding has_word
is_mounted target [] = false
is_mounted target (line ∷ lines) =
    let rest = is_mounted target lines in if has_word target line then true else rest

-- ensure_mounted on Linux, with errno if mount fails.
unfoldable pub ensure_mounted : Bytes → Option Bytes → Option ℕ → ℕ
unfolding is_mounted fgets_all
ensure_mounted target mounts errno =
    let failed : ℕ = elim errno [ none ↦ 0 | some e ↦ int_sub 0 e ] in
    elim mounts [
      | none ↦ failed
      | some text ↦ if is_mounted target (fgets_all 512 text) then 0 else failed
    ]

unfoldable pub persist_init : Option Bytes → Option ℕ → ℕ
unfolding ensure_mounted
persist_init mounts errno = ensure_mounted (codes "/persist") mounts errno

-- The bytes ahead of the first newline.
unfoldable pub first_line : Bytes → Bytes
first_line [] = []
first_line (c ∷ s) = let rest = first_line s in if c == newline then [] else c ∷ rest

unfoldable pub machine_id : Option Bytes → Bytes
unfolding fgets_first first_line
machine_id none = codes "unknown"
machine_id (some file) = elim (fgets_first 64 file) [
  | none ↦ codes "unknown"
  | some id ↦ first_line id
]

-- `bb_boot_entry_t`
pub record BootEntry : Type 0 where
  pub timestamp : ℕ
  pub slot : ℕ
  pub success : ℕ
  pub boot_time_ms : ℕ

-- "%llu %c %d %u", ahead of the newline.
unfoldable pub boot_line : BootEntry → Bytes
unfolding digits print_int
boot_line e =
    digits 20 e.timestamp
    ++ (b' ' ∷ e.slot ∷ b' ' ∷ print_int e.success ++ (b' ' ∷ digits 10 e.boot_time_ms))

-- A file that is opened to append.
abbrev pub old_text : Option Bytes → Bytes
old_text none = []
old_text (some text) = text

unfoldable pub boot_log_add : Bool → BootEntry → Option Bytes → ℕ × Option Bytes
boot_log_add false e file = (minus_one, file)
boot_log_add true e file = (0, some (old_text file ++ (boot_line e ++ newline ∷ [])))

-- sscanf(line, "%llu %c %d %u", …) == 4
unfoldable pub scan_boot : Bytes → Option BootEntry
scan_boot line = elim (scan_number (2 ^ 64) line) [
  | none ↦ none
  | some (ts, behind_ts) ↦ elim (scan_char behind_ts) [
    | none ↦ none
    | some (slot, behind_slot) ↦ elim (scan_number int_mod behind_slot) [
      | none ↦ none
      | some (success, behind_success) ↦ elim (scan_number int_mod behind_success) [
        | none ↦ none
        | some (ms, rest) ↦
            some (record { timestamp = ts; slot = slot; success = success; boot_time_ms = ms })
      ]
    ]
  ]
]

-- The loop, with room for `room` entries more.
unfoldable pub read_boot : ℕ → List Bytes → List BootEntry
read_boot zero lines = []
read_boot (suc room) [] = []
read_boot (suc room) (line ∷ lines) = elim (scan_boot line) [
  | none ↦ read_boot (suc room) lines
  | some e ↦ e ∷ read_boot room lines
]

-- bb_persist_boot_log_read: the entries, whose number it returns.
unfoldable pub boot_log_read : Option Bytes → ℕ → List BootEntry
unfolding read_boot
boot_log_read none max_entries = []
boot_log_read (some file) max_entries = read_boot max_entries (fgets_all 256 file)
