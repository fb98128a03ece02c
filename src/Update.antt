-- ===== src/Update.antt =====
-- tools/bb-update/bb_update.c: packages, the slot in use, and what an installation asks of the shell.
pub mod Shell
pub mod Install
pub mod Slots
pub mod Activation
pub mod Package
pub mod Options
mod Tests
use imx8mp_building_blocks.Base.{
  ℕ, ◌+◌, ◌*◌, ◌==◌, leb, Bool, true, false, ◌&&◌, ◌||◌, Option, none, some, List, [], ◌∷◌, ◌++◌,
  if◌then◌else◌, length, take, drop, get_or,
}
use imx8mp_building_blocks.Base.Bytes.{Bytes, codes, starts_with}
use imx8mp_building_blocks.Base.Words.{minus_one}
use imx8mp_building_blocks.Bus.Lines.{newline}
use imx8mp_building_blocks.Json.Writer.{c_string}
use imx8mp_building_blocks.Json.Reader.{after_word}
use imx8mp_building_blocks.Stdio.{fgets_all, fgets_first, snprintf}

-- `bb_update_manifest_t` is its memory, of 344 bytes. The fields are read at their offsets; a string is
-- read up to the next NUL.
abbrev pub Manifest : Type 0
Manifest = Bytes

abbrev pub manifest_size : ℕ
manifest_size = 344

unfoldable pub from_version : Manifest → Bytes
unfolding c_string
from_version m = c_string m

unfoldable pub to_version : Manifest → Bytes
unfolding c_string
to_version m = c_string (drop 32 m)

unfoldable pub target_slot : Manifest → ℕ
target_slot m = get_or m 64 0

-- A `uint32_t` in memory.
abbrev pub le32 : Bytes → ℕ
le32 s = get_or s 0 0 + 256 * (get_or s 1 0 + 256 * (get_or s 2 0 + 256 * get_or s 3 0))

abbrev pub magic : ℕ
magic = 0x42554842

-- fread(&magic, 4, 1, f) == 1 && magic == BB_UPDATE_MAGIC
unfoldable pub has_magic : Bytes → Bool
has_magic s = leb 4 (length s) && le32 s == magic

-- fread(out, sizeof(*out), 1, f): what the file still holds over what the memory held.
unfoldable pub fread : ℕ → Bytes → Bytes → Bytes
fread size s old = let got = take size s in got ++ drop (length got) old

-- bb_update_verify: a file that cannot be opened is `none`.
unfoldable pub verify : Option Bytes → ℕ
unfolding has_magic
verify none = minus_one
verify (some s) = if has_magic s then 0 else minus_one

unfoldable pub read_manifest : Option Bytes → Manifest → ℕ × Manifest
unfolding has_magic fread
read_manifest none old = (minus_one, old)
read_manifest (some s) old =
    if has_magic s then (0, fread manifest_size (drop 8 s) old) else (minus_one, old)

-- bb_update_current_slot: `none` if /proc/cmdline cannot be opened.
unfoldable pub current_slot : Option Bytes → ℕ
unfolding fgets_first after_word
current_slot none = b'a'
current_slot (some cmdline) = elim (fgets_first 512 cmdline) [
  | none ↦ b'a'
  | some line ↦ elim (after_word (codes "boot_slot=") line) [ none ↦ b'a' | some p ↦ get_or p 0 0 ]
]

-- The value without the final '\n' and '"'.
unfoldable pub strip_quotes : Bytes → Bytes
strip_quotes [] = []
strip_quotes (c ∷ s) = elim (strip_quotes s) [
  | [] ↦ if c == newline || c == b'"' then [] else c ∷ []
  | d ∷ t ↦ c ∷ d ∷ t
]

-- The loop of bb_update_current_version: what it leaves in the buffer.
unfoldable pub find_version : ℕ → List Bytes → Bytes
unfolding strip_quotes
find_version len [] = []
find_version len (line ∷ lines) =
    let rest = find_version len lines in
    if starts_with (codes "BUILDING_BLOCKS_VERSION=") line
    then snprintf len (strip_quotes (drop 24 line))
    else rest

-- The loop and the test behind it.
unfoldable pub current_version : ℕ → Option Bytes → Bytes
unfolding fgets_all find_version
current_version len none = snprintf len (codes "unknown")
current_version len (some text) = elim (find_version len (fgets_all 256 text)) [
  | [] ↦ snprintf len (codes "unknown")
  | c ∷ v ↦ c ∷ v
]
