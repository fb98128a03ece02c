-- ===== src/Persist/Updates.antt =====
-- The update log of libbb/bb_persist.c: one line of JSON for each entry.
use imx8mp_building_blocks.Base.{
  ℕ, ◌^◌, ◌==◌, ltb, Bool, true, false, Option, none, some, List, [], ◌∷◌, ◌++◌, if◌then◌else◌,
  length, get_or,
}
use imx8mp_building_blocks.Base.Bytes.{Bytes, codes}
use imx8mp_building_blocks.Base.Words.{minus_one}
use imx8mp_building_blocks.Bus.Lines.{newline}
use imx8mp_building_blocks.Json.Writer.{digits, print_int}
use imx8mp_building_blocks.Json.Reader.{after_word}
use imx8mp_building_blocks.Stdio.{fgets_all}
use imx8mp_building_blocks.Stdio.Scan.{scan_number}
use imx8mp_building_blocks.Persist.Logs.{old_text}

-- `bb_update_entry_t`, with its two strings up to the NUL.
pub record UpdateEntry : Type 0 where
  pub timestamp : ℕ
  pub from_version : Bytes
  pub to_version : Bytes
  pub target_slot : ℕ
  pub success : ℕ

-- The line behind each of its values, with what ends it.
abbrev pub behind_slot : Bytes → UpdateEntry → Bytes
behind_slot end e = codes "\",\"ok\":" ++ (print_int e.success ++ b'}' ∷ end)

abbrev pub behind_to : Bytes → UpdateEntry → Bytes
behind_to end e = codes "\",\"slot\":\"" ++ (e.target_slot ∷ behind_slot end e)

abbrev pub behind_from : Bytes → UpdateEntry → Bytes
behind_from end e = codes "\",\"to\":\"" ++ (e.to_version ++ behind_to end e)

abbrev pub behind_ts : Bytes → UpdateEntry → Bytes
behind_ts end e = codes ",\"from\":\"" ++ (e.from_version ++ behind_from end e)

abbrev pub line_with : Bytes → UpdateEntry → Bytes
line_with end e = codes "{\"ts\":" ++ (digits 20 e.timestamp ++ behind_ts end e)

-- What fprintf writes.
unfoldable pub update_line : UpdateEntry → Bytes
update_line e = line_with (newline ∷ []) e

-- bb_persist_update_log_add, with whether the file can be opened.
unfoldable pub update_log_add : Bool → UpdateEntry → Option Bytes → ℕ × Option Bytes
unfolding update_line
update_log_add false e file = (minus_one, file)
update_log_add true e file = (0, some (old_text file ++ update_line e))

-- The bytes up to a quote, or none if there is no quote.
unfoldable pub up_to_quote : Bytes → Option Bytes
up_to_quote [] = none
up_to_quote (c ∷ s) =
    let rest = up_to_quote s in
    if c == b'"' then some [] else elim rest [ none ↦ none | some v ↦ some (c ∷ v) ]

-- A string behind its key, or the old one if it is not there or does not fit.
unfoldable pub version_behind : Bytes → Bytes → Bytes → Bytes
unfolding after_word up_to_quote
version_behind key line old = elim (after_word key line) [
  | none ↦ old
  | some p ↦ elim (up_to_quote p) [ none ↦ old | some v ↦ if ltb (length v) 32 then v else old ]
]

-- strtoull behind the key; it gives 0 where there is no number.
unfoldable pub timestamp_in : Bytes → ℕ → ℕ
unfolding after_word scan_number
timestamp_in line old = elim (after_word (codes "\"ts\":") line) [
  | none ↦ old
  | some p ↦ elim (scan_number (2 ^ 64) p) [ none ↦ 0 | some (n, rest) ↦ n ]
]

unfoldable pub slot_in : Bytes → ℕ → ℕ
unfolding after_word
slot_in line old = elim (after_word (codes "\"slot\":\"") line) [
  | none ↦ old
  | some p ↦ get_or p 0 0
]

-- Success is the letter t.
unfoldable pub success_in : Bytes → ℕ → ℕ
unfolding after_word
success_in line old = elim (after_word (codes "\"ok\":") line) [
  | none ↦ old
  | some p ↦ if get_or p 0 0 == b't' then 1 else 0
]

-- What a line makes of an entry of the caller.
unfoldable pub read_update : Bytes → UpdateEntry → UpdateEntry
unfolding timestamp_in version_behind slot_in success_in
read_update line old = record {
  timestamp = timestamp_in line old.timestamp;
  from_version = version_behind (codes "\"from\":\"") line old.from_version;
  to_version = version_behind (codes "\"to\":\"") line old.to_version;
  target_slot = slot_in line old.target_slot;
  success = success_in line old.success;
}

-- The loop over the lines, and over the caller's entries, max_entries in number.
unfoldable pub read_updates : List UpdateEntry → List Bytes → List UpdateEntry
unfolding read_update
read_updates [] lines = []
read_updates (old ∷ olds) [] = []
read_updates (old ∷ olds) (line ∷ lines) = read_update line old ∷ read_updates olds lines

-- bb_persist_update_log_read: the entries that it fills, whose number it returns.
unfoldable pub update_log_read : Option Bytes → List UpdateEntry → List UpdateEntry
unfolding read_updates fgets_all
update_log_read none olds = []
update_log_read (some file) olds = read_updates olds (fgets_all 512 file)
