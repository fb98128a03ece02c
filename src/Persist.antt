-- ===== src/Persist.antt =====
-- libbb/bb_persist.c: the persist partition. A file is its bytes, or absent. Here are the configuration files.
pub mod Config
pub mod Logs
pub mod BootLog
pub mod Updates
pub mod UpdateLine
pub mod UpdateLog
pub mod Mfg
mod Tests
use imx8mp_building_blocks.Base.{
  ℕ, zero, suc, ◌+◌, ◌-◌, ◌==◌, Bool, true, false, ◌&&◌, ◌||◌, not, Option, none, some, List, [],
  ◌∷◌, ◌++◌, if◌then◌else◌, length, take, drop, get_or,
}
use imx8mp_building_blocks.Base.Bytes.{Bytes, starts_with}
use imx8mp_building_blocks.Base.Words.{minus_one}
use imx8mp_building_blocks.Bus.Lines.{newline}
use imx8mp_building_blocks.Json.Writer.{c_string}
use imx8mp_building_blocks.Stdio.{fgets_all}

-- strncmp(line, key, klen) == 0 && line[klen] == '='
unfoldable pub matches : Bytes → Bytes → Bool
matches key line = starts_with key line && get_or line (length key) 0 == b'='

-- The value without the line end: all the final '\n' and '\r'.
unfoldable pub strip_end : Bytes → Bytes
strip_end [] = []
strip_end (c ∷ s) = elim (strip_end s) [
  | [] ↦ if c == newline || c == 13 then [] else c ∷ []
  | d ∷ t ↦ c ∷ d ∷ t
]

-- The loop of bb_persist_config_get.
unfoldable pub find_value : Bytes → List Bytes → Option Bytes
unfolding matches strip_end
find_value key [] = none
find_value key (line ∷ lines) =
    let rest = find_value key lines in
    if matches key line then some (strip_end (drop (length key + 1) line)) else rest

unfoldable pub config_get : Option Bytes → Bytes → Option Bytes
unfolding fgets_all find_value
config_get none key = none
config_get (some file) key = find_value key (fgets_all 512 file)

-- "%s=%s\n"
abbrev pub entry : Bytes → Bytes → Bytes
entry key value = key ++ b'=' ∷ value ++ newline ∷ []

-- The loop of bb_persist_config_set: what it writes, and whether a line was replaced. fputs writes a line up to its
-- first NUL.
unfoldable pub replace : Bytes → Bytes → List Bytes → Bytes × Bool
unfolding matches c_string
replace key value [] = ([], false)
replace key value (line ∷ lines) =
    let (out, replaced) = replace key value lines in
    if matches key line then (entry key value ++ out, true) else (c_string line ++ out, replaced)

-- bb_persist_config_set, if the new file can be opened: the file that takes the place of the old.
unfoldable pub config_set : Bool → Option Bytes → Bytes → Bytes → ℕ × Option Bytes
unfolding fgets_all replace
config_set false file key value = (minus_one, file)
config_set true file key value =
    let lines : List Bytes = elim file [ none ↦ [] | some text ↦ fgets_all 512 text ] in
    let (out, replaced) = replace key value lines in
    (0, some (if replaced then out else out ++ entry key value))
