-- ===== src/Log.antt =====
-- libbb/bb_log.c: the log of a process. The answers of the system (open, lseek, write, the clock) are
-- arguments; what goes to the file is kept, and what goes to stderr and to the crash dump comes out.
pub mod Rotation
mod Tests
use imx8mp_building_blocks.Base.{
  ℕ, ◌+◌, ◌-◌, ◌*◌, ◌/◌, ◌%◌, ◌^◌, ◌==◌, ltb, leb, Bool, true, false, ◌&&◌, ◌||◌, not, Option, none,
  some, List, [], ◌∷◌, ◌++◌, if◌then◌else◌, length, take, replicate,
}
use imx8mp_building_blocks.Base.Bytes.{Bytes, codes}
use imx8mp_building_blocks.Bus.Lines.{newline}
use imx8mp_building_blocks.Json.Writer.{digits, print_int}

-- A size_t on the 64-bit target.
abbrev pub size_mod : ℕ
size_mod = 2 ^ 64

-- `bb_log_level_t` as the number that it is.
abbrev pub fatal : ℕ
fatal = 0

-- `dest_mask`, by its bits; the journal has no code of its own.
pub record Destinations : Type 0 where
  pub to_journal : Bool
  pub to_file : Bool
  pub to_stderr : Bool
  pub to_crash : Bool

-- `g_log`, with the contents of the log file; `opened` tells whether `log_fd` is not negative.
pub record Log : Type 0 where
  pub ident : Bytes
  pub dest : Destinations
  pub opened : Bool
  pub max_size : ℕ
  pub current_size : ℕ
  pub level : ℕ
  pub crash_count : ℕ
  pub file : Bytes

-- bb_log_init, given the old contents of the file if it can be opened.
unfoldable pub log_init : Option Bytes → Bytes → Destinations → ℕ → Log → Log
log_init answer ident dest max_size g =
    let named : Log = record g {
      ident = take 63 ident;
      dest = dest;
      max_size = if ltb 0 max_size then max_size else g.max_size;
    } in
    if dest.to_file
    then elim answer [
      | none ↦ record named { opened = false; dest = record dest { to_file = false } }
      | some old ↦ record named { opened = true; current_size = length old % size_mod; file = old }
    ]
    else named

unfoldable pub set_level : ℕ → Log → Log
set_level level g = record g { level = level }

abbrev pub level_str : ℕ → Bytes
level_str n =
    if n == 0
    then codes "FATAL"
    else if n == 1
    then codes "ERROR"
    else if n == 2
    then codes "WARN"
    else if n == 3
    then codes "INFO"
    else if n == 4
    then codes "DEBUG"
    else codes "TRACE"

-- The line, before snprintf cuts it: the time with its milliseconds, and the message, which
-- vsnprintf has cut to its buffer.
abbrev pub line_of : Log → ℕ → Bytes → Bytes → ℕ → Bytes → Bytes
line_of g level stamp file line msg =
    stamp
    ++ codes " ["
    ++ level_str level
    ++ codes "] "
    ++ g.ident
    ++ codes " "
    ++ file
    ++ codes ":"
    ++ print_int line
    ++ codes " "
    ++ take 4095 msg
    ++ newline ∷ []

-- sizeof(linebuf)
abbrev pub line_size : ℕ
line_size = 4608

-- ftruncate: a file that is shorter gets bytes of 0.
abbrev pub resize : ℕ → Bytes → Bytes
resize n file = take n file ++ replicate (n - length file) 0

-- `len` bytes are written to the file, of which the system stores `stored`. The status of ftruncate, whether it has
-- shortened the file, is not tested.
unfoldable pub to_file : ℕ → Bool → Bytes → Log → Log
to_file stored shortens line g =
    let grown : ℕ = (g.current_size + length line) % size_mod in
    let file : Bytes = g.file ++ take stored line in
    if ltb g.max_size grown
    then record g {
      file = if shortens then resize (g.max_size / 2) file else file;
      current_size = g.max_size / 2;
    }
    else record g { file = file; current_size = grown }

-- What bb_log_write puts out besides the file, and whether it reads behind its line buffer, which it
-- does when snprintf has cut the line.
pub record Written : Type 0 where
  pub log : Log
  pub stderr : List Bytes
  pub crash : Option Bytes
  pub overread : Bool

abbrev pub nothing : Log → Written
nothing g = record { log = g; stderr = []; crash = none; overread = false }

unfoldable pub log_write : ℕ → Bool → ℕ → Bytes → Bytes → ℕ → Bytes → Log → Written
unfolding to_file print_int
log_write stored shortens level stamp file line msg g =
    let text = line_of g level stamp file line msg in
    if ltb g.level level
    then nothing g
    else if not (g.dest.to_file || g.dest.to_stderr || g.dest.to_journal)
    then nothing g
    else record {
      log = if g.dest.to_file && g.opened then to_file stored shortens text g else g;
      stderr = if g.dest.to_stderr then text ∷ [] else [];
      crash = if level == fatal then some (take 4095 msg) else none;
      overread = leb line_size (length text);
    }

-- bb_log_crash: the text of the dump ahead of the backtrace; `sec` and `nsec` are the time.
unfoldable pub crash_dump : Bytes → Bytes → ℕ → ℕ → Bytes
unfolding digits
crash_dump ident reason sec nsec =
    codes "Block: "
    ++ ident
    ++ newline ∷ codes "Time: "
    ++ digits 20 sec
    ++ codes "."
    ++ pad (digits 10 nsec)
    ++ newline ∷ codes "Reason: "
    ++ reason
    ++ newline ∷ []
  where
    pad : Bytes → Bytes
    pad s = replicate (9 - length s) b'0' ++ s

-- The name of the level in bb_log_diagnostics.
abbrev pub level_name : ℕ → Bytes
level_name n =
    if n == 4
    then codes "debug"
    else if n == 3
    then codes "info"
    else if n == 2
    then codes "warn"
    else if n == 1
    then codes "error"
    else codes "fatal"

unfoldable pub diagnostics : Log → Bytes
unfolding digits print_int
diagnostics g = take 511 (
    codes "{\"log_level\":\""
    ++ level_name g.level
    ++ codes "\",\"log_size\":"
    ++ digits 20 g.current_size
    ++ codes ",\"crash_count\":"
    ++ print_int g.crash_count
    ++ codes "}")

unfoldable pub log_close : Log → Log
log_close g = record g { opened = false }
