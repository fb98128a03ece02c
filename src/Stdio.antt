-- ===== src/Stdio.antt =====
-- What libbb and the tools use of <stdio.h> and <string.h>: fgets over a file that is its bytes, snprintf,
-- strstr, and the text of a file that is there.
pub mod Lines
pub mod Scan
pub mod Keys
use imx8mp_building_blocks.Base.{
  ℕ, zero, suc, ◌-◌, ◌==◌, Bool, true, false, Option, none, some, List, [], ◌∷◌, ◌++◌,
  if◌then◌else◌, take,
}
use imx8mp_building_blocks.Base.Bytes.{Bytes}
use imx8mp_building_blocks.Bus.Lines.{newline}
use imx8mp_building_blocks.Json.Reader.{after_word}

-- What fgets gives one after the other from a buffer of `cap + 2` bytes: a line with its newline, or a
-- part of one that fills the buffer. `chunk` is what it has read, with room for `room` bytes more behind
-- the next one.
unfoldable pub fgets_from : ℕ → ℕ → Bytes → Bytes → List Bytes
fgets_from cap room [] [] = []
fgets_from cap room (b ∷ chunk) [] = (b ∷ chunk) ∷ []
fgets_from cap zero chunk (c ∷ s) = (chunk ++ c ∷ []) ∷ fgets_from cap cap [] s
fgets_from cap (suc room) chunk (c ∷ s) =
    let cut = fgets_from cap cap [] s in
    let on = fgets_from cap room (chunk ++ c ∷ []) s in
    if c == newline then (chunk ++ c ∷ []) ∷ cut else on

-- A loop over fgets with a buffer of `size` bytes.
unfoldable pub fgets_all : ℕ → Bytes → List Bytes
unfolding fgets_from
fgets_all size s = fgets_from (size - 2) (size - 2) [] s

-- One fgets on a file that has just been opened.
unfoldable pub fgets_first : ℕ → Bytes → Option Bytes
unfolding fgets_all
fgets_first size s = elim (fgets_all size s) [ [] ↦ none | line ∷ lines ↦ some line ]

-- What snprintf leaves in a buffer of `size` bytes.
abbrev pub snprintf : ℕ → Bytes → Bytes
snprintf size text = take (size - 1) text

-- strstr(text, word) != NULL
unfoldable pub has_word : Bytes → Bytes → Bool
unfolding after_word
has_word word text = elim (after_word word text) [ none ↦ false | some p ↦ true ]
