-- ===== src/Bus/Lines.antt =====
-- Splitting a receive buffer into lines: the loops over `strchr(start, '\n')` in services/bb-busd.c
-- and libbb/bb_bus.c. A buffer is followed by a NUL, and `strchr` stops at any NUL before it.
use imx8mp_building_blocks.Base.{
  ℕ, ◌≡◌, refl, List, [], ◌∷◌, ◌++◌, ◌==◌, if◌then◌else◌, arith, All, All-append, ◌≢◌, false,
  Bool-cases, inl, inr, append-nil, append_assoc,
}
use imx8mp_building_blocks.Base.Bytes.{Bytes}

abbrev pub newline : ℕ
newline = 10

-- `feed line s` reads on after the part `line` of a line: the complete lines, and what is left.
-- At a NUL the rest of the buffer is left too.
unfoldable pub feed : Bytes → Bytes → List Bytes × Bytes
feed line [] = ([], line)
feed line (c ∷ s) =
    let stop : List Bytes × Bytes = ([], line ++ c ∷ s) in
    let cut = feed [] s in
    let more = feed (line ++ c ∷ []) s in
    if c == 0 then stop else if c == newline then (line ∷ cut.0, cut.1) else more

-- The loop over a whole buffer.
unfoldable pub split_lines : Bytes → List Bytes × Bytes
unfolding feed
split_lines s = feed [] s

-- No byte of the text is NUL.
abbrev pub Text : Bytes → Type 0
Text = All (λ c. c ≢ 0)

feed-append :
    (line s t : Bytes)
    → Text s
    → feed line (s ++ t)
      ≡ ((feed line s).0 ++ (feed (feed line s).1 t).0, (feed (feed line s).1 t).1)
unfolding feed
feed-append line [] t h = refl
feed-append line (c ∷ s) t h =
    ground (arith, feed-append [] s t h.1, feed-append (line ++ c ∷ []) s t h.1)

-- A part of a line: neither NUL nor a newline in it.
abbrev pub IsPart : Bytes → Type 0
IsPart = All (λ c. (c ≢ 0) × (c ≢ newline))

pub IsPart-Text : (s : Bytes) → IsPart s → Text s
IsPart-Text [] h = tt
IsPart-Text (c ∷ s) (hc, h) = (hc.0, IsPart-Text s h)

-- A part of a line ahead of a buffer is read over.
pub feed_part : (line part s : Bytes) → IsPart part → feed line (part ++ s) ≡ feed (line ++ part) s
unfolding feed
feed_part line [] s h = rw append-nil
feed_part line (c ∷ part) s (hc, h) =
    ground (arith, feed_part (line ++ c ∷ []) part s h, append_assoc line (c ∷ []) part)

-- A line and its newline ahead of a buffer: the line comes first.
pub split_line :
    (line s : Bytes)
    → IsPart line
    → split_lines (line ++ newline ∷ s) ≡ (line ∷ (split_lines s).0, (split_lines s).1)
unfolding split_lines feed
split_line line s h = rw (feed_part [] line (newline ∷ s) h)

feed-rest : (line s : Bytes) → IsPart line → Text s → IsPart (feed line s).1
unfolding feed
feed-rest line [] hl h = hl
feed-rest line (c ∷ s) hl (hc, h) = elim (Bool-cases (c == newline)) [
  | inl cut ↦ rw (no_nul, cut) (feed-rest [] s tt h)
  | inr more ↦
      rw (no_nul, more)
        (feed-rest (line ++ c ∷ []) s (All-append _ line (c ∷ []) hl ((hc, ground arith), tt)) h)
]
  where
    no_nul : (c == 0) ≡ false
    no_nul = ground arith

-- What is left after the complete lines is a part of a line.
pub split_lines-rest : (s : Bytes) → Text s → IsPart (split_lines s).1
unfolding split_lines
split_lines-rest s h = feed-rest [] s tt h

-- The lines do not depend on how the stream is cut: splitting a text, and then what is left of it
-- with more bytes behind, gives the lines of the whole, and leaves what the whole leaves.
pub split_lines-append :
    (s t : Bytes)
    → Text s
    → let (lines, rest) = split_lines s in
      split_lines (s ++ t) ≡ (lines ++ (split_lines (rest ++ t)).0, (split_lines (rest ++ t)).1)
split_lines-append s t h =
    let carry : feed [] ((split_lines s).1 ++ t) ≡ feed (split_lines s).1 t =
      feed_part [] (split_lines s).1 t (split_lines-rest s h) in
    unfold split_lines in ground (arith, feed-append [] s t h, carry)
