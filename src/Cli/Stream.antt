-- ===== src/Cli/Stream.antt =====
-- What `bb-cli sub` prints does not depend on how the stream is cut.
use imx8mp_building_blocks.Base.{
  ◌+◌, ◌-◌, ◌<◌, ◌≤◌, ◌≡◌, ◌∙◌, refl, ap, sym, false, List, [], ◌∷◌, ◌++◌, ◌==◌, arith, All-append,
  length, take_all, map, append_assoc,
}
use imx8mp_building_blocks.Base.Bytes.{Bytes}
use imx8mp_building_blocks.Bus.Lines.{
  IsPart-Text, split_lines, split_lines-append, Text, IsPart, feed, feed_part, split_lines-rest,
}
use imx8mp_building_blocks.Cli.{show, listen}
use mathlib.Core.List.{map-append}

-- All the texts, one behind the other.
abbrev pub whole : List Bytes → Bytes
whole [] = []
whole (text ∷ texts) = text ++ whole texts

-- Each text is not empty and fits the room that is left in the buffer of 8191 bytes, and none holds a NUL.
abbrev pub Arrive : Bytes → List Bytes → Type 0
Arrive left [] = Unit
Arrive left (text ∷ texts) =
    (length left + length text ≤ 8191)
    × (0 < length text)
    × Text text
    × Arrive (split_lines (left ++ text)).1 texts

-- A part of a line holds no complete line.
split_lines-part : (left : Bytes) → IsPart left → split_lines (left ++ []) ≡ ([], left)
unfolding split_lines feed
split_lines-part left h = feed_part [] left [] h

listen-step :
    (left text : Bytes) (texts : List Bytes)
    → length left + length text ≤ 8191
    → 0 < length text
    → listen left (text ∷ texts)
      ≡ map show (split_lines (left ++ text)).0 ++ listen (split_lines (left ++ text)).1 texts
unfolding listen
listen-step left text texts fits filled =
    let some_ : (length text == 0) ≡ false = ground arith in
    rw (take_all (8191 - length left) text (omega arith), some_) refl

-- `bb-cli sub`, from an empty buffer or a part of a line on: as long as each text that recv gives is not
-- empty, fits the room left in the buffer and holds no NUL, it prints the complete lines of the whole
-- stream, wherever the texts are cut.
pub listen-whole :
    (left : Bytes) (texts : List Bytes)
    → IsPart left
    → Arrive left texts
    → listen left texts ≡ map show (split_lines (left ++ whole texts)).0
unfolding listen
listen-whole left [] h arrive = ap (λ r. map show r.0) (sym (split_lines-part left h))
listen-whole left (text ∷ texts) h (fits, filled, clean, arrive) =
    let both : Text (left ++ text) = All-append _ left text (IsPart-Text left h) clean in
    let lines = (split_lines (left ++ text)).0 in
    let rest = (split_lines (left ++ text)).1 in
    listen-step left text texts fits filled
    ∙ ap (λ u. map show lines ++ u)
        (listen-whole rest texts (split_lines-rest (left ++ text) both) arrive)
    ∙ sym (map-append show lines (split_lines (rest ++ whole texts)).0)
    ∙ ap (λ r. map show r.0) (sym (split_lines-append (left ++ text) (whole texts) both))
    ∙ ap (λ s. map show (split_lines s).0) (append_assoc left text (whole texts))
