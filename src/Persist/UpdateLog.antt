-- ===== src/Persist/UpdateLog.antt =====
-- The update log of libbb/bb_persist.c: what is read of the entries that were added.
use imx8mp_building_blocks.Base.{
  ◌≡◌, ap₂, ◌∙◌, refl, ap, sym, true, Option, none, some, List, [], ◌∷◌, ◌++◌, All, length, take,
  map, append_assoc, append-nil,
}
use imx8mp_building_blocks.Base.Bytes.{Bytes}
use imx8mp_building_blocks.Stdio.Lines.{IsLine, ended, unlines, fgets_all-unlines}
use imx8mp_building_blocks.Persist.Updates.{
  UpdateEntry, update_line, read_update, line_with, update_log_add, update_log_read, read_updates,
}
use imx8mp_building_blocks.Persist.UpdateLine.{
  line_end, IsUpdate, read_line, line_with-append, line_with-IsLine,
}

-- The lines of the entries, without their newlines.
lines : List UpdateEntry → List Bytes
lines es = map (line_with []) es

lines-IsLine : (es : List UpdateEntry) → All IsUpdate es → All (IsLine 512) (lines es)
unfolding lines
lines-IsLine [] h = tt
lines-IsLine (e ∷ es) (he, h) = (line_with-IsLine e he, lines-IsLine es h)

-- The log after a row of entries.
unfoldable pub add_updates : List UpdateEntry → Option Bytes → Option Bytes
unfolding update_log_add
add_updates [] file = file
add_updates (e ∷ es) file = add_updates es (update_log_add true e file).1

add_updates-text :
    (es : List UpdateEntry) (text : Bytes)
    → All IsUpdate es
    → add_updates es (some text) ≡ some (text ++ unlines (lines es))
unfolding add_updates update_log_add update_line unlines lines
add_updates-text [] text h = ap some (sym (append-nil text))
add_updates-text (e ∷ es) text (he, h) =
    add_updates-text es (text ++ line_with line_end e) h
    ∙ ap some (append_assoc text (line_with line_end e) (unlines (lines es)))
    ∙ ap (λ u. some (text ++ (u ++ unlines (lines es)))) (sym (line_with-append e he line_end))

-- What is read of an entry.
abbrev pub without_success : UpdateEntry → UpdateEntry
without_success e = record e { success = 0 }

read_updates-lines :
    (olds es : List UpdateEntry)
    → All IsUpdate es
    → read_updates olds (map ended (lines es)) ≡ take (length olds) (map without_success es)
unfolding read_updates lines
read_updates-lines [] es h = refl
read_updates-lines (old ∷ olds) [] h = refl
read_updates-lines (old ∷ olds) (e ∷ es) (he, h) =
    ap₂ (λ u us. u ∷ us)
      (ap (λ l. read_update l old) (line_with-append e he line_end) ∙ read_line e he old)
      (read_updates-lines olds es h)

log_text :
    (e : UpdateEntry) (es : List UpdateEntry)
    → IsUpdate e
    → line_with line_end e ++ unlines (lines es) ≡ unlines (lines (e ∷ es))
unfolding unlines lines
log_text e es he = ap (λ u. u ++ unlines (lines es)) (sym (line_with-append e he line_end))

-- Entries, however many, that are added to a log that is not there yet are read back in order, the oldest first and up to
-- the number of the caller's entries, with everything but the success, which is always read as 0: nothing cuts the log
-- to the last 32, as the header of the code says. Timestamps are below 2 ^ 63, the versions are
-- shorter than 32 bytes, and the versions and the slot have no quote, newline or NUL.
pub read-add_updates :
    (e : UpdateEntry) (es olds : List UpdateEntry)
    → All IsUpdate (e ∷ es)
    → update_log_read (add_updates (e ∷ es) none) olds
      ≡ take (length olds) (map without_success (e ∷ es))
unfolding update_log_read add_updates update_log_add update_line
read-add_updates e es olds (he, h) =
    ap (λ f. update_log_read f olds) (add_updates-text es (line_with line_end e) h)
    ∙ ap (λ s. update_log_read (some s) olds) (log_text e es he)
    ∙ ap (read_updates olds)
        (fgets_all-unlines 512 (lines (e ∷ es)) (lines-IsLine (e ∷ es) (he, h)))
    ∙ read_updates-lines olds (e ∷ es) (he, h)
