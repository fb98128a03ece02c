-- ===== src/Persist/BootLog.antt =====
-- The boot log of libbb/bb_persist.c: what is added is read back, the oldest entries first.
use imx8mp_building_blocks.Base.{
  ℕ, zero, suc, ◌-◌, ◌^◌, ◌<◌, ◌≤◌, ◌≡◌, ◌≢◌, ◌==◌, ◌∙◌, refl, ap, sym, true, false, Option, none,
  some, List, [], ◌∷◌, ◌++◌, arith, All, All-append, length, length-append, take, map, append_assoc,
  append-nil, inl, inr, Bool-cases,
}
use imx8mp_building_blocks.Base.Bytes.{Bytes}
use imx8mp_building_blocks.Base.Words.{int_mod, is_neg}
use imx8mp_building_blocks.Bus.Lines.{newline}
use imx8mp_building_blocks.Bus.Words.{is_space}
use imx8mp_building_blocks.Json.Writer.{digits, print_int}
use imx8mp_building_blocks.Stdio.{fgets_all}
use imx8mp_building_blocks.Stdio.Lines.{IsLine, ended, unlines, fgets_all-unlines}
use imx8mp_building_blocks.Stdio.Scan.{
  scan_char, IsDigits, digits-IsDigits, length-digits, scan_number-digits, scan_number-print_int,
  scan_number-blank,
}
use imx8mp_building_blocks.Persist.Logs.{
  BootEntry, boot_line, boot_log_add, scan_boot, read_boot, boot_log_read,
}

-- The values of an entry fit their types, and the slot is neither white space nor NUL.
pub record IsEntry (e : BootEntry) : Type 0 where
  pub timestamp : e.timestamp < 2 ^ 63
  pub slot : is_space e.slot ≡ false
  pub slot_some : e.slot ≢ 0
  pub success : e.success < int_mod
  pub boot_time_ms : e.boot_time_ms < int_mod

abbrev pub NoNewline : Bytes → Type 0
NoNewline = All (λ c. c ≢ newline)

digits-NoNewline : (w : Bytes) → IsDigits w → NoNewline w
digits-NoNewline [] h = tt
digits-NoNewline (c ∷ w) (hc, h) = (ground arith, digits-NoNewline w h)

pub print_int-NoNewline : (n : ℕ) → NoNewline (print_int n)
unfolding print_int
print_int-NoNewline n = elim (Bool-cases (is_neg n)) [
  | inl negative ↦
      rw negative
        (omega arith, digits-NoNewline (digits 10 (int_mod - n)) (digits-IsDigits 10 (int_mod - n)))
  | inr positive ↦ rw positive (digits-NoNewline (digits 10 n) (digits-IsDigits 10 n))
]

pub length-print_int : (n : ℕ) → length (print_int n) ≤ 11
unfolding print_int
length-print_int n = elim (Bool-cases (is_neg n)) [
  | inl negative ↦ rw negative (omega (arith, length-digits 10 (int_mod - n)))
  | inr positive ↦ rw positive (omega (arith, length-digits 10 n))
]

module _ (e : BootEntry) (h : IsEntry e) where
  boot_line-IsLine : IsLine 256 (boot_line e)
  unfolding boot_line
  boot_line-IsLine = record {
    whole =
        All-append _ (digits 20 e.timestamp) _
          (digits-NoNewline (digits 20 e.timestamp) (digits-IsDigits 20 e.timestamp))
          (
            omega arith,
            (
              ground (arith, h.slot),
              (
                omega arith,
                All-append _ (print_int e.success) _ (print_int-NoNewline e.success) (
                  omega arith,
                  digits-NoNewline (digits 10 e.boot_time_ms) (digits-IsDigits 10 e.boot_time_ms),
                ),
              ),
            ),
          );
    short = omega (
      arith,
      length-append (digits 20 e.timestamp)
          (b' ' ∷ e.slot ∷ b' ' ∷ print_int e.success ++ (b' ' ∷ digits 10 e.boot_time_ms)),
      length-append (print_int e.success) (b' ' ∷ digits 10 e.boot_time_ms),
      length-digits 20 e.timestamp,
      length-digits 10 e.boot_time_ms,
      length-print_int e.success,
    );
  }

  abbrev behind_success : Bytes
  behind_success = b' ' ∷ digits 10 e.boot_time_ms ++ newline ∷ []

  abbrev behind_slot : Bytes
  behind_slot = b' ' ∷ print_int e.success ++ behind_success

  whole_line : ended (boot_line e) ≡ digits 20 e.timestamp ++ (b' ' ∷ e.slot ∷ behind_slot)
  unfolding boot_line
  whole_line =
      append_assoc (digits 20 e.timestamp) _ (newline ∷ [])
      ∙ ap (λ u. digits 20 e.timestamp ++ (b' ' ∷ e.slot ∷ b' ' ∷ u))
          (append_assoc (print_int e.success) (b' ' ∷ digits 10 e.boot_time_ms) (newline ∷ []))

  slot_scanned : scan_char (b' ' ∷ e.slot ∷ behind_slot) ≡ some (e.slot, behind_slot)
  unfolding scan_char
  slot_scanned =
      let some_slot : (e.slot == 0) ≡ false = let s = h.slot_some in ground arith in
      rw (h.slot, some_slot, scan_char) refl

  -- What sscanf makes of the line.
  scan_boot-line : scan_boot (ended (boot_line e)) ≡ some e
  unfolding scan_boot
  scan_boot-line =
      ap scan_boot whole_line
      ∙ rw
          (
            scan_number-digits 19 e.timestamp b' ' (e.slot ∷ behind_slot)
                (omega (arith, h.timestamp)) refl (2 ^ 64) (omega (arith, h.timestamp)),
            slot_scanned,
            scan_number-blank int_mod (print_int e.success ++ behind_success),
            scan_number-print_int e.success b' ' (digits 10 e.boot_time_ms ++ newline ∷ [])
                h.success refl,
            scan_number-blank int_mod (digits 10 e.boot_time_ms ++ newline ∷ []),
            scan_number-digits 9 e.boot_time_ms newline [] (omega (arith, h.boot_time_ms)) refl
                int_mod h.boot_time_ms,
            scan_boot,
          )
          refl

read_boot-lines :
    (n : ℕ) (es : List BootEntry)
    → All IsEntry es
    → read_boot n (map ended (map boot_line es)) ≡ take n es
unfolding read_boot
read_boot-lines zero es h = refl
read_boot-lines (suc n) [] h = refl
read_boot-lines (suc n) (e ∷ es) (he, h) =
    rw (scan_boot-line e he, read_boot) (ap (λ u. e ∷ u) (read_boot-lines n es h))

-- The log after a row of entries, from no file on.
unfoldable pub add_entries : List BootEntry → Option Bytes → Option Bytes
add_entries [] file = file
add_entries (e ∷ es) file = add_entries es (boot_log_add true e file).1

add_entries-text :
    (es : List BootEntry) (text : Bytes)
    → add_entries es (some text) ≡ some (text ++ unlines (map boot_line es))
unfolding add_entries boot_log_add unlines
add_entries-text [] text = ap some (sym (append-nil text))
add_entries-text (e ∷ es) text =
    add_entries-text es (text ++ ended (boot_line e))
    ∙ ap some (append_assoc text (ended (boot_line e)) (unlines (map boot_line es)))

lines-IsLine : (es : List BootEntry) → All IsEntry es → All (IsLine 256) (map boot_line es)
lines-IsLine [] h = tt
lines-IsLine (e ∷ es) (he, h) = (boot_line-IsLine e he, lines-IsLine es h)

-- Entries that are added one by one to a log that is not there yet are read back, in the order in which
-- they were added, up to the number that is asked for. Their values fit the types of the entry,
-- timestamps are below 2 ^ 63, and slots are neither white
-- space nor NUL.
pub read-add_entries :
    (e : BootEntry) (es : List BootEntry) (n : ℕ)
    → All IsEntry (e ∷ es)
    → boot_log_read (add_entries (e ∷ es) none) n ≡ take n (e ∷ es)
unfolding boot_log_read add_entries boot_log_add fgets_all unlines
read-add_entries e es n h =
    ap (λ f. boot_log_read f n) (add_entries-text es (ended (boot_line e)))
    ∙ ap (read_boot n) (fgets_all-unlines 256 (map boot_line (e ∷ es)) (lines-IsLine (e ∷ es) h))
    ∙ read_boot-lines n (e ∷ es) h
