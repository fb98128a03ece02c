-- ===== src/Persist/UpdateLine.antt =====
-- A line of the update log of libbb/bb_persist.c: what is read of the values that it was made from.
use imx8mp_building_blocks.Base.{
  ℕ, ◌^◌, ◌==◌, ◌<◌, ◌≡◌, ◌∙◌, refl, ap, Bool, not, ◌&&◌, true, false, some, [], ◌∷◌, ◌++◌, arith,
  All, All-append, length, length-append, append_assoc, inl, inr, Bool-cases, get_or, ltb,
}
use imx8mp_building_blocks.Base.Bytes.{Bytes, codes}
use imx8mp_building_blocks.Base.Words.{int_mod, is_neg}
use imx8mp_building_blocks.Bus.Lines.{newline}
use imx8mp_building_blocks.Json.Writer.{digits, print_int}
use imx8mp_building_blocks.Json.Reader.{after_word}
use imx8mp_building_blocks.Stdio.Scan.{
  IsDigits, digits-IsDigits, digits-cons, scan_number-digits, length-digits,
}
use imx8mp_building_blocks.Stdio.Keys.{IsPlain, after_word-plain, after_word-value}
use imx8mp_building_blocks.Stdio.Lines.{IsLine}
use imx8mp_building_blocks.Persist.BootLog.{NoNewline, print_int-NoNewline, length-print_int}
use imx8mp_building_blocks.Persist.Updates.{
  UpdateEntry, update_line, behind_ts, behind_from, behind_to, behind_slot, up_to_quote,
  version_behind, timestamp_in, slot_in, success_in, read_update, line_with,
}

abbrev pub line_end : Bytes
line_end = newline ∷ []

up_to_quote-plain : (v s : Bytes) → All IsPlain v → up_to_quote (v ++ (b'"' ∷ s)) ≡ some v
unfolding up_to_quote
up_to_quote-plain [] s h = refl
up_to_quote-plain (c ∷ v) s (hc, h) = rw (up_to_quote-plain v s h) (ground (arith, hc.0))

digits-plain : (w : Bytes) → IsDigits w → All IsPlain w
digits-plain [] h = tt
digits-plain (c ∷ w) (hc, h) =
    ((ground (arith, hc), ground (arith, hc), ground (arith, hc)), digits-plain w h)

-- The values of an entry fit their types, and the strings are plain and fit their buffers.
pub record IsUpdate (e : UpdateEntry) : Type 0 where
  pub timestamp : e.timestamp < 2 ^ 63
  pub from_plain : All IsPlain e.from_version
  pub from_fits : length e.from_version < 32
  pub to_plain : All IsPlain e.to_version
  pub to_fits : length e.to_version < 32
  pub slot : IsPlain e.target_slot
  pub success : e.success < int_mod

-- A number does not start with the letter t.
no_t : (n : ℕ) (s : Bytes) → (get_or (print_int n ++ s) 0 0 == b't') ≡ false
unfolding print_int
no_t n s = elim (Bool-cases (is_neg n)) [
  | inl negative ↦ rw negative refl
  | inr positive ↦ let (x, p, e, hx) = digits-cons 9 n in rw (positive, e) (ground (arith, hx))
]

abbrev no_newline : Bytes → Bool
no_newline [] = true
no_newline (c ∷ s) = not (c == newline) && no_newline s

-- The fixed parts of a line are checked by computation.
prefixed : (w s : Bytes) → no_newline w ≡ true → NoNewline s → NoNewline (w ++ s)
prefixed [] s h hs = hs
prefixed (c ∷ w) s h hs = elim (Bool-cases (no_newline w)) [
  | inl rest ↦ (ground (arith, h, rest), prefixed w s rest hs)
  | inr broken ↦ absurd (ground (arith, h, broken))
]

plain_whole : (v : Bytes) → All IsPlain v → NoNewline v
plain_whole [] h = tt
plain_whole (c ∷ v) (hc, h) = (hc.1, plain_whole v h)

module _ (e : UpdateEntry) (h : IsUpdate e) where
  stamp-plain : All IsPlain (digits 20 e.timestamp)
  stamp-plain = digits-plain (digits 20 e.timestamp) (digits-IsDigits 20 e.timestamp)

  timestamp_read : (old : ℕ) → timestamp_in (update_line e) old ≡ e.timestamp
  unfolding timestamp_in update_line after_word
  timestamp_read old =
      rw
        (
          scan_number-digits 19 e.timestamp b','
              (codes "\"from\":\"" ++ (e.from_version ++ behind_from line_end e))
              (omega (arith, h.timestamp)) refl (2 ^ 64) (omega (arith, h.timestamp)),
          timestamp_in,
        )
        refl

  from_found :
      after_word (codes "\"from\":\"") (update_line e)
      ≡ some (e.from_version ++ behind_from line_end e)
  unfolding update_line after_word
  from_found =
      after_word-plain (codes "from\":\"") (digits 20 e.timestamp) (behind_ts line_end e)
        stamp-plain

  to_found :
      after_word (codes "\"to\":\"") (update_line e) ≡ some (e.to_version ++ behind_to line_end e)
  unfolding update_line after_word
  to_found =
      after_word-plain (codes "to\":\"") (digits 20 e.timestamp) (behind_ts line_end e) stamp-plain
      ∙ after_word-value (codes "to") (codes "\"") e.from_version
          (codes "\"to\":\"" ++ (e.to_version ++ behind_to line_end e)) refl h.from_plain

  slot_found :
      after_word (codes "\"slot\":\"") (update_line e)
      ≡ some (e.target_slot ∷ behind_slot line_end e)
  unfolding update_line after_word
  slot_found =
      after_word-plain (codes "slot\":\"") (digits 20 e.timestamp) (behind_ts line_end e)
        stamp-plain
      ∙ after_word-value (codes "slot") (codes "\"") e.from_version
          (codes "\"to\":\"" ++ (e.to_version ++ behind_to line_end e)) refl h.from_plain
      ∙ after_word-value (codes "slot") (codes "\"") e.to_version
          (codes "\"slot\":\"" ++ (e.target_slot ∷ behind_slot line_end e)) refl h.to_plain

  ok_found :
      after_word (codes "\"ok\":") (update_line e)
      ≡ some (print_int e.success ++ b'}' ∷ newline ∷ [])
  unfolding update_line after_word
  ok_found =
      after_word-plain (codes "ok\":") (digits 20 e.timestamp) (behind_ts line_end e) stamp-plain
      ∙ after_word-value (codes "ok") [] e.from_version
          (codes "\"to\":\"" ++ (e.to_version ++ behind_to line_end e)) refl h.from_plain
      ∙ after_word-value (codes "ok") [] e.to_version
          (codes "\"slot\":\"" ++ (e.target_slot ∷ behind_slot line_end e)) refl h.to_plain
      ∙ after_word-value (codes "ok") [] (e.target_slot ∷ [])
          (codes "\"ok\":" ++ (print_int e.success ++ b'}' ∷ newline ∷ [])) refl (h.slot, tt)

  from_read :
      (old : Bytes) → version_behind (codes "\"from\":\"") (update_line e) old ≡ e.from_version
  unfolding version_behind
  from_read old =
      let here : ltb (length e.from_version) 32 ≡ true = ground (arith, h.from_fits) in
      let value =
        up_to_quote-plain e.from_version
          (codes ",\"to\":\"" ++ (e.to_version ++ behind_to line_end e)) h.from_plain in
      rw (from_found, value, here, version_behind) refl

  to_read : (old : Bytes) → version_behind (codes "\"to\":\"") (update_line e) old ≡ e.to_version
  unfolding version_behind
  to_read old =
      let here : ltb (length e.to_version) 32 ≡ true = ground (arith, h.to_fits) in
      let value =
        up_to_quote-plain e.to_version
          (codes ",\"slot\":\"" ++ (e.target_slot ∷ behind_slot line_end e)) h.to_plain in
      rw (to_found, value, here, version_behind) refl

  slot_read : (old : ℕ) → slot_in (update_line e) old ≡ e.target_slot
  unfolding slot_in
  slot_read old = rw (slot_found, slot_in) refl

  success_read : (old : ℕ) → success_in (update_line e) old ≡ 0
  unfolding success_in
  success_read old = rw (ok_found, no_t e.success (b'}' ∷ newline ∷ []), success_in) refl

  read_update-line :
      (old : UpdateEntry) → read_update (update_line e) old ≡ record e { success = 0 }
  unfolding read_update
  read_update-line old =
      rw
        (
          timestamp_read old.timestamp,
          from_read old.from_version,
          to_read old.to_version,
          slot_read old.target_slot,
          success_read old.success,
        )
        refl

  pub read_line :
      (old : UpdateEntry) → read_update (line_with line_end e) old ≡ record e { success = 0 }
  unfolding update_line
  read_line old = read_update-line old

  -- What ends the line stands at its end.
  pub line_with-append : (end : Bytes) → line_with [] e ++ end ≡ line_with end e
  line_with-append end =
      ap (λ u. codes "{\"ts\":" ++ u)
        (append_assoc (digits 20 e.timestamp) (behind_ts [] e) end
          ∙ ap (λ u. digits 20 e.timestamp ++ (codes ",\"from\":\"" ++ u))
              (append_assoc e.from_version (behind_from [] e) end
                ∙ ap (λ u. e.from_version ++ (codes "\",\"to\":\"" ++ u))
                    (append_assoc e.to_version (behind_to [] e) end
                      ∙ ap
                          (λ u.
                            e.to_version
                            ++ (codes "\",\"slot\":\""
                                ++ (e.target_slot ∷ codes "\",\"ok\":" ++ u)))
                          (append_assoc (print_int e.success) (b'}' ∷ []) end))))

  -- Its parts, from the last one on.
  behind_slot-NoNewline : NoNewline (behind_slot [] e)
  behind_slot-NoNewline = prefixed (codes "\",\"ok\":") (print_int e.success ++ b'}' ∷ []) refl (
      All-append _ (print_int e.success) (b'}' ∷ []) (print_int-NoNewline e.success)
        (omega arith, tt))

  to-NoNewline : NoNewline (e.to_version ++ behind_to [] e)
  to-NoNewline = All-append _ e.to_version (behind_to [] e) (plain_whole e.to_version h.to_plain) (
      prefixed (codes "\",\"slot\":\"") (e.target_slot ∷ behind_slot [] e) refl
        (h.slot.1, behind_slot-NoNewline))

  from-NoNewline : NoNewline (e.from_version ++ behind_from [] e)
  from-NoNewline =
      All-append _ e.from_version (behind_from [] e) (plain_whole e.from_version h.from_plain)
        (prefixed (codes "\",\"to\":\"") (e.to_version ++ behind_to [] e) refl to-NoNewline)

  line_with-NoNewline : NoNewline (line_with [] e)
  line_with-NoNewline = prefixed (codes "{\"ts\":") (digits 20 e.timestamp ++ behind_ts [] e) refl (
      All-append _ (digits 20 e.timestamp) (behind_ts [] e)
        (plain_whole (digits 20 e.timestamp) stamp-plain)
        (prefixed (codes ",\"from\":\"") (e.from_version ++ behind_from [] e) refl from-NoNewline))

  pub line_with-IsLine : IsLine 512 (line_with [] e)
  line_with-IsLine = record {
    whole = line_with-NoNewline;
    short = omega (
      arith,
      length-append (digits 20 e.timestamp) (behind_ts [] e),
      length-append e.from_version (behind_from [] e),
      length-append e.to_version (behind_to [] e),
      length-append (print_int e.success) (b'}' ∷ []),
      length-digits 20 e.timestamp,
      length-print_int e.success,
      h.from_fits,
      h.to_fits,
    );
  }
