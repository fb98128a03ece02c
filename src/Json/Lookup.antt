-- ===== src/Json/Lookup.antt =====
-- What the reader of libbb/bb_json.c finds in an object that the writer has built.
use imx8mp_building_blocks.Base.{
  ℕ, zero, suc, ◌≤◌, ◌<◌, ◌≡◌, ◌≢◌, ◌∙◌, refl, ap, sym, true, false, Option, none, some, List, [],
  ◌∷◌, ◌++◌, ◌==◌, if◌then◌else◌, arith, append_assoc, length, drop, length-append, All,
}
use imx8mp_building_blocks.Base.Bytes.{Bytes, starts_with, starts_with-append}
use imx8mp_building_blocks.Base.Words.{int_mod}
use imx8mp_building_blocks.Json.Writer.{c_string, write_object, Field, string, int}
use imx8mp_building_blocks.Json.Reader.{
  after_word, skip_colon, quoted, find_key, string_from, get_string, is_digit, atoi, get_int,
}
use imx8mp_building_blocks.Json.Decimal.{atoi-print_int, print_int-head}
use imx8mp_building_blocks.Json.Exact.{take-all}
use imx8mp_building_blocks.Json.Object.{member, members, render, write_object-reads}

drop-append : (xs ys : Bytes) → drop (length xs) (xs ++ ys) ≡ ys
drop-append [] ys = refl
drop-append (x ∷ xs) ys = drop-append xs ys

pub after_word-here : (word s : Bytes) → after_word word (word ++ s) ≡ some s
unfolding after_word
after_word-here [] [] = refl
after_word-here [] (c ∷ s) = refl
after_word-here (x ∷ word) s =
    let found : starts_with (x ∷ word) ((x ∷ word) ++ s) ≡ true = starts_with-append (x ∷ word) s in
    rw found (ap some (drop-append word s))

-- The byte at which a value starts.
abbrev IsStart : ℕ → Type 0
IsStart x = (x ≢ b' ') × (x ≢ b':')

-- What find_key does behind the key.
skipped : Option Bytes → Option Bytes
unfolding skip_colon
skipped o = elim o [ none ↦ none | some p ↦ some (skip_colon p) ]

find_key-first :
    (key s : Bytes) (x : ℕ)
    → length key ≤ 125
    → IsStart x
    → find_key (b'{' ∷ ((b'"' ∷ key ++ b'"' ∷ []) ++ b':' ∷ x ∷ s)) key ≡ some (x ∷ s)
unfolding find_key after_word skip_colon skipped
find_key-first key s x short (no_blank, no_colon) =
    ap (λ q. skipped (after_word q (b'{' ∷ (word ++ b':' ∷ x ∷ s)))) whole
    ∙ ap skipped (after_word-here word (b':' ∷ x ∷ s))
    ∙ ground arith
  where
    word : Bytes
    word = b'"' ∷ key ++ b'"' ∷ []

    whole : quoted key ≡ word
    whole = take-all 127 word (omega (arith, length-append key (b'"' ∷ [])))

-- What stands behind the first member of an object: a comma or the closing brace.
members-first :
    (f : Field) (fs : List Field)
    → (c : ℕ) × (s : Bytes) × (render (f ∷ fs) ≡ b'{' ∷ (member f ++ c ∷ s)) × (is_digit c ≡ false)
unfolding render members
members-first f [] = (b'}', [], refl, refl)
members-first f (g ∷ fs) = (
  b',',
  members (g ∷ fs) ++ b'}' ∷ [],
  ap (λ u. b'{' ∷ u) (append_assoc (member f) (b',' ∷ members (g ∷ fs)) (b'}' ∷ [])),
  refl,
)

-- Text that get_string copies as it is.
abbrev pub IsPlain : Bytes → Type 0
IsPlain = All (λ c. (c ≢ b'"') × (c ≢ b'\\'))

string_from-step :
    (room c : ℕ) (u : Bytes)
    → c ≢ b'"'
    → c ≢ b'\\'
    → 0 < length u
    → string_from (suc room) (c ∷ u) ≡ c ∷ string_from room u
unfolding string_from
string_from-step room c [] no_quote no_escape h = absurd (omega arith)
string_from-step room c (d ∷ s) no_quote no_escape h = ground arith

string_from-plain :
    (room : ℕ) (v s : Bytes) → IsPlain v → length v ≤ room → string_from room (v ++ b'"' ∷ s) ≡ v
unfolding string_from
string_from-plain zero [] s h fits = refl
string_from-plain zero (c ∷ v) s h fits = absurd (omega arith)
string_from-plain (suc room) [] [] h fits = refl
string_from-plain (suc room) [] (c ∷ s) h fits = refl
string_from-plain (suc room) (c ∷ v) s (hc, h) fits =
    string_from-step room c (v ++ b'"' ∷ s) hc.0 hc.1 (omega (arith, length-append v (b'"' ∷ s)))
    ∙ ap (λ r. c ∷ r) (string_from-plain room v s h (omega arith))

-- What the three getters do with what find_key gives.
int_at : Option Bytes → ℕ → ℕ
int_at o d = elim o [ none ↦ d | some p ↦ atoi p ]

string_at : Option Bytes → Option Bytes
unfolding string_from
string_at o = elim o [
  | none ↦ none
  | some [] ↦ none
  | some (c ∷ p) ↦ if c == b'"' then some (string_from 255 p) else none
]

get_int-first :
    (key : Bytes) (n d : ℕ) (fs : List Field)
    → length key ≤ 125
    → n < int_mod
    → get_int (render (int key n ∷ fs)) key d ≡ n
unfolding get_int int_at member
get_int-first key n d fs short small =
    let (c, s, whole, no_digit) = members-first (int key n) fs in
    let (x, t, head, no_blank, no_colon) = print_int-head n in
    let starts : member (int key n) ++ c ∷ s
        ≡ (b'"' ∷ key ++ b'"' ∷ []) ++ b':' ∷ x ∷ (t ++ c ∷ s) =
      simp (append_assoc, head) in
    ap (λ j. int_at (find_key j key) d) (whole ∙ ap (λ u. b'{' ∷ u) starts)
    ∙ ap (λ o. int_at o d) (find_key-first key (t ++ c ∷ s) x short (no_blank, no_colon))
    ∙ ap (λ u. atoi (u ++ c ∷ s)) (sym head)
    ∙ atoi-print_int n c s small no_digit

pub get_string-first :
    (key v : Bytes) (fs : List Field)
    → length key ≤ 125
    → length v ≤ 255
    → IsPlain v
    → get_string (render (string key (some v) ∷ fs)) key ≡ some v
unfolding get_string string_at member
get_string-first key v fs short fits plain =
    let (c, s, whole, no_digit) = members-first (string key (some v)) fs in
    let starts : member (string key (some v)) ++ c ∷ s
        ≡ (b'"' ∷ key ++ b'"' ∷ []) ++ b':' ∷ b'"' ∷ (v ++ b'"' ∷ c ∷ s) =
      simp append_assoc in
    ap (λ j. string_at (find_key j key)) (whole ∙ ap (λ u. b'{' ∷ u) starts)
    ∙ ap string_at (find_key-first key (v ++ b'"' ∷ c ∷ s) b'"' short (omega arith, omega arith))
    ∙ ap some (string_from-plain 255 v (c ∷ s) plain fits)

-- A number that is written as the first member of an object, in a buffer that holds the object and a NUL,
-- is read back by its key. The key has at most 125 bytes, and no NUL is in the object.
pub written_int-reads :
    (key : Bytes) (n d : ℕ) (fs : List Field) (buf : Bytes)
    → length key ≤ 125
    → n < int_mod
    → length (render (int key n ∷ fs)) < length buf
    → All (λ c. c ≢ 0) (render (int key n ∷ fs))
    → get_int (c_string (write_object (int key n ∷ fs) buf).buf) key d ≡ n
written_int-reads key n d fs buf short small fits clean =
    ap (λ j. get_int j key d) (write_object-reads (int key n ∷ fs) buf fits clean)
    ∙ get_int-first key n d fs short small

-- A string of at most 255 bytes with neither quotes nor backslashes, written as the first member of an
-- object in a buffer that holds the object and a NUL, is read back by its key. The key has at most
-- 125 bytes, and no NUL is in the object.
pub written_string-reads :
    (key v : Bytes) (fs : List Field) (buf : Bytes)
    → length key ≤ 125
    → length v ≤ 255
    → IsPlain v
    → length (render (string key (some v) ∷ fs)) < length buf
    → All (λ c. c ≢ 0) (render (string key (some v) ∷ fs))
    → get_string (c_string (write_object (string key (some v) ∷ fs) buf).buf) key ≡ some v
written_string-reads key v fs buf short room plain fits clean =
    ap (λ j. get_string j key) (write_object-reads (string key (some v) ∷ fs) buf fits clean)
    ∙ get_string-first key v fs short room plain
