-- ===== src/Json/Reader.antt =====
-- The reader of libbb/bb_json.c: a linear scan for the quoted key.
use imx8mp_building_blocks.Base.{
  ℕ, zero, suc, ◌+◌, ◌-◌, ◌*◌, ◌%◌, ◌==◌, leb, Bool, true, false, ◌&&◌, ◌||◌, Option, none, some,
  [], ◌∷◌, ◌++◌, if◌then◌else◌, length, take, drop,
}
use imx8mp_building_blocks.Base.Bytes.{Bytes, codes, starts_with}
use imx8mp_building_blocks.Base.Words.{int_sub, int_mod}
use imx8mp_building_blocks.Bus.Words.{skip_space}

-- What follows the first occurrence of a word.
unfoldable pub after_word : Bytes → Bytes → Option Bytes
after_word word [] = if starts_with word [] then some [] else none
after_word word (c ∷ s) =
    let later = after_word word s in
    if starts_with word (c ∷ s) then some (drop (length word) (c ∷ s)) else later

-- Blanks and colons behind the key.
unfoldable pub skip_colon : Bytes → Bytes
skip_colon [] = []
skip_colon (c ∷ s) = let rest = skip_colon s in if c == b' ' || c == b':' then rest else c ∷ s

-- snprintf(search, sizeof(search), "\"%s\"", key)
abbrev pub quoted : Bytes → Bytes
quoted key = take 127 (b'"' ∷ key ++ b'"' ∷ [])

unfoldable pub find_key : Bytes → Bytes → Option Bytes
unfolding after_word skip_colon
find_key json key = elim (after_word (quoted key) json) [
  | none ↦ none
  | some p ↦ some (skip_colon p)
]

abbrev pub escaped : ℕ → ℕ
escaped c = if c == b'n' then 10 else if c == b't' then 9 else c

-- The loop of bb_json_get_string, with room for `room` bytes more.
unfoldable pub string_from : ℕ → Bytes → Bytes
string_from zero s = []
string_from (suc room) [] = []
string_from (suc room) (c ∷ []) = if c == b'"' then [] else c ∷ []
string_from (suc room) (c ∷ d ∷ s) =
    let plain = string_from room (d ∷ s) in
    let behind = string_from room s in
    if c == b'"' then [] else if c == b'\\' then escaped d ∷ behind else c ∷ plain

unfoldable pub get_string : Bytes → Bytes → Option Bytes
unfolding find_key string_from
get_string json key = elim (find_key json key) [
  | none ↦ none
  | some [] ↦ none
  | some (c ∷ p) ↦ if c == b'"' then some (string_from 255 p) else none
]

abbrev pub is_digit : ℕ → Bool
is_digit c = leb b'0' c && leb c b'9'

unfoldable pub digits_from : ℕ → Bytes → ℕ
digits_from acc [] = acc
digits_from acc (c ∷ s) =
    let rest = digits_from (acc * 10 + (c - b'0')) s in if is_digit c then rest else acc

-- atoi, for numbers that are an `int`.
unfoldable pub atoi : Bytes → ℕ
unfolding digits_from skip_space
atoi s = elim (skip_space s) [
  | [] ↦ 0
  | c ∷ p ↦
      if c == b'-'
      then int_sub 0 (digits_from 0 p % int_mod)
      else if c == b'+'
      then digits_from 0 p % int_mod
      else digits_from 0 (c ∷ p) % int_mod
]

unfoldable pub get_int : Bytes → Bytes → ℕ → ℕ
unfolding find_key atoi
get_int json key default_val = elim (find_key json key) [ none ↦ default_val | some p ↦ atoi p ]

unfoldable pub get_bool : Bytes → Bytes → Bool → Bool
unfolding find_key
get_bool json key default_val = elim (find_key json key) [
  | none ↦ default_val
  | some p ↦
      if starts_with (codes "true") p
      then true
      else if starts_with (codes "false") p
      then false
      else default_val
]
