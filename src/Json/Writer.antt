-- ===== src/Json/Writer.antt =====
-- The writer of libbb/bb_json.c, on a buffer that is its bytes.
use imx8mp_building_blocks.Base.{
  ℕ, zero, suc, ◌+◌, ◌-◌, ◌/◌, ◌%◌, ◌==◌, ltb, Bool, true, ◌&&◌, Option, none, some, List, [], ◌∷◌,
  ◌++◌, if◌then◌else◌, length, take, drop, get_or, set,
}
use imx8mp_building_blocks.Base.Bytes.{Bytes, codes}
use imx8mp_building_blocks.Base.Words.{is_neg, int_mod}

-- `bb_json_writer_t`; `size` is the length of `buf`. `overrun` tells whether a byte has been written
-- outside the buffer.
pub record Writer : Type 0 where
  pub buf : Bytes
  pub pos : ℕ
  pub overrun : Bool

abbrev pub size : Writer → ℕ
size w = length w.buf

-- The bytes of the buffer from `pos` on replaced.
abbrev pub write_at : ℕ → Bytes → Bytes → Bytes
write_at pos bytes buf = take pos buf ++ (bytes ++ drop (pos + length bytes) buf)

unfoldable pub json_init : Bytes → Writer
json_init buf = record { buf = set buf 0 0; pos = 0; overrun = length buf == 0 }

-- One byte, if there is room.
unfoldable pub put : ℕ → Writer → Writer
put c w = if ltb w.pos (size w) then record w { buf = set w.buf w.pos c; pos = w.pos + 1 } else w

unfoldable pub start_object : Writer → Writer
unfolding put
start_object w = put b'{' w

-- A comma at the end is taken back.
unfoldable pub trim : Writer → Writer
trim w =
    if ltb 1 w.pos && get_or w.buf (w.pos - 1) 0 == b',' then record w { pos = w.pos - 1 } else w

unfoldable pub terminate : Writer → Writer
terminate w = if ltb w.pos (size w) then record w { buf = set w.buf w.pos 0 } else w

unfoldable pub end_object : Writer → Writer
unfolding trim put terminate
end_object w = terminate (put b'}' (trim w))

-- snprintf(w->buf + w->pos, w->size - w->pos, …) of a text, and w->pos += n. With `pos` behind the
-- end the `size_t` that tells the room wraps around, and the text goes where it does not belong.
unfoldable pub print : Bytes → Writer → Writer
print text w =
    let pos' = w.pos + length text in
    if ltb (size w) w.pos
    then record w { pos = pos'; overrun = true }
    else if w.pos == size w
    then record w { pos = pos' }
    else record w {
      buf = write_at w.pos (take (size w - w.pos - 1) text ++ 0 ∷ []) w.buf;
      pos = pos';
    }

-- The quoted key and a colon.
unfoldable pub add_key : Bytes → Writer → Writer
unfolding print
add_key key w = print (b'"' ∷ key ++ b'"' ∷ b':' ∷ []) w

-- A NULL value is written as an empty one.
abbrev pub text_of : Option Bytes → Bytes
text_of none = []
text_of (some v) = v

unfoldable pub add_string : Bytes → Option Bytes → Writer → Writer
unfolding add_key print
add_string key val w = print (b'"' ∷ text_of val ++ b'"' ∷ b',' ∷ []) (add_key key w)

-- The decimal digits of a number, with as many rounds as it has digits, or more.
unfoldable pub digits : ℕ → ℕ → Bytes
digits zero n = []
digits (suc rounds) n =
    let rest = digits rounds (n / 10) in
    if ltb n 10 then (n + b'0') ∷ [] else rest ++ ((n % 10 + b'0') ∷ [])

-- "%d" of a pattern: ten digits are enough for a number below 2 ^ 32.
unfoldable pub print_int : ℕ → Bytes
unfolding digits
print_int n = if is_neg n then b'-' ∷ digits 10 (int_mod - n) else digits 10 n

unfoldable pub add_int : Bytes → ℕ → Writer → Writer
unfolding add_key print print_int
add_int key val w = print (print_int val ++ b',' ∷ []) (add_key key w)

unfoldable pub add_bool : Bytes → Bool → Writer → Writer
unfolding add_key print
add_bool key val w =
    print ((if val then codes "true" else codes "false") ++ b',' ∷ []) (add_key key w)

-- What `buf` reads as a string.
unfoldable pub c_string : Bytes → Bytes
c_string [] = []
c_string (c ∷ s) = let rest = c_string s in if c == 0 then [] else c ∷ rest

-- A member of an object, and the calls that write it.
pub data Field : Type 0 where
  string : Bytes → Option Bytes → Field
  int : Bytes → ℕ → Field
  bool : Bytes → Bool → Field

unfoldable pub add : Field → Writer → Writer
unfolding add_string add_int add_bool
add (string key val) w = add_string key val w
add (int key val) w = add_int key val w
add (bool key val) w = add_bool key val w

unfoldable pub add_all : List Field → Writer → Writer
unfolding add
add_all [] w = w
add_all (f ∷ fs) w = add_all fs (add f w)

-- The calls that build an object in a buffer.
unfoldable pub write_object : List Field → Bytes → Writer
unfolding json_init start_object add_all end_object
write_object fs buf = end_object (add_all fs (start_object (json_init buf)))
