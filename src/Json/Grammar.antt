-- ===== src/Json/Grammar.antt =====
-- What the writer of libbb/bb_json.c leaves is JSON: objects of strings without escapes, integers and truth values.
use imx8mp_building_blocks.Base.{
  ℕ, zero, suc, ◌+◌, ◌/◌, ◌%◌, ◌^◌, ◌≤◌, ◌<◌, ◌≡◌, ◌≢◌, refl, ap, ltb, ◌-◌, Bool, true, false, List,
  [], ◌∷◌, ◌++◌, if◌then◌else◌, arith, inl, inr, Bool-cases, All, All-append, append_assoc, length,
}
use imx8mp_building_blocks.Base.Bytes.{Bytes, codes}
use imx8mp_building_blocks.Base.Words.{int_mod, is_neg}
use imx8mp_building_blocks.Json.Writer.{
  digits, print_int, text_of, c_string, Field, string, int, bool, write_object,
}
use imx8mp_building_blocks.Json.Object.{member, members, render, write_object-reads}

-- A character that stands for itself in a string.
abbrev pub Plain : ℕ → Type 0
Plain c = (32 ≤ c) × (c < 128) × (c ≢ b'"') × (c ≢ b'\\')

abbrev Digit : ℕ → Type 0
Digit c = (b'0' ≤ c) × (c ≤ b'9')

-- The grammar of RFC 8259, as far as it is needed.
pub data Natural : Bytes → Type 0 where
  digit : (d : ℕ) → Digit d → Natural (d ∷ [])
  number : (d : ℕ) (w : Bytes) → Digit d → d ≢ b'0' → All Digit w → Natural (d ∷ w)

pub data Value : Bytes → Type 0 where
  text : (s : Bytes) → All Plain s → Value (b'"' ∷ s ++ b'"' ∷ [])
  positive : (w : Bytes) → Natural w → Value w
  negative : (w : Bytes) → Natural w → Value (b'-' ∷ w)
  truth : Value (codes "true")
  falsity : Value (codes "false")

pub data Members : Bytes → Type 0 where
  last : (k v : Bytes) → All Plain k → Value v → Members (b'"' ∷ k ++ b'"' ∷ b':' ∷ v)
  more :
      (k v ms : Bytes)
      → All Plain k
      → Value v
      → Members ms
      → Members ((b'"' ∷ k ++ b'"' ∷ b':' ∷ v) ++ b',' ∷ ms)

pub data Object : Bytes → Type 0 where
  empty : Object (b'{' ∷ b'}' ∷ [])
  full : (ms : Bytes) → Members ms → Object (b'{' ∷ ms ++ b'}' ∷ [])

-- The names and the strings of a member need no escapes, and an int is a pattern.
unfoldable pub IsPlain : Field → Type 0
IsPlain (string key val) = All Plain key × All Plain (text_of val)
IsPlain (int key val) = All Plain key × (val < int_mod)
IsPlain (bool key val) = All Plain key

leading :
    (k n : ℕ)
    → 0 < n
    → n < 10 ^ suc k
    → (d : ℕ) × (w : Bytes) × (digits (suc k) n ≡ d ∷ w) × Digit d × (d ≢ b'0') × All Digit w
unfolding digits
leading zero n pos small =
    let low : ltb n 10 ≡ true = ground arith in
    (n + b'0', [], rw low refl, (omega arith, omega arith), omega arith, tt)
leading (suc k) n pos small = elim (Bool-cases (ltb n 10)) [
  | inl low ↦
      let lt : n < 10 = ground (arith, low) in
      (n + b'0', [], rw low refl, (omega arith, omega arith), omega arith, tt)
  | inr high ↦
      let le : 10 ≤ n = ground (arith, high) in
      let (d, w, e, hd, no_zero, hw) = leading k (n / 10) (omega arith) (omega arith) in
      (
        d,
        w ++ ((n % 10 + b'0') ∷ []),
        rw high (ap (λ r. r ++ ((n % 10 + b'0') ∷ [])) e),
        hd,
        no_zero,
        All-append Digit w ((n % 10 + b'0') ∷ []) hw ((omega arith, omega arith), tt),
      )
]

digits-Natural : (k n : ℕ) → n < 10 ^ suc k → Natural (digits (suc k) n)
unfolding digits
digits-Natural k zero small = digit b'0' (omega arith, omega arith)
digits-Natural k (suc n) small =
    let (d, w, e, hd, no_zero, hw) = leading k (suc n) (omega arith) small in
    rw e (number d w hd no_zero hw)

print_int-Value : (n : ℕ) → n < int_mod → Value (print_int n)
unfolding print_int
print_int-Value n small = elim (Bool-cases (is_neg n)) [
  | inl neg ↦ rw neg (negative _ (digits-Natural 9 (int_mod - n) (omega arith)))
  | inr pos ↦ rw pos (positive _ (digits-Natural 9 n (omega arith)))
]

bool-Value : (b : Bool) → Value (if b then codes "true" else codes "false")
bool-Value true = truth
bool-Value false = falsity

-- A member's name and value.
member-Value :
    (f : Field)
    → IsPlain f
    → (k v : Bytes) × (member f ≡ b'"' ∷ k ++ b'"' ∷ b':' ∷ v) × All Plain k × Value v
unfolding member IsPlain
member-Value (string key val) (hk, hv) =
    (key, b'"' ∷ text_of val ++ b'"' ∷ [], simp append_assoc, hk, text (text_of val) hv)
member-Value (int key val) (hk, hv) = (key, print_int val, refl, hk, print_int-Value val hv)
member-Value (bool key val) hk = (key, _, refl, hk, bool-Value val)

members-Members : (f : Field) (fs : List Field) → All IsPlain (f ∷ fs) → Members (members (f ∷ fs))
unfolding members
members-Members f [] (hf, h) = let (k, v, e, hk, hv) = member-Value f hf in rw e (last k v hk hv)
members-Members f (g ∷ fs) (hf, h) =
    let (k, v, e, hk, hv) = member-Value f hf in
    rw e (more k v (members (g ∷ fs)) hk hv (members-Members g fs h))

render-Object : (fs : List Field) → All IsPlain fs → Object (render fs)
unfolding render members
render-Object [] h = empty
render-Object (f ∷ fs) h = full (members (f ∷ fs)) (members-Members f fs h)

-- No NUL is in a text of the grammar.
abbrev Clean : Bytes → Type 0
Clean = All (λ c. c ≢ 0)

Plain-Clean : (s : Bytes) → All Plain s → Clean s
Plain-Clean [] h = tt
Plain-Clean (c ∷ s) ((low, high, no_quote, no_slash), h) = (omega arith, Plain-Clean s h)

Digit-Clean : (s : Bytes) → All Digit s → Clean s
Digit-Clean [] h = tt
Digit-Clean (c ∷ s) ((low, high), h) = (omega arith, Digit-Clean s h)

Natural-Clean : {w : Bytes} → Natural w → Clean w
Natural-Clean (digit d (low, high)) = (omega arith, tt)
Natural-Clean (number d w (low, high) no_zero h) = (omega arith, Digit-Clean w h)

Value-Clean : {v : Bytes} → Value v → Clean v
Value-Clean (text s h) =
    (omega arith, All-append _ s (b'"' ∷ []) (Plain-Clean s h) (omega arith, tt))
Value-Clean (positive w h) = Natural-Clean h
Value-Clean (negative w h) = (omega arith, Natural-Clean h)
Value-Clean truth = omega arith
Value-Clean falsity = omega arith

pair-Clean : (k v : Bytes) → All Plain k → Value v → Clean (b'"' ∷ k ++ b'"' ∷ b':' ∷ v)
pair-Clean k v hk hv = (
  omega arith,
  All-append _ k (b'"' ∷ b':' ∷ v) (Plain-Clean k hk) (omega arith, (omega arith, Value-Clean hv)),
)

Members-Clean : {ms : Bytes} → Members ms → Clean ms
Members-Clean (last k v hk hv) = pair-Clean k v hk hv
Members-Clean (more k v ms hk hv h) =
    All-append _ (b'"' ∷ k ++ b'"' ∷ b':' ∷ v) (b',' ∷ ms) (pair-Clean k v hk hv)
      (omega arith, Members-Clean h)

Object-Clean : {o : Bytes} → Object o → Clean o
Object-Clean empty = omega arith
Object-Clean (full ms h) =
    (omega arith, All-append _ ms (b'}' ∷ []) (Members-Clean h) (omega arith, tt))

-- The calls that write an object whose keys and strings are ASCII without quotes, backslashes and control characters,
-- and whose other values are 32-bit ints and truth values, leave it in the buffer as JSON, the members in order, ended
-- by a NUL, if it and the NUL fit.
pub write_object-Object :
    (fs : List Field) (buf : Bytes)
    → All IsPlain fs
    → length (render fs) < length buf
    → (c_string (write_object fs buf).buf ≡ render fs) × Object (render fs)
write_object-Object fs buf plain fits =
    let o = render-Object fs plain in (write_object-reads fs buf fits (Object-Clean o), o)
