-- ===== src/Stdio/Scan.antt =====
-- The conversions of sscanf for numbers, and that they read back what printf has written.
use imx8mp_building_blocks.Base.{
  ℕ, zero, suc, ◌+◌, ◌-◌, ◌/◌, ◌%◌, ◌^◌, ◌<◌, ◌≤◌, ◌≡◌, ◌∙◌, refl, ap, sym, Bool, true, false,
  Option, none, some, [], ◌∷◌, ◌++◌, ltb, ◌==◌, if◌then◌else◌, arith, inl, inr, Bool-cases, length,
  length-append, All, All-append,
}
use imx8mp_building_blocks.Base.Bytes.{Bytes}
use imx8mp_building_blocks.Base.Words.{int_mod, is_neg}
use imx8mp_building_blocks.Bus.Words.{skip_space}
use imx8mp_building_blocks.Json.Writer.{digits, print_int}
use imx8mp_building_blocks.Json.Reader.{is_digit, digits_from}
use native.Mathlib.Nat.{mod-eq_of_lt}
use imx8mp_building_blocks.Json.Decimal.{digits_from-digits, digits_from-end}

-- What follows the digits at the start.
unfoldable pub after_digits : Bytes → Bytes
after_digits [] = []
after_digits (c ∷ s) = let rest = after_digits s in if is_digit c then rest else c ∷ s

-- The digits of a number behind its sign, with what follows them.
unfoldable pub scan_digits : ℕ → Bool → Bytes → Option (ℕ × Bytes)
unfolding after_digits digits_from
scan_digits m minus [] = none
scan_digits m minus (c ∷ s) =
    let n = digits_from 0 (c ∷ s) % m in
    if is_digit c then some (if minus then (m - n) % m else n, after_digits (c ∷ s)) else none

-- `%d`, `%u` and `%llu` into an integer of modulus `m`, for numbers that fit 63 bits.
unfoldable pub scan_number : ℕ → Bytes → Option (ℕ × Bytes)
unfolding scan_digits skip_space
scan_number m s = elim (skip_space s) [
  | [] ↦ none
  | c ∷ p ↦
      if c == b'-'
      then scan_digits m true p
      else if c == b'+'
      then scan_digits m false p
      else scan_digits m false (c ∷ p)
]

-- ` %c`
unfoldable pub scan_char : Bytes → Option (ℕ × Bytes)
unfolding skip_space
scan_char s = elim (skip_space s) [ [] ↦ none | c ∷ p ↦ if c == 0 then none else some (c, p) ]

-- A word of digits.
abbrev pub IsDigits : Bytes → Type 0
IsDigits = All (λ c. is_digit c ≡ true)

after_digits-word :
    (w : Bytes) (c : ℕ) (t : Bytes)
    → IsDigits w
    → is_digit c ≡ false
    → after_digits (w ++ c ∷ t) ≡ c ∷ t
unfolding after_digits
after_digits-word [] c t h stop = rw stop refl
after_digits-word (x ∷ w) c t (hx, h) stop = rw hx (after_digits-word w c t h stop)

pub length-digits : (k n : ℕ) → length (digits k n) ≤ k
unfolding digits
length-digits zero n = omega arith
length-digits (suc k) n = elim (Bool-cases (ltb n 10)) [
  | inl small ↦ rw small (omega arith)
  | inr large ↦ rw large (
      omega
        (arith, length-append (digits k (n / 10)) ((n % 10 + b'0') ∷ []), length-digits k (n / 10)))
]

pub digits-IsDigits : (k n : ℕ) → IsDigits (digits k n)
unfolding digits
digits-IsDigits zero n = tt
digits-IsDigits (suc k) n = elim (Bool-cases (ltb n 10)) [
  | inl small ↦ rw small (ground arith, tt)
  | inr large ↦ rw large (
      All-append _ (digits k (n / 10)) ((n % 10 + b'0') ∷ []) (digits-IsDigits k (n / 10))
        (ground arith, tt))
]

scan_number-start :
    (m x : ℕ) (s : Bytes)
    → is_digit x ≡ true
    → scan_number m (x ∷ s) ≡ some (digits_from 0 (x ∷ s) % m, after_digits (x ∷ s))
unfolding scan_number
scan_number-start m x s h = ground arith

scan_digits-start :
    (m x : ℕ) (s : Bytes)
    → is_digit x ≡ true
    → scan_digits m true (x ∷ s) ≡ some ((m - digits_from 0 (x ∷ s) % m) % m, after_digits (x ∷ s))
unfolding scan_digits
scan_digits-start m x s h = rw h refl

-- A number has a first digit.
pub digits-cons :
    (k n : ℕ) → (x : ℕ) × (p : Bytes) × (digits (suc k) n ≡ x ∷ p) × (is_digit x ≡ true)
unfolding digits
digits-cons k n = elim (Bool-cases (ltb n 10)) [
  | inl small ↦ rw small (n + b'0', [], refl, ground arith)
  | inr large ↦ rw large (first (digits k (n / 10)) (digits-IsDigits k (n / 10)))
]
  where
    first :
        (w : Bytes)
        → IsDigits w
        → (x : ℕ) × (p : Bytes) × (w ++ ((n % 10 + b'0') ∷ []) ≡ x ∷ p) × (is_digit x ≡ true)
    first [] h = (n % 10 + b'0', [], refl, ground arith)
    first (x ∷ w) (hx, h) = (x, w ++ ((n % 10 + b'0') ∷ []), refl, hx)

module _ (k n c : ℕ) (t : Bytes) (fits : n < 10 ^ suc k) (stop : is_digit c ≡ false) where
  value : digits_from 0 (digits (suc k) n ++ c ∷ t) ≡ n
  value = digits_from-digits (suc k) n (c ∷ t) fits ∙ digits_from-end n c t stop

  behind : after_digits (digits (suc k) n ++ c ∷ t) ≡ c ∷ t
  behind = after_digits-word (digits (suc k) n) c t (digits-IsDigits (suc k) n) stop

  pub scan_number-digits :
      (m : ℕ) → n < m → scan_number m (digits (suc k) n ++ c ∷ t) ≡ some (n, c ∷ t)
  scan_number-digits m small =
      let (x, p, e, hx) = digits-cons k n in
      ap (λ w. scan_number m (w ++ c ∷ t)) e
      ∙ scan_number-start m x (p ++ c ∷ t) hx
      ∙ ap (λ w. some (digits_from 0 (w ++ c ∷ t) % m, after_digits (w ++ c ∷ t))) (sym e)
      ∙ rw (value, behind) (ap (λ v. some (v, c ∷ t)) (mod-eq_of_lt small))

  scan_digits-minus :
      (m : ℕ) → n < m → scan_digits m true (digits (suc k) n ++ c ∷ t) ≡ some ((m - n) % m, c ∷ t)
  scan_digits-minus m small =
      let (x, p, e, hx) = digits-cons k n in
      ap (λ w. scan_digits m true (w ++ c ∷ t)) e
      ∙ scan_digits-start m x (p ++ c ∷ t) hx
      ∙ ap (λ w. some ((m - digits_from 0 (w ++ c ∷ t) % m) % m, after_digits (w ++ c ∷ t))) (sym e)
      ∙ rw (value, behind) (ap (λ v. some ((m - v) % m, c ∷ t)) (mod-eq_of_lt small))

scan_number-minus : (s : Bytes) → scan_number int_mod (b'-' ∷ s) ≡ scan_digits int_mod true s
unfolding scan_number
scan_number-minus s = refl

pub scan_number-print_int :
    (n c : ℕ) (t : Bytes)
    → n < int_mod
    → is_digit c ≡ false
    → scan_number int_mod (print_int n ++ c ∷ t) ≡ some (n, c ∷ t)
unfolding print_int
scan_number-print_int n c t h stop = elim (Bool-cases (is_neg n)) [
  | inl negative ↦ rw negative (
      scan_number-minus (digits 10 (int_mod - n) ++ c ∷ t)
      ∙ scan_digits-minus 9 (int_mod - n) c t (omega arith) stop int_mod (ground arith)
      ∙ ap (λ v. some (v, c ∷ t)) (ground arith))
  | inr positive ↦ rw positive (scan_number-digits 9 n c t (omega arith) stop int_mod h)
]

-- A blank ahead of a number is skipped.
pub scan_number-blank : (m : ℕ) (s : Bytes) → scan_number m (b' ' ∷ s) ≡ scan_number m s
unfolding scan_number
scan_number-blank m s = refl
