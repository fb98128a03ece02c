-- ===== src/Json/Decimal.antt =====
-- The decimal numbers of libbb/bb_json.c: what "%d" prints, and what atoi makes of it.
use imx8mp_building_blocks.Base.{
  ℕ, zero, suc, ◌+◌, ◌-◌, ◌*◌, ◌/◌, ◌%◌, ◌^◌, ◌<◌, ◌≡◌, ◌∙◌, refl, ap, true, false, [], ◌∷◌, ◌++◌,
  ltb, arith, inl, inr, Bool-cases, append_assoc, append-nil, ◌≢◌,
}
use imx8mp_building_blocks.Base.Bytes.{Bytes}
use imx8mp_building_blocks.Base.Words.{int_mod, is_neg, int_sub}
use imx8mp_building_blocks.Bus.Words.{skip_space}
use imx8mp_building_blocks.Json.Writer.{digits, print_int}
use imx8mp_building_blocks.Json.Reader.{is_digit, digits_from, atoi}
use native.Mathlib.Nat.{pow-suc}

digits_from-digit :
    (acc d : ℕ) (t : Bytes)
    → d < 10
    → digits_from acc ((d + b'0') ∷ t) ≡ digits_from (acc * 10 + d) t
unfolding digits_from
digits_from-digit acc d t h =
    let yes_digit : is_digit (d + b'0') ≡ true = ground arith in
    rw yes_digit (ap (λ m. digits_from m t) (omega arith))

-- Reading goes on behind the digits of a number with that number.
pub digits_from-digits :
    (k n : ℕ) (t : Bytes) → n < 10 ^ k → digits_from 0 (digits k n ++ t) ≡ digits_from n t
unfolding digits
digits_from-digits zero n t h = ap (λ m. digits_from m t) (omega arith)
digits_from-digits (suc k) n t h = elim (Bool-cases (ltb n 10)) [
  | inl small ↦
      rw small (digits_from-digit 0 n t (ground arith) ∙ ap (λ m. digits_from m t) (omega arith))
  | inr large ↦
      let shorter : n / 10 < 10 ^ k = omega (arith, h, pow-suc 10 k) in
      rw large (
        ap (digits_from 0) (append_assoc (digits k (n / 10)) ((n % 10 + b'0') ∷ []) t)
        ∙ digits_from-digits k (n / 10) ((n % 10 + b'0') ∷ t) shorter
        ∙ digits_from-digit (n / 10) (n % 10) t (omega arith)
        ∙ ap (λ m. digits_from m t) (omega arith))
]

StartsDigit : Bytes → Type 0
StartsDigit [] = ⊥
StartsDigit (c ∷ s) = is_digit c ≡ true

digits-StartsDigit : (k n : ℕ) (t : Bytes) → StartsDigit t → StartsDigit (digits k n ++ t)
unfolding digits StartsDigit
digits-StartsDigit zero n t h = h
digits-StartsDigit (suc k) n t h = elim (Bool-cases (ltb n 10)) [
  | inl small ↦ rw small (ground arith)
  | inr large ↦
      rw (large, append_assoc (digits k (n / 10)) ((n % 10 + b'0') ∷ []) t)
        (digits-StartsDigit k (n / 10) ((n % 10 + b'0') ∷ t) (ground arith))
]

digits-suc-StartsDigit : (k n : ℕ) (t : Bytes) → StartsDigit (digits (suc k) n ++ t)
unfolding digits StartsDigit
digits-suc-StartsDigit k n t = elim (Bool-cases (ltb n 10)) [
  | inl small ↦ rw small (ground arith)
  | inr large ↦
      rw (large, append_assoc (digits k (n / 10)) ((n % 10 + b'0') ∷ []) t)
        (digits-StartsDigit k (n / 10) ((n % 10 + b'0') ∷ t) (ground arith))
]

atoi-digit : (s : Bytes) → StartsDigit s → atoi s ≡ digits_from 0 s % int_mod
unfolding atoi skip_space StartsDigit
atoi-digit [] h = absurd h
atoi-digit (c ∷ s) h = ground arith

atoi-minus : (s : Bytes) → atoi (b'-' ∷ s) ≡ int_sub 0 (digits_from 0 s % int_mod)
unfolding atoi skip_space
atoi-minus s = refl

-- A number ends at a byte that is no digit.
pub digits_from-end : (n c : ℕ) (t : Bytes) → is_digit c ≡ false → digits_from n (c ∷ t) ≡ n
unfolding digits_from
digits_from-end n c t h = rw h refl

-- atoi reads back what "%d" prints of an `int`, whatever follows it that does not start with a digit.
pub atoi-print_int :
    (n c : ℕ) (t : Bytes) → n < int_mod → is_digit c ≡ false → atoi (print_int n ++ c ∷ t) ≡ n
unfolding print_int
atoi-print_int n c t h stop = elim (Bool-cases (is_neg n)) [
  | inl negative ↦ rw negative (
      atoi-minus (digits 10 (int_mod - n) ++ c ∷ t)
      ∙ ap (λ m. int_sub 0 (m % int_mod))
          (digits_from-digits 10 (int_mod - n) (c ∷ t) (omega arith)
            ∙ digits_from-end (int_mod - n) c t stop)
      ∙ ground arith)
  | inr positive ↦ rw positive (
      atoi-digit (digits 10 n ++ c ∷ t) (digits-suc-StartsDigit 9 n (c ∷ t))
      ∙ ap (λ m. m % int_mod)
          (digits_from-digits 10 n (c ∷ t) (omega arith) ∙ digits_from-end n c t stop)
      ∙ omega arith)
]

-- The first byte that "%d" prints.
pub print_int-head :
    (n : ℕ) → (x : ℕ) × (s : Bytes) × (print_int n ≡ x ∷ s) × (x ≢ b' ') × (x ≢ b':')
unfolding print_int StartsDigit
print_int-head n = elim (Bool-cases (is_neg n)) [
  | inl negative ↦ (b'-', digits 10 (int_mod - n), rw negative refl, omega arith, omega arith)
  | inr positive ↦
      rw positive
        (head (digits 10 n) (rw (append-nil (digits 10 n)) at (digits-suc-StartsDigit 9 n [])))
]
  where
    head :
        (t : Bytes) → StartsDigit t → (x : ℕ) × (s : Bytes) × (t ≡ x ∷ s) × (x ≢ b' ') × (x ≢ b':')
    head [] h = absurd h
    head (c ∷ s) h = (c, s, refl, ground arith, ground arith)
