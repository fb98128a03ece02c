-- ===== src/Base/Bits.antt =====
-- Laws of `^` on unsigned integers, from the recursion on binary digits that the operation stands for.
use Prim.Native.Nat.{
  ℕ, zero, suc, ◌+◌, ◌*◌, ◌/◌, ◌%◌, ◌^◌, ◌≤◌, ◌<◌, bit_xor, digits, differ, bit_xor-bitwise,
}
use mathlib.Core.Path.{◌≡◌, refl, ap, sym, ◌∙◌}
use native.Mathlib.Omega.{arith}
use native.Mathlib.Nat.{pow-suc}

-- More fuel than the first number changes nothing.
abbrev xor_digits : ℕ → ℕ → ℕ → ℕ
xor_digits fuel a b = digits (λ y. y) differ fuel a b

xor_digits-fuel : (n m a b : ℕ) → a ≤ n → a ≤ m → xor_digits n a b ≡ xor_digits m a b
xor_digits-fuel zero zero a b hn hm = refl
xor_digits-fuel zero (suc m) zero b hn hm = refl
xor_digits-fuel zero (suc m) (suc a) b hn hm = absurd (omega arith)
xor_digits-fuel (suc n) zero zero b hn hm = refl
xor_digits-fuel (suc n) zero (suc a) b hn hm = absurd (omega arith)
xor_digits-fuel (suc n) (suc m) zero b hn hm = refl
xor_digits-fuel (suc n) (suc m) (suc a) b hn hm =
    ap (λ q. q * 2 + differ (suc a % 2) (b % 2))
      (xor_digits-fuel n m (suc a / 2) (b / 2) (omega arith) (omega arith))

zero-bit_xor : (b : ℕ) → bit_xor 0 b ≡ b
zero-bit_xor b = bit_xor-bitwise 0 b

-- The lowest digit.
pub bit_xor_step : (a b : ℕ) → bit_xor a b ≡ bit_xor (a / 2) (b / 2) * 2 + differ (a % 2) (b % 2)
bit_xor_step zero b = omega (arith, zero-bit_xor b, zero-bit_xor (b / 2))
bit_xor_step (suc a) b = omega (
  arith,
  bit_xor-bitwise (suc a) b,
  bit_xor-bitwise (suc a / 2) (b / 2),
  xor_digits-fuel a (suc a / 2) (suc a / 2) (b / 2) (omega arith) (omega arith),
)

differ-lt : (p q : ℕ) → p < 2 → q < 2 → differ p q < 2
differ-lt zero q hp hq = hq
differ-lt (suc zero) zero hp hq = omega arith
differ-lt (suc zero) (suc zero) hp hq = omega arith
differ-lt (suc zero) (suc (suc q)) hp hq = absurd (omega arith)
differ-lt (suc (suc p)) q hp hq = absurd (omega arith)

differ-cancel : (p q r : ℕ) → p < 2 → q < 2 → r < 2 → differ p r ≡ differ q r → p ≡ q
differ-cancel zero zero r hp hq hr e = refl
differ-cancel (suc zero) (suc zero) r hp hq hr e = refl
differ-cancel zero (suc zero) zero hp hq hr e = absurd (omega arith)
differ-cancel zero (suc zero) (suc zero) hp hq hr e = absurd (omega arith)
differ-cancel (suc zero) zero zero hp hq hr e = absurd (omega arith)
differ-cancel (suc zero) zero (suc zero) hp hq hr e = absurd (omega arith)
differ-cancel p q (suc (suc r)) hp hq hr e = absurd (omega arith)
differ-cancel (suc (suc p)) q r hp hq hr e = absurd (omega arith)
differ-cancel p (suc (suc q)) r hp hq hr e = absurd (omega arith)

differ_comm : (p q : ℕ) → differ p q ≡ differ q p
differ_comm zero zero = refl
differ_comm zero (suc q) = refl
differ_comm (suc p) zero = refl
differ_comm (suc p) (suc q) = differ_comm p q

digit : (a b : ℕ) → differ (a % 2) (b % 2) < 2
digit a b = differ-lt (a % 2) (b % 2) (omega arith) (omega arith)

pub bit_xor-half : (a b : ℕ) → bit_xor a b / 2 ≡ bit_xor (a / 2) (b / 2)
bit_xor-half a b = omega (arith, bit_xor_step a b, digit a b)

bit_xor-rest : (a b : ℕ) → bit_xor a b % 2 ≡ differ (a % 2) (b % 2)
bit_xor-rest a b = omega (arith, bit_xor_step a b, digit a b)

bit_xor-zero_fuel : (n a : ℕ) → a ≤ n → bit_xor a 0 ≡ a
bit_xor-zero_fuel n zero h = refl
bit_xor-zero_fuel zero (suc a) h = absurd (omega arith)
bit_xor-zero_fuel (suc n) (suc a) h = omega (
  arith,
  bit_xor_step (suc a) 0,
  bit_xor-zero_fuel n (suc a / 2) (omega arith),
  differ_comm (suc a % 2) 0,
)

pub bit_xor-zero : (a : ℕ) → bit_xor a 0 ≡ a
bit_xor-zero a = bit_xor-zero_fuel a a (omega arith)

cancel_fuel : (n a b k : ℕ) → a ≤ n → b ≤ n → bit_xor a k ≡ bit_xor b k → a ≡ b
cancel_fuel zero a b k ha hb e = omega arith
cancel_fuel (suc n) a b k ha hb e =
    let halves : bit_xor (a / 2) (k / 2) ≡ bit_xor (b / 2) (k / 2) =
      sym (bit_xor-half a k) ∙ ap (λ x. x / 2) e ∙ bit_xor-half b k in
    let rests : differ (a % 2) (k % 2) ≡ differ (b % 2) (k % 2) =
      sym (bit_xor-rest a k) ∙ ap (λ x. x % 2) e ∙ bit_xor-rest b k in
    omega (
      arith,
      cancel_fuel n (a / 2) (b / 2) (k / 2) (omega arith) (omega arith) halves,
      differ-cancel (a % 2) (b % 2) (k % 2) (omega arith) (omega arith) (omega arith) rests,
    )

-- A mask can be taken off again.
pub bit_xor-cancel : (a b k : ℕ) → bit_xor a k ≡ bit_xor b k → a ≡ b
bit_xor-cancel a b k e = cancel_fuel (a + b) a b k (omega arith) (omega arith) e

comm_fuel : (n a b : ℕ) → a ≤ n → b ≤ n → bit_xor a b ≡ bit_xor b a
comm_fuel zero a b ha hb =
    let e : a ≡ b = omega arith in ap (λ x. bit_xor x b) e ∙ ap (bit_xor b) (sym e)
comm_fuel (suc n) a b ha hb = omega (
  arith,
  bit_xor_step a b,
  bit_xor_step b a,
  differ_comm (a % 2) (b % 2),
  comm_fuel n (a / 2) (b / 2) (omega arith) (omega arith),
)

pub bit_xor_comm : (a b : ℕ) → bit_xor a b ≡ bit_xor b a
bit_xor_comm a b = comm_fuel (a + b) a b (omega arith) (omega arith)

-- The result has no more digits than the two numbers.
pub bit_xor-lt : (n a b : ℕ) → a < 2 ^ n → b < 2 ^ n → bit_xor a b < 2 ^ n
bit_xor-lt zero a b ha hb =
    let ea : a ≡ 0 = omega arith in let eb : b ≡ 0 = omega arith in rw (ea, eb) (omega arith)
bit_xor-lt (suc n) a b ha hb = omega (
  arith,
  bit_xor_step a b,
  digit a b,
  pow-suc 2 n,
  bit_xor-lt n (a / 2) (b / 2) (omega (arith, pow-suc 2 n)) (omega (arith, pow-suc 2 n)),
)

-- A top digit that only one of the two has is a digit of the result.
pub bit_xor-top : (n a b : ℕ) → a < 2 ^ n → 2 ^ n ≤ b → b < 2 ^ suc n → 2 ^ n ≤ bit_xor a b
bit_xor-top zero a b ha hb hb' =
    let ea : a ≡ 0 = omega arith in let eb : b ≡ 1 = omega arith in rw (ea, eb) (omega arith)
bit_xor-top (suc n) a b ha hb hb' = omega (
  arith,
  bit_xor_step a b,
  pow-suc 2 n,
  pow-suc 2 (suc n),
  bit_xor-top n (a / 2) (b / 2) (omega (arith, pow-suc 2 n)) (omega (arith, pow-suc 2 n))
      (omega (arith, pow-suc 2 n, pow-suc 2 (suc n))),
)
