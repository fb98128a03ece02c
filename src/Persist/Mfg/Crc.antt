-- ===== src/Persist/Mfg/Crc.antt =====
-- What the check sum of the manufacturing data detects, and what it lets pass.
use Prim.Native.Nat.{bit_xor}
use imx8mp_building_blocks.Base.{
  ℕ, zero, suc, ◌/◌, ◌%◌, ◌^◌, ◌<◌, ◌≤◌, ◌==◌, ◌≡◌, ◌∙◌, refl, sym, [], ◌∷◌, ◌++◌, All, arith, inl,
  inr, Bool-cases,
}
use imx8mp_building_blocks.Base.Bytes.{Bytes}
use imx8mp_building_blocks.Base.Bits.{
  bit_xor-cancel, bit_xor_comm, bit_xor-lt, bit_xor-top, bit_xor-zero,
}
use imx8mp_building_blocks.Persist.Mfg.{poly, crc_bit, crc_bits, crc_from}

poly_fits : poly < 2 ^ 32
poly_fits = omega arith

crc_bit-lt : (c : ℕ) → c < 2 ^ 32 → crc_bit c < 2 ^ 32
unfolding crc_bit
crc_bit-lt c h = elim (Bool-cases (c % 2 == 1)) [
  | inl odd ↦ rw odd (bit_xor-lt 32 (c / 2) poly (omega arith) poly_fits)
  | inr even ↦ rw even (bit_xor-lt 32 (c / 2) 0 (omega arith) (omega arith))
]

odd-top : (c : ℕ) → c < 2 ^ 32 → c % 2 ≡ 1 → 2 ^ 31 ≤ crc_bit c
unfolding crc_bit
odd-top c h e = rw e (bit_xor-top 31 (c / 2) poly (omega arith) (omega arith) (omega arith))

even-half : (c : ℕ) → c % 2 ≡ 0 → crc_bit c ≡ c / 2
unfolding crc_bit
even-half c e = rw e (bit_xor-zero (c / 2))

odd-half : (c : ℕ) → c % 2 ≡ 1 → crc_bit c ≡ bit_xor (c / 2) poly
unfolding crc_bit
odd-half c e = rw e refl

-- One round can be undone: the top digit of its result tells whether the polynomial was added.
crc_bit-cancel : (c d : ℕ) → c < 2 ^ 32 → d < 2 ^ 32 → crc_bit c ≡ crc_bit d → c ≡ d
crc_bit-cancel c d hc hd e = elim (Bool-cases (c % 2 == 1)) [
  | inl odd_c ↦ elim (Bool-cases (d % 2 == 1)) [
    | inl odd_d ↦
        let oc : c % 2 ≡ 1 = ground arith in
        let od : d % 2 ≡ 1 = ground arith in
        let halves =
          bit_xor-cancel (c / 2) (d / 2) poly (sym (odd-half c oc) ∙ e ∙ odd-half d od) in
        omega arith
    | inr even_d ↦
        let oc : c % 2 ≡ 1 = ground arith in
        let ed : d % 2 ≡ 0 = ground arith in absurd (omega (arith, odd-top c hc oc, even-half d ed))
  ]
  | inr even_c ↦
      let ec : c % 2 ≡ 0 = ground arith in
      elim (Bool-cases (d % 2 == 1)) [
        | inl odd_d ↦
            let od : d % 2 ≡ 1 = ground arith in
            absurd (omega (arith, odd-top d hd od, even-half c ec))
        | inr even_d ↦
            let ed : d % 2 ≡ 0 = ground arith in omega (arith, even-half c ec, even-half d ed)
      ]
]

crc_bits-lt : (n c : ℕ) → c < 2 ^ 32 → crc_bits n c < 2 ^ 32
unfolding crc_bits
crc_bits-lt zero c h = h
crc_bits-lt (suc n) c h = crc_bits-lt n (crc_bit c) (crc_bit-lt c h)

crc_bits-cancel : (n c d : ℕ) → c < 2 ^ 32 → d < 2 ^ 32 → crc_bits n c ≡ crc_bits n d → c ≡ d
unfolding crc_bits
crc_bits-cancel zero c d hc hd e = e
crc_bits-cancel (suc n) c d hc hd e =
    crc_bit-cancel c d hc hd
      (crc_bits-cancel n (crc_bit c) (crc_bit d) (crc_bit-lt c hc) (crc_bit-lt d hd) e)

abbrev pub IsBytes : Bytes → Type 0
IsBytes = All (λ c. c < 256)

mixed-lt : (c b : ℕ) → c < 2 ^ 32 → b < 256 → bit_xor c b < 2 ^ 32
mixed-lt c b hc hb = bit_xor-lt 32 c b hc (omega arith)

crc_from-lt : (s : Bytes) (c : ℕ) → IsBytes s → c < 2 ^ 32 → crc_from c s < 2 ^ 32
unfolding crc_from
crc_from-lt [] c h hc = hc
crc_from-lt (b ∷ s) c (hb, h) hc =
    crc_from-lt s _ h (crc_bits-lt 8 (bit_xor c b) (mixed-lt c b hc hb))

-- Two states that differ still differ behind the same bytes.
crc_from-cancel :
    (s : Bytes) (c d : ℕ)
    → IsBytes s
    → c < 2 ^ 32
    → d < 2 ^ 32
    → crc_from c s ≡ crc_from d s
    → c ≡ d
unfolding crc_from
crc_from-cancel [] c d h hc hd e = e
crc_from-cancel (b ∷ s) c d (hb, h) hc hd e = bit_xor-cancel c d b (
    crc_bits-cancel 8 _ _ (mixed-lt c b hc hb) (mixed-lt d b hd hb) (
      crc_from-cancel s _ _ h (crc_bits-lt 8 _ (mixed-lt c b hc hb))
        (crc_bits-lt 8 _ (mixed-lt d b hd hb)) e))

crc_from-append : (s t : Bytes) (c : ℕ) → crc_from c (s ++ t) ≡ crc_from (crc_from c s) t
unfolding crc_from
crc_from-append [] t c = refl
crc_from-append (b ∷ s) t c = crc_from-append s t _

-- Texts that differ in one byte have different check sums.
pub crc_from-ne :
    (pre post : Bytes) (b c crc : ℕ)
    → IsBytes pre
    → IsBytes post
    → b < 256
    → c < 256
    → crc < 2 ^ 32
    → crc_from crc (pre ++ b ∷ post) ≡ crc_from crc (pre ++ c ∷ post)
    → b ≡ c
unfolding crc_from
crc_from-ne [] post b c crc hpre hpost hb hc h e =
    let mixed = crc_bits-cancel 8 _ _ (mixed-lt crc b h hb) (mixed-lt crc c h hc) (
      crc_from-cancel post _ _ hpost (crc_bits-lt 8 _ (mixed-lt crc b h hb))
        (crc_bits-lt 8 _ (mixed-lt crc c h hc)) e) in
    bit_xor-cancel b c crc (bit_xor_comm b crc ∙ mixed ∙ bit_xor_comm crc c)
crc_from-ne (x ∷ pre) post b c crc (hx, hpre) hpost hb hc h e =
    crc_from-ne pre post b c _ hpre hpost hb hc (crc_bits-lt 8 _ (mixed-lt crc x h hx)) e
