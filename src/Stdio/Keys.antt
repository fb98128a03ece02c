-- ===== src/Stdio/Keys.antt =====
-- strstr for a quoted key, over text with strings between quotes.
use imx8mp_building_blocks.Base.{
  ℕ, ◌==◌, ◌≡◌, ◌≢◌, ◌∙◌, refl, Bool, not, ◌&&◌, true, false, [], ◌∷◌, ◌++◌, arith, All, inl, inr,
  Bool-cases,
}
use imx8mp_building_blocks.Base.Bytes.{Bytes, starts_with}
use imx8mp_building_blocks.Bus.Lines.{newline}
use imx8mp_building_blocks.Json.Reader.{after_word}

-- A byte of a string that needs no escape.
abbrev pub IsPlain : ℕ → Type 0
IsPlain c = (c ≢ b'"') × (c ≢ newline) × (c ≢ 0)

-- A key of a value that is a string or not, behind its opening quote.
abbrev pub key : Bytes → Bytes → Bytes
key k w = b'"' ∷ k ++ (b'"' ∷ b':' ∷ w)

after_word-skip :
    (word s : Bytes) (c : ℕ)
    → starts_with word (c ∷ s) ≡ false
    → after_word word (c ∷ s) ≡ after_word word s
unfolding after_word
after_word-skip word s c h = rw h refl

-- A word that starts with a quote is not found among plain bytes.
pub after_word-plain :
    (w v s : Bytes) → All IsPlain v → after_word (b'"' ∷ w) (v ++ s) ≡ after_word (b'"' ∷ w) s
after_word-plain w [] s h = refl
after_word-plain w (c ∷ v) s (hc, h) =
    after_word-skip (b'"' ∷ w) (v ++ s) c (ground (arith, hc.0)) ∙ after_word-plain w v s h

abbrev pub no_quote : Bytes → Bool
no_quote [] = true
no_quote (c ∷ k) = not (c == b'"') && no_quote k

-- A string value is no key: a comma follows its closing quote.
not_key :
    (k w v s : Bytes)
    → no_quote k ≡ true
    → All IsPlain v
    → starts_with (k ++ (b'"' ∷ b':' ∷ w)) (v ++ (b'"' ∷ b',' ∷ s)) ≡ false
not_key [] w [] s hk hv = refl
not_key [] w (c ∷ v) s hk (hc, hv) = ground (arith, hc.0)
not_key (x ∷ k) w [] s hk hv = ground (arith, hk)
not_key (x ∷ k) w (c ∷ v) s hk (hc, hv) = elim (Bool-cases (no_quote k)) [
  | inl rest ↦ ground (arith, not_key k w v s rest hv)
  | inr quoted ↦ ground (arith, hk, quoted)
]

pub after_word-value :
    (k w v s : Bytes)
    → no_quote k ≡ true
    → All IsPlain v
    → after_word (key k w) (b'"' ∷ v ++ (b'"' ∷ b',' ∷ s)) ≡ after_word (key k w) (b'"' ∷ b',' ∷ s)
after_word-value k w v s hk hv =
    after_word-skip (key k w) (v ++ (b'"' ∷ b',' ∷ s)) b'"' (ground (arith, not_key k w v s hk hv))
    ∙ after_word-plain (k ++ (b'"' ∷ b':' ∷ w)) v (b'"' ∷ b',' ∷ s) hv
