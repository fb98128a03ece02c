-- ===== src/Bus/Words.antt =====
-- What `sscanf` reads by `%255s` and by white space in a format, as services/bb-busd.c uses it.
use imx8mp_building_blocks.Base.{
  ℕ, zero, suc, ◌≤◌, ◌≡◌, refl, [], ◌∷◌, ◌++◌, ◌==◌, leb, if◌then◌else◌, arith, All, Bool, false,
  ◌&&◌, ◌||◌, length,
}
use imx8mp_building_blocks.Base.Bytes.{Bytes}

abbrev pub space : ℕ
space = 32

-- isspace(c)
abbrev pub is_space : ℕ → Bool
is_space c = c == space || (leb 9 c && leb c 13)

unfoldable pub skip_space : Bytes → Bytes
skip_space [] = []
skip_space (c ∷ s) = let rest = skip_space s in if is_space c then rest else c ∷ s

-- At most `n` bytes up to the next white space, and what follows them.
unfoldable pub take_word : ℕ → Bytes → Bytes × Bytes
take_word zero s = ([], s)
take_word (suc n) [] = ([], [])
take_word (suc n) (c ∷ s) =
    let more = take_word n s in if is_space c then ([], c ∷ s) else (c ∷ more.0, more.1)

-- `%<n>s`: an empty word is a failed conversion.
unfoldable pub scan_word : ℕ → Bytes → Bytes × Bytes
unfolding take_word skip_space
scan_word n s = take_word n (skip_space s)

-- A word: bytes that are no white space.
abbrev pub IsWord : Bytes → Type 0
IsWord = All (λ c. is_space c ≡ false)

skip_space-word : (c : ℕ) (w r : Bytes) → IsWord (c ∷ w) → skip_space (c ∷ w ++ r) ≡ c ∷ w ++ r
unfolding skip_space
skip_space-word c w r (hc, h) = rw hc

take_word-word :
    (n : ℕ) (w r : Bytes) → IsWord w → length w ≤ n → take_word n (w ++ space ∷ r) ≡ (w, space ∷ r)
unfolding take_word
take_word-word zero [] r h le = refl
take_word-word zero (c ∷ w) r h le = absurd (omega arith)
take_word-word (suc n) [] r h le = refl
take_word-word (suc n) (c ∷ w) r (hc, h) le = rw (hc, take_word-word n w r h (omega arith))

take_word-end : (n : ℕ) (w : Bytes) → IsWord w → length w ≤ n → take_word n w ≡ (w, [])
unfolding take_word
take_word-end zero [] h le = refl
take_word-end zero (c ∷ w) h le = absurd (omega arith)
take_word-end (suc n) [] h le = refl
take_word-end (suc n) (c ∷ w) (hc, h) le = rw (hc, take_word-end n w h (omega arith))

-- A word behind one space, and ahead of another, is read back.
pub scan_word-word :
    (n c : ℕ) (w r : Bytes)
    → IsWord (c ∷ w)
    → length (c ∷ w) ≤ n
    → scan_word n (space ∷ (c ∷ w) ++ space ∷ r) ≡ (c ∷ w, space ∷ r)
unfolding scan_word
scan_word-word n c w r h le = rw h.0 (take_word-word n (c ∷ w) r h le)

pub scan_word-end :
    (n c : ℕ) (w : Bytes)
    → IsWord (c ∷ w)
    → length (c ∷ w) ≤ n
    → scan_word n (space ∷ c ∷ w) ≡ (c ∷ w, [])
unfolding scan_word
scan_word-end n c w h le = rw h.0 (take_word-end n (c ∷ w) h le)
