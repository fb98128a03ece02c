-- ===== src/Stdio/Lines.antt =====
-- fgets over a file of whole lines that fit its buffer gives them one by one.
use imx8mp_building_blocks.Base.{
  ℕ, zero, suc, ◌+◌, ◌-◌, ◌≤◌, ◌≡◌, ◌≢◌, ◌∙◌, refl, ap, sym, false, List, [], ◌∷◌, ◌++◌, ◌==◌,
  arith, append_assoc, length, All, map,
}
use imx8mp_building_blocks.Base.Bytes.{Bytes}
use imx8mp_building_blocks.Bus.Lines.{newline}
use imx8mp_building_blocks.Stdio.{fgets_from, fgets_all}

-- A line that fits a buffer of `size` bytes with its newline and a NUL.
pub record IsLine (size : ℕ) (l : Bytes) : Type 0 where
  pub whole : All (λ c. c ≢ newline) l
  pub short : length l + 2 ≤ size

abbrev pub ended : Bytes → Bytes
ended l = l ++ newline ∷ []

-- A file of whole lines.
unfoldable pub unlines : List Bytes → Bytes
unlines [] = []
unlines (l ∷ ls) = ended l ++ unlines ls

fgets_from-line :
    (cap room : ℕ) (chunk l s : Bytes)
    → All (λ c. c ≢ newline) l
    → length l ≤ room
    → fgets_from cap room chunk (l ++ newline ∷ s) ≡ (chunk ++ ended l) ∷ fgets_from cap cap [] s
unfolding fgets_from
fgets_from-line cap zero chunk [] s h fits = refl
fgets_from-line cap (suc room) chunk [] s h fits = refl
fgets_from-line cap zero chunk (c ∷ l) s h fits = absurd (omega arith)
fgets_from-line cap (suc room) chunk (c ∷ l) s (hc, h) fits =
    let inner : (c == newline) ≡ false = ground arith in
    rw inner (
      fgets_from-line cap room (chunk ++ c ∷ []) l s h (omega arith)
      ∙ ap (λ u. u ∷ fgets_from cap cap [] s) (append_assoc chunk (c ∷ []) (ended l)))

pub fgets_all-unlines :
    (size : ℕ) (ls : List Bytes) → All (IsLine size) ls → fgets_all size (unlines ls) ≡ map ended ls
unfolding fgets_all fgets_from unlines
fgets_all-unlines size [] h = refl
fgets_all-unlines size (l ∷ ls) (hl, h) =
    let cap = size - 2 in
    ap (fgets_from cap cap []) (append_assoc l (newline ∷ []) (unlines ls))
    ∙ fgets_from-line cap cap [] l (unlines ls) hl.whole (omega (arith, hl.short))
    ∙ ap (λ u. ended l ∷ u) (fgets_all-unlines size ls h)

pub unlines-append : (ls ms : List Bytes) → unlines (ls ++ ms) ≡ unlines ls ++ unlines ms
unfolding unlines
unlines-append [] ms = refl
unlines-append (l ∷ ls) ms =
    ap (λ u. ended l ++ u) (unlines-append ls ms)
    ∙ sym (append_assoc (ended l) (unlines ls) (unlines ms))
