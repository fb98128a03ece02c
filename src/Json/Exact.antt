-- ===== src/Json/Exact.antt =====
-- What single calls of the writer of libbb/bb_json.c leave in a buffer that is large enough.
use imx8mp_building_blocks.Base.{
  ℕ, zero, suc, ◌+◌, ◌-◌, ◌≤◌, ◌<◌, ◌≡◌, ◌≢◌, ◌∙◌, refl, ap, sym, true, false, [], ◌∷◌, ◌++◌, ◌==◌,
  ltb, arith, append_assoc, length, take, drop, get_or, set, length-set, length-append, length-take,
  All,
}
use imx8mp_building_blocks.Base.Bytes.{Bytes}
use imx8mp_building_blocks.Json.Writer.{
  Writer, size, write_at, put, trim, terminate, print, c_string,
}

pub take-append : (xs ys : Bytes) → take (length xs) (xs ++ ys) ≡ xs
take-append [] ys = refl
take-append (x ∷ xs) ys = ap (λ r. x ∷ r) (take-append xs ys)

pub length-drop : (n : ℕ) (xs : Bytes) → length (drop n xs) ≡ length xs - n
length-drop zero xs = omega arith
length-drop (suc n) [] = omega arith
length-drop (suc n) (x ∷ xs) = omega (arith, length-drop n xs)

pub take-all : (n : ℕ) (xs : Bytes) → length xs ≤ n → take n xs ≡ xs
take-all zero [] h = refl
take-all (suc n) [] h = refl
take-all zero (x ∷ xs) h = absurd (omega arith)
take-all (suc n) (x ∷ xs) h = ap (λ r. x ∷ r) (take-all n xs (omega arith))

-- The writer of a buffer of `room` bytes that has written `t` so far, all of it in the buffer.
pub record Holds (w : Writer) (t : Bytes) (room : ℕ) : Type 0 where
  pub sized : size w ≡ room
  pub at_end : w.pos ≡ length t
  pub text : take (length t) w.buf ≡ t
  pub inside : w.overrun ≡ false

-- A write behind the text `t` that ends inside the buffer.
module _ (buf t x y : Bytes) (before : take (length t) buf ≡ t)
    (within : length t + length x + length y ≤ length buf) where
  pub length-write_at : length (write_at (length t) (x ++ y) buf) ≡ length buf
  length-write_at = omega (
    arith,
    within,
    length-append (take (length t) buf) ((x ++ y) ++ drop (length t + length (x ++ y)) buf),
    length-append (x ++ y) (drop (length t + length (x ++ y)) buf),
    length-append x y,
    length-take (length t) buf,
    length-drop (length t + length (x ++ y)) buf,
  )

  pub text-write_at : take (length (t ++ x)) (write_at (length t) (x ++ y) buf) ≡ t ++ x
  text-write_at =
      let rest : Bytes = drop (length t + length (x ++ y)) buf in
      ap (λ u. take (length (t ++ x)) (u ++ ((x ++ y) ++ rest))) before
      ∙ ap (λ u. take (length (t ++ x)) (t ++ u)) (append_assoc x y rest)
      ∙ ap (take (length (t ++ x))) (sym (append_assoc t x (y ++ rest)))
      ∙ take-append (t ++ x) (y ++ rest)

-- A text that fits, with its NUL.
pub print-Holds :
    (x : Bytes) (w : Writer) (t : Bytes) (room : ℕ)
    → Holds w t room
    → length t + length x < room
    → Holds (print x w) (t ++ x) room
unfolding print
print-Holds x w t room v fits =
    rw (behind, full)
      (record {
        sized = ap length same ∙ length-write_at w.buf t x (0 ∷ []) v.text within ∙ v.sized;
        at_end = omega (arith, v.at_end, length-append t x);
        text = ap (take (length (t ++ x))) same ∙ text-write_at w.buf t x (0 ∷ []) v.text within;
        inside = v.inside;
      })
  where
    behind : ltb (size w) w.pos ≡ false
    behind = ground (arith, v.sized, v.at_end)

    full : (w.pos == size w) ≡ false
    full = ground (arith, v.sized, v.at_end)

    within : length t + length x + 1 ≤ size w
    within = omega (arith, v.sized)

    same :
        write_at w.pos (take (size w - w.pos - 1) x ++ 0 ∷ []) w.buf
        ≡ write_at (length t) (x ++ 0 ∷ []) w.buf
    same =
        ap (λ b. write_at w.pos (b ++ 0 ∷ []) w.buf)
          (take-all (size w - w.pos - 1) x (omega (arith, v.sized, v.at_end)))
        ∙ ap (λ k. write_at k (x ++ 0 ∷ []) w.buf) v.at_end

pub set-write_at : (buf : Bytes) (k c : ℕ) → k < length buf → set buf k c ≡ write_at k (c ∷ []) buf
set-write_at [] k c h = absurd (omega arith)
set-write_at (x ∷ buf) zero c h = refl
set-write_at (x ∷ buf) (suc k) c h =
    ap (λ r. x ∷ r) (set-write_at buf k c (omega arith))
    ∙ ap (λ m. x ∷ (take k buf ++ (c ∷ drop m (x ∷ buf)))) e
  where
    e : suc (k + 1) ≡ suc k + 1
    e = omega arith

pub put-Holds :
    (c : ℕ) (w : Writer) (t : Bytes) (room : ℕ)
    → Holds w t room
    → length t < room
    → Holds (put c w) (t ++ c ∷ []) room
unfolding put
put-Holds c w t room v fits = rw space (record {
  sized = length-set w.buf w.pos c ∙ v.sized;
  at_end = omega (arith, v.at_end, length-append t (c ∷ []));
  text = ap (take (length (t ++ c ∷ []))) same ∙ text-write_at w.buf t (c ∷ []) [] v.text within;
  inside = v.inside;
})
  where
    space : ltb w.pos (size w) ≡ true
    space = ground (arith, v.sized, v.at_end)

    within : length t + 1 + 0 ≤ size w
    within = omega (arith, v.sized)

    same : set w.buf w.pos c ≡ write_at (length t) (c ∷ []) w.buf
    same =
        ap (λ k. set w.buf k c) v.at_end ∙ set-write_at w.buf (length t) c (omega (arith, v.sized))

pub get_or-take : (n i : ℕ) (xs : Bytes) → i < n → get_or (take n xs) i 0 ≡ get_or xs i 0
get_or-take zero i xs h = absurd (omega arith)
get_or-take (suc n) i [] h = refl
get_or-take (suc n) zero (x ∷ xs) h = refl
get_or-take (suc n) (suc i) (x ∷ xs) h = get_or-take n i xs (omega arith)

pub get_or-end : (t : Bytes) (c : ℕ) → get_or (t ++ c ∷ []) (length t) 0 ≡ c
get_or-end [] c = refl
get_or-end (x ∷ t) c = get_or-end t c

pub take-take : (m n : ℕ) (xs : Bytes) → m ≤ n → take m (take n xs) ≡ take m xs
take-take zero n xs h = refl
take-take (suc m) zero xs h = absurd (omega arith)
take-take (suc m) (suc n) [] h = refl
take-take (suc m) (suc n) (x ∷ xs) h = ap (λ r. x ∷ r) (take-take m n xs (omega arith))

-- A comma at the end is taken back.
pub trim-Holds :
    (w : Writer) (t : Bytes) (room : ℕ)
    → Holds w (t ++ b',' ∷ []) room
    → 0 < length t
    → Holds (trim w) t room
unfolding trim
trim-Holds w t room v some_text =
    rw (long, comma)
      (record {
        sized = v.sized;
        at_end = omega (arith, v.at_end, grown);
        text =
            sym (take-take (length t) (length (t ++ b',' ∷ [])) w.buf (omega (arith, grown)))
            ∙ ap (take (length t)) v.text
            ∙ take-append t (b',' ∷ []);
        inside = v.inside;
      })
  where
    grown : length (t ++ b',' ∷ []) ≡ length t + 1
    grown = length-append t (b',' ∷ [])

    long : ltb 1 w.pos ≡ true
    long = ground (arith, v.at_end, grown)

    last : get_or w.buf (w.pos - 1) 0 ≡ b','
    last =
        sym
          (get_or-take (length (t ++ b',' ∷ [])) (w.pos - 1) w.buf (omega (arith, grown, v.at_end)))
        ∙ ap (λ u. get_or u (w.pos - 1) 0) v.text
        ∙ ap (λ k. get_or (t ++ b',' ∷ []) k 0) (omega (arith, grown, v.at_end))
        ∙ get_or-end t b','

    comma : (get_or w.buf (w.pos - 1) 0 == b',') ≡ true
    comma = ap (λ c. c == b',') last

pub trim-brace : (w : Writer) (room : ℕ) → Holds w (b'{' ∷ []) room → trim w ≡ w
unfolding trim
trim-brace w room v = let short : ltb 1 w.pos ≡ false = ground (arith, v.at_end) in rw short refl

pub c_string-set :
    (buf t : Bytes)
    → take (length t) buf ≡ t
    → length t < length buf
    → All (λ c. c ≢ 0) t
    → c_string (set buf (length t) 0) ≡ t
unfolding c_string
c_string-set [] t e h clean = absurd (omega arith)
c_string-set (b ∷ buf) [] e h clean = refl
c_string-set (b ∷ buf) (c ∷ t) e h (hc, clean) =
    let first : b ≡ c = ap (λ l. get_or l 0 0) e in
    let others : take (length t) buf ≡ t = ap (drop 1) e in
    ground (arith, c_string-set buf t others (omega arith) clean, first)

-- The string that is left when the object is closed.
pub terminate-reads :
    (w : Writer) (t : Bytes) (room : ℕ)
    → Holds w t room
    → length t < room
    → All (λ c. c ≢ 0) t
    → c_string (terminate w).buf ≡ t
unfolding terminate
terminate-reads w t room v fits clean =
    let space : ltb w.pos (size w) ≡ true = ground (arith, v.sized, v.at_end) in
    rw space (
      ap (λ k. c_string (set w.buf k 0)) v.at_end
      ∙ c_string-set w.buf t v.text (omega (arith, v.sized)) clean)
