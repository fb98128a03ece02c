-- ===== src/Persist/Mfg/Detect.antt =====
-- bb_mfg_read accepts what its check sum cannot tell from intact data, and no more: the theorems about it
-- and about the functions that give single fields.
use imx8mp_building_blocks.Base.{
  drop_all, ℕ, zero, suc, ◌-◌, ◌<◌, ◌≤◌, ◌==◌, ◌≡◌, ◌≢◌, ◌∙◌, refl, ap, sym, Bool, true, false,
  ◌&&◌, some, [], ◌∷◌, ◌++◌, if◌then◌else◌, length, take, drop, get_or, replicate, arith, inl, inr,
  Bool-cases, length-take, append-nil, ==_iff,
}
use imx8mp_building_blocks.Base.Bytes.{Bytes}
use imx8mp_building_blocks.Base.Words.{minus_one}
use imx8mp_building_blocks.Json.Writer.{c_string}
use imx8mp_building_blocks.Persist.Mfg.{
  mfg_size, crc_from, stored_crc, is_intact, Cache, mfg_read, MfgField, offset, mfg_field,
}
use imx8mp_building_blocks.Persist.Mfg.Crc.{IsBytes, crc_from-ne}

take-around :
    (n : ℕ) (pre post : Bytes) (b : ℕ)
    → length pre < n
    → take n (pre ++ b ∷ post) ≡ pre ++ b ∷ take (n - length pre - 1) post
take-around zero pre post b h = absurd (omega arith)
take-around (suc n) [] post b h =
    let e : n ≡ suc n - 0 - 1 = omega arith in ap (λ k. b ∷ take k post) e
take-around (suc n) (x ∷ pre) post b h =
    let e : n - length pre - 1 ≡ suc n - suc (length pre) - 1 = omega arith in
    ap (λ u. x ∷ u) (take-around n pre post b (omega arith) ∙ ap (λ k. pre ++ b ∷ take k post) e)

IsBytes-take : (n : ℕ) (s : Bytes) → IsBytes s → IsBytes (take n s)
IsBytes-take zero s h = tt
IsBytes-take (suc n) [] h = tt
IsBytes-take (suc n) (c ∷ s) (hc, h) = (hc, IsBytes-take n s h)

get_or-elsewhere :
    (pre post : Bytes) (b c i : ℕ)
    → length pre < i
    → get_or (pre ++ b ∷ post) i 0 ≡ get_or (pre ++ c ∷ post) i 0
get_or-elsewhere [] post b c zero h = absurd (omega arith)
get_or-elsewhere [] post b c (suc i) h = refl
get_or-elsewhere (x ∷ pre) post b c zero h = absurd (omega arith)
get_or-elsewhere (x ∷ pre) post b c (suc i) h = get_or-elsewhere pre post b c i (omega arith)

mfg_read-status :
    (content out : Bytes) (k : Cache)
    → k.loaded ≡ false
    → (mfg_read (some content) out k).status
      ≡ (if is_intact (take mfg_size content) then 0 else minus_one)
unfolding mfg_read
mfg_read-status content out k cold = elim (Bool-cases (is_intact (take mfg_size content))) [
  | inl good ↦ rw (cold, good) refl
  | inr bad ↦ rw (cold, bad) refl
]

and-right : (a b : Bool) → (a && b) ≡ true → b ≡ true
and-right true b h = h
and-right false b h = absurd (cc)

good_status : (g : Bool) → (if g then 0 else minus_one) ≡ 0 → g ≡ true
good_status true h = refl
good_status false h = absurd (omega arith)

is_intact-crc : (got : Bytes) → is_intact got ≡ true → crc_from 0 (take 188 got) ≡ stored_crc got
unfolding is_intact
is_intact-crc got h = (==_iff _ _).0 (and-right (length got == mfg_size) _ h)

module _ (pre post : Bytes) (b c : ℕ) (before : length pre < 188) (b_ne_c : b ≢ c) (hb : b < 256)
    (hc : c < 256) (hpre : IsBytes pre) (hpost : IsBytes post) where
  abbrev got : ℕ → Bytes
  got x = pre ++ x ∷ take (192 - length pre - 1) post

  same_stored : stored_crc (got b) ≡ stored_crc (got c)
  same_stored =
      let rest = take (192 - length pre - 1) post in
      omega (
        arith,
        get_or-elsewhere pre rest b c 188 (omega arith),
        get_or-elsewhere pre rest b c 189 (omega arith),
        get_or-elsewhere pre rest b c 190 (omega arith),
        get_or-elsewhere pre rest b c 191 (omega arith),
      )

  not_both : is_intact (got b) ≡ true → is_intact (got c) ≡ true → ⊥
  not_both hb' hc' =
      let rest = take (192 - length pre - 1) post in
      let hrest : IsBytes rest = IsBytes-take (192 - length pre - 1) post hpost in
      b_ne_c (
        crc_from-ne pre (take (188 - length pre - 1) rest) b c 0 hpre
          (IsBytes-take (188 - length pre - 1) rest hrest) hb hc (omega arith)
          (ap (crc_from 0) (sym (take-around 188 pre rest b before))
            ∙ is_intact-crc (got b) hb'
            ∙ same_stored
            ∙ sym (is_intact-crc (got c) hc')
            ∙ ap (crc_from 0) (take-around 188 pre rest c before)))

  -- If bb_mfg_read accepts the data on a partition, it refuses any partition that differs in one byte of
  -- the data ahead of the check sum. The data have not been read before.
  pub mfg_read-detects :
      (out out' : Bytes) (k k' : Cache)
      → k.loaded ≡ false
      → k'.loaded ≡ false
      → (mfg_read (some (pre ++ b ∷ post)) out k).status ≡ 0
      → (mfg_read (some (pre ++ c ∷ post)) out' k').status ≡ minus_one
  mfg_read-detects out out' k k' cold cold' accepted = elim (Bool-cases (is_intact (got c))) [
    | inl good ↦ absurd (not_both intact good)
    | inr bad ↦
        mfg_read-status (pre ++ c ∷ post) out' k' cold'
        ∙ ap (λ g. if is_intact g then 0 else minus_one) (take-around 192 pre post c (omega arith))
        ∙ rw bad refl
  ]
    where
      intact : is_intact (got b) ≡ true
      intact = good_status (is_intact (got b)) (
          ap (λ g. if is_intact g then 0 else minus_one)
            (sym (take-around 192 pre post b (omega arith)))
          ∙ sym (mfg_read-status (pre ++ b ∷ post) out k cold)
          ∙ accepted)

take-replicate : (n m a : ℕ) → n ≤ m → take n (replicate m a) ≡ replicate n a
take-replicate zero m a h = refl
take-replicate (suc n) zero a h = absurd (omega arith)
take-replicate (suc n) (suc m) a h = ap (λ u. a ∷ u) (take-replicate n m a (omega arith))

is_intact-blank : is_intact (replicate 192 0) ≡ true
unfolding is_intact
is_intact-blank = refl

-- A partition of zeros, like one that was never written, is accepted as manufacturing data.
pub mfg_read-blank :
    (n : ℕ) (out : Bytes) (k : Cache)
    → k.loaded ≡ false
    → 192 ≤ n
    → (mfg_read (some (replicate n 0)) out k).status ≡ 0
mfg_read-blank n out k cold long =
    mfg_read-status (replicate n 0) out k cold
    ∙ ap (λ g. if is_intact g then 0 else minus_one) (take-replicate 192 n 0 long)
    ∙ rw is_intact-blank refl

-- If bb_mfg_read fails on data whose check sum is wrong, bb_mfg_serial and the other two give the text of
-- their field in those data all the same.
pub mfg_field-unverified :
    (f : MfgField) (content : Bytes) (k : Cache)
    → k.loaded ≡ false
    → length k.copy ≡ mfg_size
    → mfg_size ≤ length content
    → is_intact (take mfg_size content) ≡ false
    → ((mfg_read (some content) k.copy k).status ≡ minus_one)
      × ((mfg_field f (some content) k).0 ≡ c_string (drop (offset f) (take mfg_size content)))
unfolding mfg_field
mfg_field-unverified f content k cold sized long bad =
    (mfg_read-status content k.copy k cold ∙ rw bad refl, field_read)
  where
    emptied : drop (length (take mfg_size content)) k.copy ≡ []
    emptied = drop_all k.copy _ (omega (arith, length-take mfg_size content))

    field_read :
        (mfg_field f (some content) k).0 ≡ c_string (drop (offset f) (take mfg_size content))
    field_read = rw (cold, bad, emptied, append-nil (take mfg_size content)) refl
