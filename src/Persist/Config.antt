-- ===== src/Persist/Config.antt =====
-- Setting a value of a configuration file of libbb/bb_persist.c, and reading it again.
use imx8mp_building_blocks.Base.{
  ℕ, suc, ◌+◌, ◌≤◌, ◌≡◌, ◌≢◌, ◌∙◌, refl, ap, sym, Bool, true, false, ◌&&◌, Option, some, List, [],
  ◌∷◌, ◌++◌, ◌==◌, if◌then◌else◌, arith, inl, inr, Bool-cases, if_keeps, append_assoc, append-nil,
  length, drop, get_or, All, All-append, length-append, map,
}
use imx8mp_building_blocks.Base.Bytes.{Bytes, starts_with-append}
use imx8mp_building_blocks.Bus.Lines.{newline}
use imx8mp_building_blocks.Json.Writer.{c_string}
use imx8mp_building_blocks.Stdio.{fgets_all}
use imx8mp_building_blocks.Stdio.Lines.{IsLine, ended, unlines, fgets_all-unlines, unlines-append}
use imx8mp_building_blocks.Persist.{
  matches, strip_end, find_value, config_get, entry, replace, config_set,
}

strip_end-value : (v : Bytes) → All (λ c. (c ≢ newline) × (c ≢ 13)) v → strip_end (ended v) ≡ v
unfolding strip_end
strip_end-value [] h = refl
strip_end-value (c ∷ []) ((no_nl, no_cr), h) = ground arith
strip_end-value (c ∷ d ∷ v) (hc, h) = rw (strip_end-value (d ∷ v) h) refl

get_or-behind : (k : Bytes) (c : ℕ) (s : Bytes) → get_or (k ++ c ∷ s) (length k) 0 ≡ c
get_or-behind [] c s = refl
get_or-behind (x ∷ k) c s = get_or-behind k c s

drop-behind : (k : Bytes) (c : ℕ) (s : Bytes) → drop (length k + 1) (k ++ c ∷ s) ≡ s
drop-behind [] c s = refl
drop-behind (x ∷ k) c s =
    let e : suc (length k) + 1 ≡ suc (length k + 1) = omega arith in
    ap (λ n. drop n (x ∷ (k ++ c ∷ s))) e ∙ drop-behind k c s

no_newline : (v : Bytes) → All (λ c. (c ≢ newline) × (c ≢ 13)) v → All (λ c. c ≢ newline) v
no_newline [] h = tt
no_newline (c ∷ v) (hc, h) = (hc.0, no_newline v h)

abbrev pub NoNul : Bytes → Type 0
NoNul = All (λ c. c ≢ 0)

c_string-ended : (l : Bytes) → NoNul l → c_string (ended l) ≡ ended l
unfolding c_string
c_string-ended [] h = refl
c_string-ended (c ∷ l) (hc, h) =
    let first : (c == 0) ≡ false = ground (arith, hc) in
    rw first (ap (λ s. c ∷ s) (c_string-ended l h))

module _ (key value : Bytes) (key_line : All (λ c. c ≢ newline) key)
    (value_line : All (λ c. (c ≢ newline) × (c ≢ 13)) value)
    (fits : length key + length value + 1 ≤ 510) where
  abbrev pair : Bytes
  pair = key ++ b'=' ∷ value

  -- The lines of the file after a change.
  renewed : List Bytes → List Bytes
  renewed [] = []
  renewed (l ∷ ls) = (if matches key (ended l) then pair else l) ∷ renewed ls

  found : List Bytes → Bool
  found [] = false
  found (l ∷ ls) = if matches key (ended l) then true else found ls

  replace-renewed :
      (ls : List Bytes)
      → All NoNul ls
      → replace key value (map ended ls) ≡ (unlines (renewed ls), found ls)
  unfolding replace renewed found unlines
  replace-renewed [] h = refl
  replace-renewed (l ∷ ls) (hl, h) = elim (Bool-cases (matches key (ended l))) [
    | inl yes_ ↦ rw yes_ (rw (replace-renewed ls h) refl)
    | inr no_ ↦ rw no_ (rw (replace-renewed ls h, c_string-ended l hl) refl)
  ]

  ended-pair : ended pair ≡ key ++ b'=' ∷ ended value
  ended-pair = append_assoc key (b'=' ∷ value) (newline ∷ [])

  matches-pair : matches key (ended pair) ≡ true
  unfolding matches
  matches-pair =
      ap (matches key) ended-pair
      ∙ ap (λ b. b && get_or (key ++ b'=' ∷ ended value) (length key) 0 == b'=')
          (starts_with-append key (b'=' ∷ ended value))
      ∙ ap (λ c. c == b'=') (get_or-behind key b'=' (ended value))

  drop-pair : drop (length key + 1) (ended pair) ≡ ended value
  drop-pair = ap (drop (length key + 1)) ended-pair ∙ drop-behind key b'=' (ended value)

  IsLine-pair : IsLine 512 pair
  IsLine-pair = record {
    whole = All-append _ key (b'=' ∷ value) key_line (omega arith, no_newline value value_line);
    short = omega (arith, length-append key (b'=' ∷ value));
  }

  renewed-IsLine : (ls : List Bytes) → All (IsLine 512) ls → All (IsLine 512) (renewed ls)
  unfolding renewed
  renewed-IsLine [] h = tt
  renewed-IsLine (l ∷ ls) (hl, h) =
      (if_keeps (IsLine 512) (matches key (ended l)) IsLine-pair hl, renewed-IsLine ls h)

  find_value-pair : (ls : List Bytes) → find_value key (ended pair ∷ ls) ≡ some value
  unfolding find_value
  find_value-pair ls =
      rw matches-pair
        (ap (λ u. some (strip_end u)) drop-pair ∙ ap some (strip_end-value value value_line))

  find_value-renewed :
      (ls : List Bytes) → find_value key (map ended (renewed ls ++ pair ∷ [])) ≡ some value
  unfolding find_value renewed
  find_value-renewed [] = find_value-pair []
  find_value-renewed (l ∷ ls) = elim (Bool-cases (matches key (ended l))) [
    | inl yes_ ↦ rw yes_ (find_value-pair (map ended (renewed ls ++ pair ∷ [])))
    | inr no_ ↦ rw no_ (rw no_ (find_value-renewed ls))
  ]

  find_value-found :
      (ls : List Bytes) → found ls ≡ true → find_value key (map ended (renewed ls)) ≡ some value
  unfolding find_value renewed found
  find_value-found [] h = absurd (cc)
  find_value-found (l ∷ ls) h = elim (Bool-cases (matches key (ended l))) [
    | inl yes_ ↦ rw yes_ (find_value-pair (map ended (renewed ls)))
    | inr no_ ↦ rw no_ (rw no_ (find_value-found ls (rw no_ at h)))
  ]

  -- What bb_persist_config_set writes over a file of whole lines.
  set-lines :
      (ls : List Bytes)
      → All (IsLine 512) ls
      → All NoNul ls
      → (config_set true (some (unlines ls)) key value).1
        ≡ some (if found ls then unlines (renewed ls) else unlines (renewed ls) ++ entry key value)
  unfolding config_set
  set-lines ls h nul =
      ap (λ lines. after (replace key value lines)) (fgets_all-unlines 512 ls h)
      ∙ ap after (replace-renewed ls nul)
    where
      after : Bytes × Bool → Option Bytes
      after (out, replaced) = some (if replaced then out else out ++ entry key value)

  -- A value that is set in a file of whole lines without NULs is read back, whether its key was there or not. Key, value
  -- and '=' fit the buffer with their newline, neither holds one, and the value holds no carriage return.
  pub config_set-get :
      (ls : List Bytes)
      → All (IsLine 512) ls
      → All NoNul ls
      → config_get (config_set true (some (unlines ls)) key value).1 key ≡ some value
  unfolding config_get unlines
  config_set-get ls h nul =
      ap (λ f. config_get f key) (set-lines ls h nul) ∙ (elim (Bool-cases (found ls)) [
        | inl there ↦ rw there (
            ap (find_value key) (fgets_all-unlines 512 (renewed ls) (renewed-IsLine ls h))
            ∙ find_value-found ls there)
        | inr missing ↦ rw missing (
            ap (λ u. find_value key (fgets_all 512 u)) grown
            ∙ ap (find_value key) (fgets_all-unlines 512 (renewed ls ++ pair ∷ []) lines)
            ∙ find_value-renewed ls)
      ])
    where
      grown : unlines (renewed ls) ++ entry key value ≡ unlines (renewed ls ++ pair ∷ [])
      grown =
          ap (λ u. unlines (renewed ls) ++ u) (sym (append-nil (entry key value)))
          ∙ sym (unlines-append (renewed ls) (pair ∷ []))

      lines : All (IsLine 512) (renewed ls ++ pair ∷ [])
      lines = All-append _ (renewed ls) (pair ∷ []) (renewed-IsLine ls h) (IsLine-pair, tt)
