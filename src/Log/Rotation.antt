-- ===== src/Log/Rotation.antt =====
-- The size of the log file of libbb/bb_log.c, and what a rotation keeps.
use imx8mp_building_blocks.Base.{
  ℕ, zero, suc, ◌+◌, ◌-◌, ◌/◌, ◌%◌, ◌^◌, ◌≤◌, ◌<◌, ◌≡◌, ◌∙◌, refl, ap, true, not, ◌&&◌, ◌||◌, [],
  ◌∷◌, ◌++◌, if◌then◌else◌, arith, inl, inr, Bool-cases, if_keeps, length, take, replicate,
  length-append, append-nil, length-take, length-replicate, ltb,
}
use imx8mp_building_blocks.Base.Bytes.{Bytes}
use imx8mp_building_blocks.Log.{Log, Written, to_file, log_write, resize, size_mod, line_of}

-- The size that is kept covers the file, and is within the limit.
pub record IsBounded (g : Log) : Type 0 where
  pub limit : g.max_size < 2 ^ 63
  pub size : g.current_size ≤ g.max_size
  pub file : length g.file ≤ g.current_size

length-resize : (n : ℕ) (file : Bytes) → length (resize n file) ≡ n
length-resize n file = omega (
  arith,
  length-append (take n file) (replicate (n - length file) 0),
  length-take n file,
  length-replicate {A = ℕ} (n - length file) 0,
)

to_file-IsBounded :
    (stored : ℕ) (line : Bytes) (g : Log)
    → length line < 2 ^ 63
    → IsBounded g
    → IsBounded (to_file stored true line g)
unfolding to_file
to_file-IsBounded stored line g short v =
    elim (Bool-cases (ltb g.max_size ((g.current_size + length line) % size_mod))) [
      | inl over ↦ rw over (record {
        limit = v.limit;
        size = omega arith;
        file = omega (arith, length-resize (g.max_size / 2) (g.file ++ take stored line));
      })
      | inr within ↦ rw within (record {
        limit = v.limit;
        size = ground arith;
        file = omega (
          arith,
          v.file,
          v.size,
          v.limit,
          short,
          length-append g.file (take stored line),
          length-take stored line,
        );
      })
    ]

AfterWrite : Written → Type 0
AfterWrite r = IsBounded r.log

-- A log whose count covers its file and is within a limit below 2 ^ 63 stays so, whatever is logged and however much of
-- it the system stores, if a call of ftruncate succeeds and the line is shorter than 2 ^ 63 bytes.
pub log_write-IsBounded :
    (stored level : ℕ) (stamp file : Bytes) (line : ℕ) (msg : Bytes) (g : Log)
    → length (line_of g level stamp file line msg) < 2 ^ 63
    → IsBounded g
    → IsBounded (log_write stored true level stamp file line msg g).log
unfolding log_write AfterWrite
log_write-IsBounded stored level stamp file line msg g short v =
    if_keeps AfterWrite (ltb g.level level) v (
      if_keeps AfterWrite (not (g.dest.to_file || g.dest.to_stderr || g.dest.to_journal)) v (
        if_keeps IsBounded (g.dest.to_file && g.opened)
          (to_file-IsBounded stored (line_of g level stamp file line msg) g short v) v))

take-append_left : (n : ℕ) (xs ys : Bytes) → n ≤ length xs → take n (xs ++ ys) ≡ take n xs
take-append_left zero xs ys h = refl
take-append_left (suc n) [] ys h = absurd (omega arith)
take-append_left (suc n) (x ∷ xs) ys h = ap (λ r. x ∷ r) (take-append_left n xs ys (omega arith))

-- A line that takes the file over the limit is lost, and so is the newer half: a rotation keeps the
-- oldest bytes, as many as half the limit, if the file held that many before.
pub rotation_keeps_oldest :
    (stored : ℕ) (line : Bytes) (g : Log)
    → g.max_size < (g.current_size + length line) % size_mod
    → g.max_size / 2 ≤ length g.file
    → (to_file stored true line g).file ≡ take (g.max_size / 2) g.file
unfolding to_file
rotation_keeps_oldest stored line g over long =
    ap (λ b. (if b then rotated else grown).file) too_long
    ∙ ap (λ n. take half all ++ replicate n 0) none_missing
    ∙ append-nil (take half all)
    ∙ take-append_left half g.file (take stored line) long
  where
    half : ℕ
    half = g.max_size / 2

    all : Bytes
    all = g.file ++ take stored line

    rotated : Log
    rotated = record g { file = resize half all; current_size = half }

    grown : Log
    grown = record g { file = all; current_size = (g.current_size + length line) % size_mod }

    too_long : ltb g.max_size ((g.current_size + length line) % size_mod) ≡ true
    too_long = ground arith

    none_missing : half - length all ≡ 0
    none_missing = omega (arith, long, length-append g.file (take stored line))
