-- ===== src/Audio/Xruns.antt =====
-- What a row of overruns does to the capture thread of middleware/bb_audio_stream.c.
use imx8mp_building_blocks.Base.{
  ℕ, zero, suc, ◌+◌, ◌*◌, ◌%◌, ◌≤◌, ◌<◌, ◌≡◌, ◌∙◌, refl, ap, true, some, List, [], ◌∷◌, ◌==◌, ltb,
  leb, if◌then◌else◌, arith, inl, inr, Bool-cases, Option-cases, get_elem?, set, replicate,
}
use imx8mp_building_blocks.Base.Words.{int_mod, index_mod}
use imx8mp_building_blocks.Pool.{
  Frame, FramePool, Got, frame, is_full, at_frame, update_frame, claim, sp_acquire, sp_release,
}
use native.Mathlib.Nat.{mod-add-mod}
use imx8mp_building_blocks.Audio.{Stream}
use imx8mp_building_blocks.Audio.Rounds.{
  Answer, epipe, leave, again, Round, quiet, capture_drop, capture_frame, capture_round,
  capture_loop,
}

module _ {ℓ} {A : Type ℓ} where
  set-back : (xs : List A) (i : ℕ) (x y : A) → get_elem? xs i ≡ some x → set (set xs i y) i x ≡ xs
  set-back [] i x y h = refl
  set-back (z ∷ xs) zero x y h = grind arith
  set-back (z ∷ xs) (suc i) x y h = ap (λ r. z ∷ r) (set-back xs i x y h)

  get_elem?-set :
      (xs : List A) (i : ℕ) (x y : A) → get_elem? xs i ≡ some x → get_elem? (set xs i y) i ≡ some y
  get_elem?-set [] i x y h = absurd (cc)
  get_elem?-set (z ∷ xs) zero x y h = refl
  get_elem?-set (z ∷ xs) (suc i) x y h = get_elem?-set xs i x y h

-- The slot with its count set and cleared again.
won-undone :
    (p : FramePool) (j : ℕ) (f : Frame)
    → get_elem? p.frames j ≡ some f
    → f.refcount ≡ 0
    → sp_release (record p { frames = set p.frames j (record f { refcount = 1 }) }) j ≡ p
unfolding sp_release
won-undone p j f d z =
    rw (get_elem?-set p.frames j f (record f { refcount = 1 }) d, update_frame)
      (ap (λ fs. record p { frames = fs })
        (set-back p.frames j (record f { refcount = 0 }) (record f { refcount = 1 })
          (d ∙ ap (λ n. some (record f { refcount = n })) z)))

claim-undone : (p : FramePool) (w i : ℕ) → (claim p w).0 ≡ frame i → sp_release (claim p w).1 i ≡ p
unfolding claim
claim-undone p w i h = elim (Option-cases (index_mod w p.count)) [
  | inl e ↦ absurd (cc (rw (e, at_frame) at h))
  | inr (j, e) ↦ elim (Option-cases (get_elem? p.frames j)) [
    | inl d ↦ absurd (cc (rw (e, d, at_frame) at h))
    | inr (f, d) ↦ elim (Bool-cases (f.refcount == 0)) [
      | inl free ↦
          let same : i ≡ j = grind (arith, rw (e, d, at_frame, free) at h) in
          rw (e, d, at_frame, free, same) (won-undone p j f d (ground arith))
      | inr used ↦ absurd (cc (rw (e, d, at_frame, used) at h))
    ]
  ]
]

acquire-undone :
    (p : FramePool) (i : ℕ) → (sp_acquire p).0 ≡ frame i → sp_release (sp_acquire p).1 i ≡ p
unfolding sp_acquire
acquire-undone p i h = elim (Bool-cases (is_full p.count p.write_idx p.read_idx)) [
  | inl full ↦ absurd (cc (rw full at h))
  | inr go ↦ rw go (claim-undone p p.write_idx i (rw go at h))
]

-- The loop after a round.
goes_on : List Answer → Round → Round
unfolding capture_loop
goes_on answers r = elim r.flow [ again ↦ capture_loop answers r.xruns r.stream | _ ↦ r ]

loop-running :
    (a : Answer) (answers : List Answer) (x : ℕ) (s : Stream)
    → s.running ≡ true
    → capture_loop (a ∷ answers) x s ≡ goes_on answers (capture_round a x s)
unfolding capture_loop goes_on
loop-running a answers x s e =
    ap (λ b. if b then goes_on answers (capture_round a x s) else quiet leave x s) e

abbrev gives_up : Stream → Round
gives_up s = quiet leave 11 (record s { error = true })

module _ (s : Stream) (i : ℕ) (offered : (sp_acquire s.sp_pool).0 ≡ frame i)
    (running : s.running ≡ true) where
  xrun_round :
      (x : ℕ)
      → capture_round epipe x s ≡ (
          if ltb 10 (x + 1)
          then quiet leave (x + 1) (record s { error = true })
          else quiet again (x + 1) s)
  unfolding capture_round capture_frame
  xrun_round x = rw (offered, capture_round) (rw (acquire-undone s.sp_pool i offered) refl)

  xrun_loop :
      (n x : ℕ)
      → x ≤ 10
      → capture_loop (replicate n epipe) x s
        ≡ (if leb (x + n) 10 then quiet again (x + n) s else gives_up s)
  unfolding capture_loop goes_on
  xrun_loop zero x h = ground arith
  xrun_loop (suc n) x h = rw (loop-running epipe (replicate n epipe) x s running) (
      rw (xrun_round x) (elim (Bool-cases (ltb 10 (x + 1))) [
        | inl last ↦ rw last (ground arith)
        | inr more ↦ rw more (rw (xrun_loop n (x + 1) (ground arith)) (ground arith))
      ]))

-- A row of overruns while the pool has a free frame: each leaves the stream as it was, and the eleventh
-- ends the thread with the error flag set.
pub xruns_give_up :
    (s : Stream) (i n : ℕ)
    → (sp_acquire s.sp_pool).0 ≡ frame i
    → s.running ≡ true
    → capture_loop (replicate n epipe) 0 s
      ≡ (if leb n 10 then quiet again n s else quiet leave 11 (record s { error = true }))
xruns_give_up s i n offered running =
    let none_yet : 0 + n ≡ n = omega arith in
    rw none_yet at (xrun_loop s i offered running n 0 (omega arith))

-- The stream after `n` dropped periods.
abbrev pub dropped : ℕ → Stream → Stream
dropped n s = record s { drop_frames = (s.drop_frames + n * s.cap_dev.period_frames) % int_mod }

full_round :
    (s : Stream)
    → (sp_acquire s.sp_pool).0 ≡ Got.null
    → capture_round epipe 0 s ≡ quiet again 0 (dropped 1 s)
unfolding capture_drop capture_round
full_round s full =
    rw (full, capture_round)
      (ap (λ d. quiet again 0 (record s { drop_frames = d % int_mod })) (omega arith))

-- A row of overruns while the pool is full never ends the thread, however long: the count starts
-- again each time. Every round drops one period.
pub full_xruns :
    (n : ℕ) (s : Stream)
    → (sp_acquire s.sp_pool).0 ≡ Got.null
    → s.running ≡ true
    → s.drop_frames < int_mod
    → capture_loop (replicate n epipe) 0 s ≡ quiet again 0 (dropped n s)
unfolding capture_loop goes_on
full_xruns zero s full running small =
    ap (λ d. quiet again 0 (record s { drop_frames = d })) (omega arith)
full_xruns (suc n) s full running small = rw (loop-running epipe (replicate n epipe) 0 s running) (
    rw (full_round s full) (
      rw (full_xruns n (dropped 1 s) full running (omega arith)) (
        ap (λ d. quiet again 0 (record s { drop_frames = d }))
          (sum s.drop_frames s.cap_dev.period_frames))))
  where
    sum : (d p : ℕ) → ((d + 1 * p) % int_mod + n * p) % int_mod ≡ (d + suc n * p) % int_mod
    sum d p = mod-add-mod (d + 1 * p) int_mod (n * p) ∙ ap (λ x. x % int_mod) (grind arith)
