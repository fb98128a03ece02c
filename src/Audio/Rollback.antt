-- ===== src/Audio/Rollback.antt =====
-- What the public functions of middleware/bb_audio_stream.c open, make and give back.
use imx8mp_building_blocks.Base.{
  some, ℕ, ◌+◌, ◌<◌, ◌≡◌, ◌∙◌, refl, ap, Bool, true, false, not, Option, none, List, [], ◌∷◌, ◌++◌,
  ◌==◌, if◌then◌else◌, arith, inl, inr, Bool-cases, Option-cases,
}
use imx8mp_building_blocks.Base.Words.{is_neg, int_min}
use imx8mp_building_blocks.Pool.{FramePool}
use imx8mp_building_blocks.Pool.Lifecycle.{Release, init, destroy}
use imx8mp_building_blocks.Audio.{Config, Stream, no_stream}
use imx8mp_building_blocks.Audio.Lifecycle.{
  Direction, capture, playback, Request, opened, closed, given_back, Answers, nframes, heap_pool,
  playback_thread, codec_thread, capture_thread, init_codec, init_pools, stream_init, stream_start,
  stream_stop, stream_destroy,
}

unfoldable pub same : Direction → Direction → Bool
same capture capture = true
same playback playback = true
same capture playback = false
same playback capture = false

-- How often a device is opened, less how often it is closed, as two counts.
unfoldable pub opens : Direction → List Request → ℕ
unfolding same
opens d [] = 0
opens d (r ∷ out) = elim r [ opened e ↦ if same d e then 1 else 0 | _ ↦ 0 ] + opens d out

unfoldable pub closes : Direction → List Request → ℕ
unfolding same
closes d [] = 0
closes d (r ∷ out) = elim r [ closed e ↦ if same d e then 1 else 0 | _ ↦ 0 ] + closes d out

pub opens-append :
    (d : Direction) (xs ys : List Request) → opens d (xs ++ ys) ≡ opens d xs + opens d ys
unfolding opens
opens-append d [] ys = omega arith
opens-append d (x ∷ xs) ys = omega (arith, opens-append d xs ys)

pub closes-append :
    (d : Direction) (xs ys : List Request) → closes d (xs ++ ys) ≡ closes d xs + closes d ys
unfolding closes
closes-append d [] ys = omega arith
closes-append d (x ∷ xs) ys = omega (arith, closes-append d xs ys)

-- What an outcome of bb_audio_stream_init, with `held` devices open before it, has to satisfy.
pub record IsBalanced (d : Direction) (held : ℕ) (r : ℕ × Stream × List Request) : Type 0 where
  pub devices : held + opens d r.2 ≡ closes d r.2 + (if is_neg r.0 then 0 else 1)
  pub sp_made : r.1.sp_pool.allocated ≡ not (is_neg r.0)
  pub mp_made : r.1.mp_pool.allocated ≡ not (is_neg r.0)

init-allocated :
    (malloc mmap : ℕ → Option ℕ) (calloc : Bool) (count size : ℕ) (dmabuf : Bool)
    → (init malloc mmap calloc count size dmabuf).1.allocated
      ≡ not (is_neg (init malloc mmap calloc count size dmabuf).0)
unfolding init destroy
init-allocated malloc mmap calloc count size dmabuf = ground arith

destroy-allocated : (p : FramePool) → (destroy p).0.allocated ≡ false
unfolding destroy
destroy-allocated p = ground arith

init_codec-IsBalanced :
    (d : Direction) (a : Answers) (cfg : Config) (s : Stream)
    → s.sp_pool.allocated ≡ true
    → s.mp_pool.allocated ≡ true
    → IsBalanced d 1 (init_codec a cfg s)
unfolding init_codec opens closes same
init_codec-IsBalanced d a cfg s sp mp =
    elim (Option-cases (if cfg.codec then a.codec_init else none)) [
      | inl e ↦ rw (e, init_codec) (record { devices = ground arith; sp_made = sp; mp_made = mp })
      | inr (ret, e) ↦ elim (Bool-cases (is_neg ret)) [
        | inl bad ↦
            rw (e, init_codec, bad)
              (record {
                devices = rw bad (ends d);
                sp_made = rw bad (destroy-allocated s.sp_pool);
                mp_made = rw bad (destroy-allocated s.mp_pool);
              })
        | inr good ↦
            rw (e, init_codec, good) (record { devices = ground arith; sp_made = sp; mp_made = mp })
      ]
    ]
  where
    ends :
        (d : Direction)
        → 1
          ≡ closes d (
              given_back (destroy s.mp_pool).1
              ∷ given_back (destroy s.sp_pool).1
              ∷ closed capture
              ∷ closed playback
              ∷ [])
            + 0
    ends capture = omega arith
    ends playback = omega arith

init_pools-IsBalanced :
    (d : Direction) (a : Answers) (cfg : Config) (s : Stream)
    → s.mp_pool.allocated ≡ false
    → s.sp_pool.allocated ≡ false
    → IsBalanced d 1 (init_pools a cfg s)
unfolding init_pools opens closes same
init_pools-IsBalanced d a cfg s mp sp = elim (Bool-cases (is_neg first.0)) [
  | inl bad ↦
      rw (bad, init_pools)
        (record {
          devices = both d;
          sp_made = made a.malloc_sp a.calloc_sp ∙ ap not bad;
          mp_made = mp;
        })
  | inr good ↦ elim (Bool-cases (is_neg second.0)) [
    | inl bad ↦
        rw (good, bad, init_pools)
          (record {
            devices = omega (arith, both d);
            sp_made = destroy-allocated first.1;
            mp_made = made a.malloc_mp a.calloc_mp ∙ ap not bad;
          })
    | inr fine ↦
        rw (good, fine, init_pools)
          (init_codec-IsBalanced d a cfg _ (made a.malloc_sp a.calloc_sp ∙ ap not good)
            (made a.malloc_mp a.calloc_mp ∙ ap not fine))
  ]
]
  where
    first : ℕ × FramePool × List Release
    first = heap_pool a.malloc_sp a.calloc_sp (nframes cfg) s.cap_dev.period_bytes

    second : ℕ × FramePool × List Release
    second = heap_pool a.malloc_mp a.calloc_mp (nframes cfg) s.cap_dev.period_bytes

    both :
        (d : Direction)
        → 1 ≡ 0 + ((if same d capture then 1 else 0) + ((if same d playback then 1 else 0) + 0)) + 0
    both capture = omega arith
    both playback = omega arith

    made :
        (malloc : ℕ → Option ℕ) (calloc : Bool)
        → (heap_pool malloc calloc (nframes cfg) s.cap_dev.period_bytes).1.allocated
          ≡ not (is_neg (heap_pool malloc calloc (nframes cfg) s.cap_dev.period_bytes).0)
    made malloc calloc =
        init-allocated malloc (λ i. none) calloc (nframes cfg) s.cap_dev.period_bytes false

with_both :
    (d : Direction) (r : ℕ × Stream × List Request)
    → IsBalanced d 1 r
    → IsBalanced d 0 (r.0, r.1, opened capture ∷ opened playback ∷ r.2)
unfolding opens closes same
with_both capture r v = record {
  devices = omega (arith, v.devices);
  sp_made = v.sp_made;
  mp_made = v.mp_made;
}
with_both playback r v = record {
  devices = omega (arith, v.devices);
  sp_made = v.sp_made;
  mp_made = v.mp_made;
}

-- bb_audio_stream_init gives back all that it has taken when it fails: whatever fails, each device has
-- been closed as often as it was opened, and neither pool is left. When it does not fail, each
-- device is open once more than it was closed, and both pools are there.
pub stream_init-IsBalanced :
    (d : Direction) (a : Answers) (cfg : Config) → IsBalanced d 0 (stream_init a cfg)
unfolding stream_init opens closes same
stream_init-IsBalanced d a cfg = elim (Option-cases a.capture_opens) [
  | inl e ↦ rw (e, stream_init) (record { devices = refl; sp_made = refl; mp_made = refl })
  | inr (cap, e) ↦ elim (Option-cases a.playback_opens) [
    | inl f ↦
        rw (e, f, stream_init) (record { devices = omega arith; sp_made = refl; mp_made = refl })
    | inr (pb, f) ↦ elim (Bool-cases (cap.period_frames == pb.period_frames)) [
      | inl fit ↦
          rw (e, f, fit, stream_init)
            (with_both d _ (
              init_pools-IsBalanced d a cfg (record (no_stream cfg) { cap_dev = cap; pb_dev = pb })
                refl refl))
      | inr differ ↦
          rw (e, f, differ, stream_init)
            (record { devices = pairs d; sp_made = refl; mp_made = refl })
    ]
  ]
]
  where
    pairs :
        (d : Direction)
        → 0 + opens d (opened capture ∷ opened playback ∷ closed capture ∷ closed playback ∷ [])
          ≡ closes d (opened capture ∷ opened playback ∷ closed capture ∷ closed playback ∷ []) + 0
    pairs capture = omega arith
    pairs playback = omega arith

stream_stop-devices :
    (d : Direction) (s : Stream)
    → (opens d (stream_stop s).1 ≡ 0) × (closes d (stream_stop s).1 ≡ 0)
unfolding stream_stop opens closes same
stream_stop-devices d s = ground arith

pub stream_destroy-devices :
    (d : Direction) (s : Stream)
    → (opens d (stream_destroy s).1 ≡ 0) × (closes d (stream_destroy s).1 ≡ 1)
unfolding stream_destroy stream_stop opens closes same
stream_destroy-devices capture s = ground arith
stream_destroy-devices playback s = ground arith

-- A stream that bb_audio_stream_init has made, whatever has become of its threads and counters:
-- after bb_audio_stream_destroy each device has been closed as often as it was opened.
pub init-destroy-devices :
    (d : Direction) (a : Answers) (cfg : Config) (s : Stream)
    → is_neg (stream_init a cfg).0 ≡ false
    → opens d ((stream_init a cfg).2 ++ (stream_destroy s).1)
      ≡ closes d ((stream_init a cfg).2 ++ (stream_destroy s).1)
init-destroy-devices d a cfg s accepted =
    let made : 0 + opens d (stream_init a cfg).2 ≡ closes d (stream_init a cfg).2 + 1 =
      rw accepted at (stream_init-IsBalanced d a cfg).devices in
    omega (
      arith,
      made,
      opens-append d (stream_init a cfg).2 (stream_destroy s).1,
      closes-append d (stream_init a cfg).2 (stream_destroy s).1,
      (stream_destroy-devices d s).0,
      (stream_destroy-devices d s).1,
    )

-- `pthread_create` returns 0 or a positive error number. Whatever it returns for the three threads, if their contexts are
-- granted,
-- bb_audio_stream_start reports success and leaves the stream running.
pub stream_start_succeeds :
    (granted : ℕ → Bool) (pb codec cap : ℕ) (s : Stream)
    → ((i : ℕ) → granted i ≡ true)
    → pb < int_min
    → codec < int_min
    → cap < int_min
    → stream_start granted pb codec cap s
      ≡ some (
        0,
        record s { running = true; error = false; cap_frames = 0; pb_frames = 0; drop_frames = 0 },
        [],
      )
unfolding stream_start
stream_start_succeeds granted pb codec cap s h hp hcd hc =
    rw (h playback_thread, h codec_thread, h capture_thread) (ground arith)
