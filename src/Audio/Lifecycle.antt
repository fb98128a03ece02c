-- ===== src/Audio/Lifecycle.antt =====
-- The public functions of middleware/bb_audio_stream.c, and bb_thread_spawn and bb_thread_join of
-- libbb/bb_thread.c as far as they use them. The answers of the system are arguments; what is asked of
-- the devices, the codec and the threads comes out as a list.
use imx8mp_building_blocks.Base.{
  ℕ, ◌-◌, ◌==◌, Bool, true, false, not, ◌&&◌, Option, none, some, List, [], ◌∷◌, ◌++◌,
  if◌then◌else◌,
}
use imx8mp_building_blocks.Base.Words.{int_mod, minus_one, is_neg, int_lt}
use imx8mp_building_blocks.Pool.{FramePool}
use imx8mp_building_blocks.Pool.Lifecycle.{Release, init, destroy}
use imx8mp_building_blocks.Audio.{Device, Config, no_config, Stream, no_stream}

-- The patterns of -EINVAL, -ENOMEM and -ENODEV.
abbrev pub einval : ℕ
einval = int_mod - 22

abbrev pub enomem : ℕ
enomem = int_mod - 12

abbrev pub enodev : ℕ
enodev = int_mod - 19

pub data Direction : Type 0 where
  capture playback : Direction

-- What the stream asks of the devices, the codec and the threads, and what its pools give back to the
-- heap.
pub data Request : Type 0 where
  opened : Direction → Request
  closed : Direction → Request
  codec_made : Request
  codec_gone : Request
  joined : ℕ → Request
  dropped : Direction → Request
  given_back : List Release → Request

-- What bb_audio_stream_init meets: bb_audio_open gives a device or fails, the heap grants the arrays
-- and buffers of the two pools or not, and `codec_ops->init`, if there is one, returns an `int`.
pub record Answers : Type 0 where
  pub capture_opens : Option Device
  pub playback_opens : Option Device
  pub calloc_sp : Bool
  pub malloc_sp : ℕ → Option ℕ
  pub calloc_mp : Bool
  pub malloc_mp : ℕ → Option ℕ
  pub codec_init : Option ℕ

abbrev pub result : ℕ → Stream → List Request → ℕ × Stream × List Request
result status s out = (status, s, out)

abbrev pub nframes : Config → ℕ
nframes cfg = if int_lt 0 cfg.pool_frames then cfg.pool_frames else 4

-- `mmap` is not called for these pools.
abbrev pub heap_pool : (ℕ → Option ℕ) → Bool → ℕ → ℕ → ℕ × FramePool × List Release
heap_pool malloc calloc count size = init malloc (λ i. none) calloc count size false

abbrev close_both : List Request
close_both = closed capture ∷ closed playback ∷ []

abbrev open_both : List Request
open_both = opened capture ∷ opened playback ∷ []

-- The call of `codec_ops->init`, the last part of bb_audio_stream_init.
unfoldable pub init_codec : Answers → Config → Stream → ℕ × Stream × List Request
unfolding destroy
init_codec a cfg s =
    let (mp, mp_freed) = destroy s.mp_pool in
    let (sp, sp_freed) = destroy s.sp_pool in
    elim (if cfg.codec then a.codec_init else none) [
      | none ↦ result 0 s []
      | some ret ↦
          if is_neg ret
          then result ret (record s { mp_pool = mp; sp_pool = sp })
              (given_back mp_freed ∷ given_back sp_freed ∷ close_both)
          else result 0 (record s { codec_ctx = true }) (codec_made ∷ [])
    ]

-- The two pools, with both devices open.
unfoldable pub init_pools : Answers → Config → Stream → ℕ × Stream × List Request
unfolding init init_codec destroy
init_pools a cfg s =
    let size = s.cap_dev.period_bytes in
    let (sp_status, sp, sp_freed) = heap_pool a.malloc_sp a.calloc_sp (nframes cfg) size in
    let (mp_status, mp, mp_freed) = heap_pool a.malloc_mp a.calloc_mp (nframes cfg) size in
    let (no_sp, sp_destroyed) = destroy sp in
    if is_neg sp_status
    then result enomem (record s { sp_pool = sp }) (given_back sp_freed ∷ close_both)
    else if is_neg mp_status
    then result enomem (record s { sp_pool = no_sp; mp_pool = mp })
        (given_back mp_freed ∷ given_back sp_destroyed ∷ close_both)
    else init_codec a cfg (record s { sp_pool = sp; mp_pool = mp })

unfoldable pub stream_init : Answers → Config → ℕ × Stream × List Request
unfolding init_pools
stream_init a cfg =
    let s = no_stream cfg in
    elim a.capture_opens [
      | none ↦ result enodev s []
      | some cap ↦ elim a.playback_opens [
        | none ↦ result enodev (record s { cap_dev = cap }) (opened capture ∷ closed capture ∷ [])
        | some pb ↦
            let t : Stream = record s { cap_dev = cap; pb_dev = pb } in
            let (status, u, out) = init_pools a cfg t in
            if cap.period_frames == pb.period_frames
            then result status u (open_both ++ out)
            else result einval t (open_both ++ close_both)
      ]
    ]

-- bb_thread_spawn returns what `pthread_create` returns.
abbrev pub spawn : ℕ → ℕ
spawn rc = rc

-- The three threads in the order in which they start.
abbrev pub playback_thread : ℕ
playback_thread = 0

abbrev pub codec_thread : ℕ
codec_thread = 1

abbrev pub capture_thread : ℕ
capture_thread = 2

-- Given are whether calloc grants the context of each of the three threads, and what `pthread_create` returns for it. None
-- stands for a NULL that is dereferenced. A join that comes after a failed spawn is taken to return.
unfoldable pub stream_start : (ℕ → Bool) → ℕ → ℕ → ℕ → Stream → Option (ℕ × Stream × List Request)
stream_start granted pb codec cap s =
    let t : Stream = record s {
      running = true;
      error = false;
      cap_frames = 0;
      pb_frames = 0;
      drop_frames = 0;
    } in
    let stopped : Stream = record t { running = false } in
    if not (granted playback_thread)
    then none
    else if is_neg (spawn pb)
    then some (result minus_one stopped [])
    else if not (granted codec_thread)
    then none
    else if is_neg (spawn codec)
    then some (result minus_one stopped (joined playback_thread ∷ []))
    else if not (granted capture_thread)
    then none
    else if is_neg (spawn cap)
    then some (result minus_one stopped (joined codec_thread ∷ joined playback_thread ∷ []))
    else some (result 0 t [])

unfoldable pub stream_stop : Stream → Stream × List Request
stream_stop s =
    if s.running
    then (
      record s { running = false },
      joined capture_thread
          ∷ joined codec_thread
          ∷ joined playback_thread
          ∷ dropped capture
          ∷ dropped playback
          ∷ [],
    )
    else (s, [])

unfoldable pub stream_destroy : Stream → Stream × List Request
unfolding stream_stop destroy
stream_destroy s =
    let (t, out) = stream_stop s in
    (
      no_stream no_config,
      out
          ++ (if t.codec_ctx && t.cfg.codec then codec_gone ∷ [] else [])
          ++ given_back (destroy t.sp_pool).1 ∷ given_back (destroy t.mp_pool).1 ∷ close_both,
    )

unfoldable pub stream_stats : Stream → ℕ × ℕ × ℕ
stream_stats s = (s.cap_frames, s.pb_frames, s.drop_frames)
