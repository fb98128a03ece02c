-- ===== src/Audio/Rounds.antt =====
-- The thread functions of middleware/bb_audio_stream.c, one round of each loop. What the devices
-- and the codec answer is an argument.
use imx8mp_building_blocks.Base.{
  ℕ, zero, suc, ◌+◌, ◌%◌, ◌==◌, ltb, Bool, true, false, Option, none, some, List, [], ◌∷◌,
  if◌then◌else◌, length, take, get_or,
}
use imx8mp_building_blocks.Base.Bytes.{Bytes}
use imx8mp_building_blocks.Base.Words.{int_mod}
use imx8mp_building_blocks.Pool.{
  Frame, zeroed, FramePool, Got, frame, wait, update_frame, sp_acquire, sp_commit, sp_dequeue,
  sp_release, mp_acquire, mp_enqueue, mp_dequeue, mp_release,
}
use imx8mp_building_blocks.Audio.{Stream, frames_to_bytes, bytes_to_frames, overwrite}

-- What bb_audio_read and bb_audio_write return: a number of frames (with the bytes read), -EPIPE, or
-- another negative number.
pub data Answer : Type 0 where
  frames : ℕ → Bytes → Answer
  epipe : Answer
  failed : Answer

-- How a round ends: the loop goes on, it is left, or the thread waits in bb_pool_mp_dequeue.
pub data Flow : Type 0 where
  again leave blocked : Flow

-- The end of a round, with the `xrun_count` of the thread, and what bb_audio_write was given.
pub record Round : Type 0 where
  pub flow : Flow
  pub xruns : ℕ
  pub stream : Stream
  pub played : List (ℕ × Bytes)

abbrev pub quiet : Flow → ℕ → Stream → Round
quiet flow x s = record { flow = flow; xruns = x; stream = s; played = [] }

-- An atomic_uint after an addition.
abbrev pub counted : ℕ → ℕ → ℕ
counted a b = (a + b) % int_mod

-- The pool is full: one period is read and dropped.
unfoldable pub capture_drop : Answer → ℕ → Stream → Round
capture_drop a x s0 =
    let s : Stream = record s0 { drop_frames = counted s0.drop_frames s0.cap_dev.period_frames } in
    elim a [
      | epipe ↦
          if ltb 10 (x + 1)
          then quiet leave (x + 1) (record s { error = true })
          else quiet again 0 s
      | _ ↦ quiet again 0 s
    ]

-- A period is read into frame `i`, which the thread holds.
unfoldable pub capture_frame : Answer → ℕ → Stream → ℕ → Round
capture_frame (frames n bytes) x s i = quiet again 0 (record s {
  sp_pool = sp_commit (
      update_frame s.sp_pool i λ f. record f {
        bytes = overwrite bytes f.bytes;
        size = frames_to_bytes n s.cfg.channels s.cfg.fmt;
      });
  cap_frames = counted s.cap_frames n;
})
capture_frame epipe x s i =
    let t : Stream = record s { sp_pool = sp_release s.sp_pool i } in
    if ltb 10 (x + 1)
    then quiet leave (x + 1) (record t { error = true })
    else quiet again (x + 1) t
capture_frame failed x s i =
    quiet leave x (record s { sp_pool = sp_release s.sp_pool i; error = true })

unfoldable pub capture_round : Answer → ℕ → Stream → Round
unfolding capture_drop capture_frame
capture_round a x s =
    let (got, p) = sp_acquire s.sp_pool in
    elim got [ frame i ↦ capture_frame a x (record s { sp_pool = p }) i | _ ↦ capture_drop a x s ]

-- The loop of capture_thread_fn on a row of answers: how it stands when they are used up, or when it
-- is left.
unfoldable pub capture_loop : List Answer → ℕ → Stream → Round
unfolding capture_round
capture_loop [] x s = quiet again x s
capture_loop (a ∷ answers) x s =
    let r = capture_round a x s in
    let rest = capture_loop answers r.xruns r.stream in
    if s.running then elim r.flow [ again ↦ rest | _ ↦ r ] else quiet leave x s

-- What `encode` answers: nothing on an error, or the bytes that it has put out.
abbrev pub Encoded : Type 0
Encoded = Option Bytes

-- The frame that the codec thread fills from one of the lock-free pool.
unfoldable pub codec_fill : Bool → Encoded → Frame → Frame → Frame
codec_fill true none sp mp = record mp { size = 0; pts = sp.pts; frame_num = sp.frame_num }
codec_fill true (some out) sp mp = record mp {
  bytes = overwrite out mp.bytes;
  size = length out;
  pts = sp.pts;
  frame_num = sp.frame_num;
}
codec_fill false e sp mp = record mp {
  bytes = overwrite (take sp.size sp.bytes) mp.bytes;
  size = sp.size;
  pts = sp.pts;
  frame_num = sp.frame_num;
}

-- Frame `i` of the lock-free pool is taken; the next one of the other pool is filled from it.
unfoldable pub codec_frame : Encoded → ℕ → Stream → Stream
unfolding codec_fill
codec_frame e i s =
    let (got, p) = mp_acquire s.mp_pool in
    elim got [
      | frame j ↦ record s {
        sp_pool = sp_release s.sp_pool i;
        mp_pool =
            mp_enqueue
              (update_frame p j (codec_fill s.cfg.codec e (get_or s.sp_pool.frames i zeroed))) j;
      }
      | _ ↦ record s {
        drop_frames = counted s.drop_frames s.cap_dev.period_frames;
        sp_pool = sp_release s.sp_pool i;
      }
    ]

-- A round of codec_thread_fn, which always goes on.
unfoldable pub codec_round : Encoded → Stream → Stream
unfolding codec_frame
codec_round e s =
    let (got, p) = sp_dequeue s.sp_pool in
    elim got [ frame i ↦ codec_frame e i (record s { sp_pool = p }) | _ ↦ s ]

-- The frames left in the lock-free pool are given back, in at most as many rounds.
unfoldable pub drain : ℕ → FramePool → FramePool
drain zero p = p
drain (suc rounds) p =
    let (got, q) = sp_dequeue p in elim got [ frame i ↦ drain rounds (sp_release q i) | _ ↦ p ]

-- The frame that is acquired is sent with size 0.
abbrev pub sent_empty : Got × FramePool → Option FramePool
sent_empty (frame j, q) = some (mp_enqueue (update_frame q j λ f. record f { size = 0 }) j)
sent_empty (_, q) = none

-- One try to send the frame of size 0 that ends the playback thread.
unfoldable pub send_sentinel : FramePool → Option FramePool
send_sentinel p = sent_empty (mp_acquire p)

-- The tries to send it, on what the pool is at each of them.
unfoldable pub send_end : ℕ → List FramePool → Option FramePool
unfolding send_sentinel
send_end zero pools = none
send_end (suc tries) [] = none
send_end (suc tries) (p ∷ pools) = elim (send_sentinel p) [
  | some q ↦ some q
  | none ↦ send_end tries pools
]

-- Frame `i` is taken from the pool; a frame of size 0 ends the thread.
unfoldable pub playback_frame : Answer → ℕ → Stream → ℕ → Round
playback_frame a x s i =
    let f = get_or s.mp_pool.frames i zeroed in
    let n = bytes_to_frames f.size s.cfg.channels s.cfg.fmt in
    let t : Stream = record s { mp_pool = mp_release s.mp_pool i } in
    let given = (n, take (frames_to_bytes n s.cfg.channels s.cfg.fmt) f.bytes) ∷ [] in
    if f.size == 0 then quiet leave x t else elim a [
      | frames m bytes ↦ record {
        flow = again;
        xruns = 0;
        stream = record t { pb_frames = counted t.pb_frames m };
        played = given;
      }
      | epipe ↦
          if ltb 10 (x + 1)
          then record {
            flow = leave;
            xruns = x + 1;
            stream = record t { error = true };
            played = given;
          }
          else record { flow = again; xruns = x + 1; stream = t; played = given }
      | failed ↦ record {
        flow = leave;
        xruns = x;
        stream = record t { error = true };
        played = given;
      }
    ]

unfoldable pub playback_round : Answer → ℕ → Stream → Round
unfolding playback_frame
playback_round a x s =
    let (got, p) = mp_dequeue s.mp_pool in
    elim got [
      | frame i ↦ playback_frame a x (record s { mp_pool = p }) i
      | wait ↦ quiet blocked x s
      | _ ↦ quiet again x (record s { mp_pool = p })
    ]
