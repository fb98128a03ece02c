-- ===== src/Pool/Spsc/Moves.antt =====
-- One step of either thread keeps the invariant.
use imx8mp_building_blocks.Base.{
  ℕ, ◌+◌, suc, ◌-◌, ◌%◌, ◌≤◌, ◌<◌, ◌≡◌, refl, sym, ap, ◌∙◌, List, [], ◌∷◌, ◌++◌, arith, length, set,
  get_or, false, append_assoc,
}
use imx8mp_building_blocks.Base.Words.{int_add, int_min, int_le}
use native.Mathlib.Nat.{mod-lt}
use imx8mp_building_blocks.Pool.{
  Frame, zeroed, frame, claim, peek, advance, sp_commit, sp_release, is_full,
}
use imx8mp_building_blocks.Pool.Spsc.{Producer, Consumer, System, content, frame_at, fill_frame}
use imx8mp_building_blocks.Pool.Spsc.Slots.{window, window-suc, frames-update_frame}
use imx8mp_building_blocks.Pool.Spsc.Live.{
  Live, Live-claim, Live-same, Live-abort, Live-release, Live-commit, Live-advance, window-producer,
  window-consumer,
}
use imx8mp_building_blocks.Pool.Spsc.Inv.{
  Inv, holds, reads, ProducerKnows, ConsumerKnows, claim_won, peek_lem,
}

-- A commit leaves true what the consumer knows.
ConsumerKnows-commit :
    (c w r : ℕ) (co : Consumer) → ConsumerKnows c w r co → ConsumerKnows c (w + 1) r co
ConsumerKnows-commit c w r Consumer.idle k = tt
ConsumerKnows-commit c w r (Consumer.loaded w') k = omega arith
ConsumerKnows-commit c w r (Consumer.checked r') k = omega arith
ConsumerKnows-commit c w r (Consumer.ready i) k = omega arith
ConsumerKnows-commit c w r (Consumer.reading i) k = k

-- So does the consumer's step forward for the producer.
ProducerKnows-advance :
    (c w r : ℕ) (pr : Producer) → ProducerKnows c w r pr → ProducerKnows c w (r + 1) pr
ProducerKnows-advance c w r Producer.idle k = tt
ProducerKnows-advance c w r (Producer.loaded w') k = k
ProducerKnows-advance c w r (Producer.checked w') k = omega arith
ProducerKnows-advance c w r (Producer.filling i) k = k

window-commit :
    (fs : List Frame) (c w r : ℕ)
    → r ≤ w
    → window fs c r (w + 1 - r) ≡ window fs c r (w - r) ++ content (get_or fs (w % c) zeroed) ∷ []
window-commit fs c w r h =
    let more : w + 1 - r ≡ suc (w - r) = omega arith in
    let at : r + (w - r) ≡ w = omega arith in rw more (rw at at (window-suc fs c r (w - r)))

window-advance :
    (fs : List Frame) (c w r : ℕ)
    → r < w
    → window fs c r (w - r) ≡ content (get_or fs (r % c) zeroed) ∷ window fs c (r + 1) (w - (r + 1))
window-advance fs c w r h =
    let more : w - r ≡ suc (w - (r + 1)) = omega arith in
    let after : suc r ≡ r + 1 = omega arith in rw (more, after)

module _ {s : System} (v : Inv s) where
  open s use {pool}
  open pool use {frames, count, write_idx, read_idx}

  pub inside : (k : ℕ) → k % count < length frames
  inside k = omega (arith, v.live.sized, mod-lt k v.live.positive)

  -- The tests of the indices that the threads have loaded are exact.
  pub not_full : (w : ℕ) → w ≡ write_idx → is_full count w read_idx ≡ false → w < read_idx + count
  not_full w e h = ground (arith, v.live.order, v.live.range, v.live.small, v.live.room)

  pub not_empty : (w : ℕ) → w ≤ write_idx → int_le w read_idx ≡ false → read_idx < w
  not_empty w e h = ground (arith, v.live.order, v.live.range)

  pub holding :
      (pr : Producer)
      → s.producer ≡ pr
      → Live frames count write_idx read_idx (holds pr) (reads s.consumer)
        × ProducerKnows count write_idx read_idx pr
  holding pr e = (rw e at v.live, rw e at v.producer)

  pub having :
      (co : Consumer)
      → s.consumer ≡ co
      → Live frames count write_idx read_idx (holds s.producer) (reads co)
        × ConsumerKnows count write_idx read_idx co
  having co e = (rw e at v.live, rw e at v.consumer)

  -- A step of the producer that changes no memory.
  pub producer_goes :
      (pr : Producer)
      → holds pr ≡ holds s.producer
      → ProducerKnows count write_idx read_idx pr
      → Inv (record s { producer = pr })
  producer_goes pr same knows = record {
    live = rw same v.live;
    producer = knows;
    consumer = v.consumer;
    order = v.order;
  }

  pub consumer_goes :
      (co : Consumer)
      → reads co ≡ reads s.consumer
      → ConsumerKnows count write_idx read_idx co
      → Inv (record s { consumer = co })
  consumer_goes co same knows = record {
    live = rw same v.live;
    producer = v.producer;
    consumer = knows;
    order = v.order;
  }

  -- A step of the producer that writes its slot.
  producer_writes :
      (f : Frame) (pr : Producer)
      → Live
          (set frames (write_idx % count) f)
          count
          write_idx
          read_idx
          (holds pr)
          (reads s.consumer)
      → write_idx < read_idx + count
      → ProducerKnows count write_idx read_idx pr
      → Inv (record s {
        pool = record pool { frames = set frames (write_idx % count) f };
        producer = pr;
      })
  producer_writes f pr live lt knows = record {
    live = live;
    producer = knows;
    consumer = v.consumer;
    order = v.order ∙ ap (λ xs. s.received ++ xs) (sym (window-producer f v.live lt));
  }

  pub claim-Inv :
      (w i : ℕ)
      → s.producer ≡ Producer.checked w
      → (claim pool w).0 ≡ frame i
      → Inv (record s { pool = (claim pool w).1; producer = Producer.filling i })
  claim-Inv w i e won =
      let (lv, (same, lt)) = holding (Producer.checked w) e in
      let range : w < int_min = omega (arith, same, v.live.range) in
      let (z, at, wrote) = claim_won pool w i range (inside w) won in
      let f : Frame = record (frame_at pool (w % count)) { refcount = 1 } in
      rw (wrote, same)
        (producer_writes (record (frame_at pool (write_idx % count)) { refcount = 1 })
          (Producer.filling i) (Live-claim _ lv (rw same at z) lt refl) lt (rw same at at))

  pub fill-Inv :
      (i : ℕ) (c : Frame)
      → s.producer ≡ Producer.filling i
      → Inv (record s { pool = fill_frame pool i c })
  fill-Inv i c e =
      let (lv, at) = holding (Producer.filling i) e in
      rw (at, frames-update_frame pool (write_idx % count) _ (inside write_idx))
        (producer_writes _ s.producer (Live-same _ write_idx v.live refl) (omega (arith, lv.room))
          v.producer)

  pub abort-Inv :
      (i : ℕ)
      → s.producer ≡ Producer.filling i
      → Inv (record s { pool = sp_release pool i; producer = Producer.idle })
  unfolding sp_release
  abort-Inv i e =
      let (lv, at) = holding (Producer.filling i) e in
      rw (at, frames-update_frame pool (write_idx % count) _ (inside write_idx))
        (producer_writes _ Producer.idle (Live-abort _ lv refl) (omega (arith, lv.room)) tt)

  pub commit-Inv :
      (i : ℕ)
      → s.producer ≡ Producer.filling i
      → write_idx + 1 < int_min
      → Inv (record s {
        pool = sp_commit pool;
        producer = Producer.idle;
        sent = s.sent ++ content (frame_at pool i) ∷ [];
      })
  unfolding sp_commit
  commit-Inv i e small =
      let (lv, at) = holding (Producer.filling i) e in
      let next_idx : int_add write_idx 1 ≡ write_idx + 1 = omega arith in
      rw (next_idx, at)
        (record {
          live = Live-commit lv small;
          producer = tt;
          consumer = ConsumerKnows-commit count write_idx read_idx s.consumer v.consumer;
          order =
              ap (λ xs. xs ++ content (frame_at pool (write_idx % count)) ∷ []) v.order
              ∙ append_assoc s.received _ _
              ∙ ap (λ xs. s.received ++ xs)
                  (sym (window-commit frames count write_idx read_idx v.live.order));
        })

  pub advance-Inv :
      (i : ℕ)
      → s.consumer ≡ Consumer.ready i
      → Inv (record s {
        pool = advance pool;
        consumer = Consumer.reading i;
        received = s.received ++ content (frame_at pool i) ∷ [];
      })
  unfolding advance
  advance-Inv i e =
      let (lv, (at, more)) = having (Consumer.ready i) e in
      let next_idx : int_add read_idx 1 ≡ read_idx + 1 = omega (arith, v.live.range) in
      let back : read_idx + 1 - 1 ≡ read_idx = omega arith in
      rw (next_idx, at)
        (record {
          live = Live-advance lv more;
          producer = ProducerKnows-advance count write_idx read_idx s.producer v.producer;
          consumer = rw back refl;
          order =
              v.order
              ∙ ap (λ xs. s.received ++ xs) (window-advance frames count write_idx read_idx more)
              ∙ sym (append_assoc s.received _ _);
        })

  pub release-Inv :
      (i : ℕ)
      → s.consumer ≡ Consumer.reading i
      → Inv (record s { pool = sp_release pool i; consumer = Consumer.idle })
  unfolding sp_release
  release-Inv i e =
      let (lv, at) = having (Consumer.reading i) e in
      rw (at, frames-update_frame pool ((read_idx - 1) % count) _ (inside (read_idx - 1)))
        (record {
          live = Live-release _ lv refl;
          producer = v.producer;
          consumer = tt;
          order = v.order ∙ ap (λ xs. s.received ++ xs) (sym (window-consumer _ lv));
        })

  pub peek-checked : (r : ℕ) → s.consumer ≡ Consumer.checked r → peek pool r ≡ frame (r % count)
  peek-checked r e =
      let (lv, (at, more)) = having (Consumer.checked r) e in
      peek_lem pool r (omega (arith, at, more, v.live.range)) (inside r)
        (v.live.busy r (omega arith) (omega (arith, at, more)))
