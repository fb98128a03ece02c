-- ===== src/Pool/Spsc/Inv.antt =====
-- What holds in every state of the two threads: which slots are in use, and what the locals mean.
use imx8mp_building_blocks.Base.{
  ℕ, ◌+◌, ◌-◌, ◌%◌, ◌≤◌, ◌<◌, ◌≡◌, ◌≢◌, ◌++◌, arith, length, set, ◌==◌, if◌then◌else◌,
}
use imx8mp_building_blocks.Base.Words.{int_min}
use imx8mp_building_blocks.Pool.{FramePool, Got, frame, claim, peek}
use imx8mp_building_blocks.Pool.Spsc.{Producer, Consumer, System, frame_at}
use imx8mp_building_blocks.Pool.Spsc.Slots.{refs, window, get_elem?-eq-get_or}
use imx8mp_building_blocks.Pool.Spsc.Live.{Live}

abbrev pub holds : Producer → ℕ
holds (Producer.filling i) = 1
holds _ = 0

abbrev pub reads : Consumer → ℕ
reads (Consumer.reading i) = 1
reads _ = 0

-- What the locals of a thread say about the number of slots and the two indices.
abbrev pub ProducerKnows : ℕ → ℕ → ℕ → Producer → Type 0
ProducerKnows c w r Producer.idle = Unit
ProducerKnows c w r (Producer.loaded w') = w' ≡ w
ProducerKnows c w r (Producer.checked w') = (w' ≡ w) × (w < r + c)
ProducerKnows c w r (Producer.filling i) = i ≡ w % c

abbrev pub ConsumerKnows : ℕ → ℕ → ℕ → Consumer → Type 0
ConsumerKnows c w r Consumer.idle = Unit
ConsumerKnows c w r (Consumer.loaded w') = w' ≤ w
ConsumerKnows c w r (Consumer.checked r') = (r' ≡ r) × (r < w)
ConsumerKnows c w r (Consumer.ready i) = (i ≡ r % c) × (r < w)
ConsumerKnows c w r (Consumer.reading i) = i ≡ (r - 1) % c

pub record Inv (s : System) : Type 0 where
  pub live :
      Live s.pool.frames s.pool.count s.pool.write_idx s.pool.read_idx
        (holds s.producer)
        (reads s.consumer)
  pub producer : ProducerKnows s.pool.count s.pool.write_idx s.pool.read_idx s.producer
  pub consumer : ConsumerKnows s.pool.count s.pool.write_idx s.pool.read_idx s.consumer
  pub order :
      s.sent
      ≡ s.received
        ++ window s.pool.frames s.pool.count s.pool.read_idx (s.pool.write_idx - s.pool.read_idx)

-- The compare-and-exchange at a slot inside the array.
pub claim_lem :
    (p : FramePool) (w : ℕ)
    → w < int_min
    → w % p.count < length p.frames
    → claim p w ≡ (
        if refs p.frames (w % p.count) == 0
        then (
          frame (w % p.count),
          record p {
            frames =
                set p.frames (w % p.count) (record (frame_at p (w % p.count)) { refcount = 1 });
          },
        )
        else (Got.null, p))
unfolding claim
claim_lem p w small inside = ground (arith, get_elem?-eq-get_or p.frames (w % p.count) inside)

pub peek_lem :
    (p : FramePool) (r : ℕ)
    → r < int_min
    → r % p.count < length p.frames
    → refs p.frames (r % p.count) ≡ 1
    → peek p r ≡ frame (r % p.count)
unfolding peek
peek_lem p r small inside one = ground (arith, get_elem?-eq-get_or p.frames (r % p.count) inside)

-- What a successful compare-and-exchange tells, and what it writes.
pub claim_won :
    (p : FramePool) (w i : ℕ)
    → w < int_min
    → w % p.count < length p.frames
    → (claim p w).0 ≡ frame i
    → (refs p.frames (w % p.count) ≡ 0)
      × (i ≡ w % p.count)
      × ((claim p w).1 ≡ record p {
        frames = set p.frames (w % p.count) (record (frame_at p (w % p.count)) { refcount = 1 });
      })
claim_won p w i small inside won = ground (arith, claim_lem p w small inside)

pub claim_lost :
    (p : FramePool) (w : ℕ)
    → w < int_min
    → w % p.count < length p.frames
    → (claim p w).0 ≡ Got.null
    → refs p.frames (w % p.count) ≢ 0
claim_lost p w small inside lost = ground (arith, claim_lem p w small inside)
