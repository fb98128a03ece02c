-- ===== src/Pool/Spsc/Live.antt =====
-- Which slots are in use: those from the frame that the consumer reads up to the one that the
-- producer fills. `h` and `d` are 1 while the producer and the consumer hold a frame, else 0.
use imx8mp_building_blocks.Base.{
  ℕ, ◌+◌, ◌-◌, ◌%◌, ◌≤◌, ◌<◌, ◌≡◌, List, arith, length, set, length-set, dec_lt, ap, sym, ◌≢◌,
  ℕ_discrete, ◌^◌, ◌==◌, if◌then◌else◌,
}
use imx8mp_building_blocks.Base.Words.{int_min, mod_ne}
use native.Mathlib.Nat.{mod-lt, add-mod_right}
use imx8mp_building_blocks.Pool.{Frame}
use imx8mp_building_blocks.Pool.Spsc.Slots.{refs, refs-set, window, window-set}

pub record Live (fs : List Frame) (c w r h d : ℕ) : Type 0 where
  pub positive : 0 < c
  pub small : c < 2 ^ 30
  pub sized : length fs ≡ c
  pub range : w < int_min
  pub order : r ≤ w
  pub back : d ≤ r
  pub room : w + h + d ≤ r + c
  pub busy : (n : ℕ) → r ≤ n + d → n < w + h → refs fs (n % c) ≡ 1
  pub free : (n : ℕ) → w + h ≤ n → n + d < r + c → refs fs (n % c) ≡ 0

-- The slot at the write index is not the one that the consumer reads.
taken_apart :
    {fs : List Frame} {c w r d : ℕ}
    → Live fs c w r 0 d
    → refs fs (w % c) ≡ 0
    → w < r + c
    → w + 1 + d ≤ r + c
taken_apart {fs} {c} {w} {r} {d} v z lt = elim (dec_lt (w + d) (r + c)) [
  | yes p ↦ omega arith
  | no p ↦
      let e : w ≡ r - d + c = omega (arith, v.room, v.back) in
      let full : refs fs ((r - d) % c) ≡ 1 =
        v.busy (r - d) (omega (arith, v.back)) (omega (arith, v.positive)) in
      let same : w % c ≡ (r - d) % c = rw e (add-mod_right (r - d) c) in
      absurd (omega (arith, ap (refs fs) same))
]

module _ {fs : List Frame} {c w r : ℕ} (f : Frame) where
  in_range : {h d : ℕ} → Live fs c w r h d → (k : ℕ) → k % c < length fs
  in_range v k = omega (arith, v.sized, mod-lt k v.positive)

  written :
      {h d : ℕ}
      → Live fs c w r h d
      → (k j : ℕ) → refs (set fs (k % c) f) j ≡ (if k % c == j then f.refcount else refs fs j)
  written v k j = refs-set fs (k % c) j f (in_range v k)

  -- The producer takes the free slot at the write index.
  pub Live-claim :
      {d : ℕ}
      → Live fs c w r 0 d
      → refs fs (w % c) ≡ 0
      → w < r + c
      → f.refcount ≡ 1
      → Live (set fs (w % c) f) c w r 1 d
  Live-claim v z lt one = record {
    positive = v.positive;
    small = v.small;
    sized = omega (arith, length-set fs (w % c) f, v.sized);
    range = v.range;
    order = v.order;
    back = v.back;
    room = taken_apart v z lt;
    busy = λ n lo hi. elim (dec_lt n w) [
      | yes old ↦ ground (arith, written v w (n % c), v.busy n lo (omega arith))
      | no last ↦ let e : n ≡ w = omega arith in rw e (ground (arith, written v w (w % c)))
    ];
    free = λ n lo hi. ground (arith, written v w (n % c), v.free n, mod_ne c w n);
  }

  -- A write that keeps the reference count.
  pub Live-same :
      {h d : ℕ} (k : ℕ)
      → Live fs c w r h d
      → f.refcount ≡ refs fs (k % c)
      → Live (set fs (k % c) f) c w r h d
  Live-same k v same = record {
    positive = v.positive;
    small = v.small;
    sized = omega (arith, length-set fs (k % c) f, v.sized);
    range = v.range;
    order = v.order;
    back = v.back;
    room = v.room;
    busy = λ n lo hi. ground (arith, kept (n % c), v.busy n lo hi);
    free = λ n lo hi. ground (arith, kept (n % c), v.free n lo hi);
  }
    where
      kept : (j : ℕ) → refs (set fs (k % c) f) j ≡ refs fs j
      kept j = elim (ℕ_discrete (k % c) j) [
        | yes e ↦ ground (arith, written v k j, same, ap (refs fs) e)
        | no ne ↦ ground (arith, written v k j)
      ]

  -- The producer gives its frame back unused.
  pub Live-abort : {d : ℕ} → Live fs c w r 1 d → f.refcount ≡ 0 → Live (set fs (w % c) f) c w r 0 d
  Live-abort v none_left = record {
    positive = v.positive;
    small = v.small;
    sized = omega (arith, length-set fs (w % c) f, v.sized);
    range = v.range;
    order = v.order;
    back = v.back;
    room = omega (arith, v.room);
    busy = λ n lo hi.
        let ne : n % c ≢ w % c = mod_ne c n w (omega arith) (omega (arith, v.room)) in
        ground (arith, written v w (n % c), v.busy n lo (omega arith));
    free = λ n lo hi. elim (dec_lt w n) [
      | yes old ↦ ground (arith, written v w (n % c), v.free n (omega arith) hi)
      | no last ↦ let e : n ≡ w = omega arith in rw e (ground (arith, written v w (w % c)))
    ];
  }

  -- The consumer gives its frame back.
  pub Live-release :
      {h : ℕ} → Live fs c w r h 1 → f.refcount ≡ 0 → Live (set fs ((r - 1) % c) f) c w r h 0
  Live-release {h} v none_left = record {
    positive = v.positive;
    small = v.small;
    sized = omega (arith, length-set fs ((r - 1) % c) f, v.sized);
    range = v.range;
    order = v.order;
    back = omega arith;
    room = omega (arith, v.room);
    busy = λ n lo hi.
        let ne : (r - 1) % c ≢ n % c =
          mod_ne c (r - 1) n (omega (arith, v.back)) (omega (arith, v.room, v.back)) in
        ground (arith, written v (r - 1) (n % c), v.busy n (omega arith) hi);
    free = λ n lo hi. elim (dec_lt (n + 1) (r + c)) [
      | yes old ↦ ground (arith, written v (r - 1) (n % c), v.free n lo old)
      | no last ↦
          let e : n ≡ r - 1 + c = omega (arith, v.back, v.positive) in
          let same : n % c ≡ (r - 1) % c = rw e (add-mod_right (r - 1) c) in
          ground (arith, written v (r - 1) (n % c))
    ];
  }

  -- A write of the producer to its slot changes no committed frame.
  pub window-producer :
      {h d : ℕ}
      → Live fs c w r h d
      → w < r + c
      → window (set fs (w % c) f) c r (w - r) ≡ window fs c r (w - r)
  window-producer v lt =
      window-set fs c r (w - r) (w % c) f
        λ k lo hi e. mod_ne c k w (omega arith) (omega arith) (sym e)

  -- Nor does one of the consumer to the slot that it has read.
  pub window-consumer :
      {h : ℕ}
      → Live fs c w r h 1
      → window (set fs ((r - 1) % c) f) c r (w - r) ≡ window fs c r (w - r)
  window-consumer v =
      window-set fs c r (w - r) ((r - 1) % c) f
        λ k lo hi. mod_ne c (r - 1) k (omega (arith, v.back)) (omega (arith, v.back, v.room))

module _ {fs : List Frame} {c w r : ℕ} where
  -- The frame that the producer holds becomes the last committed one.
  pub Live-commit : {d : ℕ} → Live fs c w r 1 d → w + 1 < int_min → Live fs c (w + 1) r 0 d
  Live-commit v small = record {
    positive = v.positive;
    small = v.small;
    sized = v.sized;
    range = small;
    order = omega (arith, v.order);
    back = v.back;
    room = omega (arith, v.room);
    busy = λ n lo hi. v.busy n lo (omega arith);
    free = λ n lo hi. v.free n (omega arith) hi;
  }

  -- The first committed frame becomes the one that the consumer holds.
  pub Live-advance : {h : ℕ} → Live fs c w r h 0 → r < w → Live fs c w (r + 1) h 1
  Live-advance v more = record {
    positive = v.positive;
    small = v.small;
    sized = v.sized;
    range = v.range;
    order = omega arith;
    back = omega arith;
    room = omega (arith, v.room);
    busy = λ n lo hi. v.busy n (omega arith) hi;
    free = λ n lo hi. v.free n lo (omega arith);
  }
