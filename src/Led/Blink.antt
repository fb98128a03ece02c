-- ===== src/Led/Blink.antt =====
-- The blinking thread of blocks/bb-led/main.c.
use imx8mp_building_blocks.Base.{
  ℕ, zero, suc, ◌+◌, ◌%◌, ◌≤◌, ◌<◌, ◌≡◌, refl, Bool, true, false, ◌||◌, List, [], ◌∷◌, ◌==◌, arith,
  replicate, inl, inr, Bool-cases,
}
use imx8mp_building_blocks.Base.Words.{int_mod, int_min, int_lt}
use imx8mp_building_blocks.Led.{Reads, blink}

-- A round that nothing cuts short.
abbrev pub steady : Reads
steady = record { at_test = true; after_on = true; after_off = true }

-- On and off, `n` times.
abbrev pub flashes : ℕ → List Bool
flashes zero = []
flashes (suc n) = true ∷ false ∷ flashes n

-- The thread with `k` cycles to go.
blink-steady :
    (count c k : ℕ)
    → 0 < count
    → count < int_min
    → c + k ≡ count
    → blink count (replicate (suc k) steady) c ≡ (true, count, flashes k)
unfolding blink
blink-steady count c zero positive small e = ground arith
blink-steady count c (suc k) positive small e =
    let next : (c + 1) % int_mod ≡ c + 1 = omega arith in
    let more : (count == 0 || int_lt c count) ≡ true = ground arith in
    rw more (rw next (rw (blink-steady count (c + 1) k positive small (omega arith)) refl))

-- A blinking thread with a positive count that nothing stops switches the LED on and off exactly
-- that often, ends, and reports that number of cycles; the LED is off then.
pub blink_counts :
    (count : ℕ)
    → 0 < count
    → count < int_min
    → blink count (replicate (suc count) steady) 0 ≡ (true, count, flashes count)
blink_counts count positive small = blink-steady count 0 count positive small (omega arith)

-- However the thread is stopped, it never reports more cycles than the positive count it was given.
pub blink_bounded :
    (count c : ℕ) (rounds : List Reads)
    → 0 < count
    → count < int_min
    → c ≤ count
    → (blink count rounds c).1 ≤ count
unfolding blink
blink_bounded count c [] positive small h = h
blink_bounded count c (r ∷ rounds) positive small h =
    elim (Bool-cases (count == 0 || int_lt c count)) [
      | inl more ↦
          let next : (c + 1) % int_mod ≡ c + 1 = omega arith in
          let rest : (blink count rounds (c + 1)).1 ≤ count =
            blink_bounded count (c + 1) rounds positive small (ground arith) in
          rw more (rw next (ground (arith, rest)))
      | inr done ↦ rw done (ground arith)
    ]
