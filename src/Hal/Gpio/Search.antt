-- ===== src/Hal/Gpio/Search.antt =====
-- The chip that gpio_find_chip finds: the lines of the chips ahead of it are counted off.
use imx8mp_building_blocks.Base.{
  ℕ, suc, ◌+◌, ◌-◌, ◌<◌, ◌≤◌, ◌≡◌, Option, none, some, List, [], ◌∷◌, leb, arith, inl, inr,
  Bool-cases, take, get_or,
}
use imx8mp_building_blocks.Hal.Gpio.{Chip, absent, no_info, lines, find_chip}

-- The lines that a chip tells of.
abbrev pub line_count : Chip → ℕ
line_count absent = 0
line_count (no_info fd) = 0
line_count (lines fd n) = n

abbrev pub total : List Chip → ℕ
total [] = 0
total (c ∷ chips) = line_count c + total chips

-- Chip `i` and the offset in it are those of a pin: the lines ahead of the chip and the offset make up its
-- number, and the chip has the line.
pub record Place (num : ℕ) (chips : List Chip) (i offset : ℕ) : Type 0 where
  pub counted : total (take i chips) + offset ≡ num
  pub inside : offset < line_count (get_or chips i absent)

-- What the search tells of a pin, with the chips numbered from `base` on.
abbrev pub IsAnswer : ℕ → ℕ → List Chip → Option (ℕ × ℕ) → Type 0
IsAnswer base num chips none = total chips ≤ num
IsAnswer base num chips (some (chip, offset)) =
    (i : ℕ) × (chip ≡ base + i) × Place num chips i offset

IsAnswer-later :
    (base num : ℕ) (c : Chip) (chips : List Chip) (found : Option (ℕ × ℕ)) (rest : ℕ)
    → rest + line_count c ≡ num
    → IsAnswer (base + 1) rest chips found
    → IsAnswer base num (c ∷ chips) found
IsAnswer-later base num c chips none rest e h = omega arith
IsAnswer-later base num c chips (some (chip, offset)) rest e (i, at, place) =
    (suc i, omega arith, record { counted = omega (arith, place.counted); inside = place.inside })

-- The search, with the chips numbered from `base` on, gives the chip and the offset of the pin, and nothing
-- exactly if the pin is behind the last line that the chips tell of.
pub find_chip-IsAnswer :
    (base num : ℕ) (chips : List Chip) → IsAnswer base num chips (find_chip base num chips).0
unfolding find_chip
find_chip-IsAnswer base num [] = omega arith
find_chip-IsAnswer base num (absent ∷ chips) =
    IsAnswer-later base num absent chips (find_chip (base + 1) num chips).0 num (omega arith)
      (find_chip-IsAnswer (base + 1) num chips)
find_chip-IsAnswer base num (no_info fd ∷ chips) =
    IsAnswer-later base num (no_info fd) chips (find_chip (base + 1) num chips).0 num (omega arith)
      (find_chip-IsAnswer (base + 1) num chips)
find_chip-IsAnswer base num (lines fd n ∷ chips) = elim (Bool-cases (leb n num)) [
  | inl behind ↦ rw behind (
      IsAnswer-later base num (lines fd n) chips (find_chip (base + 1) (num - n) chips).0 (num - n)
        (ground arith) (find_chip-IsAnswer (base + 1) (num - n) chips))
  | inr here ↦ rw here (0, omega arith, record { counted = omega arith; inside = ground arith })
]
