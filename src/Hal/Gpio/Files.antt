-- ===== src/Hal/Gpio/Files.antt =====
-- The descriptors of a pin: what bb_gpio_open has opened, bb_gpio_close closes.
use imx8mp_building_blocks.Base.{
  ℕ, ◌+◌, ◌-◌, ◌≡◌, refl, ◌==◌, Bool, true, false, Option, none, some, List, [], ◌∷◌, ◌++◌, leb,
  if◌then◌else◌, arith, inl, inr, Bool-cases, Option-cases,
}
use imx8mp_building_blocks.Hal.Gpio.{
  Gpio, Chip, absent, no_info, lines, find_chip, PinAction, PinDirection, opens, closes, export,
  unexport, direction, edge, request_line, set_value, Kernel, request_pin, v2_found, v2_open,
  sysfs_open, sysfs_set_direction, with_value, gpio_open, gpio_close, blank, write_if, Result,
  sysfs_pin, export_twice,
}

-- How often a descriptor is opened and closed in a row of actions.
abbrev pub opened : ℕ → List PinAction → ℕ
opened fd [] = 0
opened fd (opens x ∷ actions) = (if x == fd then 1 else 0) + opened fd actions
opened fd (a ∷ actions) = opened fd actions

abbrev pub closed : ℕ → List PinAction → ℕ
closed fd [] = 0
closed fd (closes x ∷ actions) = (if x == fd then 1 else 0) + closed fd actions
closed fd (a ∷ actions) = closed fd actions

module _ (fd : ℕ) where
  opened-append : (xs ys : List PinAction) → opened fd (xs ++ ys) ≡ opened fd xs + opened fd ys
  opened-append [] ys = omega arith
  opened-append (opens x ∷ xs) ys = omega (arith, opened-append xs ys)
  opened-append (closes x ∷ xs) ys = opened-append xs ys
  opened-append (export x ∷ xs) ys = opened-append xs ys
  opened-append (unexport x ∷ xs) ys = opened-append xs ys
  opened-append (direction x d ∷ xs) ys = opened-append xs ys
  opened-append (edge x e ∷ xs) ys = opened-append xs ys
  opened-append (request_line i o d ∷ xs) ys = opened-append xs ys
  opened-append (set_value x v ∷ xs) ys = opened-append xs ys

  closed-append : (xs ys : List PinAction) → closed fd (xs ++ ys) ≡ closed fd xs + closed fd ys
  closed-append [] ys = omega arith
  closed-append (opens x ∷ xs) ys = closed-append xs ys
  closed-append (closes x ∷ xs) ys = omega (arith, closed-append xs ys)
  closed-append (export x ∷ xs) ys = closed-append xs ys
  closed-append (unexport x ∷ xs) ys = closed-append xs ys
  closed-append (direction x d ∷ xs) ys = closed-append xs ys
  closed-append (edge x e ∷ xs) ys = closed-append xs ys
  closed-append (request_line i o d ∷ xs) ys = closed-append xs ys
  closed-append (set_value x v ∷ xs) ys = closed-append xs ys

  find_chip-Balanced :
      (i num : ℕ) (chips : List Chip)
      → opened fd (find_chip i num chips).1 ≡ closed fd (find_chip i num chips).1
  unfolding find_chip
  find_chip-Balanced i num [] = refl
  find_chip-Balanced i num (absent ∷ chips) = find_chip-Balanced (i + 1) num chips
  find_chip-Balanced i num (no_info x ∷ chips) = omega (arith, find_chip-Balanced (i + 1) num chips)
  find_chip-Balanced i num (lines x n ∷ chips) = elim (Bool-cases (leb n num)) [
    | inl behind ↦ rw behind (omega (arith, find_chip-Balanced (i + 1) (num - n) chips))
    | inr here ↦ rw here refl
  ]

  -- What a call leaves open is what the close of the pin closes.
  abbrev Balanced : Result → Type 0
  Balanced (status, g, asked) =
      (file_opens : Bool)
      → opened fd asked ≡ closed fd asked + closed fd (gpio_close file_opens g).1

  request_pin-Balanced :
      (k : Kernel) (num : ℕ) (dir : PinDirection) (place : ℕ × ℕ)
      → Balanced (request_pin k num dir blank place)
  unfolding request_pin gpio_close
  request_pin-Balanced k num dir (chip, offset) file_opens = elim (Option-cases k.chip_opens) [
    | inl e ↦ rw e refl
    | inr (chip_fd, e) ↦ elim (Option-cases k.line_granted) [
      | inl e' ↦ rw (e, e') (omega arith)
      | inr (line_fd, e') ↦ rw (e, e') (omega arith)
    ]
  ]

  v2_found-Balanced :
      (k : Kernel) (num : ℕ) (dir : PinDirection) (found : Option (ℕ × ℕ))
      (searched : List PinAction)
      → opened fd searched ≡ closed fd searched
      → Balanced (v2_found k num dir blank found searched)
  unfolding v2_found gpio_close
  v2_found-Balanced k num dir none searched even file_opens = omega (arith, even)
  v2_found-Balanced k num dir (some place) searched even file_opens =
      let asked = (request_pin k num dir blank place).2 in
      omega (
        arith,
        even,
        request_pin-Balanced k num dir place file_opens,
        opened-append searched asked,
        closed-append searched asked,
      )

  -- The files of sysfs are closed where they are written.
  abbrev Quiet : List PinAction → Type 0
  Quiet actions = (opened fd actions ≡ 0) × (closed fd actions ≡ 0)

  Quiet-append : (xs ys : List PinAction) → Quiet xs → Quiet ys → Quiet (xs ++ ys)
  Quiet-append xs ys (o, c) (o', c') =
      (omega (arith, opened-append xs ys, o, o'), omega (arith, closed-append xs ys, c, c'))

  write_if-Quiet : (b : Bool) (a : PinAction) → Quiet (a ∷ []) → Quiet (write_if b a)
  write_if-Quiet true a h = h
  write_if-Quiet false a h = (refl, refl)

  export_twice-Quiet : (k : Kernel) (num : ℕ) → Quiet (export_twice k num)
  export_twice-Quiet k num =
      Quiet-append (export num ∷ write_if k.unexport_opens (unexport num))
        (write_if k.export_again (export num))
        (write_if-Quiet k.unexport_opens (unexport num) (refl, refl))
        (write_if-Quiet k.export_again (export num) (refl, refl))

  sysfs_set_direction-Quiet :
      (b : Bool) (g : Gpio) (dir : PinDirection) → Quiet (sysfs_set_direction b g dir).1
  unfolding sysfs_set_direction
  sysfs_set_direction-Quiet true g dir = (refl, refl)
  sysfs_set_direction-Quiet false g dir = (refl, refl)

  with_value-Balanced :
      (k : Kernel) (num : ℕ) (dir : PinDirection) (asked : List PinAction) (value : ℕ)
      → Quiet asked
      → Balanced (with_value k dir (sysfs_pin blank num) asked value)
  unfolding with_value gpio_close
  with_value-Balanced k num dir asked value (o, c) file_opens =
      let g' : Gpio = record (sysfs_pin blank num) { line_fd = some value; exported = true } in
      let (_, written) = sysfs_set_direction k.direction_opens g' dir in
      let w = sysfs_set_direction-Quiet k.direction_opens g' dir in
      let q = write_if-Quiet file_opens (unexport num) (refl, refl) in
      omega (
        arith,
        opened-append asked (opens value ∷ written),
        closed-append asked (opens value ∷ written),
        o,
        c,
        w.0,
        w.1,
        q.0,
        q.1,
      )

  sysfs_open-Balanced :
      (k : Kernel) (num : ℕ) (dir : PinDirection) → Balanced (sysfs_open k num dir blank)
  unfolding sysfs_open gpio_close
  sysfs_open-Balanced k num dir file_opens =
      let twice = export_twice-Quiet k num in
      elim (Bool-cases k.export_opens) [
        | inl e ↦ elim (Option-cases k.value_opens) [
          | inr (value, e') ↦
              rw (e, e')
                (with_value-Balanced k num dir (export num ∷ []) value (refl, refl) file_opens)
          | inl e' ↦ elim (Option-cases k.value_again) [
            | inr (value, e'') ↦
                rw (e, e', e'')
                  (with_value-Balanced k num dir (export_twice k num) value twice file_opens)
            | inl e'' ↦ rw (e, e', e'') (omega (arith, twice.0, twice.1))
          ]
        ]
        | inr e ↦ rw e refl
      ]

-- Whatever the kernel grants, bb_gpio_open and then bb_gpio_close open every descriptor as often as they close it.
pub open_close-Balanced :
    (k : Kernel) (num : ℕ) (dir : PinDirection) (fd : ℕ) (file_opens : Bool)
    → let (status, g, asked) = gpio_open k num dir in
      opened fd asked ≡ closed fd asked + closed fd (gpio_close file_opens g).1
unfolding gpio_open v2_open
open_close-Balanced k num dir fd file_opens = elim (Bool-cases k.has_sysfs) [
  | inl e ↦ rw e (sysfs_open-Balanced fd k num dir file_opens)
  | inr e ↦ rw e (
      v2_found-Balanced fd k num dir (find_chip 0 num k.chips).0 (find_chip 0 num k.chips).1
        (find_chip-Balanced fd 0 num k.chips) file_opens)
]
