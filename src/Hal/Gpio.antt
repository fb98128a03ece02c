-- ===== src/Hal/Gpio.antt =====
-- hal/bb_hal_gpio.c: a pin over the character device of its chip, or over sysfs. What the kernel answers
-- is an argument, and what is asked of it comes out as a list.
pub mod Search
pub mod Files
mod Tests
use imx8mp_building_blocks.Base.{
  ℕ, suc, ◌+◌, ◌-◌, ◌%◌, ◌==◌, leb, Bool, true, false, Option, none, some, List, [], ◌∷◌, ◌++◌,
  if◌then◌else◌,
}
use imx8mp_building_blocks.Base.Words.{minus_one, int_lt}

pub data PinDirection : Type 0 where
  input output : PinDirection

pub data Edge : Type 0 where
  no_edge rising falling both : Edge

-- `bb_gpio_t`; a descriptor is none for -1.
pub record Gpio : Type 0 where
  pub num : ℕ
  pub chip_fd : Option ℕ
  pub line_fd : Option ℕ
  pub line_offset : ℕ
  pub is_sysfs : Bool
  pub exported : Bool

-- What is asked of the kernel. The sysfs files are written to by the number of the pin.
pub data PinAction : Type 0 where
  opens closes : ℕ → PinAction
  export unexport : ℕ → PinAction
  direction : ℕ → PinDirection → PinAction
  edge : ℕ → Edge → PinAction
  request_line : ℕ → ℕ → PinDirection → PinAction
  set_value : ℕ → Bool → PinAction

-- One of /dev/gpiochip0 to 7: it cannot be opened, gives no information, or tells its number of lines.
pub data Chip : Type 0 where
  absent : Chip
  no_info : ℕ → Chip
  lines : ℕ → ℕ → Chip

-- gpio_find_chip, from chip `i` on: the chip and the offset in it, for a number that is not negative.
unfoldable pub find_chip : ℕ → ℕ → List Chip → Option (ℕ × ℕ) × List PinAction
find_chip i num [] = (none, [])
find_chip i num (absent ∷ chips) = find_chip (i + 1) num chips
find_chip i num (no_info fd ∷ chips) =
    let (found, actions) = find_chip (i + 1) num chips in (found, opens fd ∷ closes fd ∷ actions)
find_chip i num (lines fd n ∷ chips) =
    let (found, actions) = find_chip (i + 1) (num - n) chips in
    if leb n num
    then (found, opens fd ∷ closes fd ∷ actions)
    else (some (i, num), opens fd ∷ closes fd ∷ [])

-- What bb_gpio_open meets.
pub record Kernel : Type 0 where
  pub has_sysfs : Bool
  pub chips : List Chip
  pub chip_opens : Option ℕ
  pub line_granted : Option ℕ
  pub export_opens : Bool
  pub value_opens : Option ℕ
  pub unexport_opens : Bool
  pub export_again : Bool
  pub value_again : Option ℕ
  pub direction_opens : Bool

-- A status, the pin, and what has been asked.
abbrev pub Result : Type 0
Result = ℕ × Gpio × List PinAction

-- A file of sysfs that is written if it can be opened.
abbrev pub write_if : Bool → PinAction → List PinAction
write_if true a = a ∷ []
write_if false a = []

-- What bb_gpio_open makes of the pin at first.
abbrev pub blank : Gpio
blank = record {
  num = 0;
  chip_fd = none;
  line_fd = none;
  line_offset = 0;
  is_sysfs = false;
  exported = false;
}

-- gpio_v2_open behind the search.
unfoldable pub request_pin : Kernel → ℕ → PinDirection → Gpio → ℕ × ℕ → Result
request_pin k num dir g (chip, offset) = elim k.chip_opens [
  | none ↦ (minus_one, g, [])
  | some chip_fd ↦
      let asked = opens chip_fd ∷ request_line chip offset dir ∷ [] in
      elim k.line_granted [
        | none ↦ (minus_one, g, asked ++ closes chip_fd ∷ [])
        | some line_fd ↦ (
          0,
          record {
            num = num;
            chip_fd = some chip_fd;
            line_fd = some line_fd;
            line_offset = offset;
            is_sysfs = false;
            exported = false;
          },
          asked ++ opens line_fd ∷ [],
        )
      ]
]

-- What gpio_v2_open does with the answer of the search.
unfoldable pub v2_found :
    Kernel → ℕ → PinDirection → Gpio → Option (ℕ × ℕ) → List PinAction → Result
unfolding request_pin
v2_found k num dir g none searched = (minus_one, g, searched)
v2_found k num dir g (some place) searched =
    let (status, g', asked) = request_pin k num dir g place in (status, g', searched ++ asked)

unfoldable pub v2_open : Kernel → ℕ → PinDirection → Gpio → Result
unfolding find_chip v2_found
v2_open k num dir g =
    let (found, searched) = find_chip 0 num k.chips in v2_found k num dir g found searched

-- gpio_sysfs_set_direction
unfoldable pub sysfs_set_direction : Bool → Gpio → PinDirection → ℕ × List PinAction
sysfs_set_direction false g dir = (minus_one, [])
sysfs_set_direction true g dir = (0, direction g.num dir ∷ [])

-- The end of gpio_sysfs_open, with the descriptor of the value.
unfoldable pub with_value : Kernel → PinDirection → Gpio → List PinAction → ℕ → Result
unfolding sysfs_set_direction
with_value k dir g asked fd =
    let g' : Gpio = record g { line_fd = some fd; exported = true } in
    let (status, written) = sysfs_set_direction k.direction_opens g' dir in
    (status, g', asked ++ (opens fd ∷ written))

-- The pin of gpio_sysfs_open before a file is opened.
abbrev pub sysfs_pin : Gpio → ℕ → Gpio
sysfs_pin g num = record g {
  num = num;
  chip_fd = none;
  line_fd = none;
  line_offset = 0;
  is_sysfs = true;
}

-- The export, and the one after the pin is taken back.
abbrev pub export_twice : Kernel → ℕ → List PinAction
export_twice k num =
    export num ∷ write_if k.unexport_opens (unexport num) ++ write_if k.export_again (export num)

unfoldable pub sysfs_open : Kernel → ℕ → PinDirection → Gpio → Result
unfolding with_value
sysfs_open k num dir g =
    let g' = sysfs_pin g num in
    let retry = export_twice k num in
    if k.export_opens
    then elim k.value_opens [
      | some fd ↦ with_value k dir g' (export num ∷ []) fd
      | none ↦ elim k.value_again [
        | some fd ↦ with_value k dir g' retry fd
        | none ↦ (minus_one, g', retry)
      ]
    ]
    else (minus_one, g', [])

-- bb_gpio_open
unfoldable pub gpio_open : Kernel → ℕ → PinDirection → Result
unfolding v2_open sysfs_open
gpio_open k num dir = if k.has_sysfs then sysfs_open k num dir blank else v2_open k num dir blank

-- bb_gpio_set_direction: over the character device it does nothing, and says that it did.
unfoldable pub set_direction : Bool → Gpio → PinDirection → ℕ × List PinAction
unfolding sysfs_set_direction
set_direction file_opens g dir =
    if g.is_sysfs then sysfs_set_direction file_opens g dir else (0, [])

-- gpio_sysfs_read and gpio_v2_read, from the byte of the value file and the bits of the line, none for an error.
unfoldable pub sysfs_read : Option ℕ → ℕ
sysfs_read none = minus_one
sysfs_read (some c) = if c == b'1' then 1 else 0

unfoldable pub v2_read : Option ℕ → ℕ
v2_read none = minus_one
v2_read (some bits) = if bits % 2 == 1 then 1 else 0

-- bb_gpio_read
unfoldable pub gpio_read : Gpio → Option ℕ → ℕ
unfolding sysfs_read v2_read
gpio_read g got = if g.is_sysfs then sysfs_read got else v2_read got

-- gpio_sysfs_write and gpio_v2_write, with whether the kernel takes the value.
unfoldable pub write_value : Option ℕ → Bool → Bool → ℕ × List PinAction
write_value none takes value = (minus_one, [])
write_value (some fd) takes value = (if takes then 0 else minus_one, set_value fd value ∷ [])

-- bb_gpio_write
unfoldable pub gpio_write : Gpio → Bool → Bool → ℕ × List PinAction
unfolding write_value
gpio_write g takes value = write_value g.line_fd takes value

-- bb_gpio_set_edge: not over the character device.
unfoldable pub set_edge : Bool → Gpio → Edge → ℕ × List PinAction
set_edge file_opens g e =
    if g.is_sysfs
    then (if file_opens then (0, edge g.num e ∷ []) else (minus_one, []))
    else (minus_one, [])

-- bb_gpio_poll, with the status of poll and what is read then.
unfoldable pub gpio_poll : Gpio → ℕ → Option ℕ → ℕ
unfolding gpio_read
gpio_poll g ret value = elim g.line_fd [
  | none ↦ minus_one
  | some fd ↦ if g.is_sysfs then (if int_lt 0 ret then gpio_read g value else ret) else ret
]

abbrev pub close_fd : Option ℕ → List PinAction
close_fd none = []
close_fd (some fd) = closes fd ∷ []

-- bb_gpio_close, with whether the file for it can be opened.
unfoldable pub gpio_close : Bool → Gpio → Gpio × List PinAction
gpio_close file_opens g =
    if g.is_sysfs
    then (
      record g { line_fd = none; exported = false },
      close_fd g.line_fd ++ (if g.exported then write_if file_opens (unexport g.num) else []),
    )
    else (record g { line_fd = none; chip_fd = none }, close_fd g.line_fd ++ close_fd g.chip_fd)
