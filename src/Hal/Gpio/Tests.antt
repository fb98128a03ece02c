-- ===== src/Hal/Gpio/Tests.antt =====
-- A board with one chip that cannot be asked and two that tell of 32 lines each.
use imx8mp_building_blocks.Base.{◌+◌, ◌≡◌, refl, true, false, some, none, [], ◌∷◌, List}
use imx8mp_building_blocks.Hal.Gpio.{
  Chip, absent, no_info, lines, find_chip, Kernel, gpio_open, gpio_close, set_direction, set_edge,
  both, input, output, closes, unexport,
}
use imx8mp_building_blocks.Hal.Gpio.Search.{IsAnswer, find_chip-IsAnswer}
use imx8mp_building_blocks.Hal.Gpio.Files.{opened, closed, open_close-Balanced}

abbrev board : List Chip
board = absent ∷ no_info 5 ∷ lines 5 32 ∷ lines 5 32 ∷ []

find_chip-IsAnswer_example : IsAnswer 0 40 board (find_chip 0 40 board).0
find_chip-IsAnswer_example = find_chip-IsAnswer 0 40 board

found : (find_chip 0 40 board).0 ≡ some (3, 8)
unfolding find_chip
found = refl

abbrev kernel : Kernel
kernel = record {
  has_sysfs = false;
  chips = board;
  chip_opens = some 5;
  line_granted = some 6;
  export_opens = true;
  value_opens = none;
  unexport_opens = true;
  export_again = true;
  value_again = some 7;
  direction_opens = true;
}

open_close-Balanced_example :
    let (status, g, asked) = gpio_open kernel 40 output in
    opened 6 asked ≡ closed 6 asked + closed 6 (gpio_close true g).1
open_close-Balanced_example = open_close-Balanced kernel 40 output 6 true

-- The line and the chip are closed.
released : (gpio_close true (gpio_open kernel 40 output).1).1 ≡ closes 6 ∷ closes 5 ∷ []
unfolding gpio_open gpio_close
released = refl

-- Over the character device a change of direction reports success, and no edge can be set.
same_direction : set_direction true (gpio_open kernel 40 output).1 input ≡ (0, [])
unfolding gpio_open set_direction
same_direction = refl

no_edges : (set_edge true (gpio_open kernel 40 output).1 both).0 ≡ 4294967295
unfolding gpio_open set_edge
no_edges = refl

-- A pin of sysfs whose value file opens at no try stays exported.
left_exported :
    let k : Kernel = record kernel { has_sysfs = true; value_again = none } in
    (gpio_close true (gpio_open k 40 output).1).1 ≡ []
unfolding gpio_open gpio_close
left_exported = refl

-- With the second try the pin is had, and given back.
second_try :
    let k : Kernel = record kernel { has_sysfs = true } in
    (gpio_close true (gpio_open k 40 output).1).1 ≡ closes 7 ∷ unexport 40 ∷ []
unfolding gpio_open gpio_close
second_try = refl
