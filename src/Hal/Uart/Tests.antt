-- ===== src/Hal/Uart/Tests.antt =====
-- The console of the board, with an echoing terminal before it is opened.
use imx8mp_building_blocks.Base.{ℕ, Option, ◌≡◌, refl, true, false, some, [], ◌∷◌}
use imx8mp_building_blocks.Hal.Uart.{
  Termios, Takes, uart_open, set_baud, uart_read, uart_close, again,
}

abbrev console : Termios
console = record {
  speed = 9600;
  local_read = false;
  parenb = true;
  parodd = true;
  cstopb = true;
  csize = 7;
  lflag = true;
  iflag = true;
  opost = true;
  vmin = 1;
  vtime = 0;
}

abbrev descriptor : Option ℕ
descriptor = some 3

abbrev all_well : Takes
all_well = record { gets = true; sets = true }

opens_console : (uart_open descriptor all_well all_well (b'/' ∷ []) 460800 console).1.0 ≡ 0
unfolding uart_open set_baud
opens_console = refl

-- A speed that is not in the list: the call fails at the end, and the line keeps 115200 baud and its descriptor.
odd_speed :
    let (u, (status, tty, closed)) = uart_open descriptor all_well all_well [] 12345 console in
    (status ≡ 4294967295) × (tty.speed ≡ 115200) × (closed ≡ false)
unfolding uart_open set_baud
odd_speed = (refl, refl, refl)

-- If the settings are refused the descriptor is closed, and closed again by bb_uart_close.
closed_twice :
    let (u, (status, tty, closed)) =
      uart_open descriptor (record { gets = true; sets = false }) all_well [] 9600 console in
    (closed ≡ true) × ((uart_close u).1 ≡ some 3)
unfolding uart_open uart_close
closed_twice = (refl, refl)

would_block : uart_read (record { fd = some 3; device = [] }) again ≡ (0, [])
unfolding uart_read
would_block = refl
