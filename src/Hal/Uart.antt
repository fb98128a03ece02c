-- ===== src/Hal/Uart.antt =====
-- hal/bb_hal_uart.c: a serial line. The settings of the terminal are a state; which calls the driver takes
-- is an argument.
pub mod Configured
mod Tests
use imx8mp_building_blocks.Base.{
  ℕ, ◌==◌, ◌||◌, Bool, true, false, Option, none, some, List, [], ◌∷◌, length, take, if◌then◌else◌,
}
use imx8mp_building_blocks.Base.Words.{minus_one}

pub data Parity : Type 0 where
  no_parity odd even : Parity

-- What the code sets of a `struct termios`: flags, two characters, and the speed. `csize` is the number of
-- bits of a character, `lflag` and `iflag` tell whether one of the flags that the code clears is set.
pub record Termios : Type 0 where
  pub speed : ℕ
  pub local_read : Bool
  pub parenb : Bool
  pub parodd : Bool
  pub cstopb : Bool
  pub csize : ℕ
  pub lflag : Bool
  pub iflag : Bool
  pub opost : Bool
  pub vmin : ℕ
  pub vtime : ℕ

-- `bb_uart_t`; the descriptor is none for -1.
pub record Uart : Type 0 where
  pub fd : Option ℕ
  pub device : List ℕ

-- Whether tcgetattr and tcsetattr succeed.
pub record Takes : Type 0 where
  pub gets : Bool
  pub sets : Bool

-- The speeds that the switch of bb_uart_set_baud knows.
abbrev pub is_speed : ℕ → Bool
is_speed baud =
    baud == 9600
    || baud == 19200
    || baud == 38400
    || baud == 57600
    || baud == 115200
    || baud == 230400
    || baud == 460800
    || baud == 921600

-- tcgetattr, a change, and tcsetattr: the status and the settings after it.
abbrev pub change : Takes → (Termios → Termios) → Termios → ℕ × Termios
change k f tty =
    if k.gets then (if k.sets then (0, f tty) else (minus_one, tty)) else (minus_one, tty)

-- bb_uart_set_baud
unfoldable pub set_baud : Takes → Uart → ℕ → Termios → ℕ × Termios
set_baud k u baud tty = elim u.fd [
  | none ↦ (minus_one, tty)
  | some fd ↦
      if is_speed baud then change k (λ t. record t { speed = baud }) tty else (minus_one, tty)
]

-- The change of bb_uart_set_parity.
abbrev pub with_parity : Parity → Termios → Termios
with_parity no_parity t = record t { parenb = false }
with_parity odd t = record t { parenb = true; parodd = true }
with_parity even t = record t { parenb = true; parodd = false }

-- bb_uart_set_parity
unfoldable pub set_parity : Takes → Uart → Parity → Termios → ℕ × Termios
set_parity k u parity tty = elim u.fd [
  | none ↦ (minus_one, tty)
  | some fd ↦ change k (with_parity parity) tty
]

-- The raw settings with 8 bits, no parity and one stop bit, at 115200 baud.
abbrev pub raw : Termios → Termios
raw t = record t {
  speed = 115200;
  local_read = true;
  parenb = false;
  cstopb = false;
  csize = 8;
  lflag = false;
  iflag = false;
  opost = false;
  vmin = 0;
  vtime = 1;
}

-- What bb_uart_open makes of the first change: the status, the settings, and whether the descriptor is closed again.
unfoldable pub speed_next : Takes → Uart → ℕ → ℕ × Termios → ℕ × Termios × Bool
unfolding set_baud
speed_next k u baud (status, tty) =
    let (status', tty') = set_baud k u baud tty in
    if status == 0 then (status', tty', false) else (minus_one, tty, true)

-- bb_uart_open, with what open and the calls for the two changes answer. After an error the descriptor stays in the
-- record.
unfoldable pub uart_open :
    Option ℕ → Takes → Takes → List ℕ → ℕ → Termios → Uart × (ℕ × Termios × Bool)
unfolding speed_next
uart_open opens k k' device baud tty =
    let u : Uart = record { fd = opens; device = take 63 device } in
    elim opens [
      | none ↦ (u, (minus_one, tty, false))
      | some fd ↦ (u, speed_next k' u baud (change k raw tty))
    ]

-- bb_uart_write, with the count that write returns, or none for an error.
unfoldable pub uart_write : Uart → Option ℕ → List ℕ → ℕ
uart_write u none bytes = minus_one
uart_write u (some n) bytes = elim u.fd [
  | none ↦ minus_one
  | some fd ↦ if n == length bytes then 0 else minus_one
]

-- What select and read answer: nothing in time or an error of select, EAGAIN, another error, or bytes.
pub data Arrival : Type 0 where
  nothing again failed : Arrival
  arrived : List ℕ → Arrival

-- bb_uart_read: the status, and the bytes.
unfoldable pub uart_read : Uart → Arrival → ℕ × List ℕ
uart_read u a = elim u.fd [
  | none ↦ (minus_one, [])
  | some fd ↦ elim a [
    | nothing ↦ (0, [])
    | again ↦ (0, [])
    | failed ↦ (minus_one, [])
    | arrived bytes ↦ (length bytes, bytes)
  ]
]

-- bb_uart_available: 0 if the ioctl fails.
unfoldable pub available : Uart → Option ℕ → ℕ
available u waiting = elim u.fd [
  | none ↦ minus_one
  | some fd ↦ elim waiting [ none ↦ 0 | some n ↦ n ]
]

-- bb_uart_close: the descriptor that is closed.
unfoldable pub uart_close : Uart → Uart × Option ℕ
uart_close u = (record u { fd = none }, u.fd)
