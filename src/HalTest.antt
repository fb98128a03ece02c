-- ===== src/HalTest.antt =====
-- tools/bb-hal-test.c: a test for each kind of device, over the functions of Hal. What the devices answer is an
-- argument. Left out are the messages and what no verdict depends on: an LED is toggled, and at the end of a test the
-- device is closed.
pub mod Status
mod Tests
use imx8mp_building_blocks.Base.{
  ℕ, zero, suc, ◌+◌, ◌%◌, ◌==◌, ltb, ◌&&◌, ◌||◌, not, Bool, true, false, Option, none, some, List,
  [], ◌∷◌, ◌++◌, length, get_or, if◌then◌else◌,
}
use imx8mp_building_blocks.Base.Bytes.{Bytes, codes, str_eq}
use imx8mp_building_blocks.Base.Words.{is_neg, int_lt, minus_one}
use imx8mp_building_blocks.Board.{Board, Devices, devices_of}
use imx8mp_building_blocks.Hal.I2c.{I2c, i2c_open, probe}
use imx8mp_building_blocks.Hal.Spi.{SpiAnswers, spi_open, spi_transfer}
use imx8mp_building_blocks.Hal.Gpio.{Kernel, gpio_open, gpio_write, gpio_read, output}
use imx8mp_building_blocks.Led.{Sysfs, led_open, led_on, led_off}
use imx8mp_building_blocks.Hal.Pwm.{Pwm, pwm_open, set_period, set_duty, pwm_enable}
use imx8mp_building_blocks.Hal.Rtc.{RtcTime, Time, rtc_open, rtc_read}
use imx8mp_building_blocks.Hal.Watchdog.{wdg_open, get_timeout, kick}
use imx8mp_building_blocks.Hal.Uart.{Takes, Termios, uart_open, uart_write}

-- What a PWM channel and a serial line answer.
pub record PwmAnswers : Type 0 where
  pub exports : Bool
  pub appears : Bool
  pub period_opens : Bool
  pub duty_opens : Bool
  pub enable_opens : Bool

pub record UartAnswers : Type 0 where
  pub opens : Option ℕ
  pub first : Takes
  pub second : Takes
  pub settings : Termios
  pub written : Option ℕ

-- What the devices of the board answer: for each bus and address, whether I2C_SLAVE is taken and the empty write
-- acknowledged, and what the pin reads after a 1 or a 0 has been written to it.
pub record Hardware : Type 0 where
  pub bus_opens : ℕ → Option ℕ
  pub selects : ℕ → ℕ → Bool
  pub acknowledges : ℕ → ℕ → Bool
  pub spi : SpiAnswers
  pub spi_accepts : Bool
  pub gpio : Kernel
  pub gpio_value : Bool → Option ℕ
  pub led_max : Bytes → Option ℕ
  pub led_present : Bytes → Bool
  pub pwm : ℕ → PwmAnswers
  pub rtc_fd : Option ℕ
  pub clock : Option RtcTime
  pub wdg_fd : Option ℕ
  pub wdg_first : Option ℕ
  pub wdg_timeout : Option ℕ
  pub wdg_takes : Bool
  pub uart : Bytes → UartAnswers

-- FAIL counts one, and PASS nothing.
abbrev pub verdict : Bool → ℕ
verdict true = 0
verdict false = 1

-- The loop over `n` addresses from `addr` on: those at which a device acknowledges.
unfoldable pub scan_from : Hardware → ℕ → I2c → ℕ → ℕ → List ℕ
unfolding probe
scan_from h bus i2c zero addr = []
scan_from h bus i2c (suc n) addr =
    let rest = scan_from h bus i2c n (addr + 1) in
    if probe (h.selects bus addr) (h.acknowledges bus addr) i2c == 0 then addr ∷ rest else rest

-- Addresses 0x03 to 0x77.
abbrev pub first_address : ℕ
first_address = 3

abbrev pub address_count : ℕ
address_count = 117

-- A bus: none if it cannot be opened. (The name of a device is left out of the structure.)
unfoldable pub scan_bus : Hardware → ℕ → Option (List ℕ)
unfolding i2c_open scan_from
scan_bus h bus =
    let (status, i2c) = i2c_open (h.bus_opens bus) [] in
    if is_neg status then none else some (scan_from h bus i2c address_count first_address)

-- The loop of test_i2c_scan over the buses of the board from index `b` on: the failures.
unfoldable pub scan_buses : Hardware → List ℕ → ℕ → ℕ → ℕ
unfolding scan_bus
scan_buses h buses zero b = 0
scan_buses h buses (suc n) b =
    let rest = scan_buses h buses n (b + 1) in
    elim (scan_bus h (get_or buses b 0)) [ none ↦ suc rest | some found ↦ rest ]

unfoldable pub test_i2c_scan : Hardware → Devices → ℕ
unfolding scan_buses
test_i2c_scan h d = scan_buses h d.i2c_buses d.i2c_count 0

unfoldable pub test_i2c_first_bus : Hardware → ℕ
unfolding scan_bus
test_i2c_first_bus h = elim (scan_bus h 0) [
  | none ↦ 1
  | some found ↦ verdict (ltb 0 (length found))
]

unfoldable pub test_spi : Hardware → ℕ
unfolding spi_open spi_transfer
test_spi h =
    let (status, spi, closed) = spi_open h.spi [] 1000000 0 8 in
    let tx = 0x9f ∷ 0 ∷ 0 ∷ 0 ∷ [] in
    if is_neg status then 1 else verdict (not (is_neg (spi_transfer h.spi_accepts spi tx).0))

-- What is read after each write, 1 and 0, and whether the test fails: a wrong value does not count.
unfoldable pub test_gpio : Hardware → Devices → List ℕ × ℕ
unfolding gpio_open gpio_write gpio_read
test_gpio h d =
    let (status, gpio, asked) = gpio_open h.gpio d.gpio_test_pin output in
    if is_neg status
    then ([], 1)
    else (gpio_read gpio (h.gpio_value true) ∷ gpio_read gpio (h.gpio_value false) ∷ [], 0)

-- The loop of test_led: how many LEDs can be opened. An empty name is passed over.
unfoldable pub led_tests : Hardware → List Bytes → ℕ
unfolding led_open
led_tests h [] = 0
led_tests h ([] ∷ names) = led_tests h names
led_tests h ((c ∷ name) ∷ names) =
    let rest = led_tests h names in
    let (status, led) =
      led_open (c ∷ name) (h.led_max (c ∷ name)) (h.led_present (c ∷ name)) 0 [] in
    if is_neg status then rest else suc rest

unfoldable pub test_led : Hardware → Devices → ℕ
unfolding led_tests
test_led h d = verdict (ltb 0 (led_tests h (d.led1 ∷ d.led2 ∷ [])))

-- A channel that can be exported, set up and enabled.
unfoldable pub pwm_works : PwmAnswers → ℕ → Bool
unfolding pwm_open set_period set_duty pwm_enable
pwm_works a chip =
    let (status, pwm, written) = pwm_open a.exports a.appears chip 0 in
    not (is_neg status)
    && not (is_neg (set_period a.period_opens pwm 1000000).0)
    && not (is_neg (set_duty a.duty_opens pwm 500000).0)
    && not (is_neg (pwm_enable a.enable_opens pwm).0)

-- The loop of test_pwm over the chips from index `i` on.
unfoldable pub pwm_tests : Hardware → List ℕ → ℕ → ℕ → Bool
unfolding pwm_works
pwm_tests h chips zero i = false
pwm_tests h chips (suc n) i =
    let rest = pwm_tests h chips n (i + 1) in
    let chip = get_or chips i 0 in pwm_works (h.pwm chip) chip || rest

unfoldable pub test_pwm : Hardware → Devices → ℕ
unfolding pwm_tests
test_pwm h d = verdict (pwm_tests h d.pwm_test_chips d.pwm_test_count 0)

abbrev pub no_time : Time
no_time = record { year = 0; mon = 0; day = 0; hour = 0; min = 0; sec = 0 }

unfoldable pub test_rtc : Hardware → ℕ
unfolding rtc_open rtc_read
test_rtc h =
    let (status, rtc) = rtc_open h.rtc_fd [] in
    if is_neg status then 1 else verdict ((rtc_read rtc h.clock no_time).0 == 0)

-- A timeout of 0 or less passes with no kick.
unfoldable pub test_wdg : Hardware → ℕ
unfolding wdg_open get_timeout kick
test_wdg h =
    let (status, wdg) = wdg_open h.wdg_fd h.wdg_first in
    let (timeout, wdg') = get_timeout h.wdg_timeout wdg in
    if is_neg status
    then 1
    else if int_lt 0 timeout
    then verdict ((kick h.wdg_takes wdg').0 == 0)
    else 0

-- A line that can be opened and written to.
unfoldable pub uart_works : UartAnswers → Bytes → Bool
unfolding uart_open uart_write
uart_works a dev =
    let (uart, (status, tty, closed)) = uart_open a.opens a.first a.second dev 115200 a.settings in
    not (is_neg status) && uart_write uart a.written (codes "AT" ++ 13 ∷ 10 ∷ []) == 0

unfoldable pub uart_tests : Hardware → List Bytes → ℕ → ℕ → Bool
unfolding uart_works
uart_tests h devs zero i = false
uart_tests h devs (suc n) i =
    let rest = uart_tests h devs n (i + 1) in
    let dev = get_or devs i [] in uart_works (h.uart dev) dev || rest

unfoldable pub test_uart : Hardware → Devices → ℕ
unfolding uart_tests
test_uart h d = verdict (uart_tests h d.uart_devs d.uart_count 0)

-- The failures that main counts.
unfoldable pub test_failures : Board → Hardware → ℕ
unfolding test_i2c_scan test_i2c_first_bus test_spi test_gpio test_led test_pwm test_rtc test_wdg
    test_uart
test_failures b h =
    let d = devices_of b in
    test_i2c_scan h d
    + test_i2c_first_bus h
    + test_spi h
    + (test_gpio h d).1
    + test_led h d
    + test_pwm h d
    + test_rtc h
    + test_wdg h
    + test_uart h d

-- The status of the process: 8 bits of what main returns.
unfoldable pub exit_status : Board → Hardware → ℕ
unfolding test_failures
exit_status b h = test_failures b h % 256
