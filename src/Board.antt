-- ===== src/Board.antt =====
-- libbb/bb_board.h: the two boards that the program is built for.
use imx8mp_building_blocks.Base.{
  ℕ, List, [], length, refl, ◌∷◌, ◌++◌, ◌==◌, ◌≡◌, ◌≢◌, ap, sym, false, ==_refl, get_or,
}
use imx8mp_building_blocks.Base.Bytes.{Bytes, codes}
use imx8mp_building_blocks.Json.Writer.{print_int}

-- The board that the build chooses.
pub data Board : Type 0 where
  nxp_evk forlinx : Board

-- BB_ROOT_DEV
abbrev pub root_dev : Board → Bytes
root_dev nxp_evk = codes "/dev/mmcblk1"
root_dev forlinx = codes "/dev/mmcblk0"

-- The BB_PART_ constants.
pub data Part : Type 0 where
  boot_a boot_b rootfs_a rootfs_b recovery persist mfg log : Part

abbrev pub part_number : Board → Part → ℕ
part_number nxp_evk boot_a = 1
part_number nxp_evk boot_b = 2
part_number nxp_evk rootfs_a = 3
part_number nxp_evk rootfs_b = 4
part_number nxp_evk recovery = 5
part_number nxp_evk persist = 6
part_number nxp_evk mfg = 7
part_number nxp_evk log = 8
part_number forlinx boot_a = 4
part_number forlinx boot_b = 5
part_number forlinx rootfs_a = 6
part_number forlinx rootfs_b = 7
part_number forlinx recovery = 8
part_number forlinx persist = 9
part_number forlinx mfg = 10
part_number forlinx log = 11

-- BB_ROOT_DEV "p%d": the device of a partition.
unfoldable pub device : Board → Part → Bytes
unfolding print_int
device b p = root_dev b ++ (b'p' ∷ print_int (part_number b p))

-- Devices that differ in a byte.
pub byte_ne : (i : ℕ) (s t : Bytes) → (get_or s i 0 == get_or t i 0) ≡ false → s ≢ t
byte_ne i s t h e = cc (h, ap (λ u. get_or s i 0 == get_or u i 0) (sym e), ==_refl (get_or s i 0))

-- The other constants of a board.
pub record Devices : Type 0 where
  pub product_name : Bytes
  pub dtb_file : Bytes
  pub console_dev : Bytes
  pub console_baud : ℕ
  pub led_heartbeat : Bytes
  pub led1 : Bytes
  pub led2 : Bytes
  pub spi_dev : Bytes
  pub i2c_count : ℕ
  pub i2c_buses : List ℕ
  pub i2c_labels : List Bytes
  pub gpio_test_pin : ℕ
  pub uart_count : ℕ
  pub uart_devs : List Bytes
  pub uart_labels : List Bytes
  pub pwm_test_chips : List ℕ
  pub pwm_test_count : ℕ
  pub rtc_dev : Bytes
  pub wdg_dev : Bytes

abbrev pub nxp_devices : Devices
nxp_devices = record {
  product_name = codes "NXP i.MX8MP EVK";
  dtb_file = codes "imx8mp-evk.dtb";
  console_dev = codes "/dev/ttymxc1";
  console_baud = 115200;
  led_heartbeat = codes "yellow:status";
  led1 = codes "yellow:status";
  led2 = [];
  spi_dev = codes "/dev/spidev1.0";
  i2c_count = 4;
  i2c_buses = 0 ∷ 1 ∷ 2 ∷ 6 ∷ [];
  i2c_labels = codes "i2c-0 (PMIC)" ∷ codes "i2c-1" ∷ codes "i2c-2" ∷ codes "i2c-6" ∷ [];
  gpio_test_pin = 13;
  uart_count = 2;
  uart_devs = codes "/dev/ttymxc1" ∷ codes "/dev/ttymxc2" ∷ [];
  uart_labels = codes "ttymxc1 (console)" ∷ codes "ttymxc2" ∷ [];
  pwm_test_chips = 0 ∷ 1 ∷ 2 ∷ [];
  pwm_test_count = 3;
  rtc_dev = codes "/dev/rtc0";
  wdg_dev = codes "/dev/watchdog0";
}

abbrev pub forlinx_devices : Devices
forlinx_devices = record {
  product_name = codes "Forlinx OK8MPlus-C";
  dtb_file = codes "imx8mp-ok8mplus-c.dtb";
  console_dev = codes "/dev/ttymxc0";
  console_baud = 115200;
  led_heartbeat = codes "heartbeat";
  led1 = codes "led1";
  led2 = codes "led2";
  spi_dev = codes "/dev/spidev1.0";
  i2c_count = 5;
  i2c_buses = 0 ∷ 1 ∷ 2 ∷ 3 ∷ 4 ∷ [];
  i2c_labels =
      codes "i2c-0 (PMIC)"
      ∷ codes "i2c-1 (Camera)"
      ∷ codes "i2c-2 (Periph)"
      ∷ codes "i2c-3 (Touch)"
      ∷ codes "i2c-4 (HDMI)"
      ∷ [];
  gpio_test_pin = 15;
  uart_count = 3;
  uart_devs = codes "/dev/ttymxc0" ∷ codes "/dev/ttymxc1" ∷ codes "/dev/ttymxc2" ∷ [];
  uart_labels = codes "ttymxc0 (BT?)" ∷ codes "ttymxc1 (console)" ∷ codes "ttymxc2" ∷ [];
  pwm_test_chips = 0 ∷ 1 ∷ [];
  pwm_test_count = 2;
  rtc_dev = codes "/dev/rtc0";
  wdg_dev = codes "/dev/watchdog0";
}

abbrev pub devices_of : Board → Devices
devices_of nxp_evk = nxp_devices
devices_of forlinx = forlinx_devices

-- The counts are the lengths of the lists that go with them.
pub record IsCounted (d : Devices) : Type 0 where
  pub buses : length d.i2c_buses ≡ d.i2c_count
  pub bus_labels : length d.i2c_labels ≡ d.i2c_count
  pub uarts : length d.uart_devs ≡ d.uart_count
  pub uart_names : length d.uart_labels ≡ d.uart_count
  pub chips : length d.pwm_test_chips ≡ d.pwm_test_count

pub devices_of-IsCounted : (b : Board) → IsCounted (devices_of b)
devices_of-IsCounted nxp_evk = record {
  buses = refl;
  bus_labels = refl;
  uarts = refl;
  uart_names = refl;
  chips = refl;
}
devices_of-IsCounted forlinx = record {
  buses = refl;
  bus_labels = refl;
  uarts = refl;
  uart_names = refl;
  chips = refl;
}
