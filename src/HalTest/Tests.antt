-- ===== src/HalTest/Tests.antt =====
-- The evaluation board of NXP with every device in place, and with a bus of which no device answers.
use imx8mp_building_blocks.Base.{
  ℕ, ◌+◌, ◌<◌, ◌≡◌, ◌≢◌, refl, ◌==◌, true, false, none, some, [], ◌∷◌, get_or,
}
use imx8mp_building_blocks.Board.{nxp_evk, devices_of}
use imx8mp_building_blocks.Hal.Spi.{SpiAnswers}
use imx8mp_building_blocks.Hal.Gpio.{Kernel, lines}
use imx8mp_building_blocks.Hal.Uart.{Termios, Takes}
use imx8mp_building_blocks.HalTest.{Hardware, test_failures, exit_status, scan_bus, test_gpio}
use imx8mp_building_blocks.HalTest.Status.{exit_status-zero}

abbrev spi_bus : SpiAnswers
spi_bus = record {
  opens = some 4;
  takes_mode32 = true;
  takes_mode = true;
  takes_bits = true;
  takes_speed = true;
}

abbrev pins : Kernel
pins = record {
  has_sysfs = false;
  chips = lines 5 32 ∷ [];
  chip_opens = some 5;
  line_granted = some 6;
  export_opens = true;
  value_opens = none;
  unexport_opens = true;
  export_again = true;
  value_again = none;
  direction_opens = true;
}

abbrev serial : Termios
serial = record {
  speed = 9600;
  local_read = false;
  parenb = false;
  parodd = false;
  cstopb = false;
  csize = 8;
  lflag = true;
  iflag = true;
  opost = true;
  vmin = 1;
  vtime = 0;
}

abbrev taken : Takes
taken = record { gets = true; sets = true }

-- One device on each bus, at 0x50.
abbrev evk : Hardware
evk = record {
  bus_opens = λ bus. some (10 + bus);
  selects = λ bus addr. true;
  acknowledges = λ bus addr. addr == 80;
  spi = spi_bus;
  spi_accepts = true;
  gpio = pins;
  gpio_value = λ high. some 0;
  led_max = λ name. some 255;
  led_present = λ name. true;
  pwm = λ chip. record {
    exports = true;
    appears = true;
    period_opens = true;
    duty_opens = true;
    enable_opens = true;
  };
  rtc_fd = some 7;
  clock =
      some
        (record { tm_year = 126; tm_mon = 10; tm_mday = 26; tm_hour = 12; tm_min = 0; tm_sec = 0 });
  wdg_fd = some 8;
  wdg_first = some 60;
  wdg_timeout = some 60;
  wdg_takes = true;
  uart = λ dev. record {
    opens = some 9;
    first = taken;
    second = taken;
    settings = serial;
    written = some 4;
  };
}

all_pass : exit_status nxp_evk evk ≡ 0
unfolding exit_status
all_pass = refl

exit_status-zero_example :
    (test_failures nxp_evk evk ≡ 0)
    × ((i : ℕ)
        → i < (devices_of nxp_evk).i2c_count
        → scan_bus evk (get_or (devices_of nxp_evk).i2c_buses i 0) ≢ none)
exit_status-zero_example = exit_status-zero evk nxp_evk all_pass

-- The pin reads 0 after 1 has been written, and the test of GPIO passes.
wrong_value : test_gpio evk (devices_of nxp_evk) ≡ (0 ∷ 0 ∷ [], 0)
unfolding test_gpio
wrong_value = refl

-- Five failures of I²C, which does not open, and one of SPI, which does not transfer.
no_spi : exit_status nxp_evk (record evk { bus_opens = λ bus. none; spi_accepts = false }) ≡ 6
unfolding exit_status
no_spi = refl
