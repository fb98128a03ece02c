-- ===== src/Hal.antt =====
-- The device layer under hal, one module for each file of C that has state or arithmetic of its own.
-- Calls of the kernel are arguments or outputs.
pub mod Sound
pub mod Gpio
pub mod Spi
pub mod Uart
pub mod Rtc
pub mod I2c
pub mod Watchdog
pub mod Pwm
pub mod Display
