-- ===== src/HalTest/Status.antt =====
-- The status of tools/bb-hal-test.c, and what a run with status 0 shows.
use imx8mp_building_blocks.Base.{
  ℕ, zero, suc, ◌+◌, ◌≤◌, ◌<◌, ◌≡◌, ◌≢◌, none, some, List, get_or, arith, inl, inr, Option-cases,
}
use imx8mp_building_blocks.Board.{Board, nxp_evk, forlinx, Devices, devices_of}
use imx8mp_building_blocks.HalTest.{
  Hardware, scan_bus, scan_buses, test_i2c_scan, test_i2c_first_bus, test_spi, test_gpio, test_led,
  test_pwm, test_rtc, test_wdg, test_uart, test_failures, exit_status,
}

module _ (h : Hardware) where
  scan_buses-le : (buses : List ℕ) (n b : ℕ) → scan_buses h buses n b ≤ n
  unfolding scan_buses
  scan_buses-le buses zero b = omega arith
  scan_buses-le buses (suc n) b = elim (Option-cases (scan_bus h (get_or buses b 0))) [
    | inl e ↦ rw (e, scan_buses) (omega (arith, scan_buses-le buses n (b + 1)))
    | inr (found, e) ↦ rw (e, scan_buses) (omega (arith, scan_buses-le buses n (b + 1)))
  ]

  at_index :
      (buses : List ℕ) (n b : ℕ) (found : List ℕ)
      → scan_bus h (get_or buses b 0) ≡ some found
      → ((i : ℕ) → i < n → scan_bus h (get_or buses (b + 1 + i) 0) ≢ none)
      → (i : ℕ) → i < suc n
      → scan_bus h (get_or buses (b + i) 0) ≢ none
  at_index buses n b found e later zero lt =
      let at_b : b + 0 ≡ b = omega arith in rw (at_b, e) (λ none_here. cc)
  at_index buses n b found e later (suc i) lt =
      let moved : b + suc i ≡ b + 1 + i = omega arith in rw moved (later i (omega arith))

  scan_buses-zero :
      (buses : List ℕ) (n b : ℕ)
      → scan_buses h buses n b ≡ 0
      → (i : ℕ) → i < n
      → scan_bus h (get_or buses (b + i) 0) ≢ none
  unfolding scan_buses
  scan_buses-zero buses zero b z i lt = absurd (omega arith)
  scan_buses-zero buses (suc n) b z i lt = elim (Option-cases (scan_bus h (get_or buses b 0))) [
    | inl e ↦ absurd (let z' = (rw (e, scan_buses) at z) in omega (arith, z'))
    | inr (found, e) ↦
        at_index buses n b found e (scan_buses-zero buses n (b + 1) (rw (e, scan_buses) at z)) i lt
  ]

  all_open :
      (buses : List ℕ) (n : ℕ)
      → scan_buses h buses n 0 ≡ 0
      → (i : ℕ) → i < n
      → scan_bus h (get_or buses i 0) ≢ none
  all_open buses n z i lt =
      let from_0 : 0 + i ≡ i = omega arith in rw from_0 at (scan_buses-zero buses n 0 z i lt)

  first_bus-le : test_i2c_first_bus h ≤ 1
  unfolding test_i2c_first_bus
  first_bus-le = ground arith

  spi-le : test_spi h ≤ 1
  unfolding test_spi
  spi-le = ground arith

  rtc-le : test_rtc h ≤ 1
  unfolding test_rtc
  rtc-le = ground arith

  wdg-le : test_wdg h ≤ 1
  unfolding test_wdg
  wdg-le = ground arith

  module _ (d : Devices) where
    gpio-le : (test_gpio h d).1 ≤ 1
    unfolding test_gpio
    gpio-le = ground arith

    led-le : test_led h d ≤ 1
    unfolding test_led
    led-le = ground arith

    pwm-le : test_pwm h d ≤ 1
    unfolding test_pwm
    pwm-le = ground arith

    uart-le : test_uart h d ≤ 1
    unfolding test_uart
    uart-le = ground arith

  test_failures-le : (b : Board) → test_failures b h ≤ (devices_of b).i2c_count + 8
  unfolding test_failures test_i2c_scan
  test_failures-le b =
      let d = devices_of b in
      omega (
        arith,
        scan_buses-le d.i2c_buses d.i2c_count 0,
        first_bus-le,
        spi-le,
        gpio-le d,
        led-le d,
        pwm-le d,
        rtc-le,
        wdg-le,
        uart-le d,
      )

  i2c_count-le : (b : Board) → (devices_of b).i2c_count ≤ 5
  i2c_count-le nxp_evk = omega arith
  i2c_count-le forlinx = omega arith

  test_failures-zero : (b : Board) → exit_status b h ≡ 0 → test_failures b h ≡ 0
  unfolding exit_status
  test_failures-zero b e = omega (arith, e, test_failures-le b, i2c_count-le b)

  -- A run of bb-hal-test that ends with status 0 has counted no failure, and has opened each I²C bus of the board: the
  -- eight bits of a status hold the count.
  pub exit_status-zero :
      (b : Board)
      → exit_status b h ≡ 0
      → test_failures b h ≡ 0
        × ((i : ℕ)
            → i < (devices_of b).i2c_count
            → scan_bus h (get_or (devices_of b).i2c_buses i 0) ≢ none)
  unfolding test_failures test_i2c_scan
  exit_status-zero b e =
      let z = test_failures-zero b e in
      let d = devices_of b in (z, all_open d.i2c_buses d.i2c_count (omega (arith, z)))
