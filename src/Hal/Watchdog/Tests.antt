-- ===== src/Hal/Watchdog/Tests.antt =====
-- A watchdog of 60 seconds.
use imx8mp_building_blocks.Base.{◌≡◌, refl, some, none, [], ◌∷◌}
use imx8mp_building_blocks.Hal.Watchdog.{write_byte, close_fd, wdg_open, set_timeout, wdg_close}

-- The driver rounds the timeout, and that is what is kept.
rounded :
    let (status, w) = set_timeout (some 10) (wdg_open (some 3) none).1 9 in
    (status ≡ 0) × (w ≡ record { fd = some 3; timeout = 10 })
unfolding set_timeout wdg_open
rounded = (refl, refl)

-- The close disarms the watchdog, and a second close does nothing.
disarmed :
    let (w, actions) = wdg_close (wdg_open (some 3) (some 30)).1 in
    (actions ≡ write_byte b'V' ∷ close_fd 3 ∷ []) × ((wdg_close w).1 ≡ [])
unfolding wdg_close wdg_open
disarmed = (refl, refl)
