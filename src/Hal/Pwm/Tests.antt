-- ===== src/Hal/Pwm/Tests.antt =====
-- The first channel of the first chip.
use imx8mp_building_blocks.Base.{◌≡◌, refl, true, false, [], ◌∷◌}
use imx8mp_building_blocks.Hal.Pwm.{unexport, attribute, duty_cycle, pwm_open, set_duty, pwm_close}

given_back : (pwm_close true (pwm_open true true 0 1).1).1 ≡ unexport 0 1 ∷ []
unfolding pwm_open pwm_close
given_back = refl

-- If the channel does not appear in time, it stays exported after the close.
left_exported : (pwm_close true (pwm_open true false 0 1).1).1 ≡ []
unfolding pwm_open pwm_close
left_exported = refl

half : set_duty true (pwm_open true true 0 1).1 500000 ≡ (0, attribute 0 1 duty_cycle 500000 ∷ [])
unfolding pwm_open set_duty
half = refl
