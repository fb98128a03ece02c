-- ===== src/Hal/Pwm.antt =====
-- hal/bb_hal_pwm.c: a channel of a chip in sysfs. Which files can be opened is an argument, and what is written to
-- them comes out.
mod Tests
use imx8mp_building_blocks.Base.{ℕ, Bool, true, false, List, [], ◌∷◌, if◌then◌else◌}
use imx8mp_building_blocks.Base.Words.{minus_one}

-- `bb_pwm_t`
pub record Pwm : Type 0 where
  pub chip : ℕ
  pub channel : ℕ
  pub exported : Bool

pub data Attribute : Type 0 where
  period duty_cycle enable : Attribute

-- The number of a channel for the files export and unexport of a chip, and a number for a file of a channel.
pub data PwmWrite : Type 0 where
  export unexport : ℕ → ℕ → PwmWrite
  attribute : ℕ → ℕ → Attribute → ℕ → PwmWrite

-- bb_pwm_open, with whether the file export can be opened, and the period written to then.
unfoldable pub pwm_open : Bool → Bool → ℕ → ℕ → ℕ × Pwm × List PwmWrite
pwm_open exports appears chip channel =
    let pwm : Pwm = record { chip = chip; channel = channel; exported = false } in
    if exports
    then (if appears
        then (0, record pwm { exported = true }, export chip channel ∷ [])
        else (minus_one, pwm, export chip channel ∷ []))
    else (minus_one, pwm, [])

-- pwm_write_attr
unfoldable pub write_attr : Bool → Pwm → Attribute → ℕ → ℕ × List PwmWrite
write_attr opens pwm attr value =
    if opens then (0, attribute pwm.chip pwm.channel attr value ∷ []) else (minus_one, [])

-- bb_pwm_set_period
unfoldable pub set_period : Bool → Pwm → ℕ → ℕ × List PwmWrite
unfolding write_attr
set_period opens pwm period_ns = write_attr opens pwm period period_ns

-- bb_pwm_set_duty: the duty is not held against the period.
unfoldable pub set_duty : Bool → Pwm → ℕ → ℕ × List PwmWrite
unfolding write_attr
set_duty opens pwm duty_ns = write_attr opens pwm duty_cycle duty_ns

-- bb_pwm_enable and bb_pwm_disable
unfoldable pub pwm_enable : Bool → Pwm → ℕ × List PwmWrite
unfolding write_attr
pwm_enable opens pwm = write_attr opens pwm enable 1

unfoldable pub pwm_disable : Bool → Pwm → ℕ × List PwmWrite
unfolding write_attr
pwm_disable opens pwm = write_attr opens pwm enable 0

-- bb_pwm_close
unfoldable pub pwm_close : Bool → Pwm → Pwm × List PwmWrite
pwm_close opens pwm =
    if pwm.exported
    then (record pwm { exported = false }, if opens then unexport pwm.chip pwm.channel ∷ [] else [])
    else (pwm, [])
