-- ===== src/Hal/I2c/Tests.antt =====
-- A register of a codec at address 26.
use imx8mp_building_blocks.Base.{◌≡◌, refl, true, some, [], ◌∷◌}
use imx8mp_building_blocks.Hal.I2c.{I2c, writes, reads, write_read}

abbrev bus : I2c
bus = record { fd = some 3; device = []; addr = 0 }

register : write_read true bus 26 (1 ∷ []) 2 ≡ (0, writes 26 (1 ∷ []) ∷ reads 26 2 ∷ [])
unfolding write_read
register = refl

-- With nothing to write the one message is the empty write: nothing is read, and the call succeeds.
read_only : write_read true bus 26 [] 2 ≡ (0, writes 26 [] ∷ [])
unfolding write_read
read_only = refl
