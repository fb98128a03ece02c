-- ===== src/Hal/Spi/Tests.antt =====
-- An open device, and transfers that the driver takes or refuses.
use imx8mp_building_blocks.Base.{
  ℕ, ◌≡◌, ◌%◌, refl, Bool, true, false, some, List, [], ◌∷◌, length, All, if◌then◌else◌, replicate,
  ◌==◌, not,
}
use imx8mp_building_blocks.Base.Words.{minus_one, int_mod}
use imx8mp_building_blocks.Hal.Spi.{Spi, spi_open, spi_write, spi_close}
use imx8mp_building_blocks.Hal.Spi.Chunks.{Pieces, IsPiece, spi_write-Pieces}

abbrev flash : Spi
flash = record { fd = some 4; device = []; speed_hz = 1000000; mode = 0; bits_per_word = 8 }

abbrev long : List ℕ
long = replicate 4100 7

abbrev but_second : ℕ → Bool
but_second i = not (i == 1)

spi_write-Pieces_example :
    (done : Bool) × (sent : List (List ℕ)) × (spi_write but_second flash long
      ≡ some (if done then length long % int_mod else minus_one, sent))
    × Pieces but_second 0 long done sent
    × All IsPiece sent
spi_write-Pieces_example = spi_write-Pieces but_second flash 4 long refl

-- Nothing is written to a closed device, and a write of no byte succeeds there.
on_closed : spi_write but_second (spi_close flash).0 (7 ∷ []) ≡ some (4294967295, [])
unfolding spi_write spi_close
on_closed = refl

no_bytes : spi_write but_second (spi_close flash).0 [] ≡ some (0, [])
unfolding spi_write spi_close
no_bytes = refl

-- After an error the descriptor is closed and stays in the record; bb_spi_close closes it again.
closed_twice :
    let (status, s, closed) =
      spi_open
        (record {
          opens = some 4;
          takes_mode32 = false;
          takes_mode = false;
          takes_bits = true;
          takes_speed = true;
        })
        []
        1000000
        0
        8 in
    (closed ≡ true) × ((spi_close s).1 ≡ some 4)
unfolding spi_open spi_close
closed_twice = (refl, refl)
