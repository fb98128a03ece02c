-- ===== src/Hal/Spi.antt =====
-- hal/bb_hal_spi.c: a device on the SPI bus. Which of the calls the driver takes is an argument, and what it
-- is handed comes out as a list.
pub mod Chunks
mod Tests
use imx8mp_building_blocks.Base.{
  ℕ, zero, suc, ◌+◌, ◌^◌, ◌%◌, ◌==◌, Bool, true, false, not, ◌&&◌, ◌||◌, Option, none, some, List,
  [], ◌∷◌, ◌++◌, length, take, drop, if◌then◌else◌,
}
use imx8mp_building_blocks.Base.Words.{minus_one, int_mod, is_neg}

-- `bb_spi_t`; the descriptor is none for -1.
pub record Spi : Type 0 where
  pub fd : Option ℕ
  pub device : List ℕ
  pub speed_hz : ℕ
  pub mode : ℕ
  pub bits_per_word : ℕ

-- What the driver answers to bb_spi_open.
pub record SpiAnswers : Type 0 where
  pub opens : Option ℕ
  pub takes_mode32 : Bool
  pub takes_mode : Bool
  pub takes_bits : Bool
  pub takes_speed : Bool

-- bb_spi_open: the status, the device, and whether the descriptor is closed again. After an error it stays in
-- the record.
unfoldable pub spi_open : SpiAnswers → List ℕ → ℕ → ℕ → ℕ → ℕ × Spi × Bool
spi_open a device speed mode bits =
    let named : Spi = record {
      fd = a.opens;
      device = take 63 device;
      speed_hz = 0;
      mode = 0;
      bits_per_word = 0;
    } in
    elim a.opens [
      | none ↦ (minus_one, named, false)
      | some fd ↦
          if (not a.takes_mode32 && not a.takes_mode)
            || (not (bits == 8) && not a.takes_bits)
            || not a.takes_speed
          then (minus_one, named, true)
          else (0, record named { speed_hz = speed; mode = mode; bits_per_word = bits }, false)
    ]

-- bb_spi_transfer: the status, and what the driver is handed.
unfoldable pub spi_transfer : Bool → Spi → List ℕ → ℕ × List (List ℕ)
spi_transfer accepts s tx = elim s.fd [
  | none ↦ (minus_one, [])
  | some fd ↦ (if accepts then length tx % int_mod else minus_one, tx ∷ [])
]

-- What is handed over in a round, ahead of the rest.
abbrev pub ahead : List (List ℕ) → Option (Bool × List (List ℕ)) → Option (Bool × List (List ℕ))
ahead handed none = none
ahead handed (some (done, sent)) = some (done, handed ++ sent)

abbrev pub on_transfer :
    ℕ × List (List ℕ) → Option (Bool × List (List ℕ)) → Option (Bool × List (List ℕ))
on_transfer (status, handed) rest =
    if is_neg status then some (false, handed) else ahead handed rest

-- The loop of bb_spi_write from transfer `i` on, where transfer `j` is taken if `accepts j` is true; none if the
-- rounds do not do. The buffer for the answers has 4096 bytes.
unfoldable pub write_chunks : ℕ → (ℕ → Bool) → Spi → ℕ → List ℕ → Option (Bool × List (List ℕ))
unfolding spi_transfer
write_chunks zero accepts s i bytes = none
write_chunks (suc rounds) accepts s i [] = some (true, [])
write_chunks (suc rounds) accepts s i (b ∷ bytes) =
    on_transfer (spi_transfer (accepts i) s (take 4096 (b ∷ bytes)))
      (write_chunks rounds accepts s (i + 1) (drop 4096 (b ∷ bytes)))

-- What bb_spi_write returns of the loop.
abbrev pub write_status : ℕ → Option (Bool × List (List ℕ)) → Option (ℕ × List (List ℕ))
write_status len none = none
write_status len (some (done, sent)) = some (if done then len % int_mod else minus_one, sent)

-- bb_spi_write
unfoldable pub spi_write : (ℕ → Bool) → Spi → List ℕ → Option (ℕ × List (List ℕ))
unfolding write_chunks
spi_write accepts s bytes =
    write_status (length bytes) (write_chunks (suc (length bytes)) accepts s 0 bytes)

-- bb_spi_close: the descriptor that is closed.
unfoldable pub spi_close : Spi → Spi × Option ℕ
spi_close s = (record s { fd = none }, s.fd)
