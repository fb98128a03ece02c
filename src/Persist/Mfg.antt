-- ===== src/Persist/Mfg.antt =====
-- The manufacturing data of libbb/bb_persist.c. `bb_mfg_data_t` is its 192 bytes of memory.
pub mod Crc
pub mod Detect
mod Tests
use Prim.Native.Nat.{bit_xor}
use imx8mp_building_blocks.Base.{
  ℕ, zero, suc, ◌+◌, ◌*◌, ◌/◌, ◌%◌, ◌==◌, Bool, true, false, ◌&&◌, Option, none, some, List, [],
  ◌∷◌, ◌++◌, if◌then◌else◌, length, take, drop, get_or,
}
use imx8mp_building_blocks.Base.Bytes.{Bytes}
use imx8mp_building_blocks.Base.Words.{minus_one}
use imx8mp_building_blocks.Json.Writer.{c_string}

abbrev pub mfg_size : ℕ
mfg_size = 192

-- The polynomial of the check sum.
abbrev pub poly : ℕ
poly = 0xEDB88320

-- crc = (crc >> 1) ^ (crc & 1 ? 0xEDB88320 : 0)
unfoldable pub crc_bit : ℕ → ℕ
crc_bit crc = bit_xor (crc / 2) (if crc % 2 == 1 then poly else 0)

-- `rounds` rounds of the inner loop.
unfoldable pub crc_bits : ℕ → ℕ → ℕ
unfolding crc_bit
crc_bits zero crc = crc
crc_bits (suc rounds) crc = crc_bits rounds (crc_bit crc)

-- The outer loop.
unfoldable pub crc_from : ℕ → Bytes → ℕ
unfolding crc_bits
crc_from crc [] = crc
crc_from crc (b ∷ s) = crc_from (crc_bits 8 (bit_xor crc b)) s

-- The field `crc32`.
abbrev pub stored_crc : Bytes → ℕ
stored_crc m =
    get_or m 188 0 + 256 * (get_or m 189 0 + 256 * (get_or m 190 0 + 256 * get_or m 191 0))

-- The tests of bb_mfg_read on what it has read.
unfoldable pub is_intact : Bytes → Bool
unfolding crc_from
is_intact got = length got == mfg_size && crc_from 0 (take 188 got) == stored_crc got

-- `g_mfg` and `g_mfg_loaded`.
pub record Cache : Type 0 where
  pub copy : Bytes
  pub loaded : Bool

-- What a call leaves: its status, the memory at `out`, and the cache.
pub record Reading : Type 0 where
  pub status : ℕ
  pub out : Bytes
  pub cache : Cache

-- bb_mfg_read(out): `none` if the device cannot be opened. What read() gives is in `out` before it is
-- tested.
unfoldable pub mfg_read : Option Bytes → Bytes → Cache → Reading
unfolding is_intact
mfg_read device out c =
    if c.loaded then record { status = 0; out = c.copy; cache = c } else elim device [
      | none ↦ record { status = minus_one; out = out; cache = c }
      | some content ↦
          let got = take mfg_size content in
          let out' = got ++ drop (length got) out in
          if is_intact got
          then record { status = 0; out = out'; cache = record { copy = out'; loaded = true } }
          else record { status = minus_one; out = out'; cache = c }
    ]

-- The offsets of the fields `serial`, `hw_revision` and `part_number`.
pub data MfgField : Type 0 where
  serial hw_revision part_number : MfgField

abbrev pub offset : MfgField → ℕ
offset serial = 0
offset hw_revision = 44
offset part_number = 92

-- bb_mfg_serial, bb_mfg_hw_revision and bb_mfg_part_number. They read into `g_mfg` itself, and do not
-- test the status.
unfoldable pub mfg_field : MfgField → Option Bytes → Cache → Bytes × Cache
unfolding mfg_read c_string
mfg_field f device c =
    let r = mfg_read device c.copy c in
    if c.loaded
    then (c_string (drop (offset f) c.copy), c)
    else (c_string (drop (offset f) r.out), record r.cache { copy = r.out })
