-- ===== src/Persist/Mfg/Tests.antt =====
-- Partitions of zeros, and one with a bad check sum.
use imx8mp_building_blocks.Base.{◌≡◌, refl, false, some, [], ◌∷◌, ◌++◌, arith, replicate}
use imx8mp_building_blocks.Base.Bytes.{Bytes, codes}
use imx8mp_building_blocks.Base.Words.{minus_one}
use imx8mp_building_blocks.Persist.Mfg.{crc_from, Cache, mfg_read}
use imx8mp_building_blocks.Persist.Mfg.Crc.{IsBytes}
use imx8mp_building_blocks.Persist.Mfg.Detect.{mfg_read-detects}

abbrev cold : Cache
cold = record { copy = replicate 192 0; loaded = false }

zeros-IsBytes : IsBytes (replicate 191 0)
zeros-IsBytes = omega arith

zeros-accepted : (mfg_read (some (0 ∷ replicate 191 0)) (replicate 192 9) cold).status ≡ 0
unfolding mfg_read
zeros-accepted = refl

mfg_read-detects_example :
    (mfg_read (some (1 ∷ replicate 191 0)) (replicate 192 9) cold).status ≡ minus_one
mfg_read-detects_example =
    mfg_read-detects [] (replicate 191 0) 0 1 (omega arith) (omega arith) (omega arith)
      (omega arith) tt zeros-IsBytes (replicate 192 9) (replicate 192 9) cold cold refl refl
      zeros-accepted

abbrev forged : Bytes
forged = codes "SN-0001" ++ replicate 185 0

-- The check sum of one byte, and of nothing.
crc_one : crc_from 0 (1 ∷ []) ≡ 0x77073096
unfolding crc_from
crc_one = refl
