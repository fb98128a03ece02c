-- ===== src/Bus/Tests.antt =====
-- A stream that arrives in two pieces.
use imx8mp_building_blocks.Base.{◌∷◌, ◌++◌, arith}
use imx8mp_building_blocks.Base.Bytes.{Bytes, codes}
use imx8mp_building_blocks.Bus.Lines.{newline, Text}

abbrev piece : Bytes
piece = codes "PING" ++ newline ∷ codes "SU"

abbrev behind : Bytes
behind = codes "B a" ++ newline ∷ codes "PI"

piece-Text : Text piece
piece-Text = ground arith
