-- ===== src/Block/Tests.antt =====
-- A block that is told to stop in its second round.
use imx8mp_building_blocks.Base.{true, false, List, [], ◌∷◌}
use imx8mp_building_blocks.Base.Bytes.{codes}
use imx8mp_building_blocks.Block.{State, Block, Stopping, Turn}

abbrev ready_block : Block
ready_block = record {
  id = codes "bb-led";
  bus = record { fd = 4; socket_path = []; handler = true };
  running = true;
  state = State.ready;
}

-- A command is answered in the second round, in which a signal comes.
abbrev two_rounds : List Turn
two_rounds =
    record { stops = false; run = 0; sends = [] }
    ∷ record { stops = true; run = 0; sends = codes "PUB /dev/bb-led/event {}" ∷ [] }
    ∷ []

abbrev quiet_stop : Stopping
quiet_stop = record { stops = false; sends = [] }
