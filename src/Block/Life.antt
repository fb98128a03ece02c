-- ===== src/Block/Life.antt =====
-- The main loop of libbb/bb_block.c from its start to its end.
use imx8mp_building_blocks.Base.{
  ℕ, ◌≡◌, Bool, false, not, ◌||◌, List, [], ◌∷◌, ◌++◌, ◌==◌, if◌then◌else◌,
}
use imx8mp_building_blocks.Base.Bytes.{Bytes, codes}
use imx8mp_building_blocks.Bus.Client
use imx8mp_building_blocks.Bus.Client.{Connection, publish_line}
use imx8mp_building_blocks.Bus.Lines.{newline}
use imx8mp_building_blocks.Block.{State, Block, topic_of, state_payload, Turn}

-- Whether a round of the row ends the loop.
unfoldable pub ending : List Turn → Bool
ending [] = false
ending (t ∷ rounds) = (t.stops || not (t.run == 0)) || ending rounds

-- The line that tells the bus a state of the block.
unfoldable pub state_line : ℕ → State → Block → Bytes
state_line ts state b =
    publish_line (topic_of b.id (codes "/state")) (state_payload b.id ts state) ++ newline ∷ []

-- The lines that the callbacks send up to the round that ends the loop.
unfoldable pub spoken : List Turn → List Bytes
spoken [] = []
spoken (t ∷ rounds) =
    let rest = spoken rounds in if t.stops || not (t.run == 0) then t.sends else t.sends ++ rest

-- The loop ends as the rounds tell, changes nothing but the flag, and sends what the callbacks send.
Ends : List Turn → Block → Block × Bool × List Bytes → Type 0
Ends rounds b r =
    (r.1 ≡ ending rounds) × (r.0 ≡ record b { running = r.0.running }) × (r.2 ≡ spoken rounds)
