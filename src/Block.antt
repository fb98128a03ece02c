-- ===== src/Block.antt =====
-- libbb/bb_block.c: the life of a block, from its connection to the bus to its last state. What the
-- callbacks of a block do is an argument, as are the answers of the system.
pub mod Life
mod Tests
use imx8mp_building_blocks.Base.{
  ℕ, ◌==◌, Bool, true, false, ◌&&◌, not, Option, none, some, List, [], ◌∷◌, ◌++◌, if◌then◌else◌,
  take, replicate,
}
use imx8mp_building_blocks.Base.Bytes.{Bytes, codes}
use imx8mp_building_blocks.Base.Words.{is_neg, minus_one}
use imx8mp_building_blocks.Bus.Client
use imx8mp_building_blocks.Bus.Client.{Connection, connect, set_handler}
use imx8mp_building_blocks.Json.Writer.{Field, string, int, write_object, c_string}

-- `bb_state_t`
pub data State : Type 0 where
  init ready running stopping stopped error : State

-- `bb_block_t`, without the callbacks.
pub record Block : Type 0 where
  pub id : Bytes
  pub bus : Connection
  pub running : Bool
  pub state : State

abbrev pub state_str : State → Bytes
state_str State.init = codes "init"
state_str State.ready = codes "ready"
state_str State.running = codes "running"
state_str State.stopping = codes "stopping"
state_str State.stopped = codes "stopped"
state_str State.error = codes "error"

-- snprintf into a buffer of BB_MAX_TOPIC bytes.
abbrev pub topic_of : Bytes → Bytes → Bytes
topic_of id suffix = take 127 (codes "/dev/" ++ id ++ suffix)

-- An array of BB_MAX_PAYLOAD bytes; what is in it before does not matter.
abbrev pub max_payload : ℕ
max_payload = 4096

abbrev pub state_fields : Bytes → ℕ → State → List Field
state_fields id ts state =
    string (codes "block") (some id)
    ∷ int (codes "ts") ts
    ∷ string (codes "status") (some (state_str state))
    ∷ []

unfoldable pub state_payload : Bytes → ℕ → State → Bytes
unfolding write_object c_string
state_payload id ts state =
    c_string (write_object (state_fields id ts state) (replicate max_payload 0)).buf

-- The block, and what is sent; `ts` is the time, and `extra_json` is not used. (`took` is what `send`
-- answers, and the status of bb_bus_publish is dropped.)
unfoldable pub publish_state : Bool → ℕ → State → Block → Block × List Bytes
unfolding state_payload Client.publish
publish_state took ts state b = (
  record b { state = state },
  (Client.publish took b.bus (topic_of b.id (codes "/state")) (state_payload b.id ts state)).1,
)

unfoldable pub publish_event : Bool → Bytes → Block → List Bytes
unfolding Client.publish
publish_event took event_json b =
    (Client.publish took b.bus (topic_of b.id (codes "/event")) event_json).1

unfoldable pub stop : Block → Block
stop b = record b { running = false }

-- bb_block_start: the two topics are subscribed to, `init` is called (and its result dropped), and the
-- block is ready. `prepare` is what `init` does to the block, if it has one.
unfoldable pub block_start :
    Option ℕ → Bool → Bool → ℕ → (Block → Block) → Bytes → Block → ℕ × Block × List Bytes
unfolding connect set_handler Client.subscribe publish_state
block_start socket answers took ts prepare bus_path b =
    let (status, bus, _) = connect socket answers bus_path in
    let bus' = set_handler true bus in
    let started : Block = record b { bus = bus'; running = true; state = State.init } in
    let (b', out) = publish_state took ts State.ready (prepare started) in
    if is_neg status then (minus_one, record started { bus = bus }, []) else (
      0,
      b',
      (Client.subscribe took bus' (topic_of b.id (codes "/cmd"))).1
          ++ (Client.subscribe took bus' (codes "/system/broadcast")).1
          ++ out,
    )

-- A round of the main loop: whether a signal, a command or `run` clears `running` in it, what `run` returns, and the
-- lines that `on_cmd` and `run` send in it.
pub record Turn : Type 0 where
  pub stops : Bool
  pub run : ℕ
  pub sends : List Bytes

-- The loop over a row of rounds: the block, whether the loop has ended, and what is sent.
unfoldable pub turns : List Turn → Block → Block × Bool × List Bytes
turns [] b = (b, not b.running, [])
turns (t ∷ ts) b =
    let b' : Block = record b { running = b.running && not t.stops } in
    let (b'', ended, sent) = turns ts b' in
    if b.running
    then (if t.run == 0 then (b'', ended, t.sends ++ sent) else (b', true, t.sends))
    else (b, true, [])

-- What `stop` does, if the block has one: whether it clears `running`, and the lines that it sends.
pub record Stopping : Type 0 where
  pub stops : Bool
  pub sends : List Bytes

-- The end of bb_block_main_loop.
unfoldable pub finish : Bool → ℕ → Stopping → Block → Block × List Bytes
unfolding publish_state Client.close
finish took ts halt b =
    let (b', last) =
      publish_state took ts State.stopped
        (record b { running = b.running && not halt.stops; state = State.stopping }) in
    (record b' { bus = (Client.close b'.bus).0 }, halt.sends ++ last)

-- bb_block_main_loop over a row of rounds: nothing, while the loop goes on after them; else the
-- block at the end, and what it has sent. The callbacks leave the id and the connection of the block alone.
unfoldable pub main_loop : Bool → ℕ → Stopping → List Turn → Block → Option (Block × List Bytes)
unfolding turns publish_state finish
main_loop took ts halt rounds b0 =
    let (b1, out) = publish_state took ts State.running (record b0 { state = State.running }) in
    let (b2, ended, sent) = turns rounds b1 in
    let (b3, last) = finish took ts halt b2 in
    if ended then some (b3, out ++ (sent ++ last)) else none
