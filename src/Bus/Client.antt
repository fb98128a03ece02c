-- ===== src/Bus/Client.antt =====
-- The client library libbb/bb_bus.c. The socket is a parameter: what `connect` and `send` answer,
-- and what `recv` has to give. Calls of the handler come out as a list.
use imx8mp_building_blocks.Base.{
  ℕ, ◌-◌, Option, none, some, List, [], ◌∷◌, ◌++◌, ◌==◌, Bool, true, false, ◌||◌, if◌then◌else◌,
  length, take, drop,
}
use imx8mp_building_blocks.Base.Bytes.{Bytes, codes, starts_with}
use imx8mp_building_blocks.Base.Words.{is_neg, minus_one}
use imx8mp_building_blocks.Bus.Lines.{newline, split_lines}
use imx8mp_building_blocks.Bus.Words.{space}

-- BB_MAX_TOPIC + BB_MAX_PAYLOAD + 64
abbrev pub max_line : ℕ
max_line = 4288

-- `bb_bus_t`; `handler` tells whether one is set.
pub record Connection : Type 0 where
  pub fd : ℕ
  pub socket_path : Bytes
  pub handler : Bool

-- `socket` gives a descriptor or none, and `connect` succeeds or not. With the status and the
-- connection come the descriptors closed.
unfoldable pub connect : Option ℕ → Bool → Bytes → ℕ × Connection × List ℕ
connect none answers path =
    (minus_one, record { fd = minus_one; socket_path = take 127 path; handler = false }, [])
connect (some fd) true path =
    (0, record { fd = fd; socket_path = take 127 path; handler = false }, [])
connect (some fd) false path =
    (minus_one, record { fd = minus_one; socket_path = take 127 path; handler = false }, fd ∷ [])

unfoldable pub set_handler : Bool → Connection → Connection
set_handler handler bus = record bus { handler = handler }

-- The status, and the bytes given to `send`, which took some or failed.
unfoldable pub send_line : Bool → Connection → Bytes → ℕ × List Bytes
send_line took bus line =
    if is_neg bus.fd
    then (minus_one, [])
    else (if took then 0 else minus_one, (line ++ newline ∷ []) ∷ [])

-- snprintf into a buffer of max_line bytes.
abbrev pub fit : Bytes → Bytes
fit s = take (max_line - 1) s

unfoldable pub publish_line : Bytes → Bytes → Bytes
publish_line topic payload = fit (codes "PUB " ++ topic ++ space ∷ payload)

unfoldable pub publish : Bool → Connection → Bytes → Bytes → ℕ × List Bytes
unfolding send_line publish_line
publish took bus topic payload = send_line took bus (publish_line topic payload)

unfoldable pub subscribe : Bool → Connection → Bytes → ℕ × List Bytes
unfolding send_line
subscribe took bus topic = send_line took bus (fit (codes "SUB " ++ topic))

unfoldable pub unsubscribe : Bool → Connection → Bytes → ℕ × List Bytes
unfolding send_line
unsubscribe took bus topic = send_line took bus (fit (codes "UNSUB " ++ topic))

-- The answer read after "PING", at most 63 bytes of it.
unfoldable pub ping : Bool → Connection → Bytes → ℕ × List Bytes
unfolding send_line
ping took bus answer =
    let (status, out) = send_line took bus (codes "PING") in
    if is_neg status
    then (minus_one, out)
    else (if starts_with (codes "PONG") (take 63 answer) then 0 else minus_one, out)

-- strchr(topic, ' '): the topic before the first space, and the payload behind it.
unfoldable pub cut_at_space : Bytes → Option (Bytes × Bytes)
cut_at_space [] = none
cut_at_space (c ∷ s) =
    if c == space
    then some ([], s)
    else elim (cut_at_space s) [ none ↦ none | some (t, p) ↦ some (c ∷ t, p) ]

-- The handler calls for complete lines: "PUB <topic> <payload>" only.
unfoldable pub dispatch : List Bytes → List (Bytes × Bytes)
unfolding cut_at_space
dispatch [] = []
dispatch (line ∷ lines) =
    let rest = dispatch lines in
    if starts_with (codes "PUB ") line
    then elim (cut_at_space (drop 4 line)) [ none ↦ rest | some message ↦ message ∷ rest ]
    else rest

-- bb_bus_poll over the static buffer `buf`: what `select` returned, and what the socket holds. The
-- status, the buffer after it, and the calls of the handler.
unfoldable pub poll : ℕ → Bytes → Connection → Bytes → ℕ × Bytes × List (Bytes × Bytes)
unfolding dispatch split_lines
poll selected incoming bus buf =
    let bytes = take (max_line - 1 - length buf) incoming in
    let (lines, rest) = split_lines (buf ++ bytes) in
    if is_neg bus.fd
    then (minus_one, buf, [])
    else if is_neg selected || selected == 0
    then (selected, buf, [])
    else if length bytes == 0
    then (minus_one, buf, [])
    else (0, rest, if bus.handler then dispatch lines else [])

unfoldable pub close : Connection → Connection × List ℕ
close bus = if is_neg bus.fd then (bus, []) else (record bus { fd = minus_one }, bus.fd ∷ [])
