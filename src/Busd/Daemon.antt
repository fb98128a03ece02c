-- ===== src/Busd/Daemon.antt =====
-- One line of a client, and one event of the main loop of services/bb-busd.c.
use imx8mp_building_blocks.Base.{
  ℕ, ◌+◌, ◌-◌, Option, none, some, List, [], ◌∷◌, ◌++◌, ◌==◌, ltb, if◌then◌else◌, Bool, true, false,
  ◌&&◌, length, get_or, set, take, drop, replicate,
}
use imx8mp_building_blocks.Base.Bytes.{Bytes, codes, str_eq, starts_with}
use imx8mp_building_blocks.Base.Words.{int_add, int_sub, int_lt}
use imx8mp_building_blocks.Bus.Lines.{newline, split_lines}
use imx8mp_building_blocks.Bus.Words.{scan_word}
use imx8mp_building_blocks.Busd.Table.{
  max_clients, buf_size, Sub, Output, handle_pub, subscribe, unsubscribe, purge, send, epoll_add,
  epoll_del, close,
}

-- `client_t`; `buf` holds the `buf_len` bytes received.
pub record Client : Type 0 where
  pub fd : ℕ
  pub buf : Bytes

-- The static state. `clients` is the whole array, `subs` the `num_subs` entries in use.
pub record Bus : Type 0 where
  pub clients : List Client
  pub num_clients : ℕ
  pub subs : List Sub

abbrev pub no_client : Client
no_client = record { fd = 0; buf = [] }

abbrev pub empty_bus : Bus
empty_bus = record { clients = replicate max_clients no_client; num_clients = 0; subs = [] }

-- One line of a client: the subscriptions after it, and what is sent.
unfoldable pub handle_line : ℕ → Bytes → List Sub → List Sub × List Output
unfolding handle_pub subscribe unsubscribe
handle_line fd line subs =
    if starts_with (codes "PUB ") line
    then (subs, handle_pub fd line subs)
    else let (topic, rest) = scan_word 255 (drop 3 line) in
      let (topic', rest') = scan_word 255 (drop 5 line) in
      if starts_with (codes "SUB ") line && ltb 0 (length topic)
      then (subscribe fd topic subs, [])
      else if starts_with (codes "UNSUB ") line && ltb 0 (length topic')
      then (unsubscribe fd topic' subs, [])
      else if str_eq line (codes "PING")
      then (subs, send fd (codes "PONG" ++ newline ∷ []) ∷ [])
      else (subs, [])

unfoldable pub handle_lines : ℕ → List Bytes → List Sub → List Sub × List Output
unfolding handle_line
handle_lines fd [] subs = (subs, [])
handle_lines fd (line ∷ lines) subs =
    let (subs', out) = handle_line fd line subs in
    let (subs'', more) = handle_lines fd lines subs' in (subs'', out ++ more)

-- memmove of the clients behind `idx`, of which there are `num_clients - idx - 1`. The last of them
-- stays in its old place too.
abbrev pub compact : List Client → ℕ → ℕ → List Client
compact cs idx n = take idx cs ++ (take (n - idx - 1) (drop (idx + 1) cs) ++ drop (n - 1) cs)

unfoldable pub remove_client : ℕ → Bus → Bus × List Output
unfolding purge
remove_client idx b =
    let fd = (get_or b.clients idx no_client).fd in
    (
      record {
        clients =
            if int_lt idx (int_sub b.num_clients 1)
            then compact b.clients idx b.num_clients
            else b.clients;
        num_clients = int_sub b.num_clients 1;
        subs = purge fd b.subs;
      },
      epoll_del fd ∷ close fd ∷ [],
    )

-- A new connection, unless `accept` failed. The event data of its descriptor is its index. With no
-- room the descriptor stays open and unused. (A write outside the array changes nothing here.)
unfoldable pub accept_client : Option ℕ → Bus → Bus × List Output
accept_client none b = (b, [])
accept_client (some cfd) b =
    if int_lt b.num_clients max_clients
    then (
      record b {
        clients = set b.clients b.num_clients (record { fd = cfd; buf = [] });
        num_clients = int_add b.num_clients 1;
      },
      epoll_add cfd b.num_clients ∷ [],
    )
    else (b, [])

-- `struct epoll_event`: its data, read as `data.fd` and as `data.u32`, and EPOLLIN and
-- EPOLLHUP | EPOLLERR; with what `accept` returns and what the socket holds.
pub record Event : Type 0 where
  pub tag : ℕ
  pub readable : Bool
  pub hangup : Bool
  pub accepted : Option ℕ
  pub incoming : Bytes

-- The bytes that `recv` puts behind those in the buffer, which leaves room for a NUL.
abbrev pub received : Client → Bytes → Bytes
received c incoming = take (buf_size - length c.buf - 1) incoming

-- `recv` returned data: complete lines are handled, and the rest stays in the buffer.
unfoldable pub read_client : ℕ → Bytes → Bus → Bus × List Output
unfolding handle_lines split_lines
read_client idx bytes b =
    let c = get_or b.clients idx no_client in
    let (lines, rest) = split_lines (c.buf ++ bytes) in
    let (subs, out) = handle_lines c.fd lines b.subs in
    (record b { clients = set b.clients idx (record c { buf = rest }); subs = subs }, out)

unfoldable pub hang_up : ℕ → Bool → Bus × List Output → Bus × List Output
unfolding remove_client
hang_up idx true (b, out) = let (b', more) = remove_client idx b in (b', out ++ more)
hang_up idx false (b, out) = (b, out)

unfoldable pub client_event : Event → Bus → Bus × List Output
unfolding read_client hang_up
client_event e b =
    let bytes = received (get_or b.clients e.tag no_client) e.incoming in
    if e.readable
    then if length bytes == 0
      then remove_client e.tag b
      else hang_up e.tag e.hangup (read_client e.tag bytes b)
    else hang_up e.tag e.hangup (b, [])

-- One event of the main loop; `srv` is the listening socket.
unfoldable pub handle_event : ℕ → Event → Bus → Bus × List Output
unfolding accept_client client_event
handle_event srv e b = if e.tag == srv then accept_client e.accepted b else client_event e b
