-- ===== src/Busd/Bounds.antt =====
-- The bounds of the subscription table, kept by every event of the main loop.
use imx8mp_building_blocks.Base.{
  ℕ, List, [], ◌++◌, ◌==◌, Bool, true, false, if_keeps, get_or, length, Option, none, some,
}
use imx8mp_building_blocks.Base.Bytes.{Bytes}
use imx8mp_building_blocks.Base.Words.{int_lt}
use imx8mp_building_blocks.Bus.Lines.{split_lines}
use imx8mp_building_blocks.Busd.Table.{Output, max_clients}
use imx8mp_building_blocks.Busd.Daemon.{
  Bus, Event, handle_event, client_event, accept_client, read_client, hang_up, remove_client,
  received, no_client,
}
use imx8mp_building_blocks.Busd.Valid.{IsTable, purge-IsTable, handle_lines-IsTable}

-- The table of a bus is within its bounds, before and after a call.
abbrev IsTableOf : Bus × List Output → Type 0
IsTableOf r = IsTable r.0.subs

remove_client-IsTable : (idx : ℕ) (b : Bus) → IsTable b.subs → IsTableOf (remove_client idx b)
unfolding remove_client
remove_client-IsTable idx b v = purge-IsTable _ b.subs v

hang_up-IsTable :
    (idx : ℕ) (up : Bool) (r : Bus × List Output) → IsTableOf r → IsTableOf (hang_up idx up r)
unfolding hang_up
hang_up-IsTable idx true (b, out) v = remove_client-IsTable idx b v
hang_up-IsTable idx false (b, out) v = v

read_client-IsTable :
    (idx : ℕ) (bytes : Bytes) (b : Bus) → IsTable b.subs → IsTableOf (read_client idx bytes b)
unfolding read_client
read_client-IsTable idx bytes b v =
    let c = get_or b.clients idx no_client in
    handle_lines-IsTable c.fd (split_lines (c.buf ++ bytes)).0 b.subs v

accept_client-IsTable : (o : Option ℕ) (b : Bus) → IsTable b.subs → IsTableOf (accept_client o b)
unfolding accept_client
accept_client-IsTable none b v = v
accept_client-IsTable (some cfd) b v = if_keeps IsTableOf (int_lt b.num_clients max_clients) v v

client_event-IsTable : (e : Event) (b : Bus) → IsTable b.subs → IsTableOf (client_event e b)
unfolding client_event
client_event-IsTable e b v =
    if_keeps IsTableOf e.readable
      (if_keeps IsTableOf (length bytes == 0) (remove_client-IsTable e.tag b v) (
        hang_up-IsTable e.tag e.hangup (read_client e.tag bytes b)
          (read_client-IsTable e.tag bytes b v)))
      (hang_up-IsTable e.tag e.hangup (b, []) v)
  where
    bytes : Bytes
    bytes = received (get_or b.clients e.tag no_client) e.incoming

-- The table stays within its arrays through any event of the main loop, whatever the clients send:
-- at most 256 entries, no topic of more than 127 bytes, at most 64 ids to an entry, none twice.
pub handle_event-IsTable :
    (srv : ℕ) (e : Event) (b : Bus) → IsTable b.subs → IsTable (handle_event srv e b).0.subs
unfolding handle_event
handle_event-IsTable srv e b v =
    if_keeps IsTableOf (e.tag == srv) (accept_client-IsTable e.accepted b v)
      (client_event-IsTable e b v)
