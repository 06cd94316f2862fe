-- ===== src/Net/Udp.antt =====
-- udp.c: which socket gets a datagram, and how the sockets are connected and read.
pub mod Csum
pub mod Deliver
mod Tests
use c_osiris.Base.{
  ℕ, ◌-◌, Bool, true, false, ◌&&◌, ◌||◌, not, Option, none, some, List, [], ◌∷◌, ◌++◌, ltb, ◌==◌,
  if◌then◌else◌, length, take,
}
use c_osiris.Base.Words.{u32_mod}
use c_osiris.Net.Route.{Route, find}
use c_osiris.Net.Sock.{Sock, Stab, udp, update, port_alloc, sock_set_loc_addr, sock_set_rem_addr}

abbrev pub sock_max_bufs : ℕ
sock_max_bufs = 4

-- A datagram, in host format: its addresses, its ports and its data, which is all of it.
pub record Datagram : Type 0 where
  pub saddr : ℕ
  pub sport : ℕ
  pub daddr : ℕ
  pub dport : ℕ
  pub payload : List ℕ

-- Whether the socket matches the packet.
unfoldable pub accepts : Datagram → Sock → Bool
accepts d s =
    s.proto == udp
    && (s.loc_port == d.dport
        && ((s.loc_ip == 0 || s.loc_ip == d.daddr)
            && ((s.rem_port == 0 || s.rem_port == d.sport)
                && (s.rem_ip == 0 || (s.rem_ip == 0xFFFFFFFF || s.rem_ip == d.saddr)))))

-- The list of received packets after the packet is added, or dropped.
unfoldable pub receive : Datagram → Sock → Sock
receive d s =
    if ltb (length s.bufs) sock_max_bufs then record s { bufs = s.bufs ++ (d.payload ∷ []) } else s

-- The loop of `udp_process` over the table, behind the test of the checksum.
unfoldable pub udp_process : Datagram → List Sock → List Sock
unfolding accepts receive
udp_process d [] = []
udp_process d (s ∷ ss) = if accepts d s then receive d s ∷ ss else s ∷ udp_process d ss

-- The local port, where `port_alloc` returns -1: the `uint16_t` that it is stored in.
abbrev pub stored_port : Option ℕ → ℕ
stored_port none = 65535
stored_port (some p) = p

-- The part of `udp_connect` for a socket without a local port.
unfoldable pub local_port : Sock → Stab → Bool × Stab
unfolding port_alloc sock_set_loc_addr
local_port s t =
    let (p, t') = port_alloc udp t in
    if s.loc_port == 0 then sock_set_loc_addr s.id s.proto 0 (stored_port p) t' else (true, t)

-- `udp_connect`. It does not look at what `sock_set_rem_addr` returns.
unfoldable pub udp_connect : List Route → Sock → ℕ → ℕ → Stab → Bool × Stab
unfolding local_port sock_set_rem_addr update
udp_connect routes s ip port t =
    let (done, t') = local_port s t in
    if not done
    then (false, t')
    else let t'' = (sock_set_rem_addr routes s.id s.netif ip port t').1 in
      (true, record t'' { socks = update s.id (λ q. record q { connected = true }) t''.socks })

-- `udp_read` at a socket: `none` is a socket without packets, where a running task sleeps for one
-- first, and a task that exits gets -1.
unfoldable pub udp_read : ℕ → Sock → Option (List ℕ) × Sock
udp_read size s = elim s.bufs [
  | [] ↦ (none, s)
  | b ∷ bs ↦ (some (if ltb (length b) size then b else take size b), record s { bufs = bs })
]

-- The address whose hardware address `eth_set_dmac` asks for: none for a broadcast.
unfoldable pub eth_next_hop : List Route → ℕ → Option (Option ℕ)
unfolding find
eth_next_hop routes ip = if ip == u32_mod - 1 then some none else elim (find ip routes) [
  | none ↦ none
  | some r ↦ some (some (if r.base == 0 then r.gateway else ip))
]
