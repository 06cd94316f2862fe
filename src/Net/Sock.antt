-- ===== src/Net/Sock.antt =====
-- sock.c: the table of sockets, their addresses and their ports.
pub mod Distinct
mod Tests
use c_osiris.Base.{
  ℕ, ◌+◌, ◌-◌, Bool, true, false, ◌&&◌, ◌||◌, Option, none, some, List, [], ◌∷◌, ◌++◌, ◌==◌,
  if◌then◌else◌, length, leb,
}
use c_osiris.Bmap.{Bmap, alloc, get_free, free}
use c_osiris.Net.Route.{Route, find}

-- `sock_t`. `id` stands for its address; a buffer is the data of a datagram.
pub record Sock : Type 0 where
  pub id : ℕ
  pub proto : ℕ
  pub pid : ℕ
  pub loc_ip : ℕ
  pub loc_port : ℕ
  pub rem_ip : ℕ
  pub rem_port : ℕ
  pub netif : Option ℕ
  pub connected : Bool
  pub bufs : List (List ℕ)

-- `stab` with the bitmaps of the ports, and the address that `calloc` returns next.
pub record Stab : Type 0 where
  pub socks : List Sock
  pub next_id : ℕ
  pub udp_ports : Bmap
  pub tcp_ports : Bmap

abbrev pub max_socks : ℕ
max_socks = 32

abbrev pub min_port : ℕ
min_port = 32768

abbrev pub udp : ℕ
udp = 0

abbrev pub tcp : ℕ
tcp = 1

-- `sock_init`, where `calloc` returns memory.
abbrev pub sock_init : Stab
sock_init = record { socks = []; next_id = 1; udp_ports = alloc 1024; tcp_ports = alloc 1024 }

abbrev pub created : ℕ → ℕ → ℕ → Sock
created id proto pid = record {
  id = id;
  proto = proto;
  pid = pid;
  loc_ip = 0;
  loc_port = 0;
  rem_ip = 0;
  rem_port = 0;
  netif = none;
  connected = false;
  bufs = [];
}

-- `sock_alloc`, called by process `pid`, where `calloc` returns memory.
unfoldable pub sock_alloc : ℕ → ℕ → Stab → Option Sock × Stab
sock_alloc proto pid t =
    if length t.socks == max_socks
    then (none, t)
    else let s = created t.next_id proto pid in
      (some s, record t { socks = t.socks ++ (s ∷ []); next_id = t.next_id + 1 })

-- `list_del` at the node of the socket.
unfoldable pub remove : ℕ → List Sock → List Sock
remove id [] = []
remove id (s ∷ ss) = if s.id == id then ss else s ∷ remove id ss

unfoldable pub sock_free : ℕ → Stab → Stab
unfolding remove
sock_free id t = record t { socks = remove id t.socks }

-- A write through the pointer to the socket.
unfoldable pub update : ℕ → (Sock → Sock) → List Sock → List Sock
update id f [] = []
update id f (s ∷ ss) = if s.id == id then f s ∷ ss else s ∷ update id f ss

-- The test of the loop in `sock_set_loc_addr`.
unfoldable pub in_use : ℕ → ℕ → ℕ → List Sock → Bool
in_use proto ip port [] = false
in_use proto ip port (s ∷ ss) =
    (s.proto == proto && (s.loc_port == port && (s.loc_ip == ip || s.loc_ip == 0)))
    || in_use proto ip port ss

abbrev pub bound_to : ℕ → ℕ → Sock → Sock
bound_to ip port s = record s { loc_ip = ip; loc_port = port }

-- `sock_set_loc_addr`; the Boolean is false for -1.
unfoldable pub sock_set_loc_addr : ℕ → ℕ → ℕ → ℕ → Stab → Bool × Stab
unfolding in_use update
sock_set_loc_addr id proto ip port t =
    if in_use proto ip port t.socks
    then (false, t)
    else (true, record t { socks = update id (bound_to ip port) t.socks })

-- `sock_set_netif`.
unfoldable pub sock_set_netif : ℕ → Option ℕ → Stab → Stab
unfolding update
sock_set_netif id n t = record t { socks = update id (λ s. record s { netif = n }) t.socks }

-- The interface that `sock_set_rem_addr` uses.
unfoldable pub route_netif : List Route → Option ℕ → ℕ → Option ℕ
unfolding find
route_netif routes (some n) ip = some n
route_netif routes none ip = elim (find ip routes) [ none ↦ none | some r ↦ some r.netif ]

-- `sock_set_rem_addr` at a socket whose interface is `n`.
unfoldable pub sock_set_rem_addr : List Route → ℕ → Option ℕ → ℕ → ℕ → Stab → Bool × Stab
unfolding route_netif update
sock_set_rem_addr routes id n ip port t = elim (route_netif routes n ip) [
  | none ↦ (false, t)
  | some m ↦ (
    true,
    record t {
      socks = update id (λ s. record s { rem_ip = ip; rem_port = port; netif = some m }) t.socks;
    },
  )
]

abbrev pub to_port : Option ℕ → Option ℕ
to_port none = none
to_port (some p) = some (p + min_port)

-- `port_alloc`; `none` stands for -1.
unfoldable pub port_alloc : ℕ → Stab → Option ℕ × Stab
port_alloc proto t =
    let (p, u) = get_free t.udp_ports in
    let (q, v) = get_free t.tcp_ports in
    if proto == udp
    then (to_port p, record t { udp_ports = u })
    else if proto == tcp
    then (to_port q, record t { tcp_ports = v })
    else (none, t)

-- `port_free` at a port from `port_alloc`.
unfoldable pub port_free : ℕ → ℕ → Stab → Stab
port_free proto port t =
    let bit = port - min_port in
    if proto == udp
    then record t { udp_ports = (free t.udp_ports bit).1 }
    else if proto == tcp
    then record t { tcp_ports = (free t.tcp_ports bit).1 }
    else t

-- The rest of `sock_bind` once the port is known.
unfoldable pub bind_at : ℕ → ℕ → ℕ → Option ℕ × Stab → Option ℕ × Stab
unfolding sock_set_loc_addr
bind_at id proto ip (none, t) = (none, t)
bind_at id proto ip (some p, t) =
    let (done, t') = sock_set_loc_addr id proto ip p t in (if done then some p else none, t')

-- `sock_bind`, which writes the port it finds into the caller's address; the port is returned.
unfoldable pub sock_bind : ℕ → ℕ → ℕ → ℕ → Stab → Option ℕ × Stab
unfolding port_alloc bind_at
sock_bind id proto ip port t =
    bind_at id proto ip (if port == 0 then port_alloc proto t else (some port, t))
