-- ===== src/Net/Sock/Tests.antt =====
-- The theorems on the table of sockets, at two bound sockets.
use c_osiris.Base.{◌≡◌, refl, inl, inr, true, false, [], ◌∷◌, arith}
use c_osiris.Bmap.{alloc}
use c_osiris.Net.Sock.{Sock, Stab, udp, created, sock_set_loc_addr, sock_bind, bound_to}
use c_osiris.Net.Sock.Distinct.{HasProto, AreDistinct, sock_bind-AreDistinct}

abbrev dns : Sock
dns = bound_to 0 53 (created 1 udp 4)

abbrev fresh : Sock
fresh = created 2 udp 5

abbrev table : Stab
table = record {
  socks = dns ∷ fresh ∷ [];
  next_id = 3;
  udp_ports = alloc 1024;
  tcp_ports = alloc 1024;
}

kinds : HasProto 2 udp (dns ∷ fresh ∷ [])
kinds = (λ h. refl, (λ h. refl, tt))

distinct : AreDistinct (dns ∷ fresh ∷ [])
distinct = (inr (λ c. absurd (omega arith), tt), (inl refl, tt))

taken : (sock_set_loc_addr 2 udp 0x0A000203 53 table).0 ≡ false
unfolding sock_set_loc_addr
taken = refl

-- An address in front, and then any address, on one port.
wider :
    (sock_set_loc_addr 2 udp 0 53
      (record table { socks = record dns { loc_ip = 9 } ∷ fresh ∷ [] })).0
    ≡ true
unfolding sock_set_loc_addr
wider = refl

sock_bind-AreDistinct_example : AreDistinct (sock_bind 2 udp 0 0 table).1.socks
sock_bind-AreDistinct_example = sock_bind-AreDistinct 2 udp 0 0 table kinds distinct
