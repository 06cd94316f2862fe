-- ===== src/Net/Udp/Tests.antt =====
-- The delivery of a datagram, at one that comes for a resolver.
use c_osiris.Base.{◌≡◌, refl, true, [], ◌∷◌}
use c_osiris.Net.Sock.{Sock, created, bound_to, udp}
use c_osiris.Net.Udp.{Datagram, udp_process, accepts, receive}

abbrev reply : Datagram
reply = record {
  saddr = 0x08080808;
  sport = 53;
  daddr = 0x0A000203;
  dport = 5353;
  payload = 1 ∷ 2 ∷ 3 ∷ [];
}

abbrev resolver : Sock
resolver = bound_to 0 5353 (created 1 udp 4)

abbrev other : Sock
other = bound_to 0 68 (created 2 udp 4)

accepted : accepts reply resolver ≡ true
unfolding accepts
accepted = refl

delivered : udp_process reply (other ∷ resolver ∷ []) ≡ other ∷ receive reply resolver ∷ []
unfolding udp_process accepts
delivered = refl
