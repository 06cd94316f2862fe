-- ===== src/Net/Udp/Deliver.antt =====
-- Where a datagram goes.
use c_osiris.Base.{
  ℕ, ◌≤◌, ◌≡◌, ◌⊎◌, inl, inr, refl, sym, ap, ◌∙◌, true, false, some, List, [], ◌∷◌, ◌++◌, arith,
  Bool-cases, ltb, length, length-append, take, take_all, if◌then◌else◌,
}
use mathlib.Core.Path.{ap₂}
use c_osiris.Net.Sock.{Sock}
use c_osiris.Net.Udp.{Datagram, accepts, receive, udp_process, udp_read, sock_max_bufs}

-- No socket of the list takes the packet.
abbrev NoneAccepts : Datagram → List Sock → Type 0
NoneAccepts d [] = Unit {0}
NoneAccepts d (s ∷ ss) = (accepts d s ≡ false) × NoneAccepts d ss

-- The packet is dropped, or goes to the first socket that accepts it, and to no other.
data Delivered (d : Datagram) (ss ss' : List Sock) : Type 0 where
  dropped : NoneAccepts d ss → ss' ≡ ss → Delivered d ss ss'
  at :
      (before : List Sock) (s : Sock) (after : List Sock)
      → ss ≡ before ++ (s ∷ after)
      → NoneAccepts d before
      → accepts d s ≡ true
      → ss' ≡ before ++ (receive d s ∷ after)
      → Delivered d ss ss'

Delivered-cons :
    (d : Datagram) (s : Sock) (ss ss' : List Sock)
    → accepts d s ≡ false
    → Delivered d ss ss'
    → Delivered d (s ∷ ss) (s ∷ ss')
Delivered-cons d s ss ss' no_match (dropped n e) = dropped (no_match, n) (ap (λ l. s ∷ l) e)
Delivered-cons d s ss ss' no_match (at b q a e n m e') =
    at (s ∷ b) q a (ap (λ l. s ∷ l) e) (no_match, n) m (ap (λ l. s ∷ l) e')

-- `udp_process` gives the packet to the first socket that accepts it, and leaves every other socket
-- and their order; where none accepts it, the table is unchanged.
udp_process-Delivered : (d : Datagram) (ss : List Sock) → Delivered d ss (udp_process d ss)
unfolding udp_process
udp_process-Delivered d [] = dropped tt refl
udp_process-Delivered d (s ∷ ss) = elim (Bool-cases (accepts d s)) [
  | inl yes_match ↦ rw yes_match (at [] s ss refl tt yes_match refl)
  | inr no_match ↦ rw no_match (Delivered-cons d s ss _ no_match (udp_process-Delivered d ss))
]

-- A socket never holds more than `SOCK_MAX_BUFS` packets, and the packet is dropped, not an older one:
-- the packets it has stay in front, in their order.
pub receive_lem :
    (d : Datagram) (s : Sock)
    → length s.bufs ≤ sock_max_bufs
    → length (receive d s).bufs ≤ sock_max_bufs
      × ((receive d s).bufs ≡ s.bufs ⊎ (receive d s).bufs ≡ s.bufs ++ (d.payload ∷ []))
unfolding receive
receive_lem d s h = elim (Bool-cases (ltb (length s.bufs) sock_max_bufs)) [
  | inl room ↦ rw room (ground (arith, length-append s.bufs (d.payload ∷ [])), inr refl)
  | inr none_left ↦ rw none_left (h, inl refl)
]

cut : (size : ℕ) (b : List ℕ) → (if ltb (length b) size then b else take size b) ≡ take size b
cut size b = elim (Bool-cases (ltb (length b) size)) [
  | inl short ↦ rw short (sym (take_all size b (ground arith)))
  | inr long ↦ rw long refl
]

-- A packet that comes to a socket without packets is what `udp_read` returns next, cut to the size
-- of the reader's buffer, and the socket is then as it was.
pub udp_read-receive :
    (d : Datagram) (s : Sock) (size : ℕ)
    → s.bufs ≡ []
    → udp_read size (receive d s) ≡ (some (take size d.payload), s)
unfolding udp_read receive
udp_read-receive d s size h =
    let same : record s { bufs = [] } ≡ s = ap (λ b. record s { bufs = b }) (sym h) in
    ap (λ q. udp_read size (receive d q)) (sym same)
    ∙ ap₂ (λ (b : List ℕ) (q : Sock). (some b, q)) (cut size d.payload) same
