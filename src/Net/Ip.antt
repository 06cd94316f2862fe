-- ===== src/Net/Ip.antt =====
-- ip.c: the checksum of RFC 1071, the fields of the header on the wire, and which packets are taken.
pub mod Checksum
pub mod Accept
pub mod Wire
mod Tests
use c_osiris.Base.{
  ℕ, zero, suc, ◌+◌, ◌-◌, ◌*◌, ◌/◌, ◌%◌, ◌^◌, ◌<◌, Bool, true, false, ◌&&◌, ◌||◌, not, List, [],
  ◌∷◌, ltb, ◌==◌, if◌then◌else◌,
}
use c_osiris.Base.Words.{u32_mod, add32}

-- The first two loops of `ip_csum`: the 16-bit words of the buffer, and a last byte by itself.
unfoldable pub sum_words : ℕ → List ℕ → ℕ
sum_words sum [] = sum
sum_words sum (w ∷ ws) = sum_words (add32 sum w) ws

-- One round of the loop that adds the carries in.
abbrev pub fold_once : ℕ → ℕ
fold_once sum = sum % 65536 + sum / 65536

-- The loop, with the rounds left.
unfoldable pub fold : ℕ → ℕ → ℕ
fold zero sum = sum
fold (suc n) sum = let rest = fold n (fold_once sum) in if sum / 65536 == 0 then sum else rest

-- `ip_csum` of the words of a buffer. A 32-bit sum needs no more than two rounds.
unfoldable pub ip_csum : List ℕ → ℕ
unfolding sum_words fold
ip_csum ws = 65535 - fold 2 (sum_words 0 ws)

-- `iphlen` of the header's first byte on a little-endian machine, where `is_bige` is false.
abbrev pub iphlen : ℕ → ℕ
iphlen byte = byte % 8 * 4

-- The fields of the header in host format that `ip_process` reads.
pub record Header : Type 0 where
  pub version : ℕ
  pub ihl : ℕ
  pub ttl : ℕ
  pub proto : ℕ
  pub daddr : ℕ

-- Who gets the packet.
pub data Handler : Type 0 where
  to_icmp to_udp unsupported : Handler

pub data Verdict : Type 0 where
  rejected : Verdict
  taken : Handler → Verdict

-- The loop over the addresses of the interface.
unfoldable pub has_ip : ℕ → List ℕ → Bool
has_ip daddr [] = false
has_ip daddr (ip ∷ ips) = ip == daddr || has_ip daddr ips

abbrev pub handler : ℕ → Handler
handler proto = if proto == 1 then to_icmp else if proto == 17 then to_udp else unsupported

-- `ip_process`, at the checksum of the header and the addresses of the interface.
unfoldable pub ip_process : ℕ → List ℕ → Header → Verdict
unfolding has_ip
ip_process csum ips h =
    if not (h.version == 4)
    then rejected
    else if ltb h.ihl 5
    then rejected
    else if h.ttl == 0
    then rejected
    else if not (csum == 0)
    then rejected
    else if not (h.daddr == u32_mod - 1 || has_ip h.daddr ips)
    then rejected
    else taken (handler h.proto)
