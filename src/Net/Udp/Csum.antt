-- ===== src/Net/Udp/Csum.antt =====
-- `udp_csum` of udp.c.
pub mod Filled
mod Tests
use c_osiris.Base.{
  ℕ, zero, suc, ◌+◌, ◌-◌, ◌*◌, ◌/◌, ◌%◌, List, [], ◌∷◌, ltb, ◌==◌, if◌then◌else◌, get_or, length,
  Bool, ◌||◌,
}
use c_osiris.Base.Words.{add32}
use c_osiris.Net.Ip.{fold_once}
use c_osiris.Word.{htons, ntohs, htonl}

pub record UdpHdr : Type 0 where
  pub sport : ℕ
  pub dport : ℕ
  pub len : ℕ
  pub csum : ℕ

-- The fields of the IP header that the checksum covers.
pub record Ends : Type 0 where
  pub saddr : ℕ
  pub daddr : ℕ
  pub proto : ℕ

-- The words of the bytes behind the header; a last byte by itself is the low one of its word.
unfoldable pub data_words : List ℕ → List ℕ
data_words [] = []
data_words (b ∷ []) = b ∷ []
data_words (b ∷ c ∷ bs) = (b + c * 256) ∷ data_words bs

-- `ptr[0] + ptr[1]` of an address in network format.
abbrev pub halves : ℕ → ℕ
halves ip = htonl ip % 65536 + htonl ip / 65536

abbrev pub pseudo_sum : UdpHdr → Ends → ℕ
pseudo_sum u e =
    add32 (add32 (add32 (halves e.saddr) (halves e.daddr)) (htons e.proto)) (htons u.len)

-- The loop, from word `i` on, and the last byte of an odd length. Header words are in host format.
unfoldable pub sum_loop : ℕ → ℕ → ℕ → List ℕ → ℕ → ℕ
sum_loop odd zero i ws sum = if odd == 0 then sum else add32 sum (get_or ws 0 0 % 256)
sum_loop odd (suc n) i [] sum = sum
sum_loop odd (suc n) i (w ∷ ws) sum =
    sum_loop odd n (i + 1) ws (add32 sum (if ltb i 4 then htons w else w))

abbrev pub udp_words : UdpHdr → List ℕ → List ℕ
udp_words u bytes = u.sport ∷ u.dport ∷ u.len ∷ u.csum ∷ data_words bytes

unfoldable pub udp_sum : UdpHdr → Ends → List ℕ → ℕ
unfolding data_words sum_loop
udp_sum u e bytes = sum_loop (u.len % 2) (u.len / 2) 0 (udp_words u bytes) (pseudo_sum u e)

-- The checksum, of a header and the bytes behind it, which are as many as the length says. The
-- carries are added in once, and the complement is cut to 16 bits.
unfoldable pub udp_csum : UdpHdr → Ends → List ℕ → ℕ
unfolding udp_sum
udp_csum u e bytes = 65535 - fold_once (udp_sum u e bytes) % 65536

abbrev pub buf2udp : UdpHdr → UdpHdr
buf2udp u = record {
  sport = ntohs u.sport;
  dport = ntohs u.dport;
  len = ntohs u.len;
  csum = ntohs u.csum;
}

abbrev pub udp2buf : UdpHdr → UdpHdr
udp2buf u = record {
  sport = htons u.sport;
  dport = htons u.dport;
  len = htons u.len;
  csum = htons u.csum;
}

-- The header in host format, before its checksum is set.
abbrev pub draft : ℕ → ℕ → List ℕ → UdpHdr
draft sport dport bytes = record { sport = sport; dport = dport; len = 8 + length bytes; csum = 0 }

-- The header that `udp_write` makes for the bytes, in network format.
unfoldable pub written : ℕ → ℕ → Ends → List ℕ → UdpHdr
unfolding udp_csum
written sport dport e bytes =
    let u = draft sport dport bytes in record (udp2buf u) { csum = udp_csum u e bytes }

-- The test of `udp_process` on a header in network format; a checksum of zero is none.
unfoldable pub has_good_csum : UdpHdr → Ends → List ℕ → Bool
unfolding udp_csum
has_good_csum buf e bytes = let u = buf2udp buf in u.csum == 0 || udp_csum u e bytes == 0
