-- ===== src/Net/Udp/Csum/Tests.antt =====
-- Checksums of datagrams, and of one whose sum has a carry left.
use c_osiris.Base.{◌≡◌, refl, true, false, [], ◌∷◌, arith}
use c_osiris.Net.Udp.Csum.{Ends, written, has_good_csum, udp_csum}
use c_osiris.Net.Udp.Csum.Filled.{has_good_csum-written}

abbrev query : Ends
query = record { saddr = 0x0A000203; daddr = 0x08080808; proto = 17 }

has_good_csum-written_example :
    has_good_csum (written 5353 53 query (1 ∷ 2 ∷ 3 ∷ [])) query (1 ∷ 2 ∷ 3 ∷ []) ≡ true
unfolding c_osiris.Net.Udp.Csum.udp_sum
has_good_csum-written_example =
    has_good_csum-written 5353 53 query (1 ∷ 2 ∷ 3 ∷ [])
      (omega arith, (omega arith, (omega arith, tt))) (omega arith) (omega arith) (omega arith)
      (omega arith)

abbrev broadcast : Ends
broadcast = record { saddr = 0; daddr = 0xFFFFFFFF; proto = 17 }

-- The second carry is lost, and the receiver refuses the datagram.
refused : has_good_csum (written 156 67 broadcast []) broadcast [] ≡ false
unfolding has_good_csum written
refused = refl
