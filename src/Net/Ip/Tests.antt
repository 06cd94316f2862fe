-- ===== src/Net/Ip/Tests.antt =====
-- The theorems on IP at a small header.
use c_osiris.Base.{ℕ, ◌≡◌, ◌++◌, refl, List, [], ◌∷◌, arith}
use c_osiris.Net.Ip.{Header, ip_csum, iphlen}
use c_osiris.Net.Ip.Checksum.{ip_csum-filled}

abbrev front : List ℕ
front = 0x4500 ∷ 0xFFFF ∷ []

abbrev back : List ℕ
back = 0x8001 ∷ []

ip_csum-filled_example : ip_csum (front ++ (ip_csum (front ++ (0 ∷ back)) ∷ back)) ≡ 0
ip_csum-filled_example =
    ip_csum-filled front back (omega arith, (omega arith, (omega arith, (omega arith, tt))))
      (omega arith)

abbrev query : Header
query = record { version = 4; ihl = 5; ttl = 64; proto = 17; daddr = 0x0A000203 }

-- A header of eight words has no length.
options : iphlen 0x48 ≡ 0
options = refl
