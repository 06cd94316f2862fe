-- ===== src/Net/Arp/Tests.antt =====
-- The theorems on the table of hardware addresses at small tables.
use c_osiris.Base.{◌≡◌, refl, some, [], ◌∷◌}
use c_osiris.Net.Arp.{Entry, Cache, pending, solved, get_mac, set_pending}

abbrev gateway : Entry
gateway = record { ip = 0x0A000202; mac = 77; status = solved; expire = 310 }

abbrev asked : Entry
asked = record { ip = 0x0A000203; mac = 0; status = pending; expire = 12 }

abbrev table : Cache
table = asked ∷ gateway ∷ []

answer : (get_mac 11 0x0A000202 0 table).0 ≡ some (1, 77)
unfolding get_mac
answer = refl

-- The entry that has expired makes room.
set_pending-expired : (set_pending 20 0x0A000209 table).0 ≡ some 0
unfolding set_pending
set_pending-expired = refl
