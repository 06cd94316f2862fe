-- ===== src/Net/Route/Tests.antt =====
-- The theorems on the routing table at a table of two routes.
use c_osiris.Base.{◌≡◌, refl, some, List, [], ◌∷◌, arith, inl, true, false}
use c_osiris.Net.Route.{Route, add, find, exists}
use c_osiris.Net.Route.Order.{IsSorted, Matches, Contains, add-IsSorted, find_lem}

abbrev net : Route
net = record { base = 0x0A000200; mask = 0xFFFFFF00; gateway = 0; netif = 0 }

abbrev default : Route
default = record { base = 0; mask = 0; gateway = 0x0A000202; netif = 0 }

abbrev table : List Route
table = net ∷ default ∷ []

sorted : IsSorted table
sorted = ((inl (omega arith), tt), (tt, tt))

local_found : find 0x0A000205 table ≡ some net
unfolding find
local_found = refl

add-IsSorted_example :
    IsSorted (add 0x0A000305 0xFFFFFF00 0 0 table).1
    × (exists 0x0A000300 0xFFFFFF00 table ≡ true
        → add 0x0A000305 0xFFFFFF00 0 0 table ≡ (false, table))
add-IsSorted_example = add-IsSorted 0x0A000305 0xFFFFFF00 0 0 table sorted

find_lem_example : Contains net table × Matches 0x0A000205 net
find_lem_example =
    let found = (find_lem 0x0A000205 table sorted).0 net local_found in (found.0, found.1.0)
