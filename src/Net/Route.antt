-- ===== src/Net/Route.antt =====
-- route.c: the routing table, a list in descending order of base and mask.
pub mod Order
mod Tests
use Prim.Native.Nat.{bit_and}
use c_osiris.Base.{
  ℕ, Bool, true, false, ◌&&◌, ◌||◌, Option, none, some, List, [], ◌∷◌, ltb, ◌==◌, if◌then◌else◌,
}

-- `struct route`, the interface by its number.
pub record Route : Type 0 where
  pub base : ℕ
  pub mask : ℕ
  pub gateway : ℕ
  pub netif : ℕ

-- `route_exists`.
unfoldable pub exists : ℕ → ℕ → List Route → Bool
exists base mask [] = false
exists base mask (r ∷ rs) = (r.base == base && r.mask == mask) || exists base mask rs

-- Whether the loop of `route_add` stops in front of `rt`.
unfoldable pub goes_before : Route → Route → Bool
goes_before r rt = ltb rt.base r.base || (r.base == rt.base && ltb rt.mask r.mask)

-- `list_insert_before` at the node where the loop stops, or at the end.
unfoldable pub insert : Route → List Route → List Route
unfolding goes_before
insert r [] = r ∷ []
insert r (rt ∷ rs) = if goes_before r rt then r ∷ rt ∷ rs else rt ∷ insert r rs

-- `route_add`, where `malloc` returns memory; the Boolean is false for -1.
unfoldable pub add : ℕ → ℕ → ℕ → ℕ → List Route → Bool × List Route
unfolding exists insert
add base mask gateway netif rs =
    let b = bit_and base mask in
    if exists b mask rs
    then (false, rs)
    else (true, insert (record { base = b; mask = mask; gateway = gateway; netif = netif }) rs)

-- `route_find`.
unfoldable pub find : ℕ → List Route → Option Route
find ip [] = none
find ip (r ∷ rs) = if bit_and ip r.mask == r.base then some r else find ip rs
