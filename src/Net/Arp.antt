-- ===== src/Net/Arp.antt =====
-- arp.c: the table of hardware addresses. The clock is read once for each critical section.
pub mod Table
mod Tests
use c_osiris.Base.{
  ℕ, ◌+◌, ◌-◌, Bool, true, false, ◌&&◌, Option, none, some, List, [], ◌∷◌, ltb, ◌==◌, if◌then◌else◌,
  get_or, set, replicate, length,
}
use c_osiris.Base.Words.{u32_mod, add32}

-- The status of an entry: ARPC_FREE, ARPC_PENDING and ARPC_SOLVED.
pub data Status : Type 0 where
  free pending solved : Status

-- `struct arp_entry`; a hardware address is a number of 48 bits.
pub record Entry : Type 0 where
  pub ip : ℕ
  pub mac : ℕ
  pub status : Status
  pub expire : ℕ

abbrev pub Cache : Type 0
Cache = List Entry

abbrev pub cleared : Entry
cleared = record { ip = 0; mac = 0; status = free; expire = 0 }

abbrev pub cache_size : ℕ
cache_size = 32

abbrev pub ttl_pending : ℕ
ttl_pending = 2

abbrev pub ttl : ℕ
ttl = 300

abbrev pub is_free : Status → Bool
is_free free = true
is_free pending = false
is_free solved = false

abbrev pub is_pending : Status → Bool
is_pending free = false
is_pending pending = true
is_pending solved = false

abbrev pub is_solved : Status → Bool
is_solved free = false
is_solved pending = false
is_solved solved = true

-- `arp_cache_check_expired` at one entry.
unfoldable pub check_expired : ℕ → Entry → Entry
check_expired now e = if ltb e.expire now then cleared else e

-- `arp_cache_get_mac`: the index and the address, and the table after it; `i` is the index of the
-- first entry.
unfoldable pub get_mac : ℕ → ℕ → ℕ → Cache → Option (ℕ × ℕ) × Cache
unfolding check_expired
get_mac now ip i [] = (none, [])
get_mac now ip i (e ∷ es) =
    let e' = check_expired now e in
    let (r, es') = get_mac now ip (i + 1) es in
    if is_solved e'.status && e'.ip == ip then (some (i, e'.mac), e' ∷ es) else (r, e' ∷ es')

-- `arp_cache_set_mac`.
unfoldable pub set_mac : ℕ → ℕ → ℕ → ℕ → Cache → Option ℕ × Cache
unfolding check_expired
set_mac now ip mac i [] = (none, [])
set_mac now ip mac i (e ∷ es) =
    let e' = check_expired now e in
    let (r, es') = set_mac now ip mac (i + 1) es in
    if e'.ip == ip && is_pending e'.status
    then (some i, record e' { mac = mac; status = solved; expire = add32 now ttl } ∷ es)
    else (r, e' ∷ es')

-- The loop of `arp_cache_set_pending`: the index at which it breaks, or else the oldest entry `mid`
-- (`none` until one is stored) of those that expire before `least`.
unfoldable pub find_slot : ℕ → ℕ → ℕ → Option ℕ → Cache → Option ℕ × Cache
unfolding check_expired
find_slot now i least mid [] = (mid, [])
find_slot now i least mid (e ∷ es) =
    let e' = check_expired now e in
    let older = ltb e'.expire least in
    let (r, es') =
      find_slot now (i + 1) (if older then e'.expire else least) (if older then some i else mid)
        es in
    if is_free e'.status then (some i, e' ∷ es) else (r, e' ∷ es')

abbrev pub pending_entry : ℕ → ℕ → Entry
pending_entry now ip = record { ip = ip; mac = 0; status = pending; expire = add32 now ttl_pending }

-- The end of `arp_cache_set_pending`, at the index that its loop leaves.
unfoldable pub place : ℕ → ℕ → Option ℕ × Cache → Option ℕ × Cache
place now ip (none, c) = (none, c)
place now ip (some i, c) = (some i, set c i (pending_entry now ip))

-- `arp_cache_set_pending`; `none` stands for the use of `mid` before anything is stored in it.
unfoldable pub set_pending : ℕ → ℕ → Cache → Option ℕ × Cache
unfolding find_slot place
set_pending now ip c = place now ip (find_slot now 0 (u32_mod - 1) none c)

-- The part of `arp_resolve` in front of the request: whether the table answers.
unfoldable pub cached : ℕ → ℕ → Cache → Option ℕ × Cache
unfolding get_mac
cached now ip c =
    if ip == u32_mod - 1
    then (some 0, c)
    else let (r, c') = get_mac now ip 0 c in
      elim r [ none ↦ (none, c') | some (i, mac) ↦ if ltb 0 i then (some mac, c') else (none, c') ]

-- The part behind the sleep, at the index of the pending entry.
unfoldable pub answered : ℕ → ℕ → Cache → Option ℕ × Cache
answered ip i c =
    let e = get_or c i cleared in
    if e.ip == ip && is_solved e.status then (some e.mac, c) else (none, set c i cleared)
