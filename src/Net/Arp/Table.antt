-- ===== src/Net/Arp/Table.antt =====
-- What the table of hardware addresses answers.
use c_osiris.Base.{
  ℕ, suc, ◌-◌, ◌+◌, ◌≤◌, ◌<◌, ◌≡◌, inl, inr, refl, ap, ◌∙◌, Bool, true, false, ◌&&◌, Option, none,
  some, [], ◌∷◌, arith, Bool-cases, ltb, ◌==◌, if◌then◌else◌, length, get_or, set, length-set,
  get_or-set_self,
}
use mathlib.Core.Path.{subst}
use c_osiris.Base.Words.{u32_mod}
use c_osiris.Net.Arp.{
  solved, Entry, Cache, cleared, is_free, is_solved, check_expired, get_mac, find_slot,
  pending_entry, place, set_pending, cached,
}

-- An entry with the address for an IP, not yet expired.
abbrev pub Live : ℕ → ℕ → ℕ → Entry → Type 0
Live now ip mac e = (e.ip ≡ ip) × (e.mac ≡ mac) × (e.status ≡ solved) × (now ≤ e.expire)

abbrev pub All : (Entry → Type 0) → Cache → Type 0
All P [] = Unit {0}
All P (e ∷ es) = P e × All P es

Live-hit :
    (now ip : ℕ) (e : Entry)
    → (is_solved (check_expired now e).status && (check_expired now e).ip == ip) ≡ true
    → Live now ip (check_expired now e).mac e
unfolding check_expired
Live-hit now ip e h = elim (Bool-cases (ltb e.expire now)) [
  | inl old ↦ absurd (ground arith)
  | inr live ↦ ground arith
]

Live-miss :
    (now ip mac : ℕ) (e : Entry)
    → (is_solved (check_expired now e).status && (check_expired now e).ip == ip) ≡ false
    → ¬ Live now ip mac e
unfolding check_expired
Live-miss now ip mac e h v = ground arith

-- `arp_cache_get_mac` answers from an entry that is solved for this IP and has not expired, and it
-- finds such an entry if there is one.
pub get_mac_lem :
    (now ip i : ℕ) (c : Cache)
    → ((j mac : ℕ)
        → (get_mac now ip i c).0 ≡ some (j, mac)
        → (k : ℕ) × (j ≡ i + k) × (k < length c) × Live now ip mac (get_or c k cleared))
      × ((get_mac now ip i c).0 ≡ none → (mac : ℕ) → All (λ e. ¬ Live now ip mac e) c)
unfolding get_mac
get_mac_lem now ip i [] = (λ j mac h. absurd (cc), λ h mac. tt)
get_mac_lem now ip i (e ∷ es) =
    elim (Bool-cases (is_solved (check_expired now e).status && (check_expired now e).ip == ip)) [
      | inl hit ↦
          let l = Live-hit now ip e hit in
          rw hit (λ j mac h. (0, ground arith, ground arith, ground arith), λ h. cc)
      | inr miss ↦
          let rest = get_mac_lem now ip (i + 1) es in
          rw miss (
            λ j mac h. let (k, e1, lt, v) = rest.0 j mac h in (suc k, omega arith, omega arith, v),
            λ h mac. (Live-miss now ip mac e miss, rest.1 h mac),
          )
    ]

-- For an IP below the broadcast address with a live entry in front of the table,
-- `arp_cache_get_mac` answers from that entry, and `arp_resolve` does not use the answer.
pub cached_first :
    (now ip mac : ℕ) (e : Entry) (es : Cache)
    → ip < u32_mod - 1
    → Live now ip mac e
    → (get_mac now ip 0 (e ∷ es)).0 ≡ some (0, mac) × (cached now ip (e ∷ es)).0 ≡ none
unfolding get_mac cached check_expired
cached_first now ip mac e es lt v = elim (Bool-cases (ltb e.expire now)) [
  | inl old ↦ absurd (ground arith)
  | inr live ↦
      let answer : is_solved (check_expired now e).status && (check_expired now e).ip == ip ≡ true =
        rw live (ground arith) in
      let same : (check_expired now e).mac ≡ mac = rw live v.1 in
      let found : get_mac now ip 0 (e ∷ es) ≡ (some (0, mac), check_expired now e ∷ es) =
        rw answer (rw same refl) in
      let single : (ip == u32_mod - 1) ≡ false = ground arith in
      (ap (λ r. r.0) found, rw single (rw found refl))
]

find_slot_lem :
    (now i least : ℕ) (mid : Option ℕ) (c : Cache)
    → length (find_slot now i least mid c).1 ≡ length c
unfolding find_slot
find_slot_lem now i least mid [] = refl
find_slot_lem now i least mid (e ∷ es) = elim (Bool-cases (is_free (check_expired now e).status)) [
  | inl stop ↦ rw stop refl
  | inr on ↦ rw on (ap suc (find_slot_lem now (i + 1) _ _ es))
]

older-lt :
    (b : Bool) (i : ℕ) (mid : Option ℕ)
    → ((k : ℕ) → mid ≡ some k → k < i)
    → (k : ℕ) → (if b then some i else mid) ≡ some k
    → k < i + 1
older-lt true i mid old k h = ground arith
older-lt false i mid old k h = omega (arith, old k h)

-- The index that the loop finds is one of the table's, or the one it came with.
find_slot-lt :
    (now i least : ℕ) (mid : Option ℕ) (c : Cache) (j : ℕ)
    → ((k : ℕ) → mid ≡ some k → k < i)
    → (find_slot now i least mid c).0 ≡ some j
    → j < i + length c
unfolding find_slot
find_slot-lt now i least mid [] j old = λ h. omega (arith, old j h)
find_slot-lt now i least mid (e ∷ es) j old =
    elim (Bool-cases (is_free (check_expired now e).status)) [
      | inl stop ↦ rw stop (λ h. ground arith)
      | inr on ↦ rw on (λ h.
          let rest =
            find_slot-lt now (i + 1) _ _ es j
              (older-lt (ltb (check_expired now e).expire least) i mid old) h in
          omega arith)
    ]

-- What the end of `arp_cache_set_pending` does with an index of the table.
place_lem :
    (now ip n : ℕ) (r : Option ℕ × Cache)
    → length r.1 ≡ n
    → ((i : ℕ) → r.0 ≡ some i → i < n)
    → length (place now ip r).1 ≡ n
      × ((i : ℕ)
          → (place now ip r).0 ≡ some i
          → i < n × get_or (place now ip r).1 i cleared ≡ pending_entry now ip)
unfolding place
place_lem now ip n (none, c) same lt = (same, λ i h. cc)
place_lem now ip n (some i, c) same lt = (
  length-set c i (pending_entry now ip) ∙ same,
  λ j h.
      let eq : i ≡ j = ground arith in
      subst
        (λ k. (k < n) × (get_or (set c i (pending_entry now ip)) k cleared ≡ pending_entry now ip))
        eq
        (lt i refl, get_or-set_self c i (pending_entry now ip) cleared (omega (arith, lt i refl))),
)

-- `arp_cache_set_pending` keeps the size of the table, and the index it returns is in the table and
-- holds an entry for the IP, pending, without an address, that lives for ARPC_TTL_PENDING.
pub set_pending_lem :
    (now ip : ℕ) (c : Cache)
    → length (set_pending now ip c).1 ≡ length c
      × ((i : ℕ)
          → (set_pending now ip c).0 ≡ some i
          → i < length c × get_or (set_pending now ip c).1 i cleared ≡ pending_entry now ip)
unfolding set_pending
set_pending_lem now ip c =
    place_lem now ip (length c) (find_slot now 0 (u32_mod - 1) none c)
      (find_slot_lem now 0 (u32_mod - 1) none c)
      (λ i h. omega (arith, find_slot-lt now 0 (u32_mod - 1) none c i (λ k e. cc) h))
