-- ===== src/Net/Dns/Tests.antt =====
-- Names on the wire, and the round trip of the name "ab.c".
use c_osiris.Base.{
  ℕ, ◌-◌, ◌<◌, ◌≡◌, refl, Option, none, some, List, [], ◌∷◌, ◌++◌, ◌==◌, ltb, if◌then◌else◌, ◌%◌,
  length, get_or, replicate, arith,
}
use c_osiris.Net.Dns.Names.{Name, host2dns_name, dns2host_name}
use c_osiris.Net.Dns.Wire.{encode}
use c_osiris.Net.Dns.RoundTrip.{Reads, dns2host_name-host2dns_name}

-- The bytes that "ab.c" becomes in a buffer of ten.
abbrev wire_name : List ℕ
wire_name = 2 ∷ b'a' ∷ b'b' ∷ 1 ∷ b'c' ∷ 0 ∷ 7 ∷ 7 ∷ 7 ∷ 7 ∷ []

abbrev host_name : List ℕ
host_name = b'a' ∷ b'b' ∷ b'.' ∷ b'c' ∷ []

abbrev labels : List (List ℕ)
labels = (b'a' ∷ b'b' ∷ []) ∷ (b'c' ∷ []) ∷ []

abbrev message : ℕ → ℕ
message a = get_or wire_name (a - 112) 0

host2dns_name-short : host2dns_name host_name (replicate 10 7) 10 ≡ some (wire_name, 4)
unfolding host2dns_name
host2dns_name-short = refl

-- A name that points to itself has no end.
dns2host_name-turn : dns2host_name 50 (λ a. if a % 2 == 0 then 0xc0 else 12) 100 40 112 ≡ none
unfolding dns2host_name
dns2host_name-turn = refl

abbrev length_of : Option Name → Option ℕ
length_of none = none
length_of (some n) = some (length n.chars)

-- A label of 63 characters behind one of 30 is cut at 33: the memory grows to 64 characters, which are all
-- in use, with none left for the NUL.
dns2host_name-long :
    length_of (
      dns2host_name 3
        (λ a. if a == 0 then 30 else if a == 31 then 63 else if ltb a 65 then b'a' else 0)
        0
        96
        0)
    ≡ some 64
unfolding dns2host_name
dns2host_name-long = refl

message-Reads : Reads message 112 (encode labels ++ (0 ∷ []))
message-Reads = omega arith

dns2host_name-host2dns_name_example :
    ((rest : List ℕ) × (host2dns_name host_name (replicate 10 7) 10
        ≡ some (encode labels ++ (0 ∷ rest), 4)))
    × ((cap : ℕ) × (dns2host_name 3 message 100 40 112
          ≡ some (record { chars = host_name; cap = cap }))
        × (4 < cap))
dns2host_name-host2dns_name_example =
    dns2host_name-host2dns_name (b'a' ∷ b'b' ∷ []) ((b'c' ∷ []) ∷ []) 7 (replicate 9 7) message 100
      40 112 (omega arith) (omega arith) (omega arith) (omega arith) (omega arith) message-Reads
