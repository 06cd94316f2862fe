-- ===== src/Net/Ip/Accept.antt =====
-- Which packets `ip_process` takes.
use c_osiris.Base.{
  ℕ, ◌-◌, ◌≤◌, ◌≡◌, ◌≢◌, ◌⊎◌, inl, inr, ◌↔◌, refl, true, List, [], ◌∷◌, arith, Bool-cases, ◌==◌,
}
use c_osiris.Base.Words.{u32_mod}
use c_osiris.Net.Ip.{Header, Handler, taken, has_ip, handler, ip_process}

-- The address is one of the list.
abbrev pub Has : ℕ → List ℕ → Type 0
Has a [] = ⊥
Has a (b ∷ bs) = (b ≡ a) ⊎ Has a bs

has_ip_lem : (a : ℕ) (ips : List ℕ) → has_ip a ips ≡ true ↔ Has a ips
unfolding has_ip
has_ip_lem a [] = ((λ h. absurd (cc)), (λ h. absurd h))
has_ip_lem a (b ∷ bs) =
    let rest = has_ip_lem a bs in
    elim (Bool-cases (b == a)) [
      | inl same ↦ rw same ((λ h. inl (ground arith)), (λ h. refl))
      | inr other ↦ rw other (
        (λ h. inr (rest.0 h)),
        (λ h. elim h [ inl e ↦ absurd (ground arith) | inr m ↦ rest.1 m ]),
      )
    ]

-- `ip_process` takes a packet exactly if it is of version 4, its header has five words or more, its
-- time to live is not over, its checksum is right, and it is for everyone or for an address of the
-- interface; it then hands it to the handler of its protocol.
pub ip_process_lem :
    (csum : ℕ) (ips : List ℕ) (h : Header) (k : Handler)
    → ip_process csum ips h ≡ taken k ↔ (
        (h.version ≡ 4)
        × ((5 ≤ h.ihl)
            × ((h.ttl ≢ 0)
                × ((csum ≡ 0)
                    × (((h.daddr ≡ u32_mod - 1) ⊎ Has h.daddr ips) × (handler h.proto ≡ k))))))
unfolding ip_process
ip_process_lem csum ips h k = ground (arith, has_ip_lem h.daddr ips)
