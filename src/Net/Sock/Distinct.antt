-- ===== src/Net/Sock/Distinct.antt =====
-- No two sockets are bound to the same address.
use c_osiris.Base.{
  ℕ, ◌≤◌, ◌≡◌, ◌≢◌, ◌⊎◌, ◌↔◌, inl, inr, refl, sym, ◌∙◌, false, Option, none, some, List, [], ◌∷◌,
  ◌++◌, arith, Bool-cases, ◌==◌, length, length-append,
}
use mathlib.Core.Path.{subst}
use c_osiris.Net.Sock.{
  udp, tcp, Sock, Stab, sock_alloc, update, in_use, bound_to, sock_set_loc_addr, port_alloc,
  bind_at, sock_bind, created, max_socks,
}

-- Two sockets of one protocol on one port and one address.
abbrev pub Clash : ℕ → ℕ → ℕ → Sock → Type 0
Clash proto ip port s = (s.proto ≡ proto) × ((s.loc_port ≡ port) × (s.loc_ip ≡ ip))

abbrev pub Free : ℕ → ℕ → ℕ → List Sock → Type 0
Free proto ip port [] = Unit {0}
Free proto ip port (s ∷ ss) = ¬ Clash proto ip port s × Free proto ip port ss

-- Every socket that has a port is the only one with its protocol, port and address.
abbrev pub AreDistinct : List Sock → Type 0
AreDistinct [] = Unit {0}
AreDistinct (s ∷ ss) = ((s.loc_port ≡ 0) ⊎ Free s.proto s.loc_ip s.loc_port ss) × AreDistinct ss

in_use_lem :
    (proto ip port : ℕ) (ss : List Sock) → in_use proto ip port ss ≡ false → Free proto ip port ss
unfolding in_use
in_use_lem proto ip port [] h = tt
in_use_lem proto ip port (s ∷ ss) h =
    (λ c. ground arith, in_use_lem proto ip port ss (ground arith))

in_use-tail :
    (proto ip port : ℕ) (s : Sock) (ss : List Sock)
    → in_use proto ip port (s ∷ ss) ≡ false
    → (¬ Clash proto ip port s) × (in_use proto ip port ss ≡ false)
unfolding in_use
in_use-tail proto ip port s ss h = (λ c. ground arith, ground arith)

-- The socket behind the pointer has this protocol.
abbrev pub HasProto : ℕ → ℕ → List Sock → Type 0
HasProto id proto [] = Unit {0}
HasProto id proto (s ∷ ss) = ((s.id ≡ id) → s.proto ≡ proto) × HasProto id proto ss

-- An address stays free where another is given to the socket behind the pointer.
Free-update :
    (proto ip port id used i p : ℕ) (ss : List Sock)
    → HasProto id used ss
    → Free proto ip port ss
    → ¬ ((used ≡ proto) × ((p ≡ port) × (i ≡ ip)))
    → Free proto ip port (update id (bound_to i p) ss)
unfolding update
Free-update proto ip port id used i p [] kind v n = tt
Free-update proto ip port id used i p (s ∷ ss) kind v n = elim (Bool-cases (s.id == id)) [
  | inl hit ↦
      let own : s.proto ≡ used = kind.0 (ground arith) in rw hit (λ c. n (sym own ∙ c.0, c.1), v.1)
  | inr miss ↦ rw miss (v.0, Free-update proto ip port id used i p ss kind.1 v.1 n)
]

update-AreDistinct :
    (id used i p : ℕ) (ss : List Sock)
    → HasProto id used ss
    → in_use used i p ss ≡ false
    → AreDistinct ss
    → AreDistinct (update id (bound_to i p) ss)
unfolding update
update-AreDistinct id used i p [] kind new v = tt
update-AreDistinct id used i p (s ∷ ss) kind new v =
    let (apart, new') = in_use-tail used i p s ss new in
    elim (Bool-cases (s.id == id)) [
      | inl hit ↦
          let own : s.proto ≡ used = kind.0 (ground arith) in
          rw hit (inr (subst (λ q. Free q i p ss) (sym own) (in_use_lem used i p ss new')), v.1)
      | inr miss ↦ rw miss (
        elim v.0 [
          | inl unbound ↦ inl unbound
          | inr free_for ↦ inr (
              Free-update s.proto s.loc_ip s.loc_port id used i p ss kind.1 free_for
                (λ c. apart (sym c.0, (sym c.1.0, sym c.1.1))))
        ],
        update-AreDistinct id used i p ss kind.1 new' v.1,
      )
    ]

-- `sock_set_loc_addr` keeps the sockets that have a port distinct: no two have the same protocol,
-- port and address. Where it returns -1 the table is unchanged.
pub sock_set_loc_addr-AreDistinct :
    (id proto ip port : ℕ) (t : Stab)
    → HasProto id proto t.socks
    → AreDistinct t.socks
    → AreDistinct (sock_set_loc_addr id proto ip port t).1.socks
      × ((sock_set_loc_addr id proto ip port t).0 ≡ false
          → (sock_set_loc_addr id proto ip port t).1 ≡ t)
unfolding sock_set_loc_addr
sock_set_loc_addr-AreDistinct id proto ip port t kind v =
    elim (Bool-cases (in_use proto ip port t.socks)) [
      | inl used ↦ rw used (v, λ h. refl)
      | inr new ↦ rw new (update-AreDistinct id proto ip port t.socks kind new v, λ h. cc)
    ]

port_alloc-socks : (proto : ℕ) (t : Stab) → (port_alloc proto t).1.socks ≡ t.socks
unfolding port_alloc
port_alloc-socks proto t = elim (Bool-cases (proto == udp)) [
  | inl u ↦ rw u refl
  | inr not_udp ↦ elim (Bool-cases (proto == tcp)) [
    | inl t ↦ rw not_udp (rw t refl)
    | inr other ↦ rw not_udp (rw other refl)
  ]
]

bind_at-AreDistinct :
    (id proto ip : ℕ) (r : Option ℕ × Stab)
    → HasProto id proto r.1.socks
    → AreDistinct r.1.socks
    → AreDistinct (bind_at id proto ip r).1.socks
unfolding bind_at
bind_at-AreDistinct id proto ip (none, t) kind v = v
bind_at-AreDistinct id proto ip (some p, t) kind v =
    (sock_set_loc_addr-AreDistinct id proto ip p t kind v).0

-- In a table where no two sockets with a port have the same protocol, port and address,
-- `sock_bind` of a socket, with the protocol that the table has for it, keeps it so, whether the
-- caller names a port, one is found for it, or it fails.
pub sock_bind-AreDistinct :
    (id proto ip port : ℕ) (t : Stab)
    → HasProto id proto t.socks
    → AreDistinct t.socks
    → AreDistinct (sock_bind id proto ip port t).1.socks
unfolding sock_bind
sock_bind-AreDistinct id proto ip port t kind v = elim (Bool-cases (port == 0)) [
  | inl any ↦
      let same = sym (port_alloc-socks proto t) in
      rw any (
        bind_at-AreDistinct id proto ip (port_alloc proto t) (subst (HasProto id proto) same kind)
          (subst AreDistinct same v))
  | inr given ↦ rw given (bind_at-AreDistinct id proto ip (some port, t) kind v)
]

Free-created :
    (proto ip port id p pid : ℕ) (ss : List Sock)
    → port ≢ 0
    → Free proto ip port ss
    → Free proto ip port (ss ++ (created id p pid ∷ []))
Free-created proto ip port id p pid [] n v = (λ c. n (sym c.1.0), tt)
Free-created proto ip port id p pid (s ∷ ss) n v =
    (v.0, Free-created proto ip port id p pid ss n v.1)

append-AreDistinct :
    (id p pid : ℕ) (ss : List Sock) → AreDistinct ss → AreDistinct (ss ++ (created id p pid ∷ []))
append-AreDistinct id p pid [] v = (inl refl, tt)
append-AreDistinct id p pid (s ∷ ss) v = (
  elim (Bool-cases (s.loc_port == 0)) [
    | inl unbound ↦ inl (ground arith)
    | inr bound ↦ elim v.0 [
      | inl unbound ↦ inl unbound
      | inr free_for ↦
          inr (Free-created s.proto s.loc_ip s.loc_port id p pid ss (ground arith) free_for)
    ]
  ],
  append-AreDistinct id p pid ss v.1,
)

-- In a table within `MAX_SOCKS` whose sockets with a port are distinct, `sock_alloc` keeps both,
-- and it fails exactly where the table is full.
pub sock_alloc_lem :
    (proto pid : ℕ) (t : Stab)
    → length t.socks ≤ max_socks
    → AreDistinct t.socks
    → length (sock_alloc proto pid t).1.socks ≤ max_socks
      × (AreDistinct (sock_alloc proto pid t).1.socks
          × ((sock_alloc proto pid t).0 ≡ none ↔ length t.socks ≡ max_socks))
unfolding sock_alloc
sock_alloc_lem proto pid t le v = elim (Bool-cases (length t.socks == max_socks)) [
  | inl full ↦ rw full (le, (v, ((λ h. ground arith), (λ h. refl))))
  | inr room ↦
      let s = created t.next_id proto pid in
      rw room (
        ground (arith, length-append t.socks (s ∷ [])),
        (
          append-AreDistinct t.next_id proto pid t.socks v,
          ((λ h. cc), (λ h. absurd (ground arith))),
        ),
      )
]
