-- ===== src/Net/Queue.antt =====
-- net.c: the queue of received buffers and the addresses of an interface.
pub mod Order
mod Tests
use c_osiris.Base.{
  ℕ, zero, suc, ◌+◌, Bool, true, false, Option, none, some, List, [], ◌∷◌, ◌++◌, leb, ltb, ◌==◌,
  if◌then◌else◌, length,
}

-- `struct net_buf` by its size, the number of its interface and what stands for its data.
pub record NetBuf : Type 0 where
  pub nic : ℕ
  pub size : ℕ
  pub id : ℕ

abbrev pub netq_max_items : ℕ
netq_max_items = 256

abbrev pub nb_max_size : ℕ
nb_max_size = 2000

-- `net_buf_alloc`, where `calloc` returns the memory `id`.
unfoldable pub net_buf_alloc : ℕ → ℕ → ℕ → List NetBuf → Option NetBuf
net_buf_alloc size nic id q =
    if leb netq_max_items (length q)
    then none
    else if ltb nb_max_size size
    then none
    else some (record { nic = nic; size = size; id = id })

-- `netq_push` once the queue is there; false stands for NULL. The wakeup behind it is the scheduler's.
unfoldable pub netq_push : NetBuf → List NetBuf → Bool × List NetBuf
netq_push b q = if leb netq_max_items (length q) then (false, q) else (true, q ++ (b ∷ []))

-- `netq_shift`.
unfoldable pub netq_shift : List NetBuf → Option NetBuf × List NetBuf
netq_shift [] = (none, [])
netq_shift (b ∷ q) = (some b, q)

-- What `net_process` does with a buffer, by its size and its ether type in host order.
pub data Process : Type 0 where
  too_short to_arp to_ip unsupported : Process

abbrev pub net_process : ℕ → ℕ → Process
net_process size eth_type =
    if ltb size 14
    then too_short
    else if eth_type == 0x0806
    then to_arp
    else if eth_type == 0x0800
    then to_ip
    else unsupported

-- The loop of `iface_add_ip`, and of `dns_add`: the first entry that is zero gets the address.
unfoldable pub add_first : ℕ → List ℕ → Option (List ℕ)
add_first ip [] = none
add_first ip (a ∷ rs) =
    let rest = add_first ip rs in
    if a == 0 then some (ip ∷ rs) else elim rest [ none ↦ none | some bs ↦ some (a ∷ bs) ]

abbrev pub iface_add_ip : List ℕ → ℕ → Option (List ℕ)
iface_add_ip ips ip = add_first ip ips
