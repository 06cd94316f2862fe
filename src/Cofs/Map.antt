-- ===== src/Cofs/Map.antt =====
-- cofs.c: the blocks of a file, through the tables of the inode. A panic is `none`.
pub mod Pointers
pub mod Grow
pub mod Fill
pub mod Table
pub mod Reach
pub mod Lookup
mod Tests
use c_osiris.Base.{
  ℕ, zero, suc, ◌+◌, ◌-◌, ◌*◌, ◌/◌, ◌%◌, Bool, true, false, ◌||◌, not, Option, none, some, List, [],
  ◌∷◌, ltb, ◌==◌, if◌then◌else◌, get_or, set,
}
use c_osiris.Cofs.{Disk, Superblock, block_size, word, put_word}
use c_osiris.Cofs.Alloc.{block_alloc, block_free}
use c_osiris.Cofs.Inode.{Node, update_node}

-- `NUM_DIRECT`, `NUM_SIND`, `NUM_DIND`, `SIND_IDX` and `DIND_IDX`.
abbrev pub num_direct : ℕ
num_direct = 6

abbrev pub num_sind : ℕ
num_sind = 128

abbrev pub num_dind : ℕ
num_dind = 16384

abbrev pub sind_idx : ℕ
sind_idx = 6

abbrev pub dind_idx : ℕ
dind_idx = 7

-- `node->addrs` and the disk.
abbrev pub Files : Type 0
Files = List ℕ × Disk

infixl 5 ◌>>=◌
abbrev pub ◌>>=◌ {ℓ κ} : {A : Type ℓ} {B : Type κ} → Option A → (A → Option B) → Option B
none >>= f = none
some a >>= f = f a

unfoldable pub slot_new : ℕ → List ℕ → Option (ℕ × Disk) → Option (ℕ × Files)
slot_new k addrs none = none
slot_new k addrs (some (n, d)) = some (n, (set addrs k n, d))

-- `node->addrs[k]`, with a new block where there is none.
unfoldable pub slot : Superblock → ℕ → Files → Option (ℕ × Files)
unfolding slot_new block_alloc
slot sb k (addrs, d) =
    if get_or addrs k 0 == 0
    then slot_new k addrs (block_alloc sb d)
    else some (get_or addrs k 0, (addrs, d))

unfoldable pub entry_new : ℕ → ℕ → List ℕ → Option (ℕ × Disk) → Option (ℕ × Files)
unfolding put_word
entry_new b i addrs none = none
entry_new b i addrs (some (n, d)) = some (n, (addrs, put_word b i n d))

-- Entry `i` of the table in block `b`, with a new block where there is none.
unfoldable pub entry : Superblock → ℕ → ℕ → Files → Option (ℕ × Files)
unfolding entry_new block_alloc word
entry sb b i (addrs, d) =
    if word d b i == 0
    then entry_new b i addrs (block_alloc sb d)
    else some (word d b i, (addrs, d))

unfoldable pub block_map : Superblock → ℕ → Files → Option (ℕ × Files)
unfolding slot entry
block_map sb fbn s =
    let rest = fbn - num_direct - num_sind in
    if ltb fbn num_direct
    then slot sb fbn s
    else if ltb fbn (num_direct + num_sind)
    then (slot sb sind_idx s >>= λ (b, t). entry sb b (fbn - num_direct) t)
    else if ltb fbn (num_direct + num_sind + num_dind)
    then (slot sb dind_idx s >>= λ (b, t).
        entry sb b (rest / num_sind) t >>= λ (m, u). entry sb m (rest % num_sind) u)
    else none

-- The loop of `scan_block`, with the rounds left.
unfoldable pub count_entries : ℕ → ℕ → ℕ → Disk → ℕ
unfolding word
count_entries zero i b d = 0
count_entries (suc n) i b d =
    let rest = count_entries n (i + 1) b d in if word d b i == 0 then rest else suc rest

-- `scan_block`.
unfoldable pub scan_block : ℕ → Disk → ℕ
unfolding count_entries
scan_block b d = count_entries num_sind 0 b d

-- `cofs_truncate`: the round for a block among the direct ones.
unfoldable pub cut_direct : Superblock → ℕ → Files → Option Files
unfolding block_free
cut_direct sb fbn (addrs, d) =
    let a = get_or addrs fbn 0 in
    if a == 0 then some (addrs, d) else block_free sb a d >>= λ e. some (set addrs fbn 0, e)

-- The end of a round: a table in `addrs` with no entries left is freed.
unfoldable pub cut_table : Superblock → ℕ → Files → Option Files
unfolding scan_block block_free
cut_table sb k (addrs, d) =
    let b = get_or addrs k 0 in
    if scan_block b d == 0
    then (block_free sb b d >>= λ e. some (set addrs k 0, e))
    else some (addrs, d)

-- An entry of a table is cleared and its block is freed.
unfoldable pub cut_entry : Superblock → ℕ → ℕ → Files → Option Files
unfolding word put_word block_free
cut_entry sb b i (addrs, d) = block_free sb (word d b i) (put_word b i 0 d) >>= λ e. some (addrs, e)

-- A middle table with no entries left is freed, and its entry is cleared.
unfoldable pub cut_middle : Superblock → ℕ → ℕ → Files → Option Files
unfolding scan_block block_free put_word
cut_middle sb m midx (addrs, d) =
    if scan_block m d == 0
    then (block_free sb m d >>= λ e. some (addrs, put_word (get_or addrs dind_idx 0) midx 0 e))
    else some (addrs, d)

unfoldable pub cut_block : Superblock → ℕ → Files → Option Files
unfolding cut_direct cut_table cut_entry cut_middle word
cut_block sb fbn (addrs, d) =
    let rest = fbn - num_direct - num_sind in
    let m = word d (get_or addrs dind_idx 0) (rest / num_sind) in
    if ltb fbn num_direct
    then cut_direct sb fbn (addrs, d)
    else if ltb fbn (num_direct + num_sind)
    then (cut_entry sb (get_or addrs sind_idx 0) (fbn - num_direct) (addrs, d)
        >>= cut_table sb sind_idx)
    else if ltb fbn (num_direct + num_sind + num_dind)
    then (cut_entry sb m (rest % num_sind) (addrs, d) >>= λ s.
        cut_middle sb m (rest / num_sind) s >>= cut_table sb dind_idx)
    else some (addrs, d)

-- The loop from a block of the file on, with the rounds left.
unfoldable pub cut_blocks : ℕ → Superblock → ℕ → Files → Option Files
unfolding cut_block
cut_blocks zero sb fbn s = some s
cut_blocks (suc n) sb fbn s = cut_block sb fbn s >>= cut_blocks n sb (fbn + 1)

-- `cofs_truncate`.
unfoldable pub truncate : Superblock → Node → ℕ → Disk → Option (Node × Disk)
unfolding cut_blocks update_node
truncate sb n len d =
    let fbs = len / block_size in
    let fbe = n.size / block_size + 1 in
    if ltb n.size len || not (len % block_size == 0)
    then none
    else cut_blocks (fbe - fbs) sb fbs (n.addrs, d) >>= λ (addrs, e).
        let n' = record n { size = len; addrs = addrs } in some (n', update_node sb n' e)
