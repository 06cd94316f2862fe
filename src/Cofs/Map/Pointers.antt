-- ===== src/Cofs/Map/Pointers.antt =====
-- The pointers of a file: those in the inode, in its tables, and in the tables below these.
use c_osiris.Base.{
  ℕ, ◌+◌, ◌-◌, ◌*◌, ◌/◌, ◌%◌, ◌^◌, ◌≤◌, ◌<◌, ◌≡◌, ◌≢◌, ap, arith, ltb, ◌==◌, if◌then◌else◌, length,
  get_or,
}
use c_osiris.Cofs.{Disk, Superblock, word, bits_per_block}
use c_osiris.Cofs.Alloc.{num_bitmaps}
use c_osiris.Cofs.Alloc.Scan.{IsBytes}
use c_osiris.Cofs.Alloc.Used.{used, IsCovered, IsSound}
use c_osiris.Cofs.Inode.{num_addrs}
use c_osiris.Cofs.Map.{num_direct, num_sind, sind_idx, dind_idx, Files}

-- The place of a pointer.
pub data Locus : Type 0 where
  top single middle : ℕ → Locus
  double : ℕ → ℕ → Locus

-- Entry `j` of the table that a pointer leads to.
unfoldable pub under : ℕ → Disk → ℕ → ℕ
unfolding word
under b d j = if b == 0 then 0 else word d b j

unfoldable pub ptr : Files → Locus → ℕ
unfolding under
ptr s (Locus.top k) = get_or s.0 k 0
ptr s (Locus.single j) = under (get_or s.0 sind_idx 0) s.1 j
ptr s (Locus.middle i) = under (get_or s.0 dind_idx 0) s.1 i
ptr s (Locus.double i j) = under (under (get_or s.0 dind_idx 0) s.1 i) s.1 j

unfoldable pub IsLocus : Locus → Type 0
IsLocus (Locus.top k) = k < 8
IsLocus (Locus.single j) = j < num_sind
IsLocus (Locus.middle i) = i < num_sind
IsLocus (Locus.double i j) = (i < num_sind) × (j < num_sind)

-- The pointer to a block of the file, by the block's number in the file.
unfoldable pub locus_of : ℕ → Locus
locus_of fbn =
    let rest = fbn - num_direct - num_sind in
    if ltb fbn num_direct
    then Locus.top fbn
    else if ltb fbn (num_direct + num_sind)
    then Locus.single (fbn - num_direct)
    else Locus.double (rest / num_sind) (rest % num_sind)

-- A data block in use.
pub record IsInUse (sb : Superblock) (d : Disk) (b : ℕ) : Type 0 where
  pub is_data : sb.data_block ≤ b
  pub covered : IsCovered sb b
  pub in_use : used sb d b ≡ 1

-- The blocks of the file system have numbers of 32 bits, and the first are in use.
pub record IsDisk (sb : Superblock) (d : Disk) : Type 0 where
  pub bytes : IsBytes d
  pub sound : IsSound sb d
  pub small : num_bitmaps sb * bits_per_block < 2 ^ 32

-- The pointers of a file lead to data blocks in use, and no two lead to the same.
pub record IsOwned (sb : Superblock) (s : Files) : Type 0 where
  pub nine : length s.0 ≡ num_addrs
  pub owned : (p : Locus) → IsLocus p → ptr s p ≢ 0 → IsInUse sb s.1 (ptr s p)
  pub distinct : (p q : Locus) → IsLocus p → IsLocus q → ptr s p ≢ 0 → ptr s p ≡ ptr s q → p ≡ q

-- The pointers to blocks of the file, and not to tables.
unfoldable pub IsLeaf : Locus → Type 0
IsLeaf (Locus.top k) = k < num_direct
IsLeaf (Locus.single j) = j < num_sind
IsLeaf (Locus.middle i) = ⊥
IsLeaf (Locus.double i j) = (i < num_sind) × (j < num_sind)

pub leaf-IsLocus : (q : Locus) → IsLeaf q → IsLocus q
unfolding IsLeaf IsLocus
leaf-IsLocus (Locus.top k) h = omega arith
leaf-IsLocus (Locus.single j) h = h
leaf-IsLocus (Locus.middle i) h = absurd h
leaf-IsLocus (Locus.double i j) h = h

number : Locus → ℕ
number (Locus.top k) = k
number (Locus.single j) = 0
number (Locus.middle i) = 0
number (Locus.double i j) = 0

pub top_leaf : (k : ℕ) → num_direct ≤ k → (q : Locus) → IsLeaf q → q ≢ Locus.top k
unfolding IsLeaf number
top_leaf k le (Locus.top j) h e = absurd (omega (arith, ap number e))
top_leaf k le (Locus.single j) h e = absurd (cc)
top_leaf k le (Locus.middle j) h e = h
top_leaf k le (Locus.double i j) h e = absurd (cc)

pub middle_leaf : (i : ℕ) (q : Locus) → IsLeaf q → q ≢ Locus.middle i
unfolding IsLeaf
middle_leaf i (Locus.top j) h e = absurd (cc)
middle_leaf i (Locus.single j) h e = absurd (cc)
middle_leaf i (Locus.middle j) h e = h
middle_leaf i (Locus.double k j) h e = absurd (cc)
