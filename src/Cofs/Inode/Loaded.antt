-- ===== src/Cofs/Inode/Loaded.antt =====
-- Nodes that are saved and loaded again, and the choice of a free inode.
use c_osiris.Base.{
  ℕ, ◌+◌, ◌/◌, ◌%◌, ◌^◌, ◌≤◌, ◌<◌, ◌≡◌, ◌≢◌, refl, ap, ◌∙◌, true, Option, none, some, [], arith,
  length,
}
use c_osiris.Cofs.{Disk, Superblock}
use c_osiris.Cofs.Inode.{
  Dinode, Node, fresh_node, num_addrs, read_inode, type_of, mask_of, saved, update_node, loaded,
  check_type, lock, new_inode,
}
use c_osiris.Cofs.Inode.Saved.{
  or-fields, AllSmall, Fits, read_inode-write_inode_self, read_inode-write_inode_ne,
}

-- A node that an inode can hold: its type is one of the file types, and the fields fit.
pub record IsLoaded (n : Node) : Type 0 where
  pub typed : 0 < n.type
  pub type_fits : n.type < 65536
  pub type_only : n.type % 4096 ≡ 0
  pub mask_fits : n.mask < 4096
  pub major_fits : n.major < 65536
  pub minor_fits : n.minor < 65536
  pub uid_fits : n.uid < 65536
  pub gid_fits : n.gid < 65536
  pub links_fit : n.num_links < 65536
  pub atime_fits : n.atime < 2 ^ 32
  pub mtime_fits : n.mtime < 2 ^ 32
  pub ctime_fits : n.ctime < 2 ^ 32
  pub size_fits : n.size < 2 ^ 32
  pub addrs_fit : AllSmall n.addrs
  pub nine : length n.addrs ≡ num_addrs

saved_type : (n : Node) → IsLoaded n → (saved n).type ≡ n.type + n.mask
unfolding saved
saved_type n v = omega (
  arith,
  or-fields (n.type / 4096 % 16) n.mask (omega arith) v.mask_fits,
  v.type_only,
  v.type_fits,
  v.mask_fits,
)

saved-Fits : (n : Node) → IsLoaded n → Fits (saved n)
unfolding saved
saved-Fits n v = record {
  type_fits = omega arith;
  major_fits = v.major_fits;
  minor_fits = v.minor_fits;
  uid_fits = v.uid_fits;
  gid_fits = v.gid_fits;
  links_fit = v.links_fit;
  atime_fits = v.atime_fits;
  mtime_fits = v.mtime_fits;
  ctime_fits = v.ctime_fits;
  size_fits = v.size_fits;
  addrs_fit = v.addrs_fit;
  nine = v.nine;
}

loaded-saved :
    (n : Node)
    → IsLoaded n
    → loaded (saved n) (record (fresh_node n.inode) { locked = true })
      ≡ record n { name = []; ref_count = 1; locked = true }
unfolding loaded saved
loaded-saved n v =
    let t = saved_type n v in
    let p : type_of (saved n).type ≡ n.type =
      omega (arith, t, v.type_only, v.type_fits, v.mask_fits) in
    let q : mask_of (saved n).type ≡ n.mask = omega (arith, t, v.type_only, v.mask_fits) in
    rw (p, q) refl

check_type_lem : (n : Node) → 0 < n.type → check_type n ≡ some n
unfolding check_type
check_type_lem n h = ground arith

-- A node whose fields fit the words of an inode, with a type, is the same when it is saved by
-- `cofs_update_node`, dropped from memory, looked up and locked again, but for its name, which the
-- caller of the lock does not get, and for its count of one reference and its lock.
pub lock-update_node :
    (sb : Superblock) (d : Disk) (n : Node)
    → IsLoaded n
    → lock sb (update_node sb n d) (fresh_node n.inode)
      ≡ some (record n { name = []; ref_count = 1; locked = true })
unfolding lock update_node
lock-update_node sb d n v =
    ap (λ (i : Dinode). check_type (loaded i (record (fresh_node n.inode) { locked = true })))
      (read_inode-write_inode_self sb n.inode (saved n) d (saved-Fits n v))
    ∙ ap check_type (loaded-saved n v)
    ∙ check_type_lem (record n { name = []; ref_count = 1; locked = true }) v.typed

-- Saving a node leaves the inodes of the others on the disk.
pub read_inode-update_node :
    (sb : Superblock) (d : Disk) (n : Node) (m : ℕ)
    → m ≢ n.inode
    → read_inode sb m (update_node sb n d) ≡ read_inode sb m d
unfolding update_node
read_inode-update_node sb d n m ne = read_inode-write_inode_ne sb n.inode m (saved n) d ne

-- The inodes from `i` on, `n` of them, are all in use.
abbrev AllUsed : Superblock → Disk → ℕ → ℕ → Type 0
AllUsed sb d lo hi = (j : ℕ) → lo ≤ j → j < hi → (read_inode sb j d).type ≢ 0

-- The search of `inode_alloc` among the inodes from `lo` up to `hi`: it takes the first that is not
-- in use, makes it an empty one of the type, and leaves the others; or all of them are in use.
pub data Search (sb : Superblock) (type lo hi : ℕ) (d : Disk) (r : Option (ℕ × Disk)) : Type 0 where
  took :
      (n : ℕ) (d' : Disk)
      → r ≡ some (n, d')
      → lo ≤ n
      → n < hi
      → (read_inode sb n d).type ≡ 0
      → AllUsed sb d lo n
      → read_inode sb n d' ≡ new_inode type
      → ((m : ℕ) → m ≢ n → read_inode sb m d' ≡ read_inode sb m d)
      → Search sb type lo hi d r
  full : r ≡ none → AllUsed sb d lo hi → Search sb type lo hi d r
