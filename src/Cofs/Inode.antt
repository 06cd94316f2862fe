-- ===== src/Cofs/Inode.antt =====
-- cofs.c: the inodes on the disk, and the node in memory that one is loaded into.
pub mod Saved
pub mod Loaded
mod Tests
use Prim.Native.Nat.{bit_or}
use c_osiris.Base.{
  ℕ, zero, suc, ◌+◌, ◌-◌, ◌*◌, ◌/◌, ◌%◌, Bool, true, false, not, Option, none, some, List, [], ◌∷◌,
  ◌++◌, ◌==◌, if◌then◌else◌, get_or, replicate,
}
use c_osiris.Word.{major, minor}
use c_osiris.Cofs.{Disk, Superblock, block_size, byte_of, overlay}

-- `cofs_inode_t`, 64 bytes.
pub record Dinode : Type 0 where
  pub type : ℕ
  pub major : ℕ
  pub minor : ℕ
  pub uid : ℕ
  pub gid : ℕ
  pub num_links : ℕ
  pub atime : ℕ
  pub mtime : ℕ
  pub ctime : ℕ
  pub size : ℕ
  pub addrs : List ℕ

-- `fs_node_t`, less the table of the operations.
pub record Node : Type 0 where
  pub name : List ℕ
  pub mask : ℕ
  pub major : ℕ
  pub minor : ℕ
  pub uid : ℕ
  pub gid : ℕ
  pub type : ℕ
  pub inode : ℕ
  pub size : ℕ
  pub ref_count : ℕ
  pub num_links : ℕ
  pub atime : ℕ
  pub ctime : ℕ
  pub mtime : ℕ
  pub addrs : List ℕ
  pub locked : Bool

-- The node that `cofs_get_node` sets up, before an inode is loaded into it.
abbrev pub fresh_node : ℕ → Node
fresh_node inum = record {
  name = [];
  mask = 0;
  major = 0;
  minor = 0;
  uid = 0;
  gid = 0;
  type = 0;
  inode = inum;
  size = 0;
  ref_count = 1;
  num_links = 0;
  atime = 0;
  ctime = 0;
  mtime = 0;
  addrs = [];
  locked = false;
}

abbrev pub inode_size : ℕ
inode_size = 64

-- `NUM_INOPB`.
abbrev pub inodes_per_block : ℕ
inodes_per_block = block_size / inode_size

-- `NUM_DIRECT + 3`.
abbrev pub num_addrs : ℕ
num_addrs = 9

-- `INO_BLK`, and the offset of the inode in that block.
abbrev pub inode_block : Superblock → ℕ → ℕ
inode_block sb ino = ino / inodes_per_block + sb.inode_start

abbrev pub inode_offset : ℕ → ℕ
inode_offset ino = ino % inodes_per_block * inode_size

abbrev pub half : ℕ → List ℕ
half w = byte_of w 0 ∷ byte_of w 1 ∷ []

abbrev pub full : ℕ → List ℕ
full w = byte_of w 0 ∷ byte_of w 1 ∷ byte_of w 2 ∷ byte_of w 3 ∷ []

abbrev pub words_out : List ℕ → List ℕ
words_out [] = []
words_out (w ∷ ws) = full w ++ words_out ws

-- The bytes of an inode.
unfoldable pub inode_out : Dinode → List ℕ
inode_out i =
    half i.type
    ++ (half i.major
        ++ (half i.minor
            ++ (half i.uid
                ++ (half i.gid
                    ++ (half i.num_links
                        ++ (full i.atime
                            ++ (full i.mtime
                                ++ (full i.ctime ++ (full i.size ++ words_out i.addrs)))))))))

abbrev pub half_in : (ℕ → ℕ) → ℕ → ℕ
half_in f o = f o + 256 * f (o + 1)

abbrev pub full_in : (ℕ → ℕ) → ℕ → ℕ
full_in f o = f o + 256 * f (o + 1) + 65536 * f (o + 2) + 16777216 * f (o + 3)

abbrev pub words_in : ℕ → (ℕ → ℕ) → ℕ → List ℕ
words_in zero f o = []
words_in (suc n) f o = full_in f o ∷ words_in n f (o + 4)

-- The inode at bytes that are counted from its start.
unfoldable pub inode_in : (ℕ → ℕ) → Dinode
inode_in f = record {
  type = half_in f 0;
  major = half_in f 2;
  minor = half_in f 4;
  uid = half_in f 6;
  gid = half_in f 8;
  num_links = half_in f 10;
  atime = full_in f 12;
  mtime = full_in f 16;
  ctime = full_in f 20;
  size = full_in f 24;
  addrs = words_in num_addrs f 28;
}

unfoldable pub read_inode : Superblock → ℕ → Disk → Dinode
unfolding inode_in
read_inode sb ino d = inode_in (λ k. d (inode_block sb ino) (inode_offset ino + k))

unfoldable pub write_inode : Superblock → ℕ → Dinode → Disk → Disk
unfolding inode_out overlay
write_inode sb ino i d =
    overlay (inode_block sb ino) (inode_offset ino) inode_size (λ k. get_or (inode_out i) k 0) d

-- `type & FS_IFMT` and `type & ~FS_IFMT` of 16 bits.
abbrev pub type_of : ℕ → ℕ
type_of w = w / 4096 % 16 * 4096

abbrev pub mask_of : ℕ → ℕ
mask_of w = w % 4096

-- The inode that `cofs_update_node` writes.
unfoldable pub saved : Node → Dinode
saved n = record {
  type = bit_or (type_of n.type) n.mask % 65536;
  major = n.major;
  minor = n.minor;
  uid = n.uid;
  gid = n.gid;
  num_links = n.num_links;
  atime = n.atime;
  mtime = n.mtime;
  ctime = n.ctime;
  size = n.size;
  addrs = n.addrs;
}

-- `cofs_update_node`.
unfoldable pub update_node : Superblock → Node → Disk → Disk
unfolding saved write_inode
update_node sb n d = write_inode sb n.inode (saved n) d

-- The fields that `cofs_lock` copies from the disk.
unfoldable pub loaded : Dinode → Node → Node
loaded i n = record n {
  type = type_of i.type;
  mask = mask_of i.type;
  major = i.major;
  minor = i.minor;
  uid = i.uid;
  gid = i.gid;
  num_links = i.num_links;
  atime = i.atime;
  ctime = i.ctime;
  mtime = i.mtime;
  size = i.size;
  addrs = i.addrs;
}

unfoldable pub check_type : Node → Option Node
check_type n = if n.type == 0 then none else some n

-- `cofs_lock` of a node whose lock is free; `none` is a panic.
unfoldable pub lock : Superblock → Disk → Node → Option Node
unfolding loaded read_inode check_type
lock sb d n =
    let n' = record n { locked = true } in
    if n.ref_count == 0
    then none
    else if n.type == 0
    then check_type (loaded (read_inode sb n.inode d) n')
    else some n'

-- `cofs_unlock`.
unfoldable pub unlock : Node → Option Node
unlock n = if n.locked then some (record n { locked = false }) else none

-- `ino->type & FS_CHARDEVICE || ino->type & FS_BLOCKDEVICE`: one of the bits 13 and 14.
abbrev pub is_device : ℕ → Bool
is_device type = not (type / 8192 % 4 == 0)

-- The inode that `inode_alloc` makes.
unfoldable pub new_inode : ℕ → Dinode
new_inode type =
    let device = is_device (type_of type) in
    record {
      type = type_of type;
      major = if device then major type else 0;
      minor = if device then minor type else 0;
      uid = 0;
      gid = 0;
      num_links = 0;
      atime = 0;
      mtime = 0;
      ctime = 0;
      size = 0;
      addrs = replicate num_addrs 0;
    }

-- The loop of `inode_alloc` from an inode on, with the rounds left: the inode that it takes.
unfoldable pub alloc_from : ℕ → ℕ → Superblock → ℕ → Disk → Option (ℕ × Disk)
unfolding read_inode new_inode write_inode
alloc_from zero ino sb type d = none
alloc_from (suc n) ino sb type d =
    let rest = alloc_from n (ino + 1) sb type d in
    if (read_inode sb ino d).type == 0
    then some (ino, write_inode sb ino (new_inode type) d)
    else rest

-- `inode_alloc` in front of `cofs_get_node`; inode 0 is not used.
unfoldable pub inode_alloc : Superblock → ℕ → Disk → Option (ℕ × Disk)
unfolding alloc_from
inode_alloc sb type d = alloc_from (sb.num_inodes - 1) 1 sb type d
