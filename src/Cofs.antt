-- ===== src/Cofs.antt =====
-- cofs.c and include/cofs.h: the file system. Here is the disk that its parts share, byte by byte.
-- A block is used between `get_hd_buf` and `put_hd_buf`; what is written through the buffer is what
-- the next user of the block reads.
pub mod Bytes
pub mod Alloc
pub mod Inode
pub mod Cache
pub mod Map
pub mod File
pub mod State
pub mod Dir
pub mod Sample
use c_osiris.Base.{ℕ, ◌+◌, ◌-◌, ◌*◌, ◌/◌, ◌%◌, ◌^◌, Bool, ◌&&◌, leb, ltb, ◌==◌, if◌then◌else◌}

-- The byte at an offset of a block.
abbrev pub Disk : Type 0
Disk = ℕ → ℕ → ℕ

abbrev pub block_size : ℕ
block_size = 512

abbrev pub bits_per_block : ℕ
bits_per_block = 4096

-- `cofs_superblock_t`.
pub record Superblock : Type 0 where
  pub magic : ℕ
  pub size : ℕ
  pub num_blocks : ℕ
  pub num_inodes : ℕ
  pub bitmap_start : ℕ
  pub inode_start : ℕ
  pub data_block : ℕ

-- `BITMAP_BLOCK`.
abbrev pub bitmap_block : Superblock → ℕ → ℕ
bitmap_block sb block = block / bits_per_block + sb.bitmap_start

abbrev pub within : ℕ → ℕ → ℕ → Bool
within o n k = leb o k && ltb k (o + n)

-- `memcpy` and `memset` into the buffer of a block: `n` bytes from offset `o` on.
unfoldable pub overlay : ℕ → ℕ → ℕ → (ℕ → ℕ) → Disk → Disk
overlay b o n f d c k = if c == b && within o n k then f (k - o) else d c k

-- Byte `k` of a little-endian word.
abbrev pub byte_of : ℕ → ℕ → ℕ
byte_of w k = w / 256 ^ k % 256

-- `((uint32_t *) hdb->buf)[i]`.
unfoldable pub word : Disk → ℕ → ℕ → ℕ
word d b i =
    d b (4 * i) + 256 * d b (4 * i + 1) + 65536 * d b (4 * i + 2) + 16777216 * d b (4 * i + 3)

unfoldable pub put_word : ℕ → ℕ → ℕ → Disk → Disk
unfolding overlay
put_word b i w d = overlay b (4 * i) 4 (byte_of w) d

-- `block_zero`.
unfoldable pub block_zero : ℕ → Disk → Disk
unfolding overlay
block_zero block d = overlay block 0 block_size (λ k. 0) d
