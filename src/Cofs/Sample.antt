-- ===== src/Cofs/Sample.antt =====
-- A small file system: block 2 is the bitmap, block 3 has the inodes, the data begins in block 4.
use c_osiris.Base.{
  ℕ, zero, suc, ◌≡◌, refl, ◌&&◌, List, arith, ◌==◌, if◌then◌else◌, all_below_sound, ==_iff, get_or,
  replicate,
}
use c_osiris.Cofs.{Disk, Superblock}
use c_osiris.Cofs.Alloc.Scan.{IsBytes}
use c_osiris.Cofs.Alloc.Used.{used, IsSound}
use c_osiris.Cofs.Inode.{Node, fresh_node}
use c_osiris.Cofs.Map.Pointers.{Locus, under, ptr, IsDisk, IsOwned}
use c_osiris.Cofs.Map.Fill.{under_zero}
use c_osiris.Cofs.File.Saved.{IsLaid}

abbrev pub small_sb : Superblock
small_sb = record {
  magic = 0xC0517155;
  size = 64;
  num_blocks = 60;
  num_inodes = 8;
  bitmap_start = 2;
  inode_start = 3;
  data_block = 4;
}

-- Blocks 0 to 3 are in use.
abbrev pub small_disk : Disk
small_disk b k = if b == 2 && k == 0 then 15 else 0

-- A file without blocks.
abbrev pub small_node : Node
small_node = record (fresh_node 2) { type = 32768; num_links = 1; addrs = replicate 9 0 }

pub small-IsBytes : IsBytes small_disk
small-IsBytes b k = ground arith

pub small-IsSound : IsSound small_sb small_disk
unfolding used
small-IsSound = record {
  meta_used = λ n low.
      (==_iff (used small_sb small_disk n) 1).0
        (all_below_sound 4 (λ m. used small_sb small_disk m == 1) n refl low);
  bitmap_low = λ n c. omega arith;
  data_covered = omega arith;
}

pub small-IsDisk : IsDisk small_sb small_disk
small-IsDisk = record { bytes = small-IsBytes; sound = small-IsSound; small = omega arith }

abbrev zeros : ℕ → List ℕ
zeros n = replicate n 0

no_pointers : (n k : ℕ) → get_or (zeros n) k 0 ≡ 0
no_pointers zero k = refl
no_pointers (suc n) zero = refl
no_pointers (suc n) (suc k) = no_pointers n k

no_places : (d : Disk) (p : Locus) → ptr (zeros 9, d) p ≡ 0
unfolding ptr
no_places d (Locus.top k) = no_pointers 9 k
no_places d (Locus.single j) = under_zero 0 d j refl
no_places d (Locus.middle i) = under_zero 0 d i refl
no_places d (Locus.double i j) = under_zero (under 0 d i) d j (under_zero 0 d i refl)

pub small-IsOwned : IsOwned small_sb (small_node.addrs, small_disk)
small-IsOwned = record {
  nine = refl;
  owned = λ p w nz. absurd (nz (no_places small_disk p));
  distinct = λ p q a b nz e. absurd (nz (no_places small_disk p));
}

pub small-IsLaid : IsLaid small_sb 2
small-IsLaid = record { inode_low = omega arith; off_map = λ m c. omega arith }
