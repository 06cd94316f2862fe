-- ===== src/Cofs/Inode/Tests.antt =====
-- Inodes on a small disk.
use c_osiris.Base.{◌≡◌, refl, true, some, [], ◌∷◌, arith}
use c_osiris.Cofs.Sample.{small_sb, small_disk}
use c_osiris.Cofs.Inode.{Node, fresh_node, lock, update_node}
use c_osiris.Cofs.Inode.Loaded.{IsLoaded, lock-update_node}

-- A directory with two blocks.
abbrev some_dir : Node
some_dir = record (fresh_node 2) {
  mask = 493;
  type = 16384;
  num_links = 2;
  size = 700;
  addrs = 20 ∷ 21 ∷ 0 ∷ 0 ∷ 0 ∷ 0 ∷ 0 ∷ 0 ∷ 0 ∷ [];
}

some_dir-IsLoaded : IsLoaded some_dir
some_dir-IsLoaded = record {
  typed = omega arith;
  type_fits = omega arith;
  type_only = refl;
  mask_fits = omega arith;
  major_fits = omega arith;
  minor_fits = omega arith;
  uid_fits = omega arith;
  gid_fits = omega arith;
  links_fit = omega arith;
  atime_fits = omega arith;
  mtime_fits = omega arith;
  ctime_fits = omega arith;
  size_fits = omega arith;
  addrs_fit = omega arith;
  nine = refl;
}

lock-update_node_example :
    lock small_sb (update_node small_sb some_dir small_disk) (fresh_node 2)
    ≡ some (record some_dir { name = []; ref_count = 1; locked = true })
lock-update_node_example = lock-update_node small_sb small_disk some_dir some_dir-IsLoaded
