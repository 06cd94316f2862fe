-- ===== src/Cofs/State/Tests.antt =====
-- Giving back the nodes of a small file system.
use c_osiris.Base.{◌≡◌, refl, false, Option, none, some, [], ◌∷◌, arith, replicate}
use c_osiris.Cofs.Inode.{Node, fresh_node, read_inode}
use c_osiris.Cofs.Sample.{small_sb, small_disk, small_node}
use c_osiris.Cofs.State.{Fs, put_node}
use c_osiris.Cofs.State.Put.{put_node-mask}

-- The root with two references, and an empty file with mode 0644 that has no name left.
abbrev root : Node
root = record (fresh_node 1) { type = 16384; num_links = 1; ref_count = 2; addrs = replicate 9 0 }

abbrev nameless : Node
nameless = record small_node { num_links = 0; mask = 420 }

abbrev two_nodes : Fs
two_nodes = record {
  sb = small_sb;
  disk = small_disk;
  cache = record { held = false; nodes = root ∷ nameless ∷ [] };
}

abbrev state_of : Option (Unit {0} × Fs) → Fs
state_of none = two_nodes
state_of (some (u, s)) = s

put_node-mask_example : (read_inode small_sb 2 (state_of (put_node 1 two_nodes)).disk).type ≡ 420
unfolding put_node
put_node-mask_example =
    put_node-mask 1 two_nodes (state_of (put_node 1 two_nodes)) nameless refl (omega arith) refl
      refl
