-- ===== src/Cofs/Map/Tests.antt =====
-- Blocks of a file on a small disk.
use c_osiris.Base.{arith}
use c_osiris.Cofs.Sample.{small_sb, small_disk, small_node, small-IsDisk, small-IsOwned}
use c_osiris.Cofs.Map.{block_map}
use c_osiris.Cofs.Map.Lookup.{Mapped, block_map-Mapped}

block_map-Mapped_example :
    Mapped small_sb
      (small_node.addrs, small_disk)
      200
      (block_map small_sb 200 (small_node.addrs, small_disk))
block_map-Mapped_example =
    block_map-Mapped small_sb (small_node.addrs, small_disk) 200 small-IsDisk small-IsOwned
      (omega arith)
