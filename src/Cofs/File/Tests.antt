-- ===== src/Cofs/File/Tests.antt =====
-- Reading and writing on a small disk.
use c_osiris.Base.{ℕ, zero, suc, ◌≡◌, refl, sym, Option, none, some, List, [], ◌∷◌, arith}
use c_osiris.Cofs.{Disk}
use c_osiris.Cofs.Inode.{Node}
use c_osiris.Cofs.Sample.{
  small_sb, small_disk, small_node, small-IsDisk, small-IsOwned, small-IsLaid,
}
use c_osiris.Cofs.File.{read, write, write_loop}
use c_osiris.Cofs.File.Read.{contents, read-contents}
use c_osiris.Cofs.File.Loop.{byte, AreBytes, Writing, write_loop-Writing}
use c_osiris.Cofs.File.RoundTrip.{Written, write-Written, read-write}
use c_osiris.Cofs.File.Write.{Wrote}
use mathlib.Core.Path.{subst}
use c_osiris.Cofs.Map.Lookup.{place}
use c_osiris.Cofs.Map.Pointers.{ptr, locus_of}

abbrev bytes : List ℕ
bytes = 7 ∷ 8 ∷ 9 ∷ []

bytes-AreBytes : AreBytes bytes
bytes-AreBytes zero = omega arith
bytes-AreBytes (suc zero) = omega arith
bytes-AreBytes (suc (suc zero)) = omega arith
bytes-AreBytes (suc (suc (suc i))) = omega arith

write-Written_example :
    Written small_sb small_node 0 bytes small_disk (write small_sb small_node 0 bytes small_disk)
write-Written_example =
    write-Written small_sb small_node 0 bytes small_disk small-IsLaid small-IsDisk small-IsOwned
      (omega arith) (omega arith) bytes-AreBytes

write_loop-Writing_example :
    Writing small_sb 1 0 bytes
      (small_node.addrs, small_disk)
      (write_loop 3 small_sb 0 bytes (small_node.addrs, small_disk))
write_loop-Writing_example =
    write_loop-Writing 3 small_sb 1 0 bytes (small_node.addrs, small_disk) (omega arith)
      (omega arith) (omega arith) bytes-AreBytes small-IsDisk small-IsOwned

-- What the write comes to, by evaluation.
abbrev result : Option (ℕ × (Node × Disk)) → Node × Disk
result none = (small_node, small_disk)
result (some (n, r)) = r

abbrev after : Node × Disk
after = result (write small_sb small_node 0 bytes small_disk)

read-write_example : read small_sb after.0 0 3 after.1 ≡ some (bytes, (after.0, after.1))
unfolding write
read-write_example =
    read-write small_sb small_node after.0 0 bytes small_disk after.1 small-IsLaid small-IsDisk
      small-IsOwned (omega arith) (omega arith) bytes-AreBytes refl

after_Wrote :
    Wrote small_sb 0 3 (byte bytes) (small_node.addrs, small_disk) (after.0.addrs, after.1)
unfolding write
after_Wrote = go (write small_sb small_node 0 bytes small_disk) refl write-Written_example
  where
    go :
        (r : Option (ℕ × (Node × Disk)))
        → write small_sb small_node 0 bytes small_disk ≡ r
        → Written small_sb small_node 0 bytes small_disk r
        → Wrote small_sb 0 3
            (byte bytes)
            (small_node.addrs, small_disk)
            ((result r).0.addrs, (result r).1)
    go r e (Written.full is few) = absurd (cc)
    go r e (Written.written n' d' is w size grown) =
        subst
          (λ (x : Option (ℕ × (Node × Disk))).
            Wrote small_sb 0 3 (byte bytes) (small_node.addrs, small_disk)
              ((result x).0.addrs, (result x).1))
          (sym is) w

read-contents_example : read small_sb after.0 1 5 after.1 ≡ some (8 ∷ 9 ∷ [], (after.0, after.1))
unfolding write contents place ptr locus_of
read-contents_example =
    read-contents small_sb after.0 1 5 after.1 after_Wrote.disk after_Wrote.file
      (λ o a b. after_Wrote.placed o (omega arith) (omega arith))
