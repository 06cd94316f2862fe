-- ===== src/Cofs/File/Saved.antt =====
-- Saving the inode of a file leaves the file.
use c_osiris.Base.{
  ℕ, zero, suc, ◌+◌, ◌-◌, ◌*◌, ◌/◌, ◌%◌, ◌≤◌, ◌<◌, ◌≡◌, ◌≢◌, sym, ap, ◌∙◌, List, [], ◌∷◌, ◌++◌,
  arith,
}
use c_osiris.Cofs.{Disk, Superblock, block_size, overlay, bitmap_block, byte_of}
use c_osiris.Cofs.Bytes.{overlay_ne}
use c_osiris.Cofs.Alloc.Scan.{IsBytes}
use c_osiris.Cofs.Alloc.Used.{IsCovered}
use c_osiris.Cofs.Inode.{
  Node, Dinode, inode_block, inode_size, write_inode, update_node, inode_out, inode_offset, saved,
  half, full, words_out,
}
use c_osiris.Cofs.Map.{Files}
use c_osiris.Cofs.Map.Pointers.{Locus, ptr, locus_of, IsLocus, IsDisk, IsOwned, leaf-IsLocus}
use c_osiris.Cofs.Map.Lookup.{max_blocks, place, IsLeaf-locus_of}
use c_osiris.Cofs.File.Poke.{Poked, IsDisk-Poked, IsOwned-Poked, ptr-Poked}
use c_osiris.Cofs.File.Read.{content}
use c_osiris.Cofs.File.Write.{Wrote}
use c_osiris.Cofs.File.Loop.{byte, AreBytes}

-- The inodes are in front of the data blocks, and not in the bitmap.
pub record IsLaid (sb : Superblock) (ino : ℕ) : Type 0 where
  pub inode_low : inode_block sb ino < sb.data_block
  pub off_map : (m : ℕ) → IsCovered sb m → bitmap_block sb m ≢ inode_block sb ino

bytes_cons : (c : ℕ) (cs : List ℕ) → c < 256 → AreBytes cs → AreBytes (c ∷ cs)
bytes_cons c cs h all zero = h
bytes_cons c cs h all (suc i) = all i

bytes_half : (w : ℕ) (cs : List ℕ) → AreBytes cs → AreBytes (half w ++ cs)
bytes_half w cs all =
    bytes_cons (byte_of w 0) (byte_of w 1 ∷ cs) (omega arith)
      (bytes_cons (byte_of w 1) cs (omega arith) all)

bytes_full : (w : ℕ) (cs : List ℕ) → AreBytes cs → AreBytes (full w ++ cs)
bytes_full w cs all =
    let c3 = byte_of w 3 ∷ cs in
    let c2 = byte_of w 2 ∷ c3 in
    bytes_cons (byte_of w 0) (byte_of w 1 ∷ c2) (omega arith) (
      bytes_cons (byte_of w 1) c2 (omega arith)
        (bytes_cons (byte_of w 2) c3 (omega arith) (bytes_cons (byte_of w 3) cs (omega arith) all)))

bytes_words : (ws : List ℕ) → AreBytes (words_out ws)
bytes_words [] i = omega arith
bytes_words (w ∷ ws) i = bytes_full w (words_out ws) (bytes_words ws) i

inode-bytes : (i : Dinode) → AreBytes (inode_out i)
unfolding inode_out
inode-bytes i =
    let c9 = words_out i.addrs in
    let c8 = full i.size ++ c9 in
    let c7 = full i.ctime ++ c8 in
    let c6 = full i.mtime ++ c7 in
    let c5 = full i.atime ++ c6 in
    let c4 = half i.num_links ++ c5 in
    let c3 = half i.gid ++ c4 in
    let c2 = half i.uid ++ c3 in
    let c1 = half i.minor ++ c2 in
    let times = bytes_full i.atime c6 (
      bytes_full i.mtime c7 (bytes_full i.ctime c8 (bytes_full i.size c9 (bytes_words i.addrs)))) in
    let ids = bytes_half i.uid c3 (bytes_half i.gid c4 (bytes_half i.num_links c5 times)) in
    bytes_half i.type (half i.major ++ c1) (bytes_half i.major c1 (bytes_half i.minor c2 ids))

inode-Poked :
    (sb : Superblock) (n : Node) (d : Disk)
    → IsLaid sb n.inode
    → IsBytes d
    → Poked sb d (inode_block sb n.inode) (update_node sb n d)
unfolding update_node write_inode overlay
inode-Poked sb n d l bytes = record {
  bytes = λ c k. ground (arith, bytes c k, inode-bytes (saved n) (k - inode_offset n.inode));
  off_map = l.off_map;
  others = λ c k ne.
      overlay_ne (inode_block sb n.inode) (inode_offset n.inode) inode_size
        (byte (inode_out (saved n))) d c k ne;
}

-- A file is as it was when its inode is saved.
inode-ptr :
    (sb : Superblock) (n : Node) (s : Files)
    → IsLaid sb n.inode
    → IsDisk sb s.1
    → IsOwned sb s
    → (q : Locus) → IsLocus q
    → ptr (s.0, update_node sb n s.1) q ≡ ptr s q
unfolding IsLocus
inode-ptr sb n s l v o =
    ptr-Poked sb s.0 s.1 (inode_block sb n.inode) (update_node sb n s.1)
      (inode-Poked sb n s.1 l v.bytes) (apart (Locus.top 6) (omega arith))
      (apart (Locus.top 7) (omega arith)) (λ i lt. apart (Locus.middle i) lt)
  where
    apart : (q : Locus) → IsLocus q → ptr s q ≢ 0 → ptr s q ≢ inode_block sb n.inode
    apart q w nz e = absurd (omega (arith, (o.owned q w nz).is_data, l.inode_low, e))

-- So what was written to it stays.
pub saved-Wrote :
    (sb : Superblock) (n : Node) (off len : ℕ) (g : ℕ → ℕ) (s t : Files)
    → IsLaid sb n.inode
    → Wrote sb off len g s t
    → off + len ≤ max_blocks * block_size
    → Wrote sb off len g s (t.0, update_node sb n t.1)
unfolding place content
saved-Wrote sb n off len g s t l w lim = record {
  disk = IsDisk-Poked sb t.1 _ (update_node sb n t.1) poked w.disk;
  file = IsOwned-Poked sb t.0 t.1 _ (update_node sb n t.1) poked w.file keep;
  placed = λ x lo hi.
      let (low, nz) = w.placed x lo hi in (low, λ z. nz (sym (at (x / block_size) low) ∙ z));
  inside = λ i lt.
      let (low, nz) = w.placed (off + i) (omega arith) (omega arith) in
      same (off + i) low nz ∙ w.inside i lt;
  outside = λ x low nz out.
      same x low (λ z. nz (sym (w.kept (x / block_size) low nz) ∙ z)) ∙ w.outside x low nz out;
  kept = λ f low nz. at f low ∙ w.kept f low nz;
}
  where
    poked : Poked sb t.1 (inode_block sb n.inode) (update_node sb n t.1)
    poked = inode-Poked sb n t.1 l w.disk.bytes

    keep : (q : Locus) → IsLocus q → ptr (t.0, update_node sb n t.1) q ≡ ptr t q
    keep = inode-ptr sb n t l w.disk w.file

    at : (f : ℕ) → f < max_blocks → place (t.0, update_node sb n t.1) f ≡ place t f
    at f low = keep (locus_of f) (leaf-IsLocus (locus_of f) (IsLeaf-locus_of f low))

    same :
        (x : ℕ)
        → x / block_size < max_blocks
        → place t (x / block_size) ≢ 0
        → content (t.0, update_node sb n t.1) x ≡ content t x
    same x low nz =
        let u =
          w.file.owned (locus_of (x / block_size))
            (leaf-IsLocus _ (IsLeaf-locus_of (x / block_size) low)) nz in
        ap (λ (b : ℕ). update_node sb n t.1 b (x % block_size)) (at (x / block_size) low)
        ∙ poked.others (place t (x / block_size)) (x % block_size)
            (λ e. absurd (omega (arith, u.is_data, l.inode_low, e)))
