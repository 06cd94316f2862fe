-- ===== src/Cofs/State/Put.antt =====
-- Giving nodes back.
use Prim.Native.Nat.{bit_or}
use c_osiris.Base.{
  ℕ, ◌+◌, ◌-◌, ◌/◌, ◌%◌, ◌<◌, ◌≡◌, ◌≢◌, inl, inr, refl, sym, ap, ◌∙◌, Bool, true, false, ◌&&◌,
  Option, none, some, List, arith, ltb, ◌==◌, Option-cases, Bool-cases, ◌||◌, not, get_or,
  get_elem?, set,
}
use c_osiris.Cofs.{Disk, Superblock}
use c_osiris.Cofs.Bytes.{overlay_in}
use c_osiris.Cofs.Inode.{
  Node, Dinode, inode_in, inode_out, inode_block, inode_offset, inode_size, read_inode, write_inode,
  update_node, saved, type_of,
}
use c_osiris.Cofs.Inode.Saved.{or-fields}
use c_osiris.Cofs.Map as Map
use c_osiris.Cofs.Map.{Files, cut_blocks, truncate}
use c_osiris.Cofs.State.{Fs, and_then, drop_node, less_refs, drop_ref, put_node}

-- The type of an inode that was written.
type_in_out :
    (sb : Superblock) (ino : ℕ) (i : Dinode) (d : Disk)
    → (read_inode sb ino (write_inode sb ino i d)).type ≡ i.type % 65536
unfolding read_inode write_inode inode_in inode_out
type_in_out sb ino i d =
    let f = λ (k : ℕ). get_or (inode_out i) k 0 in
    let b0 = overlay_in (inode_block sb ino) (inode_offset ino) inode_size f d 0 (omega arith) in
    let b1 = overlay_in (inode_block sb ino) (inode_offset ino) inode_size f d 1 (omega arith) in
    omega (arith, b0, b1)

-- The last user of a node that has no name frees it.
abbrev pub is_last : Node → Bool
is_last n = n.ref_count == 1 && (ltb 0 n.type && n.num_links == 0)

-- The state behind the end of `cofs_put_node`.
abbrev pub released : ℕ → Node → Fs → Fs
released i n s = record s { cache = record s.cache { nodes = set s.cache.nodes i (less_refs n) } }

-- `cofs_put_node` of a node with no references panics. Of one that is not the last reference to a
-- file without names, it takes one reference away, and writes nothing to the disk; the root is left
-- one reference at least.
pub put_node_lem :
    (i : ℕ) (s : Fs) (n : Node)
    → get_elem? s.cache.nodes i ≡ some n
    → (n.ref_count ≡ 0 → put_node i s ≡ none)
      × (0 < n.ref_count → is_last n ≡ false → put_node i s ≡ some (tt, released i n s))
      × (n.inode ≡ 1 → 0 < n.ref_count → 0 < (less_refs n).ref_count)
      × (n.inode ≢ 1 → 0 < n.ref_count → (less_refs n).ref_count + 1 ≡ n.ref_count)
unfolding put_node drop_ref
put_node_lem i s n at = (
  λ z. let e : (n.ref_count == 0) ≡ true = ground arith in rw (at, e) refl,
  λ p k. let e : (n.ref_count == 0) ≡ false = ground arith in rw (at, e, k, at) refl,
  λ r p. ground arith,
  λ r p. ground arith,
)

or_zero : (m : ℕ) → m < 4096 → bit_or (type_of 0) m % 65536 ≡ m
or_zero m h = omega (arith, or-fields 0 m (omega arith) h)

-- The node that `cofs_truncate` returns.
truncate_same :
    (sb : Superblock) (n n' : Node) (len : ℕ) (d d' : Disk)
    → truncate sb n len d ≡ some (n', d')
    → (n'.mask ≡ n.mask) × (n'.inode ≡ n.inode)
unfolding truncate
truncate_same sb n n' len d d' = elim (Bool-cases (ltb n.size len || not (len % 512 == 0))) [
  | inl e ↦ rw e λ h. absurd (cc)
  | inr e ↦ rw e (go (cut_blocks (n.size / 512 + 1 - len / 512) sb (len / 512) (n.addrs, d)))
]
  where
    cut : Node → List ℕ → Node
    cut n addrs = record n { size = len; addrs = addrs }

    go :
        (r : Option Files)
        → Map.◌>>=◌ {B = Node × Disk} r
            (λ (addrs, e). some (cut n addrs, update_node sb (cut n addrs) e))
          ≡ some (n', d')
        → (n'.mask ≡ n.mask) × (n'.inode ≡ n.inode)
    go none h = absurd (cc)
    go (some (a, e)) h =
        let p : cut n a ≡ n' = cc in
        (ap (λ (x : Node). x.mask) (sym p), ap (λ (x : Node). x.inode) (sym p))

put_last :
    (i : ℕ) (s : Fs) (n : Node)
    → get_elem? s.cache.nodes i ≡ some n
    → is_last n ≡ true
    → put_node i s ≡ and_then (drop_node i n s) (λ _. drop_ref i)
unfolding put_node
put_last i s n at last = let e : (n.ref_count == 0) ≡ false = ground arith in rw (at, e, last) refl

drop_ref_disk : (i : ℕ) (t s' : Fs) → drop_ref i t ≡ some (tt, s') → s'.disk ≡ t.disk
unfolding drop_ref
drop_ref_disk i t s' = elim (Option-cases (get_elem? t.cache.nodes i)) [
  | inl e ↦ rw e λ h. absurd (cc)
  | inr (m, e) ↦ rw e λ h. let p : released i m t ≡ s' = cc in ap (λ (x : Fs). x.disk) (sym p)
]

-- Where `cofs_put_node` of the last reference to a file with no names left comes to an end, the
-- type in the inode on the disk is the access mode of the file, and not always 0.
pub put_node-mask :
    (i : ℕ) (s s' : Fs) (n : Node)
    → get_elem? s.cache.nodes i ≡ some n
    → n.mask < 4096
    → is_last n ≡ true
    → put_node i s ≡ some (tt, s')
    → (read_inode s.sb n.inode s'.disk).type ≡ n.mask
unfolding drop_node update_node saved
put_node-mask i s s' n at m last h =
    go (truncate s.sb n 0 s.disk) refl (sym (put_last i s n at last) ∙ h)
  where
    go :
        (r : Option (Node × Disk))
        → truncate s.sb n 0 s.disk ≡ r
        → and_then (drop_node i n s) (λ _. drop_ref i) ≡ some (tt, s')
        → (read_inode s.sb n.inode s'.disk).type ≡ n.mask
    go none e = rw e λ f. absurd (cc)
    go (some (n', d)) e = rw e λ f.
        let gone = record n' { type = 0 } in
        let (mask, ino) = truncate_same s.sb n n' 0 s.disk d e in
        let disk = drop_ref_disk i _ s' f in
        ap (λ (x : Disk). (read_inode s.sb n.inode x).type) disk
        ∙ ap (λ (k : ℕ). (read_inode s.sb n.inode (write_inode s.sb k (saved gone) d)).type) ino
        ∙ type_in_out s.sb n.inode (saved gone) d
        ∙ ap (λ (k : ℕ). bit_or 0 k % 65536 % 65536) mask
        ∙ omega (arith, or_zero n.mask m)
