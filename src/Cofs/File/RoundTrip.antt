-- ===== src/Cofs/File/RoundTrip.antt =====
-- `cofs_write` and then `cofs_read`.
use c_osiris.Base.{
  ℕ, suc, ◌+◌, ◌-◌, ◌*◌, ◌/◌, ◌%◌, ◌≤◌, ◌<◌, ◌≡◌, ◌⊎◌, inl, inr, refl, sym, ap, ◌∙◌, false, ◌&&◌,
  ◌||◌, Option, none, some, List, [], ◌∷◌, arith, ltb, Bool-cases, length,
}
use mathlib.Core.Path.{subst, ap₂}
use c_osiris.Cofs.{Disk, Superblock, block_size}
use c_osiris.Cofs.Inode.{Node, update_node}
use c_osiris.Cofs.Map.{Files, ◌>>=◌}
use c_osiris.Cofs.Map.Pointers.{IsDisk, IsOwned}
use c_osiris.Cofs.Alloc.Spent.{FewerFree}
use c_osiris.Cofs.File.{write_loop, write, grow, read, read_size, max_bytes}
use c_osiris.Cofs.File.Read.{content, contents, IsPlaced, read-contents}
use c_osiris.Cofs.File.Write.{Wrote}
use c_osiris.Cofs.File.Loop.{byte, AreBytes, Writing, write_loop-Writing}
use c_osiris.Base.Words.{add32}
use c_osiris.Cofs.File.Saved.{IsLaid, saved-Wrote}

-- The number of blocks of the file that the bytes lie in, or one that none lie in.
abbrev pub blocks : ℕ → ℕ → ℕ
blocks off n = (off % block_size + n + (block_size - 1)) / block_size

-- What `cofs_write` comes to: all the bytes are in the file, and its size covers them; or the disk
-- is full.
pub data Written (sb : Superblock) (n : Node) (off : ℕ) (bs : List ℕ) (d : Disk)
    (r : Option (ℕ × (Node × Disk))) : Type 0 where
  written :
      (n' : Node) (d' : Disk)
      → r ≡ some (length bs, (n', d'))
      → Wrote sb off (length bs) (byte bs) (n.addrs, d) (n'.addrs, d')
      → off + length bs ≤ n'.size
      → (n'.size ≡ n.size) ⊎ ((n.size < off + length bs) × (n'.size ≡ off + length bs))
      → Written sb n off bs d r
  full : r ≡ none → FewerFree sb (3 * blocks off (length bs)) d → Written sb n off bs d r

grow-Written :
    (sb : Superblock) (n : Node) (off : ℕ) (bs : List ℕ) (d : Disk) (t : Files)
    → IsLaid sb n.inode
    → off ≤ n.size
    → off + length bs ≤ max_bytes
    → Wrote sb off (length bs) (byte bs) (n.addrs, d) t
    → Written sb n off bs d (some (grow sb n (length bs) (off + length bs) t))
unfolding grow
grow-Written sb n off bs d t l le lim w =
    let n' = record n { addrs = t.0 } in
    let longer = record n { addrs = t.0; size = off + length bs } in
    elim (Bool-cases (ltb 0 (length bs) && ltb n.size (off + length bs))) [
      | inl e ↦ rw e (
          Written.written longer (update_node sb longer t.1) refl
            (saved-Wrote sb longer off (length bs) (byte bs) (n.addrs, d) t l w (omega arith))
            (omega arith) (inr (ground arith, refl)))
      | inr e ↦ rw e (Written.written n' t.1 refl w (ground arith) (inl refl))
    ]

-- `cofs_write` of bytes at an offset within the file, that end within the limit of the code, on a
-- disk of bytes, with fewer than 2 ^ 32 bits in its bitmap, whose first blocks, the bitmap's among
-- them, are in use, and for a file whose pointers lead to different data blocks in use, whose inode
-- lies apart from the bitmap: all bytes are written and are then in the file, the bytes elsewhere
-- in its blocks are as before, the size is the larger of the old one and the end of what was
-- written, and what holds of the disk and the file holds again; or it panics, and then fewer blocks
-- of the bitmap were free before than three for each block of the file that the bytes lie in.
pub write-Written :
    (sb : Superblock) (n : Node) (off : ℕ) (bs : List ℕ) (d : Disk)
    → IsLaid sb n.inode
    → IsDisk sb d
    → IsOwned sb (n.addrs, d)
    → off ≤ n.size
    → off + length bs ≤ max_bytes
    → AreBytes bs
    → Written sb n off bs d (write sb n off bs d)
unfolding write
write-Written sb n off bs d l v o le lim small =
    let e : (ltb n.size off || ltb max_bytes (add32 off (length bs))) ≡ false = ground arith in
    rw e (
      go (write_loop (length bs) sb off bs (n.addrs, d)) (
        write_loop-Writing (length bs) sb (blocks off (length bs)) off bs (n.addrs, d) (omega arith)
          (omega arith) (omega arith) small v o))
  where
    go :
        (r : Option (ℕ × Files))
        → Writing sb (blocks off (length bs)) off bs (n.addrs, d) r
        → Written sb n off bs d (r >>= λ (end, t). some (grow sb n (length bs) end t))
    go r (Writing.full is few) =
        Written.full
          (ap (λ (x : Option (ℕ × Files)). x >>= λ (end, t). some (grow sb n (length bs) end t)) is)
          few
    go r (Writing.wrote t is w) =
        subst
          (λ (x : Option (ℕ × Files)).
            Written sb n off bs d (x >>= λ (end, t). some (grow sb n (length bs) end t)))
          (sym is) (grow-Written sb n off bs d t l le lim w)

contents_byte :
    (s : Files) (off : ℕ) (bs : List ℕ)
    → ((i : ℕ) → i < length bs → content s (off + i) ≡ byte bs i)
    → contents s off (length bs) ≡ bs
unfolding contents
contents_byte s off [] h = refl
contents_byte s off (b ∷ bs) h =
    let e : off ≡ off + 0 = omega arith in
    ap₂ (λ (v : ℕ) (l : List ℕ). v ∷ l) (ap (content s) e ∙ h 0 (omega arith))
      (contents_byte s (off + 1) bs λ i lt.
        let f : off + 1 + i ≡ off + suc i = omega arith in
        ap (content s) f ∙ h (suc i) (omega arith))

-- Where `cofs_write` returns the number of bytes it was given, `cofs_read` of as many at the same
-- offset gives these bytes, and leaves the node and the disk as they are: on a disk of bytes, with
-- fewer than 2 ^ 32 bits in its bitmap, whose first blocks, the bitmap's among them, are in use,
-- and for a file whose pointers lead to different data blocks in use, whose inode lies apart from
-- the bitmap, for bytes written at an offset within the file that end within the limit of the code.
pub read-write :
    (sb : Superblock) (n n' : Node) (off : ℕ) (bs : List ℕ) (d d' : Disk)
    → IsLaid sb n.inode
    → IsDisk sb d
    → IsOwned sb (n.addrs, d)
    → off ≤ n.size
    → off + length bs ≤ max_bytes
    → AreBytes bs
    → write sb n off bs d ≡ some (length bs, (n', d'))
    → read sb n' off (length bs) d' ≡ some (bs, (n', d'))
read-write sb n n' off bs d d' l v o le lim small h =
    go (subst (Written sb n off bs d) h (write-Written sb n off bs d l v o le lim small))
  where
    go :
        Written sb n off bs d (some (length bs, (n', d')))
        → read sb n' off (length bs) d' ≡ some (bs, (n', d'))
    go (Written.full is few) = absurd (cc)
    go (Written.written m e is w size grown) =
        let p : n' ≡ m = cc in
        let q : d' ≡ e = cc in
        let count : read_size m.size off (length bs) ≡ length bs = ground arith in
        let back =
          read-contents sb m off (length bs) e w.disk w.file
            (subst (IsPlaced (m.addrs, e) off) (sym count) w.placed) in
        ap₂ (λ (x : Node) (y : Disk). read sb x off (length bs) y) p q
        ∙ back
        ∙ ap₂ (λ (x : List ℕ) (y : Node × Disk). some (x, y))
            (ap (contents (m.addrs, e) off) count ∙ contents_byte (m.addrs, e) off bs w.inside)
            (ap₂ (λ (x : Node) (y : Disk). (x, y)) (sym p) (sym q))
