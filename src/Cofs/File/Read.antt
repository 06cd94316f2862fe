-- ===== src/Cofs/File/Read.antt =====
-- Reading gives the bytes of the file, and reading does not change it.
use c_osiris.Base.{
  ℕ, zero, suc, ◌+◌, ◌-◌, ◌*◌, ◌/◌, ◌%◌, ◌^◌, ◌≤◌, ◌<◌, ◌≡◌, ◌≢◌, refl, sym, ap, ◌∙◌, min, Option,
  some, List, [], ◌∷◌, ◌++◌, arith,
}
use mathlib.Core.Path.{ap₂}
use c_osiris.Cofs.{Disk, Superblock, block_size}
use c_osiris.Cofs.Inode.{Node}
use c_osiris.Cofs.Map.{Files, ◌>>=◌, block_map}
use c_osiris.Cofs.Map.Pointers.{IsDisk, IsOwned}
use c_osiris.Cofs.Map.Lookup.{max_blocks, place, Mapped, block_map-Mapped}
use c_osiris.Cofs.File.{bytes_at, piece, read_loop, read_size, read}

-- The byte at an offset of the file, when its block has a place.
unfoldable pub content : Files → ℕ → ℕ
content s o = s.1 (place s (o / block_size)) (o % block_size)

-- The bytes from an offset on.
unfoldable pub contents : Files → ℕ → ℕ → List ℕ
unfolding content
contents s o zero = []
contents s o (suc n) = content s o ∷ contents s (o + 1) n

-- The blocks of `n` bytes from an offset on have places.
abbrev pub IsPlaced : Files → ℕ → ℕ → Type 0
IsPlaced s off n =
    (o : ℕ) → off ≤ o → o < off + n → (o / block_size < max_blocks) × (place s (o / block_size) ≢ 0)

pub block_map_placed :
    (sb : Superblock) (s : Files) (f : ℕ)
    → IsDisk sb s.1
    → IsOwned sb s
    → f < max_blocks
    → place s f ≢ 0
    → block_map sb f s ≡ some (place s f, s)
block_map_placed sb s f v o lt nz = go (block_map sb f s) (block_map-Mapped sb s f v o lt)
  where
    go : (r : Option (ℕ × Files)) → Mapped sb s f r → r ≡ some (place s f, s)
    go r (Mapped.full is z few) = absurd (nz z)
    go r (Mapped.mapped s' is disk own there same keep data_same spent) =
        is ∙ ap (λ (t : Files). some (place t f, t)) (same nz)

bytes-contents :
    (k : ℕ) (s : Files) (o f r : ℕ)
    → o ≡ f * block_size + r
    → r + k ≤ block_size
    → bytes_at k s.1 (place s f) r ≡ contents s o k
unfolding bytes_at contents
bytes-contents zero s o f r e h = refl
bytes-contents (suc k) s o f r e h =
    let p : f ≡ o / block_size = omega arith in
    let q : r ≡ o % block_size = omega arith in
    ap₂ (λ (v : ℕ) (l : List ℕ). v ∷ l) (ap₂ (λ (x y : ℕ). s.1 (place s x) y) p q)
      (bytes-contents k s (o + 1) f (r + 1) (omega arith) (omega arith))

contents-append :
    (s : Files) (o m n : ℕ) → contents s o m ++ contents s (o + m) n ≡ contents s o (m + n)
unfolding contents
contents-append s o zero n =
    let e : o + 0 ≡ o = omega arith in let f : n ≡ 0 + n = omega arith in ap₂ (contents s) e f
contents-append s o (suc m) n =
    let e : o + suc m ≡ o + 1 + m = omega arith in
    let f : suc m + n ≡ suc (m + n) = omega arith in
    ap (λ (l : List ℕ). content s o ∷ l)
      (ap (λ (k : ℕ). contents s (o + 1) m ++ contents s k n) e ∙ contents-append s (o + 1) m n)
    ∙ ap (contents s o) (sym f)

pub piece_lem :
    (off more : ℕ)
    → (0 < piece off (suc more))
      × (piece off (suc more) ≤ suc more)
      × (off % block_size + piece off (suc more) ≤ block_size)
piece_lem off more = omega arith

read_loop_lem :
    (n : ℕ) (sb : Superblock) (off left : ℕ) (s : Files)
    → left ≤ n
    → IsDisk sb s.1
    → IsOwned sb s
    → IsPlaced s off left
    → read_loop n sb off left s ≡ some (contents s off left, s)
unfolding read_loop contents
read_loop_lem zero sb off zero s h v o p = refl
read_loop_lem zero sb off (suc more) s h v o p = absurd (omega arith)
read_loop_lem (suc n) sb off zero s h v o p = refl
read_loop_lem (suc n) sb off (suc more) s h v o p =
    let k = piece off (suc more) in
    let (pos, le, fits) = piece_lem off more in
    let (low, nz) = p off (omega arith) (omega arith) in
    let e = block_map_placed sb s (off / block_size) v o low nz in
    let rest =
      read_loop_lem n sb (off + k) (suc more - k) s (omega arith) v o
        (λ x a b. p x (omega arith) (omega arith)) in
    let total : k + (suc more - k) ≡ suc more = omega arith in
    ap
      (λ (r : Option (ℕ × Files)). r >>= λ (b, t).
        read_loop n sb (off + k) (suc more - k) t >>= λ (bs, u).
        some (bytes_at k t.1 b (off % block_size) ++ bs, u))
      e
    ∙ ap
        (λ (r : Option (List ℕ × Files)). r >>= λ (bs, u).
          some (bytes_at k s.1 (place s (off / block_size)) (off % block_size) ++ bs, u))
        rest
    ∙ ap (λ (l : List ℕ). some (l, s))
        (ap (λ (l : List ℕ). l ++ contents s (off + k) (suc more - k))
            (bytes-contents k s off (off / block_size) (off % block_size) (omega arith) fits)
          ∙ contents-append s off k (suc more - k)
          ∙ ap (contents s off) total)

-- `cofs_read`, on a disk of bytes, with fewer than 2 ^ 32 bits in its bitmap, whose first blocks,
-- the bitmap's among them, are in use, and for a file whose pointers lead to different data blocks
-- in use, with a block at every place in the range to be read, gives the bytes of the file from the
-- offset on, as many as `read_size` says (those asked for, or those up to the end, where offset and
-- size have a sum below 2 ^ 32), and leaves the node and the disk as they are.
pub read-contents :
    (sb : Superblock) (n : Node) (off size : ℕ) (d : Disk)
    → IsDisk sb d
    → IsOwned sb (n.addrs, d)
    → IsPlaced (n.addrs, d) off (read_size n.size off size)
    → read sb n off size d ≡ some (contents (n.addrs, d) off (read_size n.size off size), (n, d))
unfolding read
read-contents sb n off size d v o p =
    let count = read_size n.size off size in
    ap
      (λ (r : Option (List ℕ × Files)).
        r >>= λ (bs, (addrs, e)). some (bs, (record n { addrs = addrs }, e)))
      (read_loop_lem count sb off count (n.addrs, d) (omega arith) v o p)

-- Without a wrap of the sum, the number of bytes is what is left of the file, and no more than asked.
pub read_size_lem :
    (file off size : ℕ) → off + size < 2 ^ 32 → read_size file off size ≡ min size (file - off)
read_size_lem file off size h = ground arith
