-- ===== src/Cofs/File.antt =====
-- cofs.c: reading and writing the bytes of a file. A panic is `none`.
pub mod Poke
pub mod Write
pub mod Read
pub mod Loop
pub mod Saved
pub mod RoundTrip
mod Tests
use c_osiris.Base.{
  ℕ, zero, suc, ◌+◌, ◌-◌, ◌*◌, ◌/◌, ◌%◌, min, Bool, true, false, ◌&&◌, ◌||◌, Option, none, some,
  List, [], ◌∷◌, ◌++◌, ltb, ◌==◌, if◌then◌else◌, length, get_or, drop,
}
use c_osiris.Base.Words.{add32}
use c_osiris.Cofs.{Disk, Superblock, block_size, overlay}
use c_osiris.Cofs.Inode.{Node, update_node}
use c_osiris.Cofs.Map.{Files, ◌>>=◌, block_map, num_direct, num_sind, num_dind}

-- `memcpy` out of the buffer of a block: `n` bytes from offset `o` on.
unfoldable pub bytes_at : ℕ → Disk → ℕ → ℕ → List ℕ
bytes_at zero d b o = []
bytes_at (suc n) d b o = d b o ∷ bytes_at n d b (o + 1)

-- The bytes of one round, up to the end of the block or of the request.
abbrev pub piece : ℕ → ℕ → ℕ
piece off left = min left (block_size - off % block_size)

-- The loop of `cofs_read` with the bytes left. A round copies one byte at least, so `left` rounds
-- are enough.
unfoldable pub read_loop : ℕ → Superblock → ℕ → ℕ → Files → Option (List ℕ × Files)
unfolding block_map bytes_at
read_loop zero sb off left s = some ([], s)
read_loop (suc n) sb off zero s = some ([], s)
read_loop (suc n) sb off (suc more) s =
    let k = piece off (suc more) in
    block_map sb (off / block_size) s >>= λ (b, t).
    read_loop n sb (off + k) (suc more - k) t >>= λ (bs, u).
    some (bytes_at k t.1 b (off % block_size) ++ bs, u)

-- The number of bytes that `cofs_read` copies and returns.
abbrev pub read_size : ℕ → ℕ → ℕ → ℕ
read_size file off size =
    if ltb file off then 0 else if ltb file (add32 off size) then file - off else size

-- `cofs_read`: the bytes, the number returned being their number.
unfoldable pub read : Superblock → Node → ℕ → ℕ → Disk → Option (List ℕ × (Node × Disk))
unfolding read_loop
read sb n off size d =
    let count = read_size n.size off size in
    read_loop count sb off count (n.addrs, d) >>= λ (bs, (addrs, e)).
    some (bs, (record n { addrs = addrs }, e))

-- The loop of `cofs_write`, over the bytes left: the offset behind the last of them.
unfoldable pub write_loop : ℕ → Superblock → ℕ → List ℕ → Files → Option (ℕ × Files)
unfolding block_map overlay
write_loop zero sb off bs s = some (off, s)
write_loop (suc n) sb off [] s = some (off, s)
write_loop (suc n) sb off (c ∷ cs) s =
    let bs = c ∷ cs in
    let k = piece off (length bs) in
    block_map sb (off / block_size) s >>= λ (b, t).
    write_loop n sb (off + k) (drop k bs)
      (t.0, overlay b (off % block_size) k (λ i. get_or bs i 0) t.1)

-- `MAX_FILE_SIZE * BLOCK_SIZE`, as the preprocessor makes it: the product is of the last term only.
abbrev pub max_bytes : ℕ
max_bytes = num_direct + num_sind + num_dind * block_size

-- The end of `cofs_write`: a file that has grown is saved.
unfoldable pub grow : Superblock → Node → ℕ → ℕ → Files → ℕ × (Node × Disk)
unfolding update_node
grow sb n size off (addrs, e) =
    let n' = record n { addrs = addrs } in
    let longer = record n { addrs = addrs; size = off } in
    if ltb 0 size && ltb n.size off
    then (size, (longer, update_node sb longer e))
    else (size, (n', e))

-- `cofs_write` of the bytes of a buffer: the number returned.
unfoldable pub write : Superblock → Node → ℕ → List ℕ → Disk → Option (ℕ × (Node × Disk))
unfolding write_loop grow
write sb n off bs d =
    let size = length bs in
    if ltb n.size off || ltb max_bytes (add32 off size)
    then some (0, (n, d))
    else (write_loop size sb off bs (n.addrs, d) >>= λ (end, t). some (grow sb n size end t))
