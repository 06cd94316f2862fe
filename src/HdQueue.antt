-- ===== src/HdQueue.antt =====
-- hd_queue.c: the buffers of disk blocks; dirty blocks go back to the disk.
pub mod Blocks
pub mod Store
pub mod Coherent
mod Tests
use c_osiris.Base.{
  ℕ, suc, ◌+◌, ◌-◌, Bool, true, false, ◌&&◌, not, Option, none, some, List, [], ◌∷◌, ◌++◌, ltb,
  ◌==◌, if◌then◌else◌, length,
}

-- `hd_buf_t`. `id` stands for its address; the contents of a block are one value.
pub record HdBuf : Type 0 where
  pub id : ℕ
  pub block_no : ℕ
  pub is_dirty : Bool
  pub ref_count : ℕ
  pub locked : Bool
  pub contents : ℕ

-- The disk: the contents of each block.
abbrev pub Disk : Type 0
Disk = ℕ → ℕ

-- `buf_queue` with the disk, and the address that `malloc` returns next.
pub record Queue : Type 0 where
  pub bufs : List HdBuf
  pub next_id : ℕ
  pub disk : Disk

abbrev pub max_hd_bufs : ℕ
max_hd_bufs = 200

-- The search of `get_hd_buf` for the block.
unfoldable pub find_block : ℕ → List HdBuf → Option HdBuf
find_block n [] = none
find_block n (b ∷ bs) = if b.block_no == n then some b else find_block n bs

-- The search for a buffer that nobody uses. It stops with the last buffer if there is none, and
-- is `none` only for a queue without buffers.
unfoldable pub find_unused : Option HdBuf → List HdBuf → Option HdBuf
find_unused last [] = last
find_unused last (b ∷ bs) =
    if b.ref_count == 0 && (not b.is_dirty && not b.locked) then some b else find_unused (some b) bs

-- A write through the pointer to a buffer.
unfoldable pub store : ℕ → (HdBuf → HdBuf) → List HdBuf → List HdBuf
store id f [] = []
store id f (b ∷ bs) = if b.id == id then f b ∷ bs else b ∷ store id f bs

-- The buffer for a block that is not in memory, once `hd_rw` has read the block.
abbrev pub loaded : ℕ → Disk → HdBuf → HdBuf
loaded n disk b = record b {
  block_no = n;
  is_dirty = false;
  ref_count = 1;
  locked = true;
  contents = disk n;
}

abbrev pub fresh : ℕ → HdBuf
fresh id = record {
  id = id;
  block_no = 0;
  is_dirty = false;
  ref_count = 0;
  locked = false;
  contents = 0;
}

-- The end of `get_hd_buf` where the queue is at its limit, at the buffer that the search leaves;
-- `none` is a panic.
unfoldable pub reuse : ℕ → Queue → Option HdBuf → Option HdBuf × Queue
unfolding store
reuse n q none = (none, q)
reuse n q (some u) =
    (some (loaded n q.disk u), record q { bufs = store u.id (loaded n q.disk) q.bufs })

-- The branch of `get_hd_buf` for a block that is not in memory.
unfoldable pub load : ℕ → Queue → Option HdBuf × Queue
unfolding find_unused reuse
load n q =
    let b = loaded n q.disk (fresh q.next_id) in
    let bigger = record q { bufs = q.bufs ++ (b ∷ []); next_id = suc q.next_id } in
    if ltb (length q.bufs) max_hd_bufs
    then (some b, bigger)
    else reuse n q (find_unused none q.bufs)

abbrev pub used_again : HdBuf → HdBuf
used_again b = record b { ref_count = suc b.ref_count; locked = true }

-- `get_hd_buf` after its first search.
unfoldable pub get_found : ℕ → Queue → Option HdBuf → Option HdBuf × Queue
unfolding load store
get_found n q none = load n q
get_found n q (some b) = (some (used_again b), record q { bufs = store b.id used_again q.bufs })

-- `get_hd_buf`, run to the end: the caller gets the lock of the buffer. The search and what follows a
-- miss hold the queue's lock one after the other; what another task does between is not modelled.
unfoldable pub get_hd_buf : ℕ → Queue → Option HdBuf × Queue
unfolding find_block get_found
get_hd_buf n q = get_found n q (find_block n q.bufs)

abbrev pub write_disk : ℕ → ℕ → Disk → Disk
write_disk n v disk k = if k == n then v else disk k

abbrev pub given_back : HdBuf → HdBuf
given_back b = record b { ref_count = b.ref_count - 1; locked = false }

-- `put_hd_buf`; false is a panic.
unfoldable pub put_hd_buf : HdBuf → Queue → Bool × Queue
unfolding store
put_hd_buf b q =
    let flushed = record q {
      bufs = store b.id (λ c. record (given_back c) { is_dirty = false }) q.bufs;
      disk = write_disk b.block_no b.contents q.disk;
    } in
    let kept = record q { bufs = store b.id given_back q.bufs } in
    if b.ref_count == 0
    then (false, q)
    else if b.is_dirty && b.ref_count == 1
    then (true, flushed)
    else (true, kept)

-- `hd_queue_init`.
abbrev pub hd_queue_init : Disk → Queue
hd_queue_init disk = record { bufs = []; next_id = 1; disk = disk }
