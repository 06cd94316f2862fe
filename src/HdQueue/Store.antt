-- ===== src/HdQueue/Store.antt =====
-- What a reader sees of the disk, and what happens where every buffer is in use.
use c_osiris.Base.{
  ℕ, ◌≤◌, ◌≡◌, refl, ap, ◌∙◌, false, ◌&&◌, not, Option, none, some, List, [], ◌∷◌, ◌++◌, arith, ltb,
  ◌==◌, length,
}
use c_osiris.HdQueue.{
  HdBuf, Queue, max_hd_bufs, find_block, find_unused, store, loaded, reuse, load, get_found,
  get_hd_buf,
}

-- Someone uses the buffer, or it is not on the disk yet.
abbrev pub InUse : HdBuf → Type 0
InUse b = (b.ref_count == 0 && (not b.is_dirty && not b.locked)) ≡ false

abbrev pub All : (HdBuf → Type 0) → List HdBuf → Type 0
All P [] = Unit {0}
All P (b ∷ bs) = P b × All P bs

find_unused-last :
    (last : Option HdBuf) (b : HdBuf) (bs : List HdBuf)
    → All InUse (bs ++ (b ∷ []))
    → find_unused last (bs ++ (b ∷ [])) ≡ some b
unfolding find_unused
find_unused-last last b [] v = rw v.0 refl
find_unused-last last b (c ∷ bs) v = rw v.0 (find_unused-last (some c) b bs v.1)

-- Where the queue is at its limit and every buffer is in use, `get_hd_buf` of a block that is not in
-- memory does not panic: it takes the last buffer of the queue from whoever uses it, without
-- writing it to the disk.
pub get_hd_buf-last :
    (n : ℕ) (q : Queue) (bs : List HdBuf) (b : HdBuf)
    → q.bufs ≡ bs ++ (b ∷ [])
    → max_hd_bufs ≤ length q.bufs
    → find_block n q.bufs ≡ none
    → All InUse (bs ++ (b ∷ []))
    → (get_hd_buf n q).0 ≡ some (loaded n q.disk b)
      × ((get_hd_buf n q).1.bufs ≡ store b.id (loaded n q.disk) q.bufs
          × (get_hd_buf n q).1.disk ≡ q.disk)
unfolding get_hd_buf get_found load reuse
get_hd_buf-last n q bs b e full new v =
    let found : find_unused none q.bufs ≡ some b =
      ap (find_unused none) e ∙ find_unused-last none b bs v in
    let limit : ltb (length q.bufs) max_hd_bufs ≡ false = ground arith in
    let all : get_hd_buf n q ≡ reuse n q (some b) =
      ap (get_found n q) new ∙ rw limit (ap (reuse n q) found) in
    (ap (λ r. r.0) all, (ap (λ r. r.1.bufs) all, ap (λ r. r.1.disk) all))
