-- ===== src/HdQueue/Blocks.antt =====
-- The blocks of the buffers where one task runs at a time, and which buffer `get_hd_buf` takes for a new one.
use c_osiris.Base.{
  ℕ, ◌≡◌, ◌≢◌, inl, inr, refl, sym, ap, ◌∙◌, ◌&&◌, Option, none, some, List, [], ◌∷◌, ◌++◌, arith,
  Bool-cases, ltb, ◌==◌, length,
}
use mathlib.Core.Path.{subst}
use c_osiris.HdQueue.{
  HdBuf, Disk, Queue, max_hd_bufs, find_block, find_unused, store, loaded, fresh, reuse, load,
  get_found, used_again, get_hd_buf, given_back, put_hd_buf,
}

abbrev pub Without : ℕ → List HdBuf → Type 0
Without n [] = Unit {0}
Without n (b ∷ bs) = (b.block_no ≢ n) × Without n bs

-- Every block is in at most one buffer.
abbrev pub AreDistinct : List HdBuf → Type 0
AreDistinct [] = Unit {0}
AreDistinct (b ∷ bs) = Without b.block_no bs × AreDistinct bs

find_block_none : (n : ℕ) (bs : List HdBuf) → find_block n bs ≡ none → Without n bs
unfolding find_block
find_block_none n [] = λ h. tt
find_block_none n (b ∷ bs) = elim (Bool-cases (b.block_no == n)) [
  | inl hit ↦ rw hit (λ h. cc)
  | inr miss ↦ rw miss (λ h. (ground arith, find_block_none n bs h))
]

find_block-some : (n : ℕ) (bs : List HdBuf) (b : HdBuf) → find_block n bs ≡ some b → b.block_no ≡ n
unfolding find_block
find_block-some n [] b = λ h. absurd (cc)
find_block-some n (c ∷ bs) b = elim (Bool-cases (c.block_no == n)) [
  | inl hit ↦ rw hit (λ h. let e : c ≡ b = cc in ap (λ d. d.block_no) (sym e) ∙ ground arith)
  | inr miss ↦ rw miss (λ h. find_block-some n bs b h)
]

-- A write that keeps the block numbers.
Without-store_same :
    (n id : ℕ) (f : HdBuf → HdBuf) (bs : List HdBuf)
    → ((b : HdBuf) → (f b).block_no ≡ b.block_no)
    → Without n bs
    → Without n (store id f bs)
unfolding store
Without-store_same n id f [] keeps v = tt
Without-store_same n id f (b ∷ bs) keeps v = elim (Bool-cases (b.id == id)) [
  | inl hit ↦ rw hit ((λ e. v.0 (sym (keeps b) ∙ e)), v.1)
  | inr miss ↦ rw miss (v.0, Without-store_same n id f bs keeps v.1)
]

store_same-AreDistinct :
    (id : ℕ) (f : HdBuf → HdBuf) (bs : List HdBuf)
    → ((b : HdBuf) → (f b).block_no ≡ b.block_no)
    → AreDistinct bs
    → AreDistinct (store id f bs)
unfolding store
store_same-AreDistinct id f [] keeps v = tt
store_same-AreDistinct id f (b ∷ bs) keeps v = elim (Bool-cases (b.id == id)) [
  | inl hit ↦ rw hit (subst (λ n. Without n bs) (sym (keeps b)) v.0, v.1)
  | inr miss ↦
      rw miss
        (Without-store_same b.block_no id f bs keeps v.0, store_same-AreDistinct id f bs keeps v.1)
]

Without-store_new :
    (n m id : ℕ) (disk : Disk) (bs : List HdBuf)
    → n ≢ m
    → Without n bs
    → Without n (store id (loaded m disk) bs)
unfolding store
Without-store_new n m id disk [] ne v = tt
Without-store_new n m id disk (b ∷ bs) ne v = elim (Bool-cases (b.id == id)) [
  | inl hit ↦ rw hit ((λ e. ne (sym e)), v.1)
  | inr miss ↦ rw miss (v.0, Without-store_new n m id disk bs ne v.1)
]

store_new-AreDistinct :
    (m id : ℕ) (disk : Disk) (bs : List HdBuf)
    → Without m bs
    → AreDistinct bs
    → AreDistinct (store id (loaded m disk) bs)
unfolding store
store_new-AreDistinct m id disk [] new v = tt
store_new-AreDistinct m id disk (b ∷ bs) new v = elim (Bool-cases (b.id == id)) [
  | inl hit ↦ rw hit (new.1, v.1)
  | inr miss ↦ rw miss (
    Without-store_new b.block_no m id disk bs new.0 v.0,
    store_new-AreDistinct m id disk bs new.1 v.1,
  )
]

Without-append :
    (n : ℕ) (b : HdBuf) (bs : List HdBuf)
    → b.block_no ≢ n
    → Without n bs
    → Without n (bs ++ (b ∷ []))
Without-append n b [] ne v = (ne, tt)
Without-append n b (c ∷ bs) ne v = (v.0, Without-append n b bs ne v.1)

append-AreDistinct :
    (b : HdBuf) (bs : List HdBuf)
    → Without b.block_no bs
    → AreDistinct bs
    → AreDistinct (bs ++ (b ∷ []))
append-AreDistinct b [] new v = (tt, tt)
append-AreDistinct b (c ∷ bs) new v =
    (Without-append c.block_no b bs (λ e. new.0 (sym e)) v.0, append-AreDistinct b bs new.1 v.1)

reuse-AreDistinct :
    (n : ℕ) (q : Queue) (o : Option HdBuf)
    → Without n q.bufs
    → AreDistinct q.bufs
    → AreDistinct (reuse n q o).1.bufs
unfolding reuse
reuse-AreDistinct n q none new v = v
reuse-AreDistinct n q (some u) new v = store_new-AreDistinct n u.id q.disk q.bufs new v

load-AreDistinct :
    (n : ℕ) (q : Queue) → Without n q.bufs → AreDistinct q.bufs → AreDistinct (load n q).1.bufs
unfolding load
load-AreDistinct n q new v = elim (Bool-cases (ltb (length q.bufs) max_hd_bufs)) [
  | inl room ↦ rw room (append-AreDistinct (loaded n q.disk (fresh q.next_id)) q.bufs new v)
  | inr full ↦ rw full (reuse-AreDistinct n q (find_unused none q.bufs) new v)
]

found-AreDistinct :
    (n : ℕ) (q : Queue) (o : Option HdBuf)
    → (o ≡ none → Without n q.bufs)
    → AreDistinct q.bufs
    → AreDistinct (get_found n q o).1.bufs
unfolding get_found
found-AreDistinct n q none new v = load-AreDistinct n q (new refl) v
found-AreDistinct n q (some b) new v = store_same-AreDistinct b.id used_again q.bufs (λ c. refl) v

-- In a queue where every block is in at most one buffer, `get_hd_buf` of any block, with no other
-- task between its two sections under the lock, and `put_hd_buf` of any buffer keep it so.
get_hd_buf-AreDistinct :
    (q : Queue)
    → AreDistinct q.bufs
    → ((n : ℕ) → AreDistinct (get_hd_buf n q).1.bufs)
      × ((b : HdBuf) → AreDistinct (put_hd_buf b q).1.bufs)
unfolding get_hd_buf put_hd_buf
get_hd_buf-AreDistinct q v = (
  λ n. found-AreDistinct n q (find_block n q.bufs) (find_block_none n q.bufs) v,
  λ b. elim (Bool-cases (b.ref_count == 0)) [
    | inl unused ↦ rw unused v
    | inr used ↦ elim (Bool-cases (b.is_dirty && b.ref_count == 1)) [
      | inl flush ↦ rw used (rw flush (store_same-AreDistinct b.id _ q.bufs (λ c. refl) v))
      | inr keep ↦ rw used (rw keep (store_same-AreDistinct b.id given_back q.bufs (λ c. refl) v))
    ]
  ],
)
