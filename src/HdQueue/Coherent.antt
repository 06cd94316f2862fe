-- ===== src/HdQueue/Coherent.antt =====
-- A clean buffer holds what is on the disk.
use c_osiris.Base.{
  ℕ, ◌≡◌, ◌≢◌, ◌⊎◌, inl, inr, refl, sym, ap, ◌∙◌, true, false, ◌&&◌, Option, none, some, List, [],
  ◌∷◌, ◌++◌, arith, Bool-cases, ==-eq_true, ltb, ◌==◌, length,
}
use mathlib.Core.Path.{subst}
use c_osiris.HdQueue.{
  HdBuf, Disk, Queue, max_hd_bufs, find_block, find_unused, store, loaded, reuse, load, get_found,
  used_again, get_hd_buf, given_back, put_hd_buf, write_disk,
}
use c_osiris.HdQueue.Blocks.{Without, AreDistinct}
use c_osiris.HdQueue.Store.{All}

abbrev pub IsCoherent : Disk → HdBuf → Type 0
IsCoherent disk b = b.is_dirty ≡ false → b.contents ≡ disk b.block_no

-- The buffer is in the queue, at its address.
abbrev pub At : HdBuf → List HdBuf → Type 0
At b [] = ⊥
At b (c ∷ cs) = (c ≡ b) ⊎ ((c.id ≢ b.id) × At b cs)

All-store :
    (P : HdBuf → Type 0) (id : ℕ) (f : HdBuf → HdBuf) (bs : List HdBuf)
    → ((b : HdBuf) → P b → P (f b))
    → All P bs
    → All P (store id f bs)
unfolding store
All-store P id f [] keeps v = tt
All-store P id f (b ∷ bs) keeps v = elim (Bool-cases (b.id == id)) [
  | inl hit ↦ rw hit (keeps b v.0, v.1)
  | inr miss ↦ rw miss (v.0, All-store P id f bs keeps v.1)
]

All-append :
    (P : HdBuf → Type 0) (bs : List HdBuf) (b : HdBuf) → All P bs → P b → All P (bs ++ (b ∷ []))
All-append P [] b v p = (p, tt)
All-append P (c ∷ bs) b v p = (v.0, All-append P bs b v.1 p)

reuse-IsCoherent :
    (n : ℕ) (q : Queue) (o : Option HdBuf)
    → All (IsCoherent q.disk) q.bufs
    → All (IsCoherent (reuse n q o).1.disk) (reuse n q o).1.bufs
unfolding reuse
reuse-IsCoherent n q none v = v
reuse-IsCoherent n q (some u) v =
    All-store (IsCoherent q.disk) u.id (loaded n q.disk) q.bufs (λ b c h. refl) v

load-IsCoherent :
    (n : ℕ) (q : Queue)
    → All (IsCoherent q.disk) q.bufs
    → All (IsCoherent (load n q).1.disk) (load n q).1.bufs
unfolding load
load-IsCoherent n q v = elim (Bool-cases (ltb (length q.bufs) max_hd_bufs)) [
  | inl room ↦ rw room (All-append (IsCoherent q.disk) q.bufs _ v (λ h. refl))
  | inr full ↦ rw full (reuse-IsCoherent n q (find_unused none q.bufs) v)
]

found-IsCoherent :
    (n : ℕ) (q : Queue) (o : Option HdBuf)
    → All (IsCoherent q.disk) q.bufs
    → All (IsCoherent (get_found n q o).1.disk) (get_found n q o).1.bufs
unfolding get_found
found-IsCoherent n q none v = load-IsCoherent n q v
found-IsCoherent n q (some b) v = All-store (IsCoherent q.disk) b.id used_again q.bufs (λ c k. k) v

-- In a queue whose clean buffers all hold what is in their blocks on the disk, `get_hd_buf` of
-- any block keeps it so.
pub get_hd_buf-IsCoherent :
    (n : ℕ) (q : Queue)
    → All (IsCoherent q.disk) q.bufs
    → All (IsCoherent (get_hd_buf n q).1.disk) (get_hd_buf n q).1.bufs
unfolding get_hd_buf
get_hd_buf-IsCoherent n q v = found-IsCoherent n q (find_block n q.bufs) v

write_disk-ne : (n v k : ℕ) (disk : Disk) → k ≢ n → write_disk n v disk k ≡ disk k
write_disk-ne n v k disk ne = ground arith

write_disk-eq : (n v k : ℕ) (disk : Disk) → k ≡ n → write_disk n v disk k ≡ v
write_disk-eq n v k disk same = ground arith

Without-At : (n : ℕ) (b : HdBuf) (bs : List HdBuf) → Without n bs → At b bs → b.block_no ≢ n
Without-At n b [] w a = absurd a
Without-At n b (c ∷ bs) w (inl same) = subst (λ d. d.block_no ≢ n) same w.0
Without-At n b (c ∷ bs) w (inr a) = Without-At n b bs w.1 a.1

others-IsCoherent :
    (n v : ℕ) (disk : Disk) (bs : List HdBuf)
    → Without n bs
    → All (IsCoherent disk) bs
    → All (IsCoherent (write_disk n v disk)) bs
others-IsCoherent n v disk [] w c = tt
others-IsCoherent n v disk (b ∷ bs) w c = (
  λ clean. c.0 clean ∙ sym (write_disk-ne n v b.block_no disk w.0),
  others-IsCoherent n v disk bs w.1 c.1,
)

abbrev cleaned : HdBuf → HdBuf
cleaned c = record (given_back c) { is_dirty = false }

flush-IsCoherent :
    (b : HdBuf) (disk : Disk) (bs : List HdBuf)
    → AreDistinct bs
    → At b bs
    → All (IsCoherent disk) bs
    → All (IsCoherent (write_disk b.block_no b.contents disk)) (store b.id cleaned bs)
unfolding store
flush-IsCoherent b disk [] d a v = tt
flush-IsCoherent b disk (c ∷ cs) d (inl same) v =
    let hit : (c.id == b.id) ≡ true = ==-eq_true c.id b.id (ap (λ x. x.id) same) in
    rw hit (
      λ clean.
          ap (λ x. x.contents) same
          ∙ sym (write_disk-eq b.block_no b.contents c.block_no disk (ap (λ x. x.block_no) same)),
      others-IsCoherent b.block_no b.contents disk cs (subst (λ x. Without x.block_no cs) same d.0)
          v.1,
    )
flush-IsCoherent b disk (c ∷ cs) d (inr (ne, a)) v =
    let miss : (c.id == b.id) ≡ false = ground arith in
    let apart = Without-At c.block_no b cs d.0 a in
    rw miss (
      λ clean.
          v.0 clean
          ∙ sym (write_disk-ne b.block_no b.contents c.block_no disk (λ e. apart (sym e))),
      flush-IsCoherent b disk cs d.1 a v.1,
    )

-- In a queue whose clean buffers all hold what is in their blocks on the disk, and where no block
-- is in two buffers, `put_hd_buf` of a buffer of the queue keeps it so: a dirty buffer becomes
-- clean only as its block is written.
pub put_hd_buf-IsCoherent :
    (b : HdBuf) (q : Queue)
    → AreDistinct q.bufs
    → At b q.bufs
    → All (IsCoherent q.disk) q.bufs
    → All (IsCoherent (put_hd_buf b q).1.disk) (put_hd_buf b q).1.bufs
unfolding put_hd_buf
put_hd_buf-IsCoherent b q d a v = elim (Bool-cases (b.ref_count == 0)) [
  | inl unused ↦ rw unused v
  | inr used ↦ elim (Bool-cases (b.is_dirty && b.ref_count == 1)) [
    | inl flush ↦ rw used (rw flush (flush-IsCoherent b q.disk q.bufs d a v))
    | inr keep ↦
        rw used (rw keep (All-store (IsCoherent q.disk) b.id given_back q.bufs (λ c k. k) v))
  ]
]
