-- ===== src/HdQueue/Tests.antt =====
-- The theorems on disk buffers at a queue of two.
use c_osiris.Base.{
  ℕ, zero, suc, ◌≡◌, inl, inr, refl, true, false, none, List, [], ◌∷◌, ◌++◌, arith, replicate,
}
use c_osiris.HdQueue.{HdBuf, Disk, Queue, find_block, get_hd_buf, put_hd_buf}
use c_osiris.HdQueue.Blocks.{AreDistinct}
use c_osiris.HdQueue.Store.{All, InUse}
use c_osiris.HdQueue.Coherent.{IsCoherent, get_hd_buf-IsCoherent, put_hd_buf-IsCoherent}

abbrev disk : Disk
disk n = n

abbrev clean : HdBuf
clean = record {
  id = 1;
  block_no = 7;
  is_dirty = false;
  ref_count = 0;
  locked = false;
  contents = 7;
}

abbrev dirty : HdBuf
dirty = record {
  id = 2;
  block_no = 9;
  is_dirty = true;
  ref_count = 1;
  locked = true;
  contents = 100;
}

abbrev queue : Queue
queue = record { bufs = clean ∷ dirty ∷ []; next_id = 3; disk = disk }

distinct : AreDistinct (clean ∷ dirty ∷ [])
distinct = (((λ e. absurd (omega arith)), tt), (tt, tt))

coherent : All (IsCoherent disk) (clean ∷ dirty ∷ [])
coherent = ((λ h. refl), ((λ h. absurd (cc)), tt))

get_hd_buf-IsCoherent_example :
    All (IsCoherent (get_hd_buf 12 queue).1.disk) (get_hd_buf 12 queue).1.bufs
get_hd_buf-IsCoherent_example = get_hd_buf-IsCoherent 12 queue coherent

put_hd_buf-IsCoherent_example :
    All (IsCoherent (put_hd_buf dirty queue).1.disk) (put_hd_buf dirty queue).1.bufs
put_hd_buf-IsCoherent_example =
    put_hd_buf-IsCoherent dirty queue distinct (inr ((λ e. absurd (omega arith)), inl refl))
      coherent

-- The block is on the disk after its last user gives it back.
flushed : (put_hd_buf dirty queue).1.disk 9 ≡ 100
unfolding put_hd_buf
flushed = refl

-- A queue at its limit, all of it in use.
abbrev busy : List HdBuf
busy = replicate 199 dirty

abbrev full : Queue
full = record { bufs = busy ++ (dirty ∷ []); next_id = 3; disk = disk }

busy-InUse : (n : ℕ) → All InUse (replicate n dirty ++ (dirty ∷ []))
busy-InUse zero = (refl, tt)
busy-InUse (suc n) = (refl, busy-InUse n)

not_there : find_block 12 full.bufs ≡ none
unfolding find_block
not_there = refl
