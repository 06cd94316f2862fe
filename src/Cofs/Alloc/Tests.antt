-- ===== src/Cofs/Alloc/Tests.antt =====
-- The bitmap on a small disk.
use c_osiris.Base.{ℕ, ◌≡◌, refl, Option, none, some}
use c_osiris.Cofs.{Disk}
use c_osiris.Cofs.Sample.{small_sb, small_disk, small-IsBytes, small-IsSound}
use c_osiris.Cofs.Alloc.{block_alloc}
use c_osiris.Cofs.Alloc.Outcome.{Outcome, block_alloc-Outcome}

abbrev number_of : Option (ℕ × Disk) → ℕ
number_of none = 0
number_of (some (n, d)) = n

first_free : number_of (block_alloc small_sb small_disk) ≡ 4
unfolding block_alloc
first_free = refl

block_alloc-Outcome_example : Outcome small_sb small_disk (block_alloc small_sb small_disk)
block_alloc-Outcome_example = block_alloc-Outcome small_sb small_disk small-IsBytes small-IsSound
