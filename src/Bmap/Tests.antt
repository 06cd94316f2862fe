-- ===== src/Bmap/Tests.antt =====
-- Runs of the bitmap, and its theorems at a map of 64 bits of which the last word is full.
use c_osiris.Base.{◌≡◌, refl, arith, some, [], ◌∷◌}
use c_osiris.Bmap.{Bmap, alloc, get_free}
use c_osiris.Bmap.Alloc.{IsValid, Outcome, get_free-Outcome}

abbrev half : Bmap
half = record { size = 64; last = 40; words = 0b10111 ∷ 0xFFFFFFFF ∷ [] }

half-IsValid : IsValid half
half-IsValid = omega arith

get_free-half : (get_free half).0 ≡ some 3
unfolding get_free
get_free-half = refl

get_free-alloc : (get_free (alloc 1024)).0 ≡ some 0
unfolding get_free alloc
get_free-alloc = refl

get_free-Outcome_example : Outcome half 0 64 (get_free half)
get_free-Outcome_example = get_free-Outcome half half-IsValid
