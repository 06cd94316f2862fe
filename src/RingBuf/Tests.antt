-- ===== src/RingBuf/Tests.antt =====
-- Runs of the ring, and the theorems at a ring of four bytes whose counters are about to wrap.
use c_osiris.Base.{◌-◌, ◌≡◌, refl, arith, [], ◌∷◌}
use c_osiris.Base.Words.{u32_mod}
use c_osiris.RingBuf.{RingBuf}
use c_osiris.RingBuf.Refine.{IsValid, contents}

abbrev wrapping : RingBuf
wrapping = record { buf = 5 ∷ 6 ∷ 7 ∷ 8 ∷ []; head = 1; tail = u32_mod - 1; size = 4 }

wrapping-IsValid : IsValid wrapping
wrapping-IsValid = record {
  head_word = omega arith;
  tail_word = omega arith;
  memory = omega arith;
  sized = omega arith;
  small = omega arith;
  fits = omega arith;
  turns = 1073741824;
  divides = refl;
}

contents-wrapping : contents wrapping ≡ 8 ∷ 5 ∷ []
contents-wrapping = refl
