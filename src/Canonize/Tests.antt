-- ===== src/Canonize/Tests.antt =====
-- Runs of canonize.c.
use c_osiris.Base.{◌≡◌, refl, some, [], arith, ◌∷◌}
use c_osiris.Canonize.Bounds.{IsEnded, canonize_path-IsEnded}
use c_osiris.Canonize.Plain.{clean_path-plain}
use c_osiris.Canonize.{clean_path, canonize_path}

names :
    clean_path (b'/' ∷ b'a' ∷ b'/' ∷ b'/' ∷ b'b' ∷ b'/' ∷ [])
    ≡ some (b'/' ∷ b'a' ∷ b'/' ∷ b'b' ∷ 0 ∷ 0 ∷ 0 ∷ [])
unfolding clean_path c_osiris.Canonize.clean_turn c_osiris.Canonize.turn
names = refl

-- The slash behind `..` is passed over, with what it would have put.
root_up :
    clean_path (b'/' ∷ b'.' ∷ b'.' ∷ b'/' ∷ b'x' ∷ [])
    ≡ some (b'x' ∷ 0 ∷ b'.' ∷ b'/' ∷ b'x' ∷ 0 ∷ [])
unfolding clean_path c_osiris.Canonize.clean_turn c_osiris.Canonize.turn
root_up = refl

up_twice :
    clean_path
      (b'/' ∷ b'a' ∷ b'/' ∷ b'b' ∷ b'/' ∷ b'.' ∷ b'.' ∷ b'/' ∷ b'.' ∷ b'.' ∷ b'/' ∷ b'c' ∷ [])
    ≡ some (b'/' ∷ b'a' ∷ b'/' ∷ b'.' ∷ b'.' ∷ b'/' ∷ b'c' ∷ 0 ∷ b'.' ∷ b'.' ∷ b'/' ∷ b'c' ∷ 0 ∷ [])
unfolding clean_path c_osiris.Canonize.clean_turn c_osiris.Canonize.turn
up_twice = refl

up_this :
    clean_path (b'/' ∷ b'a' ∷ b'/' ∷ b'b' ∷ b'/' ∷ b'.' ∷ b'.' ∷ b'/' ∷ b'.' ∷ b'/' ∷ b'c' ∷ [])
    ≡ some (b'/' ∷ b'a' ∷ b'/' ∷ b'.' ∷ b'/' ∷ b'c' ∷ 0 ∷ b'/' ∷ b'.' ∷ b'/' ∷ b'c' ∷ 0 ∷ [])
unfolding clean_path c_osiris.Canonize.clean_turn c_osiris.Canonize.turn
up_this = refl

up_slash :
    clean_path (b'/' ∷ b'a' ∷ b'/' ∷ b'b' ∷ b'/' ∷ b'.' ∷ b'.' ∷ b'/' ∷ b'/' ∷ b'c' ∷ [])
    ≡ some (b'/' ∷ b'a' ∷ b'/' ∷ b'/' ∷ b'c' ∷ 0 ∷ b'.' ∷ b'/' ∷ b'/' ∷ b'c' ∷ 0 ∷ [])
unfolding clean_path c_osiris.Canonize.clean_turn c_osiris.Canonize.turn
up_slash = refl

root_twice :
    clean_path (b'/' ∷ b'.' ∷ b'.' ∷ b'/' ∷ b'.' ∷ b'.' ∷ [])
    ≡ some (b'.' ∷ b'.' ∷ 0 ∷ b'/' ∷ b'.' ∷ b'.' ∷ 0 ∷ [])
unfolding clean_path c_osiris.Canonize.clean_turn c_osiris.Canonize.turn
root_twice = refl

relative : canonize_path (b'/' ∷ []) (b'a' ∷ []) ≡ some (b'/' ∷ b'a' ∷ 0 ∷ 0 ∷ [])
unfolding canonize_path c_osiris.Canonize.clean_turn c_osiris.Canonize.turn
relative = refl

canonize_path-IsEnded_example : IsEnded 5 (canonize_path (b'/' ∷ b'b' ∷ []) (b'.' ∷ b'.' ∷ []))
canonize_path-IsEnded_example = canonize_path-IsEnded (b'/' ∷ b'b' ∷ []) (b'.' ∷ b'.' ∷ []) refl

clean_path-plain_example :
    clean_path (b'/' ∷ b'a' ∷ b'/' ∷ b'.' ∷ b'b' ∷ [])
    ≡ some (b'/' ∷ b'a' ∷ b'/' ∷ b'.' ∷ b'b' ∷ 0 ∷ [])
clean_path-plain_example =
    clean_path-plain (b'/' ∷ b'a' ∷ b'/' ∷ b'.' ∷ b'b' ∷ []) (omega arith) refl
