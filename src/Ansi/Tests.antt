-- ===== src/Ansi/Tests.antt =====
-- Runs of the machine, and its theorems at them.
use c_osiris.Base.{◌≡◌, refl, arith, [], ◌∷◌}
use c_osiris.Ansi.{none, in_num2, in_fin, esc, zeroed, switch, feed}
use c_osiris.Ansi.Bounds.{machine, IsBounded, switch-IsBounded}

cursor_move :
    feed zeroed (esc ∷ b'[' ∷ b'1' ∷ b'2' ∷ b';' ∷ b'7' ∷ b'H' ∷ []) ≡ machine in_fin 12 7 b'H' 0 7
unfolding feed switch
cursor_move = refl

reset_terminal : feed zeroed (esc ∷ b'c' ∷ []) ≡ machine in_fin 0 0 b'c' 0 2
unfolding feed switch
reset_terminal = refl

-- An aborted sequence leaves its number.
aborted : feed zeroed (esc ∷ b'[' ∷ b'1' ∷ b'2' ∷ b'!' ∷ []) ≡ machine none 12 0 0 0 0
unfolding feed switch
aborted = refl

switch-IsBounded_example : IsBounded (switch (machine in_num2 1 99999 0 0 8) b'9')
switch-IsBounded_example = switch-IsBounded (machine in_num2 1 99999 0 0 8) b'9' (omega arith)
