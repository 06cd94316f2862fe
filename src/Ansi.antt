-- ===== src/Ansi.antt =====
-- ansi.c and ansi.h: the state machine that recognises ANSI escape sequences in terminal output.
pub mod Bounds
pub mod Sequence
mod Tests
use c_osiris.Base.{
  ℕ, ◌+◌, ◌-◌, ◌*◌, ◌%◌, ◌^◌, Bool, true, false, ◌&&◌, ◌||◌, List, [], ◌∷◌, ltb, leb, ◌==◌,
  if◌then◌else◌,
}
use c_osiris.Base.Words.{u32_mod}

-- `ansi_stat_t`.
pub data Stat : Type 0 where
  none in_esc in_bra in_num1 in_num2 in_fin : Stat

-- The value that C gives to an enumerator.
abbrev pub rank : Stat → ℕ
rank none = 0
rank in_esc = 1
rank in_bra = 2
rank in_num1 = 3
rank in_num2 = 4
rank in_fin = 5

-- `struct ansi_stat`. A `char` is its code: those above 127 are negative in C and pass none of the
-- tests below, nor do they here.
pub record Ansi : Type 0 where
  pub stat : Stat
  pub n1 : ℕ
  pub n2 : ℕ
  pub c1 : ℕ
  pub c2 : ℕ
  pub cnt : ℕ

abbrev pub zeroed : Ansi
zeroed = record { stat = none; n1 = 0; n2 = 0; c1 = 0; c2 = 0; cnt = 0 }

abbrev pub esc : ℕ
esc = 27

abbrev pub max_chars : ℕ
max_chars = 10

abbrev pub is_digit : ℕ → Bool
is_digit c = leb b'0' c && leb c b'9'

-- What may end a sequence: a letter or a tilde.
abbrev pub is_final : ℕ → Bool
is_final c = (leb b'A' c && leb c b'Z') || (leb b'a' c && leb c b'z') || c == b'~'

-- `n * 10 + c - '0'` on `uint32_t`.
abbrev pub push_digit : ℕ → ℕ → ℕ
push_digit n c = (n * 10 + c + u32_mod - b'0') % u32_mod

-- What follows the count and the reset.
pub transition : Ansi → ℕ → Ansi
transition st c =
    if rank st.stat == 0 && c == esc
    then record st { stat = in_esc }
    else if rank st.stat == 1 && (c == b'[' || c == b'O' || c == b'c')
    then if c == b'O'
      then record st { c2 = b'O'; stat = in_bra }
      else if c == b'c'
      then record st { c1 = c; stat = in_fin }
      else record st { stat = in_bra }
    else if rank st.stat == 2 && is_digit c
    then record st { n1 = c - b'0'; stat = in_num1 }
    else if rank st.stat == 2 && c == b'?'
    then record st { c2 = b'?'; stat = in_num1 }
    else if rank st.stat == 3 && is_digit c
    then record st { n1 = push_digit st.n1 c }
    else if rank st.stat == 3 && c == b';'
    then record st { n2 = 0; stat = in_num2 }
    else if rank st.stat == 4 && is_digit c
    then record st { n2 = push_digit st.n2 c }
    else if ltb 1 (rank st.stat) && ltb (rank st.stat) 5 && is_final c
    then record st { c1 = c; stat = in_fin }
    else record st { cnt = 0; stat = none }

-- `cnt++` on a byte, and the reset behind a finished or an overlong sequence.
pub advance : Ansi → Ansi
advance st =
    if rank st.stat == 5 || ltb max_chars ((st.cnt + 1) % 256)
    then zeroed
    else record st { cnt = (st.cnt + 1) % 256 }

-- `ansi_stat_switch`; the status that it returns is the new `stat`.
pub switch : Ansi → ℕ → Ansi
unfolding transition advance
switch st c = transition (advance st) c

-- The machine fed with a text.
pub feed : Ansi → List ℕ → Ansi
feed st [] = st
feed st (c ∷ cs) = feed (switch st c) cs
