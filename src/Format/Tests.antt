-- ===== src/Format/Tests.antt =====
-- Runs of `vsnprintf`, and the theorems at a short format.
use mathlib.Core.List.{reverse}
use Prim.Native.Nat.{max}
use c_osiris.Base.{
  ◌==◌, if◌then◌else◌, ℕ, ◌+◌, ◌-◌, ◌≡◌, refl, arith, none, some, List, [], ◌∷◌, length, replicate,
}
use c_osiris.Base.Words.{u32_mod}
use c_osiris.Base.Ints.{pos}
use c_osiris.Format.{
  bputc, lay_out, digits_loop, put_all, pad, put_back, Out, fmt_int, prefix, sign_of, put_all,
  magnitude,
}
use c_osiris.Base.Ints.{pos}
use c_osiris.Format.Machine.{
  Env, signed32, vsnprintf, no_flags, run, round, finish, emit, conv_out, get_atoi,
}
use c_osiris.Format.Number.{int_text, int_layout, fmt_int-value, value}
use c_osiris.Format.Rounds.{text, text_of}
use c_osiris.Format.Printed.{Printed, vsnprintf-Printed}

-- The stack has 4294967254, which is -42, and then 7.
abbrev two_words : Env
two_words = record { stack = λ i. if i == 0 then u32_mod - 42 else 7; text_at = λ a. [] }

-- "a%5d%x"
abbrev two_numbers : List ℕ
two_numbers = b'a' ∷ b'%' ∷ b'5' ∷ b'd' ∷ b'%' ∷ b'x' ∷ []

abbrev room : List ℕ
room = replicate 12 1

-- "a  -427", and the NUL.
vsnprintf-two_numbers :
    vsnprintf two_words (some room) 12 two_numbers
    ≡ some (b'a' ∷ b' ' ∷ b' ' ∷ b'-' ∷ b'4' ∷ b'2' ∷ b'7' ∷ 0 ∷ 1 ∷ 1 ∷ 1 ∷ 1 ∷ [], pos 7)
unfolding vsnprintf run round finish emit bputc conv_out fmt_int lay_out digits_loop put_all pad
    put_back get_atoi
vsnprintf-two_numbers = refl

-- It is cut where the buffer ends, and the result is the length of the whole text.
vsnprintf-cut :
    vsnprintf two_words (some room) 4 two_numbers
    ≡ some (b'a' ∷ b' ' ∷ b' ' ∷ 0 ∷ 1 ∷ 1 ∷ 1 ∷ 1 ∷ 1 ∷ 1 ∷ 1 ∷ 1 ∷ [], pos 7)
unfolding vsnprintf run round finish emit bputc conv_out fmt_int lay_out digits_loop put_all pad
    put_back get_atoi
vsnprintf-cut = refl

-- "%hd" takes two words: the next conversion finds the third.
vsnprintf-half :
    vsnprintf two_words none 0 (b'%' ∷ b'h' ∷ b'd' ∷ b'%' ∷ b'd' ∷ []) ≡ some ([], pos 11)
unfolding vsnprintf run round finish emit bputc conv_out fmt_int lay_out digits_loop put_all pad
    put_back get_atoi
vsnprintf-half = refl

-- "ab%": the last character is lost.
vsnprintf-open :
    vsnprintf two_words (some room) 12 (b'a' ∷ b'b' ∷ b'%' ∷ [])
    ≡ some (b'a' ∷ 0 ∷ replicate 10 1, pos 1)
unfolding vsnprintf run round finish emit bputc conv_out fmt_int lay_out digits_loop put_all pad
    put_back get_atoi
vsnprintf-open = refl

vsnprintf-Printed_example :
    (buf' : List ℕ) × (vsnprintf two_words (some room) 4 two_numbers
      ≡ some (buf', signed32 (length (text two_words two_numbers) - 1)))
    × (vsnprintf two_words none 4 two_numbers
        ≡ some ([], signed32 (length (text two_words two_numbers) - 1)))
    × Printed 4 (text two_words two_numbers) room buf'
unfolding text_of int_text round get_atoi digits_loop
vsnprintf-Printed_example =
    vsnprintf-Printed two_words room 4 two_numbers (omega arith) (omega arith) (omega arith)

abbrev empty : Out
empty = record { buf = room; place = 0 }

fmt_int-value_example :
    (nbuf text : List ℕ) × (text
      ≡ int_layout no_flags
          (prefix no_flags 10 (sign_of no_flags (pos 427)))
          (reverse nbuf)
          (5 - (length nbuf + length (prefix no_flags 10 (sign_of no_flags (pos 427))))))
    × (fmt_int 12 (pos 427) 10 5 no_flags empty ≡ put_all 12 text empty)
    × (value 10 nbuf ≡ magnitude no_flags (pos 427))
    × (length text ≡ max 5 (length nbuf + length (prefix no_flags 10 (sign_of no_flags (pos 427)))))
fmt_int-value_example = fmt_int-value 12 (pos 427) 10 5 no_flags empty (omega arith) (omega arith)
