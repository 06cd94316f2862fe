-- ===== src/Format.antt =====
-- lib/vsnprintf.c: formatted output into a buffer with a limit. Characters are bytes; the arguments
-- are the words of the stack, as the i386 passes them.
pub mod Number
pub mod Buffer
pub mod Machine
pub mod Rounds
pub mod Printed
mod Tests
use c_osiris.Base.{
  ℕ, zero, suc, ◌+◌, ◌-◌, ◌/◌, ◌%◌, ◌^◌, Bool, true, false, ◌&&◌, ◌||◌, not, List, [], ◌∷◌, ◌++◌,
  ltb, leb, ◌==◌, if◌then◌else◌, length, set,
}
use c_osiris.Base.Ints.{ℤ, pos, negsuc}
use c_osiris.Base.Words.{u32_mod, add32}

-- The buffer, and the place of the next character.
pub record Out : Type 0 where
  pub buf : List ℕ
  pub place : ℕ

unfoldable pub bputc : ℕ → ℕ → Out → Out
bputc limit c o = record {
  buf = if ltb o.place limit then set o.buf o.place c else o.buf;
  place = add32 o.place 1;
}

-- The flags, one bit each in the source.
pub record Flags : Type 0 where
  pub alternate : Bool
  pub zeropad : Bool
  pub left : Bool
  pub space : Bool
  pub plus : Bool
  pub signed : Bool
  pub small : Bool

-- The loops over the characters of a string and over the padding.
unfoldable pub put_all : ℕ → List ℕ → Out → Out
put_all limit [] o = o
put_all limit (c ∷ cs) o = put_all limit cs (bputc limit c o)

unfoldable pub pad : ℕ → ℕ → ℕ → Out → Out
pad limit zero c o = o
pad limit (suc n) c o = pad limit n c (bputc limit c o)

abbrev pub low_word : ℤ → ℕ
low_word (pos n) = n % u32_mod
low_word (negsuc n) = u32_mod - 1 - n % u32_mod

abbrev pub is_negative : ℤ → Bool
is_negative (pos n) = false
is_negative (negsuc n) = true

-- `n = -num`, in 32 bits.
abbrev pub negated_word : ℤ → ℕ
negated_word (pos n) = (u32_mod - n % u32_mod) % u32_mod
negated_word (negsuc n) = (n + 1) % u32_mod

abbrev pub magnitude : Flags → ℤ → ℕ
magnitude f num = if f.signed && is_negative num then negated_word num else low_word num

-- The sign, 0 for none.
abbrev pub sign_of : Flags → ℤ → ℕ
sign_of f num =
    if f.signed && is_negative num
    then b'-'
    else if f.plus
    then b'+'
    else if f.space
    then b' '
    else 0

abbrev pub digit : Bool → ℕ → ℕ
digit small d = if ltb d 10 then d + 48 else if small then d + 87 else d + 55

-- The digits in `nbuf`, the last of the number first. A number of 32 bits has at most 32 of them.
unfoldable pub digits_loop : ℕ → Bool → ℕ → ℕ → List ℕ
digits_loop zero small base n = []
digits_loop (suc fuel) small base n =
    let more = digits_loop fuel small base (n / base) in
    digit small (n % base) ∷ (if ltb 0 (n / base) then more else [])

abbrev pub max_digits : ℕ
max_digits = 32

-- `altb`: the sign, and what shows the base.
abbrev pub prefix : Flags → ℕ → ℕ → List ℕ
prefix f base sign =
    (if sign == 0 then [] else sign ∷ [])
    ++ (if f.alternate && (base == 8 || base == 16)
        then b'0' ∷ (if base == 16 then (if f.small then b'x' else b'X') ∷ [] else [])
        else [])

-- The loop from the end of `nbuf` to its start.
unfoldable pub put_back : ℕ → List ℕ → Out → Out
put_back limit [] o = o
put_back limit (c ∷ cs) o = bputc limit c (put_back limit cs o)

-- The output of `fmt_int` for the prefix, the digits and the padding.
unfoldable pub lay_out : ℕ → Flags → List ℕ → List ℕ → ℕ → Out → Out
unfolding put_all pad put_back
lay_out limit f altb nbuf npad o =
    let padded = ltb 0 npad && not f.left in
    let zeros = not f.left && f.zeropad in
    let before =
      if padded
      then if zeros then pad limit npad b'0' (put_all limit altb o) else pad limit npad b' ' o
      else o in
    let signed = if padded && zeros then before else put_all limit altb before in
    let done = put_back limit nbuf signed in
    if ltb 0 npad && f.left then pad limit npad b' ' done else done

unfoldable pub fmt_int : ℕ → ℤ → ℕ → ℕ → Flags → Out → Out
unfolding lay_out digits_loop
fmt_int limit num base width f o =
    let altb = prefix f base (sign_of f num) in
    let nbuf = digits_loop max_digits f.small base (magnitude f num) in
    if ltb base 2 || ltb 16 base
    then o
    else lay_out limit f altb nbuf (width - (length nbuf + length altb)) o

unfoldable pub fmt_str : ℕ → List ℕ → ℕ → Flags → Out → Out
unfolding pad put_all
fmt_str limit s width f o =
    let npad = width - length s in
    let before = if not f.left then pad limit npad b' ' o else o in
    let done = put_all limit s before in if f.left then pad limit npad b' ' done else done

unfoldable pub fmt_chr : ℕ → ℕ → ℕ → Flags → Out → Out
unfolding pad
fmt_chr limit c width f o =
    let npad = width - 1 in
    let before = if not f.left then pad limit npad b' ' o else o in
    let done = bputc limit c before in if f.left then pad limit npad b' ' done else done
