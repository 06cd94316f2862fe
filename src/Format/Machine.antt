-- ===== src/Format/Machine.antt =====
-- lib/vsnprintf.c: the machine over the format. Each round reads a character, which it may give back.
use c_osiris.Base.{
  ℕ, zero, suc, ◌+◌, ◌-◌, ◌*◌, ◌%◌, ◌^◌, Bool, true, false, ◌&&◌, ◌||◌, Option, none, some, List,
  [], ◌∷◌, ltb, leb, ◌==◌, if◌then◌else◌, length, set,
}
use c_osiris.Base.Ints.{ℤ, pos, negsuc}
use c_osiris.Base.Words.{u32_mod, sub32}
use c_osiris.CString.{first_char, rest_of}
use c_osiris.Format.{Out, Flags, bputc, fmt_int, fmt_str, fmt_chr}

pub data State : Type 0 where
  s_default : State
  s_flags : State
  s_width : State
  s_precis : State
  s_length : State
  s_conv : State

-- The words of the stack from the first argument on, and the string at an address.
pub record Env : Type 0 where
  pub stack : ℕ → ℕ
  pub text_at : ℕ → List ℕ

-- The variables of the loop, but for those of the output. `rest` is `fmt`, up to its NUL, and `ap`
-- the number of words that are taken from the stack.
pub record Control : Type 0 where
  pub state : State
  pub rest : List ℕ
  pub flags : Flags
  pub width : ℕ
  pub lflags : ℕ
  pub ap : ℕ

abbrev pub no_flags : Flags
no_flags = record {
  alternate = false;
  zeropad = false;
  left = false;
  space = false;
  plus = false;
  signed = false;
  small = false;
}

abbrev pub signed32 : ℕ → ℤ
signed32 w = if ltb w (2 ^ 31) then pos w else negsuc (u32_mod - 1 - w)

abbrev pub signed64 : ℕ → ℕ → ℤ
signed64 low high =
    let w = low + high * u32_mod in if ltb high (2 ^ 31) then pos w else negsuc (2 ^ 64 - 1 - w)

abbrev pub is_digit : ℕ → Bool
is_digit c = leb b'0' c && leb c b'9'

unfoldable pub get_atoi : ℕ → List ℕ → ℕ × List ℕ
get_atoi n [] = (n, [])
get_atoi n (c ∷ s) =
    let more = get_atoi (n * 10 + (c - b'0')) s in if is_digit c then more else (n, c ∷ s)

abbrev pub l_char : ℕ
l_char = 1

abbrev pub l_short : ℕ
l_short = 2

abbrev pub l_long : ℕ
l_long = 3

abbrev pub l_llong : ℕ
l_llong = 4

abbrev pub l_double : ℕ
l_double = 5

-- `lflags & (L_LLONG | L_DOUBLE)`: the values are no bits, so `L_CHAR` passes this test too.
abbrev pub is_wide : ℕ → Bool
is_wide l = l == l_char || l == l_long || l == l_llong || l == l_double

abbrev pub is_signed : ℕ → Bool
is_signed c = c == b'd' || c == b'i'

abbrev pub is_number : ℕ → Bool
is_number c = is_signed c || c == b'o' || c == b'b' || c == b'u' || c == b'x' || c == b'X'

abbrev pub base_of : ℕ → ℕ
base_of c =
    if c == b'x' || c == b'X' then 16 else if c == b'o' then 8 else if c == b'b' then 2 else 10

-- The number of a conversion, and the words that it takes.
abbrev pub read_number : Env → Control → ℕ → ℤ × ℕ
read_number e k c =
    let w = e.stack k.ap in
    if k.lflags == l_long
    then (signed32 w, 1)
    else if is_wide k.lflags
    then (signed64 w (e.stack (k.ap + 1)), 2)
    else if is_signed c
    then (signed32 w, 1)
    else (pos w, 1)

abbrev pub number_flags : Flags → ℕ → Flags
number_flags f c = record f { signed = f.signed || is_signed c; small = f.small || c == b'x' }

-- A round in each state, at the character `c`, with `back` the format from it on: the variables
-- behind the round, and `c` at its end.
abbrev pub flags_round : Control → List ℕ → ℕ → Control
flags_round k back c =
    let f = k.flags in
    if c == b'#'
    then record k { flags = record f { alternate = true } }
    else if c == b'0'
    then record k { flags = record f { zeropad = true } }
    else if c == b'-'
    then record k { flags = record f { left = true } }
    else if c == b' '
    then record k { flags = record f { space = true } }
    else if c == b'+'
    then record k { flags = record f { plus = true } }
    else if c == b'\'' || c == b'I'
    then k
    else record k { state = s_width; rest = back; width = 0 }

abbrev pub star_width : Control → ℤ → Control
star_width k (pos n) = record k { width = n; ap = k.ap + 1 }
star_width k (negsuc n) = record k {
  width = n + 1;
  ap = k.ap + 1;
  flags = record k.flags { left = true };
}

abbrev pub width_round : Env → Control → List ℕ → ℕ → Control
width_round e k back c =
    if c == b'*'
    then star_width k (signed32 (e.stack k.ap))
    else if is_digit c && ltb b'0' c
    then (let n = get_atoi 0 back in record k { width = n.0; rest = n.1 })
    else record k { state = s_precis; rest = back }

-- The precision is read and not used; `*` is read for its argument, and left in the format.
abbrev pub precis_round : Control → List ℕ → ℕ → Control
precis_round k back c =
    let k' = record k { state = s_length; lflags = 0 } in
    if c == b'.'
    then if is_digit (first_char k.rest)
      then record k' { rest = (get_atoi 0 k.rest).1 }
      else if first_char k.rest == b'*'
      then record k' { ap = k.ap + 1 }
      else k'
    else record k' { rest = back }

abbrev pub length_round : Control → List ℕ → ℕ → Control
length_round k back c =
    if c == b'h'
    then record k { lflags = if k.lflags == l_char then l_short else l_char }
    else if c == b'l'
    then record k { lflags = if k.lflags == l_long then l_llong else l_long }
    else if c == b'L'
    then record k { lflags = l_double }
    else record k { state = s_conv; rest = back }

abbrev pub conv_round : Env → Control → ℕ → Control × ℕ
conv_round e k c =
    let k' = record k { state = s_default } in
    if is_number c
    then (record k' { ap = k.ap + (read_number e k c).1 }, c)
    else if c == b'p' || c == b's'
    then (record k' { ap = k.ap + 1 }, c)
    else if c == b'c'
    then (record k' { ap = k.ap + 1 }, e.stack k.ap % 256)
    else (k', c)

abbrev pub round_in : State → Env → Control → List ℕ → ℕ → Control × ℕ
round_in s_default e k back c =
    (if c == b'%' then record k { state = s_flags; flags = no_flags } else k, c)
round_in s_flags e k back c = (flags_round k back c, c)
round_in s_width e k back c = (width_round e k back c, c)
round_in s_precis e k back c = (precis_round k back c, c)
round_in s_length e k back c = (length_round k back c, c)
round_in s_conv e k back c = conv_round e k c

unfoldable pub round : Env → Control → Control × ℕ
round e k = round_in k.state e (record k { rest = rest_of k.rest }) k.rest (first_char k.rest)

-- `s`, or what stands for NULL.
abbrev pub null_text : List ℕ
null_text = b'(' ∷ b'n' ∷ b'u' ∷ b'l' ∷ b'l' ∷ b')' ∷ []

abbrev pub string_at : Env → ℕ → List ℕ
string_at e a = if a == 0 then null_text else e.text_at a

-- What the round writes.
unfoldable pub conv_out : ℕ → Env → Control → ℕ → Out → Out
conv_out limit e k c o =
    if is_number c
    then fmt_int limit (read_number e k c).0 (base_of c) k.width (number_flags k.flags c) o
    else if c == b'p'
    then fmt_int limit (pos (e.stack k.ap)) 16 k.width
        (record k.flags { small = true; alternate = true }) o
    else if c == b's'
    then fmt_str limit (string_at e (e.stack k.ap)) k.width k.flags o
    else if c == b'c'
    then fmt_chr limit (e.stack k.ap % 256) k.width k.flags o
    else if c == b'%'
    then bputc limit c o
    else bputc limit c (bputc limit b'%' o)

abbrev pub out_in : State → ℕ → Env → Control → ℕ → Out → Out
out_in s_default limit e k c o = if c == b'%' then o else bputc limit c o
out_in s_conv limit e k c o = conv_out limit e k c o
out_in s_flags limit e k c o = o
out_in s_width limit e k c o = o
out_in s_precis limit e k c o = o
out_in s_length limit e k c o = o

unfoldable pub emit : ℕ → Env → Control → Out → Out
emit limit e k o = out_in k.state limit e k (first_char k.rest) o

-- The loop; `none` stands for no end within the fuel.
unfoldable pub run : ℕ → ℕ → Env → Control → Out → Option Out
run zero limit e k o = none
run (suc fuel) limit e k o =
    let o' = emit limit e k o in
    let rest = run fuel limit e (round e k).0 o' in if (round e k).1 == 0 then some o' else rest

-- The variables at the start: those of a conversion are set by it before they are read.
abbrev pub start : List ℕ → Control
start fmt = record {
  state = s_default;
  rest = fmt;
  flags = no_flags;
  width = 0;
  lflags = 0;
  ap = 0;
}

-- The end of `vsnprintf`: the NUL, and the length of the text as an `int`.
unfoldable pub finish : ℕ → Out → List ℕ × ℤ
finish size o =
    let n = sub32 o.place 1 in
    (
      if ltb n size then set o.buf n 0 else if ltb 0 size then set o.buf (size - 1) 0 else o.buf,
      signed32 n,
    )

abbrev pub size_of : Option (List ℕ) → ℕ → ℕ
size_of none size = 0
size_of (some buf) size = size

abbrev pub bytes_of : Option (List ℕ) → List ℕ
bytes_of none = []
bytes_of (some buf) = buf

-- Each character of the format is read in at most six rounds.
abbrev pub enough : List ℕ → ℕ
enough fmt = 6 * length fmt + 6

abbrev pub finish_if : ℕ → Option Out → Option (List ℕ × ℤ)
finish_if limit none = none
finish_if limit (some o) = some (finish limit o)

-- `vsnprintf` into a buffer, or into NULL: the bytes of the buffer, and the result.
unfoldable pub vsnprintf : Env → Option (List ℕ) → ℕ → List ℕ → Option (List ℕ × ℤ)
vsnprintf e buf size fmt =
    let limit = size_of buf size in
    finish_if limit
      (run (enough fmt) limit e (start fmt) (record { buf = bytes_of buf; place = 0 }))
