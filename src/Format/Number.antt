-- ===== src/Format/Number.antt =====
-- What the conversions of lib/vsnprintf.c write, as text: the number, the padding, and their order.
use Prim.Native.Nat.{max}
use mathlib.Core.List.{reverse, reverse-cons, append-nil}
use c_osiris.Base.{
  ℕ, zero, suc, ◌+◌, ◌-◌, ◌*◌, ◌/◌, ◌%◌, ◌^◌, ◌≤◌, ◌<◌, ◌≡◌, refl, sym, ap, ◌∙◌, Bool, false, List,
  [], ◌∷◌, ◌++◌, ltb, ◌||◌, if◌then◌else◌, length, replicate, arith, length-append,
  length-replicate,
}
use mathlib.Core.Logic.{◌⊎◌, inl, inr}
use native.Mathlib.Nat.{div-add-mod, mod-lt}
use c_osiris.Base.Ints.{ℤ, pos, negsuc}
use c_osiris.Format.{
  Out, Flags, bputc, put_all, pad, put_back, lay_out, fmt_int, fmt_str, fmt_chr, prefix, sign_of,
  digits_loop, digit, max_digits, magnitude,
}

pub put_all-append :
    (limit : ℕ) (xs ys : List ℕ) (o : Out)
    → put_all limit (xs ++ ys) o ≡ put_all limit ys (put_all limit xs o)
unfolding put_all
put_all-append limit [] ys o = refl
put_all-append limit (x ∷ xs) ys o = put_all-append limit xs ys (bputc limit x o)

pub pad_lem : (limit n c : ℕ) (o : Out) → pad limit n c o ≡ put_all limit (replicate n c) o
unfolding pad put_all
pad_lem limit zero c o = refl
pad_lem limit (suc n) c o = pad_lem limit n c (bputc limit c o)

put_back_lem :
    (limit : ℕ) (cs : List ℕ) (o : Out) → put_back limit cs o ≡ put_all limit (reverse cs) o
unfolding put_back put_all
put_back_lem limit [] o = refl
put_back_lem limit (c ∷ cs) o =
    ap (bputc limit c) (put_back_lem limit cs o)
    ∙ sym (put_all-append limit (reverse cs) (c ∷ []) o)
    ∙ ap (λ l. put_all limit l o) (sym (reverse-cons c cs))

-- The text of a number: spaces in front of the prefix, zeros behind it, or spaces at the end.
abbrev pub int_layout : Flags → List ℕ → List ℕ → ℕ → List ℕ
int_layout f altb body npad =
    if f.left
    then altb ++ (body ++ replicate npad b' ')
    else if f.zeropad
    then altb ++ (replicate npad b'0' ++ body)
    else replicate npad b' ' ++ (altb ++ body)

lay_out_lem :
    (limit : ℕ) (f : Flags) (altb nbuf : List ℕ) (npad : ℕ) (o : Out)
    → lay_out limit f altb nbuf npad o ≡ put_all limit (int_layout f altb (reverse nbuf) npad) o
unfolding lay_out
lay_out_lem limit f altb nbuf zero o =
    let r : List ℕ = reverse nbuf in
    ground (
      arith,
      put_back_lem limit nbuf (put_all limit altb o),
      put_all-append limit altb r o,
      put_all-append limit altb (r ++ []) o,
      append-nil r,
    )
lay_out_lem limit f altb nbuf (suc n) o =
    let r : List ℕ = reverse nbuf in
    let k : ℕ = suc n in
    let spaces : List ℕ = replicate k b' ' in
    let zeros : List ℕ = replicate k b'0' in
    let start = put_all limit altb o in
    ground (
      arith,
      put_back_lem limit nbuf start,
      pad_lem limit k b' ' (put_all limit r start),
      put_all-append limit altb (r ++ spaces) o,
      put_all-append limit r spaces start,
      pad_lem limit k b'0' start,
      put_back_lem limit nbuf (put_all limit zeros start),
      put_all-append limit altb (zeros ++ r) o,
      put_all-append limit zeros r start,
      pad_lem limit k b' ' o,
      put_all-append limit spaces (altb ++ r) o,
      put_all-append limit altb r (put_all limit spaces o),
      put_back_lem limit nbuf (put_all limit altb (put_all limit spaces o)),
    )

unfoldable pub int_text : ℤ → ℕ → ℕ → Flags → List ℕ
int_text num base width f =
    let altb = prefix f base (sign_of f num) in
    let nbuf = digits_loop max_digits f.small base (magnitude f num) in
    int_layout f altb (reverse nbuf) (width - (length nbuf + length altb))

pub fmt_int_lem :
    (limit : ℕ) (num : ℤ) (base width : ℕ) (f : Flags) (o : Out)
    → 2 ≤ base
    → base ≤ 16
    → fmt_int limit num base width f o ≡ put_all limit (int_text num base width f) o
unfolding fmt_int int_text
fmt_int_lem limit num base width f o lo hi =
    let e : (ltb base 2 || ltb 16 base) ≡ false = ground arith in
    rw e (
      lay_out_lem limit f (prefix f base (sign_of f num))
        (digits_loop max_digits f.small base (magnitude f num))
        (width
          - (length (digits_loop max_digits f.small base (magnitude f num))
              + length (prefix f base (sign_of f num))))
        o)

-- The text of a string or of a character: it is at the end of its field, or with `-` at its start.
abbrev pub str_layout : Flags → List ℕ → ℕ → List ℕ
str_layout f s npad = if f.left then s ++ replicate npad b' ' else replicate npad b' ' ++ s

pub fmt_str_lem :
    (limit : ℕ) (s : List ℕ) (width : ℕ) (f : Flags) (o : Out)
    → fmt_str limit s width f o ≡ put_all limit (str_layout f s (width - length s)) o
unfolding fmt_str
fmt_str_lem limit s width f o =
    let k : ℕ = width - length s in
    let spaces : List ℕ = replicate k b' ' in
    ground (
      arith,
      pad_lem limit k b' ' o,
      pad_lem limit k b' ' (put_all limit s o),
      put_all-append limit spaces s o,
      put_all-append limit s spaces o,
    )

pub fmt_chr_lem :
    (limit c width : ℕ) (f : Flags) (o : Out)
    → fmt_chr limit c width f o ≡ put_all limit (str_layout f (c ∷ []) (width - 1)) o
unfolding fmt_chr put_all
fmt_chr_lem limit c width f o =
    let k : ℕ = width - 1 in
    let spaces : List ℕ = replicate k b' ' in
    let one : List ℕ = c ∷ [] in
    ground (
      arith,
      pad_lem limit k b' ' o,
      pad_lem limit k b' ' (bputc limit c o),
      put_all-append limit spaces one o,
      put_all-append limit one spaces o,
    )

-- The number that digits stand for, the last of the number first.
abbrev pub digit_value : ℕ → ℕ
digit_value c = if ltb c 58 then c - 48 else if ltb c 71 then c - 55 else c - 87

abbrev pub value : ℕ → List ℕ → ℕ
value base [] = 0
value base (c ∷ cs) = digit_value c + base * value base cs

digit_value-digit : (small : Bool) (d : ℕ) → d < 16 → digit_value (digit small d) ≡ d
digit_value-digit small d h = ground arith

twice_div-le : (base n : ℕ) → 2 ≤ base → 2 * (n / base) ≤ n
twice_div-le base n lo =
    let q : ℕ = n / base in
    let d : base * q + n % base ≡ n = div-add-mod n base in
    let m : 2 * q ≤ base * q = grind arith in omega arith

low_digit :
    (small : Bool) (base n : ℕ)
    → 2 ≤ base
    → base ≤ 16
    → digit_value (digit small (n % base)) ≡ n % base
low_digit small base n lo hi =
    digit_value-digit small (n % base) (omega (arith, mod-lt n {m = base} (omega arith)))

value-digits_loop_step :
    (fuel : ℕ) (small : Bool) (base n : ℕ)
    → 2 ≤ base
    → base ≤ 16
    → (value base (digits_loop fuel small base (n / base)) ≡ n / base) ⊎ (n / base ≡ 0)
    → value base (digits_loop (suc fuel) small base n) ≡ n
unfolding digits_loop
value-digits_loop_step fuel small base n lo hi (inl more) =
    let d : base * (n / base) + n % base ≡ n = div-add-mod n base in
    let low = low_digit small base n lo hi in ground (arith, low, more, d)
value-digits_loop_step fuel small base n lo hi (inr done) =
    let d : base * (n / base) + n % base ≡ n = div-add-mod n base in
    let low = low_digit small base n lo hi in ground (arith, low, done, d)

-- With a round for each bit of the number, the digits that `fmt_int` makes stand for the number.
pub value-digits_loop :
    (fuel : ℕ) (small : Bool) (base n : ℕ)
    → 2 ≤ base
    → base ≤ 16
    → n < 2 ^ suc fuel
    → value base (digits_loop (suc fuel) small base n) ≡ n
value-digits_loop zero small base n lo hi h =
    value-digits_loop_step zero small base n lo hi (inr (omega (arith, twice_div-le base n lo)))
value-digits_loop (suc fuel) small base n lo hi h =
    value-digits_loop_step (suc fuel) small base n lo hi (
      inl (
        value-digits_loop fuel small base (n / base) lo hi (omega (arith, twice_div-le base n lo))))

length-reverse : (l : List ℕ) → length (reverse l) ≡ length l
length-reverse [] = refl
length-reverse (x ∷ l) =
    ap length (reverse-cons x l)
    ∙ length-append (reverse l) (x ∷ [])
    ∙ omega (arith, length-reverse l)

magnitude-lt : (f : Flags) (num : ℤ) → magnitude f num < 2 ^ 32
magnitude-lt f (pos n) = ground arith
magnitude-lt f (negsuc n) = ground arith

length-int_layout :
    (f : Flags) (altb body : List ℕ) (npad : ℕ)
    → length (int_layout f altb body npad) ≡ length altb + length body + npad
length-int_layout f altb body npad =
    let zeros : List ℕ = replicate npad b'0' in
    let spaces : List ℕ = replicate npad b' ' in
    ground (
      arith,
      length-append altb (body ++ spaces),
      length-append body spaces,
      length-append altb (zeros ++ body),
      length-append zeros body,
      length-append spaces (altb ++ body),
      length-append altb body,
      length-replicate {A = ℕ} npad b'0',
      length-replicate {A = ℕ} npad b' ',
    )

-- For a base from 2 to 16, `fmt_int` writes the prefix and the digits of the number in a field of
-- the width that the flags lay out: the digits stand for the magnitude, and the text is as long as
-- the width, or as the number where this is longer.
pub fmt_int-value :
    (limit : ℕ) (num : ℤ) (base width : ℕ) (f : Flags) (o : Out)
    → 2 ≤ base
    → base ≤ 16
    → (nbuf text : List ℕ) × (text
        ≡ int_layout f
            (prefix f base (sign_of f num))
            (reverse nbuf)
            (width - (length nbuf + length (prefix f base (sign_of f num)))))
      × (fmt_int limit num base width f o ≡ put_all limit text o)
      × (value base nbuf ≡ magnitude f num)
      × (length text ≡ max width (length nbuf + length (prefix f base (sign_of f num))))
unfolding int_text
fmt_int-value limit num base width f o lo hi =
    let altb : List ℕ = prefix f base (sign_of f num) in
    let nbuf : List ℕ = digits_loop max_digits f.small base (magnitude f num) in
    let npad : ℕ = width - (length nbuf + length altb) in
    let small : magnitude f num < 2 ^ 32 = magnitude-lt f num in
    let sized = length-int_layout f altb (reverse nbuf) npad in
    let same = length-reverse nbuf in
    (
      nbuf,
      int_text num base width f,
      refl,
      fmt_int_lem limit num base width f o lo hi,
      value-digits_loop 31 f.small base (magnitude f num) lo hi small,
      omega (arith, sized, same),
    )
