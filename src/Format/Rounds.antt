-- ===== src/Format/Rounds.antt =====
-- The rounds of lib/vsnprintf.c: what each writes, and that they come to an end.
use c_osiris.Base.{
  ℕ, zero, suc, ◌+◌, ◌-◌, ◌*◌, ◌%◌, ◌≤◌, ◌<◌, ◌≡◌, ◌⊎◌, inl, inr, refl, sym, ap, ◌∙◌, Bool, true,
  false, some, List, [], ◌∷◌, ◌++◌, ◌==◌, if◌then◌else◌, length, arith, Bool-cases,
}
use mathlib.Core.List.{append-nil}
use c_osiris.Base.Ints.{ℤ, pos, negsuc}
use c_osiris.CString.{first_char}
use c_osiris.Format.{Out, put_all, bputc}
use c_osiris.Format.Number.{
  put_all-append, int_text, str_layout, fmt_int_lem, fmt_str_lem, fmt_chr_lem,
}
use c_osiris.Format.Machine.{
  State, s_default, s_flags, s_width, s_precis, s_length, s_conv, Env, Control, is_number,
  read_number, base_of, number_flags, get_atoi, round, conv_out, out_in, emit, run, string_at,
  enough, start, star_width, signed32,
}

-- The text of a conversion.
abbrev pub conv_text : Env → Control → ℕ → List ℕ
conv_text e k c =
    let w = e.stack k.ap in
    if is_number c
    then int_text (read_number e k c).0 (base_of c) k.width (number_flags k.flags c)
    else if c == b'p'
    then int_text (pos w) 16 k.width (record k.flags { small = true; alternate = true })
    else if c == b's'
    then str_layout k.flags (string_at e w) (k.width - length (string_at e w))
    else if c == b'c'
    then str_layout k.flags ((w % 256) ∷ []) (k.width - 1)
    else if c == b'%'
    then c ∷ []
    else b'%' ∷ c ∷ []

abbrev pub text_in : State → Env → Control → ℕ → List ℕ
text_in s_default e k c = if c == b'%' then [] else c ∷ []
text_in s_conv e k c = conv_text e k c
text_in s_flags e k c = []
text_in s_width e k c = []
text_in s_precis e k c = []
text_in s_length e k c = []

-- The text of all rounds, with no buffer.
unfoldable pub text_of : ℕ → Env → Control → List ℕ
text_of zero e k = []
text_of (suc fuel) e k =
    let here = text_in k.state e k (first_char k.rest) in
    let more = text_of fuel e (round e k).0 in here ++ (if (round e k).1 == 0 then [] else more)

-- Where each of two ways writes a text, so do both under a test.
put_either :
    (limit : ℕ) (o : Out) (b : Bool) (x y : Out) (xs ys : List ℕ)
    → x ≡ put_all limit xs o
    → y ≡ put_all limit ys o
    → (if b then x else y) ≡ put_all limit (if b then xs else ys) o
put_either limit o true x y xs ys p q = p
put_either limit o false x y xs ys p q = q

base_of_bounds : (c : ℕ) → (2 ≤ base_of c) × (base_of c ≤ 16)
base_of_bounds c = ground arith

conv_out_lem :
    (limit : ℕ) (e : Env) (k : Control) (c : ℕ) (o : Out)
    → conv_out limit e k c o ≡ put_all limit (conv_text e k c) o
unfolding conv_out put_all
conv_out_lem limit e k c o =
    let w = e.stack k.ap in
    let b = base_of_bounds c in
    let either = put_either limit o in
    either (is_number c) _ _ _ _
      (fmt_int_lem limit (read_number e k c).0 (base_of c) k.width (number_flags k.flags c) o b.0
        b.1)
      (either (c == b'p') _ _ _ _
        (fmt_int_lem limit (pos w) 16 k.width (record k.flags { small = true; alternate = true }) o
          (omega arith) (omega arith))
        (either (c == b's') _ _ _ _ (fmt_str_lem limit (string_at e w) k.width k.flags o) (
          either (c == b'c') _ _ _ _ (fmt_chr_lem limit (w % 256) k.width k.flags o)
            (either (c == b'%') _ _ (c ∷ []) (b'%' ∷ c ∷ []) refl refl))))

emit_lem :
    (limit : ℕ) (e : Env) (k : Control) (o : Out)
    → emit limit e k o ≡ put_all limit (text_in k.state e k (first_char k.rest)) o
unfolding emit put_all
emit_lem limit e k o = go k.state
  where
    go :
        (s : State)
        → out_in s limit e k (first_char k.rest) o
          ≡ put_all limit (text_in s e k (first_char k.rest)) o
    go s_default =
        put_either limit o (first_char k.rest == b'%') o (bputc limit (first_char k.rest) o) []
          (first_char k.rest ∷ []) refl refl
    go s_conv = conv_out_lem limit e k (first_char k.rest) o
    go s_flags = refl
    go s_width = refl
    go s_precis = refl
    go s_length = refl

length-get_atoi : (n : ℕ) (s : List ℕ) → length (get_atoi n s).1 ≤ length s
unfolding get_atoi
length-get_atoi n [] = omega arith
length-get_atoi n (c ∷ s) = ground (arith, length-get_atoi (n * 10 + (c - b'0')) s)

abbrev rank : State → ℕ
rank s_default = 0
rank s_flags = 1
rank s_width = 2
rank s_precis = 3
rank s_length = 4
rank s_conv = 5

abbrev measure : Control → ℕ
measure k = 6 * length k.rest + (5 - rank k.state)

-- A round at the end of the format is the last.
round_end :
    (e : Env) (k : Control) (s : State) → (round e (record k { state = s; rest = [] })).1 ≡ 0
unfolding round
round_end e k s_default = refl
round_end e k s_flags = refl
round_end e k s_width = refl
round_end e k s_precis = refl
round_end e k s_length = refl
round_end e k s_conv = refl

measure-star_width :
    (k : Control) (l : List ℕ) (z : ℤ)
    → measure (star_width (record k { state = s_width; rest = l }) z) ≡ 6 * length l + 3
measure-star_width k l (pos n) = refl
measure-star_width k l (negsuc n) = refl

below_either :
    (m : ℕ) (b : Bool) (x y : Control)
    → measure x < m
    → measure y < m
    → measure (if b then x else y) < m
below_either m true x y p q = p
below_either m false x y p q = q

-- A round at a character leaves less to do.
round-lt :
    (e : Env) (k : Control) (s : State) (c : ℕ) (l : List ℕ)
    → measure (round e (record k { state = s; rest = c ∷ l })).0 < 6 * suc (length l) + (5 - rank s)
unfolding round get_atoi
round-lt e k s_default c l = ground arith
round-lt e k s_flags c l = ground arith
round-lt e k s_width c l =
    let star = measure-star_width k l (signed32 (e.stack k.ap)) in
    let n = length-get_atoi (c - b'0') l in
    below_either (6 * suc (length l) + 3) (c == b'*') _ _ (omega (arith, star)) (ground (arith, n))
round-lt e k s_precis c l = let n = length-get_atoi 0 l in ground (arith, n)
round-lt e k s_length c l = ground arith
round-lt e k s_conv c l = ground arith

-- A round is the last, or it leaves less to do.
pub round_lem : (e : Env) (k : Control) → ((round e k).1 ≡ 0) ⊎ (measure (round e k).0 < measure k)
round_lem e k = go k.rest
  where
    go :
        (l : List ℕ)
        → ((round e (record k { rest = l })).1 ≡ 0)
          ⊎ (measure (round e (record k { rest = l })).0 < measure (record k { rest = l }))
    go [] = inl (round_end e k k.state)
    go (c ∷ l) = inr (round-lt e k k.state c l)

-- With fuel above the measure, the loop ends, and what it leaves in the buffer is the text.
pub run_lem :
    (fuel limit : ℕ) (e : Env) (k : Control) (o : Out)
    → measure k < fuel
    → run fuel limit e k o ≡ some (put_all limit (text_of fuel e k) o)
unfolding run text_of
run_lem zero limit e k o h = absurd (omega arith)
run_lem (suc fuel) limit e k o h =
    let here : List ℕ = text_in k.state e k (first_char k.rest) in
    let now = emit_lem limit e k o in
    elim (Bool-cases ((round e k).1 == 0)) [
      | inl last ↦ rw last (ap some (now ∙ ap (λ l. put_all limit l o) (sym (append-nil here))))
      | inr goes ↦
          let k' = (round e k).0 in
          let more : List ℕ = text_of fuel e k' in
          let less : measure k' < fuel = elim (round_lem e k) [
            | inl z ↦ absurd (ground (arith, goes, z))
            | inr lt ↦ omega arith
          ] in
          rw goes (
            run_lem fuel limit e k' (emit limit e k o) less
            ∙ ap (λ (x : Out). some (put_all limit more x)) now
            ∙ ap some (sym (put_all-append limit here more o)))
    ]

-- The text that a format asks for.
abbrev pub text : Env → List ℕ → List ℕ
text e fmt = text_of (enough fmt) e (start fmt)

pub run-enough :
    (limit : ℕ) (e : Env) (fmt : List ℕ) (o : Out)
    → run (enough fmt) limit e (start fmt) o ≡ some (put_all limit (text e fmt) o)
run-enough limit e fmt o = run_lem (enough fmt) limit e (start fmt) o (omega arith)
