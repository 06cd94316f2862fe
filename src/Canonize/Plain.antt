-- ===== src/Canonize/Plain.antt =====
-- canonize.c leaves a path alone that is clean.
use c_osiris.Base.{
  ℕ, zero, suc, ◌+◌, ◌-◌, ◌≤◌, ◌<◌, ◌≡◌, refl, sym, ap, ◌∙◌, Bool, true, false, ◌&&◌, ◌||◌, not,
  Option, none, some, List, [], ◌∷◌, ◌++◌, ◌==◌, if◌then◌else◌, length, get_or, set, arith, ltb,
  leb, ltb→lt, inl, inr, all_below, all_below_sound, lt-cases, Bool-cases, ==_iff,
}
use c_osiris.Bname.{slash}
use c_osiris.Canonize.{
  skip_slashes, more, stop, fails, copy, is_dot, is_this, is_up, behind_slashes, turn, clean_turn,
  clean_loop, trim, finish, finish_some, clean_path,
}

-- A slash at `k` has a name behind it that is not `.` or `..`.
abbrev pub is_plain_at : List ℕ → ℕ → ℕ → Bool
is_plain_at path len k =
    not (get_or path k 0 == slash)
    || ((ltb (k + 1) len && not (get_or path (k + 1) 0 == slash))
        && (not (is_dot path len (k + 1) && is_this path len (k + 1))
            && not (is_dot path len (k + 1) && is_up path len (k + 1))))

abbrev pub is_plain : List ℕ → ℕ → Bool
is_plain path len = all_below len (is_plain_at path len)

if_true : {A : Type 0} (b : Bool) (x y : A) → b ≡ true → (if b then x else y) ≡ x
if_true true x y h = refl
if_true false x y h = absurd (ground arith)

if_false : {A : Type 0} (b : Bool) (x y : A) → b ≡ false → (if b then x else y) ≡ y
if_false true x y h = absurd (ground arith)
if_false false x y h = refl

set_same : (xs : List ℕ) (i : ℕ) → set xs i (get_or xs i 0) ≡ xs
set_same [] i = refl
set_same (x ∷ xs) zero = refl
set_same (x ∷ xs) (suc i) = ap (λ l. x ∷ l) (set_same xs i)

not_self_lt : (i j : ℕ) → j ≤ i → ltb i j ≡ false
not_self_lt i j h = ground arith

ne-eq_false : (a b : ℕ) → a < b → (a == b) ≡ false
ne-eq_false a b h = ground arith

copy_same : (path : List ℕ) (i : ℕ) → copy path i i ≡ more path (i + 1) (i + 1)
copy_same path i =
    if_false (ltb i i) _ _ (not_self_lt i i (omega arith))
    ∙ ap (λ p. more p (i + 1) (i + 1)) (set_same path i)

skip_none :
    (n : ℕ) (path : List ℕ) (i : ℕ) → (get_or path i 0 == slash) ≡ false → skip_slashes n path i ≡ i
unfolding skip_slashes
skip_none zero path i h = refl
skip_none (suc n) path i h = if_false (get_or path i 0 == slash) _ _ h

skip_one :
    (n : ℕ) (path : List ℕ) (i : ℕ)
    → 0 < n
    → (get_or path i 0 == slash) ≡ true
    → (get_or path (i + 1) 0 == slash) ≡ false
    → skip_slashes n path i ≡ i + 1
unfolding skip_slashes
skip_one zero path i h e f = absurd (omega arith)
skip_one (suc n) path i h e f =
    if_true (get_or path i 0 == slash) _ _ e ∙ skip_none n path (i + 1) f

-- The name behind a slash, at the test that puts the slash.
slashed_same :
    (path : List ℕ) (len i : ℕ) (b : Bool)
    → b ≡ true
    → i + 1 < len
    → set path i slash ≡ path
    → (let path' = if b then set path i slash else path in
        let j' = if b then i + 1 else i in
        if ltb (i + 1) i then fails else if j' == len then stop path' j' else copy path' (i + 1) j')
      ≡ more path (i + 1 + 1) (i + 1 + 1)
slashed_same path len i false e h s = absurd (ground arith)
slashed_same path len i true e h s =
    if_false (ltb (i + 1) i) _ _ (not_self_lt (i + 1) i (omega arith))
    ∙ if_false (i + 1 == len) _ _ (ne-eq_false (i + 1) len h)
    ∙ copy_same (set path i slash) (i + 1)
    ∙ ap (λ p. more p (i + 1 + 1) (i + 1 + 1)) s

or_true : (a b : Bool) → a ≡ true → (a || b) ≡ true
or_true a b h = ground arith

-- What the test says of a slash.
abbrev IsPlain : List ℕ → ℕ → ℕ → Type 0
IsPlain path len k =
    ((ltb (k + 1) len ≡ true) × ((get_or path (k + 1) 0 == slash) ≡ false))
    × (((is_dot path len (k + 1) && is_this path len (k + 1)) ≡ false)
        × ((is_dot path len (k + 1) && is_up path len (k + 1)) ≡ false))

plain_parts :
    (s a b c d : Bool)
    → (not s || ((a && not b) && (not c && not d))) ≡ true
    → s ≡ true
    → ((a ≡ true) × (b ≡ false)) × ((c ≡ false) × (d ≡ false))
plain_parts s a b c d h e = ground arith

turn-slash :
    (path : List ℕ) (len i : ℕ)
    → i + 1 < len
    → (get_or path i 0 == slash) ≡ true
    → IsPlain path len i
    → turn path len i i ≡ more path (i + 1 + 1) (i + 1 + 1)
unfolding turn
turn-slash path len i h e p =
    let same =
      ap (λ v. set path i v) (sym ((==_iff (get_or path i 0) slash).0 e)) ∙ set_same path i in
    if_true (get_or path i 0 == slash) _ _ e
    ∙ ap (λ s. behind_slashes path len s i) (skip_one (len - i) path i (omega arith) e p.0.1)
    ∙ if_false (is_dot path len (i + 1) && is_this path len (i + 1)) _ _ p.1.0
    ∙ if_false (is_dot path len (i + 1) && is_up path len (i + 1)) _ _ p.1.1
    ∙ slashed_same path len i (ltb (i + 1) len || i == 0) (or_true _ _ p.0.0) h same

turn-char :
    (path : List ℕ) (len i : ℕ)
    → (get_or path i 0 == slash) ≡ false
    → turn path len i i ≡ more path (i + 1) (i + 1)
unfolding turn
turn-char path len i e = if_false (get_or path i 0 == slash) _ _ e ∙ copy_same path i

in_loop : (i len : ℕ) → i < len → (ltb i len && ltb i len) ≡ true
in_loop i len h = ground arith

plain_at :
    (path : List ℕ) (len i : ℕ) → is_plain path len ≡ true → i < len → is_plain_at path len i ≡ true
plain_at path len i h l = all_below_sound len (is_plain_at path len) i h l

IsPlain-slash :
    (path : List ℕ) (len i : ℕ)
    → is_plain path len ≡ true
    → i < len
    → (get_or path i 0 == slash) ≡ true
    → IsPlain path len i
IsPlain-slash path len i h l e =
    plain_parts (get_or path i 0 == slash) _ _ _ _ (plain_at path len i h l) e

out_loop : (i len : ℕ) → len ≤ i → (ltb i len && ltb i len) ≡ false
out_loop i len h = ground arith

clean_loop-plain :
    (fuel : ℕ) (path : List ℕ) (len i : ℕ)
    → is_plain path len ≡ true
    → i ≤ len
    → len < fuel + i
    → clean_loop fuel path len i i ≡ some (path, len)
unfolding clean_loop
clean_loop-plain zero path len i h a b = absurd (omega arith)
clean_loop-plain (suc fuel) path len i h a b =
    let rounds = λ (path' : List ℕ) (i' j' : ℕ). clean_loop fuel path' len i' j' in
    elim (lt-cases i len) [
      | inr d ↦
          if_false (ltb i len && ltb i len) _ _ (out_loop i len d)
          ∙ ap (λ j. some (path, j)) (omega arith)
      | inl d ↦
          if_true (ltb i len && ltb i len) _ _ (in_loop i len d)
          ∙ elim (Bool-cases (get_or path i 0 == slash)) [
            | inl e ↦
                let p = IsPlain-slash path len i h d e in
                let l = ltb→lt (i + 1) len p.0.0 in
                ap (λ t. clean_turn t rounds) (turn-slash path len i l e p)
                ∙ clean_loop-plain fuel path len (i + 1 + 1) h (omega arith) (omega arith)
            | inr e ↦
                ap (λ t. clean_turn t rounds) (turn-char path len i e)
                ∙ clean_loop-plain fuel path len (i + 1) h (omega arith) (omega arith)
          ]
    ]

-- `finish`, from where the first NUL is put.
abbrev finish_from : ℕ → List ℕ → ℕ → Option (List ℕ)
finish_from len path end =
    let end' = trim path end in if leb end' len && ltb 0 end' then some (set path end' 0) else none

pos-eq_zero : (len : ℕ) → 0 < len → (len == 0) ≡ false
pos-eq_zero len h = ground arith

and_false : (a b : Bool) → b ≡ false → (a && b) ≡ false
and_false a b h = ground arith

in_range : (len : ℕ) → 0 < len → (leb len len && ltb 0 len) ≡ true
in_range len h = ground arith

-- The end is put where it stands, at the last of the array.
finish-plain :
    (path : List ℕ) (len : ℕ)
    → 0 < len
    → get_or path len 0 ≡ 0
    → (get_or path (len - 1) 0 == slash) ≡ false
    → finish len (path, len) ≡ some path
unfolding finish
finish-plain path len h z e =
    let same = ap (λ v. set path len v) (sym z) ∙ set_same path len in
    ap (λ end. finish_from len (set path end 0) end) (if_false (len == 0) 1 len (pos-eq_zero len h))
    ∙ ap (λ p. finish_from len p len) same
    ∙ ap (λ end. if leb end len && ltb 0 end then some (set path end 0) else none)
        (if_false (ltb 1 len && get_or path (len - 1) 0 == slash) (len - 1) len (and_false _ _ e))
    ∙ if_true (leb len len && ltb 0 len) _ _ (in_range len h)
    ∙ ap some same

last_plain :
    (path : List ℕ) (len : ℕ)
    → 0 < len
    → is_plain path len ≡ true
    → (get_or path (len - 1) 0 == slash) ≡ false
last_plain path len h p = elim (Bool-cases (get_or path (len - 1) 0 == slash)) [
  | inl e ↦ absurd (
      omega
        (arith, ltb→lt (len - 1 + 1) len (IsPlain-slash path len (len - 1) p (omega arith) e).0.0))
  | inr e ↦ e
]

get_or-end : (p : List ℕ) → get_or (p ++ (0 ∷ [])) (length p) 0 ≡ 0
get_or-end [] = refl
get_or-end (c ∷ p) = get_or-end p

-- `clean_path` leaves a path alone that is not empty and in which every slash has a name behind it, not
-- another slash, not the end, and not `.` or `..`.
pub clean_path-plain :
    (p : List ℕ)
    → 0 < length p
    → is_plain (p ++ (0 ∷ [])) (length p) ≡ true
    → clean_path p ≡ some (p ++ (0 ∷ []))
unfolding clean_path
clean_path-plain p h q =
    ap (finish_some (length p))
      (clean_loop-plain (length p + 1) (p ++ (0 ∷ [])) (length p) 0 q (omega arith) (omega arith))
    ∙ finish-plain (p ++ (0 ∷ [])) (length p) h (get_or-end p)
        (last_plain (p ++ (0 ∷ [])) (length p) h q)
