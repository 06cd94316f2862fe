-- ===== src/Canonize/Bounds.antt =====
-- canonize.c stays within the array, and comes to an end.
use c_osiris.Base.{
  ℕ, zero, suc, ◌+◌, ◌-◌, ◌≤◌, ◌<◌, ◌≡◌, refl, ◌∙◌, Bool, true, false, ◌&&◌, ◌||◌, not, Option,
  none, some, List, [], ◌∷◌, ◌++◌, ◌==◌, if◌then◌else◌, length, get_or, set, arith, ltb, leb,
  length-set, get_or-set_self, length-append, ltb→lt,
}
use c_osiris.Bname.{slash}
use c_osiris.Canonize.{
  skip_slashes, back_up, parent, Turn, more, stop, fails, copy, name_at, is_dot, is_this, is_up,
  behind_slashes, turn, clean_turn, clean_loop, trim, finish, finish_some, clean_path,
  canonize_path,
}

-- A round that begins with `j ≤ i` and `j < len` keeps the length of the array, and what it goes on with is in bounds.
abbrev pub IsBounded : ℕ → ℕ → Turn → Type 0
IsBounded len i (more path i' j') = ((length path ≡ len + 1) × (i < i')) × ((j' ≤ i') × (j' ≤ len))
IsBounded len i (stop path j') = (length path ≡ len + 1) × (j' ≤ len)
IsBounded len i fails = len + 1 ≡ len

IsBounded-if :
    (len i : ℕ) (b : Bool) (x y : Turn)
    → (b ≡ true → IsBounded len i x)
    → (b ≡ false → IsBounded len i y)
    → IsBounded len i (if b then x else y)
IsBounded-if len i true x y p q = p refl
IsBounded-if len i false x y p q = q refl

if_le : (i x y : ℕ) (b : Bool) → i ≤ x → i ≤ y → i ≤ (if b then x else y)
if_le i x y true p q = p
if_le i x y false p q = q

le_if : (i x y : ℕ) (b : Bool) → x ≤ i → y ≤ i → (if b then x else y) ≤ i
le_if i x y true p q = p
le_if i x y false p q = q

le-skip_slashes : (n : ℕ) (path : List ℕ) (i : ℕ) → i ≤ skip_slashes n path i
unfolding skip_slashes
le-skip_slashes zero path i = omega arith
le-skip_slashes (suc n) path i =
    if_le i _ _ (get_or path i 0 == slash) (omega (arith, le-skip_slashes n path (i + 1)))
      (omega arith)

back_up-le : (path : List ℕ) (j : ℕ) → back_up path j ≤ j
unfolding back_up
back_up-le path zero = omega arith
back_up-le path (suc j) =
    le_if (suc j) _ _ (ltb 0 j && not (get_or path j 0 == slash)) (omega (arith, back_up-le path j))
      (omega arith)

parent-le : (path : List ℕ) (len i j : ℕ) → parent path len i j ≤ j
parent-le path len i j =
    let from = if ltb 1 j && get_or path j 0 == slash then j - 1 else j in
    let first =
      le_if j (j - 1) j (ltb 1 j && get_or path j 0 == slash) (omega arith) (omega arith) in
    let behind = back_up-le path from in
    le_if j _ _
      ((i + 1 == len && ltb 1 (back_up path from))
        && get_or path (back_up path from - 1) 0 == slash)
      (omega arith) (omega arith)

length-set_if :
    (path : List ℕ) (b : Bool) (j v n : ℕ)
    → length path ≡ n
    → length (if b then set path j v else path) ≡ n
length-set_if path true j v n h = length-set path j v ∙ h
length-set_if path false j v n h = h

not_eq-lt : (j len : ℕ) → j ≤ len → (j == len) ≡ false → j < len
not_eq-lt j len h e = ground arith

both_lt : (i j len : ℕ) → (ltb i len && ltb j len) ≡ true → (i < len) × (j < len)
both_lt i j len e = ground arith

copy-IsBounded :
    (path : List ℕ) (len at i j : ℕ)
    → length path ≡ len + 1
    → at ≤ i
    → j ≤ i
    → j < len
    → IsBounded len at (copy path i j)
copy-IsBounded path len at i j h a b c =
    IsBounded-if len at (ltb i j) fails (more (set path j (get_or path i 0)) (i + 1) (j + 1))
      (λ e. absurd (omega (arith, ltb→lt i j e)))
      (λ e. ((length-set path j _ ∙ h, omega arith), (omega arith, omega arith)))

name_at-IsBounded :
    (path : List ℕ) (len at i j : ℕ)
    → length path ≡ len + 1
    → at ≤ i
    → j < i
    → j < len
    → IsBounded len at (name_at path len i j)
name_at-IsBounded path len at i j h a b c =
    let slashed = ltb i len || j == 0 in
    let path' = if slashed then set path j slash else path in
    let j' = if slashed then j + 1 else j in
    let l = length-set_if path slashed j slash (len + 1) h in
    let d : j' ≤ i = le_if i (j + 1) j slashed (omega arith) (omega arith) in
    let e : j' ≤ len = le_if len (j + 1) j slashed (omega arith) (omega arith) in
    IsBounded-if len at (ltb i j) fails (if j' == len then stop path' j' else copy path' i j')
      (λ f. absurd (omega (arith, ltb→lt i j f)))
      (λ f.
        IsBounded-if len at (j' == len) (stop path' j') (copy path' i j') (λ g. (l, e))
          (λ g. copy-IsBounded path' len at i j' l a d (not_eq-lt j' len e g)))

behind-IsBounded :
    (path : List ℕ) (len at i j : ℕ)
    → length path ≡ len + 1
    → at ≤ i
    → j < i
    → j < len
    → IsBounded len at (behind_slashes path len i j)
behind-IsBounded path len at i j h a b c =
    IsBounded-if len at (is_dot path len i && is_this path len i) (more path (i + 1) j) _
      (λ e. ((h, omega arith), (omega arith, omega arith)))
      (λ e.
        IsBounded-if len at (is_dot path len i && is_up path len i)
          (more path (i + 3) (parent path len (i + 2) j)) _
          (λ f. (
            (h, omega arith),
            (
              omega (arith, parent-le path len (i + 2) j),
              omega (arith, parent-le path len (i + 2) j),
            ),
          ))
          (λ f. name_at-IsBounded path len at i j h a b c))

skip_if : (i x : ℕ) (b : Bool) → b ≡ true → i < x → i < (if b then x else i)
skip_if i x true e h = h
skip_if i x false e h = absurd (ground arith)

lt-skip_slashes :
    (n : ℕ) (path : List ℕ) (i : ℕ)
    → 0 < n
    → (get_or path i 0 == slash) ≡ true
    → i < skip_slashes n path i
unfolding skip_slashes
lt-skip_slashes zero path i h e = absurd (omega arith)
lt-skip_slashes (suc n) path i h e =
    skip_if i _ (get_or path i 0 == slash) e (omega (arith, le-skip_slashes n path (i + 1)))

turn-IsBounded :
    (path : List ℕ) (len i j : ℕ)
    → length path ≡ len + 1
    → j ≤ i
    → i < len
    → j < len
    → IsBounded len i (turn path len i j)
unfolding turn
turn-IsBounded path len i j h a b c =
    IsBounded-if len i (get_or path i 0 == slash) _ (copy path i j)
      (λ e.
        let d = lt-skip_slashes (len - i) path i (omega arith) e in
        behind-IsBounded path len i (skip_slashes (len - i) path i) j h (omega arith) (omega arith)
          c)
      (λ e. copy-IsBounded path len i i j h (omega arith) a c)

-- What the loop comes to is in bounds.
abbrev IsInside : ℕ → Option (List ℕ × ℕ) → Type 0
IsInside len none = len + 1 ≡ len
IsInside len (some (path, j)) = (length path ≡ len + 1) × (j ≤ len)

turn-IsInside :
    (len i : ℕ) (t : Turn) (rounds : List ℕ → ℕ → ℕ → Option (List ℕ × ℕ))
    → IsBounded len i t
    → ((path : List ℕ) (i' j' : ℕ)
        → length path ≡ len + 1
        → i < i'
        → j' ≤ i'
        → j' ≤ len
        → IsInside len (rounds path i' j'))
    → IsInside len (clean_turn t rounds)
unfolding clean_turn
turn-IsInside len i (more path i' j') rounds b f = f path i' j' b.0.0 b.0.1 b.1.0 b.1.1
turn-IsInside len i (stop path j') rounds b f = b
turn-IsInside len i fails rounds b f = b

IsInside-if :
    (len : ℕ) (b : Bool) (x y : Option (List ℕ × ℕ))
    → (b ≡ true → IsInside len x)
    → IsInside len y
    → IsInside len (if b then x else y)
IsInside-if len true x y p q = p refl
IsInside-if len false x y p q = q

clean_loop-IsInside :
    (fuel : ℕ) (path : List ℕ) (len i j : ℕ)
    → length path ≡ len + 1
    → j ≤ i
    → j ≤ len
    → len < fuel + i
    → 0 < fuel
    → IsInside len (clean_loop fuel path len i j)
unfolding clean_loop
clean_loop-IsInside zero path len i j h a b c d = absurd (omega arith)
clean_loop-IsInside (suc fuel) path len i j h a b c d =
    IsInside-if len (ltb i len && ltb j len) _ (some (path, j))
      (λ e.
        let l = both_lt i j len e in
        turn-IsInside len i (turn path len i j) _ (turn-IsBounded path len i j h a l.0 l.1)
          (λ path' i' j' h' a' b' c'.
            clean_loop-IsInside fuel path' len i' j' h' b' c' (omega arith) (omega (arith, l.0))))
      (h, b)

-- A NUL behind at least one character and not behind the array.
abbrev pub IsEnded : ℕ → Option (List ℕ) → Type 0
IsEnded len none = len + 1 ≡ len
IsEnded len (some path) =
    (length path ≡ len + 1) × ((j : ℕ) × ((0 < j) × ((j ≤ len) × (get_or path j 1 ≡ 0))))

cut_pos : (j : ℕ) (b : Bool) → 0 < j → (b ≡ true → 1 < j) → 0 < (if b then j - 1 else j)
cut_pos j true h f = let g = f refl in omega arith
cut_pos j false h f = h

start_pos : (j : ℕ) → 0 < (if j == 0 then 1 else j)
start_pos j = ground arith

in_range : (j len : ℕ) → 0 < j → j ≤ len → (leb j len && ltb 0 j) ≡ true
in_range j len a b = ground arith

trim_bounds : (path : List ℕ) (j : ℕ) → 0 < j → (0 < trim path j) × (trim path j ≤ j)
trim_bounds path j h =
    let cut = ltb 1 j && get_or path (j - 1) 0 == slash in
    (cut_pos j cut h (λ e. ground arith), le_if j (j - 1) j cut (omega arith) (omega arith))

IsEnded-if :
    (len : ℕ) (b : Bool) (x : List ℕ)
    → b ≡ true
    → IsEnded len (some x)
    → IsEnded len (if b then some x else none)
IsEnded-if len true x e p = p
IsEnded-if len false x e p = absurd (ground arith)

finish-IsEnded :
    (len : ℕ) (r : List ℕ × ℕ)
    → 0 < len
    → length r.0 ≡ len + 1
    → r.1 ≤ len
    → IsEnded len (finish len r)
unfolding finish
finish-IsEnded len (path, j) h a b =
    let end = if j == 0 then 1 else j in
    let l = length-set path end 0 ∙ a in
    let e : end ≤ len = le_if len 1 j (j == 0) (omega arith) b in
    let t = trim_bounds (set path end 0) end (start_pos j) in
    let end' = trim (set path end 0) end in
    IsEnded-if len (leb end' len && ltb 0 end') _ (in_range end' len t.0 (omega arith)) (
      (length-set (set path end 0) end' 0 ∙ l),
      (end', (t.0, (omega arith, get_or-set_self (set path end 0) end' 0 1 (omega arith)))),
    )

finish_some-IsEnded :
    (len : ℕ) (r : Option (List ℕ × ℕ)) → 0 < len → IsInside len r → IsEnded len (finish_some len r)
finish_some-IsEnded len none h a = a
finish_some-IsEnded len (some r) h a = finish-IsEnded len r h a.0 a.1

pub clean_path-IsEnded : (p : List ℕ) → 0 < length p → IsEnded (length p) (clean_path p)
unfolding clean_path
clean_path-IsEnded p h = finish_some-IsEnded (length p) _ h (
    clean_loop-IsInside (length p + 1) (p ++ (0 ∷ [])) (length p) 0 0 (length-append p (0 ∷ []))
      (omega arith) (omega arith) (omega arith) (omega arith))

slash_nonempty : (s : List ℕ) → (get_or s 0 0 == slash) ≡ true → 0 < length s
slash_nonempty [] e = absurd (ground arith)
slash_nonempty (c ∷ s) e = omega arith

-- The path that `canonize_path` cleans.
abbrev pub joined : List ℕ → List ℕ → List ℕ
joined prefix path = if get_or path 0 0 == slash then path else prefix ++ (slash ∷ path)

joined-IsEnded :
    (a b : Bool) (path long : List ℕ)
    → (a || b) ≡ true
    → (a ≡ true → 0 < length path)
    → 0 < length long
    → IsEnded
        (length (if a then path else long))
        (if a then clean_path path else if b then clean_path long else none)
joined-IsEnded true b path long h f g = clean_path-IsEnded path (f refl)
joined-IsEnded false true path long h f g = clean_path-IsEnded long g
joined-IsEnded false false path long h f g = absurd (ground arith)

-- Where the path or the prefix begins with a slash, `canonize_path` comes to an end with no assertion
-- that fails: its output is as long as the array of the path that it cleans, which is the path, or
-- prefix, slash and path, and has a NUL behind at least one character.
pub canonize_path-IsEnded :
    (prefix path : List ℕ)
    → (get_or path 0 0 == slash || get_or prefix 0 0 == slash) ≡ true
    → IsEnded (length (joined prefix path)) (canonize_path prefix path)
unfolding canonize_path
canonize_path-IsEnded prefix path h =
    joined-IsEnded (get_or path 0 0 == slash) (get_or prefix 0 0 == slash) path
      (prefix ++ (slash ∷ path)) h (slash_nonempty path)
      (omega (arith, length-append prefix (slash ∷ path)))
