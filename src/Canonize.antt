-- ===== src/Canonize.antt =====
-- canonize.c: paths without empty names, and without `.` and `..`. The array has the path and a NUL.
pub mod Bounds
pub mod Plain
mod Tests
use c_osiris.Base.{
  ℕ, zero, suc, ◌+◌, ◌-◌, Bool, ◌&&◌, ◌||◌, not, Option, none, some, List, [], ◌∷◌, ◌++◌, ltb, leb,
  ◌==◌, if◌then◌else◌, length, get_or, set,
}
use c_osiris.Bname.{slash}

-- `while (i < len && path[i] == '/') i++`, over the characters that are left.
unfoldable pub skip_slashes : ℕ → List ℕ → ℕ → ℕ
skip_slashes zero path i = i
skip_slashes (suc n) path i =
    let rest = skip_slashes n path (i + 1) in if get_or path i 0 == slash then rest else i

-- `while (j > 1 && path[j - 1] != '/') j--`.
unfoldable pub back_up : List ℕ → ℕ → ℕ
back_up path zero = zero
back_up path (suc j) =
    let rest = back_up path j in if ltb 0 j && not (get_or path j 0 == slash) then rest else suc j

-- The end of the output behind a `..` that ends in front of `i`.
abbrev pub parent : List ℕ → ℕ → ℕ → ℕ → ℕ
parent path len i j =
    let behind = back_up path (if ltb 1 j && get_or path j 0 == slash then j - 1 else j) in
    if (i + 1 == len && ltb 1 behind) && get_or path (behind - 1) 0 == slash
    then behind - 1
    else behind

-- A round of the loop: it goes on, it leaves the loop, or an assertion fails.
pub data Turn : Type 0 where
  more : List ℕ → ℕ → ℕ → Turn
  stop : List ℕ → ℕ → Turn
  fails : Turn

abbrev pub copy : List ℕ → ℕ → ℕ → Turn
copy path i j = if ltb i j then fails else more (set path j (get_or path i 0)) (i + 1) (j + 1)

-- A name behind slashes, which end in front of `i`.
abbrev pub name_at : List ℕ → ℕ → ℕ → ℕ → Turn
name_at path len i j =
    let slashed = ltb i len || j == 0 in
    let path' = if slashed then set path j slash else path in
    let j' = if slashed then j + 1 else j in
    if ltb i j then fails else if j' == len then stop path' j' else copy path' i j'

abbrev pub is_dot : List ℕ → ℕ → ℕ → Bool
is_dot path len i = ltb i len && get_or path i 0 == b'.'

-- The name at `i` is `.`, or it is `..`, where a dot is at `i`.
abbrev pub is_this : List ℕ → ℕ → ℕ → Bool
is_this path len i = i + 1 == len || get_or path (i + 1) 0 == slash

abbrev pub is_up : List ℕ → ℕ → ℕ → Bool
is_up path len i = get_or path (i + 1) 0 == b'.' && (i + 2 == len || get_or path (i + 2) 0 == slash)

abbrev pub behind_slashes : List ℕ → ℕ → ℕ → ℕ → Turn
behind_slashes path len i j =
    if is_dot path len i && is_this path len i
    then more path (i + 1) j
    else if is_dot path len i && is_up path len i
    then more path (i + 3) (parent path len (i + 2) j)
    else name_at path len i j

unfoldable pub turn : List ℕ → ℕ → ℕ → ℕ → Turn
unfolding skip_slashes back_up
turn path len i j =
    if get_or path i 0 == slash
    then behind_slashes path len (skip_slashes (len - i) path i) j
    else copy path i j

-- What a round comes to, with the rounds behind it.
unfoldable pub clean_turn : Turn → (List ℕ → ℕ → ℕ → Option (List ℕ × ℕ)) → Option (List ℕ × ℕ)
clean_turn (more path i j) rounds = rounds path i j
clean_turn (stop path j) rounds = some (path, j)
clean_turn fails rounds = none

-- The loop; `none` stands for an assertion that fails, or for no end within the fuel.
unfoldable pub clean_loop : ℕ → List ℕ → ℕ → ℕ → ℕ → Option (List ℕ × ℕ)
unfolding clean_turn turn
clean_loop zero path len i j = none
clean_loop (suc fuel) path len i j =
    let next = clean_turn (turn path len i j) (λ path' i' j'. clean_loop fuel path' len i' j') in
    if ltb i len && ltb j len then next else some (path, j)

-- The slash at the end of the output is cut off.
abbrev pub trim : List ℕ → ℕ → ℕ
trim path j = if ltb 1 j && get_or path (j - 1) 0 == slash then j - 1 else j

unfoldable pub finish : ℕ → (List ℕ × ℕ) → Option (List ℕ)
finish len (path, j) =
    let end = if j == 0 then 1 else j in
    let ended = set path end 0 in
    let end' = trim ended end in
    if leb end' len && ltb 0 end' then some (set ended end' 0) else none

abbrev pub finish_some : ℕ → Option (List ℕ × ℕ) → Option (List ℕ)
finish_some len none = none
finish_some len (some r) = finish len r

-- `clean_path` of a string that is not empty.
unfoldable pub clean_path : List ℕ → Option (List ℕ)
unfolding clean_loop finish
clean_path p = finish_some (length p) (clean_loop (length p + 1) (p ++ (0 ∷ [])) (length p) 0 0)

-- `none` stands for the panic at a relative prefix.
unfoldable pub canonize_path : List ℕ → List ℕ → Option (List ℕ)
unfolding clean_path
canonize_path prefix path =
    if get_or path 0 0 == slash
    then clean_path path
    else if get_or prefix 0 0 == slash
    then clean_path (prefix ++ (slash ∷ path))
    else none
