-- ===== src/CString.antt =====
-- The string functions of lib/. A string is its characters in front of the NUL, each from 1 to 255.
pub mod Compare
pub mod Search
pub mod Find
mod Tests
use c_osiris.Base.{
  ℕ, zero, suc, ◌+◌, ◌-◌, ◌*◌, ◌≤◌, Bool, true, false, ◌&&◌, Option, none, some, List, [], ◌∷◌,
  ◌++◌, ltb, leb, ◌==◌, if◌then◌else◌,
}
use c_osiris.Base.Ints.{ℤ, pos, negsuc}
use c_osiris.Memory.{char_diff}

-- `strlen`, at the count so far.
unfoldable pub strlen_from : ℕ → List ℕ → ℕ
strlen_from i [] = i
strlen_from i (c ∷ s) = strlen_from (i + 1) s

abbrev pub strlen : List ℕ → ℕ
strlen s = strlen_from 0 s

unfoldable pub strcmp : List ℕ → List ℕ → ℤ
strcmp [] [] = pos 0
strcmp [] (b ∷ t) = char_diff 0 b
strcmp (a ∷ s) [] = char_diff a 0
strcmp (a ∷ s) (b ∷ t) = let rest = strcmp s t in if a == b then rest else char_diff a b

unfoldable pub strncmp : ℕ → List ℕ → List ℕ → ℤ
strncmp zero s t = pos 0
strncmp (suc n) [] [] = pos 0
strncmp (suc n) [] (b ∷ t) = char_diff 0 b
strncmp (suc n) (a ∷ s) [] = char_diff a 0
strncmp (suc n) (a ∷ s) (b ∷ t) = let rest = strncmp n s t in if a == b then rest else char_diff a b

-- `strchr` at the value of a `char`: the string from the character on, `none` for NULL.
unfoldable pub strchr : ℕ → List ℕ → Option (List ℕ)
strchr c [] = if c == 0 then some [] else none
strchr c (a ∷ s) = let rest = strchr c s in if a == c then some (a ∷ s) else rest

-- The loops of `strncpy`: the `n` bytes that it writes.
unfoldable pub strncpy : ℕ → List ℕ → List ℕ
strncpy zero s = []
strncpy (suc n) [] = 0 ∷ strncpy n []
strncpy (suc n) (c ∷ s) = c ∷ strncpy n s

-- `strcat` and `strncat` onto a string with room behind it.
unfoldable pub strcat : List ℕ → List ℕ → List ℕ
strcat [] t = t
strcat (c ∷ s) t = c ∷ strcat s t

-- The characters that the loop of `strncat` copies.
unfoldable pub upto : ℕ → List ℕ → List ℕ
upto zero t = []
upto (suc n) [] = []
upto (suc n) (c ∷ t) = c ∷ upto n t

unfoldable pub strncat : ℕ → List ℕ → List ℕ → List ℕ
unfolding strcat upto
strncat n s t = strcat s (upto n t)

-- `isdigit` and `isprint` of a character that is not negative.
abbrev pub isdigit : ℕ → Bool
isdigit c = ltb c (48 + 10)

abbrev pub isprint : ℕ → Bool
isprint c = leb 32 c && leb c 126

abbrev pub spaces : List ℕ
spaces = 32 ∷ 12 ∷ 10 ∷ 13 ∷ 9 ∷ 11 ∷ []

unfoldable pub isspace : ℕ → Bool
unfolding strchr
isspace c = elim (strchr c spaces) [ none ↦ false | some p ↦ true ]

-- `atoi` of digits whose value an `int` holds, at the value so far.
unfoldable pub atoi_from : ℕ → List ℕ → ℕ
atoi_from n [] = n
atoi_from n (c ∷ s) =
    let rest = atoi_from (n * 10 + (c - 48)) s in if leb 48 c && leb c 57 then rest else n

-- `strcpy` and `strdup`: the bytes that they write, with the NUL.
unfoldable pub strcpy : List ℕ → List ℕ
strcpy [] = 0 ∷ []
strcpy (c ∷ s) = c ∷ strcpy s

unfoldable pub strdup : List ℕ → List ℕ
unfolding strcpy
strdup s = strcpy s

abbrev pub is_zero : ℤ → Bool
is_zero (pos n) = n == 0
is_zero (negsuc n) = false

-- `substr[0]`, and `p++` in front of which there is a character.
abbrev pub first_char : List ℕ → ℕ
first_char [] = 0
first_char (c ∷ s) = c

abbrev pub rest_of : List ℕ → List ℕ
rest_of [] = []
rest_of (c ∷ s) = s

-- A round of `strstr`, at what `strchr` finds and at what the rounds behind it come to.
unfoldable pub match_at : List ℕ → Option (List ℕ) → (List ℕ → Option (List ℕ)) → Option (List ℕ)
unfolding strncmp strlen_from
match_at t none later = none
match_at t (some p) later = if is_zero (strncmp (strlen t) p t) then some p else later (rest_of p)

-- The loop of `strstr`: each round goes on behind a character of the string.
unfoldable pub strstr_loop : ℕ → List ℕ → List ℕ → Option (List ℕ)
unfolding match_at strchr
strstr_loop zero s t = none
strstr_loop (suc n) s t = match_at t (strchr (first_char t) s) (λ p. strstr_loop n p t)

unfoldable pub strstr : List ℕ → List ℕ → Option (List ℕ)
unfolding strstr_loop strlen_from
strstr s t = strstr_loop (strlen s + 1) s t
