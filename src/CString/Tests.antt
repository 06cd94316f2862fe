-- ===== src/CString/Tests.antt =====
-- The theorems on strings at short ones.
use c_osiris.Base.{ℕ, ◌≡◌, refl, true, List, [], ◌∷◌, arith}
use c_osiris.CString.{strncat, isdigit, isspace, atoi_from, strstr}
use c_osiris.CString.Compare.{AreChars}
use c_osiris.CString.Find.{Match, strstr-Match}

abbrev abc : List ℕ
abc = 97 ∷ 98 ∷ 99 ∷ []

abbrev abd : List ℕ
abd = 97 ∷ 98 ∷ 100 ∷ []

abc-AreChars : AreChars abc
abc-AreChars =
    ((omega arith, omega arith), ((omega arith, omega arith), ((omega arith, omega arith), tt)))

abd-AreChars : AreChars abd
abd-AreChars =
    ((omega arith, omega arith), ((omega arith, omega arith), ((omega arith, omega arith), tt)))

isspace-nul : isspace 0 ≡ true
unfolding isspace
isspace-nul = refl

-- The test of `isdigit` has no lower bound.
isdigit-space : isdigit 32 ≡ true
isdigit-space = refl

strncat-two : strncat 2 abc abd ≡ 97 ∷ 98 ∷ 99 ∷ 97 ∷ 98 ∷ []
unfolding strncat
strncat-two = refl

atoi-number : atoi_from 0 (52 ∷ 50 ∷ 32 ∷ []) ≡ 42
unfolding atoi_from
atoi-number = refl

strstr-Match_example : Match abc (98 ∷ 99 ∷ []) (strstr abc (98 ∷ 99 ∷ []))
strstr-Match_example =
    strstr-Match abc 98 (99 ∷ []) abc-AreChars
      ((omega arith, omega arith), ((omega arith, omega arith), tt))
