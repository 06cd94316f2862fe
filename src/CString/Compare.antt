-- ===== src/CString/Compare.antt =====
-- The comparisons of strings, and the copy of at most `n` characters.
use c_osiris.Base.{
  ℕ, zero, suc, ◌-◌, ◌<◌, ◌≡◌, ◌↔◌, inl, inr, refl, ap, ◌∙◌, List, [], ◌∷◌, ◌++◌, arith, Bool-cases,
  ==_iff, ◌==◌, take, replicate, length, length-replicate,
}
use mathlib.Core.Path.{ap₂}
use c_osiris.Base.Ints.{pos}
use c_osiris.Memory.Copy.{char_diff_zero}
use c_osiris.CString.{strcmp, strncmp, strncpy}

abbrev pub AreChars : List ℕ → Type 0
AreChars [] = Unit {0}
AreChars (c ∷ s) = ((0 < c) × (c < 256)) × AreChars s

head_tail : (a b : ℕ) (s t : List ℕ) → a ∷ s ≡ b ∷ t → (a ≡ b) × (s ≡ t)
head_tail a b s t h = (cc, cc)

-- `strncmp` is 0 exactly where the first `n` characters of the two strings are the same.
pub strncmp_lem :
    (n : ℕ) (s t : List ℕ) → AreChars s → AreChars t → strncmp n s t ≡ pos 0 ↔ take n s ≡ take n t
unfolding strncmp
strncmp_lem zero s t v w = ((λ h. refl), (λ h. refl))
strncmp_lem (suc n) [] [] v w = ((λ h. refl), (λ h. refl))
strncmp_lem (suc n) [] (b ∷ t) v w = (
  (λ h. absurd (omega (arith, char_diff_zero 0 b (omega arith) w.0.1 h, w.0.0))),
  (λ h. absurd (cc)),
)
strncmp_lem (suc n) (a ∷ s) [] v w = (
  (λ h. absurd (omega (arith, char_diff_zero a 0 v.0.1 (omega arith) h, v.0.0))),
  (λ h. absurd (cc)),
)
strncmp_lem (suc n) (a ∷ s) (b ∷ t) v w =
    let rest = strncmp_lem n s t v.1 w.1 in
    elim (Bool-cases (a == b)) [
      | inl same ↦ rw same (
        (λ h. ap₂ ◌∷◌ ((==_iff a b).0 same) (rest.0 h)),
        (λ h. rest.1 (head_tail a b (take n s) (take n t) h).1),
      )
      | inr other ↦ rw other (
        (λ h. absurd (ground (arith, char_diff_zero a b v.0.1 w.0.1 h))),
        (λ h. let e = (head_tail a b (take n s) (take n t) h).0 in absurd (ground arith)),
      )
    ]

-- `strcmp` of two strings of characters from 1 to 255 is 0 exactly if they are equal.
pub strcmp_lem : (s t : List ℕ) → AreChars s → AreChars t → strcmp s t ≡ pos 0 ↔ s ≡ t
unfolding strcmp
strcmp_lem [] [] v w = ((λ h. refl), (λ h. refl))
strcmp_lem [] (b ∷ t) v w = (
  (λ h. absurd (omega (arith, char_diff_zero 0 b (omega arith) w.0.1 h, w.0.0))),
  (λ h. absurd (cc)),
)
strcmp_lem (a ∷ s) [] v w = (
  (λ h. absurd (omega (arith, char_diff_zero a 0 v.0.1 (omega arith) h, v.0.0))),
  (λ h. absurd (cc)),
)
strcmp_lem (a ∷ s) (b ∷ t) v w =
    let rest = strcmp_lem s t v.1 w.1 in
    elim (Bool-cases (a == b)) [
      | inl same ↦
          rw same
            ((λ h. ap₂ ◌∷◌ ((==_iff a b).0 same) (rest.0 h)), (λ h. rest.1 (head_tail a b s t h).1))
      | inr other ↦ rw other (
        (λ h. absurd (ground (arith, char_diff_zero a b v.0.1 w.0.1 h))),
        (λ h. let e = (head_tail a b s t h).0 in absurd (ground arith)),
      )
    ]

strncpy_nil : (n : ℕ) → strncpy n [] ≡ replicate n 0
unfolding strncpy
strncpy_nil zero = refl
strncpy_nil (suc n) = ap (λ l. 0 ∷ l) (strncpy_nil n)

-- `strncpy` writes exactly `n` bytes: the first `n` characters, and zeros behind a shorter string; with
-- `n` characters or more there is no NUL.
pub strncpy_lem :
    (n : ℕ) (s : List ℕ)
    → (strncpy n s ≡ take n s ++ replicate (n - length s) 0) × (length (strncpy n s) ≡ n)
unfolding strncpy
strncpy_lem zero s =
    let over : 0 ≡ 0 - length s = omega arith in (ap (λ k. replicate k 0) over, refl)
strncpy_lem (suc n) [] =
    let all : suc n ≡ suc n - 0 = omega arith in
    (
      strncpy_nil (suc n) ∙ ap (λ k. replicate k 0) all,
      ap suc (ap length (strncpy_nil n) ∙ length-replicate n 0),
    )
strncpy_lem (suc n) (c ∷ s) =
    let rest = strncpy_lem n s in
    let left : n - length s ≡ suc n - suc (length s) = omega arith in
    (ap (λ l. c ∷ l) (rest.0 ∙ ap (λ k. take n s ++ replicate k 0) left), ap suc rest.1)
