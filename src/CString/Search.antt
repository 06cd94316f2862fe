-- ===== src/CString/Search.antt =====
-- What `strchr` finds, and the tests of characters.
use c_osiris.Base.{
  ℕ, ◌≤◌, ◌≡◌, ◌≢◌, ◌⊎◌, ◌↔◌, inl, inr, refl, ap, true, Option, none, some, List, [], ◌∷◌, ◌++◌,
  arith, Bool-cases, ==_iff, ◌==◌,
}
use c_osiris.CString.{strchr, isspace}

abbrev pub Without : ℕ → List ℕ → Type 0
Without c [] = Unit {0}
Without c (a ∷ s) = (a ≢ c) × Without c s

-- The string from the first `c` on, or its end for the NUL.
pub data Found (c : ℕ) (s : List ℕ) (r : Option (List ℕ)) : Type 0 where
  at :
      (before after : List ℕ)
      → s ≡ before ++ (c ∷ after)
      → Without c before
      → r ≡ some (c ∷ after)
      → Found c s r
  at_end : c ≡ 0 → Without c s → r ≡ some [] → Found c s r
  absent : c ≢ 0 → Without c s → r ≡ none → Found c s r

Found-cons : (a c : ℕ) (s : List ℕ) (r : Option (List ℕ)) → a ≢ c → Found c s r → Found c (a ∷ s) r
Found-cons a c s r ne (at b t e w f) = at (a ∷ b) t (ap (λ l. a ∷ l) e) (ne, w) f
Found-cons a c s r ne (at_end z w f) = at_end z (ne, w) f
Found-cons a c s r ne (absent z w f) = absent z (ne, w) f

-- `strchr` returns the string from the first occurrence of the character on; the end of the string for
-- the NUL where the string does not have it before; and NULL exactly where the character, not the
-- NUL, does not occur.
pub strchr-Found : (c : ℕ) (s : List ℕ) → Found c s (strchr c s)
unfolding strchr
strchr-Found c [] = elim (Bool-cases (c == 0)) [
  | inl z ↦ rw z (at_end (ground arith) tt refl)
  | inr nz ↦ rw nz (absent (ground arith) tt refl)
]
strchr-Found c (a ∷ s) = elim (Bool-cases (a == c)) [
  | inl hit ↦
      let e : a ≡ c = (==_iff a c).0 hit in
      rw hit (at [] s (ap (λ x. x ∷ s) e) tt (ap (λ x. some (x ∷ s)) e))
  | inr miss ↦ rw miss (Found-cons a c s _ (ground arith) (strchr-Found c s))
]

-- `isspace` holds exactly for the six white-space characters and for the NUL, which is no
-- white space.
pub isspace_lem : (c : ℕ) → isspace c ≡ true ↔ ((c ≡ 32) ⊎ ((c ≡ 0) ⊎ ((9 ≤ c) × (c ≤ 13))))
unfolding isspace
isspace_lem c = ground arith
