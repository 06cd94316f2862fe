-- ===== src/Bname/Split.antt =====
-- Where a path is cut.
use c_osiris.Base.{
  ℕ, zero, suc, ◌+◌, ◌-◌, ◌≤◌, ◌<◌, ◌≡◌, ◌≢◌, ◌⊎◌, inl, inr, refl, sym, ap, ◌∙◌, ◌&&◌, List, [],
  ◌∷◌, ◌++◌, arith, Bool-cases, ==_iff, ltb, ◌==◌, length, get_or, take, drop,
}
use mathlib.Core.Path.{ap₂}
use c_osiris.Bname.{slash, scan, name_pos, bname}

-- The loop stops at the last slash behind the first character.
record Scanned (p : ℕ) (path : List ℕ) (q : ℕ) : Type 0 where
  below : q ≤ p
  no_later : (i : ℕ) → q < i → i ≤ p → get_or path i 0 ≢ slash
  stops : (q ≡ 0) ⊎ (get_or path q 0 ≡ slash)

scan-Scanned : (p : ℕ) (path : List ℕ) → Scanned p path (scan p path)
unfolding scan
scan-Scanned zero path = record {
  below = omega arith;
  no_later = λ i a b. absurd (omega arith);
  stops = inl refl;
}
scan-Scanned (suc p) path = elim (Bool-cases (get_or path (suc p) 0 == slash)) [
  | inl hit ↦ rw hit (record {
    below = omega arith;
    no_later = λ i a b. absurd (omega arith);
    stops = inr ((==_iff (get_or path (suc p) 0) slash).0 hit);
  })
  | inr miss ↦
      let rest = scan-Scanned p path in
      rw miss (record {
        below = omega (arith, rest.below);
        no_later = λ i a b. elim (Bool-cases (i == suc p)) [
          | inl last ↦ λ e.
              let same : get_or path (suc p) 0 ≡ get_or path i 0 =
                ap (λ k. get_or path k 0) (ground arith) in
              absurd (ground arith)
          | inr early ↦ rest.no_later i a (ground arith)
        ];
        stops = rest.stops;
      })
]

get_or-end : (i : ℕ) (path : List ℕ) → length path ≤ i → get_or path i 0 ≡ 0
get_or-end i [] le = refl
get_or-end zero (c ∷ path) le = absurd (omega arith)
get_or-end (suc i) (c ∷ path) le = get_or-end i path (omega arith)

no_slash :
    (path : List ℕ) (p i : ℕ) → Scanned (length path) path p → p < i → get_or path i 0 ≢ slash
no_slash path p i s lt e = elim (Bool-cases (ltb (length path) i)) [
  | inl behind ↦ absurd (ground (arith, get_or-end i path (ground arith)))
  | inr within ↦ s.no_later i lt (ground arith) e
]

-- The slash at which the loop stops is not the NUL behind the path.
slash-lt : (path : List ℕ) (p : ℕ) → p ≤ length path → get_or path p 0 ≡ slash → p < length path
slash-lt path p le e = elim (Bool-cases (p == length path)) [
  | inl last ↦ absurd (ground (arith, get_or-end p path (ground arith)))
  | inr within ↦ ground arith
]

-- The last name begins at the start of the path or behind a slash, and has no slash.
pub name_pos_lem :
    (path : List ℕ)
    → (name_pos path ≤ length path)
      × (((name_pos path ≡ 0) ⊎ (get_or path (name_pos path - 1) 0 ≡ slash))
          × ((i : ℕ) → name_pos path ≤ i → get_or path i 0 ≢ slash))
unfolding name_pos
name_pos_lem path =
    let p = scan (length path) path in
    let s = scan-Scanned (length path) path in
    elim (Bool-cases (get_or path p 0 == slash)) [
      | inl hit ↦
          let e : get_or path p 0 ≡ slash = (==_iff (get_or path p 0) slash).0 hit in
          let back : p + 1 - 1 ≡ p = omega arith in
          rw hit (
            omega (arith, slash-lt path p s.below e),
            (inr (ap (λ k. get_or path k 0) back ∙ e), λ i le. no_slash path p i s (omega arith)),
          )
      | inr miss ↦
          let other : get_or path p 0 ≢ slash = λ e. ground arith in
          rw miss (
            s.below,
            (
              elim s.stops [ inl z ↦ inl z | inr e ↦ absurd (other e) ],
              λ i le e. elim (Bool-cases (i == p)) [
                | inl same ↦
                    let at_p : get_or path p 0 ≡ get_or path i 0 =
                      ap (λ k. get_or path k 0) (ground arith) in
                    other (at_p ∙ e)
                | inr later ↦ no_slash path p i s (ground arith) e
              ],
            ),
          )
    ]

take-drop : (n : ℕ) (xs : List ℕ) → take n xs ++ drop n xs ≡ xs
take-drop zero xs = refl
take-drop (suc n) [] = refl
take-drop (suc n) (x ∷ xs) = ap (λ l. x ∷ l) (take-drop n xs)

take-drop_at :
    (n : ℕ) (xs : List ℕ) → n < length xs → take n xs ++ (get_or xs n 0 ∷ drop (suc n) xs) ≡ xs
take-drop_at n [] h = absurd (omega arith)
take-drop_at zero (x ∷ xs) h = refl
take-drop_at (suc n) (x ∷ xs) h = ap (λ l. x ∷ l) (take-drop_at n xs (omega arith))

-- `bname` cuts the path in two: the directory, a slash that it may have lost, and the name together
-- are the path.
pub bname_lem :
    (path : List ℕ)
    → ((bname path).0 ++ (bname path).1 ≡ path)
      ⊎ ((bname path).0 ++ (slash ∷ (bname path).1) ≡ path)
unfolding bname
bname_lem path =
    let pos = name_pos path in
    let (le, (starts, _)) = name_pos_lem path in
    elim (Bool-cases (ltb 1 pos && get_or (take pos path) (pos - 1) 0 == slash)) [
      | inl trimmed ↦
          let far : 1 < pos = ground arith in
          let e : get_or path (pos - 1) 0 ≡ slash = elim starts [
            | inl z ↦ absurd (omega arith)
            | inr e ↦ e
          ] in
          let back : pos ≡ suc (pos - 1) = omega arith in
          rw trimmed (
            inr (
              ap₂ (λ (c n : ℕ). take (pos - 1) path ++ (c ∷ drop n path)) (sym e) back
              ∙ take-drop_at (pos - 1) path (omega arith)))
      | inr whole ↦ rw whole (inl (take-drop pos path))
    ]
