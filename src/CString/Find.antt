-- ===== src/CString/Find.antt =====
-- `strstr` finds the first place of a string in another.
use c_osiris.Base.{
  ℕ, zero, suc, ◌+◌, ◌<◌, ◌≡◌, ◌≢◌, ◌↔◌, inl, inr, refl, sym, ap, ◌∙◌, Bool, true, Option, none,
  some, List, [], ◌∷◌, ◌++◌, arith, Bool-cases, ==_iff, if◌then◌else◌, length, take, take_all,
  length-append,
}
use mathlib.Core.Path.{subst}
use c_osiris.Base.Ints.{ℤ, pos, negsuc}
use c_osiris.CString.{strlen, strlen_from, strncmp, strchr, is_zero, match_at, strstr_loop, strstr}
use c_osiris.CString.Compare.{AreChars, strncmp_lem}
use c_osiris.CString.Search.{Without, Found, strchr-Found}

-- `t` is at no place of `b ++ s` that is in `b`.
abbrev pub IsNowhere : List ℕ → List ℕ → List ℕ → Type 0
IsNowhere t [] s = Unit {0}
IsNowhere t (a ∷ b) s = (take (length t) (a ∷ (b ++ s)) ≢ t) × IsNowhere t b s

-- What `strstr` comes to: the string from the first place on, or NULL if there is none.
pub data Match (s t : List ℕ) (r : Option (List ℕ)) : Type 0 where
  at :
      (before after : List ℕ)
      → s ≡ before ++ after
      → r ≡ some after
      → take (length t) after ≡ t
      → IsNowhere t before after
      → Match s t r
  absent : r ≡ none → IsNowhere t s [] → Match s t r

strlen_from_lem : (i : ℕ) (s : List ℕ) → strlen_from i s ≡ i + length s
unfolding strlen_from
strlen_from_lem i [] = omega arith
strlen_from_lem i (c ∷ s) = omega (arith, strlen_from_lem (i + 1) s)

is_zero_iff : (z : ℤ) → is_zero z ≡ true ↔ z ≡ pos 0
is_zero_iff (pos n) = (λ h. ap pos ((==_iff n 0).0 h), λ h. ground (arith, h))
is_zero_iff (negsuc n) = (λ h. absurd (cc), λ h. absurd (cc))

first_differs : (a c : ℕ) (s t : List ℕ) → a ≢ c → take (length (c ∷ t)) (a ∷ s) ≢ c ∷ t
first_differs a c s t ne e = ne (cc)

IsNowhere-Without : (c : ℕ) (t b s : List ℕ) → Without c b → IsNowhere (c ∷ t) b s
IsNowhere-Without c t [] s w = tt
IsNowhere-Without c t (a ∷ b) s w =
    (first_differs a c (b ++ s) t w.0, IsNowhere-Without c t b s w.1)

++-nil : (b : List ℕ) → b ++ [] ≡ b
++-nil [] = refl
++-nil (a ∷ b) = ap (λ l. a ∷ l) (++-nil b)

++-assoc : (a b c : List ℕ) → (a ++ b) ++ c ≡ a ++ (b ++ c)
++-assoc [] b c = refl
++-assoc (x ∷ a) b c = ap (λ l. x ∷ l) (++-assoc a b c)

IsNowhere-append :
    (t a b s : List ℕ) → IsNowhere t a (b ++ s) → IsNowhere t b s → IsNowhere t (a ++ b) s
IsNowhere-append t [] b s h g = g
IsNowhere-append t (x ∷ a) b s h g = (
  subst (λ (l : List ℕ). take (length t) (x ∷ l) ≢ t) (sym (++-assoc a b s)) h.0,
  IsNowhere-append t a b s h.1 g,
)

chars_behind : (a b : List ℕ) → AreChars (a ++ b) → AreChars b
chars_behind [] b h = h
chars_behind (x ∷ a) b h = chars_behind a b h.1

-- The rest of the search, behind a first character that is no place.
later-Match :
    (c : ℕ) (t b after : List ℕ) (s : List ℕ) (r : Option (List ℕ))
    → s ≡ b ++ (c ∷ after)
    → Without c b
    → take (length (c ∷ t)) (c ∷ after) ≢ c ∷ t
    → Match after (c ∷ t) r
    → Match s (c ∷ t) r
later-Match c t b after s r e w ne (Match.at x y is found here before) =
    let place : s ≡ (b ++ (c ∷ x)) ++ y =
      e ∙ ap (λ (l : List ℕ). b ++ (c ∷ l)) is ∙ sym (++-assoc b (c ∷ x) y) in
    Match.at (b ++ (c ∷ x)) y place found here (
      IsNowhere-append (c ∷ t) b (c ∷ x) y (IsNowhere-Without c t b ((c ∷ x) ++ y) w)
        (subst (λ (l : List ℕ). take (length (c ∷ t)) (c ∷ l) ≢ c ∷ t) is ne, before))
later-Match c t b after s r e w ne (Match.absent none_found nowhere) = Match.absent none_found (
    subst (λ (l : List ℕ). IsNowhere (c ∷ t) l []) (sym e)
      (IsNowhere-append (c ∷ t) b (c ∷ after) [] (IsNowhere-Without c t b ((c ∷ after) ++ []) w) (
        subst (λ (l : List ℕ). take (length (c ∷ t)) (c ∷ l) ≢ c ∷ t) (sym (++-nil after)) ne,
        nowhere,
      )))

strstr_loop-Match :
    (n : ℕ) (s : List ℕ) (c : ℕ) (t : List ℕ)
    → length s < n
    → AreChars s
    → AreChars (c ∷ t)
    → Match s (c ∷ t) (strstr_loop n s (c ∷ t))
unfolding strstr_loop match_at
strstr_loop-Match zero s c t h v w = absurd (omega arith)
strstr_loop-Match (suc n) s c t h v w =
    go (λ after lt u. strstr_loop-Match n after c t lt u w) (strchr c s) (strchr-Found c s)
  where
    test :
        (p : List ℕ)
        → AreChars p
        → is_zero (strncmp (strlen (c ∷ t)) p (c ∷ t)) ≡ true ↔ take (length (c ∷ t)) p ≡ c ∷ t
    test p u =
        let m = length (c ∷ t) in
        let same : strlen (c ∷ t) ≡ m = strlen_from_lem 0 (c ∷ t) ∙ omega arith in
        let whole : take m (c ∷ t) ≡ c ∷ t = take_all m (c ∷ t) (omega arith) in
        let equal = strncmp_lem m p (c ∷ t) u w in
        let zero_iff = is_zero_iff (strncmp m p (c ∷ t)) in
        subst (λ (k : ℕ). is_zero (strncmp k p (c ∷ t)) ≡ true ↔ take m p ≡ c ∷ t) (sym same)
          (λ h. equal.0 (zero_iff.0 h) ∙ whole, λ h. zero_iff.1 (equal.1 (h ∙ sym whole)))

    go :
        ((after : List ℕ)
          → length after < n
          → AreChars after
          → Match after (c ∷ t) (strstr_loop n after (c ∷ t)))
        → (r : Option (List ℕ)) → Found c s r
        → Match s (c ∷ t) (match_at (c ∷ t) r (λ p. strstr_loop n p (c ∷ t)))
    go again r (Found.absent nz wo is) =
        subst
          (λ (x : Option (List ℕ)).
            Match s (c ∷ t) (match_at (c ∷ t) x (λ p. strstr_loop n p (c ∷ t))))
          (sym is) (Match.absent refl (IsNowhere-Without c t s [] wo))
    go again r (Found.at_end z wo is) = absurd (omega (arith, w.0.0))
    go again r (Found.at b after e wo is) =
        let u = chars_behind b (c ∷ after) (subst AreChars e v) in
        let shorter : length after < n = omega (arith, ap length e, length-append b (c ∷ after)) in
        subst
          (λ (x : Option (List ℕ)).
            Match s (c ∷ t) (match_at (c ∷ t) x (λ p. strstr_loop n p (c ∷ t))))
          (sym is)
          (elim (Bool-cases (is_zero (strncmp (strlen (c ∷ t)) (c ∷ after) (c ∷ t)))) [
            | inl y ↦
                subst
                  (λ (x : Bool).
                    Match s (c ∷ t) (if x then some (c ∷ after) else strstr_loop n after (c ∷ t)))
                  (sym y)
                  (Match.at b (c ∷ after) e refl ((test (c ∷ after) u).0 y)
                    (IsNowhere-Without c t b (c ∷ after) wo))
            | inr y ↦
                subst
                  (λ (x : Bool).
                    Match s (c ∷ t) (if x then some (c ∷ after) else strstr_loop n after (c ∷ t)))
                  (sym y)
                  (later-Match c t b after s (strstr_loop n after (c ∷ t)) e wo
                    (λ m. let z = (test (c ∷ after) u).1 m in absurd (cc))
                    (again after shorter u.1))
          ])

-- At strings of characters from 1 to 255, `strstr` of one that is not empty gives the other from the
-- first place on at which it is, or NULL if it is at none; `strlen s + 1` rounds are enough.
pub strstr-Match :
    (s : List ℕ) (c : ℕ) (t : List ℕ)
    → AreChars s
    → AreChars (c ∷ t)
    → Match s (c ∷ t) (strstr s (c ∷ t))
unfolding strstr
strstr-Match s c t v w =
    strstr_loop-Match (strlen s + 1) s c t (omega (arith, strlen_from_lem 0 s)) v w
