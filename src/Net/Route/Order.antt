-- ===== src/Net/Route/Order.antt =====
-- The table stays sorted, so the first route that matches is the greatest.
use Prim.Native.Nat.{bit_and}
use mathlib.Core.Path.{subst}
use c_osiris.Base.{
  ℕ, ◌<◌, ◌≡◌, ◌⊎◌, inl, inr, refl, true, false, ◌&&◌, none, some, List, [], ◌∷◌, arith, Bool-cases,
  ==_iff, ◌==◌,
}
use c_osiris.Net.Route.{Route, exists, goes_before, insert, add, find}

-- `r` stands in front of `s`: it has the greater base, or the same and the greater mask.
abbrev pub Precedes : Route → Route → Type 0
Precedes r s = (s.base < r.base) ⊎ ((s.base ≡ r.base) × (s.mask < r.mask))

abbrev pub All : (Route → Type 0) → List Route → Type 0
All P [] = Unit {0}
All P (r ∷ rs) = P r × All P rs

abbrev pub IsSorted : List Route → Type 0
IsSorted [] = Unit {0}
IsSorted (r ∷ rs) = All (Precedes r) rs × IsSorted rs

All-map : (P Q : Route → Type 0) (rs : List Route) → ((r : Route) → P r → Q r) → All P rs → All Q rs
All-map P Q [] f a = tt
All-map P Q (r ∷ rs) f a = (f r a.0, All-map P Q rs f a.1)

All-insert :
    (P : Route → Type 0) (r : Route) (rs : List Route) → P r → All P rs → All P (insert r rs)
unfolding insert
All-insert P r [] p a = (p, tt)
All-insert P r (s ∷ rs) p a = elim (Bool-cases (goes_before r s)) [
  | inl here ↦ rw here (p, a)
  | inr on ↦ rw on (a.0, All-insert P r rs p a.1)
]

goes_before_lem : (r s : Route) → goes_before r s ≡ true → Precedes r s
unfolding goes_before
goes_before_lem r s h = ground arith

-- Where the loop goes on, a route that is not the same stands in front.
passes :
    (r s : Route)
    → goes_before r s ≡ false
    → (s.base == r.base && s.mask == r.mask) ≡ false
    → Precedes s r
unfolding goes_before
passes r s h ne = ground arith

Precedes-trans : (r s t : Route) → Precedes r s → Precedes s t → Precedes r t
Precedes-trans r s t a b = ground arith

insert-IsSorted :
    (r : Route) (rs : List Route)
    → exists r.base r.mask rs ≡ false
    → IsSorted rs
    → IsSorted (insert r rs)
unfolding insert exists
insert-IsSorted r [] new v = (tt, tt)
insert-IsSorted r (s ∷ rs) new v = elim (Bool-cases (goes_before r s)) [
  | inl here ↦
      let front = goes_before_lem r s here in
      rw here
        ((front, All-map (Precedes s) (Precedes r) rs (λ t. Precedes-trans r s t front) v.0), v)
  | inr on ↦ rw on (
    All-insert (Precedes s) r rs (passes r s on (ground arith)) v.0,
    insert-IsSorted r rs (ground arith) v.1,
  )
]

-- `route_add` keeps a sorted table sorted, in strictly descending order of base and mask, and it
-- refuses a route whose base and mask are there already: the table is unchanged then.
pub add-IsSorted :
    (base mask gateway netif : ℕ) (rs : List Route)
    → IsSorted rs
    → IsSorted (add base mask gateway netif rs).1
      × (exists (bit_and base mask) mask rs ≡ true → add base mask gateway netif rs ≡ (false, rs))
unfolding add
add-IsSorted base mask gateway netif rs v = elim (Bool-cases (exists (bit_and base mask) mask rs)) [
  | inl there ↦ rw there (v, λ h. refl)
  | inr new ↦ rw new (insert-IsSorted _ rs new v, λ h. cc)
]

-- The route holds the address.
abbrev pub Matches : ℕ → Route → Type 0
Matches ip r = bit_and ip r.mask ≡ r.base

-- The route stands in the table.
abbrev pub Contains : Route → List Route → Type 0
Contains r [] = ⊥
Contains r (s ∷ rs) = (r ≡ s) ⊎ Contains r rs

-- In a sorted table `route_find` returns a route of the table that holds the address, and every other
-- that holds it comes behind: it has a smaller base, or the same base and a smaller mask. Where it
-- returns nothing, no route of the table holds the address.
pub find_lem :
    (ip : ℕ) (rs : List Route)
    → IsSorted rs
    → ((r : Route)
        → find ip rs ≡ some r
        → Contains r rs × (Matches ip r × All (λ s. Matches ip s → (s ≡ r) ⊎ Precedes r s) rs))
      × (find ip rs ≡ none → All (λ s. ¬ Matches ip s) rs)
unfolding find
find_lem ip [] v = (λ r h. cc, λ h. tt)
find_lem ip (s ∷ rs) v = elim (Bool-cases (bit_and ip s.mask == s.base)) [
  | inl hit ↦ rw hit (
    λ r h.
        let same : s ≡ r = cc in
        subst
          (λ q.
            Contains q (s ∷ rs)
            × (Matches ip q × All (λ t. Matches ip t → (t ≡ q) ⊎ Precedes q t) (s ∷ rs)))
          same
          (
            inl refl,
            (
              (==_iff _ s.base).0 hit,
              (
                λ m. inl refl,
                All-map (Precedes s) (λ t. Matches ip t → (t ≡ s) ⊎ Precedes s t) rs
                    (λ t p m. inr p) v.0,
              ),
            ),
          ),
    λ h. cc,
  )
  | inr miss ↦
      let rest = find_lem ip rs v.1 in
      rw miss (
        λ r h.
            let found = rest.0 r h in
            (inr found.0, (found.1.0, (λ m. absurd (ground arith), found.1.1))),
        λ h. (λ m. ground arith, rest.1 h),
      )
]
