-- ===== src/LinkedList/Links.antt =====
-- The pointers of a chain of nodes, and what a write to one of them changes.
use c_osiris.Base.{
  ℕ, ◌≡◌, ◌≢◌, refl, sym, ap, ◌∙◌, true, false, none, some, List, [], ◌∷◌, ◌++◌, arith, ◌==◌,
  ==-eq_true,
}
use c_osiris.LinkedList.{Ptr, Node, Heap, put, next_at, prev_at}

abbrev pub first_or : List ℕ → Ptr → Ptr
first_or [] q = q
first_or (i ∷ is) q = some i

abbrev pub last_or : Ptr → List ℕ → Ptr
last_or p [] = p
last_or p (i ∷ is) = last_or (some i) is

-- The nodes at these addresses are chained in both directions, between `p` and `q`.
abbrev pub Links : Heap → Ptr → List ℕ → Ptr → Type 0
Links h p [] q = Unit {0}
Links h p (i ∷ is) q = ((h i).prev ≡ p) × (((h i).next ≡ first_or is q) × Links h (some i) is q)

abbrev pub NotIn : ℕ → List ℕ → Type 0
NotIn a [] = Unit {0}
NotIn a (i ∷ is) = (i ≢ a) × NotIn a is

abbrev pub AreDistinct : List ℕ → Type 0
AreDistinct [] = Unit {0}
AreDistinct (i ∷ is) = NotIn i is × AreDistinct is

-- A pointer to none of them.
abbrev pub Avoids : Ptr → List ℕ → Type 0
Avoids none is = Unit {0}
Avoids (some a) is = NotIn a is

pub put_self : (h : Heap) (a : ℕ) (v : Node) → put h a v a ≡ v
put_self h a v = let same : (a == a) ≡ true = ==-eq_true a a refl in rw same refl

pub put_ne : (h : Heap) (a : ℕ) (v : Node) (b : ℕ) → b ≢ a → put h a v b ≡ h b
put_ne h a v b ne = let other : (b == a) ≡ false = ground arith in rw other refl

pub Links-put :
    (h : Heap) (a : ℕ) (v : Node) (p : Ptr) (is : List ℕ) (q : Ptr)
    → NotIn a is
    → Links h p is q
    → Links (put h a v) p is q
Links-put h a v p [] q n l = tt
Links-put h a v p (i ∷ is) q n l =
    let same = put_ne h a v i n.0 in
    (
      ap (λ x. x.prev) same ∙ l.0,
      (ap (λ x. x.next) same ∙ l.1.0, Links-put h a v (some i) is q n.1 l.1.1),
    )

pub Links-next_at :
    (h : Heap) (r s p : Ptr) (is : List ℕ) (q : Ptr)
    → Avoids r is
    → Links h p is q
    → Links (next_at r s h) p is q
unfolding next_at
Links-next_at h none s p is q n l = l
Links-next_at h (some a) s p is q n l = Links-put h a _ p is q n l

pub Links-prev_at :
    (h : Heap) (r s p : Ptr) (is : List ℕ) (q : Ptr)
    → Avoids r is
    → Links h p is q
    → Links (prev_at r s h) p is q
unfolding prev_at
Links-prev_at h none s p is q n l = l
Links-prev_at h (some a) s p is q n l = Links-put h a _ p is q n l

first_or-append : (is js : List ℕ) (q : Ptr) → first_or (is ++ js) q ≡ first_or is (first_or js q)
first_or-append [] js q = refl
first_or-append (i ∷ is) js q = refl

-- A chain is cut, and two are joined.
pub Links-split :
    (h : Heap) (p : Ptr) (is js : List ℕ) (q : Ptr)
    → Links h p (is ++ js) q
    → Links h p is (first_or js q) × Links h (last_or p is) js q
Links-split h p [] js q l = (tt, l)
Links-split h p (i ∷ is) js q l =
    let rest = Links-split h (some i) is js q l.1.1 in
    ((l.0, (l.1.0 ∙ first_or-append is js q, rest.0)), rest.1)

pub Links-join :
    (h : Heap) (p : Ptr) (is js : List ℕ) (q : Ptr)
    → Links h p is (first_or js q)
    → Links h (last_or p is) js q
    → Links h p (is ++ js) q
Links-join h p [] js q l m = m
Links-join h p (i ∷ is) js q l m =
    (l.0, (l.1.0 ∙ sym (first_or-append is js q), Links-join h (some i) is js q l.1.1 m))

-- A write to the last node's `next` leaves a node that is not of the chain.
pub next_at-other :
    (h : Heap) (q : Ptr) (i : ℕ) (is : List ℕ) (a : ℕ)
    → i ≢ a
    → NotIn a is
    → next_at (last_or (some i) is) q h a ≡ h a
unfolding next_at
next_at-other h q i [] a ne n = put_ne h i _ a (λ e. ne (sym e))
next_at-other h q i (j ∷ is) a ne n = next_at-other h q j is a n.0 n.1

-- A write to the last node's `next`.
pub Links-last :
    (h : Heap) (p : Ptr) (i : ℕ) (is : List ℕ) (q s : Ptr)
    → AreDistinct (i ∷ is)
    → Links h p (i ∷ is) q
    → Links (next_at (last_or (some i) is) s h) p (i ∷ is) s
unfolding next_at
Links-last h p i [] q s d l =
    let same = put_self h i (record (h i) { next = s }) in
    (ap (λ x. x.prev) same ∙ l.0, (ap (λ x. x.next) same, tt))
Links-last h p i (j ∷ is) q s d l =
    let same = next_at-other h s j is i d.0.0 d.0.1 in
    (
      ap (λ x. x.prev) same ∙ l.0,
      (ap (λ x. x.next) same ∙ l.1.0, Links-last h (some i) j is q s d.1 l.1.1),
    )

-- A write to the first node's `prev`.
pub Links-first :
    (h : Heap) (p : Ptr) (is : List ℕ) (q s : Ptr)
    → AreDistinct is
    → Links h p is q
    → Links (prev_at (first_or is none) s h) s is q
unfolding prev_at
Links-first h p [] q s d l = tt
Links-first h p (i ∷ is) q s d l =
    let same = put_self h i (record (h i) { prev = s }) in
    (
      ap (λ x. x.prev) same,
      (ap (λ x. x.next) same ∙ l.1.0, Links-put h i _ (some i) is q d.0 l.1.1),
    )
