-- ===== src/LinkedList/Refine.antt =====
-- A list of nodes holds a sequence, and its operations are those of the sequence.
use c_osiris.Base.{
  ℕ, ◌≡◌, refl, sym, ap, ◌∙◌, none, some, List, [], ◌∷◌, ◌++◌, arith, length, length-append,
}
use mathlib.Core.Path.{subst}
use mathlib.Core.List.{append-nil}
use c_osiris.LinkedList.{Ptr, Heap, ListHead, next_at, prev_at, if_null, unlink, list_del}
use c_osiris.LinkedList.Links.{
  first_or, last_or, Links, NotIn, AreDistinct, Avoids, Links-next_at, Links-prev_at, Links-split,
  Links-join, Links-last, Links-first,
}

-- The nodes at these addresses are the list.
pub record IsList (l : ListHead) (ids : List ℕ) : Type 0 where
  pub head_is : l.head ≡ first_or ids none
  pub tail_is : l.tail ≡ last_or none ids
  pub count : l.num_items ≡ length ids
  pub distinct : AreDistinct ids
  pub linked : Links l.nodes none ids none

NotIn-split : (a : ℕ) (is js : List ℕ) → NotIn a (is ++ js) → NotIn a is × NotIn a js
NotIn-split a [] js n = (tt, n)
NotIn-split a (i ∷ is) js n = let rest = NotIn-split a is js n.1 in ((n.0, rest.0), rest.1)

NotIn-join : (a : ℕ) (is js : List ℕ) → NotIn a is → NotIn a js → NotIn a (is ++ js)
NotIn-join a [] js n m = m
NotIn-join a (i ∷ is) js n m = (n.0, NotIn-join a is js n.1 m)

AreDistinct-left : (is js : List ℕ) → AreDistinct (is ++ js) → AreDistinct is
AreDistinct-left [] js d = tt
AreDistinct-left (i ∷ is) js d = ((NotIn-split i is js d.0).0, AreDistinct-left is js d.1)

AreDistinct-right : (is js : List ℕ) → AreDistinct (is ++ js) → AreDistinct js
AreDistinct-right [] js d = d
AreDistinct-right (i ∷ is) js d = AreDistinct-right is js d.1

AreDistinct-drop :
    (is : List ℕ) (n : ℕ) (js : List ℕ) → AreDistinct (is ++ (n ∷ js)) → AreDistinct (is ++ js)
AreDistinct-drop [] n js d = d.1
AreDistinct-drop (i ∷ is) n js d =
    let (a, b) = NotIn-split i is (n ∷ js) d.0 in
    (NotIn-join i is js a b.1, AreDistinct-drop is n js d.1)

pub AreDistinct-append :
    (is : List ℕ) (a : ℕ) → NotIn a is → AreDistinct is → AreDistinct (is ++ (a ∷ []))
AreDistinct-append [] a n d = (tt, tt)
AreDistinct-append (i ∷ is) a n d =
    (NotIn-join i is (a ∷ []) d.0 ((λ e. n.0 (sym e)), tt), AreDistinct-append is a n.1 d.1)

-- Neither end of one part is in the other.
Avoids-last :
    (p : Ptr) (is js : List ℕ) → Avoids p js → AreDistinct (is ++ js) → Avoids (last_or p is) js
Avoids-last p [] js v d = v
Avoids-last p (i ∷ is) js v d = Avoids-last (some i) is js (NotIn-split i is js d.0).1 d.1

NotIn-left : (is : List ℕ) (b : ℕ) (js : List ℕ) → AreDistinct (is ++ (b ∷ js)) → NotIn b is
NotIn-left [] b js d = tt
NotIn-left (i ∷ is) b js d =
    ((λ e. (NotIn-split i is (b ∷ js) d.0).1.0 (sym e)), NotIn-left is b js d.1)

Avoids-first : (is js : List ℕ) → AreDistinct (is ++ js) → Avoids (first_or js none) is
Avoids-first is [] d = tt
Avoids-first is (b ∷ js) d = NotIn-left is b js d

pub last_or-append : (p : Ptr) (is js : List ℕ) → last_or p (is ++ js) ≡ last_or (last_or p is) js
last_or-append p [] js = refl
last_or-append p (i ∷ is) js = last_or-append (some i) is js

if_null-last : (i : ℕ) (is : List ℕ) (p q : Ptr) → if_null (last_or (some i) is) p q ≡ q
if_null-last i [] p q = refl
if_null-last i (j ∷ is) p q = if_null-last j is p q

-- The front part, once its last node points past the node that goes.
front :
    (h : Heap) (is js : List ℕ) (s : Ptr)
    → AreDistinct (is ++ js)
    → Links h none is s
    → Links (next_at (last_or none is) (first_or js none) h) none is (first_or js none)
front h [] js s d l = tt
front h (i ∷ is) js s d l =
    Links-last h none i is s (first_or js none) (AreDistinct-left (i ∷ is) js d) l

unlink-head :
    (l : ListHead) (is js : List ℕ) (n : ℕ)
    → l.head ≡ first_or (is ++ (n ∷ js)) none
    → if_null (last_or none is) (first_or js none) l.head ≡ first_or (is ++ js) none
unlink-head l [] js n e = refl
unlink-head l (i ∷ is) js n e = if_null-last i is (first_or js none) l.head ∙ e

unlink-tail :
    (l : ListHead) (is js : List ℕ) (n : ℕ)
    → l.tail ≡ last_or none (is ++ (n ∷ js))
    → if_null (first_or js none) (last_or none is) l.tail ≡ last_or none (is ++ js)
unlink-tail l is [] n e = ap (last_or none) (sym (append-nil is))
unlink-tail l is (b ∷ js) n e =
    e ∙ last_or-append none is (n ∷ b ∷ js) ∙ sym (last_or-append none is (b ∷ js))

unlink-IsList :
    (l : ListHead) (is js : List ℕ) (n : ℕ)
    → IsList l (is ++ (n ∷ js))
    → IsList (unlink (last_or none is) (first_or js none) l) (is ++ js)
unfolding unlink
unlink-IsList l is js n v =
    let p = last_or none is in
    let q = first_or js none in
    let d = AreDistinct-drop is n js v.distinct in
    let (a, b) = Links-split l.nodes none is (n ∷ js) none v.linked in
    let h = next_at p q l.nodes in
    let before =
      Links-prev_at h q p none is q (Avoids-first is js d) (front l.nodes is js (some n) d a) in
    let after =
      Links-first h (some n) js none p (AreDistinct-right is js d)
        (Links-next_at l.nodes p q (some n) js none (Avoids-last none is js tt d) b.1.1) in
    record {
      head_is = unlink-head l is js n v.head_is;
      tail_is = unlink-tail l is js n v.tail_is;
      count = omega (arith, v.count, length-append is (n ∷ js), length-append is js);
      distinct = d;
      linked = Links-join (prev_at q p h) none is js none before after;
    }

-- `list_del` of a node takes it, and no other, out of the sequence: the list is then well linked in both
-- directions, with its head, its tail and its count.
pub list_del-IsList :
    (l : ListHead) (is js : List ℕ) (n : ℕ)
    → IsList l (is ++ (n ∷ js))
    → IsList (list_del n l) (is ++ js)
unfolding list_del
list_del-IsList l is js n v =
    let b = (Links-split l.nodes none is (n ∷ js) none v.linked).1 in
    subst (λ p. IsList (unlink p (l.nodes n).next l) (is ++ js)) (sym b.0)
      (subst (λ q. IsList (unlink (last_or none is) q l) (is ++ js)) (sym b.1.0)
        (unlink-IsList l is js n v))
