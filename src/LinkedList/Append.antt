-- ===== src/LinkedList/Append.antt =====
-- A node is added behind the others.
use c_osiris.Base.{
  ℕ, ◌≡◌, refl, sym, ap, ◌∙◌, none, some, List, [], ◌∷◌, ◌++◌, arith, length-append,
}
use mathlib.Core.Path.{subst}
use c_osiris.LinkedList.{Ptr, Heap, ListHead, set_prev, next_at, new_node, add_behind, list_add}
use c_osiris.LinkedList.Links.{
  first_or, last_or, Links, NotIn, Links-put, Links-join, next_at-other, Links-last, put_self,
}
use c_osiris.LinkedList.Refine.{IsList, AreDistinct-append}

-- The heap once the new node is behind the node at `t`.
abbrev chained : ListHead → ℕ → ℕ → Ptr → Heap
chained l a d t = next_at t (some a) (set_prev a t (new_node a d l.nodes))

chained-Links :
    (l : ListHead) (a d i : ℕ) (is : List ℕ)
    → IsList l (i ∷ is)
    → NotIn a (i ∷ is)
    → Links (chained l a d (last_or (some i) is)) none (i ∷ is ++ (a ∷ [])) none
chained-Links l a d i is v new =
    let t = last_or (some i) is in
    let h1 = new_node a d l.nodes in
    let h2 = set_prev a t h1 in
    let h3 = next_at t (some a) h2 in
    let old =
      Links-put h1 a _ none (i ∷ is) none new
        (Links-put l.nodes a _ none (i ∷ is) none new v.linked) in
    let own = next_at-other h2 (some a) i is a new.0 new.1 ∙ put_self h1 a _ in
    let made = put_self l.nodes a (record { prev = none; next = none; item = d }) in
    Links-join h3 none (i ∷ is) (a ∷ []) none (Links-last h2 none i is none (some a) v.distinct old)
      (ap (λ x. x.prev) own, (ap (λ x. x.next) own ∙ ap (λ x. x.next) made, tt))

tail_behind : (p : Ptr) (is : List ℕ) (a : ℕ) → some a ≡ last_or p (is ++ (a ∷ []))
tail_behind p [] a = refl
tail_behind p (i ∷ is) a = tail_behind (some i) is a

add-IsList :
    (l : ListHead) (ids : List ℕ) (a d : ℕ)
    → IsList l ids
    → NotIn a ids
    → IsList
        (add_behind (first_or ids none) a (record l { nodes = new_node a d l.nodes }))
        (ids ++ (a ∷ []))
unfolding add_behind
add-IsList l [] a d v new =
    let made = put_self l.nodes a (record { prev = none; next = none; item = d }) in
    record {
      head_is = refl;
      tail_is = refl;
      count = omega (arith, v.count);
      distinct = (tt, tt);
      linked = (ap (λ x. x.prev) made, (ap (λ x. x.next) made, tt));
    }
add-IsList l (i ∷ is) a d v new = record {
  head_is = v.head_is;
  tail_is = tail_behind none (i ∷ is) a;
  count = omega (arith, v.count, length-append is (a ∷ []));
  distinct = AreDistinct-append (i ∷ is) a new v.distinct;
  linked =
      subst (λ t. Links (chained l a d t) none (i ∷ is ++ (a ∷ [])) none) (sym v.tail_is)
        (chained-Links l a d i is v new);
}

-- `list_add` of a node that is not of the list puts it behind all others: the list is then well linked
-- in both directions, with its head, its tail and its count.
pub list_add-IsList :
    (l : ListHead) (ids : List ℕ) (a d : ℕ)
    → IsList l ids
    → NotIn a ids
    → IsList (list_add a d l) (ids ++ (a ∷ []))
unfolding list_add
list_add-IsList l ids a d v new =
    subst
      (λ p. IsList (add_behind p a (record l { nodes = new_node a d l.nodes })) (ids ++ (a ∷ [])))
      (sym v.head_is) (add-IsList l ids a d v new)
