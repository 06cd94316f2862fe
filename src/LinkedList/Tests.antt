-- ===== src/LinkedList/Tests.antt =====
-- The theorems on a list of three nodes.
use c_osiris.Base.{◌==◌, if◌then◌else◌, ◌≡◌, refl, none, some, [], ◌∷◌, arith}
use c_osiris.LinkedList.{Heap, ListHead, list_add, list_del, list_insert_before}
use c_osiris.LinkedList.Refine.{IsList, list_del-IsList}
use c_osiris.LinkedList.Append.{list_add-IsList}

abbrev heap : Heap
heap a = record { prev = none; next = none; item = 0 }

abbrev chain : Heap
chain a =
    if a == 1
    then record { prev = none; next = some 2; item = 10 }
    else if a == 2
    then record { prev = some 1; next = some 3; item = 20 }
    else if a == 3
    then record { prev = some 2; next = none; item = 30 }
    else heap a

abbrev three : ListHead
three = record { nodes = chain; head = some 1; tail = some 3; num_items = 3 }

three-IsList : IsList three (1 ∷ 2 ∷ 3 ∷ [])
three-IsList = record {
  head_is = refl;
  tail_is = refl;
  count = refl;
  distinct = (
    ((λ e. absurd (omega arith)), ((λ e. absurd (omega arith)), tt)),
    (((λ e. absurd (omega arith)), tt), (tt, tt)),
  );
  linked = (refl, (refl, (refl, (refl, (refl, (refl, tt))))));
}

list_del-IsList_example : IsList (list_del 2 three) (1 ∷ 3 ∷ [])
list_del-IsList_example = list_del-IsList three (1 ∷ []) (3 ∷ []) 2 three-IsList

list_add-IsList_example : IsList (list_add 4 40 three) (1 ∷ 2 ∷ 3 ∷ 4 ∷ [])
list_add-IsList_example =
    list_add-IsList three (1 ∷ 2 ∷ 3 ∷ []) 4 40 three-IsList (
      (λ e. absurd (omega arith)),
      ((λ e. absurd (omega arith)), ((λ e. absurd (omega arith)), tt)),
    )

inserted : (list_insert_before (some 2) 4 40 three).num_items ≡ 4
unfolding list_insert_before
inserted = refl
