-- ===== src/LinkedList.antt =====
-- list.c: doubly linked lists. The nodes of a list are in a heap, where a pointer is an address or NULL.
pub mod Links
pub mod Refine
pub mod Append
mod Tests
use c_osiris.Base.{ℕ, ◌+◌, ◌-◌, Option, none, some, ◌==◌, if◌then◌else◌}

abbrev pub Ptr : Type 0
Ptr = Option ℕ

-- `node_t`.
pub record Node : Type 0 where
  pub prev : Ptr
  pub next : Ptr
  pub item : ℕ

abbrev pub Heap : Type 0
Heap = ℕ → Node

-- `list_t` with the heap; its free function is the caller's.
pub record ListHead : Type 0 where
  pub nodes : Heap
  pub head : Ptr
  pub tail : Ptr
  pub num_items : ℕ

abbrev pub put : Heap → ℕ → Node → Heap
put h a v b = if b == a then v else h b

abbrev pub set_next : ℕ → Ptr → Heap → Heap
set_next a q h = put h a (record (h a) { next = q })

abbrev pub set_prev : ℕ → Ptr → Heap → Heap
set_prev a p h = put h a (record (h a) { prev = p })

-- A write through a pointer that the source has tested, or that the list's form keeps from being NULL.
unfoldable pub next_at : Ptr → Ptr → Heap → Heap
next_at none q h = h
next_at (some a) q h = set_next a q h

unfoldable pub prev_at : Ptr → Ptr → Heap → Heap
prev_at none p h = h
prev_at (some a) p h = set_prev a p h

-- `p` in place of `q` where the pointer is NULL.
abbrev pub if_null : Ptr → Ptr → Ptr → Ptr
if_null none p q = p
if_null (some a) p q = q

-- `list_open`.
abbrev pub list_open : Heap → ListHead
list_open h = record { nodes = h; head = none; tail = none; num_items = 0 }

-- `new_node`, where `malloc` returns `a`.
abbrev pub new_node : ℕ → ℕ → Heap → Heap
new_node a d h = put h a (record { prev = none; next = none; item = d })

-- `list_add_node`, by the head of the list.
unfoldable pub add_behind : Ptr → ℕ → ListHead → ListHead
unfolding next_at
add_behind none a l = record l { head = some a; tail = some a; num_items = l.num_items + 1 }
add_behind (some i) a l = record l {
  nodes = next_at l.tail (some a) (set_prev a l.tail l.nodes);
  tail = some a;
  num_items = l.num_items + 1;
}

abbrev pub list_add_node : ℕ → ListHead → ListHead
list_add_node a l = add_behind l.head a l

-- `list_add`.
unfoldable pub list_add : ℕ → ℕ → ListHead → ListHead
unfolding add_behind
list_add a d l = list_add_node a (record l { nodes = new_node a d l.nodes })

-- `list_insert_before` at a node `n`.
unfoldable pub insert_at : ℕ → ℕ → ListHead → ListHead
unfolding next_at
insert_at n a l =
    let p = (l.nodes n).prev in
    record l {
      nodes = set_prev n (some a) (set_next a (some n) (set_prev a p (next_at p (some a) l.nodes)));
      head = if_null p (some a) l.head;
      num_items = l.num_items + 1;
    }

unfoldable pub list_insert_before : Ptr → ℕ → ℕ → ListHead → ListHead
unfolding insert_at add_behind
list_insert_before none a d l = list_add_node a (record l { nodes = new_node a d l.nodes })
list_insert_before (some n) a d l = insert_at n a (record l { nodes = new_node a d l.nodes })

-- `list_del` at a node between `p` and `q`, up to the free functions.
unfoldable pub unlink : Ptr → Ptr → ListHead → ListHead
unfolding next_at prev_at
unlink p q l = record l {
  nodes = prev_at q p (next_at p q l.nodes);
  head = if_null p q l.head;
  tail = if_null q p l.tail;
  num_items = l.num_items - 1;
}

unfoldable pub list_del : ℕ → ListHead → ListHead
unfolding unlink
list_del n l = unlink (l.nodes n).prev (l.nodes n).next l
