-- ===== src/Cofs/Cache.antt =====
-- cofs.c: the nodes in memory. A node stays in the list once it is there, so its index stands for
-- the pointer to it.
pub mod Scan
pub mod Get
mod Tests
use c_osiris.Base.{
  ℕ, zero, suc, ◌+◌, ◌-◌, Bool, true, false, Option, none, some, List, [], ◌∷◌, ◌++◌, leb, ◌==◌,
  if◌then◌else◌, length, set,
}
use c_osiris.Cofs.Inode.{Node, fresh_node}

-- `cofs_cache_t`.
pub record Cache : Type 0 where
  pub held : Bool
  pub nodes : List Node

abbrev pub max_cached_nodes : ℕ
max_cached_nodes = 100

-- What the loop of `cofs_get_node` finds: the node, or else `free_node`.
pub data Found : Type 0 where
  hit : ℕ → Found
  miss : Option ℕ → Found

-- The loop from index `i` on, where `free` is the last node that it passed and no one uses.
unfoldable pub scan : ℕ → ℕ → Option ℕ → List Node → Found
scan inum i free [] = miss free
scan inum i free (n ∷ ns) =
    let unused = scan inum (i + 1) (some i) ns in
    let busy = scan inum (i + 1) free ns in
    if n.inode == inum then hit i else if n.ref_count == 0 then unused else busy

-- A write through the pointer to a node.
unfoldable pub modify : ℕ → (Node → Node) → List Node → List Node
modify i f [] = []
modify zero f (n ∷ ns) = f n ∷ ns
modify (suc i) f (n ∷ ns) = n ∷ modify i f ns

abbrev pub more_refs : Node → Node
more_refs n = record n { ref_count = suc n.ref_count }

-- `cofs_get_node` behind the loop: NULL is `none`. The return at the limit keeps the lock.
unfoldable pub get_found : ℕ → Cache → Found → Option ℕ × Cache
unfolding modify
get_found inum c (hit i) = (some i, record c { nodes = modify i more_refs c.nodes })
get_found inum c (miss (some i)) = (some i, record c { nodes = set c.nodes i (fresh_node inum) })
get_found inum c (miss none) =
    if leb max_cached_nodes (length c.nodes)
    then (none, record c { held = true })
    else (some (length c.nodes), record c { nodes = c.nodes ++ (fresh_node inum ∷ []) })

-- `cofs_get_node`; `none` where it waits for the lock of the cache and nobody gives it back.
unfoldable pub get_node : ℕ → Cache → Option (Option ℕ × Cache)
unfolding scan get_found
get_node inum c = if c.held then none else some (get_found inum c (scan inum 0 none c.nodes))

-- `cofs_dup`.
unfoldable pub dup : ℕ → Cache → Option Cache
unfolding modify
dup i c = if c.held then none else some (record c { nodes = modify i more_refs c.nodes })
