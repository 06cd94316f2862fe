-- ===== src/Cofs/Cache/Tests.antt =====
-- A cache with a node in use, and an empty one.
use c_osiris.Base.{
  ℕ, zero, suc, ◌≡◌, refl, false, true, none, some, [], ◌∷◌, arith, get_elem?, replicate,
}
use c_osiris.Cofs.Inode.{Node, fresh_node}
use c_osiris.Cofs.Cache.{Cache, get_node}
use c_osiris.Cofs.Cache.Get.{IsValid, IsValidAfter, Got, get_node-Got, get_node-IsValid}

abbrev one_node : Cache
one_node = record { held = false; nodes = fresh_node 1 ∷ [] }

one_node-IsValid : IsValid one_node
one_node-IsValid = record { distinct = only; bounded = omega arith }
  where
    only :
        (i j : ℕ) (m n : Node)
        → get_elem? one_node.nodes i ≡ some m
        → get_elem? one_node.nodes j ≡ some n
        → m.inode ≡ n.inode
        → i ≡ j
    only zero zero m n p q e = refl
    only zero (suc j) m n p q e = absurd (cc)
    only (suc i) j m n p q e = absurd (cc)

get_node-Got_example : Got 2 one_node (get_node 2 one_node)
get_node-Got_example = get_node-Got 2 one_node refl

get_node-IsValid_example : IsValidAfter (get_node 2 one_node)
get_node-IsValid_example = get_node-IsValid 2 one_node refl one_node-IsValid

-- With the list at its limit the lock is kept, and the next call waits for ever.
abbrev full_cache : Cache
full_cache = record { held = false; nodes = replicate 100 (fresh_node 1) }

limit_keeps_lock : get_node 2 full_cache ≡ some (none, record full_cache { held = true })
unfolding get_node
limit_keeps_lock = refl
