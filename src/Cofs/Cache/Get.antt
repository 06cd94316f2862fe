-- ===== src/Cofs/Cache/Get.antt =====
-- An inode is in one node at most, and a node that is in use is not taken for another inode.
use c_osiris.Base.{
  ℕ, zero, suc, ◌+◌, ◌≤◌, ◌<◌, ◌≡◌, ◌≢◌, ◌⊎◌, inl, inr, refl, sym, ap, ◌∙◌, Bool, true, false,
  Option, none, some, List, [], ◌∷◌, ◌++◌, arith, leb, if◌then◌else◌, Bool-cases, eq-cases, length,
  set, get_elem?, length-append, length-set, get_elem?-set_self, get_elem?-set_ne, get_elem?-lt,
  get_elem?-append_ne, get_elem?-append_end,
}
use mathlib.Core.Path.{subst}
use c_osiris.Cofs.Inode.{Node, fresh_node}
use c_osiris.Cofs.Cache.Scan.{IsAbsent, AllBusy, Scan, scan-Scan}
use c_osiris.Cofs.Cache.{
  Cache, Found, max_cached_nodes, scan, modify, more_refs, get_found, get_node,
}

length-modify : (i : ℕ) (f : Node → Node) (ns : List Node) → length (modify i f ns) ≡ length ns
unfolding modify
length-modify i f [] = refl
length-modify zero f (n ∷ ns) = refl
length-modify (suc i) f (n ∷ ns) = ap suc (length-modify i f ns)

get-modify_self :
    (i : ℕ) (f : Node → Node) (ns : List Node) (n : Node)
    → get_elem? ns i ≡ some n
    → get_elem? (modify i f ns) i ≡ some (f n)
unfolding modify
get-modify_self i f [] n h = absurd (cc)
get-modify_self zero f (m ∷ ns) n h = let e : m ≡ n = cc in ap (λ (k : Node). some (f k)) e
get-modify_self (suc i) f (m ∷ ns) n h = get-modify_self i f ns n h

get-modify_ne :
    (i j : ℕ) (f : Node → Node) (ns : List Node)
    → j ≢ i
    → get_elem? (modify i f ns) j ≡ get_elem? ns j
unfolding modify
get-modify_ne i j f [] h = refl
get-modify_ne zero zero f (n ∷ ns) h = absurd (h refl)
get-modify_ne zero (suc j) f (n ∷ ns) h = refl
get-modify_ne (suc i) zero f (n ∷ ns) h = refl
get-modify_ne (suc i) (suc j) f (n ∷ ns) h = get-modify_ne i j f ns (λ e. h (ap suc e))

-- No inode is in two nodes, and the list is within its limit.
pub record IsValid (c : Cache) : Type 0 where
  pub distinct :
      (i j : ℕ) (m n : Node)
      → get_elem? c.nodes i ≡ some m
      → get_elem? c.nodes j ≡ some n
      → m.inode ≡ n.inode
      → i ≡ j
  pub bounded : length c.nodes ≤ max_cached_nodes

-- What `cofs_get_node` comes to: a node for the inode, which was taken from nobody; or, when all of
-- the nodes that the limit allows are in use for other inodes, none, and the lock is kept.
pub data Got (inum : ℕ) (c : Cache) (r : Option (Option ℕ × Cache)) : Type 0 where
  got :
      (i : ℕ) (n : Node) (c' : Cache)
      → r ≡ some (some i, c')
      → c'.held ≡ false
      → get_elem? c'.nodes i ≡ some n
      → n.inode ≡ inum
      → 0 < n.ref_count
      → ((m : Node) → get_elem? c.nodes i ≡ some m → 0 < m.ref_count → n ≡ more_refs m)
      → ((j : ℕ) → j ≢ i → get_elem? c'.nodes j ≡ get_elem? c.nodes j)
      → ((m : Node) × (get_elem? c.nodes i ≡ some m) × (m.inode ≡ inum)) ⊎ IsAbsent inum c.nodes
      → (length c'.nodes ≤ max_cached_nodes) ⊎ (length c'.nodes ≡ length c.nodes)
      → Got inum c r
  limit :
      r ≡ some (none, record c { held = true })
      → IsAbsent inum c.nodes
      → AllBusy c.nodes
      → max_cached_nodes ≤ length c.nodes
      → ((m : ℕ) → get_node m (record c { held = true }) ≡ none)
      → Got inum c r

get_found-Got :
    (inum : ℕ) (c : Cache) (r : Found)
    → c.held ≡ false
    → Scan inum 0 none c.nodes r
    → Got inum c (some (get_found inum c r))
unfolding get_found get_node
get_found-Got inum c r free (Scan.found k n is at same) =
    let z : 0 + k ≡ k = omega arith in
    subst (λ (x : Found). Got inum c (some (get_found inum c x))) (sym (is ∙ ap Found.hit z))
      (Got.got k (more_refs n) (record c { nodes = modify k more_refs c.nodes }) refl free
        (get-modify_self k more_refs c.nodes n at) same (omega arith)
        (λ m h p. let e : n ≡ m = cc in ap more_refs e)
        (λ j ne. get-modify_ne k j more_refs c.nodes ne) (inl (n, at, same))
        (inr (length-modify k more_refs c.nodes)))
get_found-Got inum c r free (Scan.unused k is absent (n, at, z0)) =
    let z : 0 + k ≡ k = omega arith in
    subst (λ (x : Found). Got inum c (some (get_found inum c x)))
      (sym (is ∙ ap (λ (j : ℕ). Found.miss (some j)) z))
      (Got.got k (fresh_node inum) (record c { nodes = set c.nodes k (fresh_node inum) }) refl free
        (get_elem?-set_self c.nodes k (fresh_node inum) (get_elem?-lt c.nodes k n at)) refl
        (omega arith)
        (λ m h p.
          let e : n ≡ m = cc in absurd (omega (arith, ap (λ (x : Node). x.ref_count) e, z0)))
        (λ j ne. get_elem?-set_ne c.nodes k j (fresh_node inum) ne) (inr absent)
        (inr (length-set c.nodes k (fresh_node inum))))
get_found-Got inum c r free (Scan.busy is absent all) =
    subst (λ (x : Found). Got inum c (some (get_found inum c x))) (sym is)
      (elim (Bool-cases (leb max_cached_nodes (length c.nodes))) [
        | inl e ↦ rw e (Got.limit refl absent all (ground arith) (λ m. refl))
        | inr e ↦ rw e (
            Got.got (length c.nodes) (fresh_node inum)
              (record c { nodes = c.nodes ++ (fresh_node inum ∷ []) }) refl free
              (get_elem?-append_end c.nodes (fresh_node inum)) refl (omega arith)
              (λ m h p. absurd (omega (arith, get_elem?-lt c.nodes (length c.nodes) m h)))
              (λ j ne. get_elem?-append_ne c.nodes (fresh_node inum) j ne) (inr absent)
              (inl (ground (arith, length-append c.nodes (fresh_node inum ∷ [])))))
      ])

-- `cofs_get_node` with the lock of the cache free: it returns a node of the inode, with one
-- reference more if it was in use and with the others left alone, and frees the lock; or, with no
-- node for the inode and as many as the limit allows, all in use, it returns none and keeps the
-- lock, so that every later call waits for ever.
pub get_node-Got : (inum : ℕ) (c : Cache) → c.held ≡ false → Got inum c (get_node inum c)
unfolding get_node
get_node-Got inum c h =
    subst
      (λ (b : Bool).
        Got inum c (if b then none else some (get_found inum c (scan inum 0 none c.nodes))))
      (sym h) (get_found-Got inum c (scan inum 0 none c.nodes) h (scan-Scan inum 0 none c.nodes))

-- The cache that an operation leaves, as far as it ends.
pub IsValidAfter : Option (Option ℕ × Cache) → Type 0
IsValidAfter none = Unit
IsValidAfter (some (i, c)) = IsValid c

-- Away from the index, no node has the inode number.
alone :
    (inum : ℕ) (c : Cache) (i j : ℕ) (m : Node)
    → IsValid c
    → ((n : Node) × (get_elem? c.nodes i ≡ some n) × (n.inode ≡ inum)) ⊎ IsAbsent inum c.nodes
    → j ≢ i
    → get_elem? c.nodes j ≡ some m
    → m.inode ≢ inum
alone inum c i j m v (inl (n, at, same)) ne h = λ e. ne (v.distinct j i m n h at (e ∙ sym same))
alone inum c i j m v (inr absent) ne h = absent j m h

inode_at :
    (ns : List Node) (i j : ℕ) (m n : Node)
    → j ≡ i
    → get_elem? ns i ≡ some n
    → get_elem? ns j ≡ some m
    → m.inode ≡ n.inode
inode_at ns i j m n e at h =
    let f : some m ≡ some n = sym h ∙ ap (get_elem? ns) e ∙ at in
    let g : m ≡ n = cc in ap (λ (x : Node). x.inode) g

Got-IsValid :
    (inum : ℕ) (c : Cache) (r : Option (Option ℕ × Cache))
    → IsValid c
    → Got inum c r
    → IsValidAfter r
unfolding IsValidAfter
Got-IsValid inum c r v (Got.limit is absent all full stuck) =
    subst IsValidAfter (sym is) (record { distinct = v.distinct; bounded = v.bounded })
Got-IsValid inum c r v (Got.got i n c' is free at same refs kept others before size) =
    subst IsValidAfter (sym is) (record {
      distinct = λ j k m o hj hk e. elim (eq-cases j i) [
        | inl p ↦ elim (eq-cases k i) [
          | inl q ↦ p ∙ sym q
          | inr q ↦ absurd (
              alone inum c i k o v before q (sym (others k q) ∙ hk)
                (sym e ∙ inode_at c'.nodes i j m n p at hj ∙ same))
        ]
        | inr p ↦ elim (eq-cases k i) [
          | inl q ↦ absurd (
              alone inum c i j m v before p (sym (others j p) ∙ hj)
                (e ∙ inode_at c'.nodes i k o n q at hk ∙ same))
          | inr q ↦ v.distinct j k m o (sym (others j p) ∙ hj) (sym (others k q) ∙ hk) e
        ]
      ];
      bounded = elim size [ inl le ↦ le | inr eq ↦ omega (arith, v.bounded) ];
    })

-- In a cache with no two nodes for the same inode, and no more nodes than the limit,
-- `cofs_get_node`, with the lock free, keeps it so, whether it returns a node or not.
pub get_node-IsValid :
    (inum : ℕ) (c : Cache) → c.held ≡ false → IsValid c → IsValidAfter (get_node inum c)
get_node-IsValid inum c h v = Got-IsValid inum c (get_node inum c) v (get_node-Got inum c h)
