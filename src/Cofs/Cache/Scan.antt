-- ===== src/Cofs/Cache/Scan.antt =====
-- The loop of `cofs_get_node` over the nodes.
use c_osiris.Base.{
  ℕ, zero, suc, ◌+◌, ◌<◌, ◌≡◌, ◌≢◌, inl, inr, refl, ap, ◌∙◌, Option, some, List, [], ◌∷◌, arith,
  ◌==◌, Bool-cases, get_elem?,
}
use c_osiris.Cofs.Inode.{Node}
use c_osiris.Cofs.Cache.{Found, scan}

-- No node has the inode number.
abbrev pub IsAbsent : ℕ → List Node → Type 0
IsAbsent inum ns = (k : ℕ) (n : Node) → get_elem? ns k ≡ some n → n.inode ≢ inum

-- A node that nobody uses.
abbrev pub IsUnused : List Node → ℕ → Type 0
IsUnused ns k = (n : Node) × (get_elem? ns k ≡ some n) × (n.ref_count ≡ 0)

abbrev pub AllBusy : List Node → Type 0
AllBusy ns = (k : ℕ) (n : Node) → get_elem? ns k ≡ some n → 0 < n.ref_count

-- What the loop over the nodes, the first of them at index `i`, comes to.
pub data Scan (inum i : ℕ) (free : Option ℕ) (ns : List Node) (r : Found) : Type 0 where
  found :
      (k : ℕ) (n : Node)
      → r ≡ Found.hit (i + k)
      → get_elem? ns k ≡ some n
      → n.inode ≡ inum
      → Scan inum i free ns r
  unused :
      (k : ℕ)
      → r ≡ Found.miss (some (i + k))
      → IsAbsent inum ns
      → IsUnused ns k
      → Scan inum i free ns r
  busy : r ≡ Found.miss free → IsAbsent inum ns → AllBusy ns → Scan inum i free ns r

pub scan-Scan :
    (inum i : ℕ) (free : Option ℕ) (ns : List Node) → Scan inum i free ns (scan inum i free ns)
unfolding scan
scan-Scan inum i free [] = Scan.busy refl (λ k n h. absurd (cc)) (λ k n h. absurd (cc))
scan-Scan inum i free (n ∷ ns) = elim (Bool-cases (n.inode == inum)) [
  | inl e ↦ rw e (Scan.found 0 n (ap Found.hit (omega arith)) refl (ground arith))
  | inr e ↦ elim (Bool-cases (n.ref_count == 0)) [
    | inl z ↦
        rw (e, z)
          (after_unused (ground arith) (ground arith) (scan inum (i + 1) (some i) ns)
            (scan-Scan inum (i + 1) (some i) ns))
    | inr z ↦
        rw (e, z)
          (after_busy (ground arith) (ground arith) (scan inum (i + 1) free ns)
            (scan-Scan inum (i + 1) free ns))
  ]
]
  where
    absent : n.inode ≢ inum → IsAbsent inum ns → IsAbsent inum (n ∷ ns)
    absent ne all zero m h = let e : n ≡ m = cc in λ f. ne (ap (λ (x : Node). x.inode) e ∙ f)
    absent ne all (suc k) m h = all k m h

    all_busy : 0 < n.ref_count → AllBusy ns → AllBusy (n ∷ ns)
    all_busy p all zero m h =
        let e : n ≡ m = cc in omega (arith, ap (λ (x : Node). x.ref_count) e, p)
    all_busy p all (suc k) m h = all k m h

    up : (k : ℕ) → i + 1 + k ≡ i + suc k
    up k = omega arith

    after_unused :
        n.inode ≢ inum
        → n.ref_count ≡ 0
        → (r : Found) → Scan inum (i + 1) (some i) ns r
        → Scan inum i free (n ∷ ns) r
    after_unused ne z r (Scan.found k m is at same) =
        Scan.found (suc k) m (is ∙ ap Found.hit (up k)) at same
    after_unused ne z r (Scan.unused k is none_has u) =
        Scan.unused (suc k) (is ∙ ap (λ (j : ℕ). Found.miss (some j)) (up k)) (absent ne none_has) u
    after_unused ne z r (Scan.busy is none_has all) =
        let o : i ≡ i + 0 = omega arith in
        Scan.unused 0 (is ∙ ap (λ (j : ℕ). Found.miss (some j)) o) (absent ne none_has) (n, refl, z)

    after_busy :
        n.inode ≢ inum
        → 0 < n.ref_count
        → (r : Found) → Scan inum (i + 1) free ns r
        → Scan inum i free (n ∷ ns) r
    after_busy ne p r (Scan.found k m is at same) =
        Scan.found (suc k) m (is ∙ ap Found.hit (up k)) at same
    after_busy ne p r (Scan.unused k is none_has u) =
        Scan.unused (suc k) (is ∙ ap (λ (j : ℕ). Found.miss (some j)) (up k)) (absent ne none_has) u
    after_busy ne p r (Scan.busy is none_has all) =
        Scan.busy is (absent ne none_has) (all_busy p all)
