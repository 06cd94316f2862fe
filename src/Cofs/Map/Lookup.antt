-- ===== src/Cofs/Map/Lookup.antt =====
-- `block_map` as a whole: it gives a block of the file a place on the disk, and keeps the others'.
use c_osiris.Base.{
  ℕ, suc, ◌≤◌, ◌+◌, ◌-◌, ◌*◌, ◌/◌, ◌%◌, ◌<◌, ◌≡◌, ◌≢◌, inl, inr, refl, sym, ap, ◌∙◌, true, Option,
  none, some, arith, ltb, eq-cases, Bool-cases,
}
use mathlib.Core.Path.{subst}
use c_osiris.Cofs.{Superblock}
use c_osiris.Cofs.Alloc.Spent.{
  Spent, FewerFree, Spent-both, Spent-more, FewerFree-more, FewerFree-none, FewerFree-before,
}
use c_osiris.Cofs.Map.{
  num_direct, num_sind, num_dind, sind_idx, dind_idx, Files, ◌>>=◌, slot, entry, block_map,
}
use c_osiris.Cofs.Map.Pointers.{
  Locus, ptr, IsLocus, locus_of, IsDisk, IsOwned, IsLeaf, leaf-IsLocus,
}
use c_osiris.Cofs.Map.Fill.{under_zero}
use c_osiris.Cofs.Map.Table.{parent, index, IsEntry, ptr-parent, parent_leaf}
use c_osiris.Cofs.Map.Reach.{Step, slot-Step, entry-Step}

-- `s'` has a block at the place `p`; it is `s` if `s` has one, and the leaves elsewhere are those of
-- `s`.
pub record Reached (sb : Superblock) (k : ℕ) (s : Files) (p : Locus) (s' : Files) : Type 0 where
  pub disk : IsDisk sb s'.1
  pub file : IsOwned sb s'
  pub there : ptr s' p ≢ 0
  pub others : (q : Locus) → IsLeaf q → q ≢ p → ptr s' q ≡ ptr s q
  pub same : ptr s p ≢ 0 → s' ≡ s
  pub spent : Spent sb (suc k) s.1 s'.1
  pub data_same : (q : Locus) (k : ℕ) → IsLeaf q → ptr s q ≢ 0 → s'.1 (ptr s q) k ≡ s.1 (ptr s q) k

-- A place is reached, behind `k` tables at most; or there were too few free blocks for it.
pub data Reach (sb : Superblock) (k : ℕ) (s : Files) (p : Locus) (r : Option (ℕ × Files))
    : Type 0 where
  reached : (s' : Files) → r ≡ some (ptr s' p, s') → Reached sb k s p s' → Reach sb k s p r
  full : r ≡ none → ptr s p ≡ 0 → FewerFree sb (suc k) s.1 → Reach sb k s p r

step-Reach :
    (sb : Superblock) (s : Files) (p : Locus) (r : Option (ℕ × Files))
    → Step sb s p r
    → Reach sb 0 s p r
step-Reach sb s p r (Step.step s' is t) = Reach.reached s' is (record {
  disk = t.disk;
  file = t.file;
  there = t.there;
  others = λ q h ne. t.others q (leaf-IsLocus q h) ne;
  same = t.same;
  spent = t.spent;
  data_same = t.data_same;
})
step-Reach sb s p r (Step.full is z all) = Reach.full is z (FewerFree-none sb s.1 all)

-- A table is reached, and then an entry of it.
bind-Reach :
    (sb : Superblock) (n : ℕ) (s : Files) (p : Locus) (r : Option (ℕ × Files))
    → (f : ℕ × Files → Option (ℕ × Files)) → IsEntry p
    → Reach sb n s (parent p) r
    → ((t : Files)
        → IsDisk sb t.1
        → IsOwned sb t
        → ptr t (parent p) ≢ 0
        → Reach sb 0 t p (f (ptr t (parent p), t)))
    → Reach sb (suc n) s p (r >>= f)
bind-Reach sb n s p r f e (Reach.full is z few) next =
    subst (λ (x : Option (ℕ × Files)). Reach sb (suc n) s p (x >>= f)) (sym is)
      (Reach.full refl (ptr-parent s p e ∙ under_zero (ptr s (parent p)) s.1 (index p) z)
        (FewerFree-more sb (suc n) (suc (suc n)) s.1 (omega arith) few))
bind-Reach sb n s p r f e (Reach.reached t is a) next =
    subst (λ (x : Option (ℕ × Files)). Reach sb (suc n) s p (x >>= f)) (sym is)
      (go (f (ptr t (parent p), t)) (next t a.disk a.file a.there))
  where
    above : ptr s p ≢ 0 → ptr s (parent p) ≢ 0
    above nz z = nz (ptr-parent s p e ∙ under_zero (ptr s (parent p)) s.1 (index p) z)

    back : ptr s p ≢ 0 → t ≡ s
    back nz = a.same (above nz)

    go : (x : Option (ℕ × Files)) → Reach sb 0 t p x → Reach sb (suc n) s p x
    go x (Reach.reached u is b) = Reach.reached u is (record {
      disk = b.disk;
      file = b.file;
      there = b.there;
      others = λ q h ne. b.others q h ne ∙ a.others q h (parent_leaf p e q h);
      same = λ nz. b.same (λ z. nz (sym (ap (λ (y : Files). ptr y p) (back nz)) ∙ z)) ∙ back nz;
      spent =
          Spent-more sb (suc n + 1) (suc (suc n)) s.1 u.1 (omega arith)
            (Spent-both sb (suc n) 1 s.1 t.1 u.1 a.spent b.spent);
      data_same = λ q k h nz.
          let e = a.others q h (parent_leaf p e q h) in
          ap (λ (c : ℕ). u.1 c k) (sym e)
          ∙ b.data_same q k h (λ z. nz (sym e ∙ z))
          ∙ ap (λ (c : ℕ). t.1 c k) e
          ∙ a.data_same q k h nz;
    })
    go x (Reach.full is z few) =
        Reach.full is
          (elim (eq-cases (ptr s p) 0) [
            | inl y ↦ y
            | inr nz ↦ sym (ap (λ (y : Files). ptr y p) (back nz)) ∙ z
          ])
          (FewerFree-more sb (suc n + 1) (suc (suc n)) s.1 (omega arith)
            (FewerFree-before sb (suc n) 1 s.1 t.1 a.spent few))

table-Reach :
    (sb : Superblock) (s : Files) (k : ℕ)
    → IsDisk sb s.1
    → IsOwned sb s
    → k < 8
    → Reach sb 0 s (Locus.top k) (slot sb k s)
table-Reach sb s k v o lt = step-Reach sb s (Locus.top k) _ (slot-Step sb s.0 s.1 k v o lt)

entry-Reach :
    (sb : Superblock) (p : Locus)
    → IsEntry p
    → IsLocus p
    → (t : Files) → IsDisk sb t.1
    → IsOwned sb t
    → ptr t (parent p) ≢ 0
    → Reach sb 0 t p (entry sb (ptr t (parent p)) (index p) t)
entry-Reach sb p e w t v o nz = step-Reach sb t p _ (entry-Step sb t.0 t.1 p v o e w nz)

>>=-assoc {ℓ} :
    {A B C : Type ℓ} (m : Option A) (f : A → Option B) (g : B → Option C)
    → ((m >>= f) >>= g) ≡ (m >>= λ a. f a >>= g)
>>=-assoc none f g = refl
>>=-assoc (some a) f g = refl

-- The number of blocks that a file can have.
abbrev pub max_blocks : ℕ
max_blocks = num_direct + num_sind + num_dind

-- `block_map` of a block of the file that there can be.
Reach-more :
    (sb : Superblock) (j k : ℕ) (s : Files) (p : Locus) (r : Option (ℕ × Files))
    → j ≤ k
    → Reach sb j s p r
    → Reach sb k s p r
Reach-more sb j k s p r h (Reach.full is z few) =
    Reach.full is z (FewerFree-more sb (suc j) (suc k) s.1 (omega arith) few)
Reach-more sb j k s p r h (Reach.reached s' is a) = Reach.reached s' is (record {
  disk = a.disk;
  file = a.file;
  there = a.there;
  others = a.others;
  same = a.same;
  spent = Spent-more sb (suc j) (suc k) s.1 s'.1 (omega arith) a.spent;
  data_same = a.data_same;
})

block_map-Reach :
    (sb : Superblock) (s : Files) (fbn : ℕ)
    → IsDisk sb s.1
    → IsOwned sb s
    → fbn < max_blocks
    → Reach sb 2 s (locus_of fbn) (block_map sb fbn s)
unfolding block_map locus_of parent index IsEntry IsLocus
block_map-Reach sb s fbn v o lt = elim (Bool-cases (ltb fbn num_direct)) [
  | inl e ↦ rw e (
      Reach-more sb 0 2 s (Locus.top fbn) _ (omega arith) (table-Reach sb s fbn v o (ground arith)))
  | inr e ↦ elim (Bool-cases (ltb fbn (num_direct + num_sind))) [
    | inl f ↦
        rw (e, f)
          (Reach-more sb 1 2 s (Locus.single (fbn - num_direct)) _ (omega arith) (
            bind-Reach sb 0 s (Locus.single (fbn - num_direct)) (slot sb sind_idx s) _ tt
              (table-Reach sb s 6 v o (omega arith))
              (entry-Reach sb (Locus.single (fbn - num_direct)) tt (ground arith))))
    | inr f ↦
        let third : ltb fbn max_blocks ≡ true = ground arith in
        rw (e, f, third)
          (subst (Reach sb 2 s (Locus.double midx sidx))
            (>>=-assoc (slot sb dind_idx s) (λ (b, t). entry sb b midx t)
              (λ (m, u). entry sb m sidx u))
            (bind-Reach sb 1 s (Locus.double midx sidx)
              (slot sb dind_idx s >>= λ (b, t). entry sb b midx t) _ tt
              (bind-Reach sb 0 s (Locus.middle midx) (slot sb dind_idx s) _ tt
                (table-Reach sb s 7 v o (omega arith))
                (entry-Reach sb (Locus.middle midx) tt (omega arith)))
              (entry-Reach sb (Locus.double midx sidx) tt (omega arith, omega arith))))
  ]
]
  where
    midx : ℕ
    midx = (fbn - num_direct - num_sind) / num_sind

    sidx : ℕ
    sidx = (fbn - num_direct - num_sind) % num_sind

-- The number in the file of the block that a leaf leads to.
number : Locus → ℕ
number (Locus.top k) = k
number (Locus.single j) = num_direct + j
number (Locus.middle i) = 0
number (Locus.double i j) = num_direct + num_sind + i * num_sind + j

number-locus_of : (f : ℕ) → number (locus_of f) ≡ f
unfolding number locus_of
number-locus_of f = ground arith

pub IsLeaf-locus_of : (f : ℕ) → f < max_blocks → IsLeaf (locus_of f)
unfolding IsLeaf locus_of
IsLeaf-locus_of f lt = elim (Bool-cases (ltb f num_direct)) [
  | inl e ↦ rw e (ground arith)
  | inr e ↦ elim (Bool-cases (ltb f (num_direct + num_sind))) [
    | inl g ↦ rw (e, g) (ground arith)
    | inr g ↦ rw (e, g) (ground arith, ground arith)
  ]
]

-- The place on the disk of a block of the file; 0 if it has none.
unfoldable pub place : Files → ℕ → ℕ
place s fbn = ptr s (locus_of fbn)

-- What `block_map` comes to: the block has a place, nothing has changed if it had one, and the other
-- blocks of the file are where they were; or the disk had too few free blocks.
pub data Mapped (sb : Superblock) (s : Files) (fbn : ℕ) (r : Option (ℕ × Files)) : Type 0 where
  mapped :
      (s' : Files)
      → r ≡ some (place s' fbn, s')
      → IsDisk sb s'.1
      → IsOwned sb s'
      → place s' fbn ≢ 0
      → (place s fbn ≢ 0 → s' ≡ s)
      → ((f : ℕ) → f < max_blocks → f ≢ fbn → place s' f ≡ place s f)
      → ((f k : ℕ) → f < max_blocks → place s f ≢ 0 → s'.1 (place s f) k ≡ s.1 (place s f) k)
      → Spent sb 3 s.1 s'.1
      → Mapped sb s fbn r
  full : r ≡ none → place s fbn ≡ 0 → FewerFree sb 3 s.1 → Mapped sb s fbn r

-- `block_map` of a block within the largest file, on a disk of bytes, with fewer than 2 ^ 32 bits
-- in its bitmap, whose first blocks, the bitmap's among them, are in use, and for a file whose
-- pointers lead to different data blocks in use: either it gives the block's place, which is a new
-- one only if there was none, keeps the other places and the bytes of the blocks at them, and what
-- holds of the disk and the file holds again, with at most three blocks taken; or it panics, and
-- then the block had no place, and fewer than three blocks of the bitmap of `s` were free.
pub block_map-Mapped :
    (sb : Superblock) (s : Files) (fbn : ℕ)
    → IsDisk sb s.1
    → IsOwned sb s
    → fbn < max_blocks
    → Mapped sb s fbn (block_map sb fbn s)
unfolding place
block_map-Mapped sb s fbn v o lt = go (block_map sb fbn s) (block_map-Reach sb s fbn v o lt)
  where
    other : (f : ℕ) → f ≢ fbn → locus_of f ≢ locus_of fbn
    other f ne e = ne (sym (number-locus_of f) ∙ ap number e ∙ number-locus_of fbn)

    go : (r : Option (ℕ × Files)) → Reach sb 2 s (locus_of fbn) r → Mapped sb s fbn r
    go r (Reach.reached s' is a) =
        Mapped.mapped s' is a.disk a.file a.there a.same
          (λ f low ne. a.others (locus_of f) (IsLeaf-locus_of f low) (other f ne))
          (λ f k low nz. a.data_same (locus_of f) k (IsLeaf-locus_of f low) nz) a.spent
    go r (Reach.full is z few) = Mapped.full is z few

-- Different blocks of a file have different places.
pub place_distinct :
    (sb : Superblock) (s : Files) (f g : ℕ)
    → IsOwned sb s
    → f < max_blocks
    → g < max_blocks
    → place s f ≢ 0
    → place s f ≡ place s g
    → f ≡ g
unfolding place
place_distinct sb s f g v p q nz e =
    sym (number-locus_of f)
    ∙ ap number (
        v.distinct (locus_of f) (locus_of g) (leaf-IsLocus (locus_of f) (IsLeaf-locus_of f p))
          (leaf-IsLocus (locus_of g) (IsLeaf-locus_of g q)) nz e)
    ∙ number-locus_of g
