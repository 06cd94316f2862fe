-- ===== src/Cofs/Alloc/Spent.antt =====
-- How many blocks of the bitmap lie between two disks, and how many are free.
use c_osiris.Base.{
  ℕ, ◌+◌, ◌≤◌, ◌<◌, ◌≡◌, ◌≢◌, ◌⊎◌, inl, inr, sym, ◌∙◌, List, [], ◌∷◌, ◌++◌, arith, length,
  length-append, eq-cases,
}
use c_osiris.Cofs.{Disk, Superblock}
use c_osiris.Cofs.Alloc.Used.{used, IsCovered}

-- The block is one of the list.
abbrev pub Has : ℕ → List ℕ → Type 0
Has m [] = ⊥
Has m (n ∷ ns) = (m ≡ n) ⊎ Has m ns

Has-left : (m : ℕ) (xs ys : List ℕ) → Has m xs → Has m (xs ++ ys)
Has-left m [] ys h = absurd h
Has-left m (x ∷ xs) ys (inl e) = inl e
Has-left m (x ∷ xs) ys (inr h) = inr (Has-left m xs ys h)

Has-right : (m : ℕ) (xs ys : List ℕ) → Has m ys → Has m (xs ++ ys)
Has-right m [] ys h = h
Has-right m (x ∷ xs) ys h = inr (Has-right m xs ys h)

-- The two disks have the same blocks in use, but for `k` at most.
pub record Spent (sb : Superblock) (k : ℕ) (d d' : Disk) : Type 0 where
  pub blocks : List ℕ
  pub few : length blocks ≤ k
  pub same : (m : ℕ) → IsCovered sb m → (used sb d' m ≡ used sb d m) ⊎ Has m blocks

-- Fewer than `k` of the blocks that the bitmap covers are free.
pub record FewerFree (sb : Superblock) (k : ℕ) (d : Disk) : Type 0 where
  pub free : List ℕ
  pub few : length free < k
  pub others : (m : ℕ) → IsCovered sb m → (used sb d m ≡ 1) ⊎ Has m free

pub Spent-same :
    (sb : Superblock) (k : ℕ) (d d' : Disk)
    → ((m : ℕ) → IsCovered sb m → used sb d' m ≡ used sb d m)
    → Spent sb k d d'
Spent-same sb k d d' h = record { blocks = []; few = omega arith; same = λ m c. inl (h m c) }

pub Spent-one :
    (sb : Superblock) (n : ℕ) (d d' : Disk)
    → ((m : ℕ) → IsCovered sb m → m ≢ n → used sb d' m ≡ used sb d m)
    → Spent sb 1 d d'
Spent-one sb n d d' h = record {
  blocks = n ∷ [];
  few = omega arith;
  same = λ m c. elim (eq-cases m n) [ inl e ↦ inr (inl e) | inr ne ↦ inl (h m c ne) ];
}

pub Spent-both :
    (sb : Superblock) (j k : ℕ) (d e f : Disk)
    → Spent sb j d e
    → Spent sb k e f
    → Spent sb (j + k) d f
Spent-both sb j k d e f a b = record {
  blocks = a.blocks ++ b.blocks;
  few = omega (arith, length-append a.blocks b.blocks, a.few, b.few);
  same = λ m c. elim (b.same m c) [
    | inr h ↦ inr (Has-right m a.blocks b.blocks h)
    | inl p ↦ elim (a.same m c) [
      | inl q ↦ inl (p ∙ q)
      | inr h ↦ inr (Has-left m a.blocks b.blocks h)
    ]
  ];
}

pub Spent-more : (sb : Superblock) (j k : ℕ) (d e : Disk) → j ≤ k → Spent sb j d e → Spent sb k d e
Spent-more sb j k d e h a = record { blocks = a.blocks; few = omega (arith, a.few); same = a.same }

pub FewerFree-more :
    (sb : Superblock) (j k : ℕ) (d : Disk) → j ≤ k → FewerFree sb j d → FewerFree sb k d
FewerFree-more sb j k d h a = record {
  free = a.free;
  few = omega (arith, a.few);
  others = a.others;
}

pub FewerFree-none :
    (sb : Superblock) (d : Disk) → ((m : ℕ) → IsCovered sb m → used sb d m ≡ 1) → FewerFree sb 1 d
FewerFree-none sb d h = record { free = []; few = omega arith; others = λ m c. inl (h m c) }

-- What was free before is free behind, or was taken between.
pub FewerFree-before :
    (sb : Superblock) (j k : ℕ) (d e : Disk)
    → Spent sb j d e
    → FewerFree sb k e
    → FewerFree sb (j + k) d
FewerFree-before sb j k d e a b = record {
  free = a.blocks ++ b.free;
  few = omega (arith, length-append a.blocks b.free, a.few, b.few);
  others = λ m c. elim (a.same m c) [
    | inr h ↦ inr (Has-left m a.blocks b.free h)
    | inl p ↦ elim (b.others m c) [
      | inl q ↦ inl (sym p ∙ q)
      | inr h ↦ inr (Has-right m a.blocks b.free h)
    ]
  ];
}
