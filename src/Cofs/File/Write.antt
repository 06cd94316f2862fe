-- ===== src/Cofs/File/Write.antt =====
-- Writing puts the bytes into the file and changes no other.
use c_osiris.Base.{
  ℕ, ◌+◌, ◌-◌, ◌*◌, ◌/◌, ◌%◌, ◌≤◌, ◌<◌, ◌≡◌, ◌≢◌, ◌⊎◌, inl, inr, refl, sym, ap, ◌∙◌, arith,
  eq-cases, lt-cases,
}
use mathlib.Core.Path.{ap₂}
use c_osiris.Cofs.{Superblock, block_size, overlay}
use c_osiris.Cofs.Bytes.{overlay_in, overlay_ne, overlay_out}
use c_osiris.Cofs.Map.{Files}
use c_osiris.Cofs.Map.Pointers.{ptr, locus_of, IsInUse, IsDisk, IsOwned, leaf-IsLocus}
use c_osiris.Cofs.Map.Lookup.{max_blocks, place, IsLeaf-locus_of, place_distinct}
use c_osiris.Cofs.File.Read.{content, IsPlaced}
use c_osiris.Cofs.Alloc.Spent.{Spent, Spent-same, Spent-both, Spent-more}
use c_osiris.Cofs.File.Poke.{Poked, used-Poked, IsDisk-Poked, IsOwned-Poked, data-Poked, data_ptr}

-- `s'` is the file `s` with `n` bytes written from `off` on.
pub record Wrote (sb : Superblock) (off n : ℕ) (g : ℕ → ℕ) (s s' : Files) : Type 0 where
  pub disk : IsDisk sb s'.1
  pub file : IsOwned sb s'
  pub placed : IsPlaced s' off n
  pub inside : (i : ℕ) → i < n → content s' (off + i) ≡ g i
  pub outside :
      (o : ℕ)
      → o / block_size < max_blocks
      → place s (o / block_size) ≢ 0
      → (o < off) ⊎ (off + n ≤ o)
      → content s' o ≡ content s o
  pub kept : (f : ℕ) → f < max_blocks → place s f ≢ 0 → place s' f ≡ place s f

-- Nothing is written.
pub Wrote-none :
    (sb : Superblock) (off : ℕ) (g : ℕ → ℕ) (s : Files)
    → IsDisk sb s.1
    → IsOwned sb s
    → Wrote sb off 0 g s s
Wrote-none sb off g s v o = record {
  disk = v;
  file = o;
  placed = λ x a b. absurd (omega arith);
  inside = λ i lt. absurd (omega arith);
  outside = λ x a b c. refl;
  kept = λ f a b. refl;
}

-- One write behind another.
pub Wrote-both :
    (sb : Superblock) (off k m : ℕ) (g : ℕ → ℕ) (s t u : Files)
    → off + k + m ≤ max_blocks * block_size
    → Wrote sb off k g s t
    → Wrote sb (off + k) m (λ i. g (k + i)) t u
    → Wrote sb off (k + m) g s u
Wrote-both sb off k m g s t u lim a b = record {
  disk = b.disk;
  file = b.file;
  placed = λ x lo hi. elim (lt-cases x (off + k)) [
    | inl l ↦
        let (low, nz) = a.placed x lo l in (low, λ z. nz (sym (b.kept (x / block_size) low nz) ∙ z))
    | inr r ↦ b.placed x r (omega arith)
  ];
  inside = λ i lt. elim (lt-cases i k) [
    | inl l ↦
        let (low, nz) = a.placed (off + i) (omega arith) (omega arith) in
        b.outside (off + i) low nz (inl (omega arith)) ∙ a.inside i l
    | inr r ↦
        let p : off + i ≡ off + k + (i - k) = omega arith in
        let q : k + (i - k) ≡ i = omega arith in
        ap (content u) p ∙ b.inside (i - k) (omega arith) ∙ ap g q
  ];
  outside = λ o low nz out.
      b.outside o low (λ z. nz (sym (a.kept (o / block_size) low nz) ∙ z)) (ground arith)
      ∙ a.outside o low nz (ground arith);
  kept = λ f low nz. b.kept f low (λ z. nz (sym (a.kept f low nz) ∙ z)) ∙ a.kept f low nz;
}

-- One round: a piece of one block.
module _ (sb : Superblock) (s : Files) (f r k : ℕ) (g : ℕ → ℕ) (t : Files) (v : IsDisk sb t.1)
    (o : IsOwned sb t) (low : f < max_blocks) (fits : r + k ≤ block_size) (pos : 0 < k)
    (there : place t f ≢ 0) (same : place s f ≢ 0 → t ≡ s)
    (keep : (h : ℕ) → h < max_blocks → h ≢ f → place t h ≡ place s h)
    (data_same : (h i : ℕ) → h < max_blocks → place s h ≢ 0 → t.1 (place s h) i ≡ s.1 (place s h) i)
    (small : (i : ℕ) → g i < 256) where
  abbrev t' : Files
  t' = (t.0, overlay (place t f) r k g t.1)

  use_of : IsInUse sb t.1 (place t f)
  unfolding place
  use_of = o.owned (locus_of f) (leaf-IsLocus (locus_of f) (IsLeaf-locus_of f low)) there

  poked : Poked sb t.1 (place t f) t'.1
  poked = data-Poked sb t.1 (place t f) r k g v use_of small

  ptr_same : (h : ℕ) → h < max_blocks → place t' h ≡ place t h
  unfolding place
  ptr_same h lt =
      data_ptr sb t.0 t.1 t'.1 (locus_of f) o (IsLeaf-locus_of f low) poked (locus_of h)
        (leaf-IsLocus (locus_of h) (IsLeaf-locus_of h lt))

  kept_all : (h : ℕ) → h < max_blocks → place s h ≢ 0 → place t h ≡ place s h
  kept_all h lt nz = elim (eq-cases h f) [
    | inl e ↦ ap (λ (x : Files). place x h) (same (λ z. nz (ap (place s) e ∙ z)))
    | inr ne ↦ keep h lt ne
  ]

  inside_round : (i : ℕ) → i < k → content t' (f * block_size + r + i) ≡ g i
  unfolding content
  inside_round i lt =
      let p : (f * block_size + r + i) / block_size ≡ f = omega arith in
      let q : (f * block_size + r + i) % block_size ≡ r + i = omega arith in
      ap₂ (λ (x y : ℕ). t'.1 (place t' x) y) p q
      ∙ ap (λ (b : ℕ). t'.1 b (r + i)) (ptr_same f low)
      ∙ overlay_in (place t f) r k g t.1 i lt

  outside_round :
      (x : ℕ)
      → x / block_size < max_blocks
      → place s (x / block_size) ≢ 0
      → (x < f * block_size + r) ⊎ (f * block_size + r + k ≤ x)
      → content t' x ≡ content s x
  unfolding content
  outside_round x lt nz out =
      let h = x / block_size in
      let i = x % block_size in
      ap (λ (b : ℕ). t'.1 b i) (ptr_same h lt)
      ∙ (elim (eq-cases h f) [
        | inl e ↦ overlay_out (place t f) r k g t.1 (place t h) i (ground arith)
        | inr ne ↦
            overlay_ne (place t f) r k g t.1 (place t h) i
              (λ e. ne (place_distinct sb t h f o lt low (λ z. nz (sym (kept_all h lt nz) ∙ z)) e))
      ])
      ∙ ap (λ (b : ℕ). t.1 b i) (kept_all h lt nz)
      ∙ data_same h i lt nz

  pub round-Wrote : Wrote sb (f * block_size + r) k g s t'
  unfolding ptr place
  round-Wrote = record {
    disk = IsDisk-Poked sb t.1 (place t f) t'.1 poked v;
    file =
        IsOwned-Poked sb t.0 t.1 (place t f) t'.1 poked o
          (data_ptr sb t.0 t.1 t'.1 (locus_of f) o (IsLeaf-locus_of f low) poked);
    placed = λ x lo hi.
        let p : x / block_size ≡ f = omega arith in
        (omega arith, λ z. there (sym (ptr_same f low) ∙ ap (place t') (sym p) ∙ z));
    inside = inside_round;
    outside = outside_round;
    kept = λ h lt nz. ptr_same h lt ∙ kept_all h lt nz;
  }

  -- The bytes of a block of the file are apart from the bitmap.
  pub round-Spent : (n : ℕ) → Spent sb n s.1 t.1 → Spent sb n s.1 t'.1
  round-Spent n a = Spent-more sb (n + 0) n s.1 t'.1 (omega arith) (
      Spent-both sb n 0 s.1 t.1 t'.1 a
        (Spent-same sb 0 t.1 t'.1 (λ m c. used-Poked sb t.1 (place t f) t'.1 m poked c)))
