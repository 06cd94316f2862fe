-- ===== src/Cofs/Map/Table.antt =====
-- A new block in a table.
use c_osiris.Base.{ℕ, ◌+◌, ◌^◌, ◌<◌, ◌≡◌, ◌≢◌, ◌⊎◌, inl, inr, refl, sym, ap, ◌∙◌, arith, eq-cases}
use mathlib.Core.Path.{ap₂}
use c_osiris.Cofs.{Disk, Superblock, word}
use c_osiris.Cofs.Map.{num_sind, Files}
use c_osiris.Cofs.Map.Pointers.{
  Locus, under, ptr, IsLocus, IsOwned, IsLeaf, leaf-IsLocus, top_leaf, middle_leaf,
}
use c_osiris.Cofs.Map.Grow.{Grew}
use c_osiris.Cofs.Map.Fill.{under_pos, Filled, Same, below}

-- The place of the table that a pointer is in, and its index there.
unfoldable pub parent : Locus → Locus
parent (Locus.top k) = Locus.top k
parent (Locus.single j) = Locus.top 6
parent (Locus.middle i) = Locus.top 7
parent (Locus.double i j) = Locus.middle i

unfoldable pub index : Locus → ℕ
index (Locus.top k) = k
index (Locus.single j) = j
index (Locus.middle i) = i
index (Locus.double i j) = j

unfoldable pub IsEntry : Locus → Type 0
IsEntry (Locus.top k) = ⊥
IsEntry (Locus.single j) = Unit
IsEntry (Locus.middle i) = Unit
IsEntry (Locus.double i j) = Unit

number : Locus → ℕ
number (Locus.top k) = k
number (Locus.single j) = 100
number (Locus.middle i) = 200 + i
number (Locus.double i j) = 100

middle_inj : (i h : ℕ) → Locus.middle i ≡ Locus.middle h → i ≡ h
unfolding number
middle_inj i h e = omega (arith, ap number e)

top_ne : Locus.top 6 ≢ Locus.top 7
unfolding number
top_ne e = absurd (omega (arith, ap number e))

apart : (q p : Locus) → IsEntry q → IsEntry p → q ≢ p → (parent q ≢ parent p) ⊎ (index q ≢ index p)
unfolding parent index IsEntry
apart (Locus.top k) p a b ne = absurd a
apart (Locus.single j) (Locus.top k) a b ne = absurd b
apart (Locus.single j) (Locus.single k) a b ne = inr (λ e. ne (ap Locus.single e))
apart (Locus.single j) (Locus.middle k) a b ne = inl top_ne
apart (Locus.single j) (Locus.double h k) a b ne = inl (λ e. cc)
apart (Locus.middle j) (Locus.top k) a b ne = absurd b
apart (Locus.middle j) (Locus.single k) a b ne = inl (λ e. top_ne (sym e))
apart (Locus.middle j) (Locus.middle k) a b ne = inr (λ e. ne (ap Locus.middle e))
apart (Locus.middle j) (Locus.double h k) a b ne = inl (λ e. cc)
apart (Locus.double i j) (Locus.top k) a b ne = absurd b
apart (Locus.double i j) (Locus.single k) a b ne = inl (λ e. cc)
apart (Locus.double i j) (Locus.middle k) a b ne = inl (λ e. cc)
apart (Locus.double i j) (Locus.double h k) a b ne = elim (eq-cases i h) [
  | inl e ↦ inr (λ f. ne (ap₂ Locus.double e f))
  | inr m ↦ inl (λ e. m (middle_inj i h e))
]

middle-cases : (h : ℕ) (p : Locus) → (Locus.middle h ≡ p) ⊎ (Locus.middle h ≢ p)
middle-cases h (Locus.top k) = inr (λ e. cc)
middle-cases h (Locus.single j) = inr (λ e. cc)
middle-cases h (Locus.middle i) = elim (eq-cases h i) [
  | inl e ↦ inl (ap Locus.middle e)
  | inr ne ↦ inr (λ e. ne (middle_inj h i e))
]
middle-cases h (Locus.double i j) = inr (λ e. cc)

pub locus-cases : (p q : Locus) → (q ≡ p) ⊎ (q ≢ p)
unfolding parent index IsEntry
locus-cases (Locus.top k) (Locus.top j) = elim (eq-cases j k) [
  | inl e ↦ inl (ap Locus.top e)
  | inr ne ↦ inr (λ e. ne (ap index e))
]
locus-cases (Locus.single k) (Locus.single j) = elim (eq-cases j k) [
  | inl e ↦ inl (ap Locus.single e)
  | inr ne ↦ inr (λ e. ne (ap index e))
]
locus-cases (Locus.double h k) (Locus.double i j) = elim (eq-cases i h) [
  | inr ne ↦ inr (λ e. ne (middle_inj i h (ap parent e)))
  | inl e ↦ elim (eq-cases j k) [
    | inl f ↦ inl (ap₂ Locus.double e f)
    | inr ne ↦ inr (λ f. ne (ap index f))
  ]
]
locus-cases p (Locus.middle h) = elim (middle-cases h p) [ inl e ↦ inl e | inr ne ↦ inr ne ]
locus-cases (Locus.top k) (Locus.single j) = inr (λ e. cc)
locus-cases (Locus.top k) (Locus.double i j) = inr (λ e. cc)
locus-cases (Locus.single k) (Locus.top j) = inr (λ e. cc)
locus-cases (Locus.single k) (Locus.double i j) = inr (λ e. cc)
locus-cases (Locus.double h k) (Locus.top j) = inr (λ e. cc)
locus-cases (Locus.double h k) (Locus.single j) = inr (λ e. cc)
locus-cases (Locus.middle h) (Locus.top j) = inr (λ e. cc)
locus-cases (Locus.middle h) (Locus.single j) = inr (λ e. cc)
locus-cases (Locus.middle h) (Locus.double i j) = inr (λ e. cc)

pub parent-IsLocus : (p : Locus) → IsEntry p → IsLocus p → IsLocus (parent p)
unfolding parent IsEntry IsLocus
parent-IsLocus (Locus.top k) e w = absurd e
parent-IsLocus (Locus.single j) e w = omega arith
parent-IsLocus (Locus.middle i) e w = omega arith
parent-IsLocus (Locus.double i j) e w = w.0

pub index-lt : (p : Locus) → IsEntry p → IsLocus p → index p < num_sind
unfolding index IsEntry IsLocus
index-lt (Locus.top k) e w = absurd e
index-lt (Locus.single j) e w = w
index-lt (Locus.middle i) e w = w
index-lt (Locus.double i j) e w = w.1

pub ptr-parent :
    (s : Files) (p : Locus) → IsEntry p → ptr s p ≡ under (ptr s (parent p)) s.1 (index p)
unfolding ptr parent index IsEntry
ptr-parent s (Locus.top k) e = absurd e
ptr-parent s (Locus.single j) e = refl
ptr-parent s (Locus.middle i) e = refl
ptr-parent s (Locus.double i j) e = refl

-- A table is not a block of the file.
pub parent_leaf : (p : Locus) → IsEntry p → (q : Locus) → IsLeaf q → q ≢ parent p
unfolding parent IsEntry
parent_leaf (Locus.top k) e = absurd e
parent_leaf (Locus.single j) e = top_leaf 6 (omega arith)
parent_leaf (Locus.middle i) e = top_leaf 7 (omega arith)
parent_leaf (Locus.double i j) e = middle_leaf i

module _ (sb : Superblock) (s : Files) (d' : Disk) (n : ℕ) (p : Locus) (v : IsOwned sb s)
    (entry : IsEntry p) (place : IsLocus p) (table : ptr s (parent p) ≢ 0) (z : ptr s p ≡ 0)
    (g : Grew sb s.1 n (ptr s (parent p)) (index p) d') (n_fits : n < 2 ^ 32)
    (written : word d' (ptr s (parent p)) (index p) ≡ n) where
  abbrev after : Files
  after = (s.0, d')

  -- The pointers of the table at `u` but the one that is written.
  entries :
      (q : Locus)
      → IsEntry q
      → IsLocus q
      → Same sb s after n (ptr s (parent p)) (index p) v g (parent q)
      → q ≢ p
      → ptr after q ≡ ptr s q
  entries q e w same ne =
      ptr-parent after q e
      ∙ below sb s after n (ptr s (parent p)) (index p) v g (parent q) (index q)
          (parent-IsLocus q e w) same (index-lt q e w)
          (λ nz. elim (apart q p e entry ne) [
            | inl other ↦ inl λ f. other (
                v.distinct (parent q) (parent p) (parent-IsLocus q e w)
                  (parent-IsLocus p entry place) nz f)
            | inr other ↦ inr other
          ])
      ∙ sym (ptr-parent s q e)

  middles :
      (h : ℕ)
      → h < num_sind
      → Locus.middle h ≢ p
      → ptr after (Locus.middle h) ≡ ptr s (Locus.middle h)
  unfolding IsEntry IsLocus parent ptr
  middles h w ne = entries (Locus.middle h) tt w (inl refl) ne

  parent_kept :
      (x : Locus) → IsEntry x → IsLocus x → x ≡ p → ptr after (parent x) ≡ ptr s (parent x)
  unfolding parent IsEntry IsLocus ptr
  parent_kept (Locus.top k) e w is = absurd e
  parent_kept (Locus.single j) e w is = refl
  parent_kept (Locus.middle i) e w is = refl
  parent_kept (Locus.double i j) e w is = middles i w.0 (λ f. absurd (cc (f ∙ sym is)))

  at_place : ptr after p ≡ n
  at_place =
      ptr-parent after p entry
      ∙ ap (λ (b : ℕ). under b d' (index p)) (parent_kept p entry place refl)
      ∙ under_pos (ptr s (parent p)) d' (index p) table
      ∙ written

  middle-Same :
      (h : ℕ) → h < num_sind → Same sb s after n (ptr s (parent p)) (index p) v g (Locus.middle h)
  middle-Same h w = elim (middle-cases h p) [
    | inl e ↦ inr (ap (ptr s) e ∙ z, ap (ptr after) e ∙ at_place)
    | inr ne ↦ inl (middles h w ne)
  ]

  others : (q : Locus) → IsLocus q → q ≢ p → ptr after q ≡ ptr s q
  unfolding IsEntry IsLocus parent ptr
  others (Locus.top k) w ne = refl
  others (Locus.single j) w ne = entries (Locus.single j) tt w (inl refl) ne
  others (Locus.middle h) w ne = middles h w ne
  others (Locus.double h j) w ne = entries (Locus.double h j) tt w (middle-Same h w.0) ne

  pub fill_table : Filled sb s p n after
  fill_table = record {
    disk = g.disk;
    nine = v.nine;
    was_free = g.was_free;
    now = g.now;
    others_used = g.others_used;
    keeps = g.keeps;
    at = at_place;
    others = others;
    data_same = λ q k leaf nz. g.data_same (ptr s q) k (v.owned q (leaf-IsLocus q leaf) nz) λ e.
        parent_leaf p entry q leaf
          (v.distinct q (parent p) (leaf-IsLocus q leaf) (parent-IsLocus p entry place) nz e);
  }
