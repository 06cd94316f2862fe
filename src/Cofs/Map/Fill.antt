-- ===== src/Cofs/Map/Fill.antt =====
-- A new block in the place of a pointer that was 0: the other pointers are as they were.
use c_osiris.Base.{
  ℕ, ◌<◌, ◌≡◌, ◌≢◌, ◌⊎◌, inl, inr, sym, ap, ◌∙◌, arith, eq-cases, length, get_or, set, length-set,
  get_or-set_self, get_or-set_ne,
}
use c_osiris.Cofs.{Disk, Superblock, word}
use c_osiris.Cofs.Alloc.Used.{used, IsCovered}
use c_osiris.Cofs.Inode.{num_addrs}
use c_osiris.Cofs.Map.{num_sind, Files}
use c_osiris.Cofs.Map.Pointers.{
  Locus, under, ptr, IsLocus, IsInUse, IsDisk, IsOwned, IsLeaf, leaf-IsLocus,
}
use c_osiris.Cofs.Map.Grow.{Grew}

pub under_zero : (b : ℕ) (d : Disk) (j : ℕ) → b ≡ 0 → under b d j ≡ 0
unfolding under
under_zero b d j h = ground arith

pub under_pos : (b : ℕ) (d : Disk) (j : ℕ) → b ≢ 0 → under b d j ≡ word d b j
unfolding under
under_pos b d j h = ground arith

-- `s'` is `s` with the new block `n` in the place `p`.
pub record Filled (sb : Superblock) (s : Files) (p : Locus) (n : ℕ) (s' : Files) : Type 0 where
  pub disk : IsDisk sb s'.1
  pub nine : length s'.0 ≡ num_addrs
  pub was_free : used sb s.1 n ≡ 0
  pub now : IsInUse sb s'.1 n
  pub others_used : (m : ℕ) → IsCovered sb m → m ≢ n → used sb s'.1 m ≡ used sb s.1 m
  pub keeps : (b : ℕ) → IsInUse sb s.1 b → IsInUse sb s'.1 b
  pub at : ptr s' p ≡ n
  pub others : (q : Locus) → IsLocus q → q ≢ p → ptr s' q ≡ ptr s q
  pub data_same : (q : Locus) (k : ℕ) → IsLeaf q → ptr s q ≢ 0 → s'.1 (ptr s q) k ≡ s.1 (ptr s q) k

pub data_pos : (sb : Superblock) (d : Disk) → IsDisk sb d → (n : ℕ) → IsInUse sb d n → n ≢ 0
data_pos sb d v n u e = absurd (omega (arith, u.is_data, v.sound.bitmap_low n u.covered))

-- An entry of a table whose pointer is as it was, or has become the new block.
child :
    (sb : Superblock) (d d' : Disk) (n t j b b' i : ℕ)
    → Grew sb d n t j d'
    → (b' ≡ b) ⊎ ((b ≡ 0) × (b' ≡ n))
    → i < num_sind
    → (b ≢ 0 → IsInUse sb d b)
    → (b ≢ 0 → (b ≢ t) ⊎ (i ≢ j))
    → under b' d' i ≡ under b d i
child sb d d' n t j b b' i g (inl same) lt own apart =
    ap (λ (x : ℕ). under x d' i) same ∙ (elim (eq-cases b 0) [
      | inl z ↦ under_zero b d' i z ∙ sym (under_zero b d i z)
      | inr nz ↦ under_pos b d' i nz ∙ g.words b i (own nz) (apart nz) ∙ sym (under_pos b d i nz)
    ])
child sb d d' n t j b b' i g (inr (z, is)) lt own apart =
    ap (λ (x : ℕ). under x d' i) is
    ∙ under_pos n d' i (data_pos sb d' g.disk n g.now)
    ∙ g.fresh i lt
    ∙ sym (under_zero b d i z)

module _ (sb : Superblock) (s s' : Files) (n t j : ℕ) (v : IsOwned sb s)
    (g : Grew sb s.1 n t j s'.1) where
  -- The entries of the table that a pointer leads to.
  abbrev pub Same : Locus → Type 0
  Same u = (ptr s' u ≡ ptr s u) ⊎ ((ptr s u ≡ 0) × (ptr s' u ≡ n))

  pub below :
      (u : Locus) (i : ℕ)
      → IsLocus u
      → Same u
      → i < num_sind
      → (ptr s u ≢ 0 → (ptr s u ≢ t) ⊎ (i ≢ j))
      → under (ptr s' u) s'.1 i ≡ under (ptr s u) s.1 i
  below u i w same lt apart =
      child sb s.1 s'.1 n t j (ptr s u) (ptr s' u) i g same lt (λ nz. v.owned u w nz) apart

-- A new block in the inode.
pub fill_top :
    (sb : Superblock) (s : Files) (d' : Disk) (n k : ℕ)
    → IsOwned sb s
    → k < 8
    → ptr s (Locus.top k) ≡ 0
    → Grew sb s.1 n 0 0 d'
    → Filled sb s (Locus.top k) n (set s.0 k n, d')
unfolding ptr IsLocus
fill_top sb s d' n k v lt z g = record {
  disk = g.disk;
  nine = length-set s.0 k n ∙ v.nine;
  was_free = g.was_free;
  now = g.now;
  others_used = g.others_used;
  keeps = g.keeps;
  at = get_or-set_self s.0 k n 0 (omega (arith, v.nine));
  others = others;
  data_same = λ q k leaf nz.
      let u = v.owned q (leaf-IsLocus q leaf) nz in g.data_same (ptr s q) k u (λ e. nz e);
}
  where
    s' : Files
    s' = (set s.0 k n, d')

    root : (j : ℕ) → Same sb s s' n 0 0 v g (Locus.top j)
    root j = elim (eq-cases j k) [
      | inl e ↦ inr (
        ap (λ (x : ℕ). get_or s.0 x 0) e ∙ z,
        ap (λ (x : ℕ). get_or (set s.0 k n) x 0) e
            ∙ get_or-set_self s.0 k n 0 (omega (arith, v.nine)),
      )
      | inr ne ↦ inl (get_or-set_ne s.0 k j n 0 (λ e. ne (sym e)))
    ]

    mid : (i : ℕ) → i < num_sind → ptr s' (Locus.middle i) ≡ ptr s (Locus.middle i)
    mid i w = below sb s s' n 0 0 v g (Locus.top 7) i (omega arith) (root 7) w (λ nz. inl nz)

    others : (q : Locus) → IsLocus q → q ≢ Locus.top k → ptr s' q ≡ ptr s q
    others (Locus.top j) w ne = get_or-set_ne s.0 k j n 0 (λ e. ne (ap Locus.top (sym e)))
    others (Locus.single i) w ne =
        below sb s s' n 0 0 v g (Locus.top 6) i (omega arith) (root 6) w (λ nz. inl nz)
    others (Locus.middle i) w ne = mid i w
    others (Locus.double h i) w ne =
        below sb s s' n 0 0 v g (Locus.middle h) i w.0 (inl (mid h w.0)) w.1 (λ nz. inl nz)
