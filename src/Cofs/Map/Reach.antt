-- ===== src/Cofs/Map/Reach.antt =====
-- One step of `block_map`: a pointer is followed, or a new block takes its place.
use c_osiris.Base.{
  ℕ, ◌^◌, ◌<◌, ◌≡◌, ◌≢◌, inl, inr, refl, sym, ap, ◌∙◌, Option, none, some, List, arith, ◌==◌,
  Bool-cases, get_or, set,
}
use mathlib.Core.Path.{subst}
use c_osiris.Cofs.{Disk, Superblock, word, put_word}
use c_osiris.Cofs.Bytes.{word-put_word_self}
use c_osiris.Cofs.Alloc.{block_alloc}
use c_osiris.Cofs.Alloc.Used.{used, IsCovered}
use c_osiris.Cofs.Alloc.Spent.{Spent, Spent-one, Spent-same}
use c_osiris.Cofs.Alloc.Outcome.{Outcome, block_alloc-Outcome}
use c_osiris.Cofs.Map.{Files, slot, slot_new, entry, entry_new}
use c_osiris.Cofs.Map.Pointers.{Locus, ptr, IsLocus, IsInUse, IsDisk, IsOwned, IsLeaf}
use c_osiris.Cofs.Map.Grow.{block_alloc-Grew, put_word-Grew}
use c_osiris.Cofs.Map.Fill.{Filled, data_pos, fill_top, under_pos}
use c_osiris.Cofs.Map.Table.{
  parent, index, IsEntry, ptr-parent, parent-IsLocus, locus-cases, fill_table,
}

-- A file stays in order when it gets a new block.
Filled-IsOwned :
    (sb : Superblock) (s s' : Files) (p : Locus) (n : ℕ)
    → IsOwned sb s
    → IsLocus p
    → Filled sb s p n s'
    → IsOwned sb s'
Filled-IsOwned sb s s' p n v w f = record {
  nine = f.nine;
  owned = λ q h nz. elim (locus-cases p q) [
    | inl e ↦ subst (IsInUse sb s'.1) (sym (ap (ptr s') e ∙ f.at)) f.now
    | inr ne ↦
        let o = f.others q h ne in
        subst (IsInUse sb s'.1) (sym o) (f.keeps (ptr s q) (v.owned q h (λ x. nz (o ∙ x))))
  ];
  distinct = λ q r hq hr nz same. elim (locus-cases p q) [
    | inl e ↦ elim (locus-cases p r) [
      | inl e' ↦ e ∙ sym e'
      | inr ne ↦ absurd (
          fresh r hr (λ x. nz (same ∙ f.others r hr ne ∙ x))
            (sym (f.others r hr ne) ∙ sym same ∙ ap (ptr s') e ∙ f.at))
    ]
    | inr ne ↦ elim (locus-cases p r) [
      | inl e' ↦ absurd (
          fresh q hq (λ x. nz (f.others q hq ne ∙ x))
            (sym (f.others q hq ne) ∙ same ∙ ap (ptr s') e' ∙ f.at))
      | inr ne' ↦
          v.distinct q r hq hr (λ x. nz (f.others q hq ne ∙ x))
            (sym (f.others q hq ne) ∙ same ∙ f.others r hr ne')
    ]
  ];
}
  where
    fresh : (q : Locus) → IsLocus q → ptr s q ≢ 0 → ptr s q ≢ n
    fresh q h nz e = absurd (omega (arith, (v.owned q h nz).in_use, ap (used sb s.1) e, f.was_free))

-- A step at the place `p`: the pointer there leads to a block, the other pointers are as they were,
-- and nothing has changed if there was a block before.
pub record Stepped (sb : Superblock) (s : Files) (p : Locus) (s' : Files) : Type 0 where
  pub disk : IsDisk sb s'.1
  pub file : IsOwned sb s'
  pub there : ptr s' p ≢ 0
  pub others : (q : Locus) → IsLocus q → q ≢ p → ptr s' q ≡ ptr s q
  pub same : ptr s p ≢ 0 → s' ≡ s
  pub spent : Spent sb 1 s.1 s'.1
  pub data_same : (q : Locus) (k : ℕ) → IsLeaf q → ptr s q ≢ 0 → s'.1 (ptr s q) k ≡ s.1 (ptr s q) k

-- A step is taken, or there is no free block for it.
pub data Step (sb : Superblock) (s : Files) (p : Locus) (r : Option (ℕ × Files)) : Type 0 where
  step : (s' : Files) → r ≡ some (ptr s' p, s') → Stepped sb s p s' → Step sb s p r
  full : r ≡ none → ptr s p ≡ 0 → ((m : ℕ) → IsCovered sb m → used sb s.1 m ≡ 1) → Step sb s p r

filled :
    (sb : Superblock) (s s' : Files) (p : Locus) (n : ℕ)
    → IsOwned sb s
    → IsLocus p
    → ptr s p ≡ 0
    → Filled sb s p n s'
    → Step sb s p (some (n, s'))
filled sb s s' p n v w z f = Step.step s' (ap (λ (k : ℕ). some (k, s')) (sym f.at)) (record {
  disk = f.disk;
  file = Filled-IsOwned sb s s' p n v w f;
  there = λ e. data_pos sb s'.1 f.disk n f.now (sym f.at ∙ e);
  others = f.others;
  same = λ nz. absurd (nz z);
  spent = Spent-one sb n s.1 s'.1 f.others_used;
  data_same = f.data_same;
})

stay :
    (sb : Superblock) (s : Files) (p : Locus)
    → IsDisk sb s.1
    → IsOwned sb s
    → ptr s p ≢ 0
    → Step sb s p (some (ptr s p, s))
stay sb s p v o nz = Step.step s refl (record {
  disk = v;
  file = o;
  there = nz;
  others = λ q w ne. refl;
  same = λ x. refl;
  spent = Spent-same sb 1 s.1 s.1 (λ m c. refl);
  data_same = λ q k leaf x. refl;
})

pub slot-Step :
    (sb : Superblock) (a : List ℕ) (d : Disk) (k : ℕ)
    → IsDisk sb d
    → IsOwned sb (a, d)
    → k < 8
    → Step sb (a, d) (Locus.top k) (slot sb k (a, d))
unfolding slot slot_new IsLocus ptr
slot-Step sb a d k v o lt = elim (Bool-cases (get_or a k 0 == 0)) [
  | inr e ↦ rw e (stay sb (a, d) (Locus.top k) v o (ground arith))
  | inl e ↦
      rw e (go (ground arith) (block_alloc sb d) refl (block_alloc-Outcome sb d v.bytes v.sound))
]
  where
    go :
        get_or a k 0 ≡ 0
        → (r : Option (ℕ × Disk)) → block_alloc sb d ≡ r
        → Outcome sb d r
        → Step sb (a, d) (Locus.top k) (slot_new k a r)
    go z none e (Outcome.full is all) = Step.full refl z all
    go z none e (Outcome.took n d' is c x f w ze ot sa) = absurd (cc)
    go z (some (n, d')) e x =
        filled sb (a, d) (set a k n, d') (Locus.top k) n o lt z
          (fill_top sb (a, d) d' n k o lt z (block_alloc-Grew sb d d' n v e))

pub entry-Step :
    (sb : Superblock) (a : List ℕ) (d : Disk) (p : Locus)
    → IsDisk sb d
    → IsOwned sb (a, d)
    → IsEntry p
    → IsLocus p
    → ptr (a, d) (parent p) ≢ 0
    → Step sb (a, d) p (entry sb (ptr (a, d) (parent p)) (index p) (a, d))
unfolding entry entry_new
entry-Step sb a d p v o is_entry w table = elim (Bool-cases (word d t (index p) == 0)) [
  | inr e ↦ rw e (
      subst (λ (x : ℕ). Step sb (a, d) p (some (x, (a, d)))) is
        (stay sb (a, d) p v o (λ z. absurd (ground (arith, is)))))
  | inl e ↦
      rw e
        (go (is ∙ ground arith) (block_alloc sb d) refl (block_alloc-Outcome sb d v.bytes v.sound))
]
  where
    t : ℕ
    t = ptr (a, d) (parent p)

    is : ptr (a, d) p ≡ word d t (index p)
    is = ptr-parent (a, d) p is_entry ∙ under_pos t d (index p) table

    go :
        ptr (a, d) p ≡ 0
        → (r : Option (ℕ × Disk)) → block_alloc sb d ≡ r
        → Outcome sb d r
        → Step sb (a, d) p (entry_new t (index p) a r)
    go z none e (Outcome.full x all) = Step.full refl z all
    go z none e (Outcome.took n d' x c y f u ze ot sa) = absurd (cc)
    go z (some (n, d')) e x =
        let g = block_alloc-Grew sb d d' n v e in
        let u = o.owned (parent p) (parent-IsLocus p is_entry w) table in
        let fits : n < 2 ^ 32 = omega (arith, g.now.covered, v.small) in
        filled sb (a, d) (a, put_word t (index p) n d') p n o w z
          (fill_table sb (a, d) (put_word t (index p) n d') n p o is_entry w table z
            (put_word-Grew sb d d' n t (index p) u g) fits
            (word-put_word_self d' t (index p) n fits))
