-- ===== src/Cofs/File/Poke.antt =====
-- A write to the contents of a file leaves its tables and the bitmap.
use c_osiris.Base.{ℕ, ◌-◌, ◌%◌, ◌<◌, ◌≡◌, ◌≢◌, inl, inr, refl, sym, ap, ◌∙◌, List, arith, eq-cases}
use mathlib.Core.Path.{subst}
use c_osiris.Base.Bits.{bit_at}
use c_osiris.Cofs.{Disk, Superblock, overlay, bitmap_block, bits_per_block}
use c_osiris.Cofs.Bytes.{overlay_ne, word_frame}
use c_osiris.Cofs.Alloc.{bit}
use c_osiris.Cofs.Alloc.Scan.{IsBytes}
use c_osiris.Cofs.Alloc.Used.{used, IsCovered}
use c_osiris.Cofs.Map.Pointers.{
  Locus, under, ptr, IsLocus, IsInUse, IsDisk, IsOwned, IsLeaf, leaf-IsLocus, top_leaf, middle_leaf,
}
use c_osiris.Cofs.Map.Fill.{under_zero, under_pos}

-- `d'` is `d` but for a block `b` that is not the bitmap's.
pub record Poked (sb : Superblock) (d : Disk) (b : ℕ) (d' : Disk) : Type 0 where
  pub bytes : IsBytes d'
  pub off_map : (m : ℕ) → IsCovered sb m → bitmap_block sb m ≢ b
  pub others : (c k : ℕ) → c ≢ b → d' c k ≡ d c k

pub used-Poked :
    (sb : Superblock) (d : Disk) (b : ℕ) (d' : Disk) (m : ℕ)
    → Poked sb d b d'
    → IsCovered sb m
    → used sb d' m ≡ used sb d m
unfolding used bit
used-Poked sb d b d' m p c =
    ap (λ (w : ℕ). bit_at w (m % bits_per_block % 8))
      (p.others (bitmap_block sb m) _ (p.off_map m c))

pub IsDisk-Poked :
    (sb : Superblock) (d : Disk) (b : ℕ) (d' : Disk) → Poked sb d b d' → IsDisk sb d → IsDisk sb d'
IsDisk-Poked sb d b d' p v = record {
  bytes = p.bytes;
  sound = record {
    meta_used = λ m low.
        used-Poked sb d b d' m p (omega (arith, v.sound.data_covered)) ∙ v.sound.meta_used m low;
    bitmap_low = v.sound.bitmap_low;
    data_covered = v.sound.data_covered;
  };
  small = v.small;
}

under-Poked :
    (sb : Superblock) (d : Disk) (b : ℕ) (d' : Disk) (c i : ℕ)
    → Poked sb d b d'
    → (c ≢ 0 → c ≢ b)
    → under c d' i ≡ under c d i
under-Poked sb d b d' c i p ne = elim (eq-cases c 0) [
  | inl z ↦ under_zero c d' i z ∙ sym (under_zero c d i z)
  | inr nz ↦
      under_pos c d' i nz
      ∙ word_frame d d' c i (λ k lo hi. p.others c k (ne nz))
      ∙ sym (under_pos c d i nz)
]

-- The pointers of a file, when the block is none of its tables.
pub ptr-Poked :
    (sb : Superblock) (a : List ℕ) (d : Disk) (b : ℕ) (d' : Disk)
    → Poked sb d b d'
    → (ptr (a, d) (Locus.top 6) ≢ 0 → ptr (a, d) (Locus.top 6) ≢ b)
    → (ptr (a, d) (Locus.top 7) ≢ 0 → ptr (a, d) (Locus.top 7) ≢ b)
    → ((i : ℕ) → i < 128 → ptr (a, d) (Locus.middle i) ≢ 0 → ptr (a, d) (Locus.middle i) ≢ b)
    → (q : Locus) → IsLocus q
    → ptr (a, d') q ≡ ptr (a, d) q
unfolding ptr IsLocus
ptr-Poked sb a d b d' p six seven mid (Locus.top k) w = refl
ptr-Poked sb a d b d' p six seven mid (Locus.single j) w = under-Poked sb d b d' _ j p six
ptr-Poked sb a d b d' p six seven mid (Locus.middle i) w = under-Poked sb d b d' _ i p seven
ptr-Poked sb a d b d' p six seven mid (Locus.double i j) w =
    ap (λ (c : ℕ). under c d' j) (under-Poked sb d b d' _ i p seven)
    ∙ under-Poked sb d b d' (ptr (a, d) (Locus.middle i)) j p (mid i w.0)

pub IsOwned-Poked :
    (sb : Superblock) (a : List ℕ) (d : Disk) (b : ℕ) (d' : Disk)
    → Poked sb d b d'
    → IsOwned sb (a, d)
    → ((q : Locus) → IsLocus q → ptr (a, d') q ≡ ptr (a, d) q)
    → IsOwned sb (a, d')
IsOwned-Poked sb a d b d' p v keep = record {
  nine = v.nine;
  owned = λ q w nz.
      let u = v.owned q w (λ z. nz (keep q w ∙ z)) in
      subst (IsInUse sb d') (sym (keep q w)) (record {
        is_data = u.is_data;
        covered = u.covered;
        in_use = used-Poked sb d b d' _ p u.covered ∙ u.in_use;
      });
  distinct = λ q r hq hr nz e.
      v.distinct q r hq hr (λ z. nz (keep q hq ∙ z)) (sym (keep q hq) ∙ e ∙ keep r hr);
}

-- Bytes that are written to a block of the file.
pub data-Poked :
    (sb : Superblock) (d : Disk) (b o n : ℕ) (f : ℕ → ℕ)
    → IsDisk sb d
    → IsInUse sb d b
    → ((i : ℕ) → f i < 256)
    → Poked sb d b (overlay b o n f d)
unfolding overlay
data-Poked sb d b o n f v u small = record {
  bytes = λ c k. ground (arith, v.bytes c k, small (k - o));
  off_map = λ m c e. absurd (omega (arith, v.sound.bitmap_low m c, u.is_data));
  others = λ c k ne. overlay_ne b o n f d c k ne;
}

pub data_ptr :
    (sb : Superblock) (a : List ℕ) (d d' : Disk) (p : Locus)
    → IsOwned sb (a, d)
    → IsLeaf p
    → Poked sb d (ptr (a, d) p) d'
    → (q : Locus) → IsLocus q
    → ptr (a, d') q ≡ ptr (a, d) q
unfolding IsLocus
data_ptr sb a d d' p v leaf k =
    ptr-Poked sb a d (ptr (a, d) p) d' k
      (λ nz e.
        top_leaf 6 (omega arith) p leaf
          (sym (v.distinct (Locus.top 6) p (omega arith) (leaf-IsLocus p leaf) nz e)))
      (λ nz e.
        top_leaf 7 (omega arith) p leaf
          (sym (v.distinct (Locus.top 7) p (omega arith) (leaf-IsLocus p leaf) nz e)))
      (λ i lt nz e.
        middle_leaf i p leaf (sym (v.distinct (Locus.middle i) p lt (leaf-IsLocus p leaf) nz e)))
