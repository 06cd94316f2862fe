-- ===== src/Cofs/Map/Grow.antt =====
-- What a new block, and a write of its number into a table, do to the blocks in use.
use c_osiris.Base.{ℕ, ◌+◌, ◌*◌, ◌/◌, ◌%◌, ◌<◌, ◌≡◌, ◌≢◌, ◌⊎◌, inl, sym, ap, ◌∙◌, some, arith}
use mathlib.Core.Path.{subst}
use c_osiris.Cofs.{
  Disk, Superblock, overlay, byte_of, word, put_word, bitmap_block, block_size, bits_per_block,
}
use c_osiris.Base.Bits.{bit_at}
use c_osiris.Cofs.Bytes.{overlay_ne, word_frame, word-put_word_ne}
use c_osiris.Cofs.Alloc.{bit, block_alloc}
use c_osiris.Cofs.Alloc.Scan.{IsBytes}
use c_osiris.Cofs.Alloc.Used.{used, IsCovered}
use c_osiris.Cofs.Alloc.Outcome.{Outcome, block_alloc-Outcome, block_alloc-IsBytes}
use c_osiris.Cofs.Map.{num_sind}
use c_osiris.Cofs.Map.Pointers.{IsInUse, IsDisk}

-- `d'` is `d` with the new block `n`; of the tables in use only entry `j` of block `t` may differ.
pub record Grew (sb : Superblock) (d : Disk) (n t j : ℕ) (d' : Disk) : Type 0 where
  pub disk : IsDisk sb d'
  pub was_free : used sb d n ≡ 0
  pub now : IsInUse sb d' n
  pub others_used : (m : ℕ) → IsCovered sb m → m ≢ n → used sb d' m ≡ used sb d m
  pub keeps : (b : ℕ) → IsInUse sb d b → IsInUse sb d' b
  pub words : (c i : ℕ) → IsInUse sb d c → (c ≢ t) ⊎ (i ≢ j) → word d' c i ≡ word d c i
  pub data_same : (c k : ℕ) → IsInUse sb d c → c ≢ t → d' c k ≡ d c k
  pub fresh : (i : ℕ) → i < num_sind → word d' n i ≡ 0

word_zero :
    (d : Disk) (n i : ℕ) → ((k : ℕ) → k < block_size → d n k ≡ 0) → i < num_sind → word d n i ≡ 0
unfolding word
word_zero d n i z h = omega (
  arith,
  z (4 * i) (omega arith),
  z (4 * i + 1) (omega arith),
  z (4 * i + 2) (omega arith),
  z (4 * i + 3) (omega arith),
)

-- `block_alloc` that hands out a block.
pub block_alloc-Grew :
    (sb : Superblock) (d d' : Disk) (n : ℕ)
    → IsDisk sb d
    → block_alloc sb d ≡ some (n, d')
    → Grew sb d n 0 0 d'
block_alloc-Grew sb d d' n v h =
    go (subst (Outcome sb d) h (block_alloc-Outcome sb d v.bytes v.sound))
  where
    go : Outcome sb d (some (n, d')) → Grew sb d n 0 0 d'
    go (Outcome.full is all) = absurd (cc)
    go (Outcome.took m e is covered is_data free now zeros others same) =
        let p : n ≡ m = cc in
        let q : d' ≡ e = cc in
        subst (λ (k : ℕ). Grew sb d k 0 0 d') (sym p)
          (subst (Grew sb d m 0 0) (sym q) (record {
            disk = record {
              bytes = subst IsBytes q (block_alloc-IsBytes sb d d' n v.bytes h);
              sound = record {
                meta_used = λ k low.
                    others k (omega (arith, v.sound.data_covered)) (omega arith)
                    ∙ v.sound.meta_used k low;
                bitmap_low = v.sound.bitmap_low;
                data_covered = v.sound.data_covered;
              };
              small = v.small;
            };
            was_free = free;
            now = record { is_data = is_data; covered = covered; in_use = now };
            others_used = others;
            keeps = λ b u. record {
              is_data = u.is_data;
              covered = u.covered;
              in_use = others b u.covered (apart b u) ∙ u.in_use;
            };
            words = λ c i u x. word_frame d e c i λ k lo hi.
                same c k (apart c u)
                  (λ f. absurd (omega (arith, v.sound.bitmap_low m covered, u.is_data)));
            data_same = λ c k u x.
                same c k (apart c u)
                  (λ f. absurd (omega (arith, v.sound.bitmap_low m covered, u.is_data)));
            fresh = λ i lt. word_zero e m i zeros lt;
          }))
      where
        apart : (b : ℕ) → IsInUse sb d b → b ≢ m
        apart b u f = absurd (omega (arith, ap (used sb d) f, u.in_use, free))

-- And the write of a table entry behind it.
pub put_word-Grew :
    (sb : Superblock) (d d' : Disk) (n t j : ℕ)
    → IsInUse sb d t
    → Grew sb d n 0 0 d'
    → Grew sb d n t j (put_word t j n d')
unfolding used bit put_word overlay
put_word-Grew sb d d' n t j u g = record {
  disk = record {
    bytes = put_bytes;
    sound = record {
      meta_used = λ k low.
          used_same k (omega (arith, g.disk.sound.data_covered)) ∙ g.disk.sound.meta_used k low;
      bitmap_low = g.disk.sound.bitmap_low;
      data_covered = g.disk.sound.data_covered;
    };
    small = g.disk.small;
  };
  was_free = g.was_free;
  now = moved n g.now;
  others_used = λ m c ne. used_same m c ∙ g.others_used m c ne;
  keeps = λ b v. moved b (g.keeps b v);
  words = λ c i v x.
      word-put_word_ne d' t j n c i x
      ∙ g.words c i v (
          inl (λ e.
            absurd (omega (arith, v.is_data, v.covered, g.disk.sound.bitmap_low c v.covered))));
  data_same = λ c k v ne.
      overlay_ne t (4 * j) 4 (byte_of n) d' c k ne
      ∙ g.data_same c k v
          (λ e. absurd (omega (arith, v.is_data, v.covered, g.disk.sound.bitmap_low c v.covered)));
  fresh = λ i lt. word-put_word_ne d' t j n n i (inl other) ∙ g.fresh i lt;
}
  where
    other : n ≢ t
    other e = absurd (omega (arith, ap (used sb d) e, g.was_free, u.in_use))

    used_same : (m : ℕ) → IsCovered sb m → used sb (put_word t j n d') m ≡ used sb d' m
    used_same m c =
        ap (λ (w : ℕ). bit_at w (m % bits_per_block % 8))
          (overlay_ne t (4 * j) 4 (byte_of n) d' (bitmap_block sb m) (m % bits_per_block / 8)
            (λ e. absurd (omega (arith, g.disk.sound.bitmap_low m c, u.is_data))))

    moved : (b : ℕ) → IsInUse sb d' b → IsInUse sb (put_word t j n d') b
    moved b v = record {
      is_data = v.is_data;
      covered = v.covered;
      in_use = used_same b v.covered ∙ v.in_use;
    }

    put_bytes : IsBytes (put_word t j n d')
    put_bytes c k = ground (arith, g.disk.bytes c k)
