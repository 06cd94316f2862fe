-- ===== src/Cofs/Alloc/Outcome.antt =====
-- `block_alloc` and `block_free` on the set of the blocks in use.
use c_osiris.Base.{
  ℕ, zero, suc, ◌+◌, ◌*◌, ◌/◌, ◌%◌, ◌≤◌, ◌<◌, ◌≡◌, ◌≢◌, ◌⊎◌, inl, inr, refl, sym, ap, ◌∙◌, Option,
  none, some, arith, Option-cases, eq-cases, ltb, ltb→lt, all_below, all_below_sound,
}
use mathlib.Core.Path.{subst, ap₂}
use native.Mathlib.Decide.{dec_lt}
use c_osiris.Base.Bits.{bit_at, bit_at-lt, set_bit, clear_bit}
use c_osiris.Cofs.{Disk, Superblock, bits_per_block, bitmap_block, block_zero, block_size, overlay}
use c_osiris.Cofs.Bytes.{overlay_in, overlay_ne}
use c_osiris.Cofs.Alloc.{
  bit, put_byte, take_bit, drop_bit, scan_bitmap, alloc_round, alloc_loop, num_bitmaps, block_alloc,
  block_free,
}
use c_osiris.Cofs.Alloc.Scan.{IsBytes, scan_bitmap-some, scan_bitmap_none}
use c_osiris.Cofs.Alloc.Used.{
  used, IsCovered, IsSound, bit-take_bit_self, bit-take_bit_ne, bit-drop_bit_self, bit-drop_bit_ne,
  take_bit_ne, drop_bit_ne,
}

pub block_zero_self : (n : ℕ) (d : Disk) (k : ℕ) → k < block_size → block_zero n d n k ≡ 0
unfolding block_zero
block_zero_self n d k h =
    let e : k ≡ 0 + k = omega arith in
    ap (block_zero n d n) e ∙ overlay_in n 0 block_size (λ k. 0) d k h

pub block_zero_ne : (n : ℕ) (d : Disk) (c k : ℕ) → c ≢ n → block_zero n d c k ≡ d c k
unfolding block_zero
block_zero_ne n d c k h = overlay_ne n 0 block_size (λ k. 0) d c k h

bit-block_zero_ne : (n : ℕ) (d : Disk) (c k : ℕ) → c ≢ n → bit (block_zero n d) c k ≡ bit d c k
unfolding bit
bit-block_zero_ne n d c k h = ap (λ (v : ℕ). bit_at v (k % 8)) (block_zero_ne n d c (k / 8) h)

pub used-lt : (sb : Superblock) (d : Disk) (n : ℕ) → used sb d n < 2
unfolding used bit
used-lt sb d n = bit_at-lt (d (bitmap_block sb n) (n % bits_per_block / 8)) _

used_ne :
    (sb : Superblock) (d : Disk) (n : ℕ)
    → bit d (bitmap_block sb n) (n % bits_per_block) ≢ 0
    → used sb d n ≡ 1
unfolding used
used_ne sb d n h = omega (arith, used-lt sb d n, h)

-- The disk after block `n` was handed out.
abbrev granted : Superblock → ℕ → Disk → Disk
granted sb n d = block_zero n (take_bit (bitmap_block sb n) (n % bits_per_block) d)

alloc_loop-some :
    (r i : ℕ) (sb : Superblock) (d d' : Disk) (n : ℕ)
    → alloc_loop r (i * bits_per_block) sb d ≡ some (n, d')
    → (n < (i + r) * bits_per_block) × (used sb d n ≡ 0) × (d' ≡ granted sb n d)
unfolding alloc_loop alloc_round used
alloc_loop-some zero i sb d d' n = λ h. absurd (cc)
alloc_loop-some (suc r) i sb d d' n =
    elim (Option-cases (scan_bitmap d (bitmap_block sb (i * bits_per_block)))) [
      | inl e ↦ rw e λ h.
          let p : i * bits_per_block + bits_per_block ≡ (i + 1) * bits_per_block = omega arith in
          let q =
            alloc_loop-some r (i + 1) sb d d' n (ap (λ (b : ℕ). alloc_loop r b sb d) (sym p) ∙ h) in
          (omega (arith, q.0), q.1, q.2)
      | inr (idx, e) ↦ rw e λ h.
          let b = bitmap_block sb (i * bits_per_block) in
          let (low, clear) = scan_bitmap-some d b idx e in
          let p : i * bits_per_block + idx ≡ n = cc in
          let q : block_zero (i * bits_per_block + idx) (take_bit b idx d) ≡ d' = cc in
          let v : b ≡ bitmap_block sb n = omega arith in
          let w : idx ≡ n % bits_per_block = omega arith in
          (
            omega arith,
            ap₂ (bit d) (sym v) (sym w) ∙ clear,
            sym q
                ∙ ap (λ (k : ℕ). block_zero k (take_bit b idx d)) p
                ∙ ap₂ (λ (c k : ℕ). block_zero n (take_bit c k d)) v w,
          )
    ]

alloc_loop_none :
    (r i : ℕ) (sb : Superblock) (d : Disk) (n : ℕ)
    → IsBytes d
    → i * bits_per_block ≤ n
    → n < (i + r) * bits_per_block
    → alloc_loop r (i * bits_per_block) sb d ≡ none
    → used sb d n ≡ 1
unfolding alloc_loop alloc_round
alloc_loop_none zero i sb d n bytes lo hi = absurd (omega arith)
alloc_loop_none (suc r) i sb d n bytes lo hi =
    elim (Option-cases (scan_bitmap d (bitmap_block sb (i * bits_per_block)))) [
      | inr (idx, e) ↦ rw e λ h. absurd (cc)
      | inl e ↦ rw e λ h. elim (eq-cases (n / bits_per_block) i) [
        | inl same ↦
            let v : bitmap_block sb (i * bits_per_block) ≡ bitmap_block sb n = omega arith in
            let ne =
              scan_bitmap_none d (bitmap_block sb n) (n % bits_per_block) bytes
                (ap (scan_bitmap d) (sym v) ∙ e) (omega arith) in
            used_ne sb d n ne
        | inr other ↦
            let p : i * bits_per_block + bits_per_block ≡ (i + 1) * bits_per_block = omega arith in
            alloc_loop_none r (i + 1) sb d n bytes (omega arith) (omega arith)
              (ap (λ (b : ℕ). alloc_loop r b sb d) (sym p) ∙ h)
      ]
    ]

-- What `block_alloc` comes to: a block that was free and is not one of the first, full of zeros, and
-- now in use, with every other block in use or not as before and its contents as they were; or a
-- panic, when all the blocks that the bitmap covers are in use.
pub data Outcome (sb : Superblock) (d : Disk) (r : Option (ℕ × Disk)) : Type 0 where
  took :
      (n : ℕ) (d' : Disk)
      → r ≡ some (n, d')
      → IsCovered sb n
      → sb.data_block ≤ n
      → used sb d n ≡ 0
      → used sb d' n ≡ 1
      → ((k : ℕ) → k < block_size → d' n k ≡ 0)
      → ((m : ℕ) → IsCovered sb m → m ≢ n → used sb d' m ≡ used sb d m)
      → ((c k : ℕ) → c ≢ n → c ≢ bitmap_block sb n → d' c k ≡ d c k)
      → Outcome sb d r
  full : r ≡ none → ((m : ℕ) → IsCovered sb m → used sb d m ≡ 1) → Outcome sb d r

place_ne :
    (sb : Superblock) (m n : ℕ)
    → m ≢ n
    → (bitmap_block sb m ≢ bitmap_block sb n) ⊎ (m % bits_per_block ≢ n % bits_per_block)
place_ne sb m n h = elim (eq-cases (m / bits_per_block) (n / bits_per_block)) [
  | inl e ↦ inr (λ f. h (omega arith))
  | inr e ↦ inl (λ f. e (omega arith))
]

used-granted_self :
    (sb : Superblock) (d : Disk) (n : ℕ) → bitmap_block sb n ≢ n → used sb (granted sb n d) n ≡ 1
unfolding used
used-granted_self sb d n h =
    bit-block_zero_ne n _ (bitmap_block sb n) (n % bits_per_block) h
    ∙ bit-take_bit_self (bitmap_block sb n) (n % bits_per_block) d

used-granted_ne :
    (sb : Superblock) (d : Disk) (m n : ℕ)
    → bitmap_block sb m ≢ n
    → m ≢ n
    → used sb (granted sb n d) m ≡ used sb d m
unfolding used
used-granted_ne sb d m n h ne =
    bit-block_zero_ne n _ (bitmap_block sb m) (m % bits_per_block) h
    ∙ bit-take_bit_ne (bitmap_block sb n) (n % bits_per_block) d (bitmap_block sb m)
        (m % bits_per_block) (place_ne sb m n ne)

granted_ne :
    (sb : Superblock) (d : Disk) (n c k : ℕ)
    → c ≢ n
    → c ≢ bitmap_block sb n
    → granted sb n d c k ≡ d c k
granted_ne sb d n c k p q =
    block_zero_ne n _ c k p ∙ take_bit_ne (bitmap_block sb n) (n % bits_per_block) d c k q

alloc_took :
    (sb : Superblock) (d d' : Disk) (n : ℕ)
    → IsSound sb d
    → block_alloc sb d ≡ some (n, d')
    → Outcome sb d (some (n, d'))
unfolding block_alloc
alloc_took sb d d' n s h =
    let (low, free, is) = alloc_loop-some (num_bitmaps sb) 0 sb d d' n h in
    let covered : IsCovered sb n = omega arith in
    let data_in : sb.data_block ≤ n = elim (dec_lt n sb.data_block) [
      | yes lt ↦ absurd (omega (arith, s.meta_used n lt))
      | no ge ↦ omega arith
    ] in
    subst (λ (x : Disk). Outcome sb d (some (n, x))) (sym is)
      (Outcome.took n (granted sb n d) refl covered data_in free
        (used-granted_self sb d n (λ e. absurd (omega (arith, s.bitmap_low n covered))))
        (λ k lt. block_zero_self n (take_bit (bitmap_block sb n) (n % bits_per_block) d) k lt)
        (λ m c ne. used-granted_ne sb d m n (λ e. absurd (omega (arith, s.bitmap_low m c))) ne)
        (λ c k p q. granted_ne sb d n c k p q))

-- `block_alloc` on a disk of bytes whose first blocks, the bitmap's among them, are in use: either
-- it hands out a data block that was free, fills it with zeros, marks it and no other as used, and
-- changes no block but this and the one of the bitmap with its bit; or it panics, and then every
-- block of the bitmap is in use.
pub block_alloc-Outcome :
    (sb : Superblock) (d : Disk) → IsBytes d → IsSound sb d → Outcome sb d (block_alloc sb d)
unfolding block_alloc
block_alloc-Outcome sb d bytes s = elim (Option-cases (block_alloc sb d)) [
  | inl e ↦ rw e (Outcome.full refl (λ m c. ended m c e))
  | inr ((n, d'), e) ↦ rw e (alloc_took sb d d' n s e)
]
  where
    ended : (m : ℕ) → IsCovered sb m → block_alloc sb d ≡ none → used sb d m ≡ 1
    ended m c e = alloc_loop_none (num_bitmaps sb) 0 sb d m bytes (omega arith) (omega arith) e

-- `block_free` panics for a block that is not in use. Else it takes that block out of those in use,
-- no other, and writes to no block but the one of the bitmap.
pub block_free_lem :
    (sb : Superblock) (d : Disk) (n : ℕ)
    → (used sb d n ≡ 0 → block_free sb n d ≡ none)
      × (used sb d n ≡ 1
          → (d' : Disk) × (block_free sb n d ≡ some d')
            × (used sb d' n ≡ 0)
            × ((m : ℕ) → m ≢ n → used sb d' m ≡ used sb d m)
            × ((c k : ℕ) → c ≢ bitmap_block sb n → d' c k ≡ d c k))
unfolding block_free used
block_free_lem sb d n =
    let b = bitmap_block sb n in
    let idx = n % bits_per_block in
    (
      λ h. rw h refl,
      λ h. (
        drop_bit b idx d,
        rw h refl,
        bit-drop_bit_self b idx d,
        λ m ne.
            bit-drop_bit_ne b idx d (bitmap_block sb m) (m % bits_per_block) (place_ne sb m n ne),
        λ c k ne. drop_bit_ne b idx d c k ne,
      ),
    )

pub put_byte-IsBytes : (b o v : ℕ) (d : Disk) → IsBytes d → v < 256 → IsBytes (put_byte b o v d)
unfolding put_byte overlay
put_byte-IsBytes b o v d bytes h c k = ground (arith, bytes c k)

block_zero-IsBytes : (n : ℕ) (d : Disk) → IsBytes d → IsBytes (block_zero n d)
unfolding block_zero overlay
block_zero-IsBytes n d bytes c k = ground (arith, bytes c k)

clear_bit-le : (w j : ℕ) → clear_bit w j ≤ w
unfolding clear_bit
clear_bit-le w j = ground arith

pub set_bit-lt : (w j : ℕ) → w < 256 → j < 8 → set_bit w j < 256
unfolding set_bit bit_at
set_bit-lt w j p q = ltb→lt (set_bit w j) 256 (
    all_below_sound 8 (λ k. ltb (set_bit w k) 256) j
      (all_below_sound 256 (λ v. all_below 8 (λ k. ltb (set_bit v k) 256)) w refl p) q)

pub block_free-IsBytes :
    (sb : Superblock) (d d' : Disk) (n : ℕ) → IsBytes d → block_free sb n d ≡ some d' → IsBytes d'
unfolding block_free drop_bit
block_free-IsBytes sb d d' n bytes =
    let b = bitmap_block sb n in
    let o = n % bits_per_block / 8 in
    let w = clear_bit (d b o) (n % bits_per_block % 8) in
    elim (eq-cases (bit d b (n % bits_per_block)) 0) [
      | inl z ↦ rw z λ h. absurd (cc)
      | inr z ↦ λ h.
          let same : put_byte b o w d ≡ d' = ground arith in
          subst IsBytes same (
            put_byte-IsBytes b o w d bytes
              (omega (arith, clear_bit-le (d b o) (n % bits_per_block % 8), bytes b o)))
    ]

-- Behind a `block_free` that did not panic, of a block of the bitmap on a disk of bytes,
-- `block_alloc` does not panic: it hands out a block.
pub block_alloc-block_free :
    (sb : Superblock) (d d' : Disk) (n : ℕ)
    → IsBytes d
    → IsCovered sb n
    → block_free sb n d ≡ some d'
    → (m : ℕ) × (e : Disk) × (block_alloc sb d' ≡ some (m, e))
unfolding block_alloc
block_alloc-block_free sb d d' n bytes c h = elim (Option-cases (block_alloc sb d')) [
  | inr ((m, e), found) ↦ (m, e, found)
  | inl e ↦
      let one =
        alloc_loop_none (num_bitmaps sb) 0 sb d' n (block_free-IsBytes sb d d' n bytes h)
          (omega arith) (omega arith) e in
      absurd (omega (arith, one, freed))
]
  where
    freed : used sb d' n ≡ 0
    freed = elim (eq-cases (used sb d n) 0) [
      | inl z ↦ absurd (cc ((block_free_lem sb d n).0 z))
      | inr o ↦
          let (x, p, q, r, t) = (block_free_lem sb d n).1 (omega (arith, used-lt sb d n)) in
          let same : x ≡ d' = cc in ap (λ (y : Disk). used sb y n) (sym same) ∙ q
    ]

pub block_alloc-IsBytes :
    (sb : Superblock) (d d' : Disk) (n : ℕ)
    → IsBytes d
    → block_alloc sb d ≡ some (n, d')
    → IsBytes d'
unfolding block_alloc take_bit
block_alloc-IsBytes sb d d' n bytes h =
    let (low, free, is) = alloc_loop-some (num_bitmaps sb) 0 sb d d' n h in
    let b = bitmap_block sb n in
    let o = n % bits_per_block / 8 in
    let w = set_bit (d b o) (n % bits_per_block % 8) in
    subst IsBytes (sym is) (
      block_zero-IsBytes n (put_byte b o w d) (
        put_byte-IsBytes b o w d bytes
          (set_bit-lt (d b o) (n % bits_per_block % 8) (bytes b o) (omega arith))))
