-- ===== src/Cofs/Alloc/Used.antt =====
-- The bitmap as the set of the blocks in use: what taking and freeing a block does to it.
use c_osiris.Base.{
  ℕ, ◌+◌, ◌*◌, ◌/◌, ◌%◌, ◌≤◌, ◌<◌, ◌≡◌, ◌≢◌, ◌⊎◌, inl, inr, refl, sym, ap, ◌∙◌, arith, eq-cases,
}
use c_osiris.Base.Bits.{
  bit_at, set_bit, clear_bit, bit_at-set_bit_self, bit_at-set_bit_ne, bit_at-clear_bit_self,
  bit_at-clear_bit_ne,
}
use c_osiris.Cofs.{Disk, Superblock, bits_per_block, bitmap_block}
use c_osiris.Cofs.Bytes.{overlay_in, overlay_ne, overlay_out}
use c_osiris.Cofs.Alloc.{bit, put_byte, take_bit, drop_bit, num_bitmaps}

put_byte_self : (b o v : ℕ) (d : Disk) → put_byte b o v d b o ≡ v
unfolding put_byte
put_byte_self b o v d =
    let e : o ≡ o + 0 = omega arith in
    ap (put_byte b o v d b) e ∙ overlay_in b o 1 (λ k. v) d 0 (omega arith)

put_byte_ne : (b o v : ℕ) (d : Disk) (c k : ℕ) → (c ≢ b) ⊎ (k ≢ o) → put_byte b o v d c k ≡ d c k
unfolding put_byte
put_byte_ne b o v d c k (inl h) = overlay_ne b o 1 (λ k. v) d c k h
put_byte_ne b o v d c k (inr h) = overlay_out b o 1 (λ k. v) d c k (ground arith)

-- A bit after a write to its byte, and after one to another.
bit-put_byte_self :
    (d : Disk) (b o v k : ℕ) → k / 8 ≡ o → bit (put_byte b o v d) b k ≡ bit_at v (k % 8)
unfolding bit
bit-put_byte_self d b o v k e =
    ap (λ (w : ℕ). bit_at w (k % 8)) (ap (put_byte b o v d b) e ∙ put_byte_self b o v d)

bit-put_byte_ne :
    (d : Disk) (b o v c k : ℕ) → (c ≢ b) ⊎ (k / 8 ≢ o) → bit (put_byte b o v d) c k ≡ bit d c k
unfolding bit
bit-put_byte_ne d b o v c k h = ap (λ (w : ℕ). bit_at w (k % 8)) (put_byte_ne b o v d c (k / 8) h)

-- The two writes of the bitmap differ in the bit that they leave behind.
module _ (change : ℕ → ℕ → ℕ)
    (keeps : (w j k : ℕ) → j ≢ k → bit_at (change w j) k ≡ bit_at w k) where
  bit-change_ne :
      (b idx : ℕ) (d : Disk) (c k : ℕ)
      → (c ≢ b) ⊎ (k ≢ idx)
      → bit (put_byte b (idx / 8) (change (d b (idx / 8)) (idx % 8)) d) c k ≡ bit d c k
  unfolding bit
  bit-change_ne b idx d c k (inl h) =
      bit-put_byte_ne d b (idx / 8) (change (d b (idx / 8)) (idx % 8)) c k (inl h)
  bit-change_ne b idx d c k (inr h) = elim (eq-cases c b) [
    | inr p ↦ bit-put_byte_ne d b (idx / 8) (change (d b (idx / 8)) (idx % 8)) c k (inl p)
    | inl p ↦ elim (eq-cases (k / 8) (idx / 8)) [
      | inr q ↦ bit-put_byte_ne d b (idx / 8) (change (d b (idx / 8)) (idx % 8)) c k (inr q)
      | inl q ↦
          ap (λ (n : ℕ). bit (put_byte b (idx / 8) (change (d b (idx / 8)) (idx % 8)) d) n k) p
          ∙ bit-put_byte_self d b (idx / 8) (change (d b (idx / 8)) (idx % 8)) k q
          ∙ keeps (d b (idx / 8)) (idx % 8) (k % 8) (λ e. h (omega arith))
          ∙ ap (λ (n : ℕ). bit_at (d b n) (k % 8)) (sym q)
          ∙ ap (λ (n : ℕ). bit_at (d n (k / 8)) (k % 8)) (sym p)
    ]
  ]

pub bit-take_bit_self : (b idx : ℕ) (d : Disk) → bit (take_bit b idx d) b idx ≡ 1
unfolding take_bit
bit-take_bit_self b idx d =
    bit-put_byte_self d b (idx / 8) (set_bit (d b (idx / 8)) (idx % 8)) idx refl
    ∙ bit_at-set_bit_self (d b (idx / 8)) (idx % 8)

pub bit-take_bit_ne :
    (b idx : ℕ) (d : Disk) (c k : ℕ) → (c ≢ b) ⊎ (k ≢ idx) → bit (take_bit b idx d) c k ≡ bit d c k
unfolding take_bit
bit-take_bit_ne = bit-change_ne set_bit bit_at-set_bit_ne

pub bit-drop_bit_self : (b idx : ℕ) (d : Disk) → bit (drop_bit b idx d) b idx ≡ 0
unfolding drop_bit
bit-drop_bit_self b idx d =
    bit-put_byte_self d b (idx / 8) (clear_bit (d b (idx / 8)) (idx % 8)) idx refl
    ∙ bit_at-clear_bit_self (d b (idx / 8)) (idx % 8)

pub bit-drop_bit_ne :
    (b idx : ℕ) (d : Disk) (c k : ℕ) → (c ≢ b) ⊎ (k ≢ idx) → bit (drop_bit b idx d) c k ≡ bit d c k
unfolding drop_bit
bit-drop_bit_ne = bit-change_ne clear_bit bit_at-clear_bit_ne

-- Another block of the disk is not touched.
pub take_bit_ne : (b idx : ℕ) (d : Disk) (c k : ℕ) → c ≢ b → take_bit b idx d c k ≡ d c k
unfolding take_bit
take_bit_ne b idx d c k h = put_byte_ne b (idx / 8) _ d c k (inl h)

pub drop_bit_ne : (b idx : ℕ) (d : Disk) (c k : ℕ) → c ≢ b → drop_bit b idx d c k ≡ d c k
unfolding drop_bit
drop_bit_ne b idx d c k h = put_byte_ne b (idx / 8) _ d c k (inl h)

-- The bit of a block: 1 if it is in use.
unfoldable pub used : Superblock → Disk → ℕ → ℕ
unfolding bit
used sb d n = bit d (bitmap_block sb n) (n % bits_per_block)

-- The bitmap covers these blocks.
abbrev pub IsCovered : Superblock → ℕ → Type 0
IsCovered sb n = n < num_bitmaps sb * bits_per_block

-- The blocks up to the first data block are in use, and the bitmap is in these.
pub record IsSound (sb : Superblock) (d : Disk) : Type 0 where
  pub meta_used : (n : ℕ) → n < sb.data_block → used sb d n ≡ 1
  pub bitmap_low : (n : ℕ) → IsCovered sb n → bitmap_block sb n < sb.data_block
  pub data_covered : sb.data_block ≤ num_bitmaps sb * bits_per_block
