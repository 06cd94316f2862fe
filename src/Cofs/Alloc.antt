-- ===== src/Cofs/Alloc.antt =====
-- cofs.c: the bitmap of blocks. A panic is `none`.
pub mod Scan
pub mod Used
pub mod Outcome
pub mod Spent
mod Tests
use c_osiris.Base.{ℕ, zero, suc, ◌+◌, ◌-◌, ◌*◌, ◌/◌, ◌%◌, Option, none, some, ◌==◌, if◌then◌else◌}
use c_osiris.Base.Bits.{bit_at, set_bit, clear_bit}
use c_osiris.Cofs.{Disk, Superblock, bits_per_block, bitmap_block, overlay, word, block_zero}

-- Bit `idx` of a block of the bitmap.
unfoldable pub bit : Disk → ℕ → ℕ → ℕ
unfolding bit_at
bit d b idx = bit_at (d b (idx / 8)) (idx % 8)

-- `hdb->buf[idx / 8] = v`.
unfoldable pub put_byte : ℕ → ℕ → ℕ → Disk → Disk
unfolding overlay
put_byte b o v d = overlay b o 1 (λ k. v) d

-- The fast forward over words that are full, with the rounds left.
unfoldable pub scan_words : ℕ → ℕ → Disk → ℕ → Option ℕ
unfolding word
scan_words zero scan d b = none
scan_words (suc n) scan d b =
    let rest = scan_words n (scan + 1) d b in
    if word d b scan == 0xFFFFFFFF then rest else some scan

-- The loop over the bits of the word.
unfoldable pub scan_bits : ℕ → ℕ → Disk → ℕ → Option ℕ
unfolding bit
scan_bits zero idx d b = none
scan_bits (suc n) idx d b =
    let rest = scan_bits n (idx + 1) d b in if bit d b idx == 0 then some idx else rest

unfoldable pub scan_from : Option ℕ → Disk → ℕ → Option ℕ
unfolding scan_bits
scan_from none d b = none
scan_from (some scan) d b = scan_bits 32 (scan * 32) d b

-- The index of a clear bit in a block of the bitmap.
unfoldable pub scan_bitmap : Disk → ℕ → Option ℕ
unfolding scan_words scan_from
scan_bitmap d b = scan_from (scan_words 128 0 d b) d b

unfoldable pub take_bit : ℕ → ℕ → Disk → Disk
unfolding put_byte set_bit
take_bit b idx d = put_byte b (idx / 8) (set_bit (d b (idx / 8)) (idx % 8)) d

unfoldable pub drop_bit : ℕ → ℕ → Disk → Disk
unfolding put_byte clear_bit
drop_bit b idx d = put_byte b (idx / 8) (clear_bit (d b (idx / 8)) (idx % 8)) d

-- One round of `block_alloc`, at what the scan finds and at what the rounds behind it come to.
unfoldable pub alloc_round :
    Option ℕ → ℕ → Superblock → Disk → Option (ℕ × Disk) → Option (ℕ × Disk)
unfolding take_bit block_zero
alloc_round none block sb d rest = rest
alloc_round (some idx) block sb d rest =
    some (block + idx, block_zero (block + idx) (take_bit (bitmap_block sb block) idx d))

-- The outer loop of `block_alloc`, with the rounds left.
unfoldable pub alloc_loop : ℕ → ℕ → Superblock → Disk → Option (ℕ × Disk)
unfolding scan_bitmap alloc_round
alloc_loop zero block sb d = none
alloc_loop (suc n) block sb d =
    let rest = alloc_loop n (block + bits_per_block) sb d in
    alloc_round (scan_bitmap d (bitmap_block sb block)) block sb d rest

-- The number of rounds for `superb.size` blocks.
abbrev pub num_bitmaps : Superblock → ℕ
num_bitmaps sb = (sb.size + (bits_per_block - 1)) / bits_per_block

unfoldable pub block_alloc : Superblock → Disk → Option (ℕ × Disk)
unfolding alloc_loop
block_alloc sb d = alloc_loop (num_bitmaps sb) 0 sb d

unfoldable pub block_free : Superblock → ℕ → Disk → Option Disk
unfolding bit drop_bit
block_free sb block d =
    let b = bitmap_block sb block in
    let idx = block % bits_per_block in if bit d b idx == 0 then none else some (drop_bit b idx d)
