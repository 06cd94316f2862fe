-- ===== src/Bmap.antt =====
-- bmap.c: a bitmap that hands out the number of a clear bit, starting at the last one touched.
pub mod Alloc
mod Tests
use c_osiris.Base.{
  ℕ, zero, suc, ◌+◌, ◌-◌, ◌*◌, ◌/◌, ◌%◌, Bool, true, false, Option, none, some, List, leb, ◌==◌,
  if◌then◌else◌, get_or, set, replicate,
}
use c_osiris.Base.Bits.{bit_at, set_bit, clear_bit}

-- `bmap_t`, less its lock, which every operation takes first and gives back last. `size` and `last`
-- are `int`s that are never negative.
pub record Bmap : Type 0 where
  pub size : ℕ
  pub last : ℕ
  pub words : List ℕ

-- `bmap_alloc`, where `calloc` returns memory: `size / 8` bytes of zeros.
pub alloc : ℕ → Bmap
alloc size = record { size = size; last = 0; words = replicate (size / 8 / 4) 0 }

-- The loop over `j` in `bmap_scan_range`, with the rounds left: the first clear bit of a word.
pub scan_word : ℕ → ℕ → ℕ → Option ℕ
unfolding bit_at
scan_word zero j w = none
scan_word (suc n) j w = let rest = scan_word n (j + 1) w in if bit_at w j == 0 then some j else rest

-- The loop over `i`, with the rounds left. `none` stands for -1.
pub scan_words : ℕ → ℕ → Bmap → Option ℕ × Bmap
unfolding scan_word set_bit
scan_words zero i b = (none, b)
scan_words (suc n) i b =
    let rest = scan_words n (i + 1) b in
    let w = get_or b.words i 0 in
    if w == 0xFFFFFFFF then rest else elim (scan_word 32 0 w) [
      | none ↦ rest
      | some j ↦
          (some (i * 32 + j), record b { last = i * 32 + j; words = set b.words i (set_bit w j) })
    ]

pub scan_range : Bmap → ℕ → ℕ → Option ℕ × Bmap
unfolding scan_words
scan_range b lo hi = scan_words (hi / 32 - lo / 32) (lo / 32) b

-- The second search of `bmap_get_free`, from the start up to the last bit touched, where the first
-- has found nothing.
pub retry : Option ℕ × Bmap → Option ℕ × Bmap
unfolding scan_range
retry (some n, b) = (some n, b)
retry (none, b) = scan_range b 0 b.last

pub get_free : Bmap → Option ℕ × Bmap
unfolding scan_range retry
get_free b = retry (scan_range b b.last b.size)

-- `bmap_free` at a bit that is not negative. The Boolean is false where it returns -1.
pub free : Bmap → ℕ → Bool × Bmap
unfolding clear_bit
free b bit = if leb b.size bit then (false, b) else (
  true,
  record b {
    last = bit;
    words = set b.words (bit / 32) (clear_bit (get_or b.words (bit / 32) 0) (bit % 32));
  },
)
