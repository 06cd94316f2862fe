-- ===== src/Memory.antt =====
-- lib/memset.c, memcpy.c, memmove.c, memcmp.c: blocks of bytes that do not wrap around the address space.
pub mod Copy
mod Tests
use c_osiris.Base.{ℕ, zero, suc, ◌+◌, ◌-◌, ◌%◌, Bool, ltb, leb, ◌==◌, if◌then◌else◌}
use c_osiris.Base.Ints.{ℤ, pos, negsuc}

-- The byte at each address.
abbrev pub Mem : Type 0
Mem = ℕ → ℕ

abbrev pub write : Mem → ℕ → ℕ → Mem
write m a v b = if b == a then v else m b

-- `memset`, with the bytes left.
unfoldable pub memset : ℕ → ℕ → ℕ → Mem → Mem
memset p c zero m = m
memset p c (suc n) m = memset (p + 1) c n (write m p (c % 256))

-- The loops that copy from the first byte on: `memcpy`, and `memmove` to a lower address.
unfoldable pub copy_up : ℕ → ℕ → ℕ → Mem → Mem
copy_up d s zero m = m
copy_up d s (suc n) m = copy_up (d + 1) (s + 1) n (write m d (m s))

abbrev pub memcpy : ℕ → ℕ → ℕ → Mem → Mem
memcpy d s n m = copy_up d s n m

-- The loop of `memmove` from the last byte down.
unfoldable pub copy_down : ℕ → ℕ → ℕ → Mem → Mem
copy_down d s zero m = m
copy_down d s (suc n) m = copy_down d s n (write m (d + n) (m (s + n)))

unfoldable pub memmove : ℕ → ℕ → ℕ → Mem → Mem
unfolding copy_up copy_down
memmove d s n m = if ltb d s then copy_up d s n m else copy_down d s n m

-- The difference of two `char`s, which are signed: from -128 to 127.
abbrev pub schar : ℕ → ℕ
schar c = (c + 128) % 256

abbrev pub char_diff : ℕ → ℕ → ℤ
char_diff a b =
    if leb (schar b) (schar a) then pos (schar a - schar b) else negsuc (schar b - schar a - 1)

-- `memcmp`, with the bytes left.
unfoldable pub memcmp : ℕ → ℕ → ℕ → Mem → ℤ
memcmp p q zero m = pos 0
memcmp p q (suc n) m =
    let rest = memcmp (p + 1) (q + 1) n m in if m p == m q then rest else char_diff (m p) (m q)
