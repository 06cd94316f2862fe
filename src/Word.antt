-- ===== src/Word.antt =====
-- lib/swap16.c, swap32.c, htons.c, ntohs.c, htonl.c, ntohl.c and types.c: the bytes of a word, on a
-- little-endian machine.
pub mod Swap
mod Tests
use c_osiris.Base.{ℕ, ◌+◌, ◌*◌, ◌/◌, ◌%◌}

-- `_swap16`; the two halves have no bit in common, so `|` adds them.
abbrev pub swap16 : ℕ → ℕ
swap16 num = num % 256 * 256 % 65536 + num / 256 % 256

-- `_swap32`, from the four bytes in memory.
abbrev pub swap32 : ℕ → ℕ
swap32 num =
    num / 16777216 % 256 + num / 65536 % 256 * 256 + num / 256 % 256 * 65536 + num % 256 * 16777216

abbrev pub htons : ℕ → ℕ
htons n = swap16 n

abbrev pub ntohs : ℕ → ℕ
ntohs n = swap16 n

abbrev pub htonl : ℕ → ℕ
htonl n = swap32 n

abbrev pub ntohl : ℕ → ℕ
ntohl n = swap32 n

-- `dev_t` has 16 bits.
abbrev pub major : ℕ → ℕ
major dev = dev / 256 % 256

abbrev pub minor : ℕ → ℕ
minor dev = dev % 256

abbrev pub makedev : ℕ → ℕ → ℕ
makedev maj m = maj % 256 * 256 + m % 256

-- `make_ip`, net.c.
abbrev pub make_ip : ℕ → ℕ → ℕ → ℕ → ℕ
make_ip a b c d = a * 16777216 + b * 65536 + c * 256 + d
