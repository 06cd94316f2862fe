-- ===== src/Word/Swap.antt =====
-- The conversions undo each other.
use c_osiris.Base.{ℕ, ◌<◌, ◌≡◌, arith}
use c_osiris.Base.Words.{u32_mod}
use c_osiris.Word.{htons, ntohs, htonl, ntohl, major, minor, makedev}

-- A number in network order read back is the number, for 16 bits and for 32.
pub ntohs-htons :
    (n m : ℕ) → n < 65536 → m < u32_mod → (ntohs (htons n) ≡ n) × (ntohl (htonl m) ≡ m)
ntohs-htons n m h k = (omega arith, omega arith)

-- A device made of a major and a minor number of 8 bits has these numbers, and a device is made of
-- its two numbers.
pub major-makedev :
    (maj m dev : ℕ)
    → maj < 256
    → m < 256
    → dev < 65536
    → ((major (makedev maj m) ≡ maj) × (minor (makedev maj m) ≡ m))
      × (makedev (major dev) (minor dev) ≡ dev)
major-makedev maj m dev a b c = ((omega arith, omega arith), omega arith)
