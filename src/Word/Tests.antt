-- ===== src/Word/Tests.antt =====
-- The theorems on words at concrete ones.
use c_osiris.Base.{◌≡◌, refl}
use c_osiris.Word.{htonl}

swapped : htonl 0x0A000203 ≡ 0x0302000A
swapped = refl
