-- ===== src/Memory/Tests.antt =====
-- The theorems on memory at blocks that overlap.
use c_osiris.Base.{◌%◌, ◌≡◌, refl}
use c_osiris.Base.Ints.{pos}
use c_osiris.Memory.{Mem, memmove, memcmp}
use c_osiris.Memory.Copy.{Copied, memmove-Copied}

abbrev bytes : Mem
bytes a = a % 256

memmove-Copied_example : Copied 12 10 5 bytes (memmove 12 10 5 bytes)
memmove-Copied_example = memmove-Copied 12 10 5 bytes

moved : memmove 12 10 5 bytes 16 ≡ 14
unfolding memmove
moved = refl

-- A byte of 2 ^ 7 or more counts as negative.
memcmp-signed : memcmp 0x7F 0x80 1 bytes ≡ pos 255
unfolding memcmp
memcmp-signed = refl
