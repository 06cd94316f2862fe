-- ===== src/RingBuf.antt =====
-- ring_buf.c: a ring of bytes between two free-running 32-bit counters.
pub mod Refine
mod Tests
use c_osiris.Base.{ℕ, ◌%◌, ◌≤◌, Bool, List, leb, ◌==◌, get_or, set, replicate}
use c_osiris.Base.Words.{add32, sub32}

-- `ring_buf_t`. A byte is only moved, so it is any number.
pub record RingBuf : Type 0 where
  pub buf : List ℕ
  pub head : ℕ
  pub tail : ℕ
  pub size : ℕ

-- `rb_new`, where both calls of `malloc` return memory: `junk` is what it holds.
unfoldable pub new : List ℕ → ℕ → RingBuf
new junk size = record { buf = junk; head = 0; tail = 0; size = size }

unfoldable pub num_chars : RingBuf → ℕ
num_chars rb = sub32 rb.head rb.tail

unfoldable pub is_empty : RingBuf → Bool
is_empty rb = rb.head == rb.tail

unfoldable pub is_full : RingBuf → Bool
is_full rb = leb rb.size (sub32 rb.head rb.tail)

unfoldable pub putc : RingBuf → ℕ → RingBuf
putc rb c = record rb { buf = set rb.buf (rb.head % rb.size) c; head = add32 rb.head 1 }

-- The byte read, and the ring after it.
unfoldable pub getc : RingBuf → ℕ × RingBuf
getc rb = (get_or rb.buf (rb.tail % rb.size) 0, record rb { tail = add32 rb.tail 1 })

unfoldable pub reset : RingBuf → RingBuf
reset rb = record rb { head = 0; tail = 0 }
