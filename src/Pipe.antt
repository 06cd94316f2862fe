-- ===== src/Pipe.antt =====
-- pipe.c: a pipe between readers and writers over a buffer with free-running 32-bit positions.
pub mod Fifo
pub mod Ends
mod Tests
use c_osiris.Base.{
  ℕ, zero, suc, ◌%◌, Bool, true, false, ◌&&◌, Option, none, some, List, [], ◌∷◌, ltb, ◌==◌,
  if◌then◌else◌, get_or, set,
}
use c_osiris.Base.Words.{add32, sub32}

-- `vfs_pipe_t`.
pub record Pipe : Type 0 where
  pub buffer : List ℕ
  pub size : ℕ
  pub readers : ℕ
  pub writers : ℕ
  pub read_pos : ℕ
  pub write_pos : ℕ

-- The mode of a file: O_RDONLY, O_WRONLY, and any other.
pub data Mode : Type 0 where
  read_only write_only other_mode : Mode

-- The node of one end: its `flags` and its `ref_count`.
pub record End : Type 0 where
  pub mode : Mode
  pub ref_count : ℕ

abbrev pub held : End → End
held e = record e { ref_count = add32 e.ref_count 1 }

-- The branches of `pipe_open`, by the flags and the mode of the node.
unfoldable pub open_as : Mode → Mode → End → Pipe → Option (End × Pipe)
open_as read_only read_only e p = some (held e, record p { readers = add32 p.readers 1 })
open_as write_only write_only e p = some (held e, record p { writers = add32 p.writers 1 })
open_as read_only write_only e p = none
open_as read_only other_mode e p = none
open_as write_only read_only e p = none
open_as write_only other_mode e p = none
open_as other_mode m e p = none

-- `pipe_open`; `none` is a panic.
unfoldable pub pipe_open : Mode → End → Pipe → Option (End × Pipe)
unfolding open_as
pipe_open flags e p = open_as flags e.mode e p

-- What `pipe_close` leaves: the node of the end and the pipe, each unless it was freed.
abbrev pub unless_zero : End → Option End
unless_zero e = if e.ref_count == 0 then none else some e

abbrev pub unless_unused : Pipe → Option Pipe
unless_unused p = if p.readers == 0 && p.writers == 0 then none else some p

abbrev pub released : End → End
released e = record e { ref_count = sub32 e.ref_count 1 }

-- The branches of `pipe_close`, by the mode of the node.
unfoldable pub close_as : Mode → End → Pipe → Option (Option End × Option Pipe)
close_as read_only e p =
    some (unless_zero (released e), unless_unused (record p { readers = sub32 p.readers 1 }))
close_as write_only e p =
    some (unless_zero (released e), unless_unused (record p { writers = sub32 p.writers 1 }))
close_as other_mode e p = none

-- `pipe_close`; the outer `none` is a panic.
unfoldable pub pipe_close : End → Pipe → Option (Option End × Option Pipe)
unfolding close_as
pipe_close e p = close_as e.mode e p

abbrev pub get_byte : Pipe → ℕ
get_byte p = get_or p.buffer (p.read_pos % p.size) 0

abbrev pub read_one : Pipe → Pipe
read_one p = record p { read_pos = add32 p.read_pos 1 }

abbrev pub write_one : ℕ → Pipe → Pipe
write_one b p = record p {
  buffer = set p.buffer (p.write_pos % p.size) b;
  write_pos = add32 p.write_pos 1;
}

-- The second loop of `pipe_read`.
unfoldable pub read_bytes : ℕ → Pipe → List ℕ × Pipe
read_bytes zero p = ([], p)
read_bytes (suc n) p =
    let (bs, p') = read_bytes n (read_one p) in
    if p.read_pos == p.write_pos then ([], p) else (get_byte p ∷ bs, p')

-- `pipe_read` at the read end, up to where it sleeps for a writer, which is `none`; the writers that it
-- wakes are the scheduler's.
unfoldable pub pipe_read : ℕ → Pipe → Option (List ℕ × Pipe)
unfolding read_bytes
pipe_read n p = if p.read_pos == p.write_pos && ltb 0 p.writers then none else some (read_bytes n p)

-- The loop of `pipe_write` up to where the buffer is full: the bytes that are left.
unfoldable pub write_bytes : List ℕ → Pipe → List ℕ × Pipe
write_bytes [] p = ([], p)
write_bytes (b ∷ bs) p =
    let rest = write_bytes bs (write_one b p) in
    if p.write_pos == add32 p.read_pos p.size then (b ∷ bs, p) else rest

-- `pipe_write` returns the size, returns 0 as there are no readers, or sleeps with bytes left.
pub data Written : Type 0 where
  all_written : Written
  no_readers : Written
  waits : List ℕ → Written

unfoldable pub write_end : List ℕ × Pipe → Written × Pipe
write_end ([], p) = (all_written, p)
write_end (b ∷ bs, p) = if p.readers == 0 then (no_readers, p) else (waits (b ∷ bs), p)

-- `pipe_write` at the write end, up to where it sleeps for a reader.
unfoldable pub pipe_write : List ℕ → Pipe → Written × Pipe
unfolding write_bytes write_end
pipe_write bs p = write_end (write_bytes bs p)

-- `pipe_new`, where `malloc` returns memory: `junk` is what it holds.
abbrev pub pipe_new : List ℕ → (End × End) × Pipe
pipe_new junk = (
  (record { mode = read_only; ref_count = 0 }, record { mode = write_only; ref_count = 0 }),
  record { buffer = junk; size = 1024; readers = 0; writers = 0; read_pos = 0; write_pos = 0 },
)
