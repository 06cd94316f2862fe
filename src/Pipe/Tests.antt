-- ===== src/Pipe/Tests.antt =====
-- The theorems on pipes at a ring of eight bytes whose positions are about to wrap around.
use c_osiris.Base.{ℕ, ◌+◌, ◌<◌, ◌≡◌, ◌⊎◌, inl, inr, refl, some, List, [], ◌∷◌, ◌++◌, arith, length}
use c_osiris.Base.Words.{u32_mod}
use c_osiris.RingBuf.Refine.{IsValid}
use c_osiris.Pipe.{Pipe, read_only, End, pipe_open, read_bytes, write_bytes, pipe_write, no_readers}
use c_osiris.Pipe.Fifo.{ring, queued, write_bytes_lem, pipe_read-pipe_write}

abbrev filled : Pipe
filled = record {
  buffer = 8 ∷ 9 ∷ 10 ∷ 11 ∷ 12 ∷ 13 ∷ 14 ∷ 15 ∷ [];
  size = 8;
  readers = 1;
  writers = 1;
  read_pos = 4294967294;
  write_pos = 1;
}

abbrev drained : Pipe
drained = record filled { read_pos = 1 }

valid :
    (r : ℕ)
    → r < u32_mod
    → (9 + u32_mod ≡ r + 3 + 8) ⊎ (r ≡ 1)
    → IsValid (ring (record filled { read_pos = r }))
valid r h either = record {
  head_word = omega arith;
  tail_word = h;
  memory = omega arith;
  sized = omega arith;
  small = omega arith;
  fits = omega arith;
  turns = 536870912;
  divides = refl;
}

filled-IsValid : IsValid (ring filled)
filled-IsValid = valid 4294967294 (omega arith) (inl refl)

drained-IsValid : IsValid (ring drained)
drained-IsValid = valid 1 (omega arith) (inr refl)

first_two : (read_bytes 2 filled).0 ≡ 14 ∷ 15 ∷ []
unfolding read_bytes
first_two = refl

abbrev message : List ℕ
message = 1 ∷ 2 ∷ 3 ∷ 4 ∷ 5 ∷ 6 ∷ []

write_bytes_lem_example :
    (queued (write_bytes message filled).1 ++ (write_bytes message filled).0
      ≡ queued filled ++ message)
    × ((((write_bytes message filled).0 ≡ [])
          ⊎ (length (queued (write_bytes message filled).1) ≡ 8))
        × IsValid (ring (write_bytes message filled).1))
write_bytes_lem_example = write_bytes_lem message filled filled-IsValid

pipe_read-pipe_write_example :
    ((write_bytes message drained).0 ≡ [])
    × (((read_bytes 6 (write_bytes message drained).1).0 ≡ message)
        × (queued (read_bytes 6 (write_bytes message drained).1).1 ≡ []))
pipe_read-pipe_write_example =
    pipe_read-pipe_write message drained drained-IsValid refl (omega arith)

-- Without readers `pipe_write` returns 0, though some bytes are in the pipe.
lost : (pipe_write message (record filled { readers = 0 })).0 ≡ no_readers
unfolding pipe_write
lost = refl

abbrev reader : End
reader = record { mode = read_only; ref_count = 0 }

abbrev opened : End × Pipe
opened = (record { mode = read_only; ref_count = 1 }, record filled { readers = 2 })

opens : pipe_open read_only reader filled ≡ some opened
unfolding pipe_open
opens = refl
