-- ===== src/Pipe/Fifo.antt =====
-- A pipe is a queue of bytes.
use c_osiris.Base.{
  ℕ, zero, suc, ◌+◌, ◌<◌, ◌≡◌, ◌⊎◌, inl, inr, refl, sym, ap, ◌∙◌, true, false, List, [], ◌∷◌, ◌++◌,
  arith, Bool-cases, ◌==◌, length, length-append, take, drop, take_all, drop_all,
}
use mathlib.Core.List.{append_assoc, append-nil}
use c_osiris.Base.Words.{add32, sub32}
use c_osiris.RingBuf.{RingBuf, putc, getc, is_full, is_empty}
use c_osiris.RingBuf.Refine.{IsValid, window, contents, putc_refines, getc_refines, length-window}
use c_osiris.Pipe.{Pipe, read_one, write_one, get_byte, read_bytes, write_bytes}

-- The ring behind a pipe.
abbrev pub ring : Pipe → RingBuf
ring p = record { buf = p.buffer; head = p.write_pos; tail = p.read_pos; size = p.size }

-- The bytes in a pipe, oldest first.
abbrev pub queued : Pipe → List ℕ
queued p = contents (ring p)

write_one-queued :
    (p : Pipe) (b : ℕ)
    → IsValid (ring p)
    → (p.write_pos == add32 p.read_pos p.size) ≡ false
    → (queued (write_one b p) ≡ queued p ++ (b ∷ [])) × IsValid (ring (write_one b p))
unfolding putc is_full
write_one-queued p b v room =
    let w = v.head_word in
    let r = v.tail_word in
    let f = v.fits in
    let s = v.small in
    let below : sub32 p.write_pos p.read_pos < p.size = ground arith in
    putc_refines (ring p) b v (ground arith)

read_one-queued :
    (p : Pipe)
    → IsValid (ring p)
    → (p.read_pos == p.write_pos) ≡ false
    → (queued p ≡ get_byte p ∷ queued (read_one p)) × IsValid (ring (read_one p))
unfolding getc is_empty
read_one-queued p v some_byte = getc_refines (ring p) v (ground arith)

-- What is read of a queue.
queue-empty : (p : Pipe) → IsValid (ring p) → (p.read_pos == p.write_pos) ≡ true → queued p ≡ []
queue-empty p v same =
    let none_left : sub32 p.write_pos p.read_pos ≡ 0 = ground (arith, v.head_word) in
    ap (window p.buffer p.size p.read_pos) none_left

-- In a pipe whose ring is valid, reading up to `n` bytes takes the first `n` bytes that the pipe
-- holds, or all of them, and leaves the others in their order. The ring stays valid.
read_bytes_lem :
    (n : ℕ) (p : Pipe)
    → IsValid (ring p)
    → ((read_bytes n p).0 ≡ take n (queued p))
      × ((queued (read_bytes n p).1 ≡ drop n (queued p)) × IsValid (ring (read_bytes n p).1))
unfolding read_bytes
read_bytes_lem zero p v = (refl, (refl, v))
read_bytes_lem (suc n) p v = elim (Bool-cases (p.read_pos == p.write_pos)) [
  | inl none_left ↦
      let e = queue-empty p v none_left in
      rw none_left (sym (ap (take (suc n)) e), (e ∙ sym (ap (drop (suc n)) e), v))
  | inr some_byte ↦
      let (front, v') = read_one-queued p v some_byte in
      let rest = read_bytes_lem n (read_one p) v' in
      rw some_byte (
        ap (λ l. get_byte p ∷ l) rest.0 ∙ sym (ap (take (suc n)) front),
        (rest.1.0 ∙ sym (ap (drop (suc n)) front), rest.1.1),
      )
]

-- In a pipe whose ring is valid (32-bit positions, at most `size` bytes between them, a size that
-- divides 2 ^ 32), writing appends the bytes that fit, in their order, and loses none: what is
-- left to write is left only where the pipe is full. The ring stays valid.
pub write_bytes_lem :
    (bs : List ℕ) (p : Pipe)
    → IsValid (ring p)
    → (queued (write_bytes bs p).1 ++ (write_bytes bs p).0 ≡ queued p ++ bs)
      × ((((write_bytes bs p).0 ≡ []) ⊎ (length (queued (write_bytes bs p).1) ≡ p.size))
          × IsValid (ring (write_bytes bs p).1))
unfolding write_bytes
write_bytes_lem [] p v = (refl, (inl refl, v))
write_bytes_lem (b ∷ bs) p v = elim (Bool-cases (p.write_pos == add32 p.read_pos p.size)) [
  | inl full ↦
      rw full
        (refl, (inr (length-window p.buffer p.size p.read_pos _ ∙ ground (arith, v.small)), v))
  | inr room ↦
      let (back, v') = write_one-queued p b v room in
      let rest = write_bytes_lem bs (write_one b p) v' in
      rw room (rest.0 ∙ ap (λ l. l ++ bs) back ∙ append_assoc (queued p) (b ∷ []) bs, rest.1)
]

-- In an empty pipe whose ring is valid, fewer bytes than its size are all written, a reader of as
-- many bytes gets them, and the pipe is then empty again.
pub pipe_read-pipe_write :
    (bs : List ℕ) (p : Pipe)
    → IsValid (ring p)
    → queued p ≡ []
    → length bs < p.size
    → (write_bytes bs p).0 ≡ []
      × ((read_bytes (length bs) (write_bytes bs p).1).0 ≡ bs
          × queued (read_bytes (length bs) (write_bytes bs p).1).1 ≡ [])
pipe_read-pipe_write bs p v none_yet small =
    let (rest, p') = write_bytes bs p in
    let (kept, (ends, v')) = write_bytes_lem bs p v in
    let kept' : queued p' ++ rest ≡ bs = kept ∙ ap (λ l. l ++ bs) none_yet in
    let sizes : length (queued p') + length rest ≡ length bs =
      sym (length-append (queued p') rest) ∙ ap length kept' in
    let done : rest ≡ [] = elim ends [ inl e ↦ e | inr full ↦ absurd (omega arith) ] in
    let here : queued p' ≡ bs =
      sym (append-nil (queued p')) ∙ ap (λ l. queued p' ++ l) (sym done) ∙ kept' in
    let (got, (left, v'')) = read_bytes_lem (length bs) p' v' in
    (
      done,
      (
        got ∙ ap (take (length bs)) here ∙ take_all (length bs) bs (omega arith),
        left ∙ ap (drop (length bs)) here ∙ drop_all (length bs) bs (omega arith),
      ),
    )
