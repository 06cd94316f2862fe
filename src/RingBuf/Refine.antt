-- ===== src/RingBuf/Refine.antt =====
-- A ring whose size divides 2 ^ 32 holds a queue, and its operations are those of the queue.
use c_osiris.Base.{
  ℕ, zero, suc, ◌+◌, ◌*◌, ◌%◌, ◌≤◌, ◌<◌, ◌≡◌, ◌≢◌, ◌↔◌, refl, sym, ap, ◌∙◌, true, false, List, [],
  ◌∷◌, ◌++◌, arith, length, get_or, set, length-set, get_or-set_self, get_or-set_ne,
}
use mathlib.Core.Path.{ap₂}
use native.Mathlib.Nat.{mod-lt}
use c_osiris.Base.Words.{u32_mod, add32, sub32, mod-mod_mul, add-mod-ne}
use c_osiris.RingBuf.{RingBuf, new, num_chars, is_empty, is_full, putc, getc, reset}

-- The counters are 32-bit words, the memory is as large as it is said to be, and the size divides
-- 2 ^ 32, `turns` times.
pub record IsValid (rb : RingBuf) : Type 0 where
  pub head_word : rb.head < u32_mod
  pub tail_word : rb.tail < u32_mod
  pub memory : rb.size ≤ length rb.buf
  pub sized : 0 < rb.size
  pub small : rb.size < u32_mod
  pub fits : sub32 rb.head rb.tail ≤ rb.size
  pub turns : ℕ
  pub divides : turns * rb.size ≡ u32_mod

module _ (buf : List ℕ) (size : ℕ) where
  -- The `n` bytes from counter `t` on.
  abbrev pub window : ℕ → ℕ → List ℕ
  window t zero = []
  window t (suc n) = get_or buf (t % size) 0 ∷ window (add32 t 1) n

-- The bytes that a ring holds, oldest first.
abbrev pub contents : RingBuf → List ℕ
contents rb = window rb.buf rb.size rb.tail (sub32 rb.head rb.tail)

pub length-window : (buf : List ℕ) (size t n : ℕ) → length (window buf size t n) ≡ n
length-window buf size t zero = refl
length-window buf size t (suc n) = ap suc (length-window buf size (add32 t 1) n)

-- The index of a counter some steps on is not the index here.
index-ne : (m size t d : ℕ) → m * size ≡ u32_mod → 0 < d → d < size → add32 t d % size ≢ t % size
index-ne m size t d e p q h =
    add-mod-ne t d size p q
      (sym (mod-mod_mul (t + d) m size) ∙ ap (λ (k : ℕ). ((t + d) % k) % size) e ∙ h)

window-set :
    (buf : List ℕ) (m size c : ℕ) (n t h : ℕ)
    → m * size ≡ u32_mod
    → size ≤ length buf
    → n < size
    → t < u32_mod
    → h ≡ add32 t n
    → window (set buf (h % size) c) size t (suc n) ≡ window buf size t n ++ (c ∷ [])
window-set buf m size c zero t h e mem lt word eq =
    let same : h ≡ t = omega arith in
    ap (λ (b : ℕ). b ∷ [])
      (ap (λ (k : ℕ). get_or (set buf (h % size) c) (k % size) 0) (sym same)
        ∙ get_or-set_self buf (h % size) c 0 (omega (arith, mod-lt h {m = size} (omega arith))))
window-set buf m size c (suc n) t h e mem lt word eq =
    ap₂ ◌∷◌
      (get_or-set_ne buf (h % size) (t % size) c 0
        (λ q. index-ne m size t (suc n) e (omega arith) lt (ap (λ (k : ℕ). k % size) (sym eq) ∙ q)))
      (window-set buf m size c n (add32 t 1) h e mem (omega arith) (omega arith) (omega arith))

-- Writing a byte to a valid ring with room appends it to what the ring holds, and keeps the ring
-- valid.
pub putc_refines :
    (rb : RingBuf) (c : ℕ)
    → IsValid rb
    → is_full rb ≡ false
    → (contents (putc rb c) ≡ contents rb ++ (c ∷ [])) × IsValid (putc rb c)
unfolding putc is_full
putc_refines rb c v open_ring =
    let room : sub32 rb.head rb.tail < rb.size = ground arith in
    let count : sub32 (add32 rb.head 1) rb.tail ≡ suc (sub32 rb.head rb.tail) = omega arith in
    (
      rw count (
          window-set rb.buf v.turns rb.size c (sub32 rb.head rb.tail) rb.tail rb.head v.divides
            v.memory room v.tail_word (omega arith)),
      record {
        head_word = omega arith;
        tail_word = v.tail_word;
        memory = omega (arith, length-set rb.buf (rb.head % rb.size) c, v.memory);
        sized = v.sized;
        small = v.small;
        fits = omega arith;
        turns = v.turns;
        divides = v.divides;
      },
    )

-- Reading from a valid ring that holds a byte returns the oldest, leaves the others, and keeps
-- the ring valid.
pub getc_refines :
    (rb : RingBuf)
    → IsValid rb
    → is_empty rb ≡ false
    → let (c, rb') = getc rb in (contents rb ≡ c ∷ contents rb') × IsValid rb'
unfolding getc is_empty
getc_refines rb v some_byte =
    let differ : rb.head ≢ rb.tail = ground arith in
    let count : sub32 rb.head rb.tail ≡ suc (sub32 rb.head (add32 rb.tail 1)) = omega arith in
    (
      rw count,
      record {
        head_word = v.head_word;
        tail_word = omega arith;
        memory = v.memory;
        sized = v.sized;
        small = v.small;
        fits = omega arith;
        turns = v.turns;
        divides = v.divides;
      },
    )

-- The three questions about a valid ring answer for the bytes that it holds: how many there are,
-- whether there are none, and whether there are as many as the size.
pub num_chars_lem :
    (rb : RingBuf)
    → IsValid rb
    → (num_chars rb ≡ length (contents rb))
      × ((is_empty rb ≡ true) ↔ (length (contents rb) ≡ 0))
      × ((is_full rb ≡ true) ↔ (length (contents rb) ≡ rb.size))
unfolding num_chars is_empty is_full
num_chars_lem rb v =
    let count = length-window rb.buf rb.size rb.tail (sub32 rb.head rb.tail) in
    (sym count, rw count (ground arith), rw count (ground arith))

-- A ring made over `size` bytes of memory, and a ring that was reset, are valid and hold nothing.
pub new-IsValid :
    (junk : List ℕ) (size turns : ℕ)
    → size ≤ length junk
    → 0 < size
    → size < u32_mod
    → turns * size ≡ u32_mod
    → (IsValid (new junk size) × (contents (new junk size) ≡ []))
      × ((rb : RingBuf) → IsValid rb → IsValid (reset rb) × (contents (reset rb) ≡ []))
unfolding new reset
new-IsValid junk size turns mem sized small e = (
  (
    record {
      head_word = omega arith;
      tail_word = omega arith;
      memory = mem;
      sized = sized;
      small = small;
      fits = omega arith;
      turns = turns;
      divides = e;
    },
    refl,
  ),
  λ rb v. (
    record {
      head_word = omega arith;
      tail_word = omega arith;
      memory = v.memory;
      sized = v.sized;
      small = v.small;
      fits = omega arith;
      turns = v.turns;
      divides = v.divides;
    },
    refl,
  ),
)
