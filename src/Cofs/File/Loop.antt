-- ===== src/Cofs/File/Loop.antt =====
-- The loop of `cofs_write` ends and writes all of the bytes, or the disk is full.
use c_osiris.Base.{
  ℕ, zero, suc, ◌+◌, ◌-◌, ◌*◌, ◌/◌, ◌%◌, ◌≤◌, ◌<◌, ◌≡◌, refl, sym, ap, ◌∙◌, Option, none, some,
  List, [], ◌∷◌, arith, length, get_or, drop,
}
use mathlib.Core.Path.{subst}
use c_osiris.Cofs.{Superblock, block_size, overlay}
use c_osiris.Cofs.Map.{Files, ◌>>=◌, block_map}
use c_osiris.Cofs.Map.Pointers.{IsDisk, IsOwned}
use c_osiris.Cofs.Alloc.Spent.{Spent, FewerFree, FewerFree-more, FewerFree-before}
use c_osiris.Cofs.Map.Lookup.{max_blocks, place, Mapped, block_map-Mapped}
use c_osiris.Cofs.File.{piece, write_loop}
use c_osiris.Cofs.File.Read.{piece_lem}
use c_osiris.Cofs.File.Write.{Wrote, Wrote-none, Wrote-both, round-Wrote, round-Spent}

-- The bytes of a buffer by their index.
abbrev pub byte : List ℕ → ℕ → ℕ
byte bs i = get_or bs i 0

abbrev pub AreBytes : List ℕ → Type 0
AreBytes bs = (i : ℕ) → byte bs i < 256

get_or-drop : (k : ℕ) (bs : List ℕ) (i : ℕ) → byte (drop k bs) i ≡ byte bs (k + i)
get_or-drop zero bs i = let e : i ≡ 0 + i = omega arith in ap (byte bs) e
get_or-drop (suc k) [] i = refl
get_or-drop (suc k) (b ∷ bs) i =
    let e : suc (k + i) ≡ suc k + i = omega arith in get_or-drop k bs i ∙ ap (byte (b ∷ bs)) e

length-drop : (k : ℕ) (bs : List ℕ) → length (drop k bs) ≡ length bs - k
length-drop zero bs = omega arith
length-drop (suc k) [] = omega arith
length-drop (suc k) (b ∷ bs) = omega (arith, length-drop k bs)

-- What the loop comes to, for bytes in `q` blocks of the file.
pub data Writing (sb : Superblock) (q off : ℕ) (bs : List ℕ) (s : Files) (r : Option (ℕ × Files))
    : Type 0 where
  wrote :
      (s' : Files)
      → r ≡ some (off + length bs, s')
      → Wrote sb off (length bs) (byte bs) s s'
      → Writing sb q off bs s r
  full : r ≡ none → FewerFree sb (3 * q) s.1 → Writing sb q off bs s r

Wrote-ext :
    (sb : Superblock) (off m n : ℕ) (f g : ℕ → ℕ) (s t : Files)
    → m ≡ n
    → ((i : ℕ) → f i ≡ g i)
    → Wrote sb off m f s t
    → Wrote sb off n g s t
Wrote-ext sb off m n f g s t e same w =
    subst (λ (k : ℕ). Wrote sb off k g s t) e
      (record {
        disk = w.disk;
        file = w.file;
        placed = w.placed;
        inside = λ i lt. w.inside i lt ∙ same i;
        outside = w.outside;
        kept = w.kept;
      })

-- The rounds behind the first.
next-Writing :
    (sb : Superblock) (q off k : ℕ) (bs : List ℕ) (s t : Files) (r : Option (ℕ × Files))
    → k ≤ length bs
    → off + length bs ≤ max_blocks * block_size
    → Wrote sb off k (byte bs) s t
    → Spent sb 3 s.1 t.1
    → Writing sb q (off + k) (drop k bs) t r
    → Writing sb (suc q) off bs s r
next-Writing sb q off k bs s t r le lim a b (Writing.full is few) = Writing.full is (
    FewerFree-more sb (3 + 3 * q) (3 * suc q) s.1 (omega arith)
      (FewerFree-before sb 3 (3 * q) s.1 t.1 b few))
next-Writing sb q off k bs s t r le lim a spent (Writing.wrote u is b) =
    let n = length-drop k bs in
    let e : off + k + length (drop k bs) ≡ off + length bs = omega arith in
    let total : k + length (drop k bs) ≡ length bs = omega arith in
    Writing.wrote u (is ∙ ap (λ (x : ℕ). some (x, u)) e) (
      Wrote-ext sb off (k + length (drop k bs)) (length bs) (byte bs) (byte bs) s u total
        (λ i. refl)
        (Wrote-both sb off k (length (drop k bs)) (byte bs) s t u (omega arith) a (
          Wrote-ext sb (off + k) (length (drop k bs)) (length (drop k bs)) (byte (drop k bs))
            (λ i. byte bs (k + i)) t u refl (get_or-drop k bs) b)))

-- The loop of `cofs_write`, with fuel for at least as many rounds as there are bytes, on a disk of
-- bytes, with fewer than 2 ^ 32 bits in its bitmap, whose first blocks, the bitmap's among them,
-- are in use, and for a file whose pointers lead to different data blocks in use, for bytes that
-- end within the largest file: it ends with all bytes written, and with the bytes elsewhere in the
-- file as before; or it panics, and then fewer blocks of the bitmap were free at the start than three
-- for each of the `q` blocks of the file that the bytes lie in. So it never runs out of fuel.
pub write_loop-Writing :
    (n : ℕ) (sb : Superblock) (q off : ℕ) (bs : List ℕ) (s : Files)
    → length bs ≤ n
    → length bs ≤ q * block_size - off % block_size
    → off + length bs ≤ max_blocks * block_size
    → AreBytes bs
    → IsDisk sb s.1
    → IsOwned sb s
    → Writing sb q off bs s (write_loop n sb off bs s)
unfolding write_loop
write_loop-Writing zero sb q off [] s h within lim small v o =
    let e : off ≡ off + 0 = omega arith in
    Writing.wrote s (ap (λ (x : ℕ). some (x, s)) e) (Wrote-none sb off (byte []) s v o)
write_loop-Writing zero sb q off (c ∷ cs) s h within lim small v o = absurd (omega arith)
write_loop-Writing (suc n) sb q off [] s h within lim small v o =
    let e : off ≡ off + 0 = omega arith in
    Writing.wrote s (ap (λ (x : ℕ). some (x, s)) e) (Wrote-none sb off (byte []) s v o)
write_loop-Writing (suc n) sb zero off (c ∷ cs) s h within lim small v o = absurd (omega arith)
write_loop-Writing (suc n) sb (suc q) off (c ∷ cs) s h within lim small v o =
    let again = λ (t : Files) (v' : IsDisk sb t.1) (o' : IsOwned sb t).
      write_loop-Writing n sb q (off + k) (drop k bs) t (omega (arith, length-drop k bs))
        (omega (arith, length-drop k bs)) (omega (arith, length-drop k bs))
        (λ i. omega (arith, get_or-drop k bs i, small (k + i))) v' o' in
    go again (block_map sb f s) (block_map-Mapped sb s f v o low)
  where
    bs : List ℕ
    bs = c ∷ cs

    f : ℕ
    f = off / block_size

    k : ℕ
    k = piece off (length bs)

    low : f < max_blocks
    low = omega arith

    body : ℕ × Files → Option (ℕ × Files)
    body (b, t) =
        write_loop n sb (off + k) (drop k bs) (t.0, overlay b (off % block_size) k (byte bs) t.1)

    go :
        ((t : Files)
          → IsDisk sb t.1
          → IsOwned sb t
          → Writing sb q (off + k) (drop k bs) t (write_loop n sb (off + k) (drop k bs) t))
        → (r : Option (ℕ × Files)) → Mapped sb s f r
        → Writing sb (suc q) off bs s (r >>= body)
    go again r (Mapped.full is z few) =
        Writing.full (ap (λ (x : Option (ℕ × Files)). x >>= body) is)
          (FewerFree-more sb 3 (3 * suc q) s.1 (omega arith) few)
    go again r (Mapped.mapped t is disk own there same keep data_same spent) =
        let (pos, le, fits) = piece_lem off (length cs) in
        let at : f * block_size + off % block_size ≡ off = omega arith in
        let t' : Files = (t.0, overlay (place t f) (off % block_size) k (byte bs) t.1) in
        let w =
          subst (λ (x : ℕ). Wrote sb x k (byte bs) s t') at
            (round-Wrote sb s f (off % block_size) k (byte bs) t disk own low fits pos there same
              keep data_same small) in
        subst (λ (x : Option (ℕ × Files)). Writing sb (suc q) off bs s (x >>= body)) (sym is)
          (next-Writing sb q off k bs s t' _ le lim w
            (round-Spent sb s f (off % block_size) k (byte bs) t disk own low fits pos there same
              keep data_same small 3 spent)
            (again t' w.disk w.file))
