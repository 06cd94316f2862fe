-- ===== src/Pipe/Ends.antt =====
-- The counts of readers and writers.
use c_osiris.Base.{ℕ, ◌<◌, ◌≡◌, refl, ap, ◌∙◌, some, arith}
use mathlib.Core.Path.{ap₂, subst}
use c_osiris.Base.Words.{u32_mod, add32, sub32}
use c_osiris.Pipe.{
  Pipe, Mode, read_only, write_only, other_mode, End, open_as, pipe_open, close_as, pipe_close,
  held, released, unless_zero, unless_unused,
}

sub32-add32 : (n : ℕ) → n < u32_mod → sub32 (add32 n 1) 1 ≡ n
sub32-add32 n h = omega arith

-- The two ends counted once more and once less.
record Restores (m : Mode) (e : End) (p : Pipe) (e' : End) (p' : Pipe) : Type 0 where
  same_mode : e'.mode ≡ e.mode
  closes : close_as m e' p' ≡ some (unless_zero e, unless_unused p)

released-held : (e : End) → e.ref_count < u32_mod → released (held e) ≡ e
released-held e h = ap (λ n. record e { ref_count = n }) (sub32-add32 e.ref_count h)

open_as-Restores :
    (flags m : Mode) (e : End) (p : Pipe) (r : End × Pipe)
    → e.ref_count < u32_mod
    → p.readers < u32_mod
    → p.writers < u32_mod
    → open_as flags m e p ≡ some r
    → Restores m e p r.0 r.1
unfolding open_as close_as
open_as-Restores read_only read_only e p r n a b h =
    let same : (held e, record p { readers = add32 p.readers 1 }) ≡ r = cc in
    subst (λ q. Restores read_only e p q.0 q.1) same
      (record {
        same_mode = refl;
        closes =
            ap₂
              (λ (f : End) (c : ℕ). some (unless_zero f, unless_unused (record p { readers = c })))
              (released-held e n) (sub32-add32 p.readers a);
      })
open_as-Restores write_only write_only e p r n a b h =
    let same : (held e, record p { writers = add32 p.writers 1 }) ≡ r = cc in
    subst (λ q. Restores write_only e p q.0 q.1) same
      (record {
        same_mode = refl;
        closes =
            ap₂
              (λ (f : End) (c : ℕ). some (unless_zero f, unless_unused (record p { writers = c })))
              (released-held e n) (sub32-add32 p.writers b);
      })
open_as-Restores read_only write_only e p r n a b h = absurd (cc)
open_as-Restores read_only other_mode e p r n a b h = absurd (cc)
open_as-Restores write_only read_only e p r n a b h = absurd (cc)
open_as-Restores write_only other_mode e p r n a b h = absurd (cc)
open_as-Restores other_mode m e p r n a b h = absurd (cc)

-- Where `pipe_open` does not panic and the counts are 32-bit words, `pipe_close` of the end that
-- it opened undoes it: the counts of the end, of the readers and of the writers are as before,
-- the node is freed exactly if nothing held it before, and the pipe exactly if it had neither
-- readers nor writers.
pub pipe_close-pipe_open :
    (flags : Mode) (e : End) (p : Pipe) (e' : End) (p' : Pipe)
    → e.ref_count < u32_mod
    → p.readers < u32_mod
    → p.writers < u32_mod
    → pipe_open flags e p ≡ some (e', p')
    → pipe_close e' p' ≡ some (unless_zero e, unless_unused p)
unfolding pipe_open pipe_close
pipe_close-pipe_open flags e p e' p' n a b h =
    let r = open_as-Restores flags e.mode e p (e', p') n a b h in
    ap (λ m. close_as m e' p') r.same_mode ∙ r.closes
