-- ===== src/Fd/Dup.antt =====
-- `sys_dup` of sysfile.c, and `sys_close` of what it gave.
use c_osiris.Base.{
  ℕ, zero, suc, ◌+◌, ◌-◌, ◌<◌, ◌≡◌, ◌≢◌, inl, inr, refl, sym, ap, ◌∙◌, true, false, Option, none,
  some, List, [], ◌∷◌, ◌==◌, length, get_or, set, arith, ltb, length-set, get_or-set_self,
  get_or-set_ne, eq-cases,
}
use c_osiris.Fd.{
  File, Table, Vfs, free_fd, fd_alloc, max_open_files, dup_at, dup_with, dup_file, sys_dup,
  sys_close, file_at, pointed, closed, at_file, in_memory,
}
use c_osiris.Fd.Counts.{AllOpen, fd_alloc-Allocated}
use c_osiris.Fd.Calls.{found}
use c_osiris.Fd.Safety.{IsSound}

set-set :
    (heap : List (Option File)) (p : ℕ) (x y : Option File) → set (set heap p x) p y ≡ set heap p y
set-set [] p x y = refl
set-set (z ∷ heap) zero x y = refl
set-set (z ∷ heap) (suc p) x y = ap (λ l. z ∷ l) (set-set heap p x y)

set-get_or :
    (heap : List (Option File)) (p : ℕ) (x : Option File)
    → get_or heap p none ≡ x
    → set heap p x ≡ heap
set-get_or [] p x h = refl
set-get_or (z ∷ heap) zero x h = ap (λ y. y ∷ heap) (sym h)
set-get_or (z ∷ heap) (suc p) x h = ap (λ l. z ∷ l) (set-get_or heap p x h)

get_or-lt :
    (heap : List (Option File)) (p : ℕ) (f : File) → get_or heap p none ≡ some f → p < length heap
get_or-lt [] p f h = absurd (cc)
get_or-lt (x ∷ heap) zero f h = omega arith
get_or-lt (x ∷ heap) (suc p) f h = omega (arith, get_or-lt heap p f h)

-- The table behind `sys_dup`.
abbrev shared : {S : Type 0} → Vfs S → ℕ → ℕ → List (Option ℕ) → File → Table S → Table S
shared v p fd files f t = record {
  files = set files fd (some p);
  heap = set t.heap p (some (record f { dup_cnt = f.dup_cnt + 1 }));
  store = v.dup f.node t.store;
}

dup_step :
    {S : Type 0} (v : Vfs S) (t : Table S) (old p fd : ℕ) (f : File) (files : List (Option ℕ))
    → get_or t.files old none ≡ some p
    → fd_alloc t.files ≡ some (fd, files)
    → get_or t.heap p none ≡ some f
    → fd < length files
    → sys_dup v old t ≡ some (some fd, shared v p fd files f t)
unfolding sys_dup
dup_step v t old p fd f files link is at inside =
    let e : ltb fd (length files) ≡ true = ground arith in
    ap (λ o. dup_at v o t) link
    ∙ ap (dup_with v p t) is
    ∙ ap (dup_file v p fd files t) at
    ∙ rw e refl

file_at_found :
    {S : Type 0} (t : Table S) (fd p : ℕ) (f : File)
    → fd < length t.files
    → get_or t.files fd none ≡ some p
    → get_or t.heap p none ≡ some f
    → file_at fd t ≡ some (some (p, f))
unfolding file_at pointed
file_at_found t fd p f inside link at =
    let e : ltb (length t.files) fd ≡ false = ground arith in
    let d : (fd == length t.files) ≡ false = ground arith in rw (e, d, link) (ap (in_memory p) at)

-- `sys_dup` of a descriptor in use, in a table where each file is counted and a descriptor is free
-- below the limit, gives the lowest free descriptor, which points to the same file. `sys_close` of it
-- succeeds and brings all back: the files, what they are in memory, and the file systems but for what
-- `dup` and `close` of the inode do to them.
pub sys_close-sys_dup :
    {S : Type 0} (v : Vfs S) (t : Table S) (old p : ℕ)
    → IsSound t
    → free_fd t.files < max_open_files
    → get_or t.files old none ≡ some p
    → (fd n : ℕ) × (u w : Table S) × (sys_dup v old t ≡ some (some fd, u))
      × (get_or u.files fd none ≡ some p)
      × (get_or u.files old none ≡ some p)
      × AllOpen t.files fd
      × (sys_close v fd u ≡ some (true, w))
      × ((i : ℕ) → get_or w.files i none ≡ get_or t.files i none)
      × (w.heap ≡ t.heap)
      × (w.store ≡ v.close n (v.dup n t.store))
unfolding sys_close
sys_close-sys_dup v t old p sound room link =
    let (f, at) = found t.files t.heap old p sound link in
    let (fd, files, is, a) = fd_alloc-Allocated t.files sound.pos sound.limit room in
    let u = shared v p fd files f t in
    let g : File = record f { dup_cnt = f.dup_cnt + 1 } in
    let mine : get_or u.files fd none ≡ some p = get_or-set_self files fd (some p) none a.inside in
    let other : (i : ℕ) → fd ≢ i → get_or u.files i none ≡ get_or t.files i none =
      λ i ne. get_or-set_ne files fd i (some p) none ne ∙ a.kept i in
    let apart : fd ≢ old = λ e.
      let z : get_or t.files fd none ≡ some p = ap (λ i. get_or t.files i none) e ∙ link in
      let y = sym (a.kept fd) ∙ a.free in absurd (cc) in
    let now : get_or u.heap p none ≡ some g =
      get_or-set_self t.heap p (some g) none (get_or-lt t.heap p f at) in
    let w = (closed v fd (some (p, g)) u).1 in
    let nz : (g.dup_cnt == 0) ≡ false = ground arith in
    let back : some (record g { dup_cnt = g.dup_cnt - 1 }) ≡ some f =
      ap (λ (k : ℕ). some (record f { dup_cnt = k })) (omega arith) in
    (
      fd,
      f.node,
      u,
      w,
      dup_step v t old p fd f files link is at a.inside,
      mine,
      other old apart ∙ link,
      a.lowest,
      ap (λ o. at_file o u (closed v fd))
          (file_at_found u fd p g (omega (arith, length-set files fd (some p), a.inside)) mine now),
      λ i. elim (eq-cases fd i) [
        | inl e ↦
            ap (λ k. get_or w.files k none) (sym e)
            ∙ get_or-set_self u.files fd none none
                (omega (arith, length-set files fd (some p), a.inside))
            ∙ sym (sym (a.kept fd) ∙ a.free)
            ∙ ap (λ k. get_or t.files k none) e
        | inr ne ↦ get_or-set_ne u.files fd i none none ne ∙ other i ne
      ],
      rw nz (
          set-set t.heap p (some g) (some (record g { dup_cnt = g.dup_cnt - 1 }))
          ∙ ap (set t.heap p) back
          ∙ set-get_or t.heap p (some f) at),
      refl,
    )
