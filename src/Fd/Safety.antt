-- ===== src/Fd/Safety.antt =====
-- Runs of the calls of sysfile.c: no call reads or writes behind the array of files, or memory that
-- is given back.
use mathlib.Core.Path.{subst}
use c_osiris.Base.{
  ℕ, ◌<◌, ◌≡◌, ◌≢◌, ◌⊎◌, inl, inr, refl, sym, ap, ◌∙◌, Bool, true, false, Option, none, some, List,
  [], ◌==◌, if◌then◌else◌, length, get_or, set, arith, ltb, leb, ◌&&◌, not, Option-cases,
  Bool-cases, lt-cases,
}
use c_osiris.Fd.{
  File, Table, Vfs, Named, free_fd, max_open_files, file_at, open_at, opened, sys_open, closed,
  sys_close, dup_at, sys_dup, read_file, sys_read, write_file, sys_write, seek_file, seek_to,
  sys_lseek, on_file, at_file, in_memory, open_fails, open_with, dup_file, dup_with, seek_with,
  moved, fs_chardevice, fs_pipe,
}
use c_osiris.Fd.Counts.{Allocated, fd_alloc-Allocated}
use c_osiris.Fd.Calls.{
  IsCounted, found, link_new-IsCounted, clear-IsCounted, close-IsCounted, dup-IsCounted,
  same-IsCounted,
}

pub data Call : Type 0 where
  open_call : List ℕ → ℕ → ℕ → Call
  close_call : ℕ → Call
  dup_call : ℕ → Call
  read_call : ℕ → ℕ → Call
  write_call : ℕ → List ℕ → Call
  lseek_call : ℕ → ℕ → ℕ → Call

-- What a call leaves, whatever it returns.
abbrev pub left {ℓ} : {A : Type ℓ} {S : Type 0} → Option (A × Table S) → Option (Table S)
left none = none
left (some (a, t)) = some t

abbrev pub call : {S : Type 0} → Vfs S → Call → Table S → Option (Table S)
call v (open_call path flags mode) t = left (sys_open v path flags mode t)
call v (close_call fd) t = left (sys_close v fd t)
call v (dup_call fd) t = left (sys_dup v fd t)
call v (read_call fd count) t = left (sys_read v fd count t)
call v (write_call fd bytes) t = left (sys_write v fd bytes t)
call v (lseek_call fd offset whence) t = left (sys_lseek v fd offset whence t)

abbrev pub IsSound : {S : Type 0} → Table S → Type 0
IsSound t = IsCounted t.files t.heap

-- Where the code has its bounds: a descriptor is not the length of the array, which `fd_is_valid`
-- lets pass, and a new one is not wanted when the array is full, which `fd_alloc` does not see.
abbrev pub IsAllowed : {S : Type 0} → Call → Table S → Type 0
IsAllowed (open_call path flags mode) t = free_fd t.files < max_open_files
IsAllowed (dup_call fd) t = free_fd t.files < max_open_files
IsAllowed (close_call fd) t = fd ≢ length t.files
IsAllowed (read_call fd count) t = fd ≢ length t.files
IsAllowed (write_call fd bytes) t = fd ≢ length t.files
IsAllowed (lseek_call fd offset whence) t = fd ≢ length t.files

-- A call came to its end, and the files are counted behind it.
abbrev Ends : {S : Type 0} → Option (Table S) → Type 0
Ends {S} r = (t : Table S) × (r ≡ some t) × IsSound t

-- A file that a descriptor gives is the one that it points to.
file_at_lem :
    {S : Type 0} (fd : ℕ) (t : Table S)
    → IsSound t
    → fd ≢ length t.files
    → (file_at fd t ≡ some none)
      ⊎ ((p : ℕ) × (f : File) × (file_at fd t ≡ some (some (p, f)))
          × (get_or t.files fd none ≡ some p)
          × (get_or t.heap p none ≡ some f))
unfolding file_at
file_at_lem fd t v ne = elim (lt-cases (length t.files) fd) [
  | inl above ↦ let e : ltb (length t.files) fd ≡ true = ground arith in inl (rw e refl)
  | inr below ↦
      let e : ltb (length t.files) fd ≡ false = ground arith in
      let d : (fd == length t.files) ≡ false = ground arith in
      elim (Option-cases (get_or t.files fd none)) [
        | inl z ↦ inl (rw (e, d, z) refl)
        | inr (p, link) ↦
            let (f, at) = found t.files t.heap fd p v link in
            inr (p, f, rw (e, d, link) (ap (in_memory p) at), link, at)
      ]
]

module _ {S : Type 0} (v : Vfs S) where
  on_file-Ends :
      {A : Type 0} (fd : ℕ) (t : Table S) (k : Option (ℕ × File) → Table S → A × Table S)
      → IsSound t
      → fd ≢ length t.files
      → (k none t).1 ≡ t
      → ((p : ℕ) (f : File)
          → get_or t.files fd none ≡ some p
          → get_or t.heap p none ≡ some f
          → IsSound (k (some (p, f)) t).1)
      → Ends (left (on_file fd t k))
  on_file-Ends fd t k w ne bad good = elim (file_at_lem fd t w ne) [
    | inl z ↦ ((k none t).1, ap (λ o. left (at_file o t k)) z, subst IsSound (sym bad) w)
    | inr (p, f, is, link, at) ↦
        ((k (some (p, f)) t).1, ap (λ o. left (at_file o t k)) is, good p f link at)
  ]

  seek_file-IsSound :
      (offset whence p : ℕ) (f : File) (t : Table S)
      → IsSound t
      → get_or t.heap p none ≡ some f
      → IsSound (seek_file v offset whence (some (p, f)) t).1
  seek_file-IsSound offset whence p f t w at = go (seek_to v offset whence f t.store)
    where
      go : (o : Option ℕ) → IsSound (seek_with v p f t o).1
      go none = w
      go (some o) = same-IsCounted t.files t.heap p f _ w at refl

  read_file-IsSound :
      (count p : ℕ) (f : File) (t : Table S)
      → IsSound t
      → get_or t.heap p none ≡ some f
      → IsSound (read_file v count (some (p, f)) t).1
  read_file-IsSound count p f t w at = go (
      leb (v.node_size f.node t.store) f.offs
      && not (v.node_type f.node t.store == fs_chardevice)
      && not (v.node_type f.node t.store == fs_pipe))
    where
      r : List ℕ × S
      r = v.read f.node f.offs count t.store

      go :
          (b : Bool)
          → IsSound
              (if◌then◌else◌ {A = Option (List ℕ) × Table S} b
                (some [], t)
                (some r.0, record t { heap = moved v p f (length r.0) t.heap; store = r.1 })).1
      go true = w
      go false = same-IsCounted t.files t.heap p f _ w at refl

  open_fails-Ends :
      (fd : ℕ) (files : List (Option ℕ)) (t : Table S) (s : S)
      → IsSound t
      → Allocated t.files fd files
      → Ends (left (open_fails v fd files t s))
  open_fails-Ends fd files t s w a =
      let e : ltb fd (length files) ≡ true = ground (arith, a.inside) in
      rw e (
        record t { files = set files fd none; store = s },
        refl,
        clear-IsCounted t.files files t.heap fd w a,
      )

  open_at-Ends :
      (fd flags mode : ℕ) (files : List (Option ℕ)) (t : Table S) (r : Named S) (o : Option ℕ)
      → IsSound t
      → Allocated t.files fd files
      → Ends (left (open_at v fd flags mode files t r o))
  open_at-Ends fd flags mode files t r none w a = open_fails-Ends fd files t r.store w a
  open_at-Ends fd flags mode files t r (some n) w a = elim (Bool-cases r.ok) [
    | inl yes_ok ↦
        let e : ltb fd (length files) ≡ true = ground (arith, a.inside) in
        let f = opened v n flags mode r.store in
        rw yes_ok (rw e (_, refl, link_new-IsCounted t.files files t.heap fd f w a refl))
    | inr bad ↦ rw bad (open_fails-Ends fd files t (v.close n r.store) w a)
  ]

  dup_at-Ends :
      (o : Option ℕ) (t : Table S) (fd : ℕ)
      → get_or t.files fd none ≡ o
      → IsSound t
      → free_fd t.files < max_open_files
      → Ends (left (dup_at v o t))
  dup_at-Ends none t fd link w h = (t, refl, w)
  dup_at-Ends (some p) t fd link w h =
      let (f, at) = found t.files t.heap fd p w link in
      let (new, files, is, a) = fd_alloc-Allocated t.files w.pos w.limit h in
      let e : ltb new (length files) ≡ true = ground (arith, a.inside) in
      let step : dup_at v (some p) t ≡ dup_file v p new files t (some f) =
        ap (dup_with v p t) is ∙ ap (dup_file v p new files t) at in
      subst (λ r. Ends (left r)) (sym step)
        (rw e (_, refl, dup-IsCounted t.files files t.heap new p f w a at))

  call-Ends : (c : Call) (t : Table S) → IsSound t → IsAllowed c t → Ends (call v c t)
  unfolding sys_open sys_close sys_dup sys_read sys_write sys_lseek
  call-Ends (open_call path flags mode) t w h =
      let (fd, files, is, a) = fd_alloc-Allocated t.files w.pos w.limit h in
      let r = v.open_namei path flags mode t.store in
      subst (λ o. Ends (left (open_with v path flags mode t o))) (sym is)
        (open_at-Ends fd flags mode files t r r.node w a)
  call-Ends (close_call fd) t w h =
      on_file-Ends fd t (closed v fd) w h refl
        (λ p f link at. close-IsCounted t.files t.heap fd p f w link at)
  call-Ends (dup_call fd) t w h = dup_at-Ends (get_or t.files fd none) t fd refl w h
  call-Ends (read_call fd count) t w h =
      on_file-Ends fd t (read_file v count) w h refl
        (λ p f link at. read_file-IsSound count p f t w at)
  call-Ends (write_call fd bytes) t w h =
      on_file-Ends fd t (write_file v bytes) w h refl
        (λ p f link at. same-IsCounted t.files t.heap p f _ w at refl)
  call-Ends (lseek_call fd offset whence) t w h =
      on_file-Ends fd t (seek_file v offset whence) w h refl
        (λ p f link at. seek_file-IsSound offset whence p f t w at)

abbrev IsSoundAfter : {S : Type 0} → Option (Table S) → Type 0
IsSoundAfter none = Unit {0}
IsSoundAfter (some t) = IsSound t

-- Calls one behind the other, each within the bounds of the code.
pub data Reach {S : Type 0} (v : Vfs S) (t : Table S) : Table S → Type 0 where
  here : Reach v t t
  next :
      {u w : Table S} (c : Call) → Reach v t u → IsAllowed c u → call v c u ≡ some w → Reach v t w

Reach-IsSound :
    {S : Type 0} (v : Vfs S) (t : Table S) {u : Table S} → IsSound t → Reach v t u → IsSound u
Reach-IsSound v t w here = w
Reach-IsSound v t w (next {u = s} c r h e) =
    let (u', is, sound) = call-Ends v c s (Reach-IsSound v t w r) h in
    subst IsSoundAfter (sym is ∙ e) sound

-- From a table in which each file is counted, whatever calls of open, close, dup, read, write and
-- lseek are made within the bounds of the code, every file is counted again: each descriptor points
-- to a file in memory, and a file stays in memory just as long as a descriptor points to it. Every next
-- call within the bounds comes to its end: it reads and writes no file that was given back, and
-- nothing behind the array.
pub Reach-IsSafe :
    {S : Type 0} (v : Vfs S) (t u : Table S)
    → IsSound t
    → Reach v t u
    → IsSound u × ((c : Call) → IsAllowed c u → (w : Table S) × (call v c u ≡ some w))
Reach-IsSafe v t u w r =
    let sound = Reach-IsSound v t w r in
    (sound, λ c h. let e = call-Ends v c u sound h in (e.0, e.1))
