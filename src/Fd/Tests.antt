-- ===== src/Fd/Tests.antt =====
-- Descriptors of a process over one file system with one file, and the theorems there.
use c_osiris.Base.{
  ℕ, ◌+◌, ◌≡◌, refl, true, none, some, [], ◌∷◌, ◌==◌, if◌then◌else◌, ◌-◌, ap, not, length, get_or,
  take, drop, replicate, arith,
}
use c_osiris.Fd.{
  File, Table, Vfs, sys_open, sys_close, sys_dup, sys_read, sys_lseek, file_at, pointed, fd_alloc,
  free_fd, grow,
}
use c_osiris.Fd.Counts.{count, AllOpen}
use c_osiris.Fd.Safety.{
  Call, open_call, call, IsSound, IsAllowed, Reach, here, next, left, Reach-IsSafe,
}
use c_osiris.Fd.Dup.{sys_close-sys_dup}

-- The file has three bytes and is inode 2; the state counts its users. Every path but the empty one
-- leads to it.
abbrev one_file : Vfs ℕ
one_file = record {
  open_namei = λ path flags mode users. record {
    ok = not (length path == 0);
    node = if length path == 0 then none else some 2;
    store = users + 1;
  };
  close = λ n users. users - 1;
  dup = λ n users. users + 1;
  read = λ n off size users. (take size (drop off (7 ∷ 8 ∷ 9 ∷ [])), users);
  write = λ n off bytes users. (length bytes, users);
  dev_open = λ n flags users. users;
  node_size = λ n users. 3;
  node_type = λ n users. 32768;
}

-- A process starts with six descriptors.
abbrev unused : Table ℕ
unused = record { files = replicate 6 none; heap = []; store = 0 }

abbrev file : File
file = record { mode = 0; flags = 0; offs = 0; node = 2; dup_cnt = 0 }

abbrev one_open : Table ℕ
one_open = record { files = some 0 ∷ replicate 5 none; heap = some file ∷ []; store = 1 }

open_first : sys_open one_file (b'/' ∷ []) 0 0 unused ≡ some (some 0, one_open)
unfolding sys_open fd_alloc free_fd
open_first = refl

-- A descriptor and its duplicate have one offset.
abbrev two_open : Table ℕ
two_open = record {
  files = some 0 ∷ some 0 ∷ replicate 4 none;
  heap = some (record file { offs = 2; dup_cnt = 1 }) ∷ [];
  store = 2;
}

read_on :
    sys_read one_file 1 5 two_open
    ≡ some (
      some (9 ∷ []),
      record two_open { heap = some (record file { offs = 3; dup_cnt = 1 }) ∷ [] },
    )
unfolding sys_read file_at pointed
read_on = refl

-- `SEEK_END` counts from the start of the file.
seek_end : sys_lseek one_file 0 0 2 one_open ≡ some (some 0, one_open)
unfolding sys_lseek file_at pointed
seek_end = refl

-- The descriptor behind the array passes `fd_is_valid`.
close_behind : sys_close one_file 6 unused ≡ none
unfolding sys_close file_at
close_behind = refl

-- With all 64 descriptors in use, `fd_alloc` gives the one behind the array.
abbrev all_open : Table ℕ
all_open = record { files = replicate 64 (some 0); heap = []; store = 0 }

open_behind : sys_open one_file (b'/' ∷ []) 0 0 all_open ≡ none
unfolding sys_open fd_alloc free_fd grow
open_behind = refl

count_unused : (p : ℕ) → count p (replicate 6 none) ≡ 0
count_unused p = refl

unused-IsSound : IsSound unused
unused-IsSound = record {
  live = λ p lt. absurd (omega arith);
  counts = λ p f h. absurd (cc);
  pos = omega arith;
  limit = omega arith;
}

one_open-Reach : Reach one_file unused one_open
unfolding free_fd
one_open-Reach = next (open_call (b'/' ∷ []) 0 0) here (omega arith) (ap left open_first)

Reach-IsSafe_example :
    IsSound one_open
    × ((c : Call) → IsAllowed c one_open → (w : Table ℕ) × (call one_file c one_open ≡ some w))
Reach-IsSafe_example = Reach-IsSafe one_file unused one_open unused-IsSound one_open-Reach

sys_close-sys_dup_example :
    (fd n : ℕ) × (u w : Table ℕ) × (sys_dup one_file 0 one_open ≡ some (some fd, u))
    × (get_or u.files fd none ≡ some 0)
    × (get_or u.files 0 none ≡ some 0)
    × AllOpen one_open.files fd
    × (sys_close one_file fd u ≡ some (true, w))
    × ((i : ℕ) → get_or w.files i none ≡ get_or one_open.files i none)
    × (w.heap ≡ one_open.heap)
    × (w.store ≡ 1)
unfolding free_fd
sys_close-sys_dup_example =
    sys_close-sys_dup one_file one_open 0 0 Reach-IsSafe_example.0 (omega arith) refl
