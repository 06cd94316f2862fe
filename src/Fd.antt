-- ===== src/Fd.antt =====
-- sysfile.c: the open files of a process, and the calls on descriptors. What a call does to the inode
-- of a file is that of its file system, a parameter.
pub mod Counts
pub mod Calls
pub mod Safety
pub mod Dup
mod Tests
use Prim.Native.Nat.{bit_and}
use c_osiris.Base.{
  ℕ, zero, suc, ◌+◌, ◌-◌, ◌*◌, ◌%◌, Bool, true, false, ◌&&◌, ◌||◌, not, Option, none, some, List,
  [], ◌∷◌, ◌++◌, ltb, leb, ◌==◌, if◌then◌else◌, length, get_or, set, replicate,
}
use c_osiris.Base.Words.{u32_mod, add32}

-- What `fs_open_namei` gives: whether it succeeded, the inode, and what is left of the file systems.
pub record Named (S : Type 0) : Type 0 where
  pub ok : Bool
  pub node : Option ℕ
  pub store : S

-- The operations of vfs.c and dev.c on inodes, by their addresses, over the state of the file systems.
pub record Vfs (S : Type 0) : Type 0 where
  pub open_namei : List ℕ → ℕ → ℕ → S → Named S
  pub close : ℕ → S → S
  pub dup : ℕ → S → S
  pub read : ℕ → ℕ → ℕ → S → List ℕ × S
  pub write : ℕ → ℕ → List ℕ → S → ℕ × S
  pub dev_open : ℕ → ℕ → S → S
  pub node_size : ℕ → S → ℕ
  pub node_type : ℕ → S → ℕ

-- `struct file`.
pub record File : Type 0 where
  pub mode : ℕ
  pub flags : ℕ
  pub offs : ℕ
  pub node : ℕ
  pub dup_cnt : ℕ

-- `files` of the current task with its pointers, the memory that they point to, by the order in
-- which it was taken, `none` where it is given back, and the file systems.
pub record Table (S : Type 0) : Type 0 where
  pub files : List (Option ℕ)
  pub heap : List (Option File)
  pub store : S

abbrev pub max_open_files : ℕ
max_open_files = 64

abbrev pub o_wronly : ℕ
o_wronly = 1

abbrev pub o_rdwr : ℕ
o_rdwr = 2

abbrev pub o_append : ℕ
o_append = 0x400

abbrev pub fs_pipe : ℕ
fs_pipe = 4096

abbrev pub fs_chardevice : ℕ
fs_chardevice = 8192

abbrev pub fs_blockdevice : ℕ
fs_blockdevice = 24576

abbrev pub s_ifmt : ℕ
s_ifmt = 61440

-- The search of `fd_alloc`.
unfoldable pub free_fd : List (Option ℕ) → ℕ
free_fd [] = 0
free_fd (none ∷ files) = 0
free_fd (some p ∷ files) = suc (free_fd files)

unfoldable pub grow : List (Option ℕ) → List (Option ℕ)
grow files =
    let n = length files in
    let size = if leb max_open_files (n * 2) then max_open_files else n * 2 in
    files ++ replicate (size - n) none

-- `fd_alloc`; `none` stands for -1.
unfoldable pub fd_alloc : List (Option ℕ) → Option (ℕ × List (Option ℕ))
unfolding free_fd grow
fd_alloc files =
    let fd = free_fd files in
    if fd == length files
    then if ltb max_open_files fd then none else some (fd, grow files)
    else some (fd, files)

-- A write to `files[fd]`; `none` stands for one behind the array.
abbrev pub put_fd {ℓ} :
    {A : Type ℓ} → ℕ → Option ℕ → List (Option ℕ) → (List (Option ℕ) → A) → Option A
put_fd fd p files k = if ltb fd (length files) then some (k (set files fd p)) else none

abbrev pub in_memory : ℕ → Option File → Option (Option (ℕ × File))
in_memory p none = none
in_memory p (some f) = some (some (p, f))

-- `files[fd]` behind `fd_is_valid`, with the memory that it points to: `some none` where the
-- descriptor is not valid, and `none` for a read behind the array or of memory that is given back.
unfoldable pub pointed : List (Option File) → Option ℕ → Option (Option (ℕ × File))
pointed heap none = some none
pointed heap (some p) = in_memory p (get_or heap p none)

unfoldable pub file_at : {S : Type 0} → ℕ → Table S → Option (Option (ℕ × File))
unfolding pointed
file_at fd t =
    if ltb (length t.files) fd
    then some none
    else if fd == length t.files
    then none
    else pointed t.heap (get_or t.files fd none)

abbrev pub has_bit : ℕ → ℕ → Bool
has_bit flags bit = not (bit_and flags bit == 0)

abbrev pub is_device : ℕ → Bool
is_device type = bit_and type s_ifmt == fs_chardevice || bit_and type s_ifmt == fs_blockdevice

-- A call on a descriptor: what it does at the file, or where there is none.
abbrev pub at_file {ℓ} :
    {S : Type 0} {A : Type ℓ}
    → Option (Option (ℕ × File))
    → Table S
    → (Option (ℕ × File) → Table S → A)
    → Option A
at_file none t k = none
at_file (some o) t k = some (k o t)

abbrev pub on_file {ℓ} :
    {S : Type 0} {A : Type ℓ} → ℕ → Table S → (Option (ℕ × File) → Table S → A) → Option A
on_file fd t k = at_file (file_at fd t) t k

module _ {S : Type 0} (v : Vfs S) where
  -- The file that `sys_open` links to a descriptor.
  abbrev pub opened : ℕ → ℕ → ℕ → S → File
  opened n flags mode s = record {
    mode = mode % 65536;
    flags = flags % 65536;
    offs =
        if has_bit flags o_append && (has_bit flags o_wronly || has_bit flags o_rdwr)
        then v.node_size n s
        else 0;
    node = n;
    dup_cnt = 0;
  }

  -- The label `err` of `sys_open`.
  abbrev pub open_fails : ℕ → List (Option ℕ) → Table S → S → Option (Option ℕ × Table S)
  open_fails fd files t s =
      put_fd fd none files (λ files'. (none, record t { files = files'; store = s }))

  -- `sys_open` once it has a descriptor and the answer of `fs_open_namei`, at the inode of this.
  abbrev pub open_at :
      ℕ → ℕ → ℕ → List (Option ℕ) → Table S → Named S → Option ℕ → Option (Option ℕ × Table S)
  open_at fd flags mode files t r none = open_fails fd files t r.store
  open_at fd flags mode files t r (some n) =
      if r.ok
      then put_fd fd (some (length t.heap)) files (λ files'. (
        some fd,
        record {
          files = files';
          heap = t.heap ++ (some (opened n flags mode r.store) ∷ []);
          store = if is_device (v.node_type n r.store) then v.dev_open n flags r.store else r.store;
        },
      ))
      else open_fails fd files t (v.close n r.store)

  abbrev pub open_with :
      List ℕ → ℕ → ℕ → Table S → Option (ℕ × List (Option ℕ)) → Option (Option ℕ × Table S)
  open_with path flags mode t none = some (none, t)
  open_with path flags mode t (some (fd, files)) =
      let r = v.open_namei path flags mode t.store in open_at fd flags mode files t r r.node

  -- `sys_open`: the descriptor, `some none` for -1, and `none` for a write behind the array.
  unfoldable pub sys_open : List ℕ → ℕ → ℕ → Table S → Option (Option ℕ × Table S)
  sys_open path flags mode t = open_with path flags mode t (fd_alloc t.files)

  abbrev pub closed : ℕ → Option (ℕ × File) → Table S → Bool × Table S
  closed fd none t = (false, t)
  closed fd (some (p, f)) t = (
    true,
    record {
      files = set t.files fd none;
      heap =
          set t.heap p
            (if f.dup_cnt == 0 then none else some (record f { dup_cnt = f.dup_cnt - 1 }));
      store = v.close f.node t.store;
    },
  )

  -- `sys_close`; `false` stands for -1.
  unfoldable pub sys_close : ℕ → Table S → Option (Bool × Table S)
  sys_close fd t = on_file fd t (closed fd)

  -- `sys_dup` of a descriptor that points to the file, and of any.
  abbrev pub dup_file :
      ℕ → ℕ → List (Option ℕ) → Table S → Option File → Option (Option ℕ × Table S)
  dup_file p fd files t none = none
  dup_file p fd files t (some f) = put_fd fd (some p) files (λ files'. (
    some fd,
    record {
      files = files';
      heap = set t.heap p (some (record f { dup_cnt = f.dup_cnt + 1 }));
      store = v.dup f.node t.store;
    },
  ))

  abbrev pub dup_with : ℕ → Table S → Option (ℕ × List (Option ℕ)) → Option (Option ℕ × Table S)
  dup_with p t none = some (none, t)
  dup_with p t (some (fd, files)) = dup_file p fd files t (get_or t.heap p none)

  abbrev pub dup_at : Option ℕ → Table S → Option (Option ℕ × Table S)
  dup_at none t = some (none, t)
  dup_at (some p) t = dup_with p t (fd_alloc t.files)

  unfoldable pub sys_dup : ℕ → Table S → Option (Option ℕ × Table S)
  sys_dup old t = dup_at (get_or t.files old none) t

  abbrev pub moved : ℕ → File → ℕ → List (Option File) → List (Option File)
  moved p f bytes heap = set heap p (some (record f { offs = add32 f.offs bytes }))

  abbrev pub read_file : ℕ → Option (ℕ × File) → Table S → Option (List ℕ) × Table S
  read_file count none t = (none, t)
  read_file count (some (p, f)) t =
      let type = v.node_type f.node t.store in
      let r = v.read f.node f.offs count t.store in
      if leb (v.node_size f.node t.store) f.offs
        && not (type == fs_chardevice)
        && not (type == fs_pipe)
      then (some [], t)
      else (some r.0, record t { heap = moved p f (length r.0) t.heap; store = r.1 })

  -- `sys_read`: the bytes, `none` for -1.
  unfoldable pub sys_read : ℕ → ℕ → Table S → Option (Option (List ℕ) × Table S)
  sys_read fd count t = on_file fd t (read_file count)

  abbrev pub write_file : List ℕ → Option (ℕ × File) → Table S → Option ℕ × Table S
  write_file bytes none t = (none, t)
  write_file bytes (some (p, f)) t =
      let r = v.write f.node f.offs bytes t.store in
      (some r.0, record t { heap = moved p f r.0 t.heap; store = r.1 })

  -- `sys_write`: the count of bytes, `none` for -1.
  unfoldable pub sys_write : ℕ → List ℕ → Table S → Option (Option ℕ × Table S)
  sys_write fd bytes t = on_file fd t (write_file bytes)

  abbrev pub seek_to : ℕ → ℕ → File → S → Option ℕ
  seek_to offset whence f s =
      if whence == 0
      then if ltb (v.node_size f.node s) offset then none else some offset
      else if whence == 1
      then if ltb (v.node_size f.node s) (add32 offset f.offs)
        then none
        else some (add32 f.offs offset)
      else if whence == 2
      then some offset
      else some f.offs

  abbrev pub seek_with : ℕ → File → Table S → Option ℕ → Option ℕ × Table S
  seek_with p f t none = (none, t)
  seek_with p f t (some o) =
      (some o, record t { heap = set t.heap p (some (record f { offs = o })) })

  abbrev pub seek_file : ℕ → ℕ → Option (ℕ × File) → Table S → Option ℕ × Table S
  seek_file offset whence none t = (none, t)
  seek_file offset whence (some (p, f)) t = seek_with p f t (seek_to offset whence f t.store)

  -- `sys_lseek`, with `SEEK_SET`, `SEEK_CUR` and `SEEK_END` for 0, 1 and 2.
  unfoldable pub sys_lseek : ℕ → ℕ → ℕ → Table S → Option (Option ℕ × Table S)
  sys_lseek fd offset whence t = on_file fd t (seek_file offset whence)
