-- ===== src/Cofs/Dir.antt =====
-- cofs.c: directories, files of 32-byte entries.
pub mod Create
pub mod Entry
mod Tests
use c_osiris.Base.{
  ℕ, zero, suc, ◌+◌, ◌-◌, ◌*◌, ◌/◌, ◌%◌, Bool, true, false, ◌&&◌, not, Option, none, some, List, [],
  ◌∷◌, ◌++◌, ltb, ◌==◌, if◌then◌else◌, length, get_or, take, drop, replicate,
}
use c_osiris.Base.Ints.{ℤ, pos, negsuc}
use c_osiris.CString.{is_zero, strcmp, strncpy, upto}
use c_osiris.Word.{major, minor}
use c_osiris.Cofs.Inode as Inode
use c_osiris.Cofs.Inode.{Node, full, full_in, type_of, mask_of}
use c_osiris.Cofs.State.{
  Fs, Act, ret, panic, ◌>>=◌, ◌>>◌, load, store, lift, put_disk, lock_node, unlock_node, save_node,
  read_node, write_node, get_node, put_node,
}

-- `DIRSIZE`, and the size of `cofs_dirent_t`.
abbrev pub dir_size : ℕ
dir_size = 28

abbrev pub entry_size : ℕ
entry_size = 32

-- The characters up to a NUL.
unfoldable pub c_str : List ℕ → List ℕ
c_str [] = []
c_str (c ∷ cs) = let rest = c_str cs in if c == 0 then [] else c ∷ rest

-- `dir.inode`, and `dir.name` as a string that ends within the entry.
unfoldable pub entry_inode : List ℕ → ℕ
entry_inode dir = full_in (λ k. get_or dir k 0) 0

unfoldable pub entry_name : List ℕ → List ℕ
unfolding c_str
entry_name dir = c_str (drop 4 dir)

unfoldable pub entry_out : ℕ → List ℕ → List ℕ
unfolding strncpy
entry_out inum name = full inum ++ strncpy dir_size name

unfoldable pub has_name : List ℕ → List ℕ → Bool
unfolding strcmp entry_name
has_name name dir = is_zero (strcmp (entry_name dir) name)

-- The loop that reads entry behind entry, until a test holds of one or the directory ends: whether
-- it does, the offset of that entry, and `dir`. An entry that is read in part leaves the rest of
-- `dir` as it was. A round reads one byte at least, or is the last.
unfoldable pub scan_dir : ℕ → (List ℕ → Bool) → ℕ → ℕ → List ℕ → Act (Bool × (ℕ × List ℕ))
unfolding read_node
scan_dir zero test i offs dir = ret (false, (offs, dir))
scan_dir (suc n) test i offs dir = do
  bs ← read_node i offs entry_size
  let dir' = bs ++ drop (length bs) dir
  let rest = scan_dir n test i (offs + length bs) dir'
  let next = if test dir' then ret (true, (offs, dir')) else rest
  if length bs == 0 then ret (false, (offs, dir)) else next

abbrev pub zero_entry : List ℕ
zero_entry = replicate entry_size 0

-- The name of a node, which has room for 255 characters; the root keeps its own.
unfoldable pub rename : ℕ → List ℕ → Act (Unit {0})
unfolding upto
rename i name = do n ← load i; store i (record n { name = upto 255 name })

unfoldable pub found_node : Option ℕ → List ℕ → Act (Option ℕ)
unfolding lock_node unlock_node rename
found_node none name = panic
found_node (some j) name = do
  lock_node j
  n ← load j
  if n.inode == 1 then ret tt else rename j name
  unlock_node j
  ret (some j)

-- `cofs_finddir`: a pointer to the node, or NULL.
unfoldable pub finddir : ℕ → List ℕ → Act (Option ℕ)
unfolding scan_dir has_name entry_inode found_node get_node
finddir i name = do
  n ← load i
  let is_dir = not (n.type / 16384 % 2 == 0)
  if is_dir then ret tt else panic
  (found, (offs, dir)) ← scan_dir (n.size + 1) (has_name name) i 0 zero_entry
  let inum = if found then entry_inode dir else 0
  if inum == 0 then ret none else get_node inum >>= λ j. found_node j name

-- `struct dirent`, as far as it is filled in.
pub record Dirent : Type 0 where
  pub d_ino : ℕ
  pub d_name : List ℕ

unfoldable pub dirent_of : ℕ → List ℕ → Dirent
unfolding entry_inode entry_name upto
dirent_of room dir =
    if entry_inode dir == 0
    then record { d_ino = 0; d_name = [] }
    else record { d_ino = entry_inode dir; d_name = upto room (entry_name dir) }

-- `cofs_readdir`; `room` is the length that `d_name` has.
unfoldable pub readdir : ℕ → ℕ → ℕ → Act (Option Dirent)
unfolding lock_node unlock_node read_node dirent_of
readdir room i index = do
  lock_node i
  bs ← read_node i (index * entry_size) entry_size
  unlock_node i
  let dir = bs ++ drop (length bs) zero_entry
  if length bs == 0 then ret none else ret (some (dirent_of room dir))

unfoldable pub write_entry : ℕ → ℕ → List ℕ → Act (Unit {0})
unfolding write_node
write_entry i offs bs = do
  count ← write_node i offs bs
  if count == entry_size then ret tt else panic

unfoldable pub link_new : ℕ → List ℕ → ℕ → Option ℕ → Act Bool
unfolding scan_dir entry_inode entry_out write_entry put_node
link_new i name inum (some j) = put_node j >> ret false
link_new i name inum none = do
  n ← load i
  (found, (offs, dir)) ← scan_dir (n.size + 1) (λ dir. entry_inode dir == 0) i 0 zero_entry
  write_entry i offs (entry_out inum name)
  ret true

-- `cofs_dirlink`; false is -1.
unfoldable pub dirlink : ℕ → List ℕ → ℕ → Act Bool
unfolding finddir link_new
dirlink i name inum = finddir i name >>= link_new i name inum

-- `cofs_link`.
unfoldable pub link : ℕ → ℕ → List ℕ → Act Bool
unfolding lock_node unlock_node save_node dirlink
link parent i name = do
  lock_node i
  n ← load i
  store i (record n { num_links = n.num_links + 1 })
  save_node i
  lock_node parent
  done ← dirlink parent name n.inode
  unlock_node parent
  unlock_node i
  ret done
