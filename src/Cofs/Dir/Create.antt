-- ===== src/Cofs/Dir/Create.antt =====
-- cofs.c: making and removing names.
use Prim.Native.Nat.{bit_or}
use c_osiris.Base.{
  ℕ, ◌+◌, ◌-◌, ◌%◌, Bool, true, false, Option, none, some, List, [], ◌∷◌, if◌then◌else◌,
}
use c_osiris.Base.Words.{sub32}
use c_osiris.Word.{major, minor}
use c_osiris.Cofs.Inode as Inode
use c_osiris.Cofs.Inode.{Node, type_of}
use c_osiris.Cofs.State.{
  Act, ret, panic, ◌>>=◌, ◌>>◌, load, store, lift, put_disk, lock_node, unlock_node, save_node,
  get_node, put_node,
}
use c_osiris.Cofs.Dir.{zero_entry, rename, scan_dir, has_name, write_entry, finddir, dirlink}

abbrev pub not_null : Option ℕ → Act ℕ
not_null none = panic
not_null (some i) = ret i

-- `inode_alloc`, and the lock of the node, which panics at NULL.
unfoldable pub new_node : ℕ → Act ℕ
unfolding Inode.inode_alloc get_node lock_node
new_node type = do
  (ino, d) ← lift (λ sb d. Inode.inode_alloc sb type d)
  put_disk d
  j ← get_node ino
  i ← not_null j
  lock_node i
  ret i

-- The new node's name is put into the directory.
unfoldable pub link_to : ℕ → List ℕ → ℕ → Act (Option ℕ)
unfolding lock_node unlock_node dirlink
link_to dir name i = do
  n ← load i
  lock_node dir
  done ← dirlink dir name n.inode
  unlock_node dir
  ret (some i)

-- `cofs_mkdir`, `cofs_mknod` and `cofs_creat` return NULL for a name that there is.
unfoldable pub unless_found : Option ℕ → Act (Option ℕ) → Act (Option ℕ)
unfolding put_node
unless_found none rest = rest
unless_found (some j) rest = put_node j >> ret none

unfoldable pub set_up : ℕ → (Node → Node) → Act (Unit {0})
set_up i f = do n ← load i; store i (f n)

unfoldable pub mkdir : ℕ → List ℕ → ℕ → Act (Option ℕ)
unfolding finddir unless_found new_node rename set_up dirlink save_node unlock_node link_to
mkdir dir name mode = finddir dir name >>= λ found. unless_found found (do
  i ← new_node 16384
  rename i name
  set_up i (λ n. record n { mask = mode; num_links = 1 })
  n ← load i
  p ← load dir
  here ← dirlink i (46 ∷ []) n.inode
  above ← dirlink i (46 ∷ 46 ∷ []) p.inode
  save_node i
  unlock_node i
  link_to dir name i)

unfoldable pub mknod : ℕ → List ℕ → ℕ → ℕ → Act (Option ℕ)
unfolding finddir unless_found new_node rename set_up save_node unlock_node link_to
mknod dir name mode dev = finddir dir name >>= λ found. unless_found found (do
  i ← new_node (bit_or (type_of dev) (mode % 256))
  rename i name
  let d = dev - type_of dev
  set_up i (λ n. record n { major = major d; minor = minor d; mask = mode; num_links = 1 })
  save_node i
  unlock_node i
  link_to dir name i)

unfoldable pub creat : ℕ → List ℕ → ℕ → Act (Option ℕ)
unfolding finddir unless_found new_node rename set_up save_node unlock_node link_to
creat dir name mode = finddir dir name >>= λ found. unless_found found (do
  i ← new_node 32768
  rename i name
  set_up i (λ n. record n { mask = mode; num_links = 1 })
  save_node i
  unlock_node i
  link_to dir name i)

-- `cofs_unlink` of a name whose node was found.
unfoldable pub unlink_node : ℕ → ℕ → Act Bool
unfolding lock_node scan_dir has_name write_entry save_node unlock_node put_node
unlink_node parent i = do
  lock_node i
  lock_node parent
  n ← load i
  p ← load parent
  (found, (offs, dir)) ← scan_dir (p.size + 1) (has_name n.name) parent 0 zero_entry
  if found then ret tt else panic
  write_entry parent offs zero_entry
  save_node parent
  unlock_node parent
  m ← load i
  store i (record m { num_links = sub32 m.num_links 1 })
  save_node i
  unlock_node i
  put_node i
  put_node parent
  ret true

unfoldable pub unlink_found : ℕ → Option ℕ → Act Bool
unfolding unlink_node
unlink_found parent none = ret false
unlink_found parent (some i) = unlink_node parent i

-- `cofs_unlink`; false is -1.
unfoldable pub unlink : ℕ → List ℕ → Act Bool
unfolding finddir unlink_found
unlink parent name = finddir parent name >>= unlink_found parent
