-- ===== src/Cofs/State.antt =====
-- cofs.c: the whole state, and the operations on a node by its index in the cache. A panic, and a
-- wait for a lock that nobody gives back, are `none`.
pub mod Put
mod Tests
use c_osiris.Base.{
  ℕ, zero, suc, ◌+◌, ◌-◌, Bool, true, false, ◌&&◌, not, Option, none, some, List, ltb, ◌==◌,
  if◌then◌else◌, get_elem?, set,
}
use c_osiris.Cofs.{Disk, Superblock}
use c_osiris.Cofs.Inode as Inode
use c_osiris.Cofs.Inode.{Node}
use c_osiris.Cofs.Cache as Cache
use c_osiris.Cofs.Cache.{Cache}
use c_osiris.Cofs.Map.{truncate}
use c_osiris.Cofs.File as File

pub record Fs : Type 0 where
  pub sb : Superblock
  pub disk : Disk
  pub cache : Cache

abbrev pub Act {ℓ} : Type ℓ → Type ℓ
Act A = Fs → Option (A × Fs)

abbrev pub ret {ℓ} : {A : Type ℓ} → A → Act A
ret a = λ s. some (a, s)

abbrev pub panic {ℓ} : {A : Type ℓ} → Act A
panic = λ s. none

abbrev pub and_then {ℓ κ} :
    {A : Type ℓ} {B : Type κ} → Option (A × Fs) → (A → Act B) → Option (B × Fs)
and_then none f = none
and_then (some (a, s)) f = f a s

infixl 5 ◌>>=◌ ◌>>◌
abbrev pub ◌>>=◌ {ℓ κ} : {A : Type ℓ} {B : Type κ} → Act A → (A → Act B) → Act B
m >>= f = λ s. and_then (m s) f

abbrev pub ◌>>◌ {ℓ} : {B : Type ℓ} → Act (Unit {0}) → Act B → Act B
m >> k = m >>= λ _. k

abbrev pub value_or_panic {ℓ} : {A : Type ℓ} → Option A → Act A
value_or_panic none = panic
value_or_panic (some a) = ret a

-- A read and a write through the pointer to a node.
abbrev pub load : ℕ → Act Node
load i = λ s. value_or_panic (get_elem? s.cache.nodes i) s

abbrev pub store : ℕ → Node → Act (Unit {0})
store i n = λ s. some (tt, record s { cache = record s.cache { nodes = set s.cache.nodes i n } })

abbrev pub put_disk : Disk → Act (Unit {0})
put_disk d = λ s. some (tt, record s { disk = d })

-- The result of a part of the model that has no state of its own.
abbrev pub lift {ℓ} : {A : Type ℓ} → (Superblock → Disk → Option A) → Act A
lift f = λ s. value_or_panic (f s.sb s.disk) s

unfoldable pub lock_node : ℕ → Act (Unit {0})
unfolding Inode.lock
lock_node i = do
  n ← load i
  n' ← lift (λ sb d. if n.locked then none else Inode.lock sb d n)
  store i n'

unfoldable pub unlock_node : ℕ → Act (Unit {0})
unfolding Inode.unlock
unlock_node i = do n ← load i; n' ← lift (λ sb d. Inode.unlock n); store i n'

unfoldable pub save_node : ℕ → Act (Unit {0})
unfolding Inode.update_node
save_node i = do n ← load i; d ← lift (λ sb d. some (Inode.update_node sb n d)); put_disk d

unfoldable pub read_node : ℕ → ℕ → ℕ → Act (List ℕ)
unfolding File.read
read_node i off size = do
  n ← load i
  (bs, (n', d)) ← lift (λ sb d. File.read sb n off size d)
  store i n'
  put_disk d
  ret bs

unfoldable pub write_node : ℕ → ℕ → List ℕ → Act ℕ
unfolding File.write
write_node i off bs = do
  n ← load i
  (count, (n', d)) ← lift (λ sb d. File.write sb n off bs d)
  store i n'
  put_disk d
  ret count

abbrev pub with_cache {ℓ} : {A : Type ℓ} → Fs → Option (A × Cache) → Option (A × Fs)
with_cache s none = none
with_cache s (some (r, c)) = some (r, record s { cache = c })

-- `cofs_get_node`, as a pointer or NULL.
unfoldable pub get_node : ℕ → Act (Option ℕ)
unfolding Cache.get_node
get_node inum = λ s. with_cache s (Cache.get_node inum s.cache)

-- The last user of a node that no directory names: its blocks and its inode are freed.
unfoldable pub drop_node : ℕ → Node → Act (Unit {0})
unfolding truncate Inode.update_node
drop_node i n = do
  (n', d) ← lift (λ sb d. truncate sb n 0 d)
  let gone = record n' { type = 0 }
  store i gone
  put_disk d
  e ← lift (λ sb d. some (Inode.update_node sb gone d))
  put_disk e

-- The root keeps its last reference.
abbrev pub less_refs : Node → Node
less_refs n =
    if n.inode == 1
    then (if ltb 1 n.ref_count then record n { ref_count = n.ref_count - 1 } else n)
    else record n { ref_count = n.ref_count - 1 }

unfoldable pub drop_ref : ℕ → Act (Unit {0})
drop_ref i = do n ← load i; store i (less_refs n)

-- `cofs_put_node`.
unfoldable pub put_node : ℕ → Act (Unit {0})
unfolding drop_node drop_ref
put_node i = do
  n ← load i
  let unnamed = n.ref_count == 1 && (ltb 0 n.type && n.num_links == 0)
  if n.ref_count == 0 then panic else if unnamed then drop_node i n >> drop_ref i else drop_ref i

-- `cofs_open` and `cofs_close`.
unfoldable pub open_node : ℕ → Act (Unit {0})
unfolding lock_node
open_node i = lock_node i

unfoldable pub close_node : ℕ → Act (Unit {0})
unfolding unlock_node put_node
close_node i = do n ← load i; if n.locked then unlock_node i >> put_node i else put_node i
