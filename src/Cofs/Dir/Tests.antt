-- ===== src/Cofs/Dir/Tests.antt =====
-- Names in a small file system.
use c_osiris.Base.{
  ℕ, ◌≡◌, refl, Bool, true, false, Option, none, some, List, [], ◌∷◌, replicate, ◌&&◌, ◌==◌,
  if◌then◌else◌,
}
use c_osiris.Cofs.{Disk}
use c_osiris.Cofs.Inode.{Node, fresh_node}
use c_osiris.Cofs.Sample.{small_sb, small_disk}
use c_osiris.Cofs.State.{Fs}
use c_osiris.Cofs.Dir.{finddir}
use c_osiris.Cofs.Dir.Create.{creat, unlink}

-- The root of an empty file system.
abbrev root : Node
root = record (fresh_node 1) { type = 16384; num_links = 1; addrs = replicate 9 0 }

abbrev root_disk : Disk
root_disk b k = if b == 3 && k == 65 then 64 else small_disk b k

abbrev empty : Fs
empty = record {
  sb = small_sb;
  disk = root_disk;
  cache = record { held = false; nodes = root ∷ [] };
}

abbrev name : List ℕ
name = 97 ∷ 98 ∷ []

abbrev node_in : Option (Option ℕ × Fs) → Option ℕ
node_in none = none
node_in (some (r, s)) = r

abbrev state_of : Option (Option ℕ × Fs) → Fs
state_of none = empty
state_of (some (r, s)) = s

not_there : node_in (finddir 0 name empty) ≡ none
unfolding finddir
not_there = refl

-- A file that was made is found, and is not made again.
abbrev made : Fs
made = state_of (creat 0 name 420 empty)

is_found : node_in (finddir 0 name made) ≡ some 1
unfolding creat finddir
is_found = refl

not_twice : node_in (creat 0 name 420 made) ≡ none
unfolding creat
not_twice = refl

abbrev done : Option (Bool × Fs) → Bool
done none = false
done (some (b, s)) = b

abbrev state_after : Option (Bool × Fs) → Fs
state_after none = empty
state_after (some (b, s)) = s

-- A file that was removed is not found.
is_removed : done (unlink 0 name made) ≡ true
unfolding creat unlink
is_removed = refl
