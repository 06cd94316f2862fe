-- ===== src/Cofs/Dir/Entry.antt =====
-- The entries of a directory.
use c_osiris.Base.{
  ℕ, zero, suc, ◌/◌, ◌%◌, ◌^◌, ◌<◌, ◌≡◌, refl, ap, true, false, none, some, List, [], ◌∷◌, arith,
  ◌==◌, length, get_elem?, take,
}
use c_osiris.CString.{strncpy}
use c_osiris.Cofs.Inode.{Node}
use c_osiris.Cofs.State.{Fs}
use c_osiris.Cofs.Dir.{dir_size, entry_size, c_str, entry_inode, entry_name, entry_out, finddir}

-- The characters of a string: none of them is NUL.
abbrev pub HasNoNul : List ℕ → Type 0
HasNoNul [] = Unit
HasNoNul (c ∷ cs) = (0 < c) × HasNoNul cs

c_str-strncpy : (n : ℕ) (name : List ℕ) → HasNoNul name → c_str (strncpy n name) ≡ take n name
unfolding c_str strncpy
c_str-strncpy zero name h = refl
c_str-strncpy (suc n) [] h = refl
c_str-strncpy (suc n) (c ∷ name) h =
    let e : (c == 0) ≡ false = ground (arith, h.0) in
    rw e (ap (λ (l : List ℕ). c ∷ l) (c_str-strncpy n name h.1))

length-strncpy : (n : ℕ) (name : List ℕ) → length (strncpy n name) ≡ n
unfolding strncpy
length-strncpy zero name = refl
length-strncpy (suc n) [] = ap suc (length-strncpy n [])
length-strncpy (suc n) (c ∷ name) = ap suc (length-strncpy n name)

-- An entry that `cofs_dirlink` makes, of an inode number of 32 bits and of a name with no NUL in
-- it, has 32 bytes, and gives back the inode number and the first 28 characters of the name.
pub entry_lem :
    (inum : ℕ) (name : List ℕ)
    → inum < 2 ^ 32
    → HasNoNul name
    → (length (entry_out inum name) ≡ entry_size)
      × (entry_inode (entry_out inum name) ≡ inum)
      × (entry_name (entry_out inum name) ≡ take dir_size name)
unfolding entry_inode entry_name entry_out
entry_lem inum name h nul =
    (omega (arith, length-strncpy dir_size name), omega arith, c_str-strncpy dir_size name nul)

-- `cofs_finddir` in a node that is no directory panics.
pub finddir_file :
    (i : ℕ) (name : List ℕ) (s : Fs) (n : Node)
    → get_elem? s.cache.nodes i ≡ some n
    → n.type / 16384 % 2 ≡ 0
    → finddir i name s ≡ none
unfolding finddir
finddir_file i name s n at z =
    let e : (n.type / 16384 % 2 == 0) ≡ true = ground arith in rw (at, e) refl
