-- ===== src/Bname.antt =====
-- bname.c: the directory and the last name of a path.
pub mod Split
mod Tests
use c_osiris.Base.{
  ℕ, zero, suc, ◌+◌, ◌-◌, Bool, true, false, ◌&&◌, List, ltb, ◌==◌, if◌then◌else◌, length, get_or,
  take, drop,
}

-- '/'
abbrev pub slash : ℕ
slash = 47

-- The loop of `bname` from the end of the path down, to its last slash or its first character. The
-- NUL stands behind the list.
unfoldable pub scan : ℕ → List ℕ → ℕ
scan zero path = zero
scan (suc p) path = let rest = scan p path in if get_or path (suc p) 0 == slash then suc p else rest

-- Where the last name begins.
unfoldable pub name_pos : List ℕ → ℕ
unfolding scan
name_pos path = let p = scan (length path) path in if get_or path p 0 == slash then p + 1 else p

-- `bname` of a path that fits: the directory, less its last slash unless it is the root, and the name.
unfoldable pub bname : List ℕ → List ℕ × List ℕ
unfolding name_pos
bname path =
    let pos = name_pos path in
    let trimmed = ltb 1 pos && get_or (take pos path) (pos - 1) 0 == slash in
    (take (if trimmed then pos - 1 else pos) path, drop pos path)
