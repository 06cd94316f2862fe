-- ===== src/Fd/Counts.antt =====
-- How often the descriptors of sysfile.c point to a file.
use c_osiris.Base.{
  ℕ, zero, suc, ◌+◌, ◌-◌, ◌*◌, ◌≤◌, ◌<◌, ◌≡◌, ◌≢◌, inl, inr, refl, sym, ◌∙◌, true, false, Option,
  none, some, List, [], ◌∷◌, ◌++◌, ◌==◌, if◌then◌else◌, length, get_or, set, replicate, arith,
  length-append, length-replicate, leb, ltb, eq-cases,
}
use c_osiris.Fd.{free_fd, grow, fd_alloc, max_open_files}

abbrev pub hit : ℕ → Option ℕ → ℕ
hit p none = 0
hit p (some q) = if p == q then 1 else 0

-- How many descriptors point to the file.
abbrev pub count : ℕ → List (Option ℕ) → ℕ
count p [] = 0
count p (x ∷ files) = hit p x + count p files

pub count-set :
    (p : ℕ) (files : List (Option ℕ)) (fd : ℕ) (x : Option ℕ)
    → fd < length files
    → count p (set files fd x) + hit p (get_or files fd none) ≡ count p files + hit p x
count-set p [] fd x h = absurd (omega arith)
count-set p (y ∷ files) zero x h = omega arith
count-set p (y ∷ files) (suc fd) x h = omega (arith, count-set p files fd x (omega arith))

pub hit-le-count :
    (p : ℕ) (files : List (Option ℕ)) (fd : ℕ) → hit p (get_or files fd none) ≤ count p files
hit-le-count p [] fd = omega arith
hit-le-count p (y ∷ files) zero = omega arith
hit-le-count p (y ∷ files) (suc fd) = omega (arith, hit-le-count p files fd)

pub hit_self : (p : ℕ) → hit p (some p) ≡ 1
hit_self p = ground arith

pub hit_ne : (p q : ℕ) → p ≢ q → hit p (some q) ≡ 0
hit_ne p q h = ground arith

pub count-append : (p : ℕ) (xs ys : List (Option ℕ)) → count p (xs ++ ys) ≡ count p xs + count p ys
count-append p [] ys = omega arith
count-append p (x ∷ xs) ys = omega (arith, count-append p xs ys)

count_none : (p n : ℕ) → count p (replicate n none) ≡ 0
count_none p zero = refl
count_none p (suc n) = omega (arith, count_none p n)

free_fd-le : (files : List (Option ℕ)) → free_fd files ≤ length files
unfolding free_fd
free_fd-le [] = omega arith
free_fd-le (none ∷ files) = omega arith
free_fd-le (some p ∷ files) = omega (arith, free_fd-le files)

get_or-free_fd : (files : List (Option ℕ)) → get_or files (free_fd files) none ≡ none
unfolding free_fd
get_or-free_fd [] = refl
get_or-free_fd (none ∷ files) = refl
get_or-free_fd (some p ∷ files) = get_or-free_fd files

get_or-append_none :
    (files : List (Option ℕ)) (n fd : ℕ)
    → get_or files fd none ≡ get_or (files ++ replicate n none) fd none
get_or-append_none [] zero fd = refl
get_or-append_none [] (suc n) zero = refl
get_or-append_none [] (suc n) (suc fd) = get_or-append_none [] n fd
get_or-append_none (x ∷ files) n zero = refl
get_or-append_none (x ∷ files) n (suc fd) = get_or-append_none files n fd

-- All descriptors below are in use.
abbrev pub AllOpen : List (Option ℕ) → ℕ → Type 0
AllOpen files fd = (i : ℕ) → i < fd → get_or files i none ≢ none

free_fd-AllOpen : (files : List (Option ℕ)) → AllOpen files (free_fd files)
unfolding free_fd
free_fd-AllOpen [] i h = absurd (omega arith)
free_fd-AllOpen (none ∷ files) i h = absurd (omega arith)
free_fd-AllOpen (some p ∷ files) zero h = λ e. cc
free_fd-AllOpen (some p ∷ files) (suc i) h = free_fd-AllOpen files i (omega arith)

-- What `fd_alloc` gives where the array is below its limit: the lowest free descriptor, in an array
-- with the same files, and no other.
pub record Allocated (files : List (Option ℕ)) (fd : ℕ) (files' : List (Option ℕ)) : Type 0 where
  pub inside : fd < length files'
  pub free : get_or files' fd none ≡ none
  pub lowest : AllOpen files fd
  pub kept : (i : ℕ) → get_or files' i none ≡ get_or files i none
  pub counted : (p : ℕ) → count p files' ≡ count p files
  pub limit : length files' ≤ max_open_files

grow-Allocated :
    (files : List (Option ℕ))
    → 0 < length files
    → length files < max_open_files
    → free_fd files ≡ length files
    → Allocated files (free_fd files) (grow files)
unfolding grow
grow-Allocated files pos low full =
    let n : ℕ = length files in
    let size : ℕ = if leb max_open_files (n * 2) then max_open_files else n * 2 in
    let more : (n < size) × (size ≤ max_open_files) = (ground arith, ground arith) in
    let len = length-append files (replicate (size - n) none) in
    let len2 = length-replicate {A = Option ℕ} (size - n) none in
    record {
      inside = omega (arith, len, len2, more.0);
      free = sym (get_or-append_none files (size - n) (free_fd files)) ∙ get_or-free_fd files;
      lowest = free_fd-AllOpen files;
      kept = λ i. sym (get_or-append_none files (size - n) i);
      counted = λ p.
          omega (arith, count-append p files (replicate (size - n) none), count_none p (size - n));
      limit = omega (arith, len, len2, more.1);
    }

-- `fd_alloc` of an array with room for more gives the lowest descriptor that is free.
pub fd_alloc-Allocated :
    (files : List (Option ℕ))
    → 0 < length files
    → length files ≤ max_open_files
    → free_fd files < max_open_files
    → (fd : ℕ) × (files' : List (Option ℕ)) × (fd_alloc files ≡ some (fd, files'))
      × Allocated files fd files'
unfolding fd_alloc
fd_alloc-Allocated files pos limit low = elim (eq-cases (free_fd files) (length files)) [
  | inl full ↦
      let e : (free_fd files == length files) ≡ true = ground arith in
      let r : ltb max_open_files (free_fd files) ≡ false = ground arith in
      (free_fd files, grow files, rw (e, r) refl, grow-Allocated files pos (omega arith) full)
  | inr room ↦
      let e : (free_fd files == length files) ≡ false = ground arith in
      (
        free_fd files,
        files,
        rw e refl,
        record {
          inside = omega (arith, free_fd-le files);
          free = get_or-free_fd files;
          lowest = free_fd-AllOpen files;
          kept = λ i. refl;
          counted = λ p. refl;
          limit = limit;
        },
      )
]
