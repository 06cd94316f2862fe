-- ===== src/Fd/Calls.antt =====
-- The calls of sysfile.c keep the files that the descriptors of a process point to.
use c_osiris.Base.{
  ℕ, zero, suc, ◌+◌, ◌-◌, ◌≤◌, ◌<◌, ◌≡◌, ◌≢◌, inl, inr, refl, sym, ap, ◌∙◌, true, false, Option,
  none, some, List, [], ◌∷◌, ◌++◌, ◌==◌, if◌then◌else◌, length, get_or, set, arith, length-set,
  get_or-set_self, get_or-set_ne, eq-cases, lt-cases, Option-cases,
}
use c_osiris.Fd.{File, max_open_files}
use c_osiris.Fd.Counts.{hit, count, count-set, hit-le-count, hit_self, hit_ne, Allocated}

-- Every descriptor points to a file in memory, and each file in memory is pointed to as often as it
-- says, once more than its count of duplicates: none is lost, and none is given back while in use.
pub record IsCounted (files : List (Option ℕ)) (heap : List (Option File)) : Type 0 where
  pub live : (p : ℕ) → 0 < count p files → (f : File) × (get_or heap p none ≡ some f)
  pub counts : (p : ℕ) (f : File) → get_or heap p none ≡ some f → count p files ≡ f.dup_cnt + 1
  pub pos : 0 < length files
  pub limit : length files ≤ max_open_files

get_or-lt :
    (heap : List (Option File)) (p : ℕ) (f : File) → get_or heap p none ≡ some f → p < length heap
get_or-lt [] p f h = absurd (cc)
get_or-lt (x ∷ heap) zero f h = omega arith
get_or-lt (x ∷ heap) (suc p) f h = omega (arith, get_or-lt heap p f h)

get_or-append_end :
    (heap : List (Option File)) (f : File)
    → get_or (heap ++ (some f ∷ [])) (length heap) none ≡ some f
get_or-append_end [] f = refl
get_or-append_end (x ∷ heap) f = get_or-append_end heap f

get_or-append_ne :
    (heap : List (Option File)) (f : File) (p : ℕ)
    → p ≢ length heap
    → get_or (heap ++ (some f ∷ [])) p none ≡ get_or heap p none
get_or-append_ne [] f zero h = absurd (h refl)
get_or-append_ne [] f (suc p) h = refl
get_or-append_ne (x ∷ heap) f zero h = refl
get_or-append_ne (x ∷ heap) f (suc p) h = get_or-append_ne heap f p (λ e. h (ap suc e))

get_or_end : (heap : List (Option File)) → get_or heap (length heap) none ≡ none
get_or_end [] = refl
get_or_end (x ∷ heap) = get_or_end heap

-- How many descriptors a file says that it has.
abbrev links : Option File → ℕ
links none = 0
links (some f) = f.dup_cnt + 1

-- A file that is not in memory has no descriptor.
none-count :
    (files : List (Option ℕ)) (heap : List (Option File)) (p : ℕ)
    → IsCounted files heap
    → get_or heap p none ≡ none
    → count p files ≡ 0
none-count files heap p v h = elim (lt-cases 0 (count p files)) [
  | inl lt ↦ let (f, e) = v.live p lt in absurd (cc)
  | inr le ↦ omega arith
]

-- The file at a descriptor in use.
pub found :
    (files : List (Option ℕ)) (heap : List (Option File)) (fd p : ℕ)
    → IsCounted files heap
    → get_or files fd none ≡ some p
    → (f : File) × (get_or heap p none ≡ some f)
found files heap fd p v h =
    let one : hit p (get_or files fd none) ≡ 1 = ap (hit p) h ∙ hit_self p in
    v.live p (omega (arith, one, hit-le-count p files fd))

-- The array has the files of another, and a free descriptor now points to a new file.
pub link_new-IsCounted :
    (files files' : List (Option ℕ)) (heap : List (Option File)) (fd : ℕ) (f : File)
    → IsCounted files heap
    → Allocated files fd files'
    → f.dup_cnt ≡ 0
    → IsCounted (set files' fd (some (length heap))) (heap ++ (some f ∷ []))
link_new-IsCounted files files' heap fd f v a z = record {
  live = λ p lt. elim (eq-cases p (length heap)) [
    | inl e ↦ (f, ap (λ q. get_or (heap ++ (some f ∷ [])) q none) e ∙ get_or-append_end heap f)
    | inr ne ↦
        let (g, at) = v.live p (omega (arith, old p, hit_ne p (length heap) ne)) in
        (g, get_or-append_ne heap f p ne ∙ at)
  ];
  counts = λ p g at. elim (eq-cases p (length heap)) [
    | inl e ↦
        let same : some g ≡ some f =
          sym at ∙ ap (λ q. get_or (heap ++ (some f ∷ [])) q none) e ∙ get_or-append_end heap f in
        let out = none-count files heap p v (ap (λ q. get_or heap q none) e ∙ get_or_end heap) in
        let here : hit p (some (length heap)) ≡ 1 = ap (λ q. hit p (some q)) (sym e) ∙ hit_self p in
        omega (arith, old p, out, here, ap links same)
    | inr ne ↦
        let was = v.counts p g (sym (get_or-append_ne heap f p ne) ∙ at) in
        omega (arith, old p, was, hit_ne p (length heap) ne)
  ];
  pos = omega (arith, length-set files' fd (some (length heap)), a.inside);
  limit = omega (arith, length-set files' fd (some (length heap)), a.limit);
}
  where
    old :
        (p : ℕ)
        → count p (set files' fd (some (length heap))) ≡ count p files + hit p (some (length heap))
    old p =
        let free : hit p (get_or files' fd none) ≡ 0 = ap (hit p) a.free in
        omega (arith, count-set p files' fd (some (length heap)) a.inside, a.counted p, free)

-- The links of one file change, and what it says with them.
change-IsCounted :
    (files files' : List (Option ℕ)) (heap : List (Option File)) (p : ℕ) (f : File)
    (x : Option File)
    → IsCounted files heap
    → get_or heap p none ≡ some f
    → ((q : ℕ) → q ≢ p → count q files' ≡ count q files)
    → count p files' ≡ links x
    → 0 < length files'
    → length files' ≤ max_open_files
    → IsCounted files' (set heap p x)
change-IsCounted files files' heap p f x v at others mine pos limit = record {
  live = λ q lt. elim (eq-cases q p) [
    | inl e ↦ here q e lt
    | inr ne ↦
        let (g, is) = v.live q (omega (arith, others q ne)) in
        (g, get_or-set_ne heap p q x none (λ e. ne (sym e)) ∙ is)
  ];
  counts = λ q g is. elim (eq-cases q p) [
    | inl e ↦
        let same : x ≡ some g = sym self ∙ ap (λ r. get_or (set heap p x) r none) (sym e) ∙ is in
        ap (λ r. count r files') e ∙ mine ∙ ap links same
    | inr ne ↦
        others q ne ∙ v.counts q g (sym (get_or-set_ne heap p q x none (λ e. ne (sym e))) ∙ is)
  ];
  pos = pos;
  limit = limit;
}
  where
    self : get_or (set heap p x) p none ≡ x
    self = get_or-set_self heap p x none (get_or-lt heap p f at)

    here :
        (q : ℕ) → q ≡ p → 0 < count q files' → (g : File) × (get_or (set heap p x) q none ≡ some g)
    here q e lt = elim (Option-cases x) [
      | inl z ↦ absurd (omega (arith, ap (λ r. count r files') e, mine, ap links z))
      | inr (g, is) ↦ (g, ap (λ r. get_or (set heap p x) r none) e ∙ self ∙ is)
    ]

get_fd-lt : (files : List (Option ℕ)) (fd p : ℕ) → get_or files fd none ≡ some p → fd < length files
get_fd-lt [] fd p h = absurd (cc)
get_fd-lt (x ∷ files) zero p h = omega arith
get_fd-lt (x ∷ files) (suc fd) p h = omega (arith, get_fd-lt files fd p h)

pub close-IsCounted :
    (files : List (Option ℕ)) (heap : List (Option File)) (fd p : ℕ) (f : File)
    → IsCounted files heap
    → get_or files fd none ≡ some p
    → get_or heap p none ≡ some f
    → IsCounted
        (set files fd none)
        (set heap p (if f.dup_cnt == 0 then none else some (record f { dup_cnt = f.dup_cnt - 1 })))
close-IsCounted files heap fd p f v link at =
    let lt = get_fd-lt files fd p link in
    let fewer = λ (q : ℕ). count-set q files fd none lt in
    let was = v.counts p f at in
    let mine : hit p (get_or files fd none) ≡ 1 = ap (hit p) link ∙ hit_self p in
    let size = length-set files fd none in
    change-IsCounted files (set files fd none) heap p f _ v at
      (λ q ne.
        let other : hit q (get_or files fd none) ≡ 0 = ap (hit q) link ∙ hit_ne q p ne in
        omega (arith, fewer q, other))
      (elim (eq-cases f.dup_cnt 0) [
        | inl z ↦
            let e : (f.dup_cnt == 0) ≡ true = ground arith in
            rw e (omega (arith, fewer p, mine, was))
        | inr nz ↦
            let e : (f.dup_cnt == 0) ≡ false = ground arith in
            rw e (omega (arith, fewer p, mine, was))
      ])
      (omega (arith, size, v.pos)) (omega (arith, size, v.limit))

pub dup-IsCounted :
    (files files' : List (Option ℕ)) (heap : List (Option File)) (fd p : ℕ) (f : File)
    → IsCounted files heap
    → Allocated files fd files'
    → get_or heap p none ≡ some f
    → IsCounted (set files' fd (some p)) (set heap p (some (record f { dup_cnt = f.dup_cnt + 1 })))
dup-IsCounted files files' heap fd p f v a at =
    let more = λ (q : ℕ). count-set q files' fd (some p) a.inside in
    let free = λ (q : ℕ). ap (hit q) a.free in
    let size = length-set files' fd (some p) in
    change-IsCounted files (set files' fd (some p)) heap p f _ v at
      (λ q ne. omega (arith, more q, free q, a.counted q, hit_ne q p ne))
      (omega (arith, more p, free p, a.counted p, hit_self p, v.counts p f at))
      (omega (arith, size, a.inside)) (omega (arith, size, a.limit))

pub same-IsCounted :
    (files : List (Option ℕ)) (heap : List (Option File)) (p : ℕ) (f g : File)
    → IsCounted files heap
    → get_or heap p none ≡ some f
    → g.dup_cnt ≡ f.dup_cnt
    → IsCounted files (set heap p (some g))
same-IsCounted files heap p f g v at e =
    change-IsCounted files files heap p f (some g) v at (λ q ne. refl)
      (omega (arith, e, v.counts p f at)) v.pos v.limit

pub clear-IsCounted :
    (files files' : List (Option ℕ)) (heap : List (Option File)) (fd : ℕ)
    → IsCounted files heap
    → Allocated files fd files'
    → IsCounted (set files' fd none) heap
clear-IsCounted files files' heap fd v a =
    let size = length-set files' fd none in
    let same = λ (q : ℕ).
      let free : hit q (get_or files' fd none) ≡ 0 = ap (hit q) a.free in
      let e : count q (set files' fd none) ≡ count q files =
        omega (arith, count-set q files' fd none a.inside, a.counted q, free) in
      e in
    record {
      live = λ q lt. v.live q (omega (arith, same q));
      counts = λ q f is. same q ∙ v.counts q f is;
      pos = omega (arith, size, a.inside);
      limit = omega (arith, size, a.limit);
    }
