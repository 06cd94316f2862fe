-- ===== src/Malloc/Release.antt =====
-- `free` takes just the block with the address from those in use.
use c_osiris.Base.{
  ℕ, ◌+◌, ◌-◌, ◌*◌, ◌/◌, ◌<◌, ◌≡◌, ◌⊎◌, inl, inr, refl, sym, ap, ◌∙◌, Bool, true, false, ◌||◌,
  Option, none, some, List, [], ◌∷◌, arith, leb, ◌==◌, if◌then◌else◌, Bool-cases, ==-eq_true,
}
use mathlib.Core.Path.{subst}
use c_osiris.Malloc.{
  Block, Heap, page_size, data_of, join_next, join_prev, release, contract, in_front, contracted,
  free,
}
use c_osiris.Malloc.Tiled.{AreTiled, EndsFree, EndsFree-cons, used, used_free, used_busy}
use c_osiris.Malloc.Used.{without, Freed, next-Freed, next_first, prev-Freed, without_low}

-- A block has the address.
unfoldable pub has : ℕ → List Block → Bool
has ptr [] = false
has ptr (b ∷ bs) = data_of b == ptr || has ptr bs

-- The block with the address is left out, whether it is in use or not.
without_first :
    (ptr start end : ℕ) (b : Block) (bs : List Block)
    → AreTiled start (b ∷ bs) end
    → data_of b ≡ ptr
    → without ptr (used (b ∷ bs)) ≡ used bs
unfolding AreTiled without
without_first ptr start end b bs t is =
    let rest = without_low ptr (data_of b + b.size) end bs t.1 (omega arith) in
    elim (Bool-cases b.free) [
      | inl f ↦ ap (without ptr) (used_free b bs f) ∙ rest
      | inr f ↦
          ap (without ptr) (used_busy b bs f)
          ∙ ap (λ (x : Bool). if x then without ptr (used bs) else b ∷ without ptr (used bs))
              (==-eq_true (data_of b) ptr is)
          ∙ rest
    ]

without_other :
    (ptr : ℕ) (p : Block) (bs : List Block)
    → (data_of p == ptr) ≡ false
    → without ptr (used (p ∷ bs))
      ≡ (if p.free then without ptr (used bs) else p ∷ without ptr (used bs))
unfolding without
without_other ptr p bs ne = elim (Bool-cases p.free) [
  | inl f ↦
      ap (without ptr) (used_free p bs f)
      ∙ sym (ap (λ (x : Bool). if x then without ptr (used bs) else p ∷ without ptr (used bs)) f)
  | inr f ↦
      ap (without ptr) (used_busy p bs f)
      ∙ ap (λ (x : Bool). if x then without ptr (used bs) else p ∷ without ptr (used bs)) ne
      ∙ sym (ap (λ (x : Bool). if x then without ptr (used bs) else p ∷ without ptr (used bs)) f)
]

tail_ends : (b : Block) (bs : List Block) → EndsFree (b ∷ bs) → (bs ≡ []) ⊎ EndsFree bs
unfolding EndsFree
tail_ends b [] e = inl refl
tail_ends b (c ∷ bs) e = inr e

-- A block in front of a list with a block freed.
cons-Freed :
    (start end : ℕ) (p : Block) (bs rest : List Block)
    → p.at ≡ start
    → Freed (data_of p + p.size) end rest bs
    → Freed start end (if p.free then rest else p ∷ rest) (p ∷ bs)
unfolding AreTiled
cons-Freed start end p bs rest at g = record {
  tiled = (at, g.tiled);
  ends = EndsFree-cons p bs g.ends;
  keeps = elim (Bool-cases p.free) [
    | inl f ↦ used_free p bs f ∙ g.keeps ∙ sym (ap (λ (x : Bool). if x then rest else p ∷ rest) f)
    | inr f ↦
        used_busy p bs f
        ∙ ap (λ (l : List Block). p ∷ l) g.keeps
        ∙ sym (ap (λ (x : Bool). if x then rest else p ∷ rest) f)
  ];
}

-- The block at the head is freed.
first-Freed :
    (ptr start end : ℕ) (b : Block) (bs : List Block)
    → AreTiled start (b ∷ bs) end
    → EndsFree (b ∷ bs)
    → data_of b ≡ ptr
    → Freed start end (without ptr (used (b ∷ bs))) (join_next (record b { free = true }) bs)
unfolding AreTiled
first-Freed ptr start end b bs t e is =
    subst (λ (l : List Block). Freed start end l (join_next (record b { free = true }) bs))
      (sym (without_first ptr start end b bs t is))
      (next-Freed start end (record b { free = true }) bs refl t (tail_ends b bs e))

-- What `release` comes to, without and with a block in front.
release-Freed :
    (ptr start end : ℕ) (bs : List Block)
    → AreTiled start bs end
    → EndsFree bs
    → has ptr bs ≡ true
    → ((r : List Block) × (release ptr none bs ≡ some r)
        × Freed start end (without ptr (used bs)) r)
      × ((p : Block) (low : ℕ)
          → p.at ≡ low
          → data_of p + p.size ≡ start
          → (data_of p == ptr) ≡ false
          → (r : List Block) × (release ptr (some p) bs ≡ some r)
            × Freed low end (without ptr (used (p ∷ bs))) r)
unfolding release has AreTiled
release-Freed ptr start end [] t e h = absurd (cc)
release-Freed ptr start end (b ∷ bs) t e h = elim (Bool-cases (data_of b == ptr)) [
  | inl is ↦
      let g = first-Freed ptr start end b bs t e (ground arith) in
      let (c, cs, same, free) = next_first (record b { free = true }) bs in
      (
        (join_next (record b { free = true }) bs, rw is refl, g),
        λ p low at next ne. (
          join_prev (some p) (join_next (record b { free = true }) bs),
          rw is refl,
          subst
              (λ (l : List Block).
                Freed low end l (join_prev (some p) (join_next (record b { free = true }) bs)))
              (sym (without_other ptr p (b ∷ bs) ne))
              (subst
                (λ (l : List Block).
                  Freed low end
                    (if p.free
                      then without ptr (used (b ∷ bs))
                      else p ∷ without ptr (used (b ∷ bs)))
                    (join_prev (some p) l))
                (sym same)
                (prev-Freed low end p c cs (without ptr (used (b ∷ bs))) at free (
                  subst (λ (k : ℕ). Freed k end (without ptr (used (b ∷ bs))) (c ∷ cs)) (sym next)
                    (subst (Freed start end (without ptr (used (b ∷ bs)))) same g)))),
        ),
      )
  | inr is ↦ elim (tail_ends b bs e) [
    | inl nil ↦
        let y : has ptr bs ≡ true = sym (ap (λ (x : Bool). x || has ptr bs) is) ∙ h in
        let z : has ptr bs ≡ false = ap (has ptr) nil in absurd (cc)
    | inr ends ↦
        let (r, found, g) =
          (release-Freed ptr (data_of b + b.size) end bs t.1 ends
              (sym (ap (λ (x : Bool). x || has ptr bs) is) ∙ h)).1
            b start t.0 refl is in
        (
          (r, rw (is, found) refl, g),
          λ p low at next ne. (
            p ∷ r,
            rw (is, found) refl,
            subst (λ (l : List Block). Freed low end l (p ∷ r))
                (sym (without_other ptr p (b ∷ bs) ne))
                (cons-Freed low end p r (without ptr (used (b ∷ bs))) at
                  (subst (λ (k : ℕ). Freed k end (without ptr (used (b ∷ bs))) r) (sym next) g)),
          ),
        )
  ]
]

-- `heap_contract` moves the end of the heap, and the end of its last block with it.
contract_lem :
    (start brk : ℕ) (bs : List Block)
    → AreTiled start bs brk
    → EndsFree bs
    → (h : Heap) × (contract bs brk ≡ some h)
      × AreTiled start h.blocks h.brk
      × EndsFree h.blocks
      × (used h.blocks ≡ used bs)
unfolding contract AreTiled EndsFree
contract_lem start brk [] t e = absurd e
contract_lem start brk (b ∷ []) t e = elim (Bool-cases (leb b.size page_size)) [
  | inl small ↦ (record { blocks = b ∷ []; brk = brk }, rw small refl, t, e, refl)
  | inr large ↦
      let end = data_of b / page_size * page_size + 2 * page_size in
      let b' = record b { size = end - data_of b } in
      let same : (data_of b + b.size == brk) ≡ true = ==-eq_true (data_of b + b.size) brk t.1 in
      let fits : data_of b + (end - data_of b) ≡ end = omega arith in
      (
        record { blocks = b' ∷ []; brk = end },
        rw (large, same) refl,
        (t.0, fits),
        e,
        used_free b' [] e ∙ sym (used_free b [] e),
      )
]
contract_lem start brk (b ∷ c ∷ bs) t e =
    let (h, is, tiled, ends, same) = contract_lem (data_of b + b.size) brk (c ∷ bs) t.1 e in
    (
      record h { blocks = b ∷ h.blocks },
      ap (in_front b) is,
      (t.0, tiled),
      EndsFree-cons b h.blocks ends,
      used_both b h.blocks (c ∷ bs) same,
    )
  where
    used_both : (b : Block) (xs ys : List Block) → used xs ≡ used ys → used (b ∷ xs) ≡ used (b ∷ ys)
    used_both b xs ys h = elim (Bool-cases b.free) [
      | inl f ↦ used_free b xs f ∙ h ∙ sym (used_free b ys f)
      | inr f ↦ used_busy b xs f ∙ ap (λ (l : List Block). b ∷ l) h ∙ sym (used_busy b ys f)
    ]

-- `free` of an address at which a block has its data takes that block, and no other, from those in
-- use; the heap stays full of blocks, with a free one at its end.
pub free_lem :
    (ptr start : ℕ) (h : Heap)
    → 0 < ptr
    → AreTiled start h.blocks h.brk
    → EndsFree h.blocks
    → has ptr h.blocks ≡ true
    → (h' : Heap) × (free ptr h ≡ some h')
      × AreTiled start h'.blocks h'.brk
      × EndsFree h'.blocks
      × (used h'.blocks ≡ without ptr (used h.blocks))
unfolding free contracted
free_lem ptr start h pos t e here =
    let nz : (ptr == 0) ≡ false = ground arith in
    let (r, is, g) = (release-Freed ptr start h.brk h.blocks t e here).0 in
    let (h', found, tiled, ends, same) = contract_lem start h.brk r g.tiled g.ends in
    (
      h',
      rw nz (ap (λ (x : Option (List Block)). contracted x h.brk) is ∙ found),
      tiled,
      ends,
      same ∙ g.keeps,
    )
