-- ===== src/Malloc/Tiled.antt =====
-- The blocks lie one behind the other and fill the heap; the last is free.
use c_osiris.Base.{
  ℕ, zero, suc, ◌+◌, ◌-◌, ◌*◌, ◌≤◌, ◌<◌, ◌≡◌, ◌⊎◌, inl, inr, refl, sym, ap, ◌∙◌, Bool, true, false,
  Option, ltb→lt, ◌&&◌, some, none, List, [], ◌∷◌, ◌++◌, arith, ltb, leb, if◌then◌else◌, Bool-cases,
}
use mathlib.Core.Path.{subst}
use native.Mathlib.Nat.{mod-eq_of_lt}
use c_osiris.Base.Words.{add32, u32_mod}
use c_osiris.Malloc.{
  Block, Heap, Sbrk, split_last, page_size, meta, data_of, align, init, grow, split, search,
  started, malloc,
}

-- The blocks fill the addresses from `start` to `end`, and the last is free.
unfoldable pub AreTiled : ℕ → List Block → ℕ → Type 0
AreTiled start [] end = start ≡ end
AreTiled start (b ∷ bs) end = (b.at ≡ start) × AreTiled (data_of b + b.size) bs end

unfoldable pub EndsFree : List Block → Type 0
EndsFree [] = ⊥
EndsFree (b ∷ []) = b.free ≡ true
EndsFree (b ∷ c ∷ bs) = EndsFree (c ∷ bs)

-- The blocks in use.
unfoldable pub used : List Block → List Block
used [] = []
used (b ∷ bs) = if b.free then used bs else b ∷ used bs

pub used_free : (b : Block) (bs : List Block) → b.free ≡ true → used (b ∷ bs) ≡ used bs
unfolding used
used_free b bs e = ap (λ (f : Bool). if f then used bs else b ∷ used bs) e

pub used_busy : (b : Block) (bs : List Block) → b.free ≡ false → used (b ∷ bs) ≡ b ∷ used bs
unfolding used
used_busy b bs e = ap (λ (f : Bool). if f then used bs else b ∷ used bs) e

-- `sbrk` gives a page at every break below `top`.
abbrev pub Gives : Sbrk → ℕ → Type 0
Gives sbrk top = (brk : ℕ) → brk < top → sbrk brk ≡ (brk + page_size, true)

-- What a block that grows comes to.
abbrev Grown : ℕ → Block → Option (Block × ℕ) → Type 0
Grown need b r =
    (g : Block) × (end : ℕ) × (r ≡ some (g, end))
    × (need ≤ g.size)
    × (g.at ≡ b.at)
    × (b.at + meta + g.size ≡ end)

grow_lem :
    (sbrk : Sbrk) (top n need : ℕ) (b : Block) (brk : ℕ)
    → Gives sbrk top
    → need + page_size < u32_mod
    → b.at + meta + need ≤ top
    → need ≤ b.size + n * page_size
    → b.at + meta + b.size ≡ brk
    → Grown need b (grow sbrk (suc n) need b brk)
unfolding grow
grow_lem sbrk top zero need b brk gives lim room h t =
    let h' : need ≤ b.size = omega arith in
    let enough : ltb b.size need ≡ false = ground arith in rw enough (b, brk, refl, h', refl, t)
grow_lem sbrk top (suc n) need b brk gives lim room h t = elim (Bool-cases (ltb b.size need)) [
  | inl e ↦
      let small : b.size < need = ltb→lt b.size need e in
      let same : add32 b.size page_size ≡ b.size + page_size = mod-eq_of_lt (omega arith) in
      rw (e, gives brk (omega arith), same)
        (grow_lem sbrk top n need (record b { size = b.size + page_size }) (brk + page_size) gives
          lim room (omega arith) (omega arith))
  | inr e ↦ rw e (b, brk, refl, ground arith, refl, t)
]

-- `h'` has the block at `p` for `n` bytes besides the blocks in use of `bs`.
pub record Got (n start : ℕ) (bs : List Block) (p : ℕ) (h' : Heap) : Type 0 where
  pub tiled : AreTiled start h'.blocks h'.brk
  pub ends : EndsFree h'.blocks
  pub front : List Block
  pub back : List Block
  pub before : used bs ≡ front ++ back
  pub after : used h'.blocks ≡ front ++ (record { at = p - meta; size = n; free = false } ∷ back)
  pub pos : meta ≤ p

pub EndsFree-cons : (b : Block) (bs : List Block) → EndsFree bs → EndsFree (b ∷ bs)
unfolding EndsFree
EndsFree-cons b [] e = absurd e
EndsFree-cons b (c ∷ bs) e = e

EndsFree-split :
    (n : ℕ) (g : Block) (bs : List Block) → (bs ≡ []) ⊎ EndsFree bs → EndsFree (split n g bs)
unfolding EndsFree split
EndsFree-split n g [] e = refl
EndsFree-split n g (c ∷ bs) (inl e) = absurd (cc)
EndsFree-split n g (c ∷ bs) (inr e) = e

-- The block `g`, which is `b` or has grown from it, is split.
split-Got :
    (n start end : ℕ) (b g : Block) (bs : List Block)
    → b.free ≡ true
    → g.at ≡ start
    → n + meta ≤ g.size
    → AreTiled (data_of g + g.size) bs end
    → (bs ≡ []) ⊎ EndsFree bs
    → Got n start (b ∷ bs) (data_of g) (record { blocks = split n g bs; brk = end })
unfolding AreTiled used split
split-Got n start end b g bs is_free at big tiled ends =
    let rest : data_of g + g.size ≡ data_of g + n + meta + (g.size - n - meta) = omega arith in
    let place : g.at ≡ data_of g - meta = omega arith in
    record {
      tiled = (at, (refl, subst (λ (k : ℕ). AreTiled k bs end) rest tiled));
      ends = EndsFree-split n g bs ends;
      front = [];
      back = used bs;
      before = used_free b bs is_free;
      after = ap (λ (k : ℕ). record { at = k; size = n; free = false } ∷ used bs) place;
      pos = omega arith;
    }

-- A block in front that is not taken.
skip-Got :
    (n start p : ℕ) (b : Block) (bs : List Block) (h : Heap)
    → b.at ≡ start
    → Got n (data_of b + b.size) bs p h
    → Got n start (b ∷ bs) p (record h { blocks = b ∷ h.blocks })
unfolding AreTiled used
skip-Got n start p b bs h at g = elim (Bool-cases b.free) [
  | inl e ↦ record {
    tiled = (at, g.tiled);
    ends = EndsFree-cons b h.blocks g.ends;
    front = g.front;
    back = g.back;
    before = used_free b bs e ∙ g.before;
    after = used_free b h.blocks e ∙ g.after;
    pos = g.pos;
  }
  | inr e ↦ record {
    tiled = (at, g.tiled);
    ends = EndsFree-cons b h.blocks g.ends;
    front = b ∷ g.front;
    back = g.back;
    before = used_busy b bs e ∙ ap (λ (l : List Block). b ∷ l) g.before;
    after = used_busy b h.blocks e ∙ ap (λ (l : List Block). b ∷ l) g.after;
    pos = g.pos;
  }
]

-- The last block, which grows until it is large enough and is split.
last-Got :
    (n start brk : ℕ) (b : Block) (r : Option (Block × ℕ))
    → b.free ≡ true
    → b.at ≡ start
    → Grown (n + meta) b r
    → (p : ℕ) × (h' : Heap) × (split_last n r ≡ some (p, h')) × Got n start (b ∷ []) p h'
unfolding AreTiled split_last
last-Got n start brk b r e at (g, end, is, big, same, tiled) = (
  data_of g,
  record { blocks = split n g []; brk = end },
  ap (split_last n) is,
  split-Got n start end b g [] e (same ∙ at) big (omega (arith, same, tiled)) (inl refl),
)

taken_if : (f : Bool) (x : Option (ℕ × Heap)) → f ≡ true → (if f then x else none) ≡ x
taken_if true x e = refl
taken_if false x e = absurd (ground arith)

search-Got :
    (sbrk : Sbrk) (top n start : ℕ) (bs : List Block) (brk : ℕ)
    → Gives sbrk top
    → n + meta + page_size < u32_mod
    → brk + n + meta ≤ top
    → AreTiled start bs brk
    → EndsFree bs
    → (p : ℕ) × (h' : Heap) × (search sbrk n bs brk ≡ some (p, h')) × Got n start bs p h'
unfolding search split AreTiled EndsFree used
search-Got sbrk top n start [] brk gives lim room t e = absurd e
search-Got sbrk top n start (b ∷ []) brk gives lim room t e =
    let need : add32 n meta ≡ n + meta = mod-eq_of_lt (omega arith) in
    let (p, h', is, g) =
      last-Got n start brk b (grow sbrk (suc (n + meta)) (n + meta) b brk) e t.0 (
        grow_lem sbrk top (n + meta) (n + meta) b brk gives (omega arith) (omega (arith, t.1))
          (omega arith) (omega (arith, t.1))) in
    (
      p,
      h',
      taken_if b.free _ e ∙ ap (λ (k : ℕ). split_last n (grow sbrk (suc k) k b brk)) need ∙ is,
      g,
    )
search-Got sbrk top n start (b ∷ c ∷ bs) brk gives lim room t e =
    let (p, h', is, g) =
      search-Got sbrk top n (data_of b + b.size) (c ∷ bs) brk gives lim room t.1 e in
    elim (Bool-cases (b.free && leb (add32 n meta) b.size)) [
      | inl y ↦ (
        data_of b,
        record { blocks = split n b (c ∷ bs); brk = brk },
        rw y refl,
        split-Got n start brk b b (c ∷ bs) (ground arith) t.0 (ground arith) t.1 (inr e),
      )
      | inr y ↦ (
        p,
        record h' { blocks = b ∷ h'.blocks },
        rw (y, is) refl,
        skip-Got n start p b (c ∷ bs) h' t.0 g,
      )
    ]

-- A heap as `malloc` and `free` leave it: not started, or with its blocks in place.
pub data IsHeap (start : ℕ) (h : Heap) : Type 0 where
  unstarted : h.blocks ≡ [] → h.brk ≡ start → IsHeap start h
  running : AreTiled start h.blocks h.brk → EndsFree h.blocks → IsHeap start h

align_lem : (size : ℕ) → size + 24 < u32_mod → (size ≤ align size) × (align size ≤ size + 3)
unfolding align
align_lem size h = ground arith

Got-before :
    (n start : ℕ) (bs cs : List Block) (p : ℕ) (h : Heap)
    → used bs ≡ used cs
    → Got n start bs p h
    → Got n start cs p h
Got-before n start bs cs p h e g = record {
  tiled = g.tiled;
  ends = g.ends;
  front = g.front;
  back = g.back;
  before = sym e ∙ g.before;
  after = g.after;
  pos = g.pos;
}

-- `malloc` of a size below 2 ^ 32 - 8192, where `sbrk` gives a page at every break up to this size
-- and 8192 bytes more behind the break: it gives a block of that size rounded up, besides the blocks
-- in use, and keeps the heap full of blocks and its last block free.
pub malloc_lem :
    (sbrk : Sbrk) (top size start : ℕ) (h : Heap)
    → Gives sbrk top
    → h.brk + size + 8192 ≤ top
    → size + 8192 < u32_mod
    → IsHeap start h
    → (size ≤ align size)
      × ((p : ℕ) × (h' : Heap) × (malloc sbrk size h ≡ some (p, h'))
          × Got (align size) start h.blocks p h')
unfolding malloc started init EndsFree AreTiled used
malloc_lem sbrk top size start h gives room lim v =
    ((align_lem size (omega arith)).0, go h.blocks refl v)
  where
    n : ℕ
    n = align size

    rounded : n ≤ size + 3
    rounded = (align_lem size (omega arith)).1

    first : Heap
    first = record {
      blocks = record { at = h.brk; size = page_size - meta; free = true } ∷ [];
      brk = h.brk + page_size;
    }

    fresh_heap :
        h.brk ≡ start
        → (p : ℕ) × (h' : Heap) × (search sbrk n (init sbrk h).blocks (init sbrk h).brk
            ≡ some (p, h'))
          × Got n start [] p h'
    fresh_heap at = rw (gives h.brk (omega arith)) (
        let (p, h', found, g) =
          search-Got sbrk top n start first.blocks first.brk gives (omega (arith, rounded))
            (omega (arith, rounded)) (at, omega arith) refl in
        (p, h', found, Got-before n start first.blocks [] p h' refl g))

    go :
        (bs : List Block)
        → h.blocks ≡ bs
        → IsHeap start h
        → (p : ℕ) × (h' : Heap) × (search sbrk n (started sbrk h bs).blocks (started sbrk h bs).brk
            ≡ some (p, h'))
          × Got n start bs p h'
    go [] is (IsHeap.unstarted none_yet at) = fresh_heap at
    go [] is (IsHeap.running t e) = absurd (subst EndsFree is e)
    go (b ∷ bs) is (IsHeap.unstarted none_yet at) = absurd (cc)
    go (b ∷ bs) is (IsHeap.running t e) =
        let (p, h', found, g) =
          search-Got sbrk top n start h.blocks h.brk gives (omega (arith, rounded))
            (omega (arith, rounded)) t e in
        (p, h', found, Got-before n start h.blocks (b ∷ bs) p h' (ap used is) g)

Got-IsHeap : (n start p : ℕ) (bs : List Block) (h : Heap) → Got n start bs p h → IsHeap start h
Got-IsHeap n start p bs h g = IsHeap.running g.tiled g.ends
