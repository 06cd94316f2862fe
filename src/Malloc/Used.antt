-- ===== src/Malloc/Used.antt =====
-- `free` gives a block back.
use c_osiris.Base.{
  ℕ, ◌+◌, ◌<◌, ◌≡◌, ◌⊎◌, inl, inr, refl, sym, ap, ◌∙◌, Bool, true, false, some, List, [], ◌∷◌,
  arith, ◌==◌, if◌then◌else◌, Bool-cases,
}
use mathlib.Core.Path.{subst}
use c_osiris.Malloc.{Block, meta, data_of, join_next, join_prev}
use c_osiris.Malloc.Tiled.{AreTiled, EndsFree, EndsFree-cons, used, used_free, used_busy}

-- The blocks but the one with an address.
unfoldable pub without : ℕ → List Block → List Block
without ptr [] = []
without ptr (b ∷ bs) = let rest = without ptr bs in if data_of b == ptr then rest else b ∷ rest

-- The list from a freed block on.
pub record Freed (start end : ℕ) (rest bs : List Block) : Type 0 where
  pub tiled : AreTiled start bs end
  pub ends : EndsFree bs
  pub keeps : used bs ≡ rest

ends_behind :
    (b c : Block) (bs : List Block) → b.free ≡ true → EndsFree (c ∷ bs) → EndsFree (b ∷ bs)
unfolding EndsFree
ends_behind b c [] e h = e
ends_behind b c (d ∷ bs) e h = h

-- Two neighbours become one block.
join-Freed :
    (start end : ℕ) (b c : Block) (bs : List Block)
    → b.free ≡ true
    → c.free ≡ true
    → AreTiled start (b ∷ c ∷ bs) end
    → EndsFree (c ∷ bs)
    → Freed start end (used (c ∷ bs)) (record b { size = b.size + (c.size + meta) } ∷ bs)
unfolding AreTiled
join-Freed start end b c bs e f t ends =
    let b' = record b { size = b.size + (c.size + meta) } in
    let is : data_of c + c.size ≡ data_of b + (b.size + (c.size + meta)) = omega (arith, t.1.0) in
    record {
      tiled = (t.0, subst (λ (k : ℕ). AreTiled k bs end) is t.1.1);
      ends = ends_behind b' c bs e ends;
      keeps = used_free b' bs e ∙ sym (used_free c bs f);
    }

pub next-Freed :
    (start end : ℕ) (b : Block) (bs : List Block)
    → b.free ≡ true
    → AreTiled start (b ∷ bs) end
    → (bs ≡ []) ⊎ EndsFree bs
    → Freed start end (used bs) (join_next b bs)
unfolding EndsFree used join_next
next-Freed start end b [] e t ends = record { tiled = t; ends = e; keeps = used_free b [] e }
next-Freed start end b (c ∷ bs) e t (inl h) = absurd (cc)
next-Freed start end b (c ∷ bs) e t (inr ends) = elim (Bool-cases c.free) [
  | inr f ↦
      subst
        (λ (x : Bool).
          Freed start end (used (c ∷ bs))
            (if x then record b { size = b.size + (c.size + meta) } ∷ bs else b ∷ c ∷ bs))
        (sym f) (record { tiled = t; ends = ends; keeps = used_free b (c ∷ bs) e })
  | inl f ↦
      subst
        (λ (x : Bool).
          Freed start end (used (c ∷ bs))
            (if x then record b { size = b.size + (c.size + meta) } ∷ bs else b ∷ c ∷ bs))
        (sym f) (join-Freed start end b c bs e f t ends)
]

-- `join_next` leaves a list whose first block is the freed one.
pub next_first :
    (b : Block) (bs : List Block)
    → (c : Block) × (cs : List Block) × (join_next b bs ≡ c ∷ cs) × (c.free ≡ b.free)
unfolding join_next
next_first b [] = (b, [], refl, refl)
next_first b (c ∷ bs) = elim (Bool-cases c.free) [
  | inl e ↦ (
    record b { size = b.size + (c.size + meta) },
    bs,
    ap (λ (x : Bool). if x then record b { size = b.size + (c.size + meta) } ∷ bs else b ∷ c ∷ bs)
        e,
    refl,
  )
  | inr e ↦ (
    b,
    c ∷ bs,
    ap (λ (x : Bool). if x then record b { size = b.size + (c.size + meta) } ∷ bs else b ∷ c ∷ bs)
        e,
    refl,
  )
]

pub prev-Freed :
    (start end : ℕ) (p c : Block) (cs rest : List Block)
    → p.at ≡ start
    → c.free ≡ true
    → Freed (data_of p + p.size) end rest (c ∷ cs)
    → Freed start end (if p.free then rest else p ∷ rest) (join_prev (some p) (c ∷ cs))
unfolding join_prev AreTiled
prev-Freed start end p c cs rest at e g = elim (Bool-cases p.free) [
  | inl f ↦
      subst
        (λ (x : Bool).
          Freed start end (if x then rest else p ∷ rest)
            (if x then record p { size = p.size + (c.size + meta) } ∷ cs else p ∷ c ∷ cs))
        (sym f)
        (let j = join-Freed start end p c cs f e (at, g.tiled) g.ends in
          record { tiled = j.tiled; ends = j.ends; keeps = j.keeps ∙ g.keeps })
  | inr f ↦
      subst
        (λ (x : Bool).
          Freed start end (if x then rest else p ∷ rest)
            (if x then record p { size = p.size + (c.size + meta) } ∷ cs else p ∷ c ∷ cs))
        (sym f)
        (record {
          tiled = (at, g.tiled);
          ends = EndsFree-cons p (c ∷ cs) g.ends;
          keeps = used_busy p (c ∷ cs) f ∙ ap (λ (l : List Block). p ∷ l) g.keeps;
        })
]

-- The blocks behind an address have others.
pub without_low :
    (ptr start end : ℕ) (bs : List Block)
    → AreTiled start bs end
    → ptr < start + meta
    → without ptr (used bs) ≡ used bs
unfolding AreTiled used without
without_low ptr start end [] t h = refl
without_low ptr start end (b ∷ bs) t h =
    let rest = without_low ptr (data_of b + b.size) end bs t.1 (omega (arith, t.0)) in
    elim (Bool-cases b.free) [
      | inl f ↦ ap (without ptr) (used_free b bs f) ∙ rest ∙ sym (used_free b bs f)
      | inr f ↦
          let ne : (data_of b == ptr) ≡ false = ground (arith, t.0) in
          ap (without ptr) (used_busy b bs f)
          ∙ ap (λ (x : Bool). if x then without ptr (used bs) else b ∷ without ptr (used bs)) ne
          ∙ ap (λ (l : List Block). b ∷ l) rest
          ∙ sym (used_busy b bs f)
    ]
