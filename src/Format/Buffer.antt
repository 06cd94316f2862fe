-- ===== src/Format/Buffer.antt =====
-- What the buffer of lib/vsnprintf.c holds behind a text: as much of it as is below the limit.
use c_osiris.Base.{
  ℕ, zero, suc, ◌+◌, ◌≤◌, ◌<◌, ◌≡◌, ◌≢◌, ◌⊎◌, inl, inr, refl, sym, ap, ◌∙◌, List, [], ◌∷◌, length,
  get_or, arith, length-set, get_or-set_self, get_or-set_ne, eq-cases,
}
use c_osiris.Base.Words.{u32_mod}
use c_osiris.Format.{Out, bputc, put_all}

-- The buffer holds the text from a place on, as far as the limit, and is as before elsewhere.
pub record Holds (limit : ℕ) (ts : List ℕ) (o o' : Out) : Type 0 where
  pub moved : o'.place ≡ o.place + length ts
  pub sized : length o'.buf ≡ length o.buf
  pub inside :
      (i : ℕ) → i < length ts → o.place + i < limit → get_or o'.buf (o.place + i) 0 ≡ get_or ts i 0
  pub outside :
      (j : ℕ)
      → (j < o.place) ⊎ ((o.place + length ts ≤ j) ⊎ (limit ≤ j))
      → get_or o'.buf j 0 ≡ get_or o.buf j 0

bputc-inside :
    (limit c : ℕ) (o : Out)
    → limit ≤ length o.buf
    → o.place < limit
    → get_or (bputc limit c o).buf o.place 0 ≡ c
unfolding bputc
bputc-inside limit c o room lt =
    let at = get_or-set_self o.buf o.place c 0 (omega arith) in ground (arith, at)

bputc-outside :
    (limit c : ℕ) (o : Out) (j : ℕ)
    → (j ≢ o.place) ⊎ (limit ≤ j)
    → get_or (bputc limit c o).buf j 0 ≡ get_or o.buf j 0
unfolding bputc
bputc-outside limit c o j (inl ne) =
    let at = get_or-set_ne o.buf o.place j c 0 (λ e. ne (sym e)) in ground (arith, at)
bputc-outside limit c o j (inr le) = elim (eq-cases o.place j) [
  | inl e ↦ ground arith
  | inr ne ↦ let at = get_or-set_ne o.buf o.place j c 0 ne in ground (arith, at)
]

length-bputc : (limit c : ℕ) (o : Out) → length (bputc limit c o).buf ≡ length o.buf
unfolding bputc
length-bputc limit c o = ground (arith, length-set o.buf o.place c)

place-bputc :
    (limit c : ℕ) (o : Out) → o.place + 1 < u32_mod → (bputc limit c o).place ≡ o.place + 1
unfolding bputc
place-bputc limit c o low = omega arith

-- A text written to a buffer with room for the limit, and with fewer than 2 ^ 32 characters so far.
pub put_all-Holds :
    (limit : ℕ) (ts : List ℕ) (o : Out)
    → limit ≤ length o.buf
    → o.place + length ts < u32_mod
    → Holds limit ts o (put_all limit ts o)
unfolding put_all
put_all-Holds limit [] o room low = record {
  moved = omega arith;
  sized = refl;
  inside = λ i lt below. absurd (omega arith);
  outside = λ j away. refl;
}
put_all-Holds limit (c ∷ ts) o room low =
    let p : Out = bputc limit c o in
    let size : length p.buf ≡ length o.buf = length-bputc limit c o in
    let at : p.place ≡ o.place + 1 = place-bputc limit c o (omega arith) in
    let more = put_all-Holds limit ts p (omega (arith, size)) (omega (arith, at)) in
    record {
      moved = omega (arith, at, more.moved);
      sized = more.sized ∙ size;
      inside = go at more;
      outside = λ j away.
          more.outside j (elim away [
            | inl a ↦ inl (omega arith)
            | inr (inl b) ↦ inr (inl (omega arith))
            | inr (inr d) ↦ inr (inr d)
          ])
          ∙ bputc-outside limit c o j (elim away [
            | inl a ↦ inl (λ e. omega arith)
            | inr (inl b) ↦ inl (λ e. omega arith)
            | inr (inr d) ↦ inr d
          ]);
    }
  where
    go :
        (bputc limit c o).place ≡ o.place + 1
        → Holds limit ts (bputc limit c o) (put_all limit ts (bputc limit c o))
        → (i : ℕ) → i < suc (length ts)
        → o.place + i < limit
        → get_or (put_all limit ts (bputc limit c o)).buf (o.place + i) 0 ≡ get_or (c ∷ ts) i 0
    go at more zero lt below =
        let e : o.place + 0 ≡ o.place = omega arith in
        ap (λ j. get_or (put_all limit ts (bputc limit c o)).buf j 0) e
        ∙ more.outside o.place (inl (omega arith))
        ∙ bputc-inside limit c o room (omega arith)
    go at more (suc i) lt below =
        let e : o.place + suc i ≡ (bputc limit c o).place + i = omega arith in
        ap (λ j. get_or (put_all limit ts (bputc limit c o)).buf j 0) e
        ∙ more.inside i (omega arith) (omega arith)
