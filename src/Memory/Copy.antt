-- ===== src/Memory/Copy.antt =====
-- What the copies leave in memory, overlapping blocks included.
use c_osiris.Base.{
  ℕ, zero, suc, ◌+◌, ◌-◌, ◌≤◌, ◌<◌, ◌≡◌, ◌≢◌, ◌⊎◌, ◌↔◌, inl, inr, refl, sym, ap, ◌∙◌, arith,
  Bool-cases, ==_iff, ltb, leb, ◌==◌,
}
use c_osiris.Base.Ints.{pos}
use c_osiris.Memory.{Mem, write, copy_up, copy_down, memmove, schar, char_diff, memcmp}

write_self : (m : Mem) (a v : ℕ) → write m a v a ≡ v
write_self m a v = ground arith

write-ne : (m : Mem) (a v b : ℕ) → b ≢ a → write m a v b ≡ m b
write-ne m a v b ne = ground arith

-- The address is not in the block of `n` bytes at `d`.
abbrev pub Outside : ℕ → ℕ → ℕ → Type 0
Outside d n a = (a < d) ⊎ (d + n ≤ a)

-- `m'` is `m` with the `n` bytes at `s`, as they were, in the block at `d`.
pub record Copied (d s n : ℕ) (m m' : Mem) : Type 0 where
  pub inside : (k : ℕ) → k < n → m' (d + k) ≡ m (s + k)
  pub outside : (a : ℕ) → Outside d n a → m' a ≡ m a

copy_up-Copied : (n d s : ℕ) (m : Mem) → d ≤ s → Copied d s n m (copy_up d s n m)
unfolding copy_up
copy_up-Copied zero d s m le = record {
  inside = λ k lt. absurd (omega arith);
  outside = λ a o. refl;
}
copy_up-Copied (suc n) d s m le =
    let m1 = write m d (m s) in
    let rest = copy_up-Copied n (d + 1) (s + 1) m1 (omega arith) in
    record {
      inside = λ k lt. elim (Bool-cases (k == 0)) [
        | inl first ↦
            let e : k ≡ 0 = ground arith in
            ap (copy_up (d + 1) (s + 1) n m1) (omega arith)
            ∙ rest.outside d (inl (omega arith))
            ∙ write_self m d (m s)
            ∙ ap m (omega arith)
        | inr later ↦
            let lt' : k - 1 < n = ground arith in
            ap (copy_up (d + 1) (s + 1) n m1) (ground arith)
            ∙ rest.inside (k - 1) lt'
            ∙ write-ne m d (m s) (s + 1 + (k - 1)) (omega arith)
            ∙ ap m (ground arith)
      ];
      outside = λ a o.
          rest.outside a (elim o [ inl l ↦ inl (omega arith) | inr g ↦ inr (omega arith) ])
          ∙ write-ne m d (m s) a (elim o [ inl l ↦ omega arith | inr g ↦ omega arith ]);
    }

copy_down-Copied : (n d s : ℕ) (m : Mem) → s ≤ d → Copied d s n m (copy_down d s n m)
unfolding copy_down
copy_down-Copied zero d s m le = record {
  inside = λ k lt. absurd (omega arith);
  outside = λ a o. refl;
}
copy_down-Copied (suc n) d s m le =
    let m1 = write m (d + n) (m (s + n)) in
    let rest = copy_down-Copied n d s m1 le in
    record {
      inside = λ k lt. elim (Bool-cases (k == n)) [
        | inl last ↦
            let e : k ≡ n = ground arith in
            ap (λ j. copy_down d s n m1 (d + j)) e
            ∙ rest.outside (d + n) (inr (omega arith))
            ∙ write_self m (d + n) (m (s + n))
            ∙ ap (λ j. m (s + j)) (sym e)
        | inr early ↦
            let lt' : k < n = ground arith in
            rest.inside k lt' ∙ write-ne m (d + n) (m (s + n)) (s + k) (omega arith)
      ];
      outside = λ a o.
          rest.outside a (elim o [ inl l ↦ inl l | inr g ↦ inr (omega arith) ])
          ∙ write-ne m (d + n) (m (s + n)) a (elim o [ inl l ↦ omega arith | inr g ↦ omega arith ]);
    }

-- `memmove` copies the bytes of the source as they were before, however the two blocks overlap, and
-- changes no byte outside the destination.
pub memmove-Copied : (d s n : ℕ) (m : Mem) → Copied d s n m (memmove d s n m)
unfolding memmove
memmove-Copied d s n m = elim (Bool-cases (ltb d s)) [
  | inl up ↦ rw up (copy_up-Copied n d s m (ground arith))
  | inr down ↦ rw down (copy_down-Copied n d s m (ground arith))
]

pub char_diff_zero : (a b : ℕ) → a < 256 → b < 256 → char_diff a b ≡ pos 0 → a ≡ b
char_diff_zero a b p q = elim (Bool-cases (leb (schar b) (schar a))) [
  | inl ge ↦ rw ge (λ h. ground arith)
  | inr lt ↦ rw lt (λ h. absurd (cc))
]

-- `memcmp` is 0 exactly for two blocks with the same bytes.
pub memcmp_lem :
    (n p q : ℕ) (m : Mem)
    → ((a : ℕ) → m a < 256)
    → memcmp p q n m ≡ pos 0 ↔ ((k : ℕ) → k < n → m (p + k) ≡ m (q + k))
unfolding memcmp
memcmp_lem zero p q m v = ((λ h k lt. absurd (omega arith)), (λ h. refl))
memcmp_lem (suc n) p q m v =
    let rest = memcmp_lem n (p + 1) (q + 1) m v in
    elim (Bool-cases (m p == m q)) [
      | inl same ↦ rw same (
        (λ h k lt. elim (Bool-cases (k == 0)) [
          | inl first ↦
              let a : p + k ≡ p = ground arith in
              let b : q ≡ q + k = ground arith in ap m a ∙ (==_iff (m p) (m q)).0 same ∙ ap m b
          | inr later ↦
              let a : p + k ≡ p + 1 + (k - 1) = ground arith in
              let b : q + 1 + (k - 1) ≡ q + k = ground arith in
              ap m a ∙ rest.0 h (k - 1) (ground arith) ∙ ap m b
        ]),
        (λ h. rest.1 (λ k lt.
            let a : p + 1 + k ≡ p + suc k = omega arith in
            let b : q + suc k ≡ q + 1 + k = omega arith in
            ap m a ∙ h (suc k) (omega arith) ∙ ap m b)),
      )
      | inr other ↦ rw other (
        (λ h. absurd (ground (arith, char_diff_zero (m p) (m q) (v p) (v q) h))),
        (λ h.
            let a : p ≡ p + 0 = omega arith in
            let b : q + 0 ≡ q = omega arith in
            let eq : m p ≡ m q = ap m a ∙ h 0 (omega arith) ∙ ap m b in absurd (ground arith)),
      )
    ]
