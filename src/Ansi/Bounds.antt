-- ===== src/Ansi/Bounds.antt =====
-- The counter of a sequence stays within `max_chars`, and the second number cannot overflow.
use c_osiris.Base.{
  ℕ, zero, suc, ◌+◌, ◌-◌, ◌*◌, ◌^◌, ◌≤◌, ◌<◌, ◌≡◌, arith, true, leb, Bool-cases, inl, inr, ltb, ◌%◌,
  refl, all_below_sound,
}
use native.Mathlib.Nat.{pow-suc}
use c_osiris.Ansi.{
  Stat, Ansi, none, in_esc, in_bra, in_num1, in_num2, in_fin, max_chars, is_final, advance,
  transition, switch,
}

-- What each status says of the second number, of the final character and of the counter.
abbrev pub Bounds : Stat → ℕ → ℕ → ℕ → Type 0
Bounds none n2 c1 cnt = (cnt ≡ 0) × (n2 < 10000000)
Bounds in_esc n2 c1 cnt = (cnt ≤ 1) × (n2 < 10000000)
Bounds in_bra n2 c1 cnt = (1 ≤ cnt) × (cnt ≤ 2) × (n2 < 10000000)
Bounds in_num1 n2 c1 cnt = (2 ≤ cnt) × (cnt ≤ max_chars) × (n2 < 10000000)
Bounds in_num2 n2 c1 cnt = (3 ≤ cnt) × (cnt ≤ max_chars) × (n2 < 10 ^ (cnt - 3))
Bounds in_fin n2 c1 cnt = (cnt ≤ max_chars) × (is_final c1 ≡ true) × (n2 < 10000000)

abbrev pub IsBounded : Ansi → Type 0
IsBounded st = Bounds st.stat st.n2 st.c1 st.cnt

-- The same between the count and the transition.
abbrev Counted : Stat → ℕ → ℕ → Type 0
Counted none n2 cnt = (cnt ≤ 1) × (n2 < 10000000)
Counted in_esc n2 cnt = (1 ≤ cnt) × (cnt ≤ 2) × (n2 < 10000000)
Counted in_bra n2 cnt = (2 ≤ cnt) × (cnt ≤ 3) × (n2 < 10000000)
Counted in_num1 n2 cnt = (3 ≤ cnt) × (cnt ≤ max_chars) × (n2 < 10000000)
Counted in_num2 n2 cnt = (4 ≤ cnt) × (cnt ≤ max_chars) × (n2 < 10 ^ (cnt - 4))
Counted in_fin n2 cnt = ⊥

abbrev IsCounted : Ansi → Type 0
IsCounted st = Counted st.stat st.n2 st.cnt

abbrev pub machine : Stat → ℕ → ℕ → ℕ → ℕ → ℕ → Ansi
machine s n1 n2 c1 c2 cnt = record { stat = s; n1 = n1; n2 = n2; c1 = c1; c2 = c2; cnt = cnt }

pow-step : (cnt : ℕ) → 4 ≤ cnt → 10 ^ (cnt - 3) ≡ 10 ^ (cnt - 4) * 10
pow-step cnt h = let e : cnt - 3 ≡ suc (cnt - 4) = omega arith in rw (e, pow-suc 10 (cnt - 4))

pow-pos : (k : ℕ) → 0 < 10 ^ k
pow-pos zero = omega arith
pow-pos (suc k) = omega (arith, pow-pos k, pow-suc 10 k)

pow-small : (k : ℕ) → k < 8 → leb (10 ^ k) 10000000 ≡ true
pow-small k h = all_below_sound 8 (λ j. leb (10 ^ j) 10000000) k refl h

advance-IsCounted :
    (s : Stat) (n1 n2 c1 c2 cnt : ℕ)
    → Bounds s n2 c1 cnt
    → IsCounted (advance (machine s n1 n2 c1 c2 cnt))
unfolding advance
advance-IsCounted none n1 n2 c1 c2 cnt v = ground arith
advance-IsCounted in_esc n1 n2 c1 c2 cnt v = ground arith
advance-IsCounted in_bra n1 n2 c1 c2 cnt v = ground arith
advance-IsCounted in_num1 n1 n2 c1 c2 cnt v = ground arith
advance-IsCounted in_num2 n1 n2 c1 c2 cnt v = elim (Bool-cases (ltb 10 ((cnt + 1) % 256))) [
  | inl over ↦ rw over (omega arith)
  | inr fine ↦
      let e : (cnt + 1) % 256 ≡ cnt + 1 = omega arith in
      let d : (cnt + 1) % 256 - 4 ≡ cnt - 3 = omega arith in
      rw fine (omega arith, ground arith, rw d v.2)
]
advance-IsCounted in_fin n1 n2 c1 c2 cnt v = omega arith

transition-IsBounded :
    (s : Stat) (n1 n2 c1 c2 cnt c : ℕ)
    → Counted s n2 cnt
    → IsBounded (transition (machine s n1 n2 c1 c2 cnt) c)
unfolding transition
transition-IsBounded none n1 n2 c1 c2 cnt c v = ground arith
transition-IsBounded in_esc n1 n2 c1 c2 cnt c v = ground arith
transition-IsBounded in_bra n1 n2 c1 c2 cnt c v = ground arith
transition-IsBounded in_num1 n1 n2 c1 c2 cnt c v = ground (arith, pow-pos (cnt - 3))
transition-IsBounded in_num2 n1 n2 c1 c2 cnt c v = ground (arith, pow-step cnt, pow-small (cnt - 4))
transition-IsBounded in_fin n1 n2 c1 c2 cnt c v = absurd v

-- Each character keeps these bounds: the counter stays within `max_chars`, a finished sequence ends
-- with a letter or a tilde, and the second number is below 10 ^ 7 in every status, also where a
-- sequence that was broken off has left it.
pub switch-IsBounded : (st : Ansi) (c : ℕ) → IsBounded st → IsBounded (switch st c)
unfolding switch
switch-IsBounded st c v =
    let a = advance st in
    transition-IsBounded a.stat a.n1 a.n2 a.c1 a.c2 a.cnt c
      (advance-IsCounted st.stat st.n1 st.n2 st.c1 st.c2 st.cnt v)
