-- ===== src/Base/Words.antt =====
-- Unsigned machine words as native numbers: every operation wraps by `%`.
use Prim.Native.Nat.{ℕ, ◌+◌, ◌-◌, ◌*◌, ◌/◌, ◌%◌, ◌^◌, ◌<◌}
use mathlib.Core.Path.{◌≡◌, sym, ap, ◌∙◌}
use mathlib.Core.Logic.{◌≢◌}
use native.Mathlib.Decide.{dec_lt}
use native.Mathlib.Nat.{
  add-mul-mod_self_left, div-add-mod, mod-add-mod, mod-eq_of_lt, mod-eq-sub-mod, mod-lt,
}
use native.Mathlib.Omega.{arith}

abbrev pub u32_mod : ℕ
u32_mod = 2 ^ 32

-- `uint32_t` addition and subtraction.
abbrev pub add32 : ℕ → ℕ → ℕ
add32 a b = (a + b) % u32_mod

abbrev pub sub32 : ℕ → ℕ → ℕ
sub32 a b = (a + u32_mod - b) % u32_mod

-- A remainder by a multiple of `n`, and then by `n`.
pub mod-mod_mul : (x m n : ℕ) → (x % (m * n)) % n ≡ x % n
mod-mod_mul x m n =
    sym (add-mul-mod_self_left (x % (m * n)) n (m * (x / (m * n))))
    ∙ ap (λ (k : ℕ). k % n) (omega (arith, div-add-mod x (m * n)))

-- A step of less than a whole turn does not come back to where it began.
pub add-mod-ne : (t d n : ℕ) → 0 < d → d < n → (t + d) % n ≢ t % n
add-mod-ne t d n p q e = elim (dec_lt (t % n + d) n) [
  | yes lt ↦ omega (arith, mod-add-mod t n d, mod-eq_of_lt lt)
  | no ge ↦ omega (
    arith,
    mod-lt t {m = n} (omega arith),
    mod-add-mod t n d,
    mod-eq-sub-mod {n = t % n + d} {m = n} (omega arith),
    mod-eq_of_lt {n = t % n + d - n} {m = n} (omega (arith, mod-lt t {m = n} (omega arith))),
  )
]
