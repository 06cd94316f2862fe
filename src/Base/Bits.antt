-- ===== src/Base/Bits.antt =====
-- Single bits of a word: `(w >> j) & 1`, `w | 1 << j` and `w & ~(1 << j)`.
use native.Mathlib.Decide.{dec_lt}
use native.Mathlib.Nat.{div-eq_of_lt, pow-suc, div-div-eq-div-mul, mul_comm}
use c_osiris.Base.Tests.{◌==◌, if◌then◌else◌}
use Prim.Native.Nat.{ℕ, zero, suc, ◌+◌, ◌-◌, ◌*◌, ◌/◌, ◌%◌, ◌^◌, ◌≤◌, ◌<◌}
use mathlib.Core.Path.{◌≡◌, refl, sym, ap, ◌∙◌}
use mathlib.Core.Logic.{◌≢◌}
use native.Mathlib.Omega.{arith}

unfoldable pub bit_at : ℕ → ℕ → ℕ
bit_at w j = w / 2 ^ j % 2

unfoldable pub set_bit : ℕ → ℕ → ℕ
unfolding bit_at
set_bit w j = if bit_at w j == 0 then w + 2 ^ j else w

unfoldable pub clear_bit : ℕ → ℕ → ℕ
unfolding bit_at
clear_bit w j = if bit_at w j == 0 then w else w - 2 ^ j

-- The recursion from the lowest bit up.
bit_at-zero : (w : ℕ) → bit_at w 0 ≡ w % 2
unfolding bit_at
bit_at-zero w = omega arith

bit_at-suc : (w j : ℕ) → bit_at w (suc j) ≡ bit_at (w / 2) j
unfolding bit_at
bit_at-suc w j =
    ap (λ (k : ℕ). w / k % 2) (pow-suc 2 j ∙ mul_comm (2 ^ j) 2)
    ∙ ap (λ (k : ℕ). k % 2) (sym (div-div-eq-div-mul w 2 (2 ^ j)))

set_bit-suc : (w j : ℕ) → set_bit w (suc j) ≡ set_bit (w / 2) j * 2 + w % 2
unfolding set_bit
set_bit-suc w j = ground (arith, bit_at-suc w j, pow-suc 2 j)

pow-le_of_bit : (w j : ℕ) → bit_at w j ≢ 0 → 2 ^ j ≤ w
unfolding bit_at
pow-le_of_bit w j h = elim (dec_lt w (2 ^ j)) [
  | yes lt ↦ absurd (h (ap (λ (k : ℕ). k % 2) (div-eq_of_lt lt)))
  | no ge ↦ omega arith
]

clear_bit-suc : (w j : ℕ) → clear_bit w (suc j) ≡ clear_bit (w / 2) j * 2 + w % 2
unfolding clear_bit
clear_bit-suc w j = ground (arith, bit_at-suc w j, pow-suc 2 j, pow-le_of_bit (w / 2) j)

pub bit_at-lt : (w j : ℕ) → bit_at w j < 2
unfolding bit_at
bit_at-lt w j = omega arith

set_bit-zero : (w : ℕ) → set_bit w 0 ≡ w / 2 * 2 + 1
unfolding set_bit
set_bit-zero w = ground (arith, bit_at-zero w)

clear_bit-zero : (w : ℕ) → clear_bit w 0 ≡ w / 2 * 2
unfolding clear_bit
clear_bit-zero w = ground (arith, bit_at-zero w)

-- `w | 1 << j` sets bit `j`.
pub bit_at-set_bit_self : (w j : ℕ) → bit_at (set_bit w j) j ≡ 1
bit_at-set_bit_self w zero = omega (arith, set_bit-zero w, bit_at-zero (set_bit w 0))
bit_at-set_bit_self w (suc j) =
    bit_at-suc (set_bit w (suc j)) j
    ∙ ap (λ (k : ℕ). bit_at k j) (omega (arith, set_bit-suc w j))
    ∙ bit_at-set_bit_self (w / 2) j

-- It leaves every other bit.
pub bit_at-set_bit_ne : (w j k : ℕ) → j ≢ k → bit_at (set_bit w j) k ≡ bit_at w k
bit_at-set_bit_ne w zero zero h = absurd (h refl)
bit_at-set_bit_ne w zero (suc k) h =
    bit_at-suc (set_bit w 0) k
    ∙ ap (λ (n : ℕ). bit_at n k) (omega (arith, set_bit-zero w))
    ∙ sym (bit_at-suc w k)
bit_at-set_bit_ne w (suc j) zero h =
    omega (arith, bit_at-zero (set_bit w (suc j)), bit_at-zero w, set_bit-suc w j)
bit_at-set_bit_ne w (suc j) (suc k) h =
    bit_at-suc (set_bit w (suc j)) k
    ∙ ap (λ (n : ℕ). bit_at n k) (omega (arith, set_bit-suc w j))
    ∙ bit_at-set_bit_ne (w / 2) j k (λ e. h (ap suc e))
    ∙ sym (bit_at-suc w k)

-- `w & ~(1 << j)` clears bit `j`.
pub bit_at-clear_bit_self : (w j : ℕ) → bit_at (clear_bit w j) j ≡ 0
bit_at-clear_bit_self w zero = omega (arith, clear_bit-zero w, bit_at-zero (clear_bit w 0))
bit_at-clear_bit_self w (suc j) =
    bit_at-suc (clear_bit w (suc j)) j
    ∙ ap (λ (k : ℕ). bit_at k j) (omega (arith, clear_bit-suc w j))
    ∙ bit_at-clear_bit_self (w / 2) j

-- It leaves every other bit.
pub bit_at-clear_bit_ne : (w j k : ℕ) → j ≢ k → bit_at (clear_bit w j) k ≡ bit_at w k
bit_at-clear_bit_ne w zero zero h = absurd (h refl)
bit_at-clear_bit_ne w zero (suc k) h =
    bit_at-suc (clear_bit w 0) k
    ∙ ap (λ (n : ℕ). bit_at n k) (omega (arith, clear_bit-zero w))
    ∙ sym (bit_at-suc w k)
bit_at-clear_bit_ne w (suc j) zero h =
    omega (arith, bit_at-zero (clear_bit w (suc j)), bit_at-zero w, clear_bit-suc w j)
bit_at-clear_bit_ne w (suc j) (suc k) h =
    bit_at-suc (clear_bit w (suc j)) k
    ∙ ap (λ (n : ℕ). bit_at n k) (omega (arith, clear_bit-suc w j))
    ∙ bit_at-clear_bit_ne (w / 2) j k (λ e. h (ap suc e))
    ∙ sym (bit_at-suc w k)
