-- ===== src/Net/Ip/Checksum.antt =====
-- The checksum of a buffer that holds its own checksum is zero.
use c_osiris.Base.{
  ℕ, ◌+◌, ◌-◌, ◌*◌, ◌%◌, ◌≤◌, ◌<◌, ◌≡◌, ap, ◌∙◌, List, [], ◌∷◌, ◌++◌, arith, length,
}
use native.Mathlib.Nat.{mod-eq_of_lt}
use c_osiris.Base.Words.{u32_mod, add32}
use c_osiris.Net.Ip.{sum_words, fold, ip_csum}

-- The words of a buffer: each below 2^16.
abbrev pub AreWords : List ℕ → Type 0
AreWords [] = Unit {0}
AreWords (w ∷ ws) = (w < 65536) × AreWords ws

-- The sum without wrap-around.
abbrev pub total : List ℕ → ℕ
total [] = 0
total (w ∷ ws) = w + total ws

total-bound : (ws : List ℕ) → AreWords ws → total ws ≤ length ws * 65535
total-bound [] v = omega arith
total-bound (w ∷ ws) v = omega (arith, total-bound ws v.1, v.0)

-- A buffer of at most 65536 words does not wrap around.
sum_words_lem : (s : ℕ) (ws : List ℕ) → s + total ws < u32_mod → sum_words s ws ≡ s + total ws
unfolding sum_words
sum_words_lem s [] h = omega arith
sum_words_lem s (w ∷ ws) h =
    let same : add32 s w ≡ s + w = mod-eq_of_lt (omega arith) in
    rw same (omega (arith, sum_words_lem (s + w) ws (omega arith)))

-- Two rounds leave 16 bits, keep the remainder by 2^16 - 1, and give 0 only for 0.
fold_lem :
    (s : ℕ)
    → s < u32_mod
    → fold 2 s < 65536 × (fold 2 s % 65535 ≡ s % 65535 × (fold 2 s ≡ 0 → s ≡ 0))
unfolding fold
fold_lem s h = ground arith

-- The sum with the complement of the folded sum added folds to 2^16 - 1.
fold_complement :
    (s c : ℕ) → s + 65535 < u32_mod → c ≡ 65535 - fold 2 s → 65535 - fold 2 (s + c) ≡ 0
fold_complement s c h e = ground (arith, fold_lem s (omega arith), fold_lem (s + c) (omega arith))

total-insert :
    (before : List ℕ) (w : ℕ) (after : List ℕ)
    → total (before ++ (w ∷ after)) ≡ total (before ++ (0 ∷ after)) + w
total-insert [] w after = omega arith
total-insert (v ∷ before) w after = omega (arith, total-insert before w after)

-- A packet whose checksum field, zero while the sum is formed and anywhere among the words, is filled
-- with `ip_csum` of them passes the receiver's test: for at most 65535 words of 16 bits, `ip_csum` of
-- the words with the checksum in its field is zero.
pub ip_csum-filled :
    (before after : List ℕ)
    → AreWords (before ++ (0 ∷ after))
    → length (before ++ (0 ∷ after)) ≤ 65535
    → ip_csum (before ++ (ip_csum (before ++ (0 ∷ after)) ∷ after)) ≡ 0
unfolding ip_csum
ip_csum-filled before after v le =
    let ws = before ++ (0 ∷ after) in
    let below : total ws + 65535 < u32_mod = omega (arith, total-bound ws v) in
    let first : sum_words 0 ws ≡ total ws = omega (arith, sum_words_lem 0 ws (omega arith)) in
    let c = ip_csum ws in
    let all = before ++ (c ∷ after) in
    let second : sum_words 0 all ≡ total ws + c = omega (
      arith,
      total-insert before c after,
      sum_words_lem 0 all (omega (arith, total-insert before c after)),
    ) in
    ap (λ s. 65535 - fold 2 s) second
    ∙ fold_complement (total ws) c below (ap (λ s. 65535 - fold 2 s) first)
