-- ===== src/Cofs/Alloc/Scan.antt =====
-- The scan of one block of the bitmap finds a clear bit whenever there is one.
use c_osiris.Base.{
  ℕ, zero, suc, ◌+◌, ◌*◌, ◌/◌, ◌%◌, ◌≤◌, ◌<◌, ◌≡◌, ◌≢◌, inl, inr, refl, ap, ◌∙◌, Option, none, some,
  arith, ◌==◌, Bool-cases, ==_iff, all_below_sound, sym,
}
use mathlib.Core.Path.{subst}
use c_osiris.Base.Bits.{bit_at}
use c_osiris.Cofs.{Disk, word}
use c_osiris.Cofs.Alloc.{bit, scan_words, scan_bits, scan_from, scan_bitmap}

-- A byte is below 256.
abbrev pub IsBytes : Disk → Type 0
IsBytes d = (b k : ℕ) → d b k < 256

scan_bits-some :
    (n i : ℕ) (d : Disk) (b r : ℕ)
    → scan_bits n i d b ≡ some r
    → (i ≤ r) × (r < i + n) × (bit d b r ≡ 0)
unfolding scan_bits
scan_bits-some zero i d b r h = absurd (cc)
scan_bits-some (suc n) i d b r h = ground (arith, scan_bits-some n (i + 1) d b r)

scan_bits_none :
    (n i : ℕ) (d : Disk) (b k : ℕ) → scan_bits n i d b ≡ none → i ≤ k → k < i + n → bit d b k ≢ 0
unfolding scan_bits
scan_bits_none zero i d b k h p q = absurd (omega arith)
scan_bits_none (suc n) i d b k h p q = elim (Bool-cases (k == i)) [
  | inl same ↦ ground arith
  | inr other ↦ ground (arith, scan_bits_none n (i + 1) d b k)
]

scan_words-some :
    (n i : ℕ) (d : Disk) (b r : ℕ)
    → scan_words n i d b ≡ some r
    → (i ≤ r) × (r < i + n) × (word d b r ≢ 0xFFFFFFFF)
unfolding scan_words
scan_words-some zero i d b r h = absurd (cc)
scan_words-some (suc n) i d b r h = ground (arith, scan_words-some n (i + 1) d b r)

scan_words_none :
    (n i : ℕ) (d : Disk) (b k : ℕ)
    → scan_words n i d b ≡ none
    → i ≤ k
    → k < i + n
    → word d b k ≡ 0xFFFFFFFF
unfolding scan_words
scan_words_none zero i d b k h p q = absurd (omega arith)
scan_words_none (suc n) i d b k h p q = elim (Bool-cases (k == i)) [
  | inl same ↦ ground arith
  | inr other ↦ ground (arith, scan_words_none n (i + 1) d b k)
]

byte-full : (v : ℕ) → v < 256 → ((j : ℕ) → j < 8 → bit_at v j ≢ 0) → v ≡ 255
unfolding bit_at
byte-full v h all = omega (
  arith,
  all 0 (omega arith),
  all 1 (omega arith),
  all 2 (omega arith),
  all 3 (omega arith),
  all 4 (omega arith),
  all 5 (omega arith),
  all 6 (omega arith),
  all 7 (omega arith),
)

full-bit : (j : ℕ) → j < 8 → bit_at 255 j ≡ 1
unfolding bit_at
full-bit j h = (==_iff (bit_at 255 j) 1).0 (all_below_sound 8 (λ k. bit_at 255 k == 1) j refl h)

below4 : (P : ℕ → Type 0) → P 0 → P 1 → P 2 → P 3 → (j : ℕ) → j < 4 → P j
below4 P a b c d zero h = a
below4 P a b c d (suc zero) h = b
below4 P a b c d (suc (suc zero)) h = c
below4 P a b c d (suc (suc (suc zero))) h = d
below4 P a b c d (suc (suc (suc (suc j)))) h = absurd (omega arith)

byte-word-full :
    (d : Disk) (b i : ℕ)
    → IsBytes d
    → word d b i ≡ 0xFFFFFFFF
    → (j : ℕ) → j < 4
    → d b (4 * i + j) ≡ 255
unfolding word
byte-word-full d b i bytes h =
    let b0 = bytes b (4 * i) in
    let b1 = bytes b (4 * i + 1) in
    let b2 = bytes b (4 * i + 2) in
    let b3 = bytes b (4 * i + 3) in
    let e : 4 * i + 0 ≡ 4 * i = omega arith in
    below4 (λ j. d b (4 * i + j) ≡ 255) (ap (d b) e ∙ omega arith) (omega arith) (omega arith)
      (omega arith)

word-full :
    (d : Disk) (b i : ℕ)
    → IsBytes d
    → ((k : ℕ) → i * 32 ≤ k → k < i * 32 + 32 → bit d b k ≢ 0)
    → word d b i ≡ 0xFFFFFFFF
unfolding word bit
word-full d b i bytes h =
    let e : 4 * i ≡ 4 * i + 0 = omega arith in
    omega (
      arith,
      full 0 (omega arith),
      ap (d b) e,
      full 1 (omega arith),
      full 2 (omega arith),
      full 3 (omega arith),
    )
  where
    full : (j : ℕ) → j < 4 → d b (4 * i + j) ≡ 255
    full j lt = byte-full (d b (4 * i + j)) (bytes b (4 * i + j)) λ k low.
        let q : (i * 32 + 8 * j + k) / 8 ≡ 4 * i + j = omega arith in
        let r : (i * 32 + 8 * j + k) % 8 ≡ k = omega arith in
        subst (λ (n : ℕ). bit_at (d b n) k ≢ 0) q
          (subst (λ (n : ℕ). bit_at (d b ((i * 32 + 8 * j + k) / 8)) n ≢ 0) r
            (h (i * 32 + 8 * j + k) (omega arith) (omega arith)))

bit-word-full : (d : Disk) (b k : ℕ) → IsBytes d → word d b (k / 32) ≡ 0xFFFFFFFF → bit d b k ≢ 0
unfolding bit
bit-word-full d b k bytes h e =
    let o : 4 * (k / 32) + k / 8 % 4 ≡ k / 8 = omega arith in
    let v : d b (k / 8) ≡ 255 =
      ap (d b) (sym o) ∙ byte-word-full d b (k / 32) bytes h (k / 8 % 4) (omega arith) in
    omega (arith, full-bit (k % 8) (omega arith), ap (λ (w : ℕ). bit_at w (k % 8)) v, e)

scan_from-some :
    (o : Option ℕ) (d : Disk) (b r : ℕ)
    → ((s : ℕ) → o ≡ some s → s < 128)
    → scan_from o d b ≡ some r
    → (r < 4096) × (bit d b r ≡ 0)
unfolding scan_from
scan_from-some none d b r low h = absurd (cc)
scan_from-some (some s) d b r low h = omega (arith, low s refl, scan_bits-some 32 (s * 32) d b r h)

pub scan_bitmap-some :
    (d : Disk) (b r : ℕ) → scan_bitmap d b ≡ some r → (r < 4096) × (bit d b r ≡ 0)
unfolding scan_bitmap
scan_bitmap-some d b r h =
    scan_from-some (scan_words 128 0 d b) d b r
      (λ s e. omega (arith, scan_words-some 128 0 d b s e)) h

scan_from_none :
    (o : Option ℕ) (d : Disk) (b k : ℕ)
    → IsBytes d
    → scan_words 128 0 d b ≡ o
    → scan_from o d b ≡ none
    → k < 4096
    → bit d b k ≢ 0
unfolding scan_from
scan_from_none none d b k bytes e h lt =
    bit-word-full d b k bytes (scan_words_none 128 0 d b (k / 32) e (omega arith) (omega arith))
scan_from_none (some s) d b k bytes e h lt = absurd (
    (scan_words-some 128 0 d b s e).2
      (word-full d b s bytes λ j p q. scan_bits_none 32 (s * 32) d b j h p q))

pub scan_bitmap_none :
    (d : Disk) (b k : ℕ) → IsBytes d → scan_bitmap d b ≡ none → k < 4096 → bit d b k ≢ 0
unfolding scan_bitmap
scan_bitmap_none d b k bytes h lt = scan_from_none (scan_words 128 0 d b) d b k bytes refl h lt
