-- ===== src/Bmap/Alloc.antt =====
-- A bit that is handed out was clear, and is then the only one that has changed.
use c_osiris.Base.{
  ℕ, zero, suc, ◌+◌, ◌-◌, ◌*◌, ◌/◌, ◌%◌, ◌^◌, ◌≤◌, ◌<◌, ◌≡◌, ◌≢◌, ◌⊎◌, inl, inr, refl, ap, ◌∙◌,
  true, false, Option, none, some, List, arith, ◌==◌, if◌then◌else◌, Bool-cases, Option-cases,
  ==_iff, le→leb, lt→not_leb, all_below_sound, length, get_or, set, length-set, get_or-set_self,
  get_or-set_ne,
}
use native.Mathlib.Decide.{dec_lt}
use c_osiris.Base.Bits.{
  bit_at, set_bit, clear_bit, bit_at-lt, bit_at-set_bit_self, bit_at-set_bit_ne,
  bit_at-clear_bit_self, bit_at-clear_bit_ne,
}
use c_osiris.Bmap.{Bmap, scan_word, scan_words, scan_range, retry, get_free, free}

-- Bit `k` of the map.
pub bit : Bmap → ℕ → ℕ
bit b k = bit_at (get_or b.words (k / 32) 0) (k % 32)

-- The words make up the bits, and the last bit touched is one of them.
pub record IsValid (b : Bmap) : Type 0 where
  pub whole : b.size ≡ length b.words * 32
  pub last_in : b.last ≤ b.size

scan_word-some : (n j w r : ℕ) → scan_word n j w ≡ some r → (j ≤ r) × (r < j + n) × (bit_at w r ≡ 0)
unfolding scan_word
scan_word-some zero j w r h = absurd (cc)
scan_word-some (suc n) j w r h = ground (arith, scan_word-some n (j + 1) w r)

scan_word_none : (n j w k : ℕ) → scan_word n j w ≡ none → j ≤ k → k < j + n → bit_at w k ≢ 0
unfolding scan_word
scan_word_none zero j w k h p q = absurd (omega arith)
scan_word_none (suc n) j w k h p q = elim (Bool-cases (k == j)) [
  | inl same ↦ ground arith
  | inr other ↦ ground (arith, scan_word_none n (j + 1) w k)
]

-- `b'` is `b` after bit `n`, clear until then, was handed out.
pub record Took (b : Bmap) (n : ℕ) (b' : Bmap) : Type 0 where
  pub was_clear : bit b n ≡ 0
  pub now_set : bit b' n ≡ 1
  pub others : (k : ℕ) → k ≢ n → bit b' k ≡ bit b k
  pub last_is : b'.last ≡ n
  pub same_size : b'.size ≡ b.size
  pub same_words : length b'.words ≡ length b.words

-- What a search among the bits from `lo` to `hi` comes to.
pub data Outcome (b : Bmap) (lo hi : ℕ) (r : Option ℕ × Bmap) : Type 0 where
  took : (n : ℕ) (b' : Bmap) → r ≡ (some n, b') → lo ≤ n → n < hi → Took b n b' → Outcome b lo hi r
  full : r ≡ (none, b) → ((k : ℕ) → lo ≤ k → k < hi → bit b k ≡ 1) → Outcome b lo hi r

-- Bit `k` of a map in which word `i` was written.
bit-set :
    (ws : List ℕ) (i k w : ℕ)
    → i < length ws
    → bit_at (get_or (set ws i w) (k / 32) 0) (k % 32)
      ≡ (if k / 32 == i then bit_at w (k % 32) else bit_at (get_or ws (k / 32) 0) (k % 32))
bit-set ws i k w h = elim (Bool-cases (k / 32 == i)) [
  | inl same ↦ rw same (
      ap (λ (q : ℕ). bit_at (get_or (set ws i w) q 0) (k % 32)) ((==_iff (k / 32) i).0 same)
      ∙ ap (λ (v : ℕ). bit_at v (k % 32)) (get_or-set_self ws i w 0 h))
  | inr other ↦
      rw other (ap (λ (v : ℕ). bit_at v (k % 32)) (get_or-set_ne ws i (k / 32) w 0 (ground arith)))
]

grant-Took :
    (b : Bmap) (i j : ℕ)
    → i < length b.words
    → j < 32
    → bit_at (get_or b.words i 0) j ≡ 0
    → Took b
        (i * 32 + j)
        (record b { last = i * 32 + j; words = set b.words i (set_bit (get_or b.words i 0) j) })
unfolding bit
grant-Took b i j h p e =
    let w = get_or b.words i 0 in
    let q : (i * 32 + j) / 32 ≡ i = omega arith in
    let r : (i * 32 + j) % 32 ≡ j = omega arith in
    record {
      was_clear = rw (q, r) e;
      now_set =
          bit-set b.words i (i * 32 + j) (set_bit w j) h ∙ ground (arith, bit_at-set_bit_self w j);
      others = λ k ne.
          bit-set b.words i k (set_bit w j) h ∙ ground (arith, bit_at-set_bit_ne w j (k % 32));
      last_is = refl;
      same_size = refl;
      same_words = length-set b.words i (set_bit w j);
    }

-- Every bit of a word of ones is set.
ones_bit : (j : ℕ) → j < 32 → bit_at 0xFFFFFFFF j ≡ 1
unfolding bit_at
ones_bit j h = (==_iff _ 1).0 (all_below_sound 32 (λ j. 0xFFFFFFFF / 2 ^ j % 2 == 1) j refl h)

full_word : (w j : ℕ) → (w ≡ 0xFFFFFFFF) ⊎ (scan_word 32 0 w ≡ none) → j < 32 → bit_at w j ≡ 1
full_word w j (inl e) h = rw e (ones_bit j h)
full_word w j (inr e) h =
    omega (arith, scan_word_none 32 0 w j e (omega arith) (omega arith), bit_at-lt w j)

-- A search that passes a full word goes on with the words behind it.
Outcome-skip :
    {b : Bmap} {r : Option ℕ × Bmap} (i hi : ℕ)
    → ((j : ℕ) → j < 32 → bit_at (get_or b.words i 0) j ≡ 1)
    → Outcome b ((i + 1) * 32) hi r
    → Outcome b (i * 32) hi r
unfolding bit
Outcome-skip i hi all (took n b' e p q t) = took n b' e (omega arith) q t
Outcome-skip {b} i hi all (full e rest) = full e λ k p q. elim (dec_lt k ((i + 1) * 32)) [
  | yes lt ↦ let here : k / 32 ≡ i = omega arith in rw here (all (k % 32) (omega arith))
  | no ge ↦ rest k (omega arith) q
]

scan_words-Outcome :
    (n i hi : ℕ) (b : Bmap)
    → hi ≡ (i + n) * 32
    → i + n ≤ length b.words
    → Outcome b (i * 32) hi (scan_words n i b)
unfolding scan_words
scan_words-Outcome zero i hi b e p = full refl (λ k p q. absurd (omega arith))
scan_words-Outcome (suc n) i hi b e p =
    let w = get_or b.words i 0 in
    let rest = scan_words-Outcome n (i + 1) hi b (omega arith) (omega arith) in
    elim (Bool-cases (w == 0xFFFFFFFF)) [
      | inl ones ↦
          rw ones (Outcome-skip i hi (λ j. full_word w j (inl ((==_iff w 0xFFFFFFFF).0 ones))) rest)
      | inr other ↦ rw other (elim (Option-cases (scan_word 32 0 w)) [
        | inl nothing ↦ rw nothing (Outcome-skip i hi (λ j. full_word w j (inr nothing)) rest)
        | inr (j, found) ↦
            let at = scan_word-some 32 0 w j found in
            rw found (
              took (i * 32 + j) _ refl (omega arith) (omega arith)
                (grant-Took b i j (omega arith) (omega arith) at.2))
      ])
    ]

scan_range-Outcome :
    (b : Bmap) (lo hi : ℕ)
    → lo ≤ hi
    → hi / 32 ≤ length b.words
    → Outcome b (lo / 32 * 32) (hi / 32 * 32) (scan_range b lo hi)
unfolding scan_range
scan_range-Outcome b lo hi p q =
    scan_words-Outcome (hi / 32 - lo / 32) (lo / 32) (hi / 32 * 32) b (omega arith) (omega arith)

-- `bmap_get_free` over a valid map, whose words make up its bits: either it hands out one bit
-- that was clear, and only that bit changes; or it returns -1 and changes nothing, and then every
-- bit of the map is set.
pub get_free-Outcome : (b : Bmap) → IsValid b → Outcome b 0 b.size (get_free b)
unfolding get_free
get_free-Outcome b v =
    second (scan_range b b.last b.size) (scan_range-Outcome b b.last b.size v.last_in (omega arith))
  where
    second :
        (r : Option ℕ × Bmap)
        → Outcome b (b.last / 32 * 32) (b.size / 32 * 32) r
        → Outcome b 0 b.size (retry r)
    second r (took n b' e p q t) = took n b' (ap retry e) (omega arith) (omega arith) t
    second r (full e high) = rw e (
        join (scan_range b 0 b.last) (scan_range-Outcome b 0 b.last (omega arith) (omega arith))
          high)
      where
        join :
            (r : Option ℕ × Bmap)
            → Outcome b 0 (b.last / 32 * 32) r
            → ((k : ℕ) → b.last / 32 * 32 ≤ k → k < b.size / 32 * 32 → bit b k ≡ 1)
            → Outcome b 0 b.size r
        join r (took n b' e p q t) high = took n b' e p (omega arith) t
        join r (full e low) high = full e λ k p q. elim (dec_lt k (b.last / 32 * 32)) [
          | yes lt ↦ low k p lt
          | no ge ↦ high k (omega arith) (omega arith)
        ]

-- What it hands out keeps the map whole.
pub Took-IsValid :
    {b : Bmap} {n : ℕ} {b' : Bmap} → IsValid b → n < b.size → Took b n b' → IsValid b'
Took-IsValid v h t = omega arith

-- On a valid map `bmap_free` refuses a bit outside the map and changes nothing; a bit of the map
-- it clears, it leaves every other, the next search begins there, and the map stays valid.
pub free_lem :
    (b : Bmap) (n : ℕ)
    → IsValid b
    → (b.size ≤ n → free b n ≡ (false, b))
      × (n < b.size
          → let (done, b') = free b n in
            (done ≡ true)
            × (bit b' n ≡ 0)
            × ((k : ℕ) → k ≢ n → bit b' k ≡ bit b k)
            × (b'.last ≡ n)
            × (b'.size ≡ b.size)
            × IsValid b')
unfolding free bit
free_lem b n v =
    let i = n / 32 in
    let j = n % 32 in
    let w = clear_bit (get_or b.words i 0) j in
    (
      λ h. rw (le→leb _ _ h),
      λ h. rw (lt→not_leb _ _ h) (
        refl,
        bit-set b.words i n w (omega arith)
            ∙ ground (arith, bit_at-clear_bit_self (get_or b.words i 0) j),
        λ k ne.
            bit-set b.words i k w (omega arith)
            ∙ ground (arith, bit_at-clear_bit_ne (get_or b.words i 0) j (k % 32)),
        refl,
        refl,
        omega (arith, length-set b.words i w),
      ),
    )

-- In a valid map a bit given back can be handed out again: straight after `bmap_free` of a bit of
-- the map, `bmap_get_free` finds one.
pub get_free-free :
    (b : Bmap) (n : ℕ) → IsValid b → n < b.size → (m : ℕ) × ((get_free (free b n).1).0 ≡ some m)
get_free-free b n v h = again (get_free-Outcome (free b n).1 ((free_lem b n v).1 h).5)
  where
    again :
        {r : Option ℕ × Bmap}
        → Outcome (free b n).1 0 (free b n).1.size r
        → (m : ℕ) × (r.0 ≡ some m)
    again (took m b' e p q t) = (m, ap (λ (x : Option ℕ × Bmap). x.0) e)
    again (full e all) =
        let done = (free_lem b n v).1 h in
        absurd (omega (arith, done.1, done.4, all n (omega arith) (omega (arith, done.4))))
