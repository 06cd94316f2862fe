-- ===== src/Cofs/Bytes.antt =====
-- What a write to a block changes, and what it leaves.
use c_osiris.Base.{ℕ, ◌+◌, ◌-◌, ◌*◌, ◌^◌, ◌≤◌, ◌<◌, ◌≡◌, ◌≢◌, ◌⊎◌, inl, inr, refl, ap, ◌∙◌, arith}
use c_osiris.Cofs.{Disk, overlay, byte_of, word, put_word}

pub overlay_in :
    (b o n : ℕ) (f : ℕ → ℕ) (d : Disk) (k : ℕ) → k < n → overlay b o n f d b (o + k) ≡ f k
unfolding overlay
overlay_in b o n f d k h = let e : o + k - o ≡ k = omega arith in ground (arith, ap f e)

pub overlay_ne :
    (b o n : ℕ) (f : ℕ → ℕ) (d : Disk) (c k : ℕ) → c ≢ b → overlay b o n f d c k ≡ d c k
unfolding overlay
overlay_ne b o n f d c k h = ground arith

pub overlay_out :
    (b o n : ℕ) (f : ℕ → ℕ) (d : Disk) (c k : ℕ)
    → (k < o) ⊎ (o + n ≤ k)
    → overlay b o n f d c k ≡ d c k
unfolding overlay
overlay_out b o n f d c k h = ground arith

pub bytes-of_word :
    (w : ℕ)
    → w < 2 ^ 32
    → byte_of w 0 + 256 * byte_of w 1 + 65536 * byte_of w 2 + 16777216 * byte_of w 3 ≡ w
bytes-of_word w h = omega arith

pub word-put_word_self : (d : Disk) (b i w : ℕ) → w < 2 ^ 32 → word (put_word b i w d) b i ≡ w
unfolding word put_word
word-put_word_self d b i w h =
    let o : 4 * i ≡ 4 * i + 0 = omega arith in
    rw
      (
        ap (λ (k : ℕ). overlay b (4 * i) 4 (byte_of w) d b k) o
            ∙ overlay_in b (4 * i) 4 (byte_of w) d 0 (omega arith),
        overlay_in b (4 * i) 4 (byte_of w) d 1 (omega arith),
        overlay_in b (4 * i) 4 (byte_of w) d 2 (omega arith),
        overlay_in b (4 * i) 4 (byte_of w) d 3 (omega arith),
      )
      (bytes-of_word w h)

pub word_frame :
    (d d' : Disk) (b i : ℕ)
    → ((k : ℕ) → 4 * i ≤ k → k < 4 * i + 4 → d' b k ≡ d b k)
    → word d' b i ≡ word d b i
unfolding word
word_frame d d' b i same =
    rw
      (
        same (4 * i) (omega arith) (omega arith),
        same (4 * i + 1) (omega arith) (omega arith),
        same (4 * i + 2) (omega arith) (omega arith),
        same (4 * i + 3) (omega arith) (omega arith),
      )
      refl

pub word-put_word_ne :
    (d : Disk) (b i w c j : ℕ) → (c ≢ b) ⊎ (j ≢ i) → word (put_word b i w d) c j ≡ word d c j
unfolding put_word
word-put_word_ne d b i w c j (inl h) =
    word_frame d _ c j (λ k _ _. overlay_ne b (4 * i) 4 (byte_of w) d c k h)
word-put_word_ne d b i w c j (inr h) =
    word_frame d _ c j (λ k lo hi. overlay_out b (4 * i) 4 (byte_of w) d c k (ground arith))
