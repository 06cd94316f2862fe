-- ===== src/Format/Printed.antt =====
-- What `vsnprintf` of lib/vsnprintf.c leaves in the buffer, and what it returns.
use c_osiris.Base.{
  ℕ, ◌+◌, ◌-◌, ◌≤◌, ◌<◌, ◌≡◌, ◌⊎◌, inl, inr, refl, sym, ap, ◌∙◌, none, some, List, [], ◌∷◌, length,
  get_or, set, arith, length-set, get_or-set_self, get_or-set_ne, min, lt-cases,
}
use c_osiris.Base.Words.{u32_mod, sub32}
use c_osiris.Base.Ints.{ℤ}
use c_osiris.Format.{Out, put_all}
use c_osiris.Format.Buffer.{Holds, put_all-Holds}
use c_osiris.Format.Machine.{Env, vsnprintf, finish, finish_if, signed32}
use c_osiris.Format.Rounds.{text, run-enough}

-- The buffer has the characters of the text, but for its last, as far as there is room for a NUL
-- behind them, and the NUL; it is as before behind the limit, and behind the text.
pub record Printed (size : ℕ) (ts buf buf' : List ℕ) : Type 0 where
  pub sized : length buf' ≡ length buf
  pub shown : (i : ℕ) → i + 1 < length ts → i + 1 < size → get_or buf' i 0 ≡ get_or ts i 0
  pub ended : 0 < size → get_or buf' (min (length ts - 1) (size - 1)) 0 ≡ 0
  pub kept : (j : ℕ) → (size ≤ j) ⊎ (length ts ≤ j) → get_or buf' j 0 ≡ get_or buf j 0

finish_buf :
    (size n : ℕ) (o : Out)
    → o.place ≡ n
    → 0 < n
    → n < u32_mod
    → 0 < size
    → (finish size o).0 ≡ set o.buf (min (n - 1) (size - 1)) 0
unfolding finish
finish_buf size n o at pos low room = ground arith

finish_none :
    (n : ℕ) (o : Out) → o.place ≡ n → 0 < n → n < u32_mod → finish 0 o ≡ (o.buf, signed32 (n - 1))
unfolding finish
finish_none n o at pos low = let e : sub32 o.place 1 ≡ n - 1 = omega arith in rw e (ground arith)

finish_count :
    (size n : ℕ) (o : Out)
    → o.place ≡ n
    → 0 < n
    → n < u32_mod
    → (finish size o).1 ≡ signed32 (n - 1)
unfolding finish
finish_count size n o at pos low = let e : sub32 o.place 1 ≡ n - 1 = omega arith in ap signed32 e

is_nil : (l : List ℕ) → length l ≡ 0 → l ≡ []
is_nil [] h = refl
is_nil (x ∷ l) h = absurd (omega arith)

finish-Printed :
    (size : ℕ) (ts buf : List ℕ) (o : Out)
    → size ≤ length buf
    → 0 < length ts
    → length ts < u32_mod
    → Holds size ts (record { buf = buf; place = 0 }) o
    → Printed size ts buf (finish size o).0
finish-Printed size ts buf o room pos low h =
    let at : o.place ≡ length ts = omega (arith, h.moved) in
    let shown = λ (i : ℕ) (lt : i < length ts) (lim : i < size).
      let e : 0 + i ≡ i = omega arith in
      let below : 0 + i < size = omega arith in
      sym (ap (λ j. get_or o.buf j 0) e) ∙ h.inside i lt below in
    elim (lt-cases 0 size) [
      | inl some_room ↦
          let p : ℕ = min (length ts - 1) (size - 1) in
          let below : p < length o.buf = omega (arith, h.sized) in
          rw (finish_buf size (length ts) o at pos low some_room) (record {
            sized = length-set o.buf p 0 ∙ h.sized;
            shown = λ i lt lim.
                get_or-set_ne o.buf p i 0 0 (λ e. omega arith)
                ∙ shown i (omega arith) (omega arith);
            ended = λ r. get_or-set_self o.buf p 0 0 below;
            kept = λ j away.
                get_or-set_ne o.buf p j 0 0
                  (elim away [ inl a ↦ λ e. omega arith | inr b ↦ λ e. omega arith ])
                ∙ h.outside j (inr (elim away [ inl a ↦ inr a | inr b ↦ inl (omega arith) ]));
          })
      | inr none_left ↦
          let z : size ≡ 0 = omega arith in
          let same : (finish size o).0 ≡ o.buf =
            ap (λ s. (finish s o).0) z ∙ ap (λ r. r.0) (finish_none (length ts) o at pos low) in
          rw same (record {
            sized = h.sized;
            shown = λ i lt lim. absurd (omega arith);
            ended = λ r. absurd (omega arith);
            kept = λ j away. h.outside j (inr (inr (omega arith)));
          })
    ]

-- `vsnprintf` of a format whose text is not empty and has fewer than 2 ^ 32 characters, into a
-- buffer that is as long as its size or longer, comes to its end and returns the length of the text
-- less one, read as a signed 32-bit word (so it is negative from 2 ^ 31 on), whatever the size, and
-- also into NULL. The buffer then has the characters of the text
-- but for the last, the NUL, as far as they fit with a NUL behind them; it is as before behind the
-- size, and behind the text.
pub vsnprintf-Printed :
    (e : Env) (buf : List ℕ) (size : ℕ) (fmt : List ℕ)
    → size ≤ length buf
    → 0 < length (text e fmt)
    → length (text e fmt) < u32_mod
    → (buf' : List ℕ) × (vsnprintf e (some buf) size fmt
        ≡ some (buf', signed32 (length (text e fmt) - 1)))
      × (vsnprintf e none size fmt ≡ some ([], signed32 (length (text e fmt) - 1)))
      × Printed size (text e fmt) buf buf'
unfolding vsnprintf
vsnprintf-Printed e buf size fmt room some_text low =
    let ts : List ℕ = text e fmt in
    let empty : Out = record { buf = []; place = 0 } in
    let full : Out = record { buf = buf; place = 0 } in
    let h = put_all-Holds size ts full room (omega arith) in
    let none_written = put_all-Holds 0 ts empty (omega arith) (omega arith) in
    let o : Out = put_all size ts full in
    (
      (finish size o).0,
      ap (finish_if size) (run-enough size e fmt full)
          ∙ ap (λ (n : ℤ). some ((finish size o).0, n))
              (finish_count size (length ts) o (omega (arith, h.moved)) some_text low),
      ap (finish_if 0) (run-enough 0 e fmt empty)
          ∙ ap some (
              finish_none (length ts) (put_all 0 ts empty) (omega (arith, none_written.moved))
                some_text low)
          ∙ ap (λ (b : List ℕ). some (b, signed32 (length ts - 1)))
              (is_nil (put_all 0 ts empty).buf none_written.sized),
      finish-Printed size ts buf o room some_text low h,
    )
