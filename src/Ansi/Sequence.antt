-- ===== src/Ansi/Sequence.antt =====
-- A whole sequence with two numbers, such as the one that moves the cursor.
use c_osiris.Base.{
  ℕ, suc, ◌+◌, ◌-◌, ◌*◌, ◌≤◌, ◌<◌, ◌≡◌, refl, ◌∙◌, ap, List, [], ◌∷◌, ◌++◌, arith, true, length,
}
use c_osiris.Base.Words.{u32_mod}
use c_osiris.Ansi.{Ansi, none, in_num1, in_num2, in_fin, esc, is_final, switch, feed}
use c_osiris.Ansi.Bounds.{machine}

-- The characters of a list of digits, and the number that it stands for behind `acc`.
abbrev pub digit_chars : List ℕ → List ℕ
digit_chars [] = []
digit_chars (d ∷ ds) = (b'0' + d) ∷ digit_chars ds

abbrev pub value : ℕ → List ℕ → ℕ
value acc [] = acc
value acc (d ∷ ds) = value (acc * 10 + d) ds

abbrev pub AreDigits : List ℕ → Type 0
AreDigits [] = Unit {0}
AreDigits (d ∷ ds) = (d < 10) × AreDigits ds

value_grows : (acc : ℕ) (ds : List ℕ) → acc ≤ value acc ds
value_grows acc [] = omega arith
value_grows acc (d ∷ ds) = omega (arith, value_grows (acc * 10 + d) ds)

switch-num1 :
    (n1 n2 c1 c2 cnt d : ℕ)
    → d < 10
    → cnt < 10
    → n1 * 10 + d < u32_mod
    → switch (machine in_num1 n1 n2 c1 c2 cnt) (b'0' + d)
      ≡ machine in_num1 (n1 * 10 + d) n2 c1 c2 (suc cnt)
unfolding switch
switch-num1 n1 n2 c1 c2 cnt d h k w = ground arith

switch-num2 :
    (n1 n2 c1 c2 cnt d : ℕ)
    → d < 10
    → cnt < 10
    → n2 * 10 + d < u32_mod
    → switch (machine in_num2 n1 n2 c1 c2 cnt) (b'0' + d)
      ≡ machine in_num2 n1 (n2 * 10 + d) c1 c2 (suc cnt)
unfolding switch
switch-num2 n1 n2 c1 c2 cnt d h k w = ground arith

feed-num1 :
    (ds rest : List ℕ) (n1 n2 c1 c2 cnt : ℕ)
    → AreDigits ds
    → cnt + length ds ≤ 10
    → value n1 ds < u32_mod
    → feed (machine in_num1 n1 n2 c1 c2 cnt) (digit_chars ds ++ rest)
      ≡ feed (machine in_num1 (value n1 ds) n2 c1 c2 (cnt + length ds)) rest
unfolding feed
feed-num1 [] rest n1 n2 c1 c2 cnt a h w =
    ap (λ (k : ℕ). feed (machine in_num1 n1 n2 c1 c2 k) rest) (omega arith)
feed-num1 (d ∷ ds) rest n1 n2 c1 c2 cnt a h w =
    ap (λ (s : Ansi). feed s (digit_chars ds ++ rest))
      (switch-num1 n1 n2 c1 c2 cnt d a.0 (omega arith)
        (omega (arith, value_grows (n1 * 10 + d) ds)))
    ∙ feed-num1 ds rest (n1 * 10 + d) n2 c1 c2 (suc cnt) a.1 (omega arith) w
    ∙ ap (λ (k : ℕ). feed (machine in_num1 (value (n1 * 10 + d) ds) n2 c1 c2 k) rest) (omega arith)

feed-num2 :
    (ds rest : List ℕ) (n1 n2 c1 c2 cnt : ℕ)
    → AreDigits ds
    → cnt + length ds ≤ 10
    → value n2 ds < u32_mod
    → feed (machine in_num2 n1 n2 c1 c2 cnt) (digit_chars ds ++ rest)
      ≡ feed (machine in_num2 n1 (value n2 ds) c1 c2 (cnt + length ds)) rest
unfolding feed
feed-num2 [] rest n1 n2 c1 c2 cnt a h w =
    ap (λ (k : ℕ). feed (machine in_num2 n1 n2 c1 c2 k) rest) (omega arith)
feed-num2 (d ∷ ds) rest n1 n2 c1 c2 cnt a h w =
    ap (λ (s : Ansi). feed s (digit_chars ds ++ rest))
      (switch-num2 n1 n2 c1 c2 cnt d a.0 (omega arith)
        (omega (arith, value_grows (n2 * 10 + d) ds)))
    ∙ feed-num2 ds rest n1 (n2 * 10 + d) c1 c2 (suc cnt) a.1 (omega arith) w
    ∙ ap (λ (k : ℕ). feed (machine in_num2 n1 (value (n2 * 10 + d) ds) c1 c2 k) rest) (omega arith)

-- The first three characters, from a machine outside a sequence.
feed_start :
    (n1 n2 c1 c2 d : ℕ) (rest : List ℕ)
    → d < 10
    → feed (machine none n1 n2 c1 c2 0) (esc ∷ b'[' ∷ (b'0' + d) ∷ rest)
      ≡ feed (machine in_num1 d n2 c1 c2 3) rest
unfolding feed switch
feed_start n1 n2 c1 c2 d rest h = ap (λ (s : Ansi). feed s rest) (ground arith)

switch_semicolon :
    (n1 n2 c1 c2 cnt : ℕ)
    → cnt < 10
    → switch (machine in_num1 n1 n2 c1 c2 cnt) b';' ≡ machine in_num2 n1 0 c1 c2 (suc cnt)
unfolding switch
switch_semicolon n1 n2 c1 c2 cnt h = ground arith

switch_final :
    (n1 n2 c1 c2 cnt c : ℕ)
    → cnt < 10
    → is_final c ≡ true
    → switch (machine in_num2 n1 n2 c1 c2 cnt) c ≡ machine in_fin n1 n2 c c2 (suc cnt)
unfolding switch
switch_final n1 n2 c1 c2 cnt c h f = ground arith

switch_final1 :
    (n1 n2 c1 c2 cnt c : ℕ)
    → cnt < 10
    → is_final c ≡ true
    → switch (machine in_num1 n1 n2 c1 c2 cnt) c ≡ machine in_fin n1 n2 c c2 (suc cnt)
unfolding switch
switch_final1 n1 n2 c1 c2 cnt c h f = ground arith

start_private :
    (n1 n2 c1 c2 : ℕ)
    → switch (switch (switch (machine none n1 n2 c1 c2 0) esc) b'[') b'?'
      ≡ machine in_num1 n1 n2 c1 b'?' 3
unfolding switch
start_private n1 n2 c1 c2 = refl

-- Outside a sequence, `ESC [ n ; m c` with at most six digits and a final character `c` takes the
-- machine to its end with just these numbers and this character, whatever numbers an earlier
-- sequence has left behind.
pub feed_sequence :
    (n1 n2 c1 c2 d c : ℕ) (ds es : List ℕ)
    → AreDigits (d ∷ ds)
    → AreDigits es
    → length ds + length es ≤ 5
    → value d ds < u32_mod
    → value 0 es < u32_mod
    → is_final c ≡ true
    → feed
        (machine none n1 n2 c1 c2 0)
        (esc ∷ b'[' ∷ (b'0' + d) ∷ (digit_chars ds ++ (b';' ∷ (digit_chars es ++ (c ∷ [])))))
      ≡ machine in_fin (value d ds) (value 0 es) c c2 (6 + length ds + length es - 1)
unfolding feed
feed_sequence n1 n2 c1 c2 d c ds es a b h w u f =
    let n = value d ds in
    let k = 3 + length ds in
    feed_start n1 n2 c1 c2 d (digit_chars ds ++ (b';' ∷ (digit_chars es ++ (c ∷ [])))) a.0
    ∙ feed-num1 ds (b';' ∷ (digit_chars es ++ (c ∷ []))) d n2 c1 c2 3 a.1 (omega arith) w
    ∙ ap (λ (s : Ansi). feed s (digit_chars es ++ (c ∷ [])))
        (switch_semicolon n n2 c1 c2 k (omega arith))
    ∙ feed-num2 es (c ∷ []) n 0 c1 c2 (suc k) b (omega arith) u
    ∙ switch_final n (value 0 es) c1 c2 (suc k + length es) c (omega arith) f
    ∙ ap (λ (m : ℕ). machine in_fin n (value 0 es) c c2 m) (omega arith)

-- Outside a sequence, `ESC [ ? d c` does not begin its number anew: the digit goes behind the
-- number that an earlier sequence has left.
pub feed_private :
    (n1 n2 c1 c2 d c : ℕ)
    → d < 10
    → n1 * 10 + d < u32_mod
    → is_final c ≡ true
    → feed (machine none n1 n2 c1 c2 0) (esc ∷ b'[' ∷ b'?' ∷ (b'0' + d) ∷ c ∷ [])
      ≡ machine in_fin (n1 * 10 + d) n2 c b'?' 5
unfolding feed
feed_private n1 n2 c1 c2 d c h w f =
    ap (λ (s : Ansi). switch (switch s (b'0' + d)) c) (start_private n1 n2 c1 c2)
    ∙ ap (λ (s : Ansi). switch s c) (switch-num1 n1 n2 c1 b'?' 3 d h (omega arith) w)
    ∙ switch_final1 (n1 * 10 + d) n2 c1 b'?' 4 c (omega arith) f
