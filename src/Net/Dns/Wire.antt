-- ===== src/Net/Dns/Wire.antt =====
-- The names of dns.c on the wire: what `host2dns_name` writes, `dns2host_name` reads back.
use mathlib.Core.List.{append-nil, append_assoc}
use mathlib.Core.Path.{subst, ap₂}
use c_osiris.Base.{
  ℕ, ◌+◌, ◌-◌, ◌%◌, ◌≤◌, ◌<◌, ◌≡◌, ◌≢◌, inl, inr, refl, sym, ap, ◌∙◌, true, false, some, List, [],
  ◌∷◌, ◌++◌, ltb, leb, ◌==◌, if◌then◌else◌, length, set, arith, length-append, Bool-cases,
}
use c_osiris.Net.Dns.Names.{Writing, host2dns_loop, host2dns_name}

set-append_end : (xs ys : List ℕ) (y v : ℕ) → set (xs ++ (y ∷ ys)) (length xs) v ≡ xs ++ (v ∷ ys)
set-append_end [] ys y v = refl
set-append_end (x ∷ xs) ys y v = ap (λ l. x ∷ l) (set-append_end xs ys y v)

-- The labels of a host name as they stand on the wire, behind the `cur` of the first.
abbrev pub wire_from : List ℕ → List ℕ → List ℕ
wire_from cur [] = length cur ∷ cur
wire_from cur (c ∷ host) =
    if c == b'.' then length cur ∷ (cur ++ wire_from [] host) else wire_from (cur ++ (c ∷ [])) host

-- The loop has written the labels behind `done`.
record Wrote (host done cur tail : List ℕ) (size : ℕ) (w : Writing) : Type 0 where
  rest : List ℕ
  buf : w.buf ≡ done ++ (wire_from cur host ++ rest)
  at : w.at ≡ length done + length (wire_from cur host)
  left : w.left ≡ size - length host
  sized : length rest ≡ length tail - length host

step_dot :
    (host buf : List ℕ) (c size at i : ℕ)
    → 2 < size
    → (c == b'.') ≡ true
    → host2dns_loop (c ∷ host) size at i buf
      ≡ host2dns_loop host (size - 1) (at + 1) 0 (set buf (at - (i + 1)) (i % 256))
unfolding host2dns_loop
step_dot host buf c size at i room dot =
    let e : ltb 2 size ≡ true = ground arith in rw (e, dot) refl

step_other :
    (host buf : List ℕ) (c size at i : ℕ)
    → 2 < size
    → (c == b'.') ≡ false
    → host2dns_loop (c ∷ host) size at i buf
      ≡ host2dns_loop host (size - 1) (at + 1) (i + 1) (set buf at c)
unfolding host2dns_loop
step_other host buf c size at i room other =
    let e : ltb 2 size ≡ true = ground arith in rw (e, other) refl

set-length :
    (done cur tail : List ℕ) (x at i : ℕ)
    → at ≡ length done + 1 + length cur
    → i ≡ length cur
    → length cur < 256
    → set (done ++ (x ∷ (cur ++ tail))) (at - (i + 1)) (i % 256)
      ≡ done ++ (length cur ∷ (cur ++ tail))
set-length done cur tail x at i e f small =
    let place : at - (i + 1) ≡ length done = omega arith in
    let byte : i % 256 ≡ length cur = omega arith in
    rw (place, byte) (set-append_end done (cur ++ tail) x (length cur))

set_char :
    (done cur tail : List ℕ) (x y at c : ℕ)
    → at ≡ length done + 1 + length cur
    → set (done ++ (x ∷ (cur ++ (y ∷ tail)))) at c ≡ done ++ (x ∷ ((cur ++ (c ∷ [])) ++ tail))
set_char done cur tail x y at c e =
    let front : List ℕ = done ++ (x ∷ cur) in
    let place : at ≡ length front = omega (arith, length-append done (x ∷ cur)) in
    ap (λ l. set l at c) (sym (append_assoc done (x ∷ cur) (y ∷ tail)))
    ∙ ap (λ n. set (front ++ (y ∷ tail)) n c) place
    ∙ set-append_end front tail y c
    ∙ append_assoc done (x ∷ cur) (c ∷ tail)
    ∙ ap (λ l. done ++ (x ∷ l)) (sym (append_assoc cur (c ∷ []) tail))

Wrote-dot :
    (c : ℕ) (host done cur tail : List ℕ) (y size : ℕ) (w : Writing)
    → (c == b'.') ≡ true
    → Wrote host (done ++ (length cur ∷ cur)) [] tail (size - 1) w
    → Wrote (c ∷ host) done cur (y ∷ tail) size w
Wrote-dot c host done cur tail y size w dot m =
    let more : List ℕ = wire_from [] host in
    let wire : wire_from cur (c ∷ host) ≡ length cur ∷ (cur ++ more) = rw dot refl in
    record {
      rest = m.rest;
      buf =
          m.buf
          ∙ append_assoc done (length cur ∷ cur) (more ++ m.rest)
          ∙ ap (λ l. done ++ (length cur ∷ l)) (sym (append_assoc cur more m.rest))
          ∙ ap (λ l. done ++ (l ++ m.rest)) (sym wire);
      at = omega (
        arith,
        m.at,
        length-append done (length cur ∷ cur),
        ap length wire,
        length-append cur more,
      );
      left = omega (arith, m.left);
      sized = omega (arith, m.sized);
    }

Wrote-other :
    (c : ℕ) (host done cur tail : List ℕ) (y size : ℕ) (w : Writing)
    → (c == b'.') ≡ false
    → Wrote host done (cur ++ (c ∷ [])) tail (size - 1) w
    → Wrote (c ∷ host) done cur (y ∷ tail) size w
Wrote-other c host done cur tail y size w other m =
    let wire : wire_from cur (c ∷ host) ≡ wire_from (cur ++ (c ∷ [])) host = rw other refl in
    record {
      rest = m.rest;
      buf = m.buf ∙ ap (λ l. done ++ (l ++ m.rest)) (sym wire);
      at = omega (arith, m.at, ap length wire);
      left = omega (arith, m.left);
      sized = omega (arith, m.sized);
    }

host2dns_loop-Wrote :
    (host done cur tail buf : List ℕ) (x size at i : ℕ)
    → length cur + length host < 256
    → length host + 2 < size
    → length host ≤ length tail
    → at ≡ length done + 1 + length cur
    → i ≡ length cur
    → buf ≡ done ++ (x ∷ (cur ++ tail))
    → Wrote host done cur tail size (host2dns_loop host size at i buf)
unfolding host2dns_loop
host2dns_loop-Wrote [] done cur tail buf x size at i small room fits e f is =
    let r : ltb 2 size ≡ true = ground arith in
    rw r (record {
      rest = tail;
      buf =
          ap (λ l. set l (at - (i + 1)) (i % 256)) is
          ∙ set-length done cur tail x at i e f (omega arith);
      at = omega arith;
      left = omega arith;
      sized = omega arith;
    })
host2dns_loop-Wrote (c ∷ host) done cur [] buf x size at i small room fits e f is =
    absurd (omega arith)
host2dns_loop-Wrote (c ∷ host) done cur (y ∷ tail) buf x size at i small room fits e f is =
    elim (Bool-cases (c == b'.')) [
      | inl dot ↦
          let front : List ℕ = done ++ (length cur ∷ cur) in
          let sized : length front ≡ at = omega (arith, length-append done (length cur ∷ cur)) in
          let more =
            host2dns_loop-Wrote host front [] tail (set buf (at - (i + 1)) (i % 256)) y (size - 1)
              (at + 1) 0 (omega arith) (omega arith) (omega arith) (omega arith) refl
              (ap (λ l. set l (at - (i + 1)) (i % 256)) is
                ∙ set-length done cur (y ∷ tail) x at i e f (omega arith)
                ∙ sym (append_assoc done (length cur ∷ cur) (y ∷ tail))) in
          subst (λ (w : Writing). Wrote (c ∷ host) done cur (y ∷ tail) size w)
            (sym (step_dot host buf c size at i (omega arith) dot))
            (Wrote-dot c host done cur tail y size _ dot more)
      | inr other ↦
          let more =
            host2dns_loop-Wrote host done (cur ++ (c ∷ [])) tail (set buf at c) x (size - 1)
              (at + 1) (i + 1) (omega (arith, length-append cur (c ∷ []))) (omega arith)
              (omega arith) (omega (arith, length-append cur (c ∷ [])))
              (omega (arith, length-append cur (c ∷ [])))
              (ap (λ l. set l at c) is ∙ set_char done cur tail x y at c e) in
          subst (λ (w : Writing). Wrote (c ∷ host) done cur (y ∷ tail) size w)
            (sym (step_other host buf c size at i (omega arith) other))
            (Wrote-other c host done cur tail y size _ other more)
    ]

end_name :
    (w : Writing) (front rest : List ℕ)
    → w.buf ≡ front ++ rest
    → w.at ≡ length front
    → 0 < length rest
    → (after : List ℕ) × (set w.buf w.at 0 ≡ front ++ (0 ∷ after))
end_name w front [] is e pos = absurd (omega arith)
end_name w front (y ∷ rest) is e pos =
    (rest, ap₂ (λ (l : List ℕ) (n : ℕ). set l n 0) is e ∙ set-append_end front rest y 0)

-- `host2dns_name` of a host name of fewer than 256 characters, in a buffer of the size that is
-- given, longer than the name by three or more: it writes the labels and the NUL.
pub host2dns_name_lem :
    (host : List ℕ) (x : ℕ) (tail : List ℕ)
    → length host < 256
    → length host + 2 ≤ length tail
    → (rest : List ℕ) × (host2dns_name host (x ∷ tail) (length tail + 1)
        ≡ some (wire_from [] host ++ (0 ∷ rest), length tail + 1 - length host - 2))
unfolding host2dns_name
host2dns_name_lem host x tail small room =
    let size = length tail + 1 in
    let m =
      host2dns_loop-Wrote host [] [] tail (x ∷ tail) x size 1 0 (omega arith) (omega arith)
        (omega arith) (omega arith) (omega arith) refl in
    let low : leb size (length host + 2) ≡ false = ground arith in
    let (rest, ended) =
      end_name (host2dns_loop host size 1 0 (x ∷ tail)) (wire_from [] host) m.rest m.buf
        (omega (arith, m.at)) (omega (arith, m.sized)) in
    (rest, rw low (ap₂ (λ (l : List ℕ) (n : ℕ). some (l, n)) ended (omega (arith, m.left))))

-- A name as its labels, and the bytes of the labels.
abbrev pub join : List ℕ → List (List ℕ) → List ℕ
join l [] = l
join l (m ∷ ls) = l ++ (b'.' ∷ join m ls)

abbrev pub encode : List (List ℕ) → List ℕ
encode [] = []
encode (l ∷ ls) = length l ∷ (l ++ encode ls)

-- The characters of a label, none of them a dot.
abbrev pub IsDotless : List ℕ → Type 0
IsDotless [] = Unit {0}
IsDotless (c ∷ l) = (c ≢ b'.') × IsDotless l

abbrev pub AreDotless : List (List ℕ) → Type 0
AreDotless [] = Unit {0}
AreDotless (l ∷ ls) = IsDotless l × AreDotless ls

wire_from-append :
    (l cur host : List ℕ) → IsDotless l → wire_from cur (l ++ host) ≡ wire_from (cur ++ l) host
wire_from-append [] cur host d = ap (λ k. wire_from k host) (sym (append-nil cur))
wire_from-append (c ∷ l) cur host d =
    let other : (c == b'.') ≡ false = ground (arith, d.0) in
    rw other (
      wire_from-append l (cur ++ (c ∷ [])) host d.1
      ∙ ap (λ k. wire_from k host) (append_assoc cur (c ∷ []) l))

pub wire_from-join :
    (l : List ℕ) (ls : List (List ℕ))
    → AreDotless (l ∷ ls)
    → wire_from [] (join l ls) ≡ encode (l ∷ ls)
wire_from-join l [] d =
    ap (wire_from []) (sym (append-nil l))
    ∙ wire_from-append l [] [] d.0
    ∙ ap (λ k. length l ∷ k) (sym (append-nil l))
wire_from-join l (m ∷ ls) d =
    wire_from-append l [] (b'.' ∷ join m ls) d.0
    ∙ ap (λ k. length l ∷ (l ++ k)) (wire_from-join m ls d.1)
