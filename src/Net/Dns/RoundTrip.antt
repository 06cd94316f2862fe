-- ===== src/Net/Dns/RoundTrip.antt =====
-- Names of dns.c: what `host2dns_name` wrote, `dns2host_name` reads back.
use mathlib.Core.List.{append_assoc}
use mathlib.Core.Path.{subst, ap₂}
use c_osiris.Base.{
  ℕ, zero, suc, ◌+◌, ◌-◌, ◌≤◌, ◌<◌, ◌≡◌, refl, ap, ◌∙◌, ◌||◌, not, true, false, some, List, [], ◌∷◌,
  ◌++◌, ltb, ◌==◌, length, min, arith, length-append,
}
use c_osiris.Net.Dns.Names.{host2dns_name, copy_bytes, dns2host_loop, dns2host_name, dotted, grown}
use c_osiris.Net.Dns.Wire.{host2dns_name_lem, join, encode, AreDotless, wire_from-join}

-- The bytes stand in memory from an address on.
abbrev pub Reads : (ℕ → ℕ) → ℕ → List ℕ → Type 0
Reads mem s [] = Unit {0}
Reads mem s (b ∷ bs) = (mem s ≡ b) × Reads mem (s + 1) bs

-- Labels that are not empty, of at most 31 characters.
abbrev pub AreShort : List (List ℕ) → Type 0
AreShort [] = Unit {0}
AreShort (l ∷ ls) = ((0 < length l) × (length l < 32)) × AreShort ls

copy_bytes-Reads :
    (mem : ℕ → ℕ) (s : ℕ) (l more : List ℕ)
    → Reads mem s (l ++ more)
    → (copy_bytes mem s (length l) ≡ l) × Reads mem (s + length l) more
unfolding copy_bytes
copy_bytes-Reads mem s [] more r =
    let e : s ≡ s + 0 = omega arith in (refl, subst (λ (k : ℕ). Reads mem k more) e r)
copy_bytes-Reads mem s (c ∷ l) more r =
    let (copied, after) = copy_bytes-Reads mem (s + 1) l more r.1 in
    let e : s + 1 + length l ≡ s + suc (length l) = omega arith in
    (ap₂ (λ (x : ℕ) (k : List ℕ). x ∷ k) r.0 copied, subst (λ (k : ℕ). Reads mem k more) e after)

-- The name behind the labels, with the length of the label in front of them.
abbrev decoded : ℕ → List ℕ → List (List ℕ) → List ℕ
decoded n chars [] = chars
decoded n chars (l ∷ ls) = decoded (length l) (dotted n chars ++ l) ls

length-dotted : (n : ℕ) (chars : List ℕ) → length (dotted n chars) ≤ length chars + 1
length-dotted n chars = ground (arith, length-append chars (b'.' ∷ []))

label_step :
    (fuel : ℕ) (mem : ℕ → ℕ) (dns end s n k : ℕ) (l chars : List ℕ) (cap : ℕ)
    → mem s ≡ k
    → k ≡ length l
    → copy_bytes mem (s + 1) k ≡ l
    → 0 < k
    → k < 32
    → s < end
    → 32 ≤ cap
    → length chars + 2 ≤ cap
    → dns2host_loop (suc fuel) mem dns end s n chars cap
      ≡ dns2host_loop fuel mem dns end
          (s + 1 + k)
          k
          (dotted n chars ++ l)
          (grown k (dotted n chars) cap)
unfolding dns2host_loop
label_step fuel mem dns end s n k l chars cap at e copied pos short low big fits =
    let d = length-dotted n chars in
    let go : (k == 0 || not (ltb s end)) ≡ false = ground arith in
    let plain : (k == 0xc0) ≡ false = ground arith in
    let all : min k (grown k (dotted n chars) cap - length (dotted n chars)) ≡ k =
      ground (arith, d) in
    rw (at, go, plain, all)
      (ap
        (λ m.
          dns2host_loop fuel mem dns end (s + 1 + k) k (dotted n chars ++ m)
            (grown k (dotted n chars) cap))
        copied)

end_step :
    (fuel : ℕ) (mem : ℕ → ℕ) (dns end s n : ℕ) (chars : List ℕ) (cap : ℕ)
    → mem s ≡ 0
    → dns2host_loop (suc fuel) mem dns end s n chars cap
      ≡ some (record { chars = chars; cap = cap })
unfolding dns2host_loop
end_step fuel mem dns end s n chars cap at = rw at refl

grown_lem :
    (k : ℕ) (front l : List ℕ) (cap : ℕ)
    → length l ≡ k
    → k < 32
    → 32 ≤ cap
    → length front + 1 ≤ cap
    → (32 ≤ grown k front cap) × (length (front ++ l) + 2 ≤ grown k front cap)
grown_lem k front l cap e short big fits = (ground arith, ground (arith, length-append front l))

dns2host_loop_lem :
    (ls : List (List ℕ)) (fuel : ℕ) (mem : ℕ → ℕ) (dns end s n : ℕ) (chars : List ℕ) (cap : ℕ)
    → length ls < fuel
    → Reads mem s (encode ls ++ (0 ∷ []))
    → s + length (encode ls) ≤ end
    → AreShort ls
    → 32 ≤ cap
    → length chars + 2 ≤ cap
    → (cap' : ℕ) × (dns2host_loop fuel mem dns end s n chars cap
        ≡ some (record { chars = decoded n chars ls; cap = cap' }))
      × (length (decoded n chars ls) < cap')
dns2host_loop_lem ls zero mem dns end s n chars cap lt r low v big fits = absurd (omega arith)
dns2host_loop_lem [] (suc fuel) mem dns end s n chars cap lt r low v big fits =
    (cap, end_step fuel mem dns end s n chars cap r.0, omega arith)
dns2host_loop_lem (l ∷ ls) (suc fuel) mem dns end s n chars cap lt r low v big fits =
    let k : ℕ = length l in
    let d = length-dotted n chars in
    let cap1 = grown k (dotted n chars) cap in
    let bytes : Reads mem (s + 1) (l ++ (encode ls ++ (0 ∷ []))) =
      subst (Reads mem (s + 1)) (append_assoc l (encode ls) (0 ∷ [])) r.1 in
    let (copied, after) = copy_bytes-Reads mem (s + 1) l (encode ls ++ (0 ∷ [])) bytes in
    let (big1, fits1) = grown_lem k (dotted n chars) l cap refl v.0.1 big (omega (arith, d)) in
    let (cap', is, room) =
      dns2host_loop_lem ls fuel mem dns end (s + 1 + k) k (dotted n chars ++ l) cap1 (omega arith)
        after (omega (arith, length-append l (encode ls))) v.1 big1 fits1 in
    let step =
      label_step fuel mem dns end s n k l chars cap r.0 refl copied v.0.0 v.0.1
        (omega (arith, length-append l (encode ls))) big fits in
    (cap', step ∙ is, room)

decoded_more :
    (n : ℕ) (chars l : List ℕ) (ls : List (List ℕ))
    → 0 < n
    → AreShort (l ∷ ls)
    → decoded n chars (l ∷ ls) ≡ chars ++ (b'.' ∷ join l ls)
decoded_more n chars l [] pos v =
    let e : ltb 0 n ≡ true = ground arith in rw e (append_assoc chars (b'.' ∷ []) l)
decoded_more n chars l (m ∷ ls) pos v =
    let e : ltb 0 n ≡ true = ground arith in
    rw e (
      decoded_more (length l) ((chars ++ (b'.' ∷ [])) ++ l) m ls v.0.0 v.1
      ∙ append_assoc (chars ++ (b'.' ∷ [])) l (b'.' ∷ join m ls)
      ∙ append_assoc chars (b'.' ∷ []) (l ++ (b'.' ∷ join m ls)))

decoded-join :
    (l : List ℕ) (ls : List (List ℕ)) → AreShort (l ∷ ls) → decoded 0 [] (l ∷ ls) ≡ join l ls
decoded-join l [] v = refl
decoded-join l (m ∷ ls) v = decoded_more (length l) l m ls v.0.0 v.1

-- A host name of labels that are not empty, have at most 31 characters and no dot, with fewer than
-- 256 characters in all: `host2dns_name` into a buffer that is longer by three or more succeeds, and
-- writes each label behind its length, and a NUL. Where these bytes stand in memory, below the end
-- of a message, `dns2host_name` of them gives back the host name, with room for the NUL in the memory
-- that it took. One round for each label, and one more, is enough.
pub dns2host_name-host2dns_name :
    (l : List ℕ) (ls : List (List ℕ)) (x : ℕ) (tail : List ℕ) (mem : ℕ → ℕ) (dns dns_size s : ℕ)
    → AreDotless (l ∷ ls)
    → AreShort (l ∷ ls)
    → length (join l ls) < 256
    → length (join l ls) + 2 ≤ length tail
    → s + length (encode (l ∷ ls)) ≤ dns + dns_size
    → Reads mem s (encode (l ∷ ls) ++ (0 ∷ []))
    → ((rest : List ℕ) × (host2dns_name (join l ls) (x ∷ tail) (length tail + 1)
          ≡ some (encode (l ∷ ls) ++ (0 ∷ rest), length tail + 1 - length (join l ls) - 2)))
      × ((cap : ℕ) × (dns2host_name (length ls + 2) mem dns dns_size s
            ≡ some (record { chars = join l ls; cap = cap }))
          × (length (join l ls) < cap))
unfolding dns2host_name
dns2host_name-host2dns_name l ls x tail mem dns dns_size s dotless short few room low r =
    let (rest, is) = host2dns_name_lem (join l ls) x tail few room in
    let left : ℕ = length tail + 1 - length (join l ls) - 2 in
    let (cap, found, fits) =
      dns2host_loop_lem (l ∷ ls) (length ls + 2) mem dns (dns + dns_size) s 0 [] 32 (omega arith) r
        low short (omega arith) (omega arith) in
    let whole = decoded-join l ls short in
    (
      (rest, is ∙ ap (λ (k : List ℕ). some (k ++ (0 ∷ rest), left)) (wire_from-join l ls dotless)),
      (
        cap,
        found ∙ ap (λ (k : List ℕ). some (record { chars = k; cap = cap })) whole,
        omega (arith, fits, ap length whole),
      ),
    )
