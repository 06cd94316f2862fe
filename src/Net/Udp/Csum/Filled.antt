-- ===== src/Net/Udp/Csum/Filled.antt =====
-- The checksum of a datagram that holds its own checksum.
use c_osiris.Base.{
  ℕ, zero, suc, ◌+◌, ◌-◌, ◌*◌, ◌/◌, ◌%◌, ◌≤◌, ◌<◌, ◌≡◌, refl, sym, ap, ◌∙◌, List, [], ◌∷◌, ltb,
  ◌==◌, if◌then◌else◌, get_or, length, arith, true, ◌||◌,
}
use native.Mathlib.Nat.{mod-eq_of_lt}
use c_osiris.Base.Words.{add32, u32_mod}
use c_osiris.Net.Ip.{fold_once}
use c_osiris.Net.Ip.Checksum.{AreWords}
use c_osiris.Net.Udp.Csum.{
  UdpHdr, Ends, data_words, halves, pseudo_sum, sum_loop, udp_words, udp_sum, udp_csum, buf2udp,
  written, draft, has_good_csum,
}
use c_osiris.Word.{htons, ntohs}
use c_osiris.Word.Swap.{ntohs-htons}

abbrev pub AreOctets : List ℕ → Type 0
AreOctets [] = Unit {0}
AreOctets (b ∷ bs) = (b < 256) × AreOctets bs

data_words-AreWords : (bs : List ℕ) → AreOctets bs → AreWords (data_words bs)
unfolding data_words
data_words-AreWords [] v = tt
data_words-AreWords (b ∷ []) v = (omega arith, tt)
data_words-AreWords (b ∷ c ∷ bs) v = (omega arith, data_words-AreWords bs v.1.1)

-- What the loop adds behind the header, without wrap-around.
abbrev data_total : ℕ → ℕ → List ℕ → ℕ
data_total odd zero ws = if odd == 0 then 0 else get_or ws 0 0 % 256
data_total odd (suc n) [] = 0
data_total odd (suc n) (w ∷ ws) = w + data_total odd n ws

data_total-le : (odd n : ℕ) (ws : List ℕ) → AreWords ws → data_total odd n ws ≤ n * 65535 + 255
data_total-le odd zero ws v = ground arith
data_total-le odd (suc n) [] v = omega arith
data_total-le odd (suc n) (w ∷ ws) v = omega (arith, v.0, data_total-le odd n ws v.1)

step_data : (i w : ℕ) → 4 ≤ i → (if ltb i 4 then htons w else w) ≡ w
step_data i w h = ground arith

sum_data :
    (odd n i : ℕ) (ws : List ℕ) (s : ℕ)
    → 4 ≤ i
    → s + data_total odd n ws < u32_mod
    → sum_loop odd n i ws s ≡ s + data_total odd n ws
unfolding sum_loop
sum_data odd zero i ws s h lt =
    ground (arith, mod-eq_of_lt {n = s + get_or ws 0 0 % 256} {m = u32_mod})
sum_data odd (suc n) i [] s h lt = omega arith
sum_data odd (suc n) i (w ∷ ws) s h lt =
    let same : add32 s (if ltb i 4 then htons w else w) ≡ s + w =
      ap (add32 s) (step_data i w h) ∙ mod-eq_of_lt (omega arith) in
    rw same (omega (arith, sum_data odd n (i + 1) ws (s + w) (omega arith) (omega arith)))

-- Once the carries are added in, the complement fills the sum up.
fold_filled :
    (s : ℕ) → fold_once s < 65536 → fold_once (s + (65535 - fold_once s % 65536)) % 65536 ≡ 65535
fold_filled s h = omega arith

htons_le : (w : ℕ) → htons w ≤ 65535
htons_le w = omega arith

halves_le : (ip : ℕ) → halves ip ≤ 131070
halves_le ip = omega arith

htons_back : (c : ℕ) → c < 65536 → htons (ntohs c) ≡ c
htons_back c h = omega arith

add32_three :
    (a b c d : ℕ) → a + b + c + d < u32_mod → add32 (add32 (add32 a b) c) d ≡ a + b + c + d
add32_three a b c d h = omega arith

sum_head :
    (odd m a b c d : ℕ) (ws : List ℕ) (s : ℕ)
    → s + htons a + htons b + htons c + htons d + data_total odd m ws < u32_mod
    → sum_loop odd (suc (suc (suc (suc m)))) 0 (a ∷ b ∷ c ∷ d ∷ ws) s
      ≡ s + htons a + htons b + htons c + htons d + data_total odd m ws
unfolding sum_loop
sum_head odd m a b c d ws s h =
    let first : add32 s (htons a) ≡ s + htons a = mod-eq_of_lt (omega arith) in
    let three = add32_three (s + htons a) (htons b) (htons c) (htons d) (omega arith) in
    ap (λ t. sum_loop odd m 4 ws (add32 (add32 (add32 t (htons b)) (htons c)) (htons d))) first
    ∙ ap (sum_loop odd m 4 ws) three
    ∙ sum_data odd m 4 ws (s + htons a + htons b + htons c + htons d) (omega arith) h

add32_le : (a b : ℕ) → add32 a b ≤ a + b
add32_le a b = omega arith

complement_lt : (x : ℕ) → 65535 - x < 65536
complement_lt x = omega arith

complement_zero :
    (s t : ℕ)
    → fold_once s < 65536
    → t ≡ s + (65535 - fold_once s % 65536)
    → 65535 - fold_once t % 65536 ≡ 0
complement_zero s t h e =
    ap (λ x. 65535 - fold_once x % 65536) e ∙ ap (λ x. 65535 - x) (fold_filled s h)

no_csum : (r w : ℕ) → w ≡ 0 → r + htons w ≡ r
no_csum r w h = omega arith

-- What the sum has but for the checksum.
abbrev rest_of : UdpHdr → Ends → List ℕ → ℕ → ℕ
rest_of u e bytes m =
    pseudo_sum u e
    + htons u.sport
    + htons u.dport
    + htons u.len
    + data_total (u.len % 2) m (data_words bytes)

rest_of-le :
    (u : UdpHdr) (e : Ends) (bytes : List ℕ) (m : ℕ)
    → AreOctets bytes
    → m < 32768
    → rest_of u e bytes m + 65535 < u32_mod
rest_of-le u e bytes m v h =
    let p : pseudo_sum u e ≤ 393210 = omega (
      arith,
      add32_le (add32 (add32 (halves e.saddr) (halves e.daddr)) (htons e.proto)) (htons u.len),
      add32_le (add32 (halves e.saddr) (halves e.daddr)) (htons e.proto),
      add32_le (halves e.saddr) (halves e.daddr),
      halves_le e.saddr,
      halves_le e.daddr,
      htons_le e.proto,
      htons_le u.len,
    ) in
    omega (
      arith,
      p,
      htons_le u.sport,
      htons_le u.dport,
      htons_le u.len,
      data_total-le (u.len % 2) m (data_words bytes) (data_words-AreWords bytes v),
    )

udp_sum_lem :
    (u : UdpHdr) (e : Ends) (bytes : List ℕ) (m : ℕ)
    → AreOctets bytes
    → u.len < 65536
    → u.len / 2 ≡ suc (suc (suc (suc m)))
    → udp_sum u e bytes ≡ rest_of u e bytes m + htons u.csum
unfolding udp_sum
udp_sum_lem u e bytes m v lt h =
    ap (λ n. sum_loop (u.len % 2) n 0 (udp_words u bytes) (pseudo_sum u e)) h
    ∙ sum_head (u.len % 2) m u.sport u.dport u.len u.csum (data_words bytes) (pseudo_sum u e)
        (omega (arith, htons_le u.csum, rest_of-le u e bytes m v (omega arith)))
    ∙ omega arith

udp_csum-filled :
    (u : UdpHdr) (e : Ends) (bytes : List ℕ)
    → AreOctets bytes
    → u.len ≡ 8 + length bytes
    → u.len < 65536
    → u.csum ≡ 0
    → fold_once (udp_sum u e bytes) < 65536
    → udp_csum (record u { csum = ntohs (udp_csum u e bytes) }) e bytes ≡ 0
unfolding udp_csum
udp_csum-filled u e bytes v len lt zero_csum carry =
    let m = u.len / 2 - 4 in
    let half : u.len / 2 ≡ suc (suc (suc (suc m))) = omega arith in
    let r = rest_of u e bytes m in
    let first : udp_sum u e bytes ≡ r =
      udp_sum_lem u e bytes m v lt half ∙ no_csum r u.csum zero_csum in
    let c = udp_csum u e bytes in
    let second : udp_sum (record u { csum = ntohs c }) e bytes ≡ r + c =
      udp_sum_lem (record u { csum = ntohs c }) e bytes m v lt half
      ∙ ap (λ w. r + w) (htons_back c (complement_lt _)) in
    complement_zero (udp_sum u e bytes) _ carry (second ∙ ap (λ x. x + c) (sym first))

-- A header of which the fields are known.
header_eq :
    (u v : UdpHdr) → u.sport ≡ v.sport → u.dport ≡ v.dport → u.len ≡ v.len → u.csum ≡ v.csum → u ≡ v
header_eq u v p q r t =
    ap (λ x. record u { sport = x }) p
    ∙ ap (λ x. record u { sport = v.sport; dport = x }) q
    ∙ ap (λ x. record u { sport = v.sport; dport = v.dport; len = x }) r
    ∙ ap (λ x. record v { csum = x }) t

or_good : (a b : ℕ) → b ≡ 0 → (a == 0 || b == 0) ≡ true
or_good a b h = ground arith

-- A datagram of `udp_write` passes the checksum test of `udp_process`: where its length fits in 16 bits,
-- and the sum of its words has no carry left when the carries are added in once.
pub has_good_csum-written :
    (sport dport : ℕ) (e : Ends) (bytes : List ℕ)
    → AreOctets bytes
    → sport < 65536
    → dport < 65536
    → 8 + length bytes < 65536
    → fold_once (udp_sum (draft sport dport bytes) e bytes) < 65536
    → has_good_csum (written sport dport e bytes) e bytes ≡ true
unfolding has_good_csum written
has_good_csum-written sport dport e bytes v s d l carry =
    let u = draft sport dport bytes in
    let c = udp_csum u e bytes in
    let back : buf2udp (written sport dport e bytes) ≡ record u { csum = ntohs c } =
      header_eq (buf2udp (written sport dport e bytes)) (record u { csum = ntohs c })
        (ntohs-htons sport 0 s (omega arith)).0 (ntohs-htons dport 0 d (omega arith)).0
        (ntohs-htons (8 + length bytes) 0 l (omega arith)).0 refl in
    or_good _ _ (ap (λ w. udp_csum w e bytes) back ∙ udp_csum-filled u e bytes v refl l refl carry)
