-- ===== src/Net/Icmp/Reply.antt =====
-- What an echo request is answered with.
use c_osiris.Base.{
  ℕ, zero, suc, ◌-◌, ◌++◌, List, ap, ◌∙◌, ◌+◌, ◌*◌, ◌/◌, ◌%◌, ◌≤◌, ◌<◌, ◌≡◌, refl, [], ◌∷◌, ◌==◌,
  not, if◌then◌else◌, length, arith, Bool, true, false, ==-eq_true,
}
use c_osiris.Base.Words.{u32_mod}
use c_osiris.Net.Ip.{ip_csum, iphlen}
use c_osiris.Net.Ip.Checksum.{AreWords, ip_csum-filled}
use c_osiris.Net.Ip.Wire.{Ipv4Hdr, IsHeader, buf2ipv4}
use c_osiris.Net.Icmp.{
  Frame, cut, icmp_csum, header_csum, icmp_words, ip_words, reply_icmp, reply_ip, icmpv4_echo_reply,
  sent, bad_csum, ignored, icmpv4_process,
}
use c_osiris.Word.{ntohl, htons, ntohs}

-- The bytes of the header are bytes.
pub record IsPacked (h : Ipv4Hdr) : Type 0 where
  pub fields : IsHeader h
  pub tos_byte : h.tos < 256
  pub proto_byte : h.proto < 256

-- A good answer to a request.
pub record IsAnswer (mac : ℕ) (f r : Frame) : Type 0 where
  pub icmp_good : ip_csum (cut ((buf2ipv4 r.ip).len - 20) (icmp_words r)) ≡ 0
  pub ip_good : header_csum r.ip r.options ≡ 0
  pub to : (buf2ipv4 r.ip).daddr ≡ f.ip.saddr
  pub back : (buf2ipv4 r.ip).saddr ≡ f.ip.daddr
  pub same : r.data_words ≡ f.data_words
  pub reply_type : r.type ≡ 0
  pub to_mac : r.dmac ≡ f.smac
  pub from_mac : r.smac ≡ mac

swap_back : (a : ℕ) → a < u32_mod → ntohl (ntohl a) ≡ a
swap_back a h = omega arith

htons_lt : (n : ℕ) → htons n < 65536
htons_lt n = omega arith

high_half : (a : ℕ) → (ntohl a % 65536 < 65536) × (ntohl a / 65536 < 65536)
high_half a = (omega arith, omega arith)

-- The tests of a request that is good.
answered :
    (b c : Bool) (x : Frame)
    → b ≡ true
    → c ≡ true
    → (if not b then bad_csum else if c then sent x else ignored) ≡ sent x
answered true true x p q = refl
answered true false x p q = absurd (ground arith)
answered false c x p q = absurd (ground arith)

cut-AreWords : (n : ℕ) (ws : List ℕ) → AreWords ws → AreWords (cut n ws)
unfolding cut
cut-AreWords zero ws v = tt
cut-AreWords (suc n) [] v = tt
cut-AreWords (suc zero) (w ∷ ws) v = (omega arith, tt)
cut-AreWords (suc (suc n)) (w ∷ ws) v = (v.0, cut-AreWords n ws v.1)

length-cut : (n : ℕ) (ws : List ℕ) → length (cut n ws) ≤ n
unfolding cut
length-cut zero ws = omega arith
length-cut (suc n) [] = omega arith
length-cut (suc zero) (w ∷ ws) = omega arith
length-cut (suc (suc n)) (w ∷ ws) = omega (arith, length-cut n ws)

-- The checksum over the ICMP header and `m` bytes behind it.
icmp_cut : (m a c : ℕ) (ws : List ℕ) → cut (suc (suc (suc (suc m)))) (a ∷ c ∷ ws) ≡ a ∷ c ∷ cut m ws
unfolding cut
icmp_cut m a c ws = refl

reply_icmp-good :
    (f : Frame) (m : ℕ)
    → AreWords f.data_words
    → m < 65512
    → f.ip.len - 20 ≡ suc (suc (suc (suc m)))
    → ip_csum (cut (f.ip.len - 20) (icmp_words (reply_icmp f))) ≡ 0
unfolding reply_icmp
reply_icmp-good f m v small e =
    let after = cut m f.data_words in
    let words =
      λ (c : ℕ). ap (λ (n : ℕ). cut n (0 ∷ c ∷ f.data_words)) e ∙ icmp_cut m 0 c f.data_words in
    ap ip_csum (words (ip_csum (cut (f.ip.len - 20) (0 ∷ 0 ∷ f.data_words))))
    ∙ ap (λ (l : List ℕ). ip_csum (0 ∷ ip_csum l ∷ after)) (words 0)
    ∙ ip_csum-filled (0 ∷ []) after (omega arith, (omega arith, cut-AreWords m f.data_words v))
        (omega (arith, length-cut m f.data_words))

-- A header of 20 bytes is summed without what is behind it.
plain_csum :
    (h : Ipv4Hdr) (options : List ℕ)
    → iphlen h.version_ihl ≡ 20
    → header_csum h options ≡ ip_csum (ip_words h)
unfolding cut
plain_csum h options e = ap (λ (n : ℕ). ip_csum (cut n (ip_words h ++ options))) e

reply_ip-good :
    (h : Ipv4Hdr) (options : List ℕ)
    → IsPacked h
    → h.version_ihl ≡ 84
    → header_csum (reply_ip h options) options ≡ 0
unfolding reply_ip
reply_ip-good h options v plain =
    let k = reply_ip h options in
    let blank = record k { csum = 0 } in
    let w = v.fields in
    let len : iphlen k.version_ihl ≡ 20 = omega (arith, plain) in
    let first : k.version_ihl + k.tos * 256 < 65536 = omega (arith, w.first, v.tos_byte) in
    let offs : k.flags_offs < 65536 = htons_lt (h.flags_offs % 8 * 8192 + h.flags_offs / 8) in
    let ttl : k.ttl + k.proto * 256 < 65536 = omega (arith, v.proto_byte) in
    let from = high_half h.daddr in
    let to = high_half h.saddr in
    plain_csum k options len
    ∙ ap (λ (c : ℕ). ip_csum (ip_words (record k { csum = c }))) (plain_csum blank options len)
    ∙ ip_csum-filled
        ((k.version_ihl + k.tos * 256) ∷ k.len ∷ k.id ∷ k.flags_offs ∷ (k.ttl + k.proto * 256) ∷ [])
        (k.saddr % 65536 ∷ k.saddr / 65536 ∷ k.daddr % 65536 ∷ k.daddr / 65536 ∷ [])
        (
          first,
          (
            htons_lt h.len,
            (htons_lt h.id, (offs, (ttl, (omega arith, (from.0, (from.1, (to.0, (to.1, tt)))))))),
          ),
        )
        (omega arith)

-- An echo request in a packet of IPv4 without options (the byte of version and `ihl` is 84, 4 and 5
-- in host format) that has an ICMP header at least and lies in the buffer, whose header fields fit in their bits and whose
-- checksum is good, is answered: the frame that is sent has a good checksum over the ICMP message, of
-- the length in its IP header, and over its IP header, its addresses are those of the request
-- exchanged, and it has the data of the request.
pub icmpv4_process-IsAnswer :
    (mac : ℕ) (f : Frame)
    → IsPacked f.ip
    → f.ip.version_ihl ≡ 84
    → 24 ≤ f.ip.len
    → f.ip.len ≤ 24 + 2 * length f.data_words
    → AreWords f.data_words
    → f.type ≡ 8
    → icmp_csum f ≡ 0
    → (r : Frame) × ((icmpv4_process mac f ≡ sent r) × IsAnswer mac f r)
unfolding icmpv4_process reply_ip reply_icmp
icmpv4_process-IsAnswer mac f p plain whole inside v echo good =
    let f' = record f { csum = ntohs f.csum } in
    let m : ℕ = f.ip.len - 24 in
    let r = icmpv4_echo_reply mac f' in
    let len : ntohs (ntohs f.ip.len) ≡ f.ip.len = omega (arith, p.fields.len_word) in
    (
      r,
      (
        answered (icmp_csum f == 0) (f.type == 8) _ (==-eq_true _ 0 good)
            (==-eq_true f.type 8 echo),
        record {
          icmp_good =
              ap (λ (n : ℕ). ip_csum (cut (n - 20) (icmp_words r))) len
              ∙ reply_icmp-good f' m v (omega (arith, p.fields.len_word)) (omega arith);
          ip_good = reply_ip-good f.ip f.options p plain;
          to = swap_back f.ip.saddr p.fields.saddr_word;
          back = swap_back f.ip.daddr p.fields.daddr_word;
          same = refl;
          reply_type = refl;
          to_mac = refl;
          from_mac = refl;
        },
      ),
    )
