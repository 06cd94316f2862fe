-- ===== src/Net/Dns/Flags.antt =====
-- A header that is sent is the header that is received.
use c_osiris.Base.{ℕ, ◌/◌, ◌%◌, ◌<◌, ◌≡◌, ap, ◌∙◌, arith}
use c_osiris.Word.{htons, ntohs}
use c_osiris.Net.Dns.{Header, pack, dns2buf, buf2dns}

-- Each field fits its bits.
pub record IsValid (h : Header) : Type 0 where
  pub qr_bit : h.qr < 2
  pub opcode_bits : h.opcode < 16
  pub aa_bit : h.aa < 2
  pub tc_bit : h.tc < 2
  pub rd_bit : h.rd < 2
  pub ra_bit : h.ra < 2
  pub z_bit : h.z < 2
  pub ad_bit : h.ad < 2
  pub cd_bit : h.cd < 2
  pub rcode_bits : h.rcode < 16
  pub id_word : h.id < 65536
  pub q_word : h.q_count < 65536
  pub ans_word : h.ans_count < 65536
  pub auth_word : h.auth_count < 65536
  pub add_word : h.add_count < 65536

-- The fields are those of the other header.
pub record Same (g h : Header) : Type 0 where
  pub id : g.id ≡ h.id
  pub qr : g.qr ≡ h.qr
  pub opcode : g.opcode ≡ h.opcode
  pub aa : g.aa ≡ h.aa
  pub tc : g.tc ≡ h.tc
  pub rd : g.rd ≡ h.rd
  pub ra : g.ra ≡ h.ra
  pub z : g.z ≡ h.z
  pub ad : g.ad ≡ h.ad
  pub cd : g.cd ≡ h.cd
  pub rcode : g.rcode ≡ h.rcode
  pub counts :
      (g.q_count ≡ h.q_count)
      × ((g.ans_count ≡ h.ans_count)
          × ((g.auth_count ≡ h.auth_count) × (g.add_count ≡ h.add_count)))

swapped : (n : ℕ) → n < 65536 → ntohs (htons n) ≡ n
swapped n h = omega arith

pack-lt : (h : Header) → IsValid h → pack h < 65536
pack-lt h v = omega (
  arith, v.qr_bit, v.opcode_bits, v.aa_bit, v.tc_bit, v.rd_bit, v.ra_bit, v.z_bit, v.ad_bit,
  v.cd_bit, v.rcode_bits,
)

-- Written by `dns2buf` and read by `buf2dns`, a header whose fields fit their bits is the same in
-- every field.
pub buf2dns-dns2buf : (h : Header) → IsValid h → Same (buf2dns (dns2buf h)) h
buf2dns-dns2buf h v =
    let p : ntohs (htons (pack h)) ≡ pack h = swapped (pack h) (pack-lt h v) in
    record {
      id = swapped h.id v.id_word;
      qr = ap (λ n. n / 32768 % 2) p ∙ omega arith;
      opcode = ap (λ n. n / 2048 % 16) p ∙ omega arith;
      aa = ap (λ n. n / 1024 % 2) p ∙ omega arith;
      tc = ap (λ n. n / 512 % 2) p ∙ omega arith;
      rd = ap (λ n. n / 256 % 2) p ∙ omega arith;
      ra = ap (λ n. n / 128 % 2) p ∙ omega arith;
      z = ap (λ n. n / 64 % 2) p ∙ omega arith;
      ad = ap (λ n. n / 32 % 2) p ∙ omega arith;
      cd = ap (λ n. n / 16 % 2) p ∙ omega arith;
      rcode = ap (λ n. n % 16) p ∙ omega arith;
      counts = (
        swapped h.q_count v.q_word,
        (
          swapped h.ans_count v.ans_word,
          (swapped h.auth_count v.auth_word, swapped h.add_count v.add_word),
        ),
      );
    }
