-- ===== src/Net/Ip/Wire.antt =====
-- The header conversions of ip.c on a little-endian machine. A byte or word that two bit fields
-- share is one field here, with the first of them in its low bits.
use c_osiris.Base.{ℕ, ◌+◌, ◌*◌, ◌/◌, ◌%◌, ◌<◌, ◌≡◌, ap, ◌∙◌, arith}
use c_osiris.Base.Words.{u32_mod}
use c_osiris.Word.{htons, ntohs, ntohl}

pub record Ipv4Hdr : Type 0 where
  pub version_ihl : ℕ
  pub tos : ℕ
  pub len : ℕ
  pub id : ℕ
  pub flags_offs : ℕ
  pub ttl : ℕ
  pub proto : ℕ
  pub csum : ℕ
  pub saddr : ℕ
  pub daddr : ℕ

-- `version` and `ihl` swapped.
abbrev pub swap_nibbles : ℕ → ℕ
swap_nibbles b = b % 16 * 16 + b / 16

abbrev pub buf2ipv4 : Ipv4Hdr → Ipv4Hdr
buf2ipv4 h = record h {
  version_ihl = swap_nibbles h.version_ihl;
  len = ntohs h.len;
  id = ntohs h.id;
  flags_offs = ntohs h.flags_offs / 8192 % 8 + ntohs h.flags_offs % 8192 * 8;
  csum = ntohs h.csum;
  saddr = ntohl h.saddr;
  daddr = ntohl h.daddr;
}

abbrev pub ipv42buf : Ipv4Hdr → Ipv4Hdr
ipv42buf h = record h {
  version_ihl = swap_nibbles h.version_ihl;
  len = ntohs h.len;
  id = ntohs h.id;
  flags_offs = htons (h.flags_offs % 8 * 8192 + h.flags_offs / 8);
  csum = ntohs h.csum;
  saddr = ntohl h.saddr;
  daddr = ntohl h.daddr;
}

-- Every field fits in its bits.
pub record IsHeader (h : Ipv4Hdr) : Type 0 where
  pub first : h.version_ihl < 256
  pub len_word : h.len < 65536
  pub id_word : h.id < 65536
  pub offs_word : h.flags_offs < 65536
  pub csum_word : h.csum < 65536
  pub saddr_word : h.saddr < u32_mod
  pub daddr_word : h.daddr < u32_mod

-- A header of which the converted fields are known.
same_header :
    (h : Ipv4Hdr) (b l i f c s d : ℕ)
    → b ≡ h.version_ihl
    → l ≡ h.len
    → i ≡ h.id
    → f ≡ h.flags_offs
    → c ≡ h.csum
    → s ≡ h.saddr
    → d ≡ h.daddr
    → record h { version_ihl = b; len = l; id = i; flags_offs = f; csum = c; saddr = s; daddr = d }
      ≡ h
same_header h b l i f c s d pb pl pi pf pc ps pd =
    ap
      (λ x. record h {
        version_ihl = x;
        len = l;
        id = i;
        flags_offs = f;
        csum = c;
        saddr = s;
        daddr = d;
      })
      pb
    ∙ ap (λ x. record h { len = x; id = i; flags_offs = f; csum = c; saddr = s; daddr = d }) pl
    ∙ ap (λ x. record h { id = x; flags_offs = f; csum = c; saddr = s; daddr = d }) pi
    ∙ ap (λ x. record h { flags_offs = x; csum = c; saddr = s; daddr = d }) pf
    ∙ ap (λ x. record h { csum = x; saddr = s; daddr = d }) pc
    ∙ ap (λ x. record h { saddr = x; daddr = d }) ps
    ∙ ap (λ x. record h { daddr = x }) pd

-- The two conversions undo each other on a header whose fields fit in their bits.
pub buf2ipv4-ipv42buf :
    (h : Ipv4Hdr) → IsHeader h → (buf2ipv4 (ipv42buf h) ≡ h) × (ipv42buf (buf2ipv4 h) ≡ h)
buf2ipv4-ipv42buf h v = (
  same_header h _ _ _ _ _ _ _ (omega (arith, v.first)) (omega (arith, v.len_word))
      (omega (arith, v.id_word)) (omega (arith, v.offs_word)) (omega (arith, v.csum_word))
      (omega (arith, v.saddr_word)) (omega (arith, v.daddr_word)),
  same_header h _ _ _ _ _ _ _ (omega (arith, v.first)) (omega (arith, v.len_word))
      (omega (arith, v.id_word)) (omega (arith, v.offs_word)) (omega (arith, v.csum_word))
      (omega (arith, v.saddr_word)) (omega (arith, v.daddr_word)),
)
