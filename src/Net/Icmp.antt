-- ===== src/Net/Icmp.antt =====
-- icmp.c: the answer to an echo request. A buffer is the words of its headers, and those behind.
pub mod Reply
mod Tests
use c_osiris.Base.{
  ℕ, zero, suc, ◌+◌, ◌-◌, ◌++◌, ◌*◌, ◌/◌, ◌%◌, List, [], ◌∷◌, not, ◌==◌, if◌then◌else◌,
}
use c_osiris.Net.Ip.{ip_csum, iphlen}
use c_osiris.Net.Ip.Wire.{Ipv4Hdr, ipv42buf}
use c_osiris.Word.{htons, ntohs}

-- A frame: its Ethernet header, its IP header with the words of its options, and the ICMP header, which
-- begins `ihl * 4` bytes behind the start of the IP header, with the 16-bit words of the buffer behind.
pub record Frame : Type 0 where
  pub dmac : ℕ
  pub smac : ℕ
  pub eth_type : ℕ
  pub ip : Ipv4Hdr
  pub options : List ℕ
  pub type : ℕ
  pub code : ℕ
  pub csum : ℕ
  pub data_words : List ℕ

-- The words that a checksum over `n` bytes adds: of an odd byte at the end, the low byte of its word.
unfoldable pub cut : ℕ → List ℕ → List ℕ
cut zero ws = []
cut (suc n) [] = []
cut (suc zero) (w ∷ ws) = w % 256 ∷ []
cut (suc (suc n)) (w ∷ ws) = w ∷ cut n ws

-- The buffer from the ICMP header on.
abbrev pub icmp_words : Frame → List ℕ
icmp_words f = (f.type + f.code * 256) ∷ f.csum ∷ f.data_words

-- The words of an IP header, as they lie in memory.
abbrev pub ip_words : Ipv4Hdr → List ℕ
ip_words h =
    (h.version_ihl + h.tos * 256)
    ∷ h.len
    ∷ h.id
    ∷ h.flags_offs
    ∷ (h.ttl + h.proto * 256)
    ∷ h.csum
    ∷ h.saddr % 65536
    ∷ h.saddr / 65536
    ∷ h.daddr % 65536
    ∷ h.daddr / 65536
    ∷ []

-- `ip_csum(icmph, iph->len - sizeof(*iph))`.
abbrev pub icmp_csum : Frame → ℕ
icmp_csum f = ip_csum (cut (f.ip.len - 20) (icmp_words f))

-- The ICMP part, the IP part and the Ethernet part of `icmpv4_echo_reply`.
unfoldable pub reply_icmp : Frame → Frame
unfolding cut
reply_icmp f =
    let f' = record f { type = 0; code = 0; csum = htons 0 } in record f' { csum = icmp_csum f' }

-- `ip_csum(iph, iphlen(iph))` of a header in network format.
abbrev pub header_csum : Ipv4Hdr → List ℕ → ℕ
header_csum h options = ip_csum (cut (iphlen h.version_ihl) (ip_words h ++ options))

unfoldable pub reply_ip : Ipv4Hdr → List ℕ → Ipv4Hdr
unfolding cut
reply_ip h options =
    let h' = ipv42buf (record h { daddr = h.saddr; saddr = h.daddr; ttl = 64; csum = 0 }) in
    record h' { csum = header_csum h' options }

-- `icmpv4_echo_reply`: the frame that is sent, at the address of the interface.
unfoldable pub icmpv4_echo_reply : ℕ → Frame → Frame
unfolding reply_icmp reply_ip
icmpv4_echo_reply mac f =
    let f' = reply_icmp f in
    record f' {
      ip = reply_ip f.ip f.options;
      dmac = f.smac;
      smac = mac;
      eth_type = htons f.eth_type;
    }

pub data Outcome : Type 0 where
  bad_csum ignored : Outcome
  sent : Frame → Outcome

-- `icmpv4_process`.
unfoldable pub icmpv4_process : ℕ → Frame → Outcome
unfolding icmpv4_echo_reply
icmpv4_process mac f =
    if not (icmp_csum f == 0)
    then bad_csum
    else if f.type == 8
    then sent (icmpv4_echo_reply mac (record f { csum = ntohs f.csum }))
    else ignored
