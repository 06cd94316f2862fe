-- ===== src/Net/Icmp/Tests.antt =====
-- A ping and its answer.
use c_osiris.Base.{◌≡◌, refl, [], ◌∷◌, arith}
use c_osiris.Net.Icmp.{Frame, icmpv4_process, sent, bad_csum}
use c_osiris.Net.Icmp.Reply.{IsPacked, IsAnswer, icmpv4_process-IsAnswer}

abbrev ping : Frame
ping = record {
  dmac = 0x525400123456;
  smac = 0x525400ABCDEF;
  eth_type = 0x0800;
  ip = record {
    version_ihl = 84;
    tos = 0;
    len = 30;
    id = 7;
    flags_offs = 2;
    ttl = 63;
    proto = 1;
    csum = 0;
    saddr = 0x0A000202;
    daddr = 0x0A00020F;
  };
  options = [];
  type = 8;
  code = 0;
  csum = 0xFDF4;
  data_words = 1 ∷ 2 ∷ 0x200 ∷ [];
}

ping-IsPacked : IsPacked ping.ip
ping-IsPacked = record {
  fields = record {
    first = omega arith;
    len_word = omega arith;
    id_word = omega arith;
    offs_word = omega arith;
    csum_word = omega arith;
    saddr_word = omega arith;
    daddr_word = omega arith;
  };
  tos_byte = omega arith;
  proto_byte = omega arith;
}

icmpv4_process-IsAnswer_example :
    (r : Frame) × ((icmpv4_process 0x525400123456 ping ≡ sent r) × IsAnswer 0x525400123456 ping r)
unfolding c_osiris.Net.Ip.ip_csum c_osiris.Net.Icmp.cut
icmpv4_process-IsAnswer_example =
    icmpv4_process-IsAnswer 0x525400123456 ping ping-IsPacked refl (omega arith) (omega arith)
      (omega arith, (omega arith, (omega arith, tt))) refl refl

corrupted : icmpv4_process 0 (record ping { csum = 1 }) ≡ bad_csum
unfolding icmpv4_process c_osiris.Net.Ip.ip_csum c_osiris.Net.Icmp.cut
corrupted = refl
