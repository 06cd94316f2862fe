-- ===== src/Net/Dns.antt =====
-- dns.c: the flags of a message on the wire, and the list of servers.
pub mod Flags
pub mod Names
pub mod Wire
pub mod RoundTrip
mod Tests
use c_osiris.Base.{ℕ, ◌+◌, ◌*◌, ◌/◌, ◌%◌, Option, List}
use c_osiris.Word.{htons, ntohs}
use c_osiris.Net.Queue.{add_first}

-- `struct dns_hdr`, in host format.
pub record Header : Type 0 where
  pub id : ℕ
  pub qr : ℕ
  pub opcode : ℕ
  pub aa : ℕ
  pub tc : ℕ
  pub rd : ℕ
  pub ra : ℕ
  pub z : ℕ
  pub ad : ℕ
  pub cd : ℕ
  pub rcode : ℕ
  pub q_count : ℕ
  pub ans_count : ℕ
  pub auth_count : ℕ
  pub add_count : ℕ

-- The six 16-bit words on the wire.
pub record Raw : Type 0 where
  pub id_word : ℕ
  pub flags_word : ℕ
  pub q_word : ℕ
  pub ans_word : ℕ
  pub auth_word : ℕ
  pub add_word : ℕ

abbrev pub pack : Header → ℕ
pack h =
    h.qr * 32768
    + h.opcode * 2048
    + h.aa * 1024
    + h.tc * 512
    + h.rd * 256
    + h.ra * 128
    + h.z * 64
    + h.ad * 32
    + h.cd * 16
    + h.rcode

-- `dns2buf`; the fields are bits of `flags` that have none in common, so `|` adds them.
abbrev pub dns2buf : Header → Raw
dns2buf h = record {
  id_word = htons h.id;
  flags_word = htons (pack h);
  q_word = htons h.q_count;
  ans_word = htons h.ans_count;
  auth_word = htons h.auth_count;
  add_word = htons h.add_count;
}

-- `buf2dns`.
abbrev pub buf2dns : Raw → Header
buf2dns w =
    let flags = ntohs w.flags_word in
    record {
      id = ntohs w.id_word;
      qr = flags / 32768 % 2;
      opcode = flags / 2048 % 16;
      aa = flags / 1024 % 2;
      tc = flags / 512 % 2;
      rd = flags / 256 % 2;
      ra = flags / 128 % 2;
      z = flags / 64 % 2;
      ad = flags / 32 % 2;
      cd = flags / 16 % 2;
      rcode = flags % 16;
      q_count = ntohs w.q_word;
      ans_count = ntohs w.ans_word;
      auth_count = ntohs w.auth_word;
      add_count = ntohs w.add_word;
    }

-- `dns_add`; `none` stands for -1.
abbrev pub dns_add : List ℕ → ℕ → Option (List ℕ)
dns_add servers ip = add_first ip servers
