-- ===== src/Net/Dns/Names.antt =====
-- dns.c: names on the wire, written by `host2dns_name` and read by `dns2host_name`.
use c_osiris.Base.{
  ℕ, zero, suc, ◌+◌, ◌-◌, ◌*◌, ◌%◌, ◌||◌, not, Option, none, some, List, [], ◌∷◌, ◌++◌, ltb, leb,
  ◌==◌, if◌then◌else◌, length, set, min,
}
use c_osiris.Base.Words.{u32_mod, add32}

-- The buffer, the position in it and the size that is left, behind the loop of `host2dns_name`.
pub record Writing : Type 0 where
  pub buf : List ℕ
  pub at : ℕ
  pub left : ℕ

-- The loop: `i` characters of a label stand in front of `at`, and its length in front of these.
unfoldable pub host2dns_loop : List ℕ → ℕ → ℕ → ℕ → List ℕ → Writing
host2dns_loop [] size at i buf = record {
  buf = if ltb 2 size then set buf (at - (i + 1)) (i % 256) else buf;
  at = at;
  left = size;
}
host2dns_loop (c ∷ host) size at i buf =
    let dot = c == b'.' in
    let next =
      host2dns_loop host (size - 1) (at + 1) (if dot then 0 else i + 1)
        (if dot then set buf (at - (i + 1)) (i % 256) else set buf at c) in
    if ltb 2 size then next else record { buf = buf; at = at; left = size }

-- `host2dns_name`: the bytes of the buffer, and the size that is left; `none` stands for -1.
unfoldable pub host2dns_name : List ℕ → List ℕ → ℕ → Option (List ℕ × ℕ)
unfolding host2dns_loop
host2dns_name host buf size =
    let w = host2dns_loop host size 1 0 buf in
    if leb size (length host + 2) then none else some (set w.buf w.at 0, w.left - 2)

-- The name so far, and the size of its memory.
pub record Name : Type 0 where
  pub chars : List ℕ
  pub cap : ℕ

unfoldable pub copy_bytes : (ℕ → ℕ) → ℕ → ℕ → List ℕ
copy_bytes mem s zero = []
copy_bytes mem s (suc n) = mem s ∷ copy_bytes mem (s + 1) n

-- A `char` as an offset.
abbrev pub char_offset : ℕ → ℕ
char_offset b = if ltb b 128 then b else u32_mod - 256 + b

abbrev pub dotted : ℕ → List ℕ → List ℕ
dotted n chars = if ltb 0 n then chars ++ (b'.' ∷ []) else chars

abbrev pub grown : ℕ → List ℕ → ℕ → ℕ
grown n chars cap = if leb (cap - length chars - 1) n then cap * 2 else cap

-- The loop of `dns2host_name`, over memory by its address, with the length `n` of the last label.
-- `none` stands for no end within the fuel.
unfoldable pub dns2host_loop : ℕ → (ℕ → ℕ) → ℕ → ℕ → ℕ → ℕ → List ℕ → ℕ → Option Name
unfolding copy_bytes
dns2host_loop zero mem dns end s n chars cap = none
dns2host_loop (suc fuel) mem dns end s n chars cap =
    let b = mem s in
    let front = dotted n chars in
    let cap' = grown b front cap in
    let count = min b (cap' - length front) in
    let jump = dns2host_loop fuel mem dns end (add32 dns (char_offset (mem (s + 1)))) 0 front cap in
    let next =
      dns2host_loop fuel mem dns end (s + 1 + count) b (front ++ copy_bytes mem (s + 1) count)
        cap' in
    if b == 0 || not (ltb s end)
    then some (record { chars = chars; cap = cap })
    else if b == 0xc0
    then jump
    else next

-- `dns2host_name` of the name at `s` in a message at `dns`.
unfoldable pub dns2host_name : ℕ → (ℕ → ℕ) → ℕ → ℕ → ℕ → Option Name
unfolding dns2host_loop
dns2host_name fuel mem dns dns_size s = dns2host_loop fuel mem dns (dns + dns_size) s 0 [] 32
