-- ===== src/Malloc.antt =====
-- lib/malloc.c: the heap of a program, a list of blocks in the order of their addresses. The next
-- block in the list is the one that `next` points to. What `sbrk` does is a parameter.
pub mod Tiled
pub mod Used
pub mod Release
mod Tests
use c_osiris.Base.{
  ℕ, zero, suc, ◌+◌, ◌-◌, ◌*◌, ◌/◌, ◌%◌, Bool, true, false, ◌&&◌, not, Option, none, some, List, [],
  ◌∷◌, ltb, leb, ◌==◌, if◌then◌else◌,
}
use c_osiris.Base.Words.{add32, u32_mod}

-- `block_meta_t` at its address.
pub record Block : Type 0 where
  pub at : ℕ
  pub size : ℕ
  pub free : Bool

-- The list from `first_block` on, empty where that is NULL, and the end that `sbrk` moves.
pub record Heap : Type 0 where
  pub blocks : List Block
  pub brk : ℕ

abbrev pub page_size : ℕ
page_size = 4096

-- `sizeof(block_meta_t)`.
abbrev pub meta : ℕ
meta = 20

-- `p + 1`.
abbrev pub data_of : Block → ℕ
data_of b = b.at + meta

-- The size that `malloc` rounds up to.
unfoldable pub align : ℕ → ℕ
align size = if size % 4 == 0 then size else (size / 4 + 1) * 4 % u32_mod

-- `sbrk(PAGE_SIZE)` of mem.c, from the break that it finds: the break that it leaves, and whether it
-- returns that which it found, and not -1.
abbrev pub Sbrk : Type 0
Sbrk = ℕ → ℕ × Bool

-- `init_first_block`.
unfoldable pub init : Sbrk → Heap → Heap
init sbrk h =
    let (end, done) = sbrk h.brk in
    record {
      blocks =
          if done then record { at = h.brk; size = page_size - meta; free = true } ∷ [] else [];
      brk = end;
    }

-- The rounds of `malloc` at the last block, which grows until it is large enough, whatever `sbrk`
-- returns; `none` stands for no end within the fuel.
unfoldable pub grow : Sbrk → ℕ → ℕ → Block → ℕ → Option (Block × ℕ)
grow sbrk zero need b brk = none
grow sbrk (suc n) need b brk =
    let more = grow sbrk n need (record b { size = add32 b.size page_size }) (sbrk brk).0 in
    if ltb b.size need then more else some (b, brk)

-- The two blocks that a free block is split into.
unfoldable pub split : ℕ → Block → List Block → List Block
split n b bs =
    record b { size = n; free = false }
    ∷ record { at = b.at + meta + n; size = b.size - n - meta; free = true }
    ∷ bs

abbrev pub behind : Block → Option (ℕ × Heap) → Option (ℕ × Heap)
behind b none = none
behind b (some (p, h)) = some (p, record h { blocks = b ∷ h.blocks })

unfoldable pub split_last : ℕ → Option (Block × ℕ) → Option (ℕ × Heap)
unfolding split
split_last n none = none
split_last n (some (g, end)) = some (data_of g, record { blocks = split n g []; brk = end })

-- The loop of `malloc` over the blocks: the address that it returns. `none` stands for NULL, for a
-- read at NULL where there is no first block, and for no end.
unfoldable pub search : Sbrk → ℕ → List Block → ℕ → Option (ℕ × Heap)
unfolding grow split split_last
search sbrk n [] brk = none
search sbrk n (b ∷ []) brk =
    let taken = split_last n (grow sbrk (suc (add32 n meta)) (add32 n meta) b brk) in
    if b.free then taken else none
search sbrk n (b ∷ c ∷ bs) brk =
    let later = behind b (search sbrk n (c ∷ bs) brk) in
    if b.free && leb (add32 n meta) b.size
    then some (data_of b, record { blocks = split n b (c ∷ bs); brk = brk })
    else later

unfoldable pub started : Sbrk → Heap → List Block → Heap
unfolding init
started sbrk h [] = init sbrk h
started sbrk h (b ∷ bs) = h

unfoldable pub malloc : Sbrk → ℕ → Heap → Option (ℕ × Heap)
unfolding align started search
malloc sbrk size h = let s = started sbrk h h.blocks in search sbrk (align size) s.blocks s.brk

-- The block that was freed takes the next one in, if that is free, and the one in front of it then
-- takes it in.
unfoldable pub join_next : Block → List Block → List Block
join_next b [] = b ∷ []
join_next b (c ∷ bs) =
    if c.free then record b { size = b.size + (c.size + meta) } ∷ bs else b ∷ c ∷ bs

unfoldable pub join_prev : Option Block → List Block → List Block
join_prev none bs = bs
join_prev (some p) [] = p ∷ []
join_prev (some p) (b ∷ bs) =
    if p.free then record p { size = p.size + (b.size + meta) } ∷ bs else p ∷ b ∷ bs

abbrev pub kept : Option Block → Option (List Block) → Option (List Block)
kept prev none = none
kept none (some bs) = some bs
kept (some p) (some bs) = some (p ∷ bs)

-- The loop of `free`, with the block in front: that and the rest of the list. Where no block has the
-- address, the program ends, by `abort` or at NULL.
unfoldable pub release : ℕ → Option Block → List Block → Option (List Block)
unfolding join_next join_prev
release ptr prev [] = none
release ptr prev (b ∷ bs) =
    let later = kept prev (release ptr (some b) bs) in
    if data_of b == ptr
    then some (join_prev prev (join_next (record b { free = true }) bs))
    else later

abbrev pub in_front : Block → Option Heap → Option Heap
in_front b none = none
in_front b (some h) = some (record h { blocks = b ∷ h.blocks })

-- `heap_contract`; `none` is the assertion.
unfoldable pub contract : List Block → ℕ → Option Heap
contract [] brk = some (record { blocks = []; brk = brk })
contract (b ∷ []) brk =
    let end = data_of b / page_size * page_size + 2 * page_size in
    let shorter = record b { size = end - data_of b } in
    if leb b.size page_size
    then some (record { blocks = b ∷ []; brk = brk })
    else if data_of b + b.size == brk
    then some (record { blocks = shorter ∷ []; brk = end })
    else none
contract (b ∷ c ∷ bs) brk = in_front b (contract (c ∷ bs) brk)

unfoldable pub contracted : Option (List Block) → ℕ → Option Heap
unfolding contract
contracted none brk = none
contracted (some bs) brk = contract bs brk

unfoldable pub free : ℕ → Heap → Option Heap
unfolding release contracted
free ptr h = if ptr == 0 then some h else contracted (release ptr none h.blocks) h.brk
