-- ===== src/Malloc/Tests.antt =====
-- A heap that starts at 4096.
use c_osiris.Base.{
  ℕ, ◌≤◌, ◌≡◌, refl, Option, none, some, [], ◌∷◌, arith, true, false, ◌+◌, ◌==◌, if◌then◌else◌,
}
use c_osiris.Malloc.{Heap, Sbrk, page_size, align, malloc, free}
use c_osiris.Malloc.Tiled.{AreTiled, EndsFree, used, IsHeap, Got, malloc_lem}
use c_osiris.Malloc.Used.{without}
use c_osiris.Malloc.Release.{has, free_lem}

-- There is always memory.
abbrev pages : Sbrk
pages b = (b + page_size, true)

abbrev no_heap : Heap
no_heap = record { blocks = []; brk = 4096 }

malloc_lem_example :
    (10 ≤ align 10)
    × ((p : ℕ) × (h' : Heap) × (malloc pages 10 no_heap ≡ some (p, h'))
        × Got (align 10) 4096 [] p h')
malloc_lem_example =
    malloc_lem pages 1048576 10 4096 no_heap (λ b lt. refl) (omega arith) (omega arith)
      (IsHeap.unstarted refl refl)

abbrev heap_of : Option (ℕ × Heap) → Heap
heap_of none = no_heap
heap_of (some (p, h)) = h

-- Two blocks are given out.
abbrev two : Heap
two = heap_of (malloc pages 100 (heap_of (malloc pages 10 no_heap)))

two_is :
    two.blocks
    ≡ record { at = 4096; size = 12; free = false }
      ∷ record { at = 4128; size = 100; free = false }
      ∷ record { at = 4248; size = 3924; free = true }
      ∷ []
unfolding malloc
two_is = refl

free_lem_example :
    (h' : Heap) × (free 4116 two ≡ some h')
    × AreTiled 4096 h'.blocks h'.brk
    × EndsFree h'.blocks
    × (used h'.blocks ≡ without 4116 (used two.blocks))
unfolding malloc has AreTiled EndsFree
free_lem_example = free_lem 4116 4096 two (omega arith) (refl, (refl, (refl, refl))) refl refl

-- Where `sbrk` has no page to give for the last block, `malloc` hands out memory behind the break.
abbrev starved : Sbrk
starved b = if b == 4096 then (8192, true) else (b, false)

beyond :
    malloc starved 5000 no_heap
    ≡ some (
      4116,
      record {
        blocks =
            record { at = 4096; size = 5000; free = false }
            ∷ record { at = 9116; size = 3152; free = true }
            ∷ [];
        brk = 8192;
      },
    )
unfolding malloc
beyond = refl
