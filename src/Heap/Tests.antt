-- ===== src/Heap/Tests.antt =====
-- The kernel heap of kernel/src/memory/heap.c on small inputs, and its theorems at them.
use elysium_os.Base.{
  ℕ, ◌+◌, ◌^◌, ◌≡◌, arith, [], ◌∷◌, refl, ok, panic, false, true, Bool, ◌-◌, ◌≤◌, none,
}
use elysium_os.Heap.{Entry, Entries, header, initialize, alloc_align, alloc, free}
use elysium_os.Heap.Layout.{IsHeap, live}
use elysium_os.Heap.Free.{Freed, free-Freed}
use elysium_os.Heap.Safety.{Reach, here, next, alloc_step, initialize-IsHeap, Reach-disjoint}

abbrev entry : ℕ → ℕ → Bool → Entry
entry addr size free = record {
  addr = addr;
  prot = 2 ^ 64 - 1 - (addr + size);
  size = size;
  free = free;
}

-- one mapping of 1000 bytes
abbrev fresh : Entries
fresh = entry 4096 960 true ∷ []

abbrev one_block : Entries
one_block = entry 4096 100 false ∷ entry 4236 820 true ∷ []

initialize_runs : initialize 4096 1000 [] ≡ ok fresh
unfolding initialize
initialize_runs = refl

alloc_runs : alloc_align 100 1 fresh ≡ ok (4136, one_block)
unfolding alloc_align
alloc_runs = refl

-- 4136 is 40 past a multiple of 64: the entry is cut so that the block lands on 4224
alloc_align_runs :
    alloc_align 32 64 fresh
    ≡ ok (4224, entry 4096 48 true ∷ entry 4184 32 false ∷ entry 4256 800 true ∷ [])
unfolding alloc_align
alloc_align_runs = refl

alloc_fails : alloc 961 fresh ≡ panic
unfolding alloc
alloc_fails = refl

IsHeap-one_block : IsHeap 4096 5096 one_block
IsHeap-one_block = record {
  above_null = omega arith;
  in_memory = omega arith;
  layout = (refl, refl, refl, (refl, refl, refl, refl));
}

initialize-IsHeap_example :
    (e : Entry) × (initialize 4096 1000 [] ≡ ok (e ∷ []))
    × (e.free ≡ true)
    × (e.size + header ≡ 1000)
    × ((a : ℕ) → live a (e ∷ []) ≡ none)
    × IsHeap 4096 5096 (e ∷ [])
initialize-IsHeap_example = initialize-IsHeap 4096 1000 (omega arith) (omega arith) (omega arith)

free-Freed_example :
    (es' : Entries) × (free 4136 one_block ≡ ok es') × Freed 4096 5096 false 4136 one_block es'
free-Freed_example = free-Freed 4096 5096 4136 100 one_block IsHeap-one_block refl

abbrev two_blocks : Entries
two_blocks = entry 4096 100 false ∷ entry 4236 50 false ∷ entry 4326 730 true ∷ []

alloc_again : alloc_align 50 1 one_block ≡ ok (4276, two_blocks)
unfolding alloc_align
alloc_again = refl

Reach-two_blocks : Reach fresh two_blocks
Reach-two_blocks =
    next (next here (alloc_step 100 1 4136 (omega arith) (omega arith) (omega arith) alloc_runs))
      (alloc_step 50 1 4276 (omega arith) (omega arith) (omega arith) alloc_again)

Reach-disjoint_example : (4096 + 40 ≤ 4136) × (4136 + 100 ≤ 4276) × (4276 + 50 ≤ 4096 + 1000)
Reach-disjoint_example =
    Reach-disjoint 4096 1000 fresh two_blocks 4136 4276 100 50 (omega arith) (omega arith)
      (omega arith) initialize_runs Reach-two_blocks refl refl (omega arith)
