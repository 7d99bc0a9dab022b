-- ===== src/Heap/Safety.antt =====
-- The kernel heap over its whole life (kernel/src/memory/heap.c): initialisation, then any
-- allocations and any frees of blocks that are allocated.
use elysium_os.Base.{
  ℕ, ◌+◌, ◌^◌, ◌≤◌, ◌<◌, some, arith, [], refl, ok, pos→not_zero, false, ok-injective, true, none,
  ◌∷◌, ◌≡◌, subst, ◌∙◌, sym,
}
use elysium_os.Heap.{Entry, Entries, header, min_entry_size, initialize, alloc_align, free}
use elysium_os.Heap.Layout.{IsHeap, Layout, live, live_bounds, live_disjoint}
use elysium_os.Heap.Alloc.{Outcome, alloc_align-Outcome}
use elysium_os.Heap.Free.{free-Freed}

-- After the first mapping, which is not at NULL and has room for a header, the heap is one entry: it is
-- free, fills the mapping behind its header, and is well-formed, and no block is allocated.
pub initialize-IsHeap :
    (mapped size : ℕ)
    → 0 < mapped
    → header ≤ size
    → mapped + size < 2 ^ 64
    → (e : Entry) × (initialize mapped size [] ≡ ok (e ∷ []))
      × (e.free ≡ true)
      × (e.size + header ≡ size)
      × ((a : ℕ) → live a (e ∷ []) ≡ none)
      × IsHeap mapped (mapped + size) (e ∷ [])
unfolding initialize
initialize-IsHeap mapped size pos large fits = rw (pos→not_zero mapped pos) (
  _,
  refl,
  refl,
  omega arith,
  (λ a. refl),
  record { above_null = pos; in_memory = fits; layout = (refl, refl, refl, omega arith) },
)

-- What the kernel may ask of the heap: blocks of sensible sizes, and frees of blocks that it holds.
pub data Step : Entries → Entries → Type 0 where
  alloc_step :
      {es es' : Entries} (size alignment a : ℕ)
      → 0 < size
      → 0 < alignment
      → size + alignment + header + min_entry_size < 2 ^ 64
      → alloc_align size alignment es ≡ ok (a, es')
      → Step es es'
  free_step : {es es' : Entries} (a s : ℕ) → live a es ≡ some s → free a es ≡ ok es' → Step es es'

pub data Reach (es : Entries) : Entries → Type 0 where
  here : Reach es es
  next : {es₁ es₂ : Entries} → Reach es es₁ → Step es₁ es₂ → Reach es es₂

module _ (lo hi : ℕ) where
  Outcome-ok :
      (size alignment a : ℕ) (es es' : Entries)
      → IsHeap lo hi es
      → 0 < size
      → 0 < alignment
      → size + alignment + header + min_entry_size < 2 ^ 64
      → alloc_align size alignment es ≡ ok (a, es')
      → Outcome lo hi false size alignment es (ok (a, es'))
  Outcome-ok size alignment a es es' heap some_bytes pos fit e =
      subst (Outcome lo hi false size alignment es) e
        (alloc_align-Outcome lo hi size alignment es heap some_bytes pos fit)

  Step-IsHeap : {es es' : Entries} → Step es es' → IsHeap lo hi es → IsHeap lo hi es'
  Step-IsHeap {es} {es'} (alloc_step size alignment a some_bytes pos fit e) heap = record {
    above_null = heap.above_null;
    in_memory = heap.in_memory;
    layout = (Outcome-ok size alignment a es es' heap some_bytes pos fit e).layout;
  }
  Step-IsHeap {es} {es'} (free_step a s found e) heap =
      let (es'', e', freed) = free-Freed lo hi a s es heap found in
      record {
        above_null = heap.above_null;
        in_memory = heap.in_memory;
        layout = subst (Layout lo hi false) (ok-injective (sym e' ∙ e)) freed.layout;
      }

  Reach-IsHeap : {es es' : Entries} → IsHeap lo hi es → Reach es es' → IsHeap lo hi es'
  Reach-IsHeap heap here = heap
  Reach-IsHeap heap (next r st) = Step-IsHeap st (Reach-IsHeap heap r)

-- In every heap that is reached from the initial one by frees of allocated blocks and by allocations
-- whose size and alignment are not 0 and do not wrap around in their sum with a header and the least
-- entry, the blocks lie inside the mapping, behind their headers, and no two of them overlap.
pub Reach-disjoint :
    (mapped size : ℕ) (first es : Entries) (a b s t : ℕ)
    → 0 < mapped
    → header ≤ size
    → mapped + size < 2 ^ 64
    → initialize mapped size [] ≡ ok first
    → Reach first es
    → live a es ≡ some s
    → live b es ≡ some t
    → a < b
    → (mapped + header ≤ a) × (a + s ≤ b) × (b + t ≤ mapped + size)
Reach-disjoint mapped size first es a b s t pos large fits start r p q lt =
    let (entry, e₀, free, whole, fresh, heap₀) = initialize-IsHeap mapped size pos large fits in
    let heap =
      Reach-IsHeap mapped (mapped + size)
        (subst (IsHeap mapped (mapped + size)) (ok-injective (sym e₀ ∙ start)) heap₀) r in
    (
      (live_bounds mapped (mapped + size) false a s es heap.layout p).0,
      live_disjoint mapped (mapped + size) false a b s t es heap.layout p q lt,
      (live_bounds mapped (mapped + size) false b t es heap.layout q).1,
    )
