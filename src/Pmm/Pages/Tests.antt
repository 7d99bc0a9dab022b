-- ===== src/Pmm/Pages/Tests.antt =====
-- A zone with one region of three pages (kernel/src/memory/pmm.c): one page holds the descriptor, and the
-- other two are a block.
use elysium_os.Base.{
  ℕ, zero, suc, ◌+◌, ◌≤◌, ◌<◌, ◌*◌, ◌^◌, ◌≡◌, ◌⊎◌, inl, inr, true, false, List, [], ◌∷◌, some,
  length, get_elem?, replicate, arith, refl, ap, sym, subst, some-eq, Run, ok, panic, sub64, add64,
}
use elysium_os.Pmm.{Ref, Page, Region, Zone, Pmm, used_pages, update_page, read_page}
use elysium_os.Pmm.Blocks.{alloc_block, free_block, find_block, split, halve}
use elysium_os.Pmm.Blocks.Cover.{inside, Among, Among-cases, Listed}
use elysium_os.Pmm.Blocks.Tiling.{IsPlaced, IsHead, Tiled}
use elysium_os.Pmm.Zones.{pmm_zone_register, pmm_region_add, pagecount_to_order}
use elysium_os.Pmm.Pages.{blocks_of, pmm_alloc, pmm_alloc_pages, pmm_free, pmm_free_address}
use elysium_os.Pmm.Pages.Laws.{Others, pmm_alloc-Tiled, pmm_free-Tiled}

abbrev absent : Zone
absent = record {
  present = false;
  regions = [];
  lists = [];
  page_count = 0;
  free_count = 0;
  start = 0;
  end = 0;
}

abbrev nothing : Pmm (List (ℕ × ℕ))
nothing = record { zones = absent ∷ absent ∷ []; regions = []; memory = [] }

abbrev block : Ref
block = record { region = 0; index = 1 }

abbrev region_with : (free_count : ℕ) → Page → Region
region_with n p = record {
  zone = 0;
  base = 0x1000;
  page_count = 3;
  free_count = n;
  pages = (record { order = 0; free = false }) ∷ p ∷ (record { order = 0; free = true }) ∷ [];
}

abbrev zone_with : (free_count : ℕ) → List (List Ref) → Zone
zone_with n lists = record {
  present = true;
  regions = 0 ∷ [];
  lists = lists;
  page_count = 3;
  free_count = n;
  start = 0;
  end = 0x4000;
}

abbrev empty_lists : List (List Ref)
empty_lists = replicate 8 []

abbrev one_block : List (List Ref)
one_block = [] ∷ (block ∷ []) ∷ replicate 6 []

abbrev full : Region
full = region_with 2 (record { order = 1; free = true })

abbrev taken : Region
taken = region_with 0 (record { order = 1; free = false })

abbrev all_free : Pmm (List (ℕ × ℕ))
all_free = record { zones = zone_with 2 one_block ∷ absent ∷ []; regions = full ∷ []; memory = [] }

abbrev all_taken : Pmm (List (ℕ × ℕ))
all_taken = record {
  zones = zone_with 0 empty_lists ∷ absent ∷ [];
  regions = taken ∷ [];
  memory = [];
}

abbrev clear : (paddr length : ℕ) → List (ℕ × ℕ) → List (ℕ × ℕ)
clear paddr n memory = (paddr, n) ∷ memory

-- The range begins in the zone and ends behind it.
abbrev booted : Run (Pmm (List (ℕ × ℕ)))
booted = elim (pmm_zone_register 0 0 0x4000 nothing) [
  | ok st ↦ pmm_region_add 0x1000 0x5000 st
  | panic ↦ panic
  | _ ↦ panic
]

boot_run : booted ≡ ok all_free
unfolding pmm_zone_register pmm_region_add
boot_run = refl

orders_run :
    Path (ℕ × ℕ × ℕ) (pagecount_to_order 1, pagecount_to_order 8, pagecount_to_order 9) (0, 3, 4)
unfolding pagecount_to_order
orders_run = refl

alloc_run :
    pmm_alloc clear 1 2 all_free ≡ ok (block, record all_taken { memory = (0x2000, 0x2000) ∷ [] })
unfolding pmm_alloc alloc_block find_block split halve update_page
alloc_run = refl

out_of_memory_run : pmm_alloc_pages clear 3 0 all_free ≡ panic
unfolding pmm_alloc_pages alloc_block find_block pagecount_to_order
out_of_memory_run = refl

-- Both halves of the block, given back one after the other, are merged.
abbrev halves : Run (Pmm (List (ℕ × ℕ)))
halves = elim (pmm_alloc clear 0 0 all_free) [
  | ok (a, st) ↦ elim (pmm_alloc clear 0 0 st) [
    | ok (b, st) ↦ elim (pmm_free a st) [ ok st ↦ pmm_free_address 0x3000 st | _ ↦ panic ]
    | _ ↦ panic
  ]
  | _ ↦ panic
]

halves_run :
    halves
    ≡ ok (record all_free {
      regions =
          record full {
            pages =
                (record { order = 0; free = false })
                ∷ (record { order = 1; free = true })
                ∷ (record { order = 1; free = true })
                ∷ [];
          }
          ∷ [];
    })
unfolding pmm_alloc pmm_free pmm_free_address alloc_block find_block split halve free_block
    update_page read_page
halves_run = refl

only :
    (g : Region) (P : ℕ → Region → Type 0)
    → P 0 g
    → (r : ℕ) (h : Region) → get_elem? (g ∷ []) r ≡ some h
    → P r h
only g P p zero h e = subst (P 0) (some-eq e) p
only g P p (suc r) h e = absurd (ground (arith, e))

Listed-empty : (n k : ℕ) (ref : Ref) → Listed (replicate n []) k ref → ⊥
Listed-empty zero k ref (refs, h, a) = ground (arith, h)
Listed-empty (suc n) zero ref (refs, h, (i, a)) =
    let e : refs ≡ [] = sym (some-eq h) in ground (arith, ap (λ xs. get_elem? xs i) e, a)
Listed-empty (suc n) (suc k) ref l = Listed-empty n k ref l

IsPlaced-block : (n : ℕ) (p : Page) → IsPlaced (region_with n p) 1 1
IsPlaced-block n p = record {
  small = omega arith;
  low = omega arith;
  high = omega arith;
  aligned = refl;
}

free_heads : (k : ℕ) (ref : Ref) → Listed one_block k ref → IsHead (full ∷ []) k ref true
free_heads zero ref (refs, h, (i, a)) =
    let e : refs ≡ [] = sym (some-eq h) in absurd (ground (arith, ap (λ xs. get_elem? xs i) e, a))
free_heads (suc zero) ref (refs, h, a) =
    elim (Among-cases ref block [] (subst (Among ref) (sym (some-eq h)) a)) [
      | inl e ↦
          subst (λ r. IsHead (full ∷ []) 1 r true) e
            (record {
              region = full;
              there = refl;
              placed = IsPlaced-block 2 (record { order = 1; free = true });
              page = refl;
            })
      | inr (n, e) ↦ absurd (ground (arith, e))
    ]
free_heads (suc (suc k)) ref l = absurd (Listed-empty 6 k ref l)

-- Of the pages behind the first one, the first may be allocated, and the other is free.
idle_pages :
    (n : ℕ) (p q : Page) (i : ℕ)
    → get_elem? (region_with n p).pages i ≡ some q
    → 1 ≤ i
    → (q.free ≡ true) ⊎ ((i ≡ 1) × (q ≡ p))
idle_pages n p q zero h low = absurd (omega arith)
idle_pages n p q (suc zero) h low = inr (refl, sym (some-eq h))
idle_pages n p q (suc (suc zero)) h low = inl (ap (λ p. p.free) (sym (some-eq h)))
idle_pages n p q (suc (suc (suc i))) h low = absurd (ground (arith, h))

Tiled-free : Tiled 0 (blocks_of (zone_with 2 one_block) all_free) [] []
unfolding inside
Tiled-free = record {
  eight = refl;
  paged = only full (λ r g. length g.pages ≡ g.page_count) refl;
  bounded = only full (λ r g. g.base + g.page_count * 4096 < 2 ^ 64) (omega arith);
  tiled = only full (λ r g. (i : ℕ) → _) (λ i. omega arith);
  heads = free_heads;
  taken = λ k ref (n, e). absurd (ground (arith, e));
  hand = λ k ref (n, e). absurd (ground (arith, e));
  idle = λ r g i p h page low.
      only full
        (λ r g.
          get_elem? g.pages i ≡ some p
          → used_pages g.page_count ≤ i
          → (p.free ≡ true)
            ⊎ ((k : ℕ) × Among {A = ℕ × Ref} (k, record { region = r; index = i }) []))
        (λ page low. elim (idle_pages 2 (record { order = 1; free = true }) p i page low) [
          | inl free ↦ inl free
          | inr (e, e') ↦ inl (ap (λ p. p.free) e')
        ])
        r g h page low;
}

Tiled-taken : Tiled 0 (blocks_of (zone_with 0 empty_lists) all_taken) ((1, block) ∷ []) []
unfolding inside
Tiled-taken = record {
  eight = refl;
  paged = only taken (λ r g. length g.pages ≡ g.page_count) refl;
  bounded = only taken (λ r g. g.base + g.page_count * 4096 < 2 ^ 64) (omega arith);
  tiled = only taken (λ r g. (i : ℕ) → _) (λ i. omega arith);
  heads = λ k ref l. absurd (Listed-empty 8 k ref l);
  taken = λ k ref a. elim (Among-cases (k, ref) (1, block) [] a) [
    | inl e ↦
        subst (λ x. IsHead (taken ∷ []) (x.0) (x.1) false) e
          (record {
            region = taken;
            there = refl;
            placed = IsPlaced-block 0 (record { order = 1; free = false });
            page = refl;
          })
    | inr (n, e) ↦ absurd (ground (arith, e))
  ];
  hand = λ k ref (n, e). absurd (ground (arith, e));
  idle = λ r g i p h page low.
      only taken
        (λ r g.
          get_elem? g.pages i ≡ some p
          → used_pages g.page_count ≤ i
          → (p.free ≡ true)
            ⊎ ((k : ℕ) × Among {A = ℕ × Ref} (k, record { region = r; index = i })
                  ((1, block) ∷ [])))
        (λ page low. elim (idle_pages 0 (record { order = 1; free = false }) p i page low) [
          | inl free ↦ inl free
          | inr (e, e') ↦ inr (1, (0, ap (λ i. some (1, record { region = 0; index = i })) (sym e)))
        ])
        r g h page low;
}

pmm_alloc-Tiled_example :
    ((pmm_alloc clear 1 2 all_free ≡ panic)
      × ((k : ℕ) (ref : Ref) → 1 ≤ k → Listed one_block k ref → ⊥))
    ⊎ ((ref : Ref) × (st' : Pmm (List (ℕ × ℕ))) × (zone' : Zone) × (pmm_alloc clear 1 2 all_free
          ≡ ok (ref, st'))
        × (get_elem? st'.zones 0 ≡ some zone')
        × Tiled 0 (blocks_of zone' st') ((1, ref) ∷ []) []
        × (zone'.free_count ≡ sub64 2 (2 ^ 1))
        × Others 0 all_free st')
pmm_alloc-Tiled_example =
    pmm_alloc-Tiled clear 1 2 all_free (zone_with 2 one_block) [] refl refl Tiled-free (omega arith)

pmm_free-Tiled_example :
    (st' : Pmm (List (ℕ × ℕ))) × (zone' : Zone) × (pmm_free block all_taken ≡ ok st')
    × (get_elem? st'.zones 0 ≡ some zone')
    × Tiled 0 (blocks_of zone' st') [] []
    × (zone'.free_count ≡ add64 0 (2 ^ 1))
    × Others 0 all_taken st'
pmm_free-Tiled_example =
    pmm_free-Tiled 1 block taken all_taken (zone_with 0 empty_lists) [] refl refl Tiled-taken
