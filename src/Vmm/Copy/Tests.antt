-- ===== src/Vmm/Copy/Tests.antt =====
-- Copies (kernel/src/memory/vmm.c) across the border of two pages that are not there yet.
use elysium_os.Base.{
  ℕ, ◌*◌, ◌/◌, ◌≡◌, Bool, true, false, ◌||◌, ◌==◌, if◌then◌else◌, List, [], ◌∷◌, none, some,
  replicate, ok, refl,
}
use elysium_os.Vmm.Segments.{page_size, anon, Segment, Space, addr_to_segment, memory_exists}
use elysium_os.Vmm.Machine.{user, Machine, State}
use elysium_os.Vmm.Pool.{physical_of, map_pages, segment_map}
use elysium_os.Vmm.Map.{fault}
use elysium_os.Vmm.Copy.{copy_to, copy_to_loop, copy_from, copy_from_loop, resolve}

abbrev segment : Segment
segment = record { base = 8192; length = 16384; backing = anon true; protection = 6; cache = 0 }

abbrev space : Space
space = record { segments = segment ∷ []; start = 4096; end = 65536 }

-- Which pages are mapped, each to itself, and what was written, the last first.
abbrev Physical : Type 0
Physical = List ℕ × List (ℕ × List ℕ)

abbrev has_page : List ℕ → ℕ → Bool
has_page [] p = false
has_page (x ∷ xs) p = x == p || has_page xs p

abbrev machine : Machine
machine = record {
  Memory = Physical;
  alloc_page = λ zeroed m. ok (4096, m);
  ptm_map = λ o vaddr paddr prot cache flags m. ok (vaddr ∷ m.0, m.1);
  ptm_unmap = λ o vaddr m. m;
  ptm_physical = λ o vaddr m.
      if has_page (m.0) (vaddr / page_size * page_size)
      then some (vaddr / page_size * page_size)
      else none;
  hhdm_write = λ paddr bytes m. (m.0, (paddr, bytes) ∷ m.1);
  hhdm_read = λ paddr len m. replicate len 7;
  blank = λ i m. segment;
}

abbrev state_of : Physical → State Physical
state_of m = record {
  memory = m;
  kernel_space = record { segments = []; start = 131072; end = 262144 };
  user_space = space;
  segments_free = [];
}

abbrev pages_in : List ℕ
pages_in = 12288 ∷ 8192 ∷ []

copy_to_run :
    copy_to machine user 12286 (1 ∷ 2 ∷ 3 ∷ []) (state_of ([], []))
    ≡ ok (3, state_of (pages_in, (12288, 3 ∷ []) ∷ (12286, 1 ∷ 2 ∷ []) ∷ []))
unfolding copy_to copy_to_loop resolve fault addr_to_segment segment_map map_pages physical_of
    memory_exists
copy_to_run = refl

copy_from_run :
    copy_from machine user 12286 3 (state_of ([], []))
    ≡ ok (3, 7 ∷ 7 ∷ 7 ∷ [], state_of (pages_in, []))
unfolding copy_from copy_from_loop resolve fault addr_to_segment segment_map map_pages physical_of
    memory_exists
copy_from_run = refl

-- A range that is not mapped in whole: nothing is copied.
copy_gap_run :
    copy_to machine user 24575 (1 ∷ 2 ∷ []) (state_of ([], [])) ≡ ok (0, state_of ([], []))
unfolding copy_to copy_to_loop memory_exists
copy_gap_run = refl
