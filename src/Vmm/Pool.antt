-- ===== src/Vmm/Pool.antt =====
-- Pages of a segment in and out of the page tables, and the pool of segment objects
-- (kernel/src/memory/vmm.c).
pub mod Laws
use elysium_os.Base.{
  ℕ, zero, suc, ◌+◌, ◌-◌, ◌*◌, ◌/◌, ◌%◌, ◌^◌, Bool, true, false, not, ◌&&◌, ◌||◌, List, [], ◌∷◌,
  ◌++◌, Option, none, some, ltb, leb, ◌==◌, if◌then◌else◌, add64, sub64, Run, ok, panic, undefined,
  ◌>>=◌, ◌>>◌, assert,
}
use elysium_os.Vmm.Segments.{
  page_size, Backing, anon, direct, Segment, Space, address_in_bounds, segment_in_bounds,
  address_in_segment, find_space, addr_to_segment,
}
use elysium_os.Vmm.Machine.{
  Owner, kernel, user, Machine, State, space_of, set_space, has_flag, flag_fixed, flag_no_demand,
  flag_anon_zero, prot_read_write, arch_flags, segments_per_page,
}

-- An answer of `find_space`, which always has one.
abbrev pub answered : Option ℕ → Run ℕ
answered none = undefined
answered (some r) = ok r

-- Both assertions of `segment_map` and `segment_unmap`.
abbrev pub segment_asserts : Segment → (address length : ℕ) → Bool
segment_asserts x address length =
    (address % page_size == 0)
    && (length % page_size == 0)
    && (ltb address x.base || leb x.base (add64 address length))

-- The union read as `anon.back_zeroed`, whatever was stored in it last.
abbrev pub stale_zeroed : Backing → Bool
stale_zeroed (anon z) = z
stale_zeroed (direct p) = not (p % 256 == 0)

-- list_append(&space->segments, segment): the new one stands first.
abbrev pub add_segment : Segment → Space → Space
add_segment x s = record s { segments = x ∷ s.segments }

module _ (machine : Machine) where
  open machine use {Memory, alloc_page, ptm_map, ptm_unmap, blank}

  -- where the page at `vaddr` lies in physical memory
  unfoldable pub physical_of : Segment → (vaddr : ℕ) → Memory → Run (ℕ × Memory)
  physical_of x vaddr m = elim x.backing [
    | anon zeroed ↦ alloc_page zeroed m
    | direct physical ↦ ok (add64 physical (sub64 vaddr x.base), m)
  ]

  -- the rounds that are left of the loop of `segment_map`
  unfoldable pub map_pages : (rounds : ℕ) → Owner → Segment → (vaddr : ℕ) → Memory → Run Memory
  unfolding physical_of
  map_pages zero o x vaddr m = ok m
  map_pages (suc n) o x vaddr m = do
    (paddr, m) ← physical_of x vaddr m
    m ← ptm_map o vaddr paddr x.protection x.cache (arch_flags o) m
    map_pages n o x (add64 vaddr page_size) m

  unfoldable pub segment_map : Owner → Segment → (address length : ℕ) → Memory → Run Memory
  unfolding map_pages
  segment_map o x address length m = do
    assert (segment_asserts x address length)
    map_pages (length / page_size) o x address m

  unfoldable pub unmap_pages : (rounds : ℕ) → Owner → (vaddr : ℕ) → Memory → Memory
  unmap_pages zero o vaddr m = m
  unmap_pages (suc n) o vaddr m = unmap_pages n o (add64 vaddr page_size) (ptm_unmap o vaddr m)

  unfoldable pub segment_unmap : Owner → Segment → (address length : ℕ) → Memory → Run Memory
  unfolding unmap_pages
  segment_unmap o x address length m = do
    assert (segment_asserts x address length)
    ok (unmap_pages (length / page_size) o address m)

  -- new_segments[n], ..., new_segments[1]
  unfoldable pub blanks : ℕ → Memory → List Segment
  blanks zero m = []
  blanks (suc n) m = blank (suc n) m ∷ blanks n m

  -- A page for more segment objects: its first one describes the page itself.
  unfoldable pub refill : State Memory → Run (State Memory)
  unfolding find_space blanks
  refill st = do
    (paddr, m) ← alloc_page false st.memory
    address ← answered (find_space st.kernel_space 0 page_size)
    m ← ptm_map kernel address paddr prot_read_write 0 0 m
    ok (record {
      memory = m;
      kernel_space =
          add_segment
            (record {
              base = address;
              length = page_size;
              backing = anon (stale_zeroed (Segment.backing (blank 0 m)));
              protection = prot_read_write;
              cache = 0;
            })
            st.kernel_space;
      user_space = st.user_space;
      segments_free = blanks (segments_per_page - 1) m ++ st.segments_free;
    })

  abbrev pub take_free : State Memory → Run (Segment × State Memory)
  take_free st = elim st.segments_free [
    | [] ↦ panic
    | x ∷ xs ↦ ok (x, record st { segments_free = xs })
  ]

  unfoldable pub segments_alloc : State Memory → Run (Segment × State Memory)
  unfolding refill
  segments_alloc st = elim st.segments_free [ [] ↦ refill st >>= take_free | x ∷ xs ↦ take_free st ]

  unfoldable pub segments_free : Segment → State Memory → State Memory
  segments_free x st = record st { segments_free = x ∷ st.segments_free }
