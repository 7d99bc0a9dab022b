-- ===== src/Pmm/Pages.antt =====
-- `pmm_alloc`, `pmm_free` and what calls them (kernel/src/memory/pmm.c), with their accounts.
pub mod Recount
pub mod Laws
mod Tests
use Prim.Native.Nat.{bit_and}
use elysium_os.Base.{
  ℕ, zero, suc, ◌+◌, ◌-◌, ◌*◌, ◌/◌, ◌%◌, ◌^◌, ◌≡◌, Bool, true, false, not, ◌&&◌, ◌||◌, List, [],
  ◌∷◌, ◌++◌, Option, none, some, length, get_elem?, get_or, set, replicate, leb, ltb, ◌==◌,
  if◌then◌else◌, Run, ok, panic, undefined, ◌>>=◌, ◌>>◌, assert, sub64, add64, mul64,
}
use elysium_os.Pmm.{
  Ref, Page, Region, Zone, Pmm, max_order, page_size, order_to_pagecount, used_pages, paddr_of,
  read_page,
}
use elysium_os.Pmm.Blocks.{Blocks, push, alloc_block, free_block, with_order}
use elysium_os.Pmm.Zones.{pagecount_to_order}

-- The counts of a region and of its zone.
abbrev pub count_region : (ℕ → ℕ) → Region → Region
count_region f g = record g { free_count = f g.free_count }

abbrev pub count_zone : (ℕ → ℕ) → Zone → Zone
count_zone f zone = record zone { free_count = f zone.free_count }

abbrev pub contains : Region → (physical_address : ℕ) → Bool
contains g a = leb g.base a && ltb a (g.base + g.page_count * page_size)

module _ {Memory : Type 0} where
  abbrev pub counted_in :
      (z : ℕ) → Zone → Blocks → Ref → (ℕ → ℕ) → Pmm Memory → Option Region → Run (Pmm Memory)
  counted_in z zone b ref f st none = undefined
  counted_in z zone b ref f st (some g) = ok (record st {
    zones = set st.zones z (count_zone f (record zone { lists = b.lists }));
    regions = set b.regions ref.region (count_region f g);
  })

  -- The blocks after a change go into the zone, and both counts are changed.
  abbrev pub counted : (z : ℕ) → Zone → Blocks → Ref → (ℕ → ℕ) → Pmm Memory → Run (Pmm Memory)
  counted z zone b ref f st = counted_in z zone b ref f st (get_elem? b.regions ref.region)

  abbrev pub blocks_of : Zone → Pmm Memory → Blocks
  blocks_of zone st = record { lists = zone.lists; regions = st.regions }

  -- `clear` is the memset of the pages.
  module _ (clear : (paddr length : ℕ) → Memory → Memory) where
    abbrev pub cleared_in : (order flags : ℕ) → Ref → Pmm Memory → Option Region → Pmm Memory
    cleared_in order flags ref st none = st
    cleared_in order flags ref st (some g) = record st {
      memory =
          if (flags / 2) % 2 == 0
          then st.memory
          else clear (paddr_of g ref.index) (order_to_pagecount order * page_size) st.memory;
    }

    abbrev pub cleared : (order flags : ℕ) → Ref → Pmm Memory → Pmm Memory
    cleared order flags ref st = cleared_in order flags ref st (get_elem? st.regions ref.region)

    abbrev pub alloc_found :
        (z order flags : ℕ) → Zone → Pmm Memory → Ref × Blocks → Run (Ref × Pmm Memory)
    alloc_found z order flags zone st (ref, b) =
        counted z zone b ref (λ n. sub64 n (order_to_pagecount order)) st >>= λ st.
        ok (ref, cleared order flags ref st)

    abbrev pub alloc_in : (z order flags : ℕ) → Pmm Memory → Option Zone → Run (Ref × Pmm Memory)
    alloc_in z order flags st none = undefined
    alloc_in z order flags st (some zone) =
        assert zone.present
        >> (alloc_block order (blocks_of zone st) >>= alloc_found z order flags zone st)

    unfoldable pub pmm_alloc : (order flags : ℕ) → Pmm Memory → Run (Ref × Pmm Memory)
    pmm_alloc order flags st =
        assert (leb order max_order)
        >> alloc_in (flags % 2) order flags st (get_elem? st.zones (flags % 2))

    unfoldable pub pmm_alloc_pages : (page_count flags : ℕ) → Pmm Memory → Run (Ref × Pmm Memory)
    unfolding pmm_alloc
    pmm_alloc_pages page_count flags = pmm_alloc (pagecount_to_order page_count) flags

    unfoldable pub pmm_alloc_page : (flags : ℕ) → Pmm Memory → Run (Ref × Pmm Memory)
    unfolding pmm_alloc
    pmm_alloc_page flags = pmm_alloc 0 flags

  abbrev pub free_in : (z order : ℕ) → Ref → Pmm Memory → Option Zone → Run (Pmm Memory)
  free_in z order page st none = undefined
  free_in z order page st (some zone) = free_block page (blocks_of zone st) >>= λ b.
      counted z zone b page (λ n. add64 n (order_to_pagecount order)) st

  abbrev pub free_of : Ref → Pmm Memory → Page → Option Region → Run (Pmm Memory)
  free_of page st p none = undefined
  free_of page st p (some g) = free_in g.zone p.order page st (get_elem? st.zones g.zone)

  unfoldable pub pmm_free : Ref → Pmm Memory → Run (Pmm Memory)
  pmm_free page st =
      read_page page st.regions >>= λ p. free_of page st p (get_elem? st.regions page.region)

  abbrev pub free_if : (physical_address r : ℕ) → Pmm Memory → Option Region → Run (Pmm Memory)
  free_if a r st none = undefined
  free_if a r st (some g) =
      if contains g a
      then pmm_free (record { region = r; index = (a - g.base) / page_size }) st
      else ok st

  -- The loop over the regions of a zone.
  unfoldable pub free_in_regions : (physical_address : ℕ) → List ℕ → Pmm Memory → Run (Pmm Memory)
  free_in_regions a [] st = ok st
  free_in_regions a (r ∷ regions) st =
      free_if a r st (get_elem? st.regions r) >>= free_in_regions a regions

  abbrev pub free_if_zone : (physical_address : ℕ) → Pmm Memory → Option Zone → Run (Pmm Memory)
  free_if_zone a st none = undefined
  free_if_zone a st (some zone) =
      if leb zone.start a && ltb a zone.end then free_in_regions a zone.regions st else ok st

  unfoldable pub pmm_free_address : (physical_address : ℕ) → Pmm Memory → Run (Pmm Memory)
  unfolding free_in_regions
  pmm_free_address a st =
      free_if_zone a st (get_elem? st.zones 0) >>= λ st. free_if_zone a st (get_elem? st.zones 1)
