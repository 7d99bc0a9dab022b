-- ===== src/Pmm/Zones.antt =====
-- Zones and regions: `pmm_zone_register` and `pmm_region_add` of kernel/src/memory/pmm.c.
use Prim.Native.Nat.{bit_and}
use elysium_os.Base.{
  ℕ, zero, suc, ◌+◌, ◌-◌, ◌/◌, Bool, true, false, not, ◌&&◌, ◌||◌, List, [], ◌∷◌, ◌++◌, Option,
  none, some, length, get_elem?, set, replicate, leb, ltb, ◌==◌, if◌then◌else◌, Run, ok, panic,
  undefined, ◌>>=◌, ◌>>◌, assert, sub64, add64,
}
use elysium_os.Pmm.{Ref, Page, Zone, Pmm, max_order, page_size, order_to_pagecount, used_pages}
use elysium_os.Pmm.Blocks.{push}

-- 64 - __builtin_clzll(n), the number of binary digits
unfoldable pub bit_length : (rounds n : ℕ) → ℕ
bit_length zero n = 0
bit_length (suc rounds) n = let rest = bit_length rounds (n / 2) in if n == 0 then 0 else suc rest

unfoldable pub pagecount_to_order : (pages : ℕ) → ℕ
unfolding bit_length
pagecount_to_order pages = if pages == 1 then 0 else bit_length 64 (sub64 pages 1)

-- PMM_ZONE_MAX + 1
abbrev pub zone_count : ℕ
zone_count = 2

-- The order of the next block of a region with `free_pages` pages left.
unfoldable pub fill_order : (free_pages : ℕ) → ℕ
unfolding pagecount_to_order
fill_order free_pages =
    let order = pagecount_to_order free_pages in
    let down = if bit_and free_pages (free_pages - 1) == 0 then order else (order - 1) in
    if ltb max_order down then max_order else down

-- The loop over the free pages of a region, from the page `j` on.
unfoldable pub fill :
    (rounds region j free_pages : ℕ)
    → List Page
    → List (List Ref)
    → Run (List Page × List (List Ref))
unfolding fill_order
fill zero region j free_pages pages lists = if free_pages == 0 then ok (pages, lists) else panic
fill (suc rounds) region j free_pages pages lists =
    let order = fill_order free_pages in
    let rest =
      fill rounds region (j + order_to_pagecount order) (free_pages - order_to_pagecount order)
        (set pages j (record { order = order; free = true }))
        (push order (record { region = region; index = j }) lists) in
    if free_pages == 0 then ok (pages, lists) else rest

-- The pages as the first two loops leave them.
abbrev pub fresh_pages : (page_count : ℕ) → List Page
fresh_pages page_count =
    replicate (used_pages page_count) (record { order = 0; free = false })
    ++ replicate (page_count - used_pages page_count) (record { order = 0; free = true })

-- A zone may not overlap with another one.
unfoldable pub no_overlap : (start end_ : ℕ) → List Zone → Bool
no_overlap start end_ [] = true
no_overlap start end_ (zone ∷ zones) =
    (not zone.present || (leb zone.end start || leb end_ zone.start)) && no_overlap start end_ zones

-- `page_count` and `free_count` are not written.
abbrev pub registered : (start end_ : ℕ) → Zone → Zone
registered start end_ zone = record {
  present = true;
  regions = [];
  lists = replicate (max_order + 1) [];
  page_count = zone.page_count;
  free_count = zone.free_count;
  start = start;
  end = end_;
}

-- The part of the range that lies in the zone.
abbrev pub local_base : (base : ℕ) → Zone → ℕ
local_base base zone = if ltb base zone.start then zone.start else base

abbrev pub above_start : (base size : ℕ) → Zone → ℕ
above_start base size zone =
    if ltb base zone.start then sub64 size (sub64 zone.start base) else size

abbrev pub local_size : (base size : ℕ) → Zone → ℕ
local_size base size zone =
    if ltb zone.end (add64 (local_base base zone) (above_start base size zone))
    then sub64 zone.end (local_base base zone)
    else above_start base size zone

module _ {Memory : Type 0} where
  abbrev pub with_zone : ℕ → Zone → Pmm Memory → Pmm Memory
  with_zone z zone st = record st { zones = set st.zones z zone }

  abbrev pub register : (z start end_ : ℕ) → Pmm Memory → Option Zone → Run (Pmm Memory)
  register z start end_ st none = undefined
  register z start end_ st (some zone) =
      assert (not zone.present)
      >> assert (no_overlap start end_ st.zones)
      >> ok (with_zone z (registered start end_ zone) st)

  unfoldable pub pmm_zone_register : (z start end_ : ℕ) → Pmm Memory → Run (Pmm Memory)
  unfolding no_overlap
  pmm_zone_register z start end_ st = register z start end_ st (get_elem? st.zones z)

  abbrev pub filled :
      (z : ℕ)
      → Zone
      → (base page_count free_count : ℕ) → Pmm Memory
      → List Page × List (List Ref)
      → Pmm Memory
  filled z zone base page_count free_count st (pages, lists) = record st {
    zones = set st.zones z (record zone {
      regions = length st.regions ∷ zone.regions;
      lists = lists;
      page_count = add64 zone.page_count page_count;
      free_count = add64 zone.free_count free_count;
    });
    regions =
        st.regions
        ++ record {
          zone = z;
          base = base;
          page_count = page_count;
          free_count = free_count;
          pages = pages;
        }
          ∷ [];
  }

  -- A region that has no room for its descriptor is written out of bounds.
  unfoldable pub add_to_zone : (z base size : ℕ) → Zone → Pmm Memory → Run (Pmm Memory)
  unfolding fill
  add_to_zone z base size zone st =
      let at = local_base base zone in
      let page_count = local_size base size zone / page_size in
      let free_count = sub64 page_count (used_pages page_count) in
      if ltb page_count (used_pages page_count)
      then undefined
      else (fill free_count (length st.regions) (used_pages page_count) free_count
            (fresh_pages page_count) zone.lists
          >>= λ r. ok (filled z zone at page_count free_count st r))

  abbrev pub add_if : (z base size : ℕ) → Pmm Memory → Option Zone → Run (Pmm Memory)
  add_if z base size st none = undefined
  add_if z base size st (some zone) =
      if not zone.present || (leb (add64 base size) zone.start || leb zone.end base)
      then ok st
      else add_to_zone z base size zone st

  -- The loop over the zones, from the zone `z` on.
  unfoldable pub region_add_from : (zones z base size : ℕ) → Pmm Memory → Run (Pmm Memory)
  unfolding add_to_zone
  region_add_from zero z base size st = ok st
  region_add_from (suc zones) z base size st =
      add_if z base size st (get_elem? st.zones z) >>= region_add_from zones (suc z) base size

  unfoldable pub pmm_region_add : (base size : ℕ) → Pmm Memory → Run (Pmm Memory)
  unfolding region_add_from
  pmm_region_add base size st = region_add_from zone_count 0 base size st
