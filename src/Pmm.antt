-- ===== src/Pmm.antt =====
-- The physical memory manager, kernel/src/memory/pmm.c and pmm.h: zones, regions and their pages, and
-- the lists of free blocks, one for each order. A pointer to a page is a `Ref`, the number of its region
-- and its index there; `list_append` to the head of a list puts an element in front.
pub mod Blocks
pub mod Zones
pub mod Pages
use elysium_os.Base.{
  ℕ, zero, suc, ◌+◌, ◌-◌, ◌*◌, ◌/◌, ◌%◌, ◌^◌, ◌≡◌, Bool, true, false, not, ◌&&◌, ◌||◌, List, [],
  ◌∷◌, Option, none, some, length, get_elem?, get_or, set, leb, ltb, ◌==◌, if◌then◌else◌, Run, ok,
  panic, undefined, ◌>>=◌, sub64, add64,
}

-- PMM_MAX_ORDER and ARCH_PAGE_SIZE
abbrev pub max_order : ℕ
max_order = 7

abbrev pub page_size : ℕ
page_size = 4096

-- A pointer to a page.
pub record Ref : Type 0 where
  pub region : ℕ
  pub index : ℕ

-- pmm_page_t: its region and its address follow from where it stands.
pub record Page : Type 0 where
  pub order : ℕ
  pub free : Bool

-- pmm_region_t, with the number of its zone
pub record Region : Type 0 where
  pub zone : ℕ
  pub base : ℕ
  pub page_count : ℕ
  pub free_count : ℕ
  pub pages : List Page

-- pmm_zone_t; `regions` holds the numbers of its regions.
pub record Zone : Type 0 where
  pub present : Bool
  pub regions : List ℕ
  pub lists : List (List Ref)
  pub page_count : ℕ
  pub free_count : ℕ
  pub start : ℕ
  pub end : ℕ

-- `g_pmm_zones`, the regions of all of them, and what is in the pages.
pub record Pmm (Memory : Type 0) : Type 0 where
  pub zones : List Zone
  pub regions : List Region
  pub memory : Memory

abbrev pub order_to_pagecount : ℕ → ℕ
order_to_pagecount order = 2 ^ order

abbrev pub div_ceil : ℕ → ℕ → ℕ
div_ceil dividend divisor = (dividend + divisor - 1) / divisor

-- The pages at the beginning of a region that hold its descriptor: sizeof(pmm_region_t) is 48 and
-- sizeof(pmm_page_t) is 40.
abbrev pub used_pages : (page_count : ℕ) → ℕ
used_pages page_count = div_ceil (48 + 40 * page_count) page_size

-- page->paddr
abbrev pub paddr_of : Region → (index : ℕ) → ℕ
paddr_of g index = g.base + index * page_size

-- Writing to a page.
abbrev pub with_page : Region → ℕ → Page → Region
with_page g i p = record g { pages = set g.pages i p }

unfoldable pub update_page : Ref → (Page → Page) → List Region → Run (List Region)
update_page ref f regions = elim (get_elem? regions ref.region) [
  | none ↦ undefined
  | some g ↦ elim (get_elem? g.pages ref.index) [
    | none ↦ undefined
    | some p ↦ ok (set regions ref.region (with_page g ref.index (f p)))
  ]
]

unfoldable pub read_page : Ref → List Region → Run Page
read_page ref regions = elim (get_elem? regions ref.region) [
  | none ↦ undefined
  | some g ↦ elim (get_elem? g.pages ref.index) [ none ↦ undefined | some p ↦ ok p ]
]
