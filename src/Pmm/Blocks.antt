-- ===== src/Pmm/Blocks.antt =====
-- The lists of free blocks of kernel/src/memory/pmm.c: `pmm_alloc` and `pmm_free` without the counts.
pub mod Cover
pub mod Tiling
pub mod Powers
pub mod Moves
pub mod Halves
pub mod Alloc
pub mod Delete
pub mod Buddy
pub mod Find
pub mod Merge
pub mod Free
use elysium_os.Base.{
  ℕ, zero, suc, ◌+◌, ◌-◌, ◌*◌, ◌/◌, ◌%◌, ◌^◌, ◌≡◌, Bool, true, false, not, ◌&&◌, ◌||◌, List, [],
  ◌∷◌, Option, none, some, length, get_elem?, get_or, set, drop, leb, ltb, ◌==◌, if◌then◌else◌, Run,
  ok, panic, undefined, ◌>>=◌, sub64, add64,
}
use elysium_os.Pmm.{
  Ref, Page, Region, max_order, page_size, order_to_pagecount, used_pages, paddr_of, update_page,
  read_page,
}

-- What the loops of the two functions work on.
pub record Blocks : Type 0 where
  pub lists : List (List Ref)
  pub regions : List Region

-- list_append(&zone->lists[order], &page->list_elem)
abbrev pub push : (order : ℕ) → Ref → List (List Ref) → List (List Ref)
push order ref lists = set lists order (ref ∷ get_or lists order [])

-- The list in which the search for a block ends, its first block and the others: the lists from
-- `order` on. There is no memory left when the lists run out.
unfoldable pub find_block : (order : ℕ) → List (List Ref) → Run (ℕ × Ref × List Ref)
find_block order [] = panic
find_block order ([] ∷ lists) = find_block (suc order) lists
find_block order ((ref ∷ refs) ∷ lists) = ok (order, ref, refs)

-- page->order = order
abbrev pub with_order : ℕ → Page → Page
with_order order p = record p { order = order }

-- A round of the loop that splits a block: its upper half, of the order `order`, is free.
unfoldable pub halve : (order : ℕ) → Ref → Blocks → Run Blocks
halve order ref b =
    let buddy : Ref = record ref { index = ref.index + order_to_pagecount order } in
    update_page buddy (with_order order) b.regions >>= λ regions.
    ok (record { lists = push order buddy b.lists; regions = regions })

-- The loop, for a block of the order `order + k`.
unfoldable pub split : (k order : ℕ) → Ref → Blocks → Run Blocks
split zero order ref b = ok b
split (suc k) order ref b = halve (order + k) ref b >>= split k order ref

abbrev pub taken : ℕ → Page → Page
taken order p = record { order = order; free = false }

abbrev pub split_found : ℕ → Blocks → ℕ × Ref × List Ref → Run (Ref × Blocks)
split_found order b (avl, ref, refs) =
    split (avl - order) order ref (record b { lists = set b.lists avl refs }) >>= λ b.
    update_page ref (taken order) b.regions >>= λ regions. ok (ref, record b { regions = regions })

-- From the search on, `page->order` and `page->free` included.
unfoldable pub alloc_block : (order : ℕ) → Blocks → Run (Ref × Blocks)
alloc_block order b = find_block order (drop order b.lists) >>= split_found order b

abbrev pub same_ref : Ref → Ref → Bool
same_ref a b = (a.region == b.region) && (a.index == b.index)

-- list_delete(&page->list_elem): from the list that the page is in. It is undefined for a page that
-- is in none, whose pointers are what was left of an earlier list.
abbrev pub in_tail : Ref → Option (List Ref) → Option (List Ref)
in_tail r none = none
in_tail r (some refs) = some (r ∷ refs)

unfoldable pub remove_from : Ref → List Ref → Option (List Ref)
remove_from ref [] = none
remove_from ref (r ∷ refs) =
    let rest = remove_from ref refs in if same_ref ref r then some refs else in_tail r rest

abbrev pub in_later : List Ref → Run (List (List Ref)) → Run (List (List Ref))
in_later refs m = m >>= λ lists. ok (refs ∷ lists)

abbrev pub deleted :
    List Ref
    → (lists : List (List Ref)) → (rest : Run (List (List Ref))) → Option (List Ref)
    → Run (List (List Ref))
deleted refs lists rest none = in_later refs rest
deleted refs lists rest (some refs') = ok (refs' ∷ lists)

unfoldable pub list_delete : Ref → List (List Ref) → Run (List (List Ref))
unfolding remove_from
list_delete ref [] = undefined
list_delete ref (refs ∷ lists) =
    let rest = list_delete ref lists in deleted refs lists rest (remove_from ref refs)

-- x ^ unit, for a unit that is a power of two
abbrev pub flip : (x unit : ℕ) → ℕ
flip x unit = if (x / unit) % 2 == 0 then x + unit else (x - unit)

-- buddy_addr, and the page there
abbrev pub data_base : Region → ℕ
data_base g = g.base + used_pages g.page_count * page_size

abbrev pub buddy_addr : Region → (index order : ℕ) → ℕ
buddy_addr g index order =
    data_base g
    + flip (sub64 (paddr_of g index) (data_base g)) (order_to_pagecount order * page_size)

abbrev pub region_end : Region → ℕ
region_end g = g.base + g.page_count * page_size

abbrev pub lower : Ref → Ref → Ref
lower page buddy = if ltb buddy.index page.index then buddy else page

-- A merge of the block at `page` with the one at `buddy`, both of the order `order`.
unfoldable pub merge_buddy : (order : ℕ) → (page buddy : Ref) → Blocks → Run (Ref × Blocks)
unfolding list_delete
merge_buddy order page buddy b = list_delete buddy b.lists >>= λ lists.
    update_page buddy (with_order (suc order)) b.regions >>= λ regions.
    update_page page (with_order (suc order)) regions >>= λ regions.
    ok (lower page buddy, record { lists = lists; regions = regions })

-- Whether the block at `page` can be merged, and with which page.
abbrev pub if_free : (order : ℕ) → Ref → Page → Option Ref
if_free order buddy p = if p.free && (p.order == order) then some buddy else none

abbrev pub buddy_of : Region → Ref → (order : ℕ) → Ref
buddy_of g page order = record page { index = (buddy_addr g page.index order - g.base) / page_size }

abbrev pub checked : (order : ℕ) → Ref → Run Page → Run (Option Ref)
checked order buddy m = m >>= λ p. ok (if_free order buddy p)

abbrev pub buddy_in : (order : ℕ) → Ref → List Region → Option Region → Run (Option Ref)
buddy_in order page regions none = undefined
buddy_in order page regions (some g) =
    if leb max_order order || leb (region_end g) (buddy_addr g page.index order)
    then ok none
    else checked order (buddy_of g page order) (read_page (buddy_of g page order) regions)

unfoldable pub find_buddy : (order : ℕ) → Ref → List Region → Run (Option Ref)
find_buddy order page regions = buddy_in order page regions (get_elem? regions page.region)

abbrev pub stop_or :
    (order : ℕ)
    → Ref
    → Blocks
    → (Ref × Blocks → Run (ℕ × Ref × Blocks))
    → Option Ref
    → Run (ℕ × Ref × Blocks)
stop_or order page b go none = ok (order, page, b)
stop_or order page b go (some buddy) = merge_buddy order page buddy b >>= go

-- The loop of `pmm_free`, on as many rounds as there are orders above `order`.
unfoldable pub merge : (rounds order : ℕ) → Ref → Blocks → Run (ℕ × Ref × Blocks)
unfolding merge_buddy find_buddy
merge zero order page b = panic
merge (suc rounds) order page b =
    find_buddy order page b.regions
    >>= stop_or order page b (λ r. merge rounds (suc order) (r.0) (r.1))

abbrev pub released : Page → Page
released p = record p { free = true }

abbrev pub listed : ℕ × Ref × Blocks → Blocks
listed (order, page, b) = record b { lists = push order page b.lists }

unfoldable pub free_block : Ref → Blocks → Run Blocks
unfolding merge
free_block page b = update_page page released b.regions >>= λ regions.
    read_page page regions >>= λ p.
    merge (suc (max_order - p.order)) p.order page (record b { regions = regions }) >>= λ r.
    ok (listed r)
