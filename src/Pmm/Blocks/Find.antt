-- ===== src/Pmm/Blocks/Find.antt =====
-- The search for the buddy in the loop of `pmm_free` (kernel/src/memory/pmm.c).
use elysium_os.Base.{
  ℕ, ◌+◌, ◌-◌, ◌*◌, ◌/◌, ◌^◌, ◌<◌, ◌≡◌, ◌⊎◌, inl, inr, true, false, ◌&&◌, ◌||◌, List, [], ◌∷◌, none,
  some, get_elem?, leb, ◌==◌, arith, refl, ap, ap₂, ◌∙◌, Bool-cases, get_elem?-some, ok, sub64,
}
use elysium_os.Pmm.{Ref, Page, Region, used_pages, read_page, max_order}
use elysium_os.Pmm.Blocks.{
  Blocks, flip, find_buddy, buddy_addr, region_end, if_free, checked, buddy_of, buddy_in,
}
use elysium_os.Pmm.Blocks.Tiling.{IsPlaced, Tiled, pow_pos}
use elysium_os.Pmm.Blocks.Powers.{flip-bytes}

buddy_addr-index :
    (g : Region) (o i : ℕ)
    → IsPlaced g o i
    → g.base + g.page_count * 4096 < 2 ^ 64
    → buddy_addr g i o
      ≡ g.base + (used_pages g.page_count + flip (i - used_pages g.page_count) (2 ^ o)) * 4096
buddy_addr-index g o i p bounded =
    let u = used_pages g.page_count in
    let e : sub64 (g.base + i * 4096) (g.base + u * 4096) ≡ (i - u) * 4096 =
      omega (arith, p.low, p.high, pow_pos o, bounded) in
    let e' : buddy_addr g i o ≡ g.base + u * 4096 + flip ((i - u) * 4096) (2 ^ o * 4096) =
      ap (λ x. g.base + u * 4096 + flip x (2 ^ o * 4096)) e in
    omega (arith, e', flip-bytes (i - u) (2 ^ o))

pub read_page-there :
    (ref : Ref) (regions : List Region) (g : Region) (p : Page)
    → get_elem? regions ref.region ≡ some g
    → get_elem? g.pages ref.index ≡ some p
    → read_page ref regions ≡ ok p
unfolding read_page
read_page-there ref regions g p h h' = simp (read_page, h, h')

buddy_in-go :
    (o : ℕ) (page : Ref) (regions : List Region) (g : Region)
    → (leb max_order o || leb (region_end g) (buddy_addr g page.index o)) ≡ false
    → buddy_in o page regions (some g)
      ≡ checked o (buddy_of g page o) (read_page (buddy_of g page o) regions)
buddy_in-go o page regions g go = simp (go)

-- The buddy of the block in hand that the loop finds.
pub record Buddy (b : Blocks) (o : ℕ) (page : Ref) (y : ℕ) : Type 0 where
  pub small : o < 7
  pub region : Region
  pub there : get_elem? b.regions page.region ≡ some region
  pub placed : IsPlaced region o page.index
  pub flipped :
      y ≡ used_pages region.page_count + flip (page.index - used_pages region.page_count) (2 ^ o)
  pub inside_region : y < region.page_count
  pub marked : get_elem? region.pages y ≡ some (record { order = o; free = true })

pub find_buddy-cases :
    {z : ℕ} {b : Blocks} {A : List (ℕ × Ref)} (o : ℕ) (page : Ref)
    → Tiled z b A ((o, page) ∷ [])
    → (find_buddy o page b.regions ≡ ok none)
      ⊎ ((y : ℕ) × (find_buddy o page b.regions ≡ ok (some (record page { index = y })))
          × Buddy b o page y)
unfolding find_buddy
find_buddy-cases {b = b} o page t =
    let place = t.hand o page (0, refl) in
    let g = place.region in
    let u = used_pages g.page_count in
    let y = u + flip (page.index - u) (2 ^ o) in
    let buddy : Ref = record page { index = y } in
    let addr = buddy_addr-index g o page.index place.placed (t.bounded page.region g place.there) in
    let known = ap (buddy_in o page b.regions) place.there in
    elim (Bool-cases (leb max_order o || leb (region_end g) (buddy_addr g page.index o))) [
      | inl stop ↦ inl (known ∙ simp (stop))
      | inr go ↦
          let fits : y < g.page_count = ground (arith, addr) in
          let index : (buddy_addr g page.index o - g.base) / 4096 ≡ y =
            ap (λ a. (a - g.base) / 4096) addr ∙ omega arith in
          let is_buddy : buddy_of g page o ≡ buddy = ap (λ i. record page { index = i }) index in
          let (p, h) =
            get_elem?-some g.pages y (omega (arith, fits, t.paged page.region g place.there)) in
          let runs : find_buddy o page b.regions ≡ ok (if_free o buddy p) =
            known
            ∙ buddy_in-go o page b.regions g go
            ∙ ap (λ r. checked o r (read_page r b.regions)) is_buddy
            ∙ ap (checked o buddy) (read_page-there buddy b.regions g p place.there h) in
          elim (Bool-cases (p.free && (p.order == o))) [
            | inl yes_ ↦ inr (
              y,
              runs ∙ ap ok (simp (yes_)),
              record {
                small = ground arith;
                region = g;
                there = place.there;
                placed = place.placed;
                flipped = refl;
                inside_region = fits;
                marked =
                    h
                    ∙ ap some
                        (ap₂ (λ o f. record { order = o; free = f }) (ground arith) (ground arith));
              },
            )
            | inr no_ ↦ inl (runs ∙ ap ok (simp (no_)))
          ]
    ]
