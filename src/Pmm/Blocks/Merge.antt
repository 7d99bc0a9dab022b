-- ===== src/Pmm/Blocks/Merge.antt =====
-- A round of the loop of `pmm_free` (kernel/src/memory/pmm.c): two buddies become one block.
use elysium_os.Base.{
  ℕ, suc, ◌+◌, ◌-◌, ◌%◌, ◌^◌, ◌≡◌, ◌≢◌, ◌⊎◌, inl, inr, true, false, List, [], ◌∷◌, some, get_elem?,
  set, ltb, arith, refl, ap, sym, subst, ◌∙◌, some-eq, get_elem?-lt, lt→ltb, le→not_ltb,
  get_elem?-set_self, get_elem?-set_ne, ok,
}
use elysium_os.Pmm.{Ref, Page, Region, used_pages, with_page}
use elysium_os.Pmm.Blocks.{Blocks, flip, list_delete, lower, merge_buddy, with_order}
use elysium_os.Pmm.Blocks.Tiling.{IsPlaced, IsHead, Tiled, pow_pos, inside_self}
use elysium_os.Pmm.Blocks.Moves.{write_page, take_out}
use elysium_os.Pmm.Blocks.Halves.{upper, join_hand, swap_hand}
use elysium_os.Pmm.Blocks.Powers.{flip-halves}
use elysium_os.Pmm.Blocks.Delete.{list_delete-Without}
use elysium_os.Pmm.Blocks.Buddy.{buddy-Listed}
use elysium_os.Pmm.Blocks.Alloc.{update_page-there}
use elysium_os.Pmm.Blocks.Find.{Buddy}

-- A merge of the block in hand with its buddy.
module _ {z : ℕ} {b : Blocks} {A : List (ℕ × Ref)} (o : ℕ) (page : Ref) (y : ℕ)
    (t : Tiled z b A ((o, page) ∷ [])) (head : IsHead b.regions o page true)
    (buddy_is : Buddy b o page y) where
  abbrev buddy : Ref
  buddy = record page { index = y }

  abbrev g : Region
  g = buddy_is.region

  abbrev u : ℕ
  u = used_pages g.page_count

  abbrev q : Page
  q = record { order = suc o; free = true }

  sides :
      ((y ≡ page.index + 2 ^ o) × ((page.index - u) % 2 ^ suc o ≡ 0))
      ⊎ ((y + 2 ^ o ≡ page.index) × ((y - u) % 2 ^ suc o ≡ 0))
  sides =
      let p = buddy_is.placed in
      elim (flip-halves o (page.index - u) p.aligned) [
        | inl (up, base) ↦ inl (omega (arith, buddy_is.flipped, up, p.low), base)
        | inr (down, base) ↦
            let e : y - u ≡ flip (page.index - u) (2 ^ o) = omega (arith, buddy_is.flipped) in
            inr (
              omega (arith, buddy_is.flipped, down, p.low, pow_pos o),
              ap (λ x. x % 2 ^ suc o) e ∙ base,
            )
      ]

  differ : y ≢ page.index
  differ e = elim sides [
    | inl (up, a) ↦ omega (arith, e, up, pow_pos o)
    | inr (down, a) ↦ omega (arith, e, down, pow_pos o)
  ]

  deleted_buddy :
      (lists : List (List Ref)) × (list_delete buddy b.lists ≡ ok lists)
      × Tiled z (record b { lists = lists }) A ((o, buddy) ∷ (o, page) ∷ [])
  deleted_buddy =
      let l =
        buddy-Listed o page g y t buddy_is.there buddy_is.placed buddy_is.flipped
          buddy_is.inside_region buddy_is.marked in
      let (k, refs, refs', runs, h, w) = list_delete-Without buddy b.lists o l in
      let at_k = t.heads k buddy (refs, h, w.there) in
      let same : at_k.region ≡ g = some-eq (sym at_k.there ∙ buddy_is.there) in
      let page_k : get_elem? g.pages y ≡ some (record { order = k; free = true }) =
        subst (λ g. get_elem? g.pages y ≡ some (record { order = k; free = true })) same
          at_k.page in
      let e : Path Page (record { order = k; free = true }) (record { order = o; free = true }) =
        some-eq (sym page_k ∙ buddy_is.marked) in
      let lists = set b.lists k refs' in
      (
        lists,
        runs,
        subst (λ k. Tiled z (record b { lists = lists }) A ((k, buddy) ∷ (o, page) ∷ []))
            (ap (λ p. p.order) e) (take_out t k buddy refs refs' h w),
      )

  abbrev g1 : Region
  g1 = with_page g y q

  abbrev g2 : Region
  g2 = with_page g1 page.index q

  abbrev regions1 : List Region
  regions1 = set b.regions page.region g1

  abbrev regions2 : List Region
  regions2 = set regions1 page.region g2

  there1 : get_elem? regions1 page.region ≡ some g1
  there1 =
      get_elem?-set_self b.regions page.region g1
        (get_elem?-lt b.regions page.region g buddy_is.there)

  there2 : get_elem? regions2 page.region ≡ some g2
  there2 = get_elem?-set_self regions1 page.region g2 (get_elem?-lt regions1 page.region g1 there1)

  page_there : get_elem? g.pages page.index ≡ some (record { order = o; free = true })
  page_there =
      let same : head.region ≡ g = some-eq (sym head.there ∙ buddy_is.there) in
      subst (λ g. get_elem? g.pages page.index ≡ some (record { order = o; free = true })) same
        head.page

  page_there1 : get_elem? g1.pages page.index ≡ some (record { order = o; free = true })
  page_there1 = get_elem?-set_ne g.pages q differ ∙ page_there

  page2 : get_elem? g2.pages page.index ≡ some q
  page2 =
      get_elem?-set_self g1.pages page.index q
        (get_elem?-lt g1.pages page.index (record { order = o; free = true }) page_there1)

  buddy2 : get_elem? g2.pages y ≡ some q
  buddy2 =
      get_elem?-set_ne g1.pages q (λ e. differ (sym e))
      ∙ get_elem?-set_self g.pages y q
          (get_elem?-lt g.pages y (record { order = o; free = true }) buddy_is.marked)

  -- Both pages are written, with the two blocks still in hand.
  written_both :
      (lists : List (List Ref))
      → Tiled z (record b { lists = lists }) A ((o, buddy) ∷ (o, page) ∷ [])
      → Tiled z (record { lists = lists; regions = regions2 }) A ((o, buddy) ∷ (o, page) ∷ [])
  written_both lists t1 =
      let a = inside_self o buddy in
      let c = inside_self o page in
      write_page (write_page t1 buddy g q buddy_is.there (omega arith) refl) page g1 q there1
        (omega arith) refl

  abbrev Merged : List (List Ref) → Ref → Type 0
  Merged lists low =
      Tiled z (record { lists = lists; regions = regions2 }) A ((suc o, low) ∷ [])
      × (get_elem? g2.pages low.index ≡ some q)
      × (low.region ≡ page.region)

  aligned_low :
      (x : ℕ)
      → (x - u) % 2 ^ suc o ≡ 0
      → (g' : Region) → get_elem? regions2 page.region ≡ some g'
      → (x - used_pages g'.page_count) % 2 ^ suc o ≡ 0
  aligned_low x h g' e =
      subst (λ g. (x - used_pages g.page_count) % 2 ^ suc o ≡ 0) (some-eq (sym there2 ∙ e)) h

  merged :
      (lists : List (List Ref))
      → Tiled z (record { lists = lists; regions = regions2 }) A ((o, buddy) ∷ (o, page) ∷ [])
      → Merged lists (lower page buddy)
  merged lists t1 = elim sides [
    | inl (up, base) ↦
        let above : ltb y page.index ≡ false = le→not_ltb y page.index (omega (arith, up)) in
        let low : lower page buddy ≡ page = simp (above) in
        let is_upper : buddy ≡ upper o page = ap (λ i. record page { index = i }) up in
        let t2 =
          subst
            (λ x.
              Tiled z (record { lists = lists; regions = regions2 }) A ((o, page) ∷ (o, x) ∷ []))
            is_upper (swap_hand (o, buddy) (o, page) t1) in
        subst (Merged lists) (sym low)
          (join_hand o page t2 buddy_is.small (aligned_low page.index base), page2, refl)
    | inr (down, base) ↦
        let below : ltb y page.index ≡ true =
          lt→ltb y page.index (omega (arith, down, pow_pos o)) in
        let low : lower page buddy ≡ buddy = simp (below) in
        let is_upper : page ≡ upper o buddy = ap (λ i. record page { index = i }) (sym down) in
        let t2 =
          subst
            (λ x.
              Tiled z (record { lists = lists; regions = regions2 }) A ((o, buddy) ∷ (o, x) ∷ []))
            is_upper t1 in
        subst (Merged lists) (sym low)
          (join_hand o buddy t2 buddy_is.small (aligned_low y base), buddy2, refl)
  ]

  pub merge_buddy-Tiled :
      (b' : Blocks) × (merge_buddy o page buddy b ≡ ok (lower page buddy, b'))
      × Tiled z b' A ((suc o, lower page buddy) ∷ [])
      × IsHead b'.regions (suc o) (lower page buddy) true
  unfolding merge_buddy
  merge_buddy-Tiled =
      let (lists, runs, t1) = deleted_buddy in
      let (t2, marked, same) = merged lists (written_both lists t1) in
      let low = lower page buddy in
      let place = t2.hand (suc o) low (0, refl) in
      let here : place.region ≡ g2 =
        some-eq (sym place.there ∙ ap (get_elem? regions2) same ∙ there2) in
      (
        record { lists = lists; regions = regions2 },
        simp (
          runs,
          update_page-there buddy (with_order (suc o)) b.regions g
              (record { order = o; free = true }) buddy_is.there buddy_is.marked,
          update_page-there page (with_order (suc o)) regions1 g1
              (record { order = o; free = true }) there1 page_there1,
        ),
        t2,
        record {
          region = g2;
          there = ap (get_elem? regions2) same ∙ there2;
          placed = subst (λ g. IsPlaced g (suc o) low.index) here place.placed;
          page = marked;
        },
      )
