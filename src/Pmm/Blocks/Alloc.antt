-- ===== src/Pmm/Blocks/Alloc.antt =====
-- What allocation does to the tiling by blocks (kernel/src/memory/pmm.c).
use elysium_os.Base.{
  ℕ, zero, suc, ◌+◌, ◌-◌, ◌≤◌, ◌<◌, ◌≡◌, ◌⊎◌, inl, inr, true, false, List, [], ◌∷◌, some, length,
  get_elem?, set, drop, arith, refl, ap, sym, subst, ◌∙◌, some-eq, get_elem?-some, get_elem?-lt, ok,
  panic, ◌>>=◌, get_elem?-drop,
}
use elysium_os.Pmm.{Ref, Page, Region, with_page, update_page}
use elysium_os.Pmm.Blocks.{
  Blocks, push, find_block, halve, split, split_found, alloc_block, with_order, taken,
}
use elysium_os.Pmm.Blocks.Cover.{cover_blocks, Among, Listed, taken-cover}
use elysium_os.Pmm.Blocks.Tiling.{IsPlaced, Tiled, pow_pos, inside_self, apart, IsHead-written}
use elysium_os.Pmm.Blocks.Moves.{Without, written, write_page, take_out, put_back, hand_out}
use elysium_os.Pmm.Blocks.Halves.{upper, split_hand}

pub update_page-there :
    (ref : Ref) (f : Page → Page) (regions : List Region) (g : Region) (p : Page)
    → get_elem? regions ref.region ≡ some g
    → get_elem? g.pages ref.index ≡ some p
    → update_page ref f regions ≡ ok (set regions ref.region (with_page g ref.index (f p)))
unfolding update_page
update_page-there ref f regions g p h h' = simp (update_page, h, h')

-- The page at the beginning of a block in hand is there, and marked free.
pub record HeldPage (b : Blocks) (o : ℕ) (ref : Ref) : Type 0 where
  pub region : Region
  pub there : get_elem? b.regions ref.region ≡ some region
  pub placed : IsPlaced region o ref.index
  pub page : Page
  pub page_there : get_elem? region.pages ref.index ≡ some page
  pub free : page.free ≡ true

pub held_page :
    {z : ℕ} {b : Blocks} {A H : List (ℕ × Ref)} (o : ℕ) (ref : Ref)
    → Tiled z b A H
    → Among (o, ref) H
    → HeldPage b o ref
held_page {b = b} {A = A} {H = H} o ref t a =
    let place = t.hand o ref a in
    let g = place.region in
    let fits : ref.index < length g.pages =
      omega (arith, t.paged ref.region g place.there, place.placed.high, pow_pos o) in
    let (p, h) = get_elem?-some g.pages ref.index fits in
    record {
      region = g;
      there = place.there;
      placed = place.placed;
      page = p;
      page_there = h;
      free = elim (t.idle ref.region g ref.index p place.there h place.placed.low) [
        | inl free ↦ free
        | inr (k, a') ↦ absurd (
            omega (
              arith,
              inside_self o ref,
              inside_self k ref,
              taken-cover o ref H ref.region ref.index a,
              taken-cover k ref A ref.region ref.index a',
              apart t ref.region g ref.index place.there,
            ))
      ];
    }

halve-Tiled :
    {z : ℕ} {b : Blocks} {A : List (ℕ × Ref)} (o : ℕ) (ref : Ref)
    → Tiled z b A ((suc o, ref) ∷ [])
    → (b' : Blocks) × (halve o ref b ≡ ok b') × Tiled z b' A ((o, ref) ∷ [])
unfolding halve
halve-Tiled {b = b} {A = A} o ref t =
    let buddy = upper o ref in
    let t1 = split_hand o ref t in
    let held = held_page o buddy t1 (0, refl) in
    let g = held.region in
    let q : Page = record { order = o; free = true } in
    let cov : 1 ≤ cover_blocks ((o, buddy) ∷ (o, ref) ∷ []) buddy.region buddy.index =
      omega (arith, inside_self o buddy) in
    let t2 = write_page t1 buddy g q held.there cov refl in
    let fits = get_elem?-lt g.pages buddy.index held.page held.page_there in
    let head = IsHead-written b.regions g o buddy true held.there fits held.placed in
    let runs : halve o ref b
        ≡ ok (record {
          lists = push o buddy b.lists;
          regions = set b.regions buddy.region (with_page g buddy.index (with_order o held.page));
        }) =
      ap (λ m. m >>= λ regions. ok (record { lists = push o buddy b.lists; regions = regions }))
        (update_page-there buddy (with_order o) b.regions g held.page held.there held.page_there) in
    (
      record (written b buddy g q) { lists = push o buddy b.lists },
      runs
          ∙ ap
              (λ f. ok (record {
                lists = push o buddy b.lists;
                regions =
                    set b.regions buddy.region
                      (with_page g buddy.index (record { order = o; free = f }));
              }))
              held.free,
      put_back o buddy t2 head,
    )

split-Tiled :
    {z : ℕ} {A : List (ℕ × Ref)} (k o n : ℕ) (ref : Ref) (b : Blocks)
    → n ≡ o + k
    → Tiled z b A ((n, ref) ∷ [])
    → (b' : Blocks) × (split k o ref b ≡ ok b') × Tiled z b' A ((o, ref) ∷ [])
unfolding split
split-Tiled {z = z} {A = A} zero o n ref b e t =
    (b, refl, subst (λ n. Tiled z b A ((n, ref) ∷ [])) (omega arith) t)
split-Tiled {z = z} {A = A} (suc k) o n ref b e t =
    let (b1, runs1, t1) =
      halve-Tiled (o + k) ref (subst (λ n. Tiled z b A ((n, ref) ∷ [])) (omega arith) t) in
    let (b2, runs2, t2) = split-Tiled k o (o + k) ref b1 refl t1 in
    (b2, ap (λ m. m >>= split k o ref) runs1 ∙ runs2, t2)

nothing :
    (lists : List (List Ref))
    → ((k : ℕ) (ref : Ref) → Listed lists k ref → ⊥)
    → (k : ℕ) (ref : Ref) → Listed ([] ∷ lists) k ref
    → ⊥
nothing lists h zero ref (refs, e, (n, a)) =
    let empty : refs ≡ [] = sym (some-eq e) in ground (arith, ap (λ xs. get_elem? xs n) empty, a)
nothing lists h (suc k) ref l = h k ref l

-- The search ends at the first list that is not empty.
find_block-cases :
    (lists : List (List Ref)) (o : ℕ)
    → ((find_block o lists ≡ panic) × ((k : ℕ) (ref : Ref) → Listed lists k ref → ⊥))
      ⊎ ((k n : ℕ) × (ref : Ref) × (refs : List Ref) × (n ≡ o + k)
          × (find_block o lists ≡ ok (n, ref, refs))
          × (get_elem? lists k ≡ some (ref ∷ refs)))
unfolding find_block
find_block-cases [] o = inl (refl, λ k ref (refs, h, a). ground (arith, h))
find_block-cases ([] ∷ lists) o = elim (find_block-cases lists (suc o)) [
  | inl (e, empty) ↦ inl (e, nothing lists empty)
  | inr (k, n, ref, refs, e, runs, h) ↦ inr (suc k, n, ref, refs, omega arith, runs, h)
]
find_block-cases ((ref ∷ refs) ∷ lists) o = inr (0, o, ref, refs, omega arith, refl, refl)

first-Without : (ref : Ref) (refs : List Ref) → Without ref (ref ∷ refs) refs
first-Without ref refs = record {
  there = (0, refl);
  fewer = λ x (n, a). (suc n, a);
  counted = λ n r i. refl;
}

-- With the pages tiled by the free and the allocated blocks, allocation of a block either panics, and
-- then no block of the order or of a larger one is free, or it returns a block of the order: the pages
-- are tiled by the blocks that are free then, the allocated ones, and this one. So it is aligned to its
-- size, and none of its pages was part of an allocated block.
pub alloc_block-Tiled :
    (z order : ℕ) (b : Blocks) (A : List (ℕ × Ref))
    → Tiled z b A []
    → order < 8
    → ((alloc_block order b ≡ panic) × ((k : ℕ) (ref : Ref) → order ≤ k → Listed b.lists k ref → ⊥))
      ⊎ ((ref : Ref) × (b' : Blocks) × (alloc_block order b ≡ ok (ref, b'))
          × Tiled z b' ((order, ref) ∷ A) [])
unfolding alloc_block
alloc_block-Tiled z order b A t small = elim (find_block-cases (drop order b.lists) order) [
  | inl (e, empty) ↦ inl (
    ap (λ m. m >>= split_found order b) e,
    λ k ref le (refs, h, a).
        empty (k - order) ref
          (refs, get_elem?-drop order (k - order) k b.lists (omega arith) ∙ h, a),
  )
  | inr (k, n, ref, refs, e, runs, h) ↦
      let there : get_elem? b.lists n ≡ some (ref ∷ refs) =
        sym (get_elem?-drop order k n b.lists e) ∙ h in
      let t1 = take_out t n ref (ref ∷ refs) refs there (first-Without ref refs) in
      let (b2, runs2, t2) =
        split-Tiled (n - order) order n ref (record b { lists = set b.lists n refs }) (omega arith)
          t1 in
      let held = held_page order ref t2 (0, refl) in
      let t3 = hand_out order ref held.region t2 held.there in
      inr (
        ref,
        written b2 ref held.region (record { order = order; free = false }),
        ap (λ m. m >>= split_found order b) runs
            ∙ ap
                (λ m. m >>= (λ b.
                  update_page ref (taken order) b.regions
                  >>= (λ regions. ok (ref, record b { regions = regions }))))
                runs2
            ∙ ap (λ m. m >>= λ regions. ok (ref, record b2 { regions = regions }))
                (update_page-there ref (taken order) b2.regions held.region held.page held.there
                  held.page_there),
        t3,
      )
]
