-- ===== src/Pmm/Blocks/Buddy.antt =====
-- The buddy of a block that is given back (kernel/src/memory/pmm.c) is in its list if it is free.
use elysium_os.Base.{
  ℕ, suc, ◌+◌, ◌-◌, ◌%◌, ◌^◌, ◌≤◌, ◌<◌, ◌≡◌, ◌⊎◌, inl, inr, Bool, true, false, ◌&&◌, List, [], ◌∷◌,
  some, get_elem?, ltb, leb, ◌==◌, arith, ap, ap₂, sym, subst, ◌∙◌, Bool-cases, some-eq,
}
use elysium_os.Pmm.{Ref, Page, Region, used_pages}
use elysium_os.Pmm.Blocks.{Blocks, flip}
use elysium_os.Pmm.Blocks.Cover.{
  bit, inside, Inside, inside-in, inside-cases, cover_lists, Listed, Listed-cover, taken-cover,
  cover_lists-found, cover_blocks-found,
}
use elysium_os.Pmm.Blocks.Tiling.{IsPlaced, IsHead, Tiled, given, pow_pos, inside_self, apart}
use elysium_os.Pmm.Blocks.Powers.{lower_half, upper_half, flip-halves, nested}
use native.Mathlib.Nat.{pow-succ'}

-- A block that contains the buddy of a block begins there, or it contains the block too.
meets-buddy :
    (g : Region) (o i y k j : ℕ)
    → IsPlaced g o i
    → y ≡ used_pages g.page_count + flip (i - used_pages g.page_count) (2 ^ o)
    → IsPlaced g k j
    → j ≤ y
    → y < j + 2 ^ k
    → (j ≡ y) ⊎ ((j ≤ i) × (i < j + 2 ^ k))
meets-buddy g o i y k j p e q low high =
    let u = used_pages g.page_count in
    let x = i - u in
    let f = flip x (2 ^ o) in
    elim (Bool-cases (leb k o)) [
      | inl small ↦
          let aligned : f % 2 ^ o ≡ 0 = elim (flip-halves o x p.aligned) [
            | inl (up, base) ↦ ap (λ f. f % 2 ^ o) up ∙ upper_half o x base
            | inr (down, base) ↦ lower_half o f base
          ] in
          let (first, last) =
            nested k o (j - u) f f (ground arith) q.aligned aligned (omega (arith, e, q.low, low))
              (omega (arith, e, q.low, high)) (omega arith) (omega (arith, pow_pos o)) in
          inl (omega (arith, first, e, q.low, low))
      | inr large ↦ elim (flip-halves o x p.aligned) [
        | inl (up, base) ↦
            let (first, last) =
              nested (suc o) k x (j - u) f (ground arith) base q.aligned (omega (arith, up))
                (omega (arith, up, pow-succ' 2 o, pow_pos o)) (omega (arith, e, q.low, low))
                (omega (arith, e, q.low, high)) in
            inr (
              omega (arith, first, p.low, q.low),
              omega (arith, last, p.low, q.low, pow-succ' 2 o, pow_pos o),
            )
        | inr (down, base) ↦
            let (first, last) =
              nested (suc o) k f (j - u) f (ground arith) base q.aligned (omega arith)
                (omega (arith, pow-succ' 2 o, pow_pos o)) (omega (arith, e, q.low, low))
                (omega (arith, e, q.low, high)) in
            inr (
              omega (arith, first, down, p.low, q.low),
              omega (arith, last, down, p.low, q.low, pow-succ' 2 o, pow_pos o),
            )
      ]
    ]

-- The page that a block begins with is one that the zone gives away.
given-held :
    {z : ℕ} {b : Blocks} {A : List (ℕ × Ref)} (o : ℕ) (page : Ref) (g : Region)
    → Tiled z b A ((o, page) ∷ [])
    → get_elem? b.regions page.region ≡ some g
    → (g.zone == z) ≡ true
given-held {z = z} o page g t there = elim (Bool-cases (g.zone == z)) [
  | inl yes_ ↦ yes_
  | inr no_ ↦
      let zero_ : given z g page.index ≡ 0 =
        ap
          (λ b.
            bit (b && (leb (used_pages g.page_count) page.index && ltb page.index g.page_count)))
          no_ in
      absurd (omega (arith, zero_, inside_self o page, t.tiled page.region g there page.index))
]

-- A block that contains the buddy, and not the block itself, is the buddy.
head-buddy :
    (b : Blocks) (o : ℕ) (page : Ref) (g : Region) (y k : ℕ) (ref : Ref) (f : Bool)
    → get_elem? b.regions page.region ≡ some g
    → IsPlaced g o page.index
    → y ≡ used_pages g.page_count + flip (page.index - used_pages g.page_count) (2 ^ o)
    → get_elem? g.pages y ≡ some (record { order = o; free = true })
    → IsHead b.regions k ref f
    → Inside k ref page.region y
    → (inside k ref page.region page.index ≡ 1 → ⊥)
    → (k ≡ o) × (f ≡ true) × (ref ≡ record page { index = y })
head-buddy b o page g y k ref f there p e marked head (same, low, high) out =
    let region : head.region ≡ g =
      some-eq (sym head.there ∙ ap (get_elem? b.regions) same ∙ there) in
    let q : IsPlaced g k ref.index = subst (λ g. IsPlaced g k ref.index) region head.placed in
    elim (meets-buddy g o page.index y k ref.index p e q low high) [
      | inr (h1, h2) ↦ absurd (out (inside-in k ref page.region page.index (same, h1, h2)))
      | inl begins ↦
          let here : get_elem? g.pages y ≡ some (record { order = k; free = f }) =
            subst (λ g. get_elem? g.pages y ≡ some (record { order = k; free = f })) region
              (subst (λ i. get_elem? head.region.pages i ≡ some (record { order = k; free = f }))
                begins head.page) in
          let e : Path Page (record { order = k; free = f }) (record { order = o; free = true }) =
            some-eq (sym here ∙ marked) in
          (
            ap (λ p. p.order) e,
            ap (λ p. p.free) e,
            ap₂ (λ r i. record { region = r; index = i }) same begins,
          )
    ]

-- If the page of the buddy is marked free and has the order of the block in hand, the buddy is listed.
pub buddy-Listed :
    {z : ℕ} {b : Blocks} {A : List (ℕ × Ref)} (o : ℕ) (page : Ref) (g : Region) (y : ℕ)
    → Tiled z b A ((o, page) ∷ [])
    → get_elem? b.regions page.region ≡ some g
    → IsPlaced g o page.index
    → y ≡ used_pages g.page_count + flip (page.index - used_pages g.page_count) (2 ^ o)
    → y < g.page_count
    → get_elem? g.pages y ≡ some (record { order = o; free = true })
    → Listed b.lists o (record page { index = y })
buddy-Listed {z = z} {b = b} {A = A} o page g y t there p e fits marked =
    let u = used_pages g.page_count in
    let zone = given-held o page g t there in
    let low : leb u y ≡ true = ground (arith, e) in
    let high : ltb y g.page_count ≡ true = ground arith in
    let all : given z g y ≡ 1 = simp (zone, low, high) in
    let away : inside o page page.region y ≡ 0 = elim (inside-cases o page page.region y) [
      | inr out ↦ out
      | inl (same, h1, h2) ↦ elim (flip-halves o (page.index - u) p.aligned) [
        | inl (up, base) ↦ absurd (omega (arith, up, e, h1, h2, p.low))
        | inr (down, base) ↦ absurd (omega (arith, down, e, h1, h2, p.low, pow_pos o))
      ]
    ] in
    let sum = t.tiled page.region g there y in
    let one = t.tiled page.region g there page.index in
    let limit = apart t page.region g page.index there in
    let self = inside_self o page in
    elim (Bool-cases (ltb 0 (cover_lists 0 b.lists page.region y))) [
      | inl listed ↦
          let (k, ref, l, within) = cover_lists-found b.lists 0 page.region y (ground arith) in
          let within' : Inside k ref page.region y =
            subst (λ n. Inside n ref page.region y) (omega arith) within in
          let (k_o, free, is) =
            head-buddy b o page g y k ref true there p e marked (t.heads k ref l) within' (λ one.
              omega (
                arith,
                one,
                self,
                limit,
                Listed-cover b.lists k 0 k ref page.region page.index l (omega arith),
              )) in
          subst (λ k. Listed b.lists k (record page { index = y })) k_o
            (subst (Listed b.lists k) is l)
      | inr not_listed ↦
          let (k, ref, a, within) =
            cover_blocks-found A page.region y (ground (arith, sum, all, away)) in
          let (k_o, free, is) =
            head-buddy b o page g y k ref false there p e marked (t.taken k ref a) within (λ one.
              omega (arith, one, self, limit, taken-cover k ref A page.region page.index a)) in
          absurd (ground (arith, free))
    ]
