-- ===== src/Pmm/Pages/Recount.antt =====
-- The counts of free pages (kernel/src/memory/pmm.c) have no part in the tiling.
use elysium_os.Base.{
  ℕ, ◌+◌, ◌-◌, ◌%◌, ◌^◌, ◌≤◌, ◌≡◌, ◌≢◌, inl, inr, Bool, true, false, ◌&&◌, List, [], some, length,
  get_elem?, set, leb, ltb, ◌==◌, arith, refl, ap, ap₂, sym, subst, ◌∙◌, Bool-cases, some-eq,
  get_elem?-set_self, get_elem?-set_ne, get_elem?-lt,
}
use elysium_os.Pmm.{Ref, Region, used_pages}
use elysium_os.Pmm.Blocks.Cover.{bit}
use elysium_os.Pmm.Blocks.Tiling.{IsPlaced, IsHead, Tiled, given, set-cases}
use elysium_os.Pmm.Pages.{count_region}

given-same :
    (z : ℕ) (g g' : Region) (i : ℕ)
    → g.zone ≡ g'.zone
    → g.page_count ≡ g'.page_count
    → given z g' i ≡ given z g i
given-same z g g' i zone count =
    ap₂ (λ w n. bit ((w == z) && (leb (used_pages n) i && ltb i n))) (sym zone) (sym count)

module _ (regions : List Region) (R : ℕ) (G : Region) (f : ℕ → ℕ)
    (there : get_elem? regions R ≡ some G) where
  abbrev pub recounted : List Region
  recounted = set regions R (count_region f G)

  -- A region after a change of its count, and the one that it was.
  recount-old :
      (r : ℕ) (g : Region)
      → get_elem? recounted r ≡ some g
      → (g' : Region) × (get_elem? regions r ≡ some g')
        × (g.zone ≡ g'.zone)
        × (g.base ≡ g'.base)
        × (g.page_count ≡ g'.page_count)
        × (g.pages ≡ g'.pages)
  recount-old r g h =
      elim (set-cases regions R (count_region f G) r g (get_elem?-lt regions R G there) h) [
        | inl (e, e') ↦ (
          G,
          ap (get_elem? regions) e ∙ there,
          ap (λ g. g.zone) e',
          ap (λ g. g.base) e',
          ap (λ g. g.page_count) e',
          ap (λ g. g.pages) e',
        )
        | inr (ne, e) ↦ (g, e, refl, refl, refl, refl)
      ]

  recount-new :
      (r : ℕ) (g : Region)
      → get_elem? regions r ≡ some g
      → (g' : Region) × (get_elem? recounted r ≡ some g')
        × (g'.page_count ≡ g.page_count)
        × (g'.pages ≡ g.pages)
  recount-new r g h = elim (Bool-cases (r == R)) [
    | inl same ↦
        let e : r ≡ R = ground arith in
        let e' : g ≡ G = some-eq (sym h ∙ ap (get_elem? regions) e ∙ there) in
        (
          count_region f G,
          ap (get_elem? recounted) e
              ∙ get_elem?-set_self regions R (count_region f G) (get_elem?-lt regions R G there),
          ap (λ g. g.page_count) (sym e'),
          ap (λ g. g.pages) (sym e'),
        )
    | inr other ↦
        let ne : R ≢ r = λ e. ground arith in
        (g, get_elem?-set_ne regions (count_region f G) ne ∙ h, refl, refl)
  ]

  IsPlaced-same :
      (g g' : Region) (o i : ℕ) → g'.page_count ≡ g.page_count → IsPlaced g o i → IsPlaced g' o i
  IsPlaced-same g g' o i e p = record {
    small = p.small;
    low = subst (λ n. used_pages n ≤ i) (sym e) p.low;
    high = subst (λ n. i + 2 ^ o ≤ n) (sym e) p.high;
    aligned = subst (λ n. (i - used_pages n) % 2 ^ o ≡ 0) (sym e) p.aligned;
  }

  IsHead-recount :
      (o : ℕ) (ref : Ref) (free : Bool) → IsHead regions o ref free → IsHead recounted o ref free
  IsHead-recount o ref free h =
      let (g', there', count, pages) = recount-new ref.region h.region h.there in
      record {
        region = g';
        there = there';
        placed = IsPlaced-same h.region g' o ref.index count h.placed;
        page = ap (λ ps. get_elem? ps ref.index) pages ∙ h.page;
      }

  -- The counts have no part in the tiling.
  pub recount-Tiled :
      (z : ℕ) (lists : List (List Ref)) (A : List (ℕ × Ref))
      → Tiled z (record { lists = lists; regions = regions }) A []
      → Tiled z (record { lists = lists; regions = recounted }) A []
  recount-Tiled z lists A t = record {
    eight = t.eight;
    paged = λ r g h.
        let (g', h', zone, base, count, pages) = recount-old r g h in
        ap length pages ∙ t.paged r g' h' ∙ sym count;
    bounded = λ r g h.
        let (g', h', zone, base, count, pages) = recount-old r g h in
        omega (arith, t.bounded r g' h', base, count);
    tiled = λ r g h i.
        let (g', h', zone, base, count, pages) = recount-old r g h in
        t.tiled r g' h' i ∙ given-same z g g' i zone count;
    heads = λ k ref l. IsHead-recount k ref true (t.heads k ref l);
    taken = λ k ref a. IsHead-recount k ref false (t.taken k ref a);
    hand = λ k ref (n, e). absurd (ground (arith, e));
    idle = λ r g i p h page low.
        let (g', h', zone, base, count, pages) = recount-old r g h in
        t.idle r g' i p h' (ap (λ ps. get_elem? ps i) (sym pages) ∙ page)
          (subst (λ n. used_pages n ≤ i) count low);
  }
