-- ===== src/Pmm/Blocks/Tiling.antt =====
-- The invariant of the physical memory manager (kernel/src/memory/pmm.c): the blocks tile the pages.
use elysium_os.Base.{
  ℕ, zero, suc, ◌+◌, ◌-◌, ◌*◌, ◌%◌, ◌^◌, ◌≤◌, ◌<◌, ◌≡◌, ◌≢◌, ◌⊎◌, inl, inr, Bool, true, false, ◌&&◌,
  List, some, length, get_elem?, set, leb, ltb, ◌==◌, arith, refl, ap, sym, subst, ◌∙◌, Bool-cases,
  some-eq, get_elem?-set_self, get_elem?-set_ne, get_elem?-lt, length-set,
}
use elysium_os.Pmm.{Ref, Page, Region, used_pages, with_page}
use elysium_os.Pmm.Blocks.{Blocks}
use elysium_os.Pmm.Blocks.Cover.{bit, inside, inside-in, cover_lists, cover_blocks, Among, Listed}

-- A block of the order `order` at the page `i` lies among the pages that the region gives away, on its
-- alignment.
pub record IsPlaced (g : Region) (order i : ℕ) : Type 0 where
  pub small : order < 8
  pub low : used_pages g.page_count ≤ i
  pub high : i + 2 ^ order ≤ g.page_count
  pub aligned : (i - used_pages g.page_count) % 2 ^ order ≡ 0

pub record InPlace (regions : List Region) (order : ℕ) (ref : Ref) : Type 0 where
  pub region : Region
  pub there : get_elem? regions ref.region ≡ some region
  pub placed : IsPlaced region order ref.index

-- The page at the beginning of a block says its order and whether it is free.
pub record IsHead (regions : List Region) (order : ℕ) (ref : Ref) (free : Bool) : Type 0 where
  pub region : Region
  pub there : get_elem? regions ref.region ≡ some region
  pub placed : IsPlaced region order ref.index
  pub page : get_elem? region.pages ref.index ≡ some (record { order = order; free = free })

-- Whether the page is one that the zone gives away.
abbrev pub given : (zone : ℕ) → Region → (i : ℕ) → ℕ
given z g i = bit ((g.zone == z) && (leb (used_pages g.page_count) i && ltb i g.page_count))

-- The lists of the zone `z`, the blocks that are allocated from it, `A`, and those that a call has in
-- hand, `H`, have each page that the zone gives away exactly once, and no other. Of the pages only the
-- first ones of allocated blocks are not marked free. Regions end below 2^64.
pub record Tiled (z : ℕ) (b : Blocks) (A H : List (ℕ × Ref)) : Type 0 where
  pub eight : length b.lists ≡ 8
  pub paged : (r : ℕ) (g : Region) → get_elem? b.regions r ≡ some g → length g.pages ≡ g.page_count
  pub bounded :
      (r : ℕ) (g : Region) → get_elem? b.regions r ≡ some g → g.base + g.page_count * 4096 < 2 ^ 64
  pub tiled :
      (r : ℕ) (g : Region)
      → get_elem? b.regions r ≡ some g
      → (i : ℕ)
      → cover_lists 0 b.lists r i + (cover_blocks A r i + cover_blocks H r i) ≡ given z g i
  pub heads : (k : ℕ) (ref : Ref) → Listed b.lists k ref → IsHead b.regions k ref true
  pub taken : (k : ℕ) (ref : Ref) → Among (k, ref) A → IsHead b.regions k ref false
  pub hand : (k : ℕ) (ref : Ref) → Among (k, ref) H → InPlace b.regions k ref
  pub idle :
      (r : ℕ) (g : Region) (i : ℕ) (p : Page)
      → get_elem? b.regions r ≡ some g
      → get_elem? g.pages i ≡ some p
      → used_pages g.page_count ≤ i
      → (p.free ≡ true) ⊎ ((k : ℕ) × Among (k, record { region = r; index = i }) A)

pub bit-bound : (b : Bool) → bit b ≤ 1
bit-bound true = omega arith
bit-bound false = omega arith

pub pow_pos : (k : ℕ) → 0 < 2 ^ k
pow_pos zero = omega arith
pow_pos (suc k) = omega (arith, pow_pos k)

pub inside_self : (o : ℕ) (ref : Ref) → inside o ref ref.region ref.index ≡ 1
inside_self o ref =
    inside-in o ref ref.region ref.index (refl, omega arith, omega (arith, pow_pos o))

-- No two blocks begin at the same page.
pub apart :
    {z : ℕ} {b : Blocks} {A H : List (ℕ × Ref)}
    → Tiled z b A H
    → (r : ℕ) (g : Region) (i : ℕ) → get_elem? b.regions r ≡ some g
    → cover_lists 0 b.lists r i + (cover_blocks A r i + cover_blocks H r i) ≤ 1
apart {z = z} t r g i h = omega (
  arith,
  t.tiled r g h i,
  bit-bound ((g.zone == z) && (leb (used_pages g.page_count) i && ltb i g.page_count)),
)

-- A region after a write to one of its pages.
pub set-cases :
    (regions : List Region) (R : ℕ) (G : Region) (r : ℕ) (g : Region)
    → R < length regions
    → get_elem? (set regions R G) r ≡ some g
    → ((r ≡ R) × (g ≡ G)) ⊎ ((r ≢ R) × (get_elem? regions r ≡ some g))
set-cases regions R G r g fits h = elim (Bool-cases (r == R)) [
  | inl same ↦
      let e : r ≡ R = ground arith in
      let e' : get_elem? (set regions R G) R ≡ some g =
        subst (λ n. get_elem? (set regions R G) n ≡ some g) e h in
      inl (e, sym (some-eq (sym (get_elem?-set_self regions R G fits) ∙ e')))
  | inr other ↦
      let ne : R ≢ r = λ e. ground arith in
      inr ((λ e. ne (sym e)), sym (get_elem?-set_ne regions G ne) ∙ h)
]

-- What was in place is, after a write to a page.
pub InPlace-write :
    (regions : List Region) (R i : ℕ) (G : Region) (q : Page) (o : ℕ) (ref : Ref)
    → get_elem? regions R ≡ some G
    → InPlace regions o ref
    → InPlace (set regions R (with_page G i q)) o ref
InPlace-write regions R i G q o ref h is = elim (Bool-cases (ref.region == R)) [
  | inl same ↦
      let e : ref.region ≡ R = ground arith in
      let g : is.region ≡ G = some-eq (sym is.there ∙ ap (get_elem? regions) e ∙ h) in
      record {
        region = with_page G i q;
        there =
            ap (get_elem? (set regions R (with_page G i q))) e
            ∙ get_elem?-set_self regions R (with_page G i q) (get_elem?-lt regions R G h);
        placed =
            let p = subst (λ g. IsPlaced g o ref.index) g is.placed in
            record { small = p.small; low = p.low; high = p.high; aligned = p.aligned };
      }
  | inr other ↦
      let ne : R ≢ ref.region = λ e. ground arith in
      record {
        region = is.region;
        there = get_elem?-set_ne regions (with_page G i q) ne ∙ is.there;
        placed = is.placed;
      }
]

pub IsHead-write :
    (regions : List Region) (R i : ℕ) (G : Region) (q : Page) (o : ℕ) (ref : Ref) (f : Bool)
    → get_elem? regions R ≡ some G
    → ((ref.region ≡ R) → ref.index ≢ i)
    → IsHead regions o ref f
    → IsHead (set regions R (with_page G i q)) o ref f
IsHead-write regions R i G q o ref f h away is = elim (Bool-cases (ref.region == R)) [
  | inl same ↦
      let e : ref.region ≡ R = ground arith in
      let g : is.region ≡ G = some-eq (sym is.there ∙ ap (get_elem? regions) e ∙ h) in
      let ne : i ≢ ref.index = λ j. away e (sym j) in
      record {
        region = with_page G i q;
        there =
            ap (get_elem? (set regions R (with_page G i q))) e
            ∙ get_elem?-set_self regions R (with_page G i q) (get_elem?-lt regions R G h);
        placed =
            let p = subst (λ g. IsPlaced g o ref.index) g is.placed in
            record { small = p.small; low = p.low; high = p.high; aligned = p.aligned };
        page =
            get_elem?-set_ne G.pages q ne
            ∙ subst (λ g. get_elem? g.pages ref.index ≡ some (record { order = o; free = f })) g
                is.page;
      }
  | inr other ↦
      let ne : R ≢ ref.region = λ e. ground arith in
      record {
        region = is.region;
        there = get_elem?-set_ne regions (with_page G i q) ne ∙ is.there;
        placed = is.placed;
        page = is.page;
      }
]

-- The page that was written is at the beginning of a block in hand.
pub IsHead-written :
    (regions : List Region) (G : Region) (o : ℕ) (ref : Ref) (f : Bool)
    → get_elem? regions ref.region ≡ some G
    → ref.index < length G.pages
    → IsPlaced G o ref.index
    → IsHead
        (set regions ref.region (with_page G ref.index (record { order = o; free = f })))
        o
        ref
        f
IsHead-written regions G o ref f h fits p = record {
  region = with_page G ref.index (record { order = o; free = f });
  there =
      get_elem?-set_self regions ref.region (with_page G ref.index (record { order = o; free = f }))
        (get_elem?-lt regions ref.region G h);
  placed = record { small = p.small; low = p.low; high = p.high; aligned = p.aligned };
  page = get_elem?-set_self G.pages ref.index (record { order = o; free = f }) fits;
}

-- The pages after a write: the one that was written, and the others as they were.
pub page-cases :
    (regions : List Region) (R j : ℕ) (G : Region) (q : Page) (r : ℕ) (g : Region) (i : ℕ)
    (p : Page)
    → get_elem? regions R ≡ some G
    → get_elem? (set regions R (with_page G j q)) r ≡ some g
    → get_elem? g.pages i ≡ some p
    → ((r ≡ R) × (i ≡ j) × (p ≡ q))
      ⊎ (((r ≡ R) → i ≢ j)
          × ((g' : Region) × (get_elem? regions r ≡ some g')
              × (get_elem? g'.pages i ≡ some p)
              × (g'.page_count ≡ g.page_count)))
page-cases regions R j G q r g i p there h page =
    elim (set-cases regions R (with_page G j q) r g (get_elem?-lt regions R G there) h) [
      | inr (ne, old) ↦ inr ((λ e. absurd (ne e)), (g, old, page, refl))
      | inl (e, e') ↦
          let page' : get_elem? (set G.pages j q) i ≡ some p =
            subst (λ g. get_elem? g.pages i ≡ some p) e' page in
          elim (Bool-cases (i == j)) [
            | inl same ↦
                let k : i ≡ j = ground arith in
                let at_j : get_elem? (set G.pages j q) j ≡ some p =
                  subst (λ i. get_elem? (set G.pages j q) i ≡ some p) k page' in
                let fits : j < length G.pages =
                  subst (λ n. j < n) (length-set G.pages j q)
                    (get_elem?-lt (set G.pages j q) j p at_j) in
                inl (e, k, sym (some-eq (sym (get_elem?-set_self G.pages j q fits) ∙ at_j)))
            | inr other ↦
                let ne : i ≢ j = λ k. ground arith in
                inr (
                  (λ e. ne),
                  (
                    G,
                    ap (get_elem? regions) e ∙ there,
                    sym (get_elem?-set_ne G.pages q (λ k. ne (sym k))) ∙ page',
                    sym (ap (λ g. g.page_count) e'),
                  ),
                )
          ]
    ]
