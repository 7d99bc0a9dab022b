-- ===== src/Pmm/Pages/Laws.antt =====
-- What `pmm_alloc` and `pmm_free` (kernel/src/memory/pmm.c) promise.
use elysium_os.Base.{
  ℕ, ◌%◌, ◌^◌, ◌≤◌, ◌≡◌, ◌≢◌, ◌⊎◌, inl, inr, true, false, List, [], ◌∷◌, Option, none, some,
  get_elem?, set, leb, arith, refl, ap, sym, subst, ◌∙◌, some-eq, get_elem?-set_self,
  get_elem?-set_ne, get_elem?-lt, ok, panic, ◌>>=◌, ◌>>◌, assert, sub64, add64,
}
use elysium_os.Pmm.{Ref, Page, Region, Zone, Pmm}
use elysium_os.Pmm.Blocks.{Blocks, alloc_block}
use elysium_os.Pmm.Blocks.Cover.{Listed}
use elysium_os.Pmm.Blocks.Tiling.{Tiled}
use elysium_os.Pmm.Blocks.Alloc.{alloc_block-Tiled}
use elysium_os.Pmm.Blocks.Free.{free_block-Tiled}
use elysium_os.Pmm.Blocks.Find.{read_page-there}
use elysium_os.Pmm.Pages.{
  count_region, count_zone, counted, counted_in, blocks_of, cleared, cleared_in, alloc_found,
  alloc_in, pmm_alloc, free_in, free_of, pmm_free,
}
use elysium_os.Pmm.Pages.Recount.{recount-Tiled}

abbrev pub Others : {Memory : Type 0} → ℕ → Pmm Memory → Pmm Memory → Type 0
Others z st st' = (k : ℕ) → k ≢ z → get_elem? st'.zones k ≡ get_elem? st.zones k

-- What becomes of the zone.
abbrev zone_after : Zone → Blocks → (ℕ → ℕ) → Zone
zone_after zone b f = count_zone f (record zone { lists = b.lists })

module _ {Memory : Type 0} where
  -- What becomes of the state.
  abbrev after : ℕ → Zone → Blocks → Ref → Region → (ℕ → ℕ) → Pmm Memory → Pmm Memory
  after z zone b ref g f st = record st {
    zones = set st.zones z (zone_after zone b f);
    regions = set b.regions ref.region (count_region f g);
  }

  counted-there :
      (z : ℕ) (zone : Zone) (b : Blocks) (ref : Ref) (f : ℕ → ℕ) (st : Pmm Memory) (g : Region)
      → get_elem? b.regions ref.region ≡ some g
      → counted z zone b ref f st ≡ ok (after z zone b ref g f st)
  counted-there z zone b ref f st g h = ap (counted_in z zone b ref f st) h

  cleared_in-memory :
      (clear : (paddr length : ℕ) → Memory → Memory) (order flags : ℕ) (ref : Ref) (st : Pmm Memory)
      (o : Option Region)
      → (m : Memory) × (cleared_in clear order flags ref st o ≡ record st { memory = m })
  cleared_in-memory clear order flags ref st none = (st.memory, refl)
  cleared_in-memory clear order flags ref st (some g) =
      ((cleared_in clear order flags ref st (some g)).memory, refl)

  -- In a zone whose pages are tiled by the free and the allocated blocks, `pmm_alloc` of an order up to
  -- PMM_MAX_ORDER either panics, and then no block of the order or of a larger one is free, or it
  -- returns a block of the order. The pages of the zone are then tiled by the blocks that are free, this
  -- one, and those that were allocated before, so that it overlaps with none of them; the count of free
  -- pages goes down by its size, and the other zone has the lists it had.
  pub pmm_alloc-Tiled :
      (clear : (paddr length : ℕ) → Memory → Memory) (order flags : ℕ) (st : Pmm Memory)
      (zone : Zone) (A : List (ℕ × Ref))
      → get_elem? st.zones (flags % 2) ≡ some zone
      → zone.present ≡ true
      → Tiled (flags % 2) (blocks_of zone st) A []
      → order ≤ 7
      → ((pmm_alloc clear order flags st ≡ panic)
          × ((k : ℕ) (ref : Ref) → order ≤ k → Listed zone.lists k ref → ⊥))
        ⊎ ((ref : Ref) × (st' : Pmm Memory) × (zone' : Zone) × (pmm_alloc clear order flags st
              ≡ ok (ref, st'))
            × (get_elem? st'.zones (flags % 2) ≡ some zone')
            × Tiled (flags % 2) (blocks_of zone' st') ((order, ref) ∷ A) []
            × (zone'.free_count ≡ sub64 zone.free_count (2 ^ order))
            × Others (flags % 2) st st')
  unfolding pmm_alloc
  pmm_alloc-Tiled clear order flags st zone A there present t small =
      let z = flags % 2 in
      let fine : leb order 7 ≡ true = ground arith in
      let start : pmm_alloc clear order flags st
          ≡ (alloc_block order (blocks_of zone st) >>= alloc_found clear z order flags zone st) =
        ap (λ b. assert b >> alloc_in clear z order flags st (get_elem? st.zones z)) fine
        ∙ ap (alloc_in clear z order flags st) there
        ∙ ap
            (λ b.
              assert b
              >> (alloc_block order (blocks_of zone st)
                  >>= alloc_found clear z order flags zone st))
            present in
      elim (alloc_block-Tiled z order (blocks_of zone st) A t (omega arith)) [
        | inl (e, empty) ↦
            inl (start ∙ ap (λ m. m >>= alloc_found clear z order flags zone st) e, empty)
        | inr (ref, b, e, t') ↦
            let head = t'.taken order ref (0, refl) in
            let f : ℕ → ℕ = λ n. sub64 n (2 ^ order) in
            let st1 = after z zone b ref head.region f st in
            let (m, clears) =
              cleared_in-memory clear order flags ref st1 (get_elem? st1.regions ref.region) in
            inr (
              ref,
              record st1 { memory = m },
              zone_after zone b f,
              start
                  ∙ ap (λ m. m >>= alloc_found clear z order flags zone st) e
                  ∙ ap (λ m. m >>= λ st. ok (ref, cleared clear order flags ref st))
                      (counted-there z zone b ref f st head.region head.there)
                  ∙ ap (λ st. ok (ref, st)) clears,
              get_elem?-set_self st.zones z (zone_after zone b f)
                  (get_elem?-lt st.zones z zone there),
              recount-Tiled b.regions ref.region head.region f head.there z b.lists
                  ((order, ref) ∷ A) t',
              refl,
              λ k ne. get_elem?-set_ne st.zones (zone_after zone b f) (λ e. ne (sym e)),
            )
      ]

  -- In such a zone `pmm_free` of an allocated block always returns. The pages of the zone are tiled by
  -- the blocks that are free then and the other allocated ones, the count of free pages goes up by the
  -- size of the block, and the other zone has the lists it had.
  pub pmm_free-Tiled :
      (order : ℕ) (page : Ref) (g : Region) (st : Pmm Memory) (zone : Zone) (A : List (ℕ × Ref))
      → get_elem? st.regions page.region ≡ some g
      → get_elem? st.zones g.zone ≡ some zone
      → Tiled g.zone (blocks_of zone st) ((order, page) ∷ A) []
      → (st' : Pmm Memory) × (zone' : Zone) × (pmm_free page st ≡ ok st')
        × (get_elem? st'.zones g.zone ≡ some zone')
        × Tiled g.zone (blocks_of zone' st') A []
        × (zone'.free_count ≡ add64 zone.free_count (2 ^ order))
        × Others g.zone st st'
  unfolding pmm_free
  pmm_free-Tiled order page g st zone A here there t =
      let head = t.taken order page (0, refl) in
      let z = g.zone in
      let f : ℕ → ℕ = λ n. add64 n (2 ^ order) in
      let (b, runs, t', (g', there')) = free_block-Tiled z order page (blocks_of zone st) A t in
      let same : head.region ≡ g = some-eq (sym head.there ∙ here) in
      let p : Page = record { order = order; free = false } in
      let marked : get_elem? g.pages page.index ≡ some p =
        subst (λ g. get_elem? g.pages page.index ≡ some p) same head.page in
      (
        after z zone b page g' f st,
        zone_after zone b f,
        ap (λ m. m >>= λ p. free_of page st p (get_elem? st.regions page.region))
              (read_page-there page st.regions g p here marked)
            ∙ ap (free_of page st p) here
            ∙ ap (free_in z order page st) there
            ∙ ap (λ m. m >>= λ b. counted z zone b page f st) runs
            ∙ counted-there z zone b page f st g' there',
        get_elem?-set_self st.zones z (zone_after zone b f) (get_elem?-lt st.zones z zone there),
        recount-Tiled b.regions page.region g' f there' z b.lists A t',
        refl,
        λ k ne. get_elem?-set_ne st.zones (zone_after zone b f) (λ e. ne (sym e)),
      )
