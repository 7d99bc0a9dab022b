-- ===== src/Pmm/Blocks/Free.antt =====
-- What giving a block back does to the tiling by blocks (kernel/src/memory/pmm.c).
use elysium_os.Base.{
  ℕ, zero, suc, ◌+◌, ◌-◌, ◌<◌, ◌≡◌, inl, inr, true, false, List, [], ◌∷◌, some, get_elem?, set, ltb,
  arith, refl, ap, sym, ◌∙◌, Bool-cases, ok, ◌>>=◌,
}
use elysium_os.Pmm.{Ref, Region, with_page}
use elysium_os.Pmm.Blocks.{Blocks, push, lower, merge, stop_or, released, free_block}
use elysium_os.Pmm.Blocks.Tiling.{IsHead, Tiled}
use elysium_os.Pmm.Blocks.Moves.{put_back, hand_in}
use elysium_os.Pmm.Blocks.Alloc.{update_page-there}
use elysium_os.Pmm.Blocks.Find.{find_buddy-cases, read_page-there}
use elysium_os.Pmm.Blocks.Merge.{merge_buddy-Tiled}

lower-region : (page : Ref) (y : ℕ) → (lower page (record page { index = y })).region ≡ page.region
lower-region page y = elim (Bool-cases (ltb y page.index)) [
  | inl below ↦
      let e : lower page (record page { index = y }) ≡ record page { index = y } = simp (below) in
      ap (λ r. r.region) e
  | inr above ↦
      let e : lower page (record page { index = y }) ≡ page = simp (above) in ap (λ r. r.region) e
]

-- The loop ends, and leaves one block in hand.
merge-Tiled :
    {z : ℕ} {A : List (ℕ × Ref)} (rounds o : ℕ) (page : Ref) (b : Blocks)
    → Tiled z b A ((o, page) ∷ [])
    → IsHead b.regions o page true
    → 7 < rounds + o
    → (o' : ℕ) × (page' : Ref) × (b' : Blocks) × (merge rounds o page b ≡ ok (o', page', b'))
      × Tiled z b' A ((o', page') ∷ [])
      × IsHead b'.regions o' page' true
      × (page'.region ≡ page.region)
unfolding merge
merge-Tiled zero o page b t head enough = absurd (omega (arith, enough, head.placed.small))
merge-Tiled (suc rounds) o page b t head enough = elim (find_buddy-cases o page t) [
  | inl stop ↦ (
    o,
    page,
    b,
    ap (λ m. m >>= stop_or o page b (λ r. merge rounds (suc o) (r.0) (r.1))) stop,
    t,
    head,
    refl,
  )
  | inr (y, found, is) ↦
      let (b1, runs1, t1, head1) = merge_buddy-Tiled o page y t head is in
      let (o', page', b', runs', t', head', same) =
        merge-Tiled rounds (suc o) (lower page (record page { index = y })) b1 t1 head1
          (omega (arith, enough)) in
      (
        o',
        page',
        b',
        ap (λ m. m >>= stop_or o page b (λ r. merge rounds (suc o) (r.0) (r.1))) found
            ∙ ap (λ m. m >>= (λ r. merge rounds (suc o) (r.0) (r.1))) runs1
            ∙ runs',
        t',
        head',
        same ∙ lower-region page y,
      )
]

-- With the pages tiled by the free and the allocated blocks, giving back an allocated block always
-- returns, and the pages are tiled by the blocks that are free then, merged with their buddies, and the
-- other allocated ones. The region of the block is still there.
pub free_block-Tiled :
    (z order : ℕ) (page : Ref) (b : Blocks) (A : List (ℕ × Ref))
    → Tiled z b ((order, page) ∷ A) []
    → (b' : Blocks) × (free_block page b ≡ ok b')
      × Tiled z b' A []
      × ((g : Region) × (get_elem? b'.regions page.region ≡ some g))
unfolding free_block
free_block-Tiled z order page b A t =
    let head = t.taken order page (0, refl) in
    let (t1, head1) = hand_in order page head.region t head.there in
    let regions =
      set b.regions page.region
        (with_page head.region page.index (record { order = order; free = true })) in
    let (o', page', b', runs, t2, head2, same) =
      merge-Tiled (suc (7 - order)) order page (record b { regions = regions }) t1 head1
        (omega (arith, head.placed.small)) in
    (
      record b' { lists = push o' page' b'.lists },
      simp (
        update_page-there page released b.regions head.region
            (record { order = order; free = false }) head.there head.page,
        read_page-there page regions head1.region (record { order = order; free = true })
            head1.there head1.page,
        runs,
      ),
      put_back o' page' t2 head2,
      (head2.region, ap (get_elem? b'.regions) (sym same) ∙ head2.there),
    )
