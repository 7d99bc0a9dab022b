-- ===== src/Vmm/Unmap/Laws.antt =====
-- The loop of `vmm_unmap` (kernel/src/memory/vmm.c) over the pages of its range.
use elysium_os.Base.{
  ℕ, zero, suc, ◌+◌, ◌-◌, ◌*◌, ◌/◌, ◌%◌, ◌^◌, ◌≤◌, ◌<◌, ◌≡◌, ◌⊎◌, inl, inr, true, false, ◌&&◌, List,
  [], ◌∷◌, Option, none, some, ltb, leb, ◌==◌, add64, Run, ok, arith, Bool-cases, Option-cases,
  refl, subst, ◌∙◌, eq→==,
}
use elysium_os.Vmm.Segments.{
  page_size, Segment, Space, address_in_bounds, segment_in_bounds, address_in_segment, segment_of,
  addr_to_segment,
}
use elysium_os.Vmm.Segments.Wellformed.{ArePlaced, IsSpace, protection_at}
use elysium_os.Vmm.Machine.{Owner, Machine, State, space_of}
use elysium_os.Vmm.Unmap.{extent, unmap_part, unmap_loop, unmap}
use elysium_os.Vmm.Unmap.Parts.{segment_of-IsPlaced}
use elysium_os.Vmm.Unmap.Extent.{extent-Extends}
use elysium_os.Vmm.Unmap.Part.{Cut, HasFree, Cut-none, Cut-then, unmap_part-Cut}

protection_at-page :
    (s : Space) (small : s.end < 2 ^ 64) (base k : ℕ) (xs : List Segment)
    → ArePlaced s xs
    → base % page_size ≡ 0
    → segment_of base xs ≡ none
    → base ≤ k
    → k < base + page_size
    → protection_at k xs ≡ none
unfolding segment_of
protection_at-page s small base k [] p on_page h low high = refl
protection_at-page s small base k (x ∷ xs) p on_page h low high =
    elim (Bool-cases (address_in_segment base x.base x.length)) [
      | inl hit ↦ absurd (ground arith)
      | inr miss ↦
          let away : address_in_segment k x.base x.length ≡ false =
            ground (arith, p.0.below, p.0.base_on_page, p.0.whole_pages) in
          simp away (protection_at-page s small base k xs p.2 on_page (simp miss at h) low high)
    ]

-- Nothing holds the page on which a walk in whole pages finds no segment.
Cut-page :
    (s : Space) (base : ℕ)
    → IsSpace s
    → base % page_size ≡ 0
    → base + page_size ≤ s.end
    → segment_of base s.segments ≡ none
    → Cut s base page_size s
Cut-page s base is on_page room free = record {
  space = is;
  start = refl;
  end = refl;
  looked_up = λ k. elim (Bool-cases (leb base k && ltb k (base + page_size))) [
    | inl inside ↦ simp inside (
        protection_at-page s is.in_memory base k s.segments is.placed on_page free (ground arith)
          (ground arith))
    | inr outside ↦ simp outside
  ];
}

-- An object is at hand until the end of the range, where none is needed.
still_free : {M P : Type 0} (st : State M) → (P → ⊥) → HasFree st ⊎ P → HasFree st
still_free st none_left (inl free) = free
still_free st none_left (inr p) = absurd (none_left p)

later_free : {M P Q : Type 0} (st : State M) → (Q → HasFree st) → Q ⊎ P → HasFree st ⊎ P
later_free st f (inl q) = inl (f q)
later_free st f (inr p) = inr p

module _ (machine : Machine) (o : Owner) (address length : ℕ)
    (address_on_page : address % page_size ≡ 0) (length_on_page : length % page_size ≡ 0) where
  open machine use {Memory}

  -- One round past a page that no segment holds, and one that cuts a part out of a segment.
  unmap_loop-skip :
      (fuel base next : ℕ) (st : State Memory)
      → ltb base (add64 address length) ≡ true
      → addr_to_segment (space_of o st) base ≡ none
      → add64 base page_size ≡ next
      → unmap_loop machine (suc fuel) o address length base st
        ≡ unmap_loop machine fuel o address length next st
  unfolding unmap_loop
  unmap_loop-skip fuel base next st more free e = simp (more, free, e)

  unmap_loop-part :
      (fuel base next : ℕ) (st st₁ : State Memory) (x : Segment) (r : ℕ)
      → ltb base (add64 address length) ≡ true
      → addr_to_segment (space_of o st) base ≡ some x
      → extent (suc (length / page_size)) x address length base page_size ≡ some r
      → unmap_part machine o x base r st ≡ ok st₁
      → add64 base r ≡ next
      → unmap_loop machine (suc fuel) o address length base st
        ≡ unmap_loop machine fuel o address length next st₁
  unfolding unmap_loop
  unmap_loop-part fuel base next st st₁ x r more found extends part e =
      subst
        (λ n.
          unmap_loop machine (suc fuel) o address length base st
          ≡ unmap_loop machine fuel o address length n st₁)
        e (simp (more, found, extends, part))

  addr_to_segment-inside :
      (s : Space) (base : ℕ) (found : Option Segment)
      → address_in_bounds s base ≡ true
      → segment_of base s.segments ≡ found
      → addr_to_segment s base ≡ found
  unfolding addr_to_segment
  addr_to_segment-inside s base found inside h = simp inside h

  onward :
      {run next : Run (State Memory)} {s s₁ : Space} {rest total : ℕ}
      → run ≡ next
      → (base r : ℕ) → r + rest ≡ total
      → Cut s base r s₁
      → (st' : State Memory) × (next ≡ ok st') × Cut s₁ (base + r) rest (space_of o st')
      → (st' : State Memory) × (run ≡ ok st') × Cut s base total (space_of o st')
  onward {s = s} {s₁ = s₁} {rest = rest} step base r e cut (st', eq, later) = (
    st',
    step ∙ eq,
    subst (λ n. Cut s base n (space_of o st')) e
        (Cut-then s s₁ (space_of o st') base r rest cut later),
  )

  -- what is left to do at `base`
  pub unmap_loop-Cut :
      (fuel base : ℕ) (st : State Memory)
      → IsSpace (space_of o st)
      → HasFree st ⊎ (base ≡ address + length)
      → Space.start (space_of o st) ≤ address
      → address + length ≤ Space.end (space_of o st)
      → address ≤ base
      → base ≤ address + length
      → base % page_size ≡ 0
      → (address + length) - base < fuel * page_size
      → (st' : State Memory) × (unmap_loop machine fuel o address length base st ≡ ok st')
        × Cut (space_of o st) base ((address + length) - base) (space_of o st')
  unfolding unmap_loop
  unmap_loop-Cut zero base st is pool start end low high on_page enough = absurd (omega arith)
  unmap_loop-Cut (suc fuel) base st is pool start end low high on_page enough =
      let whole : add64 address length ≡ address + length = omega (arith, is.in_memory) in
      let inside : base < address + length → address_in_bounds (space_of o st) base ≡ true =
        λ h. ground arith in
      elim (Bool-cases (ltb base (address + length))) [
        | inr done ↦ (
          st,
          simp (whole, done),
          subst (λ n. Cut (space_of o st) base n (space_of o st)) (ground arith)
              (Cut-none (space_of o st) base is),
        )
        | inl more ↦
            let below : ltb base (add64 address length) ≡ true = rw whole more in
            elim (Option-cases (segment_of base (Space.segments (space_of o st)))) [
              | inl free ↦
                  let more_pages : base + page_size ≤ address + length = ground arith in
                  let next : add64 base page_size ≡ base + page_size =
                    omega (arith, is.in_memory) in
                  onward
                    (unmap_loop-skip fuel base (base + page_size) st below
                      (addr_to_segment-inside (space_of o st) base none (inside (ground arith))
                        free)
                      next)
                    base page_size (omega arith)
                    (Cut-page (space_of o st) base is on_page (omega arith) free)
                    (unmap_loop-Cut fuel (base + page_size) st is (ground (arith, pool)) start end
                      (omega arith) more_pages (omega arith) (omega arith))
              | inr (x, found) ↦
                  let (p, in_x, above) =
                    segment_of-IsPlaced (space_of o st) is.in_memory base _ x is.placed found in
                  let (r, extends, ext) =
                    extent-Extends (space_of o st) is.in_memory x p address length base end in_x low
                      address_on_page length_on_page on_page (suc (length / page_size)) page_size
                      (omega arith) (omega arith) (omega arith)
                      (omega (arith, p.base_on_page, p.whole_pages)) (ground arith) in
                  let (st₁, eq₁, cut₁, refills) =
                    unmap_part-Cut machine o x base r st is found ext.in_segment
                      (omega (arith, ext.longer)) on_page ext.on_page
                      (still_free st (λ e. ground arith) pool) in
                  let next : add64 base r ≡ base + r = omega (arith, is.in_memory, ext.in_range) in
                  onward
                    (unmap_loop-part fuel base (base + r) st st₁ x r below
                      (addr_to_segment-inside (space_of o st) base (some x) (inside (ground arith))
                        found)
                      extends eq₁ next)
                    base r (omega (arith, ext.in_range)) cut₁
                    (unmap_loop-Cut fuel (base + r) st₁ cut₁.space
                      (later_free st₁ refills ext.is_all) (omega (arith, cut₁.start))
                      (omega (arith, cut₁.end)) (omega arith) ext.in_range
                      (omega (arith, ext.on_page)) (omega (arith, ext.longer)))
            ]
      ]

  -- Unmapping pages inside the bounds of a well-formed space, with a segment object at hand, always
  -- returns. Afterwards no segment holds an address of the range, every other address is held with
  -- the protection it had before or not at all, as before, and the space is still well-formed.
  pub unmap-Cut :
      (st : State Memory)
      → IsSpace (space_of o st)
      → HasFree st
      → segment_in_bounds (space_of o st) address length ≡ true
      → (st' : State Memory) × (unmap machine o address length st ≡ ok st')
        × Cut (space_of o st) address length (space_of o st')
  unfolding unmap
  unmap-Cut st is free bounds = elim (Bool-cases (length == 0)) [
    | inl empty ↦ (
      st,
      simp empty,
      subst (λ n. Cut (space_of o st) address n (space_of o st)) (ground arith)
          (Cut-none (space_of o st) address is),
    )
    | inr some_pages ↦
        let (st', eq, cut) =
          unmap_loop-Cut (suc (length / page_size)) address st is (inl free)
            (ground (arith, is.in_memory)) (ground (arith, is.in_memory)) (omega arith)
            (omega arith) address_on_page (omega arith) in
        (
          st',
          simp (some_pages, bounds, eq→== _ 0 address_on_page, eq→== _ 0 length_on_page) eq,
          subst (λ n. Cut (space_of o st) address n (space_of o st')) (omega arith) cut,
        )
  ]
