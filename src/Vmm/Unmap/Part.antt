-- ===== src/Vmm/Unmap/Part.antt =====
-- One round of `vmm_unmap` (kernel/src/memory/vmm.c): a range is cut out of one segment.
use elysium_os.Base.{
  ℕ, ◌+◌, ◌/◌, ◌%◌, ◌≤◌, ◌<◌, ◌≡◌, inl, inr, true, ◌&&◌, ◌||◌, List, [], ◌∷◌, ◌++◌, none, some, ltb,
  leb, if◌then◌else◌, add64, ok, arith, Bool-cases, refl, ◌∙◌, lt→ltb, le→not_ltb, eq→==,
}
use elysium_os.Vmm.Segments.{page_size, Segment, Space, segment_in_bounds, segment_of}
use elysium_os.Vmm.Segments.Wellformed.{IsPlaced, IsSpace, protection_at, ArePlaced-bounds}
use elysium_os.Vmm.Machine.{Owner, kernel, user, Machine, State, space_of}
use elysium_os.Vmm.Pool.{unmap_pages, segment_unmap, segments_free}
use elysium_os.Vmm.Pool.Laws.{
  space_of-memory_set, segments_alloc-take, space_of-segments_free_set, space_of-set_space,
  space_of-segments_free,
}
use elysium_os.Vmm.Unmap.{replace_segment, lower_part, upper_part, split_upper, relink, unmap_part}
use elysium_os.Vmm.Unmap.Parts.{
  Kept, segment_of-IsPlaced, replace_segment-ArePlaced, replace_segment-protection_at,
}
use elysium_os.Vmm.Unmap.Cut.{Kept-to_end, Kept-split}

-- The space without the range: what it says of every other address stays.
pub record Cut (s : Space) (base len : ℕ) (s' : Space) : Type 0 where
  pub space : IsSpace s'
  pub start : s'.start ≡ s.start
  pub end : s'.end ≡ s.end
  pub looked_up :
      (k : ℕ)
      → protection_at k s'.segments
        ≡ (if leb base k && ltb k (base + len) then none else protection_at k s.segments)

-- The pool has an object.
abbrev pub HasFree : {M : Type 0} → State M → Type 0
HasFree st = (y : Segment) × (ys : List Segment) × (st.segments_free ≡ y ∷ ys)

pub Cut-none : (s : Space) (base : ℕ) → IsSpace s → Cut s base 0 s
Cut-none s base is = record { space = is; start = refl; end = refl; looked_up = λ k. ground arith }

-- One range after the next, with addresses between them that no segment holds.
pub Cut-then :
    (s s' s'' : Space) (base len len' : ℕ)
    → Cut s base len s'
    → Cut s' (base + len) len' s''
    → Cut s base (len + len') s''
Cut-then s s' s'' base len len' c d = record {
  space = d.space;
  start = ground (arith, c.start, d.start);
  end = ground (arith, c.end, d.end);
  looked_up = λ k. ground (arith, c.looked_up k, d.looked_up k);
}

replace_segment-Cut :
    (s : Space) (x : Segment) (base len : ℕ) (new : List Segment)
    → IsSpace s
    → segment_of base s.segments ≡ some x
    → base + len ≤ x.base + x.length
    → Kept s x base len new
    → Cut s base len (record s { segments = replace_segment x.base new s.segments })
replace_segment-Cut s x base len new is found high kept =
    let (placed, low, above) =
      segment_of-IsPlaced s is.in_memory base s.segments x is.placed found in
    record {
      space = record {
        above_null = is.above_null;
        in_memory = is.in_memory;
        start_on_page = is.start_on_page;
        placed =
            ArePlaced-bounds s (record s { segments = replace_segment x.base new s.segments })
              (replace_segment x.base new s.segments) refl refl
              (replace_segment-ArePlaced s is.in_memory base x base len low high new kept s.segments
                is.placed found);
      };
      start = refl;
      end = refl;
      looked_up = λ k.
          replace_segment-protection_at s is.in_memory base x base len low high new kept k
            s.segments is.placed found;
    }

module _ (machine : Machine) where
  open machine use {Memory}

  space_of-relink :
      (o : Owner) (x : Segment) (base : ℕ) (upper : List Segment) (st : State Memory)
      → space_of o (relink machine o x base upper st) ≡ record (space_of o st) {
        segments =
            replace_segment x.base (lower_part x base ++ upper) (Space.segments (space_of o st));
      }
  unfolding relink segments_free
  space_of-relink o x base upper st = elim (Bool-cases (ltb x.base base)) [
    | inl below ↦ simp below (space_of-set_space o _ st)
    | inr starts ↦ simp starts (space_of-segments_free machine o x _ ∙ space_of-set_space o _ st)
  ]

  HasFree-relink :
      (o : Owner) (x : Segment) (base : ℕ) (upper : List Segment) (st : State Memory)
      → HasFree st
      → HasFree (relink machine o x base upper st)
  unfolding relink segments_free
  HasFree-relink kernel x base upper st (y, ys, e) = elim (Bool-cases (ltb x.base base)) [
    | inl below ↦ simp below (y, ys, e)
    | inr starts ↦ simp starts (x, st.segments_free, refl)
  ]
  HasFree-relink user x base upper st (y, ys, e) = elim (Bool-cases (ltb x.base base)) [
    | inl below ↦ simp below (y, ys, e)
    | inr starts ↦ simp starts (x, st.segments_free, refl)
  ]

  relink-Cut :
      (o : Owner) (x : Segment) (base len : ℕ) (upper : List Segment) (s : Space)
      (st : State Memory)
      → IsSpace s
      → space_of o st ≡ s
      → segment_of base s.segments ≡ some x
      → base + len ≤ x.base + x.length
      → Kept s x base len (lower_part x base ++ upper)
      → Cut s base len (space_of o (relink machine o x base upper st))
  relink-Cut o x base len upper s st is e found high kept =
      rw (space_of-relink o x base upper st, e)
        (replace_segment-Cut s x base len (lower_part x base ++ upper) is found high kept)

  -- One cut: it uses up an object only if a part above it stays.
  module _ (o : Owner) (x : Segment) (base len : ℕ) (st : State Memory)
      (is : IsSpace (space_of o st))
      (found : segment_of base (Space.segments (space_of o st)) ≡ some x)
      (high : base + len ≤ x.base + x.length) (some_pages : 0 < len)
      (base_on_page : base % page_size ≡ 0) (whole_pages : len % page_size ≡ 0) where
    placed : IsPlaced (space_of o st) x × (x.base ≤ base) × (base < x.base + x.length)
    placed = segment_of-IsPlaced (space_of o st) is.in_memory base _ x is.placed found

    asserted :
        (segment_in_bounds (space_of o st) base len ≡ true)
        × ((ltb base x.base || leb x.base (add64 base len)) ≡ true)
        × (add64 base len ≡ base + len)
        × (add64 x.base x.length ≡ x.base + x.length)
    asserted =
        let (p, low, above) = placed in
        let small = is.in_memory in
        (
          ground (arith, p.above, p.below),
          ground (arith, p.below),
          omega (arith, p.below),
          omega (arith, p.below),
        )

    abbrev after_unmap : State Memory
    after_unmap = record st { memory = unmap_pages machine (len / page_size) o base st.memory }

    same_space : space_of o after_unmap ≡ space_of o st
    same_space = space_of-memory_set o (unmap_pages machine (len / page_size) o base st.memory) st

    segment_unmap-ok :
        segment_unmap machine o x base len st.memory
        ≡ ok (unmap_pages machine (len / page_size) o base st.memory)
    unfolding segment_unmap
    segment_unmap-ok = simp (eq→== _ 0 base_on_page, eq→== _ 0 whole_pages, asserted.1)

    split_upper-some :
        (y : Segment) (ys : List Segment)
        → st.segments_free ≡ y ∷ ys
        → base + len < x.base + x.length
        → split_upper machine x (add64 base len) after_unmap
          ≡ ok (upper_part x y (base + len) ∷ [], record after_unmap { segments_free = ys })
    unfolding split_upper
    split_upper-some y ys pool more =
        let (bounds, fits, stop, end) = asserted in
        simp (
          stop,
          end,
          lt→ltb (base + len) (x.base + x.length) more,
          segments_alloc-take machine y ys after_unmap pool,
        )

    split_upper-none :
        base + len ≡ x.base + x.length
        → split_upper machine x (add64 base len) after_unmap ≡ ok ([], after_unmap)
    unfolding split_upper
    split_upper-none e =
        let (bounds, fits, stop, end) = asserted in
        simp (stop, end, le→not_ltb (base + len) (x.base + x.length) (omega arith))

    unmap_part-relink :
        (upper : List Segment) (st₂ : State Memory)
        → split_upper machine x (add64 base len) after_unmap ≡ ok (upper, st₂)
        → unmap_part machine o x base len st ≡ ok (relink machine o x base upper st₂)
    unfolding unmap_part
    unmap_part-relink upper st₂ split =
        simp (asserted.0, eq→== _ 0 base_on_page, eq→== _ 0 whole_pages, asserted.1, split)

    pub unmap_part-Cut :
        HasFree st
        → (st' : State Memory) × (unmap_part machine o x base len st ≡ ok st')
          × Cut (space_of o st) base len (space_of o st')
          × (base + len ≡ x.base + x.length → HasFree st')
    unmap_part-Cut (y, ys, pool) =
        let (p, low, above) = placed in
        elim (Bool-cases (ltb (base + len) (x.base + x.length))) [
          | inl more ↦
              let st₂ = record after_unmap { segments_free = ys } in
              let upper = upper_part x y (base + len) ∷ [] in
              (
                relink machine o x base upper st₂,
                unmap_part-relink upper st₂ (split_upper-some y ys pool (ground arith)),
                relink-Cut o x base len upper (space_of o st) st₂ is
                    (space_of-segments_free_set o ys after_unmap ∙ same_space) found high
                    (Kept-split (space_of o st) is.in_memory x p base len low high some_pages
                      base_on_page whole_pages y (ground arith)),
                λ e. absurd (ground arith),
              )
          | inr none_above ↦
              let e : base + len ≡ x.base + x.length = ground arith in
              (
                relink machine o x base [] after_unmap,
                unmap_part-relink [] after_unmap (split_upper-none e),
                relink-Cut o x base len [] (space_of o st) after_unmap is same_space found high (
                    Kept-to_end (space_of o st) is.in_memory x p base len low high some_pages
                      base_on_page whole_pages x e),
                λ _. HasFree-relink o x base [] after_unmap (y, ys, pool),
              )
        ]
