-- ===== src/Vmm/Map/Laws.antt =====
-- What a mapping does to the segments of its address space (kernel/src/memory/vmm.c).
use elysium_os.Base.{
  ℕ, ◌%◌, ◌≤◌, ◌<◌, ◌≡◌, ◌≢◌, inl, inr, Bool, true, false, not, ◌&&◌, ◌||◌, List, ◌∷◌, ◌==◌, ok,
  arith, Bool-cases, refl, sym, subst, eq→==, ==→eq,
}
use elysium_os.Vmm.Segments.{page_size, Segment, Space, segment_in_bounds, hint}
use elysium_os.Vmm.Segments.Wellformed.{IsClear, IsSpace, ArePlaced-bounds}
use elysium_os.Vmm.Segments.Find.{find_space-Found}
use elysium_os.Vmm.Machine.{
  Owner, Machine, State, space_of, set_space, has_flag, flag_fixed, flag_no_demand,
}
use elysium_os.Vmm.Pool.{segments_free, add_segment}
use elysium_os.Vmm.Pool.Laws.{
  space_of-segments_free_set, space_of-set_space, space_of-segments_free, segments_alloc-take,
}
use elysium_os.Vmm.Map.{Request, aligned_hint, described, commit, place, map_common}

-- What the answer `r` of a mapping says of the space before, `s`, and the space after, `s'`.
pub record Mapped (q : Request) (s : Space) (r : ℕ) (s' : Space) : Type 0 where
  pub space : IsSpace s'
  pub failed : r ≡ 0 → s'.segments ≡ s.segments
  pub added :
      r ≢ 0
      → (s'.segments ≡ described q r ∷ s.segments)
        × IsClear r q.length s.segments
        × (segment_in_bounds s r q.length ≡ true)
  pub fixed : r ≢ 0 → has_flag q.flags flag_fixed ≡ true → r ≡ q.hint
  pub first :
      has_flag q.flags flag_fixed ≡ false
      → 0 < q.length
      → q.length % page_size ≡ 0
      → (a : ℕ) → hint s (aligned_hint q.hint) q.length ≤ a
      → segment_in_bounds s a q.length ≡ true
      → IsClear a q.length s.segments
      → (r ≢ 0) × (r ≤ a)

aligned_hint-on_page : (h : ℕ) → aligned_hint h % page_size ≡ 0
aligned_hint-on_page h = ground arith

accepted_hint : (h r : ℕ) (fixed : Bool) → (not (h == r) && fixed) ≡ false → fixed ≡ true → r ≡ h
accepted_hint h r fixed p q = ground arith

add_segment-IsSpace :
    (s : Space) (q : Request) (r : ℕ)
    → IsSpace s
    → segment_in_bounds s r q.length ≡ true
    → IsClear r q.length s.segments
    → 0 < q.length
    → r % page_size ≡ 0
    → q.length % page_size ≡ 0
    → IsSpace (add_segment (described q r) s)
add_segment-IsSpace s q r is room clear pos on_page whole = record {
  above_null = is.above_null;
  in_memory = is.in_memory;
  start_on_page = is.start_on_page;
  placed = (
    record {
      above = ground arith;
      below = ground (arith, is.in_memory);
      some_pages = pos;
      base_on_page = on_page;
      whole_pages = whole;
    },
    clear,
    ArePlaced-bounds s (add_segment (described q r) s) s.segments refl refl is.placed,
  );
}

module _ (machine : Machine) where
  open machine use {Memory}

  module _ (o : Owner) (q : Request) (st : State Memory)
      (demand : has_flag q.flags flag_no_demand ≡ false) where
    commit-ok :
        (r : ℕ)
        → segment_in_bounds (space_of o st) r q.length ≡ true
        → r % page_size ≡ 0
        → q.length % page_size ≡ 0
        → commit machine o q r st
          ≡ ok (r, set_space o (add_segment (described q r) (space_of o st)) st)
    unfolding commit
    commit-ok r room on_page whole = simp (room, eq→== _ 0 on_page, eq→== _ 0 whole, demand)

    begin : (s : Space) → IsSpace s → hint s (aligned_hint q.hint) q.length % page_size ≡ 0
    begin s is = ground (arith, is.start_on_page, aligned_hint-on_page q.hint)

    place-Mapped :
        (x : Segment)
        → IsSpace (space_of o st)
        → 0 < q.length
        → q.length % page_size ≡ 0
        → (r : ℕ) × (st' : State Memory) × (place machine o q x st ≡ ok (r, st'))
          × Mapped q (space_of o st) r (space_of o st')
    unfolding place
    place-Mapped x is pos whole =
        let (r, answer, found) =
          find_space-Found (space_of o st) is q.length pos (aligned_hint q.hint) in
        elim (Bool-cases (r == 0)) [
          | inl failed ↦ (
            0,
            segments_free machine x st,
            simp (answer, failed),
            rw (space_of-segments_free machine o x st) (record {
              space = is;
              failed = λ e. refl;
              added = λ ne. absurd (ne refl);
              fixed = λ ne. absurd (ne refl);
              first = λ free some whole a later room clear.
                  absurd ((found.is_first a later room clear).0 (==→eq r 0 failed));
            }),
          )
          | inr placed ↦ elim (Bool-cases (not (q.hint == r) && has_flag q.flags flag_fixed)) [
            | inl refused ↦ (
              0,
              segments_free machine x st,
              simp (answer, placed, refused),
              rw (space_of-segments_free machine o x st) (record {
                space = is;
                failed = λ e. refl;
                added = λ ne. absurd (ne refl);
                fixed = λ ne. absurd (ne refl);
                first = λ free some whole a later room clear. absurd (ground arith);
              }),
            )
            | inr accepted ↦
                let ne : r ≢ 0 = ground arith in
                let (from, room, clear) = found.is_free ne in
                let on_page = found.on_page (begin (space_of o st) is) in
                (
                  r,
                  set_space o (add_segment (described q r) (space_of o st)) st,
                  simp (answer, placed, accepted) (commit-ok r room on_page whole),
                  rw (space_of-set_space o (add_segment (described q r) (space_of o st)) st)
                      (record {
                        space =
                            add_segment-IsSpace (space_of o st) q r is room clear pos on_page whole;
                        failed = λ e. absurd (ne e);
                        added = λ _. (refl, clear, room);
                        fixed =
                            λ _ h. accepted_hint q.hint r (has_flag q.flags flag_fixed) accepted h;
                        first = λ free some whole a later fits none_in.
                            found.is_first a later fits none_in;
                      }),
                )
          ]
        ]

  -- The space as it was, for a request that is turned down at once.
  Mapped-refused :
      (q : Request) (s : Space)
      → IsSpace s
      → (has_flag q.flags flag_fixed ≡ false → 0 < q.length → q.length % page_size ≡ 0 → ⊥)
      → Mapped q s 0 s
  Mapped-refused q s is none_first = record {
    space = is;
    failed = λ e. refl;
    added = λ ne. absurd (ne refl);
    fixed = λ ne. absurd (ne refl);
    first = λ free some whole. absurd (none_first free some whole);
  }

  -- A mapping on demand, with a segment object at hand, always returns. Its answer is 0 and the
  -- segments are as before, or it is the address of a place that was free, now the newest segment
  -- with the attributes asked for; it is the hint where VMM_FLAG_FIXED is set; without the flag
  -- no free place from the hint on lies below it, and it is 0 only if there is none. The space
  -- stays well-formed: whole pages inside the bounds that share no address.
  pub map_common-Mapped :
      (o : Owner) (q : Request) (st : State Memory) (x : Segment) (xs : List Segment)
      → has_flag q.flags flag_no_demand ≡ false
      → st.segments_free ≡ x ∷ xs
      → IsSpace (space_of o st)
      → (r : ℕ) × (st' : State Memory) × (map_common machine o q st ≡ ok (r, st'))
        × Mapped q (space_of o st) r (space_of o st')
  unfolding map_common
  map_common-Mapped o q st x xs demand pool is =
      elim (Bool-cases (q.length == 0 || not (q.length % page_size == 0))) [
        | inl bad ↦
            (0, st, simp bad, Mapped-refused q (space_of o st) is (λ free pos whole. ground arith))
        | inr good ↦
            elim (Bool-cases (not (q.hint % page_size == 0) && has_flag q.flags flag_fixed)) [
              | inl off ↦ (
                0,
                st,
                simp (good, off),
                Mapped-refused q (space_of o st) is (λ free pos whole. ground arith),
              )
              | inr on ↦
                  let same = space_of-segments_free_set o xs st in
                  let (r, st', eq, mapped) =
                    place-Mapped o q (record st { segments_free = xs }) demand x
                      (subst IsSpace (sym same) is) (ground arith) (ground arith) in
                  (
                    r,
                    st',
                    simp (good, on, segments_alloc-take machine x xs st pool) eq,
                    subst (λ s. Mapped q s r (space_of o st')) same mapped,
                  )
            ]
      ]
