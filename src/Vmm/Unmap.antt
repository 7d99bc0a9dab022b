-- ===== src/Vmm/Unmap.antt =====
-- `vmm_unmap` (kernel/src/memory/vmm.c).
pub mod Parts
pub mod Cut
pub mod Extent
pub mod Part
pub mod Laws
use elysium_os.Base.{
  ℕ, zero, suc, ◌+◌, ◌-◌, ◌*◌, ◌/◌, ◌%◌, ◌^◌, Bool, true, false, not, ◌&&◌, ◌||◌, List, [], ◌∷◌,
  ◌++◌, Option, none, some, ltb, leb, ◌==◌, if◌then◌else◌, add64, sub64, Run, ok, panic, undefined,
  ◌>>=◌, ◌>>◌, assert,
}
use elysium_os.Vmm.Segments.{
  page_size, Backing, anon, direct, Segment, Space, segment_in_bounds, address_in_segment,
  addr_to_segment,
}
use elysium_os.Vmm.Machine.{Owner, Machine, State, space_of, set_space}
use elysium_os.Vmm.Pool.{answered, stale_zeroed, segment_unmap, segments_alloc, segments_free}

-- The inner loop: how many bytes of the segment are unmapped at once. `none` is a lack of fuel.
unfoldable pub extent :
    (fuel : ℕ) → Segment → (address length split_base split_length : ℕ) → Option ℕ
extent zero x address length split_base split_length = none
extent (suc fuel) x address length split_base split_length =
    let more = extent fuel x address length split_base (add64 split_length page_size) in
    let stop = add64 split_base split_length in
    if address_in_segment stop x.base x.length && address_in_segment stop address length
    then more
    else some split_length

-- The segment object that begins at `base` gives way to others.
unfoldable pub replace_segment : (base : ℕ) → List Segment → List Segment → List Segment
replace_segment base new [] = []
replace_segment base new (x ∷ xs) =
    if x.base == base then new ++ xs else x ∷ replace_segment base new xs

-- What is left of a segment below the cut.
abbrev pub lower_part : Segment → (split_base : ℕ) → List Segment
lower_part x split_base =
    if ltb x.base split_base then record x { length = sub64 split_base x.base } ∷ [] else []

-- The object that takes over the part above the cut. Its cache type is not written, nor is the
-- union of an anonymous segment; that of a direct one is copied as it is.
abbrev pub upper_part : Segment → (object : Segment) → (split_end : ℕ) → Segment
upper_part x object split_end = record object {
  base = split_end;
  length = sub64 (add64 x.base x.length) split_end;
  protection = x.protection;
  backing = elim x.backing [ anon z ↦ anon (stale_zeroed object.backing) | direct p ↦ direct p ];
}

module _ (machine : Machine) where
  open machine use {Memory}

  unfoldable pub split_upper :
      Segment → (split_end : ℕ) → State Memory → Run (List Segment × State Memory)
  unfolding segments_alloc
  split_upper x split_end st =
      if ltb split_end (add64 x.base x.length)
      then (do
        (object, st) ← segments_alloc machine st
        ok (upper_part x object split_end ∷ [], st))
      else ok ([], st)

  -- The cut itself: the parts that stay, and the object, if none of it stays.
  unfoldable pub relink :
      Owner → Segment → (split_base : ℕ) → (upper : List Segment) → State Memory → State Memory
  unfolding replace_segment segments_free
  relink o x split_base upper st =
      let s = space_of o st in
      let kept = replace_segment x.base (lower_part x split_base ++ upper) s.segments in
      let st' = set_space o (record s { segments = kept }) st in
      if ltb x.base split_base then st' else segments_free machine x st'

  unfoldable pub unmap_part :
      Owner → Segment → (split_base split_length : ℕ) → State Memory → Run (State Memory)
  unfolding segment_unmap split_upper relink
  unmap_part o x split_base split_length st = do
    assert (segment_in_bounds (space_of o st) split_base split_length)
    assert (split_base % page_size == 0 && split_length % page_size == 0)
    m ← segment_unmap machine o x split_base split_length st.memory
    (upper, st) ← split_upper x (add64 split_base split_length) (record st { memory = m })
    ok (relink o x split_base upper st)

  -- The outer loop on fuel; the code has no bound, so a lack of fuel counts as `undefined`.
  unfoldable pub unmap_loop :
      (fuel : ℕ) → Owner → (address length split_base : ℕ) → State Memory → Run (State Memory)
  unfolding addr_to_segment extent unmap_part
  unmap_loop zero o address length split_base st = undefined
  unmap_loop (suc fuel) o address length split_base st =
      if not (ltb split_base (add64 address length))
      then ok st
      else elim (addr_to_segment (space_of o st) split_base) [
        | none ↦ unmap_loop fuel o address length (add64 split_base page_size) st
        | some x ↦ do
          split_length ←
              answered (extent (suc (length / page_size)) x address length split_base page_size)
          st ← unmap_part o x split_base split_length st
          unmap_loop fuel o address length (add64 split_base split_length) st
      ]

  unfoldable pub unmap : Owner → (address length : ℕ) → State Memory → Run (State Memory)
  unfolding unmap_loop
  unmap o address length st = if length == 0 then ok st else (do
    assert (address % page_size == 0 && length % page_size == 0)
    assert (segment_in_bounds (space_of o st) address length)
    unmap_loop (suc (length / page_size)) o address length address st)
