-- ===== src/Vmm/Map.antt =====
-- `vmm_map_anon`, `vmm_map_direct` and `vmm_fault` (kernel/src/memory/vmm.c).
pub mod Laws
use elysium_os.Base.{
  ℕ, zero, suc, ◌+◌, ◌-◌, ◌*◌, ◌/◌, ◌%◌, ◌^◌, Bool, true, false, not, ◌&&◌, ◌||◌, List, [], ◌∷◌,
  Option, none, some, ltb, leb, ◌==◌, if◌then◌else◌, add64, sub64, Run, ok, panic, undefined, ◌>>=◌,
  ◌>>◌, assert,
}
use elysium_os.Vmm.Segments.{
  page_size, Backing, anon, direct, Segment, Space, address_in_bounds, segment_in_bounds,
  find_space, addr_to_segment,
}
use elysium_os.Vmm.Machine.{
  Owner, kernel, user, Machine, State, space_of, set_space, has_flag, flag_fixed, flag_no_demand,
  flag_anon_zero,
}
use elysium_os.Vmm.Pool.{answered, add_segment, segment_map, segments_alloc, segments_free}

-- What a mapping is to be.
pub record Request : Type 0 where
  pub hint : ℕ
  pub length : ℕ
  pub prot : ℕ
  pub cache : ℕ
  pub flags : ℕ
  pub backing : Backing

-- the address from which the search for a place goes
abbrev pub aligned_hint : ℕ → ℕ
aligned_hint hint =
    if hint % page_size == 0 then hint else add64 hint (page_size - hint % page_size)

-- The segment object as it is filled in.
abbrev pub described : Request → (address : ℕ) → Segment
described q address = record {
  base = address;
  length = q.length;
  backing = q.backing;
  protection = q.prot;
  cache = q.cache;
}

module _ (machine : Machine) where
  open machine use {Memory}

  unfoldable pub commit : Owner → Request → (address : ℕ) → State Memory → Run (ℕ × State Memory)
  unfolding segment_map
  commit o q address st = do
    assert (segment_in_bounds (space_of o st) address q.length)
    assert (address % page_size == 0 && q.length % page_size == 0)
    m ←
        (if has_flag q.flags flag_no_demand
          then segment_map machine o (described q address) address q.length st.memory
          else ok st.memory)
    let st' =
        set_space o (add_segment (described q address) (space_of o st)) (record st { memory = m })
    ok (address, st')

  -- With the segment object in hand: the place, and what becomes of the object.
  unfoldable pub place : Owner → Request → Segment → State Memory → Run (ℕ × State Memory)
  unfolding find_space commit segments_free
  place o q x st = do
    address ← answered (find_space (space_of o st) (aligned_hint q.hint) q.length)
    if address == 0 || (not (q.hint == address) && has_flag q.flags flag_fixed)
        then ok (0, segments_free machine x st)
        else commit o q address st

  -- `map_common`; the 0 is the NULL that the code returns.
  unfoldable pub map_common : Owner → Request → State Memory → Run (ℕ × State Memory)
  unfolding segments_alloc place
  map_common o q st =
      if q.length == 0 || not (q.length % page_size == 0)
      then ok (0, st)
      else if not (q.hint % page_size == 0) && has_flag q.flags flag_fixed
      then ok (0, st)
      else (do (x, st) ← segments_alloc machine st; place o q x st)

  unfoldable pub map_anon :
      Owner → (hint length prot cache flags : ℕ) → State Memory → Run (ℕ × State Memory)
  unfolding map_common
  map_anon o hint length prot cache flags = map_common o (record {
    hint = hint;
    length = length;
    prot = prot;
    cache = cache;
    flags = flags;
    backing = anon (has_flag flags flag_anon_zero);
  })

  unfoldable pub map_direct :
      Owner
      → (hint length prot cache flags physical_address : ℕ) → State Memory
      → Run (ℕ × State Memory)
  unfolding map_common
  map_direct o hint length prot cache flags physical_address = map_common o (record {
    hint = hint;
    length = length;
    prot = prot;
    cache = cache;
    flags = flags;
    backing = direct physical_address;
  })

  -- The space whose segments are searched: an address of the kernel's bounds is the kernel's.
  abbrev pub fault_owner : Owner → ℕ → State Memory → Owner
  fault_owner o address st = if address_in_bounds st.kernel_space address then kernel else o

  -- VMM_FAULT_NONPRESENT is the lowest bit of the flags.
  unfoldable pub fault : Owner → (address flags : ℕ) → State Memory → Run (Bool × State Memory)
  unfolding addr_to_segment segment_map
  fault o address flags st =
      if not (has_flag flags 0)
      then ok (false, st)
      else elim (addr_to_segment (space_of (fault_owner o address st) st) address) [
        | none ↦ ok (false, st)
        | some x ↦ do
          m ←
              segment_map machine (fault_owner o address st) x (address / page_size * page_size)
                page_size st.memory
          ok (true, record st { memory = m })
      ]
