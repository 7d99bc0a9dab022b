-- ===== src/Vmm/Copy.antt =====
-- `vmm_copy_to` and `vmm_copy_from` (kernel/src/memory/vmm.c).
mod Tests
use elysium_os.Base.{
  length, ℕ, zero, suc, ◌+◌, ◌-◌, ◌*◌, ◌/◌, ◌%◌, ◌^◌, Bool, true, false, not, List, [], ◌∷◌, ◌++◌,
  Option, none, some, ltb, if◌then◌else◌, add64, take, drop, Run, ok, panic, undefined, ◌>>=◌, ◌>>◌,
}
use elysium_os.Vmm.Segments.{page_size, memory_exists}
use elysium_os.Vmm.Machine.{Owner, Machine, State, space_of}
use elysium_os.Vmm.Map.{fault}

-- math_min(count - i, ARCH_PAGE_SIZE - offset)
abbrev pub chunk : (left offset : ℕ) → ℕ
chunk left offset = if ltb left (page_size - offset) then left else page_size - offset

-- An answer of `memory_exists`, which always has one.
abbrev pub exists : Option Bool → Run Bool
exists none = undefined
exists (some b) = ok b

module _ (machine : Machine) where
  open machine use {Memory, ptm_physical, hhdm_write, hhdm_read}

  -- The second look at the page tables, after a fault.
  abbrev pub looked_up : State Memory → Option ℕ → Run (Option ℕ × State Memory)
  looked_up st none = panic
  looked_up st (some phys) = ok (some phys, st)

  -- The page at an address, faulted in if need be; `none` if the fault is not handled.
  unfoldable pub resolve : Owner → (address : ℕ) → State Memory → Run (Option ℕ × State Memory)
  unfolding fault
  resolve o address st = elim (ptm_physical o address st.memory) [
    | some phys ↦ ok (some phys, st)
    | none ↦ do
      (handled, st) ← fault machine o address 1 st
      if handled then looked_up st (ptm_physical o address st.memory) else ok (none, st)
  ]

  -- The loop on fuel, since the code has no bound; each round copies a byte at least.
  unfoldable pub copy_to_loop :
      (fuel : ℕ)
      → Owner
      → (dest i count : ℕ) → (src : List ℕ) → State Memory
      → Run (ℕ × State Memory)
  unfolding resolve
  copy_to_loop zero o dest i count src st = undefined
  copy_to_loop (suc fuel) o dest i count src st = if not (ltb i count) then ok (i, st) else (do
    (page, st) ← resolve o (add64 dest i) st
    elim page [
      | none ↦ ok (i, st)
      | some phys ↦
          let offset = add64 dest i % page_size in
          let len = chunk (count - i) offset in
          copy_to_loop fuel o dest (i + len) count (drop len src)
            (record st { memory = hhdm_write (add64 phys offset) (take len src) st.memory })
    ])

  -- `src` are the `count` bytes that the pointer leads to.
  unfoldable pub copy_to :
      Owner → (dest : ℕ) → (src : List ℕ) → State Memory → Run (ℕ × State Memory)
  unfolding memory_exists copy_to_loop
  copy_to o dest src st = do
    there ← exists (memory_exists (space_of o st) dest (length src))
    if there then copy_to_loop (suc (length src)) o dest 0 (length src) src st else ok (0, st)

  -- The bytes that are copied out are the second part of the answer.
  unfoldable pub copy_from_loop :
      (fuel : ℕ) → Owner → (src i count : ℕ) → State Memory → Run (ℕ × List ℕ × State Memory)
  unfolding resolve
  copy_from_loop zero o src i count st = undefined
  copy_from_loop (suc fuel) o src i count st = if not (ltb i count) then ok (i, [], st) else (do
    (page, st) ← resolve o (add64 src i) st
    elim page [
      | none ↦ ok (i, [], st)
      | some phys ↦
          let offset = add64 src i % page_size in
          let len = chunk (count - i) offset in
          copy_from_loop fuel o src (i + len) count st
          >>= (λ rest. ok (rest.0, hhdm_read (add64 phys offset) len st.memory ++ rest.1, rest.2))
    ])

  unfoldable pub copy_from :
      Owner → (src count : ℕ) → State Memory → Run (ℕ × List ℕ × State Memory)
  unfolding memory_exists copy_from_loop
  copy_from o src count st = do
    there ← exists (memory_exists (space_of o st) src count)
    if there then copy_from_loop (suc count) o src 0 count st else ok (0, [], st)
