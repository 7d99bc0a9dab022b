-- ===== src/Resource.antt =====
-- The table of open files of a process, kernel/src/sched/resource.c and resource.h. A cell of the
-- table is `none` for NULL; the object behind the pointer stands in the cell itself. `room` says whether
-- the heap has room for a resource; heap_alloc panics otherwise.
pub mod Laws
mod Tests
use elysium_os.Base.{
  Result, done, failed, Errno, emfile, ebadf, ℕ, zero, suc, ◌+◌, ◌<◌, ◌≡◌, Bool, true, false, ◌||◌,
  not, List, [], ◌∷◌, Option, none, some, length, get_elem?, set, leb, ltb, if◌then◌else◌, Run, ok,
  panic, undefined, assert, ◌>>◌,
}

-- resource_mode_t
pub data Mode : Type 0 where
  read_only write_only read_write reference : Mode

-- resource_t
pub record Resource (Node : Type 0) : Type 0 where
  pub node : Node
  pub offset : ℕ
  pub mode : Mode

-- resource_table_t: `count` is the length of the array.
pub record Table (Node : Type 0) : Type 0 where
  pub resources : List (Option (Resource Node))
  pub count : ℕ

-- int, as the system calls pass it on
pub data ℤ : Type 0 where
  pos : ℕ → ℤ
  negsuc : ℕ → ℤ

module _ {Node : Type 0} where
  -- A write outside of the array is undefined.
  unfoldable pub resource_create_at :
      (room : Bool) → Table Node → (id : ℕ) → Node → (offset : ℕ) → Mode → Run (Table Node)
  resource_create_at room table id node offset mode =
      assert room
      >> (if ltb id (length table.resources)
          then ok (record table {
            resources =
                set table.resources id
                  (some (record { node = node; offset = offset; mode = mode }));
          })
          else undefined)

  -- The loop of `resource_create`, for the `count` cells that are left from `id` on.
  unfoldable pub find_free : (count id : ℕ) → List (Option (Resource Node)) → Run (Option ℕ)
  find_free zero id cells = ok none
  find_free (suc count) id [] = undefined
  find_free (suc count) id (none ∷ cells) = ok (some id)
  find_free (suc count) id (some r ∷ cells) = find_free count (suc id) cells

  abbrev pub created : ℕ → Run (Table Node) → Run (Result ℕ × Table Node)
  created id (ok table) = ok (done id, table)
  created id panic = panic
  created id undefined = undefined

  unfoldable pub resource_create :
      (room : Bool) → Table Node → Node → (offset : ℕ) → Mode → Run (Result ℕ × Table Node)
  unfolding resource_create_at find_free
  resource_create room table node offset mode = elim (find_free table.count 0 table.resources) [
    | ok none ↦ ok (failed emfile, table)
    | ok (some id) ↦ created id (resource_create_at room table id node offset mode)
    | panic ↦ panic
    | undefined ↦ undefined
  ]

  -- There is no check of the bounds.
  unfoldable pub resource_remove : Table Node → ℤ → Run (Result ℕ × Table Node)
  resource_remove table (negsuc n) = undefined
  resource_remove table (pos id) = elim (get_elem? table.resources id) [
    | none ↦ undefined
    | some none ↦ ok (failed ebadf, table)
    | some (some r) ↦ ok (done 0, record table { resources = set table.resources id none })
  ]

  unfoldable pub resource_get : Table Node → ℤ → Run (Option (Resource Node))
  resource_get table (negsuc n) = ok none
  resource_get table (pos id) =
      if leb table.count id
      then ok none
      else elim (get_elem? table.resources id) [ none ↦ undefined | some cell ↦ ok cell ]
