-- ===== src/Resource/Tests.antt =====
-- The table of open files (kernel/src/sched/resource.c) with three cells.
use elysium_os.Base.{
  true, false, panic, ◌<◌, Result, done, failed, emfile, ebadf, ℕ, ◌≡◌, ◌≢◌, ◌⊎◌, [], ◌∷◌, none,
  some, ok, arith, refl,
}
use elysium_os.Resource.{
  read_only, write_only, Resource, Table, pos, resource_create, resource_remove, resource_get,
}
use elysium_os.Resource.Laws.{
  IsTable, IsOpen, Created, resource_create-Created, resource_remove-Removed,
}

abbrev first : Resource ℕ
first = record { node = 5; offset = 0; mode = read_only }

abbrev second : Resource ℕ
second = record { node = 6; offset = 10; mode = write_only }

abbrev table : Table ℕ
table = record { resources = some first ∷ none ∷ none ∷ []; count = 3 }

abbrev full : Table ℕ
full = record { resources = some first ∷ []; count = 1 }

IsTable-table : IsTable table
IsTable-table = record { counted = refl }

create_run :
    resource_create true table 6 10 write_only
    ≡ ok (done 1, record table { resources = some first ∷ some second ∷ none ∷ [] })
unfolding resource_create
create_run = refl

create_full_run : resource_create true full 6 10 write_only ≡ ok (failed emfile, full)
unfolding resource_create
create_full_run = refl

create_panic_run : resource_create false table 6 10 write_only ≡ panic
unfolding resource_create
create_panic_run = refl

resource_create-Created_example :
    ((true ≡ false)
      × (resource_create true table 6 10 write_only ≡ panic)
      × ((i : ℕ) × (i < 3) × (resource_get table (pos i) ≡ ok none)))
    ⊎ ((a : Result ℕ) × (t' : Table ℕ) × (resource_create true table 6 10 write_only ≡ ok (a, t'))
        × IsTable t'
        × Created table second a t')
resource_create-Created_example = resource_create-Created true table 6 10 write_only IsTable-table

resource_remove-Removed_example :
    ((resource_get table (pos 0) ≡ ok none)
      × (resource_remove table (pos 0) ≡ ok (failed ebadf, table)))
    ⊎ (IsOpen table 0
        × ((t' : Table ℕ) × (resource_remove table (pos 0) ≡ ok (done 0, t'))
            × IsTable t'
            × (resource_get t' (pos 0) ≡ ok none)
            × ((i : ℕ) → i ≢ 0 → resource_get t' (pos i) ≡ resource_get table (pos i))))
resource_remove-Removed_example = resource_remove-Removed table 0 IsTable-table (omega arith)
