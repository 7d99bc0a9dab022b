-- ===== src/Heap.antt =====
-- The kernel heap of kernel/src/memory/heap.c. `g_entries` is the list of entries in list order;
-- an entry carries the address of its header. The spinlock makes each call atomic.
pub mod Layout
pub mod Fit
pub mod Place
pub mod Undo
pub mod Alloc
pub mod Free
pub mod Safety
mod Tests
use elysium_os.Base.{
  ℕ, zero, suc, ◌+◌, ◌-◌, ◌%◌, ◌^◌, Bool, true, false, not, List, [], ◌∷◌, ◌++◌, Option, none, some,
  ltb, ◌==◌, if◌then◌else◌, add64, sub64, Run, ok, panic, undefined, ◌>>=◌, ◌>>◌, assert,
}

-- sizeof(heap_entry_t): prot, size, free with its padding, and the two list links.
abbrev pub header : ℕ
header = 40

abbrev pub min_entry_size : ℕ
min_entry_size = 8

pub record Entry : Type 0 where
  pub addr : ℕ
  pub prot : ℕ
  pub size : ℕ
  pub free : Bool

abbrev pub Entries : Type 0
Entries = List Entry

-- `~x` on 64 bits
abbrev pub not64 : ℕ → ℕ
not64 x = 2 ^ 64 - 1 - x

unfoldable pub update_prot : Entry → Entry
update_prot e = record e { prot = not64 (add64 e.addr e.size) }

unfoldable pub get_prot : Entry → ℕ
get_prot e = add64 (add64 (add64 e.addr e.size) e.prot) 1

-- `mapped` is what `vmm_map_anon` returned.
unfoldable pub initialize : (mapped : ℕ) → ℕ → Entries → Run Entries
unfolding update_prot
initialize mapped size es = do
  assert (not (mapped == 0))
  ok (
      es
      ++ update_prot (record { addr = mapped; prot = 0; size = sub64 size header; free = true })
        ∷ [])

-- The jumps to `check_fit`: the offset at which the entry is cut, or none when the entry is skipped.
unfoldable pub check_fit : ℕ → Entry → (size alignment offset : ℕ) → Option ℕ
check_fit zero e size alignment offset = none
check_fit (suc fuel) e size alignment offset =
    let again = check_fit fuel e size alignment (add64 offset alignment) in
    if ltb e.size (add64 offset size)
    then none
    else if offset == 0
    then some offset
    else if ltb offset (header + min_entry_size)
    then again
    else some offset

-- the first offset that puts the block behind the header on the alignment
unfoldable pub first_offset : Entry → ℕ → ℕ
first_offset e alignment =
    let rest = add64 e.addr header % alignment in if rest == 0 then 0 else alignment - rest

-- The label `aligned`: the entry is taken, and what is left over becomes an entry of its own.
unfoldable pub aligned : Entry → ℕ → Entries → Entries
unfolding update_prot
aligned e size es =
    if ltb (header + min_entry_size) (sub64 e.size size)
    then update_prot (record e { free = false; size = size })
      ∷ update_prot (record {
        addr = add64 (add64 e.addr header) size;
        prot = 0;
        size = sub64 (sub64 e.size size) header;
        free = true;
      })
      ∷ es
    else record e { free = false } ∷ es

-- The entry at `e.addr + offset` that is cut off `e`.
unfoldable pub cut : Entry → ℕ → Entry
unfolding update_prot
cut e offset =
    update_prot
      (record { addr = add64 e.addr offset; prot = 0; size = sub64 e.size offset; free = true })

-- What happens once an entry fits: the address that is returned, and the entries from there on.
unfoldable pub place : Entry → (size offset : ℕ) → Entries → ℕ × Entries
unfolding update_prot aligned cut
place e size offset es = if offset == 0 then (add64 e.addr header, aligned e size es) else (
  add64 (cut e offset).addr header,
  update_prot (record e { size = sub64 offset header }) ∷ aligned (cut e offset) size es,
)

-- 48 bytes are passed in at most 48 jumps.
abbrev pub fit_rounds : ℕ
fit_rounds = 50

abbrev pub behind : Entry → ℕ × Entries → Run (ℕ × Entries)
behind e (address, es) = ok (address, e ∷ es)

-- A modulus of 0 is undefined.
unfoldable pub alloc_from : (size alignment : ℕ) → Entries → Run (ℕ × Entries)
unfolding get_prot check_fit first_offset place
alloc_from size alignment [] = panic
alloc_from size alignment (e ∷ es) =
    let rest = alloc_from size alignment es >>= behind e in
    if not e.free
    then rest
    else if not (get_prot e == 0)
    then panic
    else if alignment == 0
    then undefined
    else elim (check_fit fit_rounds e size alignment (first_offset e alignment)) [
      | none ↦ rest
      | some offset ↦ ok (place e size offset es)
    ]

unfoldable pub alloc_align : (size alignment : ℕ) → Entries → Run (ℕ × Entries)
unfolding alloc_from
alloc_align size alignment es = if size == 0 then panic else alloc_from size alignment es

unfoldable pub alloc : ℕ → Entries → Run (ℕ × Entries)
unfolding alloc_align
alloc size es = alloc_align size 1 es

-- The entry takes in a free neighbour behind it.
unfoldable pub merge_next : Entry → Entries → Entries
unfolding update_prot
merge_next e [] = e ∷ []
merge_next e (n ∷ ns) =
    if n.free
    then update_prot (record e { size = add64 e.size (add64 header n.size) }) ∷ ns
    else e ∷ n ∷ ns

-- A free neighbour before the first entry of the list takes that entry in.
unfoldable pub merge_prev : Entry → Entries → Entries
unfolding update_prot
merge_prev p [] = p ∷ []
merge_prev p (e ∷ es) =
    if p.free
    then update_prot (record p { size = add64 p.size (add64 header e.size) }) ∷ es
    else p ∷ e ∷ es

abbrev pub keep_first : Entry → Entries → Run Entries
keep_first p es = ok (p ∷ es)

-- The entry with the header at `a`, with its left neighbour `p`. Without one the code reads a header
-- from memory that holds none.
unfoldable pub free_behind : Entry → ℕ → Entries → Run Entries
unfolding get_prot merge_next merge_prev
free_behind p a [] = undefined
free_behind p a (e ∷ es) =
    let rest = free_behind e a es >>= keep_first p in
    if e.addr == a
    then (assert (get_prot e == 0) >> ok (merge_prev p (merge_next (record e { free = true }) es)))
    else rest

unfoldable pub free_entry : ℕ → Entries → Run Entries
unfolding get_prot merge_next free_behind
free_entry a [] = undefined
free_entry a (e ∷ es) =
    if e.addr == a
    then (assert (get_prot e == 0) >> ok (merge_next (record e { free = true }) es))
    else free_behind e a es

unfoldable pub free : ℕ → Entries → Run Entries
unfolding free_entry
free address es = if address == 0 then ok es else free_entry (sub64 address header) es
