-- ===== src/Heap/Layout.antt =====
-- The well-formedness of the kernel heap (kernel/src/memory/heap.c): the entries tile one range of
-- addresses, every header is sealed, and no two free entries touch.
use elysium_os.Base.{
  ℕ, ◌+◌, ◌^◌, ◌≤◌, ◌<◌, ◌≡◌, Bool, false, not, ◌&&◌, Option, none, some, [], ◌∷◌, arith, ◌==◌,
  if◌then◌else◌, add64,
}
use mathlib.Core.Path.{subst₂}
use elysium_os.Heap.{Entry, Entries, header, not64, get_prot}

-- `prot` is what `update_prot` writes.
abbrev pub IsSealed : Entry → Type 0
IsSealed e = e.prot ≡ not64 (add64 e.addr e.size)

-- From `lo` up to `hi`; `before` says whether the entry that ends at `lo` is free.
abbrev pub Layout : (lo hi : ℕ) (before : Bool) → Entries → Type 0
Layout lo hi before [] = lo ≡ hi
Layout lo hi before (e ∷ es) =
    (e.addr ≡ lo)
    × IsSealed e
    × ((before && e.free) ≡ false)
    × Layout (lo + header + e.size) hi e.free es

pub record IsHeap (lo hi : ℕ) (es : Entries) : Type 0 where
  pub above_null : 0 < lo
  pub in_memory : hi < 2 ^ 64
  pub layout : Layout lo hi false es

-- The size of the allocated block whose bytes begin at `a`: what the users of the heap see of it.
abbrev pub live : ℕ → Entries → Option ℕ
live a [] = none
live a (e ∷ es) = if not e.free && (e.addr + header == a) then some e.size else live a es

pub Layout-le : (lo hi : ℕ) (b : Bool) (es : Entries) → Layout lo hi b es → lo ≤ hi
Layout-le lo hi b [] h = omega arith
Layout-le lo hi b (e ∷ es) h = omega (arith, Layout-le (lo + header + e.size) hi e.free es h.3)

pub Layout-at :
    {lo lo' : ℕ} (hi : ℕ) {b b' : Bool} (es : Entries)
    → lo ≡ lo'
    → b ≡ b'
    → Layout lo hi b es
    → Layout lo' hi b' es
Layout-at hi es p q h = subst₂ (λ l c. Layout l hi c es) p q h

-- A block lies above the header of the first entry and below the end.
pub live_bounds :
    (lo hi : ℕ) (b : Bool) (a s : ℕ) (es : Entries)
    → Layout lo hi b es
    → live a es ≡ some s
    → (lo + header ≤ a) × (a + s ≤ hi)
live_bounds lo hi b a s [] h e = absurd (ground arith)
live_bounds lo hi b a s (x ∷ es) h e = ground (
  arith,
  Layout-le (lo + header + x.size) hi x.free es h.3,
  live_bounds (lo + header + x.size) hi x.free a s es h.3,
)

pub live-below :
    (lo hi : ℕ) (b : Bool) (a : ℕ) (es : Entries)
    → Layout lo hi b es
    → a < lo + header
    → live a es ≡ none
live-below lo hi b a [] h lt = ground arith
live-below lo hi b a (x ∷ es) h lt =
    ground (arith, live-below (lo + header + x.size) hi x.free a es h.3)

-- A sealed header passes the check of the assertions.
pub get_prot_sealed : (e : Entry) → IsSealed e → get_prot e ≡ 0
unfolding get_prot
get_prot_sealed e h = rw h (omega arith)

-- Two blocks never overlap.
pub live_disjoint :
    (lo hi : ℕ) (before : Bool) (a b s t : ℕ) (es : Entries)
    → Layout lo hi before es
    → live a es ≡ some s
    → live b es ≡ some t
    → a < b
    → a + s ≤ b
live_disjoint lo hi before a b s t [] h p q lt = absurd (ground arith)
live_disjoint lo hi before a b s t (x ∷ es) h p q lt = ground (
  arith,
  live_bounds (lo + header + x.size) hi x.free b t es h.3,
  live_bounds (lo + header + x.size) hi x.free a s es h.3,
  live_disjoint (lo + header + x.size) hi x.free a b s t es h.3,
)
