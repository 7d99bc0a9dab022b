-- ===== src/Heap/Free.antt =====
-- `heap_free` (kernel/src/memory/heap.c).
use elysium_os.Base.{
  ℕ, ◌+◌, ◌-◌, ◌^◌, ◌≤◌, ◌<◌, ◌≡◌, ◌≢◌, inl, inr, none, some, arith, ◌==◌, add64, sub64, Bool-cases,
  Bool, true, false, [], ◌∷◌, ◌&&◌, refl, sym, ok, Run, ◌∙◌, pos→not_zero, eq→==, ==→eq,
}
use elysium_os.Heap.{
  Entry, Entries, header, update_prot, merge_next, merge_prev, free_behind, free_entry, free,
}
use elysium_os.Heap.Layout.{
  IsHeap, IsSealed, Layout, Layout-at, Layout-le, live, live_bounds, live-below, get_prot_sealed,
}

-- A free entry in front of entries that do not follow a free one, with what `merge_next` makes of it.
record Grown (lo hi : ℕ) (e : Entry) (es : Entries) : Type 0 where
  first : Entry
  rest : Entries
  eq : merge_next e es ≡ first ∷ rest
  is_free : first.free ≡ true
  layout : Layout lo hi false (first ∷ rest)
  same : (b : ℕ) → live b rest ≡ live b es

merge_next-Grown :
    (lo hi : ℕ) (e : Entry) (es : Entries)
    → e.addr ≡ lo
    → IsSealed e
    → e.free ≡ true
    → hi < 2 ^ 64
    → Layout (lo + header + e.size) hi false es
    → Grown lo hi e es
unfolding merge_next update_prot
merge_next-Grown lo hi e [] at sealed is_free small h = record {
  first = e;
  rest = [];
  eq = refl;
  is_free = is_free;
  layout = (at, sealed, refl, h);
  same = λ b. refl;
}
merge_next-Grown lo hi e (n ∷ ns) at sealed is_free small h =
    let end = Layout-le (lo + header + e.size + header + n.size) hi n.free ns h.3 in
    elim (Bool-cases n.free) [
      | inr used ↦ record {
        first = e;
        rest = n ∷ ns;
        eq = simp used;
        is_free = is_free;
        layout = (at, sealed, refl, (h.0, h.1, simp (is_free, used), h.3));
        same = λ b. refl;
      }
      | inl free_next ↦ record {
        first = update_prot (record e { size = add64 e.size (add64 header n.size) });
        rest = ns;
        eq = simp free_next;
        is_free = is_free;
        layout =
            (at, refl, refl, Layout-at hi ns (omega (arith, end)) (free_next ∙ sym is_free) h.3);
        same = λ b. ground (arith, free_next);
      }
    ]

-- What freeing the block at `a` did to the entries from `lo` to `hi`.
pub record Freed (lo hi : ℕ) (before : Bool) (a : ℕ) (es es' : Entries) : Type 0 where
  pub layout : Layout lo hi before es'
  pub gone : live a es' ≡ none
  pub others : (b : ℕ) → b ≢ a → live b es' ≡ live b es

abbrev pub FreedBy : (lo hi : ℕ) (before : Bool) (a : ℕ) → Entries → Run Entries → Type 0
FreedBy lo hi before a es r = (es' : Entries) × (r ≡ ok es') × Freed lo hi before a es es'

-- The left neighbour takes in what the block has become.
merge_prev-Layout :
    (lo hi : ℕ) (before : Bool) (p e : Entry) (es : Entries)
    → p.addr ≡ lo
    → IsSealed p
    → (before && p.free) ≡ false
    → e.free ≡ true
    → hi < 2 ^ 64
    → Layout (lo + header + p.size) hi false (e ∷ es)
    → Layout lo hi before (merge_prev p (e ∷ es))
      × ((b : ℕ) → live b (merge_prev p (e ∷ es)) ≡ live b (p ∷ es))
unfolding merge_prev update_prot
merge_prev-Layout lo hi before p e es at sealed apart is_free small h = elim (Bool-cases p.free) [
  | inr used ↦ (
    simp used (at, sealed, (simp used at apart), (h.0, h.1, refl, h.3)),
    λ b. ground (arith, is_free, used),
  )
  | inl free_prev ↦ (
    simp free_prev (
      at,
      refl,
      (simp free_prev at apart),
      Layout-at hi es
          (omega (arith, Layout-le (lo + header + p.size + header + e.size) hi e.free es h.3))
          is_free h.3,
    ),
    λ b. ground (arith, free_prev),
  )
]

-- A block that begins further on leaves the first entry alone.
live-later :
    (lo : ℕ) (a : ℕ) (e : Entry) (es : Entries)
    → e.addr ≡ lo
    → lo ≢ a - header
    → header ≤ a
    → live a (e ∷ es) ≡ live a es
live-later lo a e es at ne above = ground arith

module _ (hi a s : ℕ) (small : hi < 2 ^ 64) where
  -- The entry of the block itself, with a free entry's or a used entry's place in front of it.
  at_block :
      (lo : ℕ) (e : Entry) (es : Entries)
      → e.addr ≡ lo
      → IsSealed e
      → Layout (lo + header + e.size) hi e.free es
      → e.addr ≡ a - header
      → header ≤ a
      → live a (e ∷ es) ≡ some s
      → (e.free ≡ false) × Grown lo hi (record e { free = true }) es × (live a es ≡ none)
  at_block lo e es at sealed h here above found = elim (Bool-cases e.free) [
    | inl is_free ↦ absurd (ground (arith, live-below (lo + header + e.size) hi e.free a es h))
    | inr used ↦ (
      used,
      merge_next-Grown lo hi (record e { free = true }) es at sealed refl small
          (Layout-at hi es refl used h),
      live-below (lo + header + e.size) hi e.free a es h (omega arith),
    )
  ]

  free_behind-Freed :
      (lo : ℕ) (before : Bool) (p : Entry) (es : Entries)
      → Layout lo hi before (p ∷ es)
      → header ≤ a
      → p.addr ≢ a - header
      → live a es ≡ some s
      → FreedBy lo hi before a (p ∷ es) (free_behind p (a - header) es)
  unfolding free_behind
  free_behind-Freed lo before p [] h above ne found = absurd (ground arith)
  free_behind-Freed lo before p (e ∷ es) h above ne found =
      elim (Bool-cases (e.addr == (a - header))) [
        | inl here ↦
            let at : e.addr ≡ a - header = ==→eq _ _ here in
            let (used, grown, below) =
              at_block (lo + header + p.size) e es h.3.0 h.3.1 h.3.3 at above found in
            let (layout, same) =
              merge_prev-Layout lo hi before p grown.first grown.rest h.0 h.1 h.2 grown.is_free
                small grown.layout in
            (
              merge_prev p (grown.first ∷ grown.rest),
              simp (here, get_prot_sealed e h.3.1, grown.eq),
              record {
                layout = layout;
                gone = ground (arith, same a, grown.same a);
                others = λ b away. ground (arith, same b, grown.same b);
              },
            )
        | inr later ↦
            let (es', eq, freed) =
              free_behind-Freed (lo + header + p.size) p.free e es h.3 above
                (λ at. cc (eq→== _ _ at)) (ground arith) in
            (
              p ∷ es',
              simp (later, eq),
              record {
                layout = (h.0, h.1, h.2, freed.layout);
                gone = ground (arith, freed.gone);
                others = λ b away. ground (arith, freed.others b);
              },
            )
      ]

  free_entry-Freed :
      (lo : ℕ) (before : Bool) (es : Entries)
      → Layout lo hi false es
      → header ≤ a
      → live a es ≡ some s
      → FreedBy lo hi false a es (free_entry (a - header) es)
  unfolding free_entry
  free_entry-Freed lo before [] h above found = absurd (ground arith)
  free_entry-Freed lo before (e ∷ es) h above found = elim (Bool-cases (e.addr == (a - header))) [
    | inl here ↦
        let at : e.addr ≡ a - header = ==→eq _ _ here in
        let (used, grown, below) = at_block lo e es h.0 h.1 h.3 at above found in
        (
          grown.first ∷ grown.rest,
          simp (here, get_prot_sealed e h.1, grown.eq),
          record {
            layout = grown.layout;
            gone = ground (arith, grown.is_free, grown.same a);
            others = λ b away. ground (arith, grown.is_free, grown.same b);
          },
        )
    | inr later ↦
        rw later (free_behind-Freed lo false e es h above (λ at. cc (eq→== _ _ at)) (ground arith))
  ]

-- Freeing the address of an allocated block of a well-formed heap returns: the block is gone, every
-- other block is as before, and the heap is well-formed again, free neighbours merged.
pub free-Freed :
    (lo hi a s : ℕ) (es : Entries)
    → IsHeap lo hi es
    → live a es ≡ some s
    → (es' : Entries) × (free a es ≡ ok es') × Freed lo hi false a es es'
unfolding free
free-Freed lo hi a s es heap found =
    let (above, below) = live_bounds lo hi false a s es heap.layout found in
    let at : sub64 a header ≡ a - header = omega (arith, heap.in_memory) in
    rw (pos→not_zero a (omega (arith, heap.above_null)), at)
      (free_entry-Freed hi a s heap.in_memory lo false es heap.layout (omega arith) found)
