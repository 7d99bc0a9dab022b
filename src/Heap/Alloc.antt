-- ===== src/Heap/Alloc.antt =====
-- `heap_alloc_align` on a whole heap (kernel/src/memory/heap.c).
use elysium_os.Base.{
  pos→not_zero, subst, sym, leb→le, ℕ, ◌+◌, ◌-◌, ◌%◌, ◌^◌, ◌≤◌, ◌<◌, ◌≡◌, ◌≢◌, inl, inr, leb,
  Bool-cases, arith, Bool, true, false, [], ◌∷◌, refl, ok, panic, undefined, ◌>>=◌, ◌&&◌, ◌||◌, Run,
  none, some, Option-cases,
}
use elysium_os.Heap.{
  Entry, Entries, header, min_entry_size, fit_rounds, get_prot, check_fit, first_offset, place,
  behind, alloc_from, alloc_align, free_entry, free_behind,
}
use elysium_os.Heap.Layout.{IsHeap, Layout, Layout-le, live, live-below, get_prot_sealed}
use elysium_os.Heap.Fit.{Fits, first_offset_lem, check_fit-Fits, check_fit_total}
use elysium_os.Heap.Place.{place-address, Layout-place, live-place_self, live-place_ne}
use elysium_os.Heap.Undo.{free_entry-place, free_behind-place}

-- Some free entry can hold the block, whatever its position.
abbrev pub has_room : (size alignment : ℕ) → Entries → Bool
has_room size alignment [] = false
has_room size alignment (e ∷ es) =
    e.free && leb (size + alignment + header + min_entry_size) e.size || has_room size alignment es

-- What an allocation did to the entries from `lo` to `hi`.
pub record Allocated (lo hi : ℕ) (before : Bool) (size alignment : ℕ) (es : Entries) (a : ℕ)
    (es' : Entries) : Type 0 where
  pub layout : Layout lo hi before es'
  pub on_boundary : a % alignment ≡ 0
  pub above : lo + header ≤ a
  pub fresh : live a es ≡ none
  pub block : (s : ℕ) × (live a es' ≡ some s) × (size ≤ s)
  pub others : (b : ℕ) → b ≢ a → live b es' ≡ live b es
  pub undo : free_entry (a - header) es' ≡ ok es
  pub undo_behind : (p : Entry) → p.free ≡ before → free_behind p (a - header) es' ≡ ok (p ∷ es)

-- The outcome of an allocation: only a lack of room makes it panic.
abbrev pub Outcome :
    (lo hi : ℕ) (before : Bool) (size alignment : ℕ) → Entries → Run (ℕ × Entries) → Type 0
Outcome lo hi before size alignment es (ok (a, es')) =
    Allocated lo hi before size alignment es a es'
Outcome lo hi before size alignment es panic = has_room size alignment es ≡ false
Outcome lo hi before size alignment es undefined = ⊥

module _ (hi size alignment : ℕ) where
  -- An entry that is passed over stays in front of what the rest of the walk made.
  skip :
      (lo : ℕ) (before : Bool) (e : Entry) (es : Entries) (r : Run (ℕ × Entries))
      → Layout lo hi before (e ∷ es)
      → (e.free && leb (size + alignment + header + min_entry_size) e.size) ≡ false
      → Outcome (lo + header + e.size) hi e.free size alignment es r
      → Outcome lo hi before size alignment (e ∷ es) (r >>= behind e)
  unfolding free_entry free_behind
  skip lo before e es panic h no_room o = rw no_room o
  skip lo before e es undefined h no_room o = o
  skip lo before e es (ok (a, es')) h no_room o = record {
    layout = (h.0, h.1, h.2, o.layout);
    on_boundary = o.on_boundary;
    above = ground (arith, o.above);
    fresh = ground (arith, o.above, o.fresh, h.0);
    block = (o.block.0, ground (arith, o.above, o.block.1, h.0), o.block.2);
    others = λ b ne. ground (arith, o.others b ne);
    undo = ground (arith, o.above, h.0, o.undo_behind e refl);
    undo_behind = λ p q. ground (arith, o.above, h.0, o.undo_behind e refl);
  }

  -- The entry that is taken.
  take :
      (lo : ℕ) (before : Bool) (e : Entry) (es : Entries) (offset : ℕ)
      → Layout lo hi before (e ∷ es)
      → hi < 2 ^ 64
      → e.free ≡ true
      → Fits e size alignment offset
      → Outcome lo hi before size alignment (e ∷ es) (ok (place e size offset es))
  take lo before e es offset h small is_free fits =
      let below = Layout-le (lo + header + e.size) hi e.free es h.3 in
      let at = place-address lo hi before e es size alignment offset h is_free fits small below in
      record {
        layout = Layout-place lo hi before e es size alignment offset h is_free fits small below;
        on_boundary = rw at fits.on_boundary;
        above = rw at (ground (arith, h.0));
        fresh = ground (
          arith,
          at,
          is_free,
          fits.room,
          live-below (lo + header + e.size) hi e.free (place e size offset es).0 es h.3,
        );
        block =
            rw at
              (live-place_self lo hi before e es size alignment offset h is_free fits small below);
        others = λ b ne.
            live-place_ne lo hi before e es size alignment offset h is_free fits small below b
              (rw at at ne);
        undo =
            rw (at, down)
              (free_entry-place lo hi before e es size alignment offset h is_free fits small below);
        undo_behind = λ p q.
            rw (at, down)
              (free_behind-place lo hi before e es size alignment offset h is_free fits small below
                p q);
      }
    where
      down : e.addr + header + offset - header ≡ e.addr + offset
      down = omega arith

  no_room :
      (e : Entry) (offset : ℕ)
      → 0 < alignment
      → e.size < 2 ^ 64
      → offset < alignment
      → check_fit fit_rounds e size alignment offset ≡ none
      → leb (size + alignment + header + min_entry_size) e.size ≡ false
  no_room e offset pos small first tight =
      elim (Bool-cases (leb (size + alignment + header + min_entry_size) e.size)) [
        | inr short ↦ short
        | inl wide ↦
            cc
              (check_fit_total fit_rounds e size alignment offset pos (leb→le _ _ wide) small
                (omega arith) (omega arith) (omega arith)).1
      ]

  alloc_from-used :
      (e : Entry) (es : Entries)
      → e.free ≡ false
      → alloc_from size alignment (e ∷ es) ≡ (alloc_from size alignment es >>= behind e)
  unfolding alloc_from
  alloc_from-used e es used = simp used

  module _ (e : Entry) (es : Entries) (pos : 0 < alignment) (is_free : e.free ≡ true)
      (sealed : get_prot e ≡ 0) where
    alloc_from-tight :
        check_fit fit_rounds e size alignment (first_offset e alignment) ≡ none
        → alloc_from size alignment (e ∷ es) ≡ (alloc_from size alignment es >>= behind e)
    unfolding alloc_from
    alloc_from-tight tight = simp (is_free, sealed, pos→not_zero alignment pos, tight)

    alloc_from-place :
        (o : ℕ)
        → check_fit fit_rounds e size alignment (first_offset e alignment) ≡ some o
        → alloc_from size alignment (e ∷ es) ≡ ok (place e size o es)
    unfolding alloc_from
    alloc_from-place o fits = simp (is_free, sealed, pos→not_zero alignment pos, fits)

  alloc_from-Outcome :
      (lo : ℕ) (before : Bool) (es : Entries)
      → 0 < alignment
      → size + alignment + header + min_entry_size < 2 ^ 64
      → hi < 2 ^ 64
      → Layout lo hi before es
      → Outcome lo hi before size alignment es (alloc_from size alignment es)
  unfolding alloc_from
  alloc_from-Outcome lo before [] pos fit small h = refl
  alloc_from-Outcome lo before (e ∷ es) pos fit small h =
      let rest = alloc_from-Outcome (lo + header + e.size) e.free es pos fit small h.3 in
      let below = Layout-le (lo + header + e.size) hi e.free es h.3 in
      let start = first_offset e alignment in
      let (near, on_boundary) = first_offset_lem e alignment pos (omega (arith, h.0)) in
      let sealed = get_prot_sealed e h.1 in
      elim (Bool-cases e.free) [
        | inr used ↦
            subst (Outcome lo hi before size alignment (e ∷ es)) (sym (alloc_from-used e es used))
              (skip lo before e es _ h (simp used) rest)
        | inl is_free ↦ elim (Option-cases (check_fit fit_rounds e size alignment start)) [
          | inl tight ↦
              subst (Outcome lo hi before size alignment (e ∷ es))
                (sym (alloc_from-tight e es pos is_free sealed tight))
                (skip lo before e es _ h
                  (simp (is_free, no_room e start pos (omega (arith, h.0)) near tight)) rest)
          | inr (o, fits) ↦
              subst (Outcome lo hi before size alignment (e ∷ es))
                (sym (alloc_from-place e es pos is_free sealed o fits))
                (take lo before e es o h small is_free (
                  check_fit-Fits fit_rounds e size alignment start o pos fit (omega arith)
                    on_boundary fits))
        ]
      ]

pub alloc_align-Outcome :
    (lo hi size alignment : ℕ) (es : Entries)
    → IsHeap lo hi es
    → 0 < size
    → 0 < alignment
    → size + alignment + header + min_entry_size < 2 ^ 64
    → Outcome lo hi false size alignment es (alloc_align size alignment es)
unfolding alloc_align
alloc_align-Outcome lo hi size alignment es heap some_bytes pos fit =
    rw (pos→not_zero size some_bytes)
      (alloc_from-Outcome hi size alignment lo false es pos fit heap.in_memory heap.layout)
