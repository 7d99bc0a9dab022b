-- ===== src/Heap/Undo.antt =====
-- `heap_free` on the entries that `heap_alloc_align` leaves (kernel/src/memory/heap.c).
use elysium_os.Base.{
  ℕ, ◌+◌, ◌^◌, ◌≤◌, ◌<◌, ◌≡◌, inl, inr, ltb, ◌==◌, Bool-cases, arith, Bool, true, false, [], ◌∷◌,
  refl, sym, subst, sub64, ok, ap, ◌∙◌,
}
use elysium_os.Heap.{
  Entry, Entries, header, min_entry_size, place, aligned, cut, merge_next, merge_prev, free_entry,
  free_behind, update_prot,
}
use elysium_os.Heap.Layout.{IsSealed, Layout, get_prot_sealed}
use elysium_os.Heap.Fit.{Fits}

-- Nothing is merged where the entry behind is not free.
merge_next-kept :
    (lo hi : ℕ) (e : Entry) (es : Entries) → Layout lo hi true es → merge_next e es ≡ e ∷ es
unfolding merge_next
merge_next-kept lo hi e [] h = refl
merge_next-kept lo hi e (n ∷ ns) h = ground (arith, h.2)

module _ (lo hi : ℕ) (e : Entry) (es : Entries) (size : ℕ) (sealed : IsSealed e)
    (is_free : e.free ≡ true) (room : size ≤ e.size) (small : e.addr + header + e.size < 2 ^ 64)
    (tail : Layout lo hi true es) where
  free_entry-aligned : free_entry e.addr (aligned e size es) ≡ ok (e ∷ es)
  unfolding free_entry aligned
  free_entry-aligned = elim (Bool-cases (ltb (header + min_entry_size) (sub64 e.size size))) [
    | inl split ↦ rw split (ground arith)
    | inr whole ↦
        rw whole (ground (arith, get_prot_sealed e sealed, merge_next-kept lo hi e es tail))
  ]

  free_behind-aligned :
      (p : Entry) → free_behind p e.addr (aligned e size es) ≡ ok (merge_prev p (e ∷ es))
  unfolding free_behind aligned
  free_behind-aligned p = elim (Bool-cases (ltb (header + min_entry_size) (sub64 e.size size))) [
    | inl split ↦ rw split (ground arith)
    | inr whole ↦
        rw whole (ground (arith, get_prot_sealed e sealed, merge_next-kept lo hi e es tail))
  ]

module _ (lo hi : ℕ) (before : Bool) (e : Entry) (es : Entries) (size alignment o : ℕ)
    (h : Layout lo hi before (e ∷ es)) (is_free : e.free ≡ true) (fits : Fits e size alignment o)
    (small : hi < 2 ^ 64) (below : lo + header + e.size ≤ hi) where
  tail : Layout (lo + header + e.size) hi true es
  tail = subst (λ b. Layout (lo + header + e.size) hi b es) is_free h.3

  -- Freed, the block goes back into the part of `e` in front of it.
  free_behind-cut :
      (o == 0) ≡ false
      → free_behind
          (update_prot (record e { size = sub64 o header }))
          (e.addr + o)
          (aligned (cut e o) size es)
        ≡ ok (e ∷ es)
  unfolding merge_prev cut
  free_behind-cut some_cut =
      let at : e.addr + o ≡ (cut e o).addr = ground (arith, h.0, fits.room) in
      let back =
        free_behind-aligned (lo + header + e.size) hi (cut e o) es size refl refl
          (ground (arith, fits.room)) (ground (arith, h.0, fits.room)) tail
          (update_prot (record e { size = sub64 o header })) in
      subst
        (λ a.
          free_behind (update_prot (record e { size = sub64 o header })) a
            (aligned (cut e o) size es)
          ≡ ok (e ∷ es))
        (sym at) (back ∙ ground (arith, is_free, h.0, h.1, fits.room, fits.cut))

  pub free_entry-place : free_entry (e.addr + o) (place e size o es).1 ≡ ok (e ∷ es)
  unfolding place free_entry
  free_entry-place = elim (Bool-cases (o == 0)) [
    | inl whole ↦
        let at : e.addr + o ≡ e.addr = ground arith in
        rw (whole, at)
          (free_entry-aligned (lo + header + e.size) hi e es size h.1 is_free
            (ground (arith, fits.room)) (ground (arith, h.0)) tail)
    | inr some_cut ↦ rw some_cut (ground (arith, fits.cut, free_behind-cut some_cut))
  ]

  pub free_behind-place :
      (p : Entry)
      → p.free ≡ before
      → free_behind p (e.addr + o) (place e size o es).1 ≡ ok (p ∷ e ∷ es)
  unfolding place free_behind
  free_behind-place p is_before = elim (Bool-cases (o == 0)) [
    | inl whole ↦
        let at : e.addr + o ≡ e.addr = ground arith in
        rw (whole, at)
          (free_behind-aligned (lo + header + e.size) hi e es size h.1 is_free
              (ground (arith, fits.room)) (ground (arith, h.0)) tail p
            ∙ ap ok (not_merged (ground (arith, is_free, h.2))))
    | inr some_cut ↦ rw some_cut (ground (arith, fits.cut, free_behind-cut some_cut))
  ]
    where
      not_merged : p.free ≡ false → merge_prev p (e ∷ es) ≡ p ∷ e ∷ es
      not_merged q = unfold merge_prev in rw q
