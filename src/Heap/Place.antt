-- ===== src/Heap/Place.antt =====
-- One entry that fits is cut up (`heap_alloc_align` of kernel/src/memory/heap.c).
use elysium_os.Base.{
  ℕ, ◌+◌, ◌^◌, ◌≤◌, ◌<◌, ◌≡◌, ◌≢◌, inl, inr, some, arith, ltb, ◌==◌, Bool-cases, Bool, true, false,
  [], ◌∷◌, ◌&&◌, refl, sym, subst, sub64,
}
use elysium_os.Heap.{Entry, Entries, header, min_entry_size, place, aligned, cut}
use elysium_os.Heap.Layout.{IsSealed, Layout, Layout-at, live}
use elysium_os.Heap.Fit.{Fits}

pub Layout-not_free : (lo hi : ℕ) (es : Entries) → Layout lo hi true es → Layout lo hi false es
Layout-not_free lo hi [] h = h
Layout-not_free lo hi (e ∷ es) h = (h.0, h.1, refl, h.3)

&&-false : (b : Bool) → (b && false) ≡ false
&&-false true = refl
&&-false false = refl

Layout-aligned :
    (lo hi : ℕ) (before : Bool) (e : Entry) (es : Entries) (size : ℕ)
    → e.addr ≡ lo
    → IsSealed e
    → size ≤ e.size
    → lo + header + e.size ≤ hi
    → hi < 2 ^ 64
    → Layout (lo + header + e.size) hi true es
    → Layout lo hi before (aligned e size es)
unfolding aligned
Layout-aligned lo hi before e es size at sealed room below small tail =
    elim (Bool-cases (ltb (header + min_entry_size) (sub64 e.size size))) [
      | inl split ↦ rw split (
        at,
        refl,
        &&-false before,
        (omega arith, refl, refl, Layout-at hi es (ground arith) refl tail),
      )
      | inr whole ↦
          rw whole (at, sealed, &&-false before, Layout-not_free (lo + header + e.size) hi es tail)
    ]

live-aligned_self :
    (e : Entry) (es : Entries) (size : ℕ)
    → size ≤ e.size
    → (s : ℕ) × (live (e.addr + header) (aligned e size es) ≡ some s) × (size ≤ s)
unfolding aligned
live-aligned_self e es size room =
    elim (Bool-cases (ltb (header + min_entry_size) (sub64 e.size size))) [
      | inl split ↦ (size, rw split (ground arith), omega arith)
      | inr whole ↦ (e.size, rw whole (ground arith), room)
    ]

live-aligned_ne :
    (b : ℕ) (e : Entry) (es : Entries) (size : ℕ)
    → b ≢ e.addr + header
    → live b (aligned e size es) ≡ live b es
unfolding aligned
live-aligned_ne b e es size ne = ground arith

module _ (lo hi : ℕ) (before : Bool) (e : Entry) (es : Entries) (size alignment o : ℕ)
    (h : Layout lo hi before (e ∷ es)) (is_free : e.free ≡ true) (fits : Fits e size alignment o)
    (small : hi < 2 ^ 64) (below : lo + header + e.size ≤ hi) where
  tail : Layout (lo + header + e.size) hi true es
  tail = subst (λ b. Layout (lo + header + e.size) hi b es) is_free h.3

  pub place-address : (place e size o es).0 ≡ e.addr + header + o
  unfolding place
  place-address = ground (arith, fits.room, h.0)

  pub Layout-place : Layout lo hi before (place e size o es).1
  unfolding place
  Layout-place = elim (Bool-cases (o == 0)) [
    | inl whole ↦
        rw whole (
          Layout-aligned lo hi before e es size h.0 h.1 (ground (arith, fits.room)) below small
            tail)
    | inr some_cut ↦ rw some_cut (
      h.0,
      refl,
      h.2,
      subst (λ b. Layout (lo + header + sub64 o header) hi b (aligned (cut e o) size es))
          (sym is_free)
          (Layout-aligned (lo + header + sub64 o header) hi true (cut e o) es size
            (ground (arith, h.0, fits.room, fits.cut)) refl
            (ground (arith, h.0, fits.room, fits.cut)) (ground (arith, h.0, fits.room, fits.cut))
            small (Layout-at hi es (ground (arith, h.0, fits.room, fits.cut)) refl tail)),
    )
  ]

  pub live-place_self :
      (s : ℕ) × (live (e.addr + header + o) (place e size o es).1 ≡ some s) × (size ≤ s)
  unfolding place
  live-place_self = elim (Bool-cases (o == 0)) [
    | inl whole ↦ rw whole (
        let same : e.addr + header + o ≡ e.addr + header = ground arith in
        rw same (live-aligned_self e es size (ground (arith, fits.room))))
    | inr some_cut ↦
        rw (some_cut, is_free)
          (let same : e.addr + header + o ≡ (cut e o).addr + header =
              ground (arith, h.0, fits.room) in
            subst (λ a. (s : ℕ) × (live a (aligned (cut e o) size es) ≡ some s) × (size ≤ s))
              (sym same) (live-aligned_self (cut e o) es size (ground (arith, h.0, fits.room))))
  ]

  pub live-place_ne :
      (b : ℕ) → b ≢ e.addr + header + o → live b (place e size o es).1 ≡ live b (e ∷ es)
  unfolding place
  live-place_ne b ne = ground (
    arith,
    h.0,
    fits.room,
    is_free,
    live-aligned_ne b e es size,
    live-aligned_ne b (cut e o) es size,
  )
