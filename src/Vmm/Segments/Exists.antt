-- ===== src/Vmm/Segments/Exists.antt =====
-- `memory_exists` (kernel/src/memory/vmm.c) and the addresses that the segments hold.
use elysium_os.Base.{
  ℕ, zero, suc, ◌+◌, ◌^◌, ◌≤◌, ◌<◌, ◌≡◌, ◌⊎◌, inl, inr, Bool, true, false, ◌&&◌, List, [], ◌∷◌,
  some, ltb, leb, add64, arith, Bool-cases, refl, ◌==◌, subst,
}
use elysium_os.Vmm.Segments.{
  Segment, Space, Walk, found, missing, restart, walk, memory_exists_loop, memory_exists,
  address_in_bounds,
}
use elysium_os.Vmm.Segments.Wellformed.{ArePlaced, IsSpace, covered}

-- What an answer about the range from `a` says: that all of it is held, or that an address is not.
abbrev pub Answers : List Segment → (a len : ℕ) → Bool → Type 0
Answers xs a len true = (k : ℕ) → a ≤ k → k < a + len → covered k xs ≡ true
Answers xs a len false = (k : ℕ) × (a ≤ k) × (k < a + len) × (covered k xs ≡ false)

-- What one walk says of the range.
abbrev Walked : List Segment → (a len : ℕ) → Walk → Type 0
Walked xs a len found = Answers xs a len true
Walked xs a len missing = covered a xs ≡ false
Walked xs a len (restart a' len') =
    (len' < len)
    × (a ≤ a')
    × (a' + len' ≤ a + len)
    × ((k : ℕ) → a ≤ k → k < a + len → ((a' ≤ k) × (k < a' + len')) ⊎ (covered k xs ≡ true))

covered-cons :
    (k : ℕ) (x : Segment) (xs : List Segment) → covered k xs ≡ true → covered k (x ∷ xs) ≡ true
covered-cons k x xs h = ground arith

-- A walk that passes over a segment which does not hold `a` says the same with it in front.
Walked-cons :
    (x : Segment) (xs : List Segment) (a len : ℕ) (w : Walk)
    → (leb x.base a && ltb a (add64 x.base x.length)) ≡ false
    → Walked xs a len w
    → Walked (x ∷ xs) a len w
Walked-cons x xs a len found miss h = λ k low high. covered-cons k x xs (h k low high)
Walked-cons x xs a len missing miss h = simp miss h
Walked-cons x xs a len (restart a' len') miss h =
    (h.0, h.1, h.2, λ k low high. ground (arith, h.3 k low high))

module _ (s : Space) (small : s.end < 2 ^ 64) (a len : ℕ) (some_bytes : 0 < len)
    (fits : a + len < 2 ^ 64) where
  walk-Walked : (xs : List Segment) → ArePlaced s xs → Walked xs a len (walk a len xs)
  unfolding walk
  walk-Walked [] p = refl
  walk-Walked (x ∷ xs) p = elim (Bool-cases (leb x.base a && ltb a (add64 x.base x.length))) [
    | inl holds ↦ elim (Bool-cases (leb (add64 a len) (add64 x.base x.length))) [
      | inl whole ↦ simp (holds, whole) (λ k low high. ground (arith, p.0.below))
      | inr part ↦
          simp (holds, part)
            (
              ground (arith, p.0.below),
              ground (arith, p.0.below),
              ground (arith, p.0.below),
              λ k low high. ground (arith, p.0.below),
            )
    ]
    | inr misses ↦
        elim (Bool-cases
          (ltb a x.base && ltb x.base (add64 a len) && leb (add64 a len) (add64 x.base x.length))) [
            | inl tail ↦
                simp (misses, tail)
                  (
                    ground (arith, p.0.below),
                    omega arith,
                    ground (arith, p.0.below),
                    λ k low high. ground (arith, p.0.below),
                  )
            | inr other ↦
                simp (misses, other)
                  (Walked-cons x xs a len (walk a len xs) misses (walk-Walked xs p.2))
          ]
  ]

-- From the range of a restart to the range before it.
widen :
    (xs : List Segment) (a len a' len' : ℕ) (b : Bool)
    → Walked xs a len (restart a' len')
    → Answers xs a' len' b
    → Answers xs a len b
widen xs a len a' len' true w h = λ k low high. ground (arith, w.3 k low high, h k)
widen xs a len a' len' false w h = (h.0, omega arith, omega arith, h.3)

Walk-cases : (w : Walk) → (w ≡ found) ⊎ (w ≡ missing) ⊎ ((a : ℕ) × (len : ℕ) × (w ≡ restart a len))
Walk-cases found = inl refl
Walk-cases missing = inr (inl refl)
Walk-cases (restart a len) = inr (inr (a, len, refl))

module _ (s : Space) (is : IsSpace s) where
  memory_exists_loop-Answers :
      (fuel a len : ℕ)
      → len < fuel
      → a + len < 2 ^ 64
      → (b : Bool) × (memory_exists_loop fuel s.segments a len ≡ some b)
        × Answers s.segments a len b
  unfolding memory_exists_loop
  memory_exists_loop-Answers zero a len enough fits = absurd (omega arith)
  memory_exists_loop-Answers (suc fuel) a len enough fits = elim (Bool-cases (len == 0)) [
    | inl empty ↦ (true, simp empty, λ k low high. absurd (ground arith))
    | inr more ↦
        let pos : 0 < len = ground arith in
        let w = walk-Walked s is.in_memory a len pos fits s.segments is.placed in
        elim (Walk-cases (walk a len s.segments)) [
          | inl e ↦ (true, simp (more, e), subst (Walked s.segments a len) e w)
          | inr (inl e) ↦ (
            false,
            simp (more, e),
            (a, omega arith, omega arith, subst (Walked s.segments a len) e w),
          )
          | inr (inr (a', len', e)) ↦
              let w' = subst (Walked s.segments a len) e w in
              let (b, eq, h) =
                memory_exists_loop-Answers fuel a' len' (omega (arith, w'.0))
                  (omega (arith, w'.2)) in
              (b, simp (more, e, eq), widen s.segments a len a' len' b w' h)
        ]
  ]

  -- In a well-formed space `memory_exists` answers for every range whose first address and whose end lie
  -- inside the bounds, without a wrap-around: true if every address of it belongs to a segment, and
  -- false if one does not.
  pub memory_exists-Answers :
      (a len : ℕ)
      → address_in_bounds s a ≡ true
      → a + len < s.end
      → (b : Bool) × (memory_exists s a len ≡ some b) × Answers s.segments a len b
  unfolding memory_exists
  memory_exists-Answers a len from to =
      let stop : address_in_bounds s (add64 a len) ≡ true = ground (arith, is.in_memory) in
      let (b, eq, h) =
        memory_exists_loop-Answers (suc len) a len (omega arith) (omega (arith, is.in_memory)) in
      (b, simp (from, stop, eq), h)
