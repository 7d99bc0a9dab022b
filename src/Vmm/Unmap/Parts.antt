-- ===== src/Vmm/Unmap/Parts.antt =====
-- A segment that is cut out of the list of an address space (kernel/src/memory/vmm.c).
use elysium_os.Base.{
  ℕ, ◌+◌, ◌^◌, ◌≤◌, ◌<◌, ◌≡◌, ◌⊎◌, inl, inr, true, false, ◌&&◌, List, [], ◌∷◌, ◌++◌, none, some,
  ltb, leb, ◌==◌, if◌then◌else◌, arith, Bool-cases, refl, ap, subst, sym, some-eq,
}
use elysium_os.Vmm.Segments.{Segment, Space, address_in_segment, segment_of}
use elysium_os.Vmm.Segments.Wellformed.{IsPlaced, Apart, IsClear, ArePlaced, protection_at}
use elysium_os.Vmm.Unmap.{replace_segment}

-- The segments lie inside the range of another.
abbrev pub AreWithin : Segment → List Segment → Type 0
AreWithin x [] = Unit
AreWithin x (n ∷ ns) =
    ((x.base ≤ n.base) × (n.base + n.length ≤ x.base + x.length)) × AreWithin x ns

IsClear-within :
    (x n : Segment) (xs : List Segment)
    → x.base ≤ n.base
    → n.base + n.length ≤ x.base + x.length
    → IsClear x.base x.length xs
    → IsClear n.base n.length xs
IsClear-within x n [] low high h = tt
IsClear-within x n (y ∷ ys) low high h = (ground (arith, h.0), IsClear-within x n ys low high h.1)

IsClear-append :
    (base len : ℕ) (x : Segment) (new rest : List Segment)
    → AreWithin x new
    → Apart base len x.base x.length
    → IsClear base len rest
    → IsClear base len (new ++ rest)
IsClear-append base len x [] rest w apart h = h
IsClear-append base len x (n ∷ ns) rest w apart h =
    (ground (arith, w.0), IsClear-append base len x ns rest w.1 apart h)

IsClear-++ :
    (base len : ℕ) (new rest : List Segment)
    → IsClear base len new
    → IsClear base len rest
    → IsClear base len (new ++ rest)
IsClear-++ base len [] rest g h = h
IsClear-++ base len (n ∷ ns) rest g h = (g.0, IsClear-++ base len ns rest g.1 h)

ArePlaced-append :
    (s : Space) (x : Segment) (new rest : List Segment)
    → AreWithin x new
    → ArePlaced s new
    → IsClear x.base x.length rest
    → ArePlaced s rest
    → ArePlaced s (new ++ rest)
ArePlaced-append s x [] rest w p clear q = q
ArePlaced-append s x (n ∷ ns) rest w p clear q = (
  p.0,
  IsClear-++ n.base n.length ns rest p.1 (IsClear-within x n rest w.0.0 w.0.1 clear),
  ArePlaced-append s x ns rest w.1 p.2 clear q,
)

-- Segments that share no address with a range say nothing of its addresses.
protection_at-clear :
    (s : Space) (small : s.end < 2 ^ 64) (base len k : ℕ) (xs : List Segment)
    → ArePlaced s xs
    → IsClear base len xs
    → base ≤ k
    → k < base + len
    → protection_at k xs ≡ none
protection_at-clear s small base len k [] p h low high = refl
protection_at-clear s small base len k (x ∷ xs) p h low high =
    ground (arith, h.0, p.0.below, protection_at-clear s small base len k xs p.2 h.1 low high)

-- The segment that holds an address, and what is clear of the others is clear of it.
module _ (s : Space) (small : s.end < 2 ^ 64) (a : ℕ) where
  pub segment_of-IsPlaced :
      (xs : List Segment) (x : Segment)
      → ArePlaced s xs
      → segment_of a xs ≡ some x
      → IsPlaced s x × (x.base ≤ a) × (a < x.base + x.length)
  unfolding segment_of
  segment_of-IsPlaced [] x p h = absurd (ground arith)
  segment_of-IsPlaced (y ∷ ys) x p h = elim (Bool-cases (address_in_segment a y.base y.length)) [
    | inl hit ↦
        subst (λ z. IsPlaced s z × (z.base ≤ a) × (a < z.base + z.length)) (some-eq (simp hit at h))
          (p.0, ground arith, ground (arith, p.0.below))
    | inr miss ↦ segment_of-IsPlaced ys x p.2 (simp miss at h)
  ]

  segment_of-clear :
      (base len : ℕ) (xs : List Segment) (x : Segment)
      → IsClear base len xs
      → segment_of a xs ≡ some x
      → Apart base len x.base x.length
  unfolding segment_of
  segment_of-clear base len [] x c h = absurd (ground arith)
  segment_of-clear base len (y ∷ ys) x c h =
      elim (Bool-cases (address_in_segment a y.base y.length)) [
        | inl hit ↦ subst (λ z. Apart base len z.base z.length) (some-eq (simp hit at h)) c.0
        | inr miss ↦ segment_of-clear base len ys x c.1 (simp miss at h)
      ]

-- What stays of `x` when the range is cut out of it.
pub record Kept (s : Space) (x : Segment) (base len : ℕ) (new : List Segment) : Type 0 where
  pub within : AreWithin x new
  pub placed : ArePlaced s new
  pub inside : (k : ℕ) → base ≤ k → k < base + len → protection_at k new ≡ none
  pub outside :
      (k : ℕ)
      → x.base ≤ k
      → k < x.base + x.length
      → (k < base) ⊎ (base + len ≤ k)
      → protection_at k new ≡ some x.protection
  pub elsewhere : (k : ℕ) → (k < x.base) ⊎ (x.base + x.length ≤ k) → protection_at k new ≡ none

protection_at-append :
    (k : ℕ) (new rest : List Segment)
    → protection_at k (new ++ rest)
      ≡ elim (protection_at k new) [ none ↦ protection_at k rest | some p ↦ some p ]
protection_at-append k [] rest = refl
protection_at-append k (n ∷ ns) rest = elim (Bool-cases (address_in_segment k n.base n.length)) [
  | inl hit ↦ simp hit
  | inr miss ↦ simp miss (protection_at-append k ns rest)
]

module _ (s : Space) (small : s.end < 2 ^ 64) (a : ℕ) (x : Segment) (base len : ℕ)
    (low : x.base ≤ base) (high : base + len ≤ x.base + x.length) (new : List Segment)
    (kept : Kept s x base len new) where
  replace_segment-IsClear :
      (b l : ℕ) (xs : List Segment)
      → IsClear b l xs
      → segment_of a xs ≡ some x
      → IsClear b l (replace_segment x.base new xs)
  unfolding replace_segment segment_of
  replace_segment-IsClear b l [] c h = tt
  replace_segment-IsClear b l (y ∷ ys) c h = elim (Bool-cases (y.base == x.base)) [
    | inl same ↦ simp same (
        IsClear-append b l x new ys kept.within (segment_of-clear s small a b l (y ∷ ys) x c h) c.1)
    | inr other ↦ elim (Bool-cases (address_in_segment a y.base y.length)) [
      | inl hit ↦
          let e : y ≡ x = some-eq (simp hit at h) in absurd (ground (arith, ap (λ z. z.base) e))
      | inr miss ↦ simp other (c.0, replace_segment-IsClear b l ys c.1 (simp miss at h))
    ]
  ]

  protection_at-cut :
      (k : ℕ) (ys : List Segment)
      → ArePlaced s (x ∷ ys)
      → protection_at k (new ++ ys)
        ≡ (if leb base k && ltb k (base + len) then none else protection_at k (x ∷ ys))
  protection_at-cut k ys p =
      rw (protection_at-append k new ys)
        (elim (Bool-cases (leb x.base k && ltb k (x.base + x.length))) [
          | inl in_x ↦
              let rest : protection_at k ys ≡ none =
                protection_at-clear s small x.base x.length k ys p.2 p.1 (ground arith)
                  (ground arith) in
              elim (Bool-cases (leb base k && ltb k (base + len))) [
                | inl cut ↦ rw (kept.inside k (ground arith) (ground arith)) (simp cut rest)
                | inr stays ↦
                    let held : address_in_segment k x.base x.length ≡ true =
                      ground (arith, p.0.below) in
                    rw (kept.outside k (ground arith) (ground arith) (ground arith))
                      (simp (stays, held))
              ]
          | inr not_x ↦
              let out : (leb base k && ltb k (base + len)) ≡ false = ground arith in
              let held : address_in_segment k x.base x.length ≡ false = ground (arith, p.0.below) in
              rw (kept.elsewhere k (ground arith)) (simp (out, held))
        ])

  pub replace_segment-ArePlaced :
      (xs : List Segment)
      → ArePlaced s xs
      → segment_of a xs ≡ some x
      → ArePlaced s (replace_segment x.base new xs)
  unfolding replace_segment segment_of
  replace_segment-ArePlaced [] p h = tt
  replace_segment-ArePlaced (y ∷ ys) p h =
      elim (Bool-cases (address_in_segment a y.base y.length)) [
        | inl hit ↦
            let e : y ≡ x = some-eq (simp hit at h) in
            let same : (y.base == x.base) ≡ true = ground (arith, e) in
            simp same (
              ArePlaced-append s x new ys kept.within kept.placed
                (subst (λ z. IsClear z.base z.length ys) e p.1) p.2)
        | inr miss ↦
            let later : segment_of a ys ≡ some x = simp miss at h in
            let found = segment_of-IsPlaced s small a ys x p.2 later in
            let apart = segment_of-clear s small a y.base y.length ys x p.1 later in
            let other : (y.base == x.base) ≡ false = ground (arith, p.0.some_pages) in
            simp other (
              p.0,
              replace_segment-IsClear y.base y.length ys p.1 later,
              replace_segment-ArePlaced ys p.2 later,
            )
      ]

  pub replace_segment-protection_at :
      (k : ℕ) (xs : List Segment)
      → ArePlaced s xs
      → segment_of a xs ≡ some x
      → protection_at k (replace_segment x.base new xs)
        ≡ (if leb base k && ltb k (base + len) then none else protection_at k xs)
  unfolding replace_segment segment_of
  replace_segment-protection_at k [] p h = absurd (ground arith)
  replace_segment-protection_at k (y ∷ ys) p h =
      elim (Bool-cases (address_in_segment a y.base y.length)) [
        | inl hit ↦
            let e : y ≡ x = some-eq (simp hit at h) in
            let same : (y.base == x.base) ≡ true = ground (arith, e) in
            simp same (
              subst
                (λ z.
                  protection_at k (new ++ ys)
                  ≡ (if leb base k && ltb k (base + len) then none else protection_at k (z ∷ ys)))
                (sym e) (protection_at-cut k ys (subst (λ z. ArePlaced s (z ∷ ys)) e p)))
        | inr miss ↦
            let later : segment_of a ys ≡ some x = simp miss at h in
            let found = segment_of-IsPlaced s small a ys x p.2 later in
            let apart = segment_of-clear s small a y.base y.length ys x p.1 later in
            let other : (y.base == x.base) ≡ false = ground (arith, p.0.some_pages) in
            simp other
              (ground (arith, p.0.below, found, replace_segment-protection_at k ys p.2 later))
      ]
