-- ===== src/Vmm/Unmap/Cut.antt =====
-- The two parts of a segment that stay when a range is cut out of it (kernel/src/memory/vmm.c).
use elysium_os.Base.{
  ℕ, ◌+◌, ◌%◌, ◌^◌, ◌≤◌, ◌<◌, ◌≡◌, inl, inr, [], ◌∷◌, ◌++◌, ltb, sub64, arith, Bool-cases, refl,
}
use elysium_os.Vmm.Segments.{page_size, Segment, Space}
use elysium_os.Vmm.Segments.Wellformed.{IsPlaced}
use elysium_os.Vmm.Unmap.{lower_part, upper_part}
use elysium_os.Vmm.Unmap.Parts.{Kept}

module _ (s : Space) (small : s.end < 2 ^ 64) (x : Segment) (is : IsPlaced s x) (base len : ℕ)
    (low : x.base ≤ base) (high : base + len ≤ x.base + x.length) (some_pages : 0 < len)
    (base_on_page : base % page_size ≡ 0) (whole_pages : len % page_size ≡ 0)
    (object : Segment) where
  lower-IsPlaced : x.base < base → IsPlaced s (record x { length = sub64 base x.base })
  lower-IsPlaced e = record {
    above = is.above;
    below = ground (arith, is.below);
    some_pages = ground (arith, is.below);
    base_on_page = is.base_on_page;
    whole_pages = ground (arith, is.below, is.base_on_page);
  }

  upper-IsPlaced : base + len < x.base + x.length → IsPlaced s (upper_part x object (base + len))
  upper-IsPlaced f = record {
    above = ground (arith, is.above);
    below = ground (arith, is.below);
    some_pages = ground (arith, is.below);
    base_on_page = omega arith;
    whole_pages = ground (arith, is.below, is.base_on_page, is.whole_pages);
  }

  Kept-whole : x.base ≡ base → base + len ≡ x.base + x.length → Kept s x base len []
  Kept-whole e f = record {
    within = tt;
    placed = tt;
    inside = λ k above below. refl;
    outside = λ k above below out. absurd (omega arith);
    elsewhere = λ k out. refl;
  }

  Kept-lower :
      x.base < base
      → base + len ≡ x.base + x.length
      → Kept s x base len (record x { length = sub64 base x.base } ∷ [])
  Kept-lower e f = record {
    within = (ground (arith, is.below), tt);
    placed = (lower-IsPlaced e, tt, tt);
    inside = λ k above below. ground (arith, is.below);
    outside = λ k above below out. ground (arith, is.below);
    elsewhere = λ k out. ground (arith, is.below);
  }

  Kept-upper :
      x.base ≡ base
      → base + len < x.base + x.length
      → Kept s x base len (upper_part x object (base + len) ∷ [])
  Kept-upper e f = record {
    within = (ground (arith, is.below), tt);
    placed = (upper-IsPlaced f, tt, tt);
    inside = λ k above below. ground (arith, is.below);
    outside = λ k above below out. ground (arith, is.below);
    elsewhere = λ k out. ground (arith, is.below);
  }

  Kept-both :
      x.base < base
      → base + len < x.base + x.length
      → Kept s x base len
          (record x { length = sub64 base x.base } ∷ upper_part x object (base + len) ∷ [])
  Kept-both e f = record {
    within = (ground (arith, is.below), (ground (arith, is.below), tt));
    placed = (lower-IsPlaced e, (ground (arith, is.below), tt), (upper-IsPlaced f, tt, tt));
    inside = λ k above below. ground (arith, is.below);
    outside = λ k above below out. ground (arith, is.below);
    elsewhere = λ k out. ground (arith, is.below);
  }

  -- with nothing above the cut
  pub Kept-to_end : base + len ≡ x.base + x.length → Kept s x base len (lower_part x base ++ [])
  Kept-to_end f = elim (Bool-cases (ltb x.base base)) [
    | inl below ↦ simp below (Kept-lower (ground arith) f)
    | inr starts ↦ simp starts (Kept-whole (ground arith) f)
  ]

  -- with a part above the cut
  pub Kept-split :
      base + len < x.base + x.length
      → Kept s x base len (lower_part x base ++ upper_part x object (base + len) ∷ [])
  Kept-split f = elim (Bool-cases (ltb x.base base)) [
    | inl below ↦ simp below (Kept-both (ground arith) f)
    | inr starts ↦ simp starts (Kept-upper (ground arith) f)
  ]
