-- ===== src/Vmm/Unmap/Extent.antt =====
-- The inner loop of `vmm_unmap` (kernel/src/memory/vmm.c).
use elysium_os.Base.{
  ℕ, zero, suc, ◌+◌, ◌-◌, ◌*◌, ◌%◌, ◌^◌, ◌≤◌, ◌<◌, ◌≡◌, ◌⊎◌, inl, inr, ◌&&◌, some, add64, arith,
  Bool-cases,
}
use elysium_os.Vmm.Segments.{page_size, Segment, Space, address_in_segment}
use elysium_os.Vmm.Segments.Wellformed.{IsPlaced}
use elysium_os.Vmm.Unmap.{extent}

-- How far the inner loop goes: to the end of the segment or of the range, whichever is first.
pub record Extends (x : Segment) (stop base len r : ℕ) : Type 0 where
  pub longer : len ≤ r
  pub on_page : r % page_size ≡ 0
  pub in_segment : base + r ≤ x.base + x.length
  pub in_range : base + r ≤ stop
  pub is_all : (base + r ≡ x.base + x.length) ⊎ (base + r ≡ stop)

module _ (s : Space) (small : s.end < 2 ^ 64) (x : Segment) (is : IsPlaced s x)
    (address length base : ℕ) (to : address + length ≤ s.end) (low : x.base ≤ base)
    (from : address ≤ base) (address_on_page : address % page_size ≡ 0)
    (length_on_page : length % page_size ≡ 0) (base_on_page : base % page_size ≡ 0) where
  pub extent-Extends :
      (fuel len : ℕ)
      → (address + length) - (base + len) < fuel * page_size
      → len % page_size ≡ 0
      → 0 < len
      → base + len ≤ x.base + x.length
      → base + len ≤ address + length
      → (r : ℕ) × (extent fuel x address length base len ≡ some r)
        × Extends x (address + length) base len r
  unfolding extent
  extent-Extends zero len enough on_page some_pages in_x in_range = absurd (omega arith)
  extent-Extends (suc fuel) len enough on_page some_pages in_x in_range =
      elim (Bool-cases (
        address_in_segment (add64 base len) x.base x.length
        && address_in_segment (add64 base len) address length)) [
          | inl more ↦
              let next : add64 len page_size ≡ len + page_size = ground arith in
              let (r, eq, ext) =
                extent-Extends fuel (len + page_size) (ground arith) (omega arith) (omega arith)
                  (ground (arith, is.below, is.base_on_page, is.whole_pages)) (ground arith) in
              (
                r,
                simp (more, next, eq),
                record {
                  longer = omega (arith, ext.longer);
                  on_page = ext.on_page;
                  in_segment = ext.in_segment;
                  in_range = ext.in_range;
                  is_all = ext.is_all;
                },
              )
          | inr stop ↦ (
            len,
            simp stop,
            record {
              longer = omega arith;
              on_page = on_page;
              in_segment = in_x;
              in_range = in_range;
              is_all = ground (arith, is.below, is.base_on_page, is.whole_pages);
            },
          )
        ]
