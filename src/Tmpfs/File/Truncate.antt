-- ===== src/Tmpfs/File/Truncate.antt =====
-- Truncating a file (kernel/src/fs/tmpfs.c), as an operation on its contents.
use elysium_os.Base.{
  ℕ, ◌^◌, ◌<◌, ◌≤◌, ◌≡◌, ◌⊎◌, inl, inr, List, none, some, length, get_elem?, take, put, replicate,
  ltb, if◌then◌else◌, Run, ok, arith, refl, sym, ◌∙◌, Bool-cases, length-put, get_elem?-put_inside,
  get_elem?-put_outside, length-take, get_elem?-take, length-replicate, get_elem?-replicate,
}
use elysium_os.Tmpfs.File.{File, buffer, truncate}
use elysium_os.Tmpfs.File.Laws.{IsFile, copy_to-ok, copy_from-ok, Gives}

-- The contents cut off at `size`, or filled up with zeros.
pub record Truncated (f : File) (size : ℕ) (f' : File) : Type 0 where
  pub file : IsFile f'
  pub sized : f'.size ≡ size
  pub old : (i : ℕ) → i < f.size → i < size → get_elem? (buffer f') i ≡ get_elem? (buffer f) i
  pub zeros : (i : ℕ) → f.size ≤ i → i < size → get_elem? (buffer f') i ≡ some 0

module _ (heap_alloc : ℕ → Run (List ℕ)) (f : File) (is : IsFile f) where
  -- Truncating a well-formed file returns, if the heap has memory for a size that is not 0. The file
  -- then has that size, its old bytes up to there, and zeros behind them.
  pub truncate-Truncated :
      (size : ℕ)
      → size < 2 ^ 64
      → (0 < size → Gives heap_alloc size)
      → (f' : File) × (truncate heap_alloc f size ≡ ok f') × Truncated f size f'
  unfolding truncate
  truncate-Truncated size small gives = elim (Bool-cases (ltb 0 size)) [
    | inr empty ↦
        let none_left : size ≡ 0 = ground arith in
        (
          record { base = none; size = size },
          simp (truncate, empty),
          record {
            file = record { sized = sym none_left; in_memory = small };
            sized = refl;
            old = λ i h lt. absurd (omega arith);
            zeros = λ i h lt. absurd (omega arith);
          },
        )
    | inl some_bytes ↦
        let (fresh, eq, len) = gives (ground arith) in
        let blank = put fresh 0 (replicate size 0) in
        let blank_length : length blank ≡ size = length-put fresh 0 (replicate size 0) ∙ len in
        let zeros_length : length (replicate {A = ℕ} size 0) ≡ size =
          length-replicate {A = ℕ} size 0 in
        let count = if ltb f.size size then f.size else size in
        let count_size : (count ≤ size) × (count ≤ f.size) × ((size ≤ count) ⊎ (f.size ≤ count)) =
          (ground arith, ground arith, ground arith) in
        let kept = take count (buffer f) in
        let kept_length : length kept ≡ count =
          length-take count (buffer f) (omega (arith, count_size, is.sized)) in
        (
          record { base = some (put blank 0 kept); size = size },
          simp (
            truncate,
            some_bytes,
            eq,
            copy_from-ok (buffer f) 0 count (omega (arith, count_size, is.sized)),
            copy_to-ok blank kept 0 (omega (arith, blank_length, kept_length, count_size)),
          ),
          record {
            file = record { sized = length-put blank 0 kept ∙ blank_length; in_memory = small };
            sized = refl;
            old = λ i h lt.
                get_elem?-put_inside blank 0 kept i i
                  (omega (arith, blank_length, kept_length, count_size))
                  (ground (arith, kept_length, count_size)) (omega arith)
                ∙ get_elem?-take count (buffer f) i (ground (arith, count_size));
            zeros = λ i h lt.
                get_elem?-put_outside blank 0 kept i (ground (arith, kept_length, count_size))
                ∙ get_elem?-put_inside fresh 0 (replicate size 0) i i
                    (omega (arith, len, zeros_length)) (omega (arith, zeros_length)) (omega arith)
                ∙ get_elem?-replicate size 0 i lt;
          },
        )
  ]
