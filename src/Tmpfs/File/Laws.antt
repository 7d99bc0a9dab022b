-- ===== src/Tmpfs/File/Laws.antt =====
-- Reading and writing a file (kernel/src/fs/tmpfs.c), as operations on its contents.
use elysium_os.Base.{
  ℕ, ◌+◌, ◌-◌, ◌^◌, ◌<◌, ◌≤◌, ◌≡◌, ◌⊎◌, inl, inr, true, List, Option, none, some, length, get_elem?,
  take, drop, put, leb, ltb, if◌then◌else◌, add64, sub64, max, min, Run, ok, arith, refl, ap, sym,
  ◌∙◌, Bool-cases, length-put, get_elem?-put_inside, get_elem?-put_outside, take-drop-put,
  length-take, get_elem?-take,
}
use elysium_os.Tmpfs.File.{File, buffer, copy_to, copy_from, read, grow, stored, write}

pub record IsFile (f : File) : Type 0 where
  pub sized : length (buffer f) ≡ f.size
  pub in_memory : f.size < 2 ^ 64

pub copy_to-ok :
    (dst src : List ℕ) (start : ℕ)
    → start + length src ≤ length dst
    → copy_to dst start src ≡ ok (put dst start src)
unfolding copy_to
copy_to-ok dst src start fits =
    let within : leb (start + length src) (length dst) ≡ true = ground arith in
    simp (copy_to, within)

pub copy_from-ok :
    (src : List ℕ) (start count : ℕ)
    → start + count ≤ length src
    → copy_from src start count ≡ ok (take count (drop start src))
unfolding copy_from
copy_from-ok src start count fits =
    let within : leb (start + count) (length src) ≡ true = ground arith in simp (copy_from, within)

-- The bytes that a heap answers are as many as were asked for.
abbrev pub Gives : (ℕ → Run (List ℕ)) → ℕ → Type 0
Gives heap_alloc n = (fresh : List ℕ) × (heap_alloc n ≡ ok fresh) × (length fresh ≡ n)

-- What there is of the range that is asked for is read, always.
pub read-take :
    (f : File) (offset size : ℕ)
    → IsFile f
    → size < 2 ^ 64
    → offset < 2 ^ 64
    → read f offset size ≡ ok (take (min size (f.size - offset)) (drop offset (buffer f)))
unfolding read
read-take f offset size is small near = elim (Bool-cases (leb f.size offset)) [
  | inl past ↦
      let nothing : min size (f.size - offset) ≡ 0 = ground arith in simp (read, past, nothing)
  | inr within ↦
      let count : (if ltb size (sub64 f.size offset) then size else sub64 f.size offset)
          ≡ min size (f.size - offset) =
        ground (arith, is.in_memory) in
      simp (read, within, count)
        (copy_from-ok (buffer f) offset (min size (f.size - offset)) (ground (arith, is.sized)))
]

buffer-stored :
    (base : Option (List ℕ)) (size offset : ℕ) (bytes : List ℕ)
    → (buffer (
          stored
            (record { base = base; size = size })
            (put (buffer (record { base = base; size = size })) offset bytes))
        ≡ put (buffer (record { base = base; size = size })) offset bytes)
      × (File.size (
            stored
              (record { base = base; size = size })
              (put (buffer (record { base = base; size = size })) offset bytes))
          ≡ size)
buffer-stored none size offset bytes = (refl, refl)
buffer-stored (some old) size offset bytes = (refl, refl)

-- What a write of `bytes` makes of the contents.
pub record Written (f : File) (offset : ℕ) (bytes : List ℕ) (f' : File) : Type 0 where
  pub file : IsFile f'
  pub size : f'.size ≡ max f.size (offset + length bytes)
  pub inside : (i : ℕ) → i < length bytes → get_elem? (buffer f') (offset + i) ≡ get_elem? bytes i
  pub outside :
      (i : ℕ)
      → i < f.size
      → (i < offset) ⊎ (offset + length bytes ≤ i)
      → get_elem? (buffer f') i ≡ get_elem? (buffer f) i
  pub read_back : read f' offset (length bytes) ≡ ok bytes

module _ (heap_alloc : ℕ → Run (List ℕ)) (f : File) (is : IsFile f) where
  -- A file with larger contents that begin with the old ones.
  record Grown (size : ℕ) (f' : File) : Type 0 where
    has_base : (bytes : List ℕ) × (f' ≡ record { base = some bytes; size = size })
    sized : length (buffer f') ≡ size
    old : (i : ℕ) → i < f.size → get_elem? (buffer f') i ≡ get_elem? (buffer f) i

  grow-Grown :
      (size : ℕ)
      → f.size ≤ size
      → Gives heap_alloc size
      → (f' : File) × (grow heap_alloc f size ≡ ok f') × Grown size f'
  unfolding grow
  grow-Grown size larger (fresh, eq, len) =
      let old = take f.size (buffer f) in
      let old_length : length old ≡ f.size =
        length-take f.size (buffer f) (omega (arith, is.sized)) in
      (
        record { base = some (put fresh 0 old); size = size },
        simp (
          grow,
          eq,
          copy_from-ok (buffer f) 0 f.size (omega (arith, is.sized)),
          copy_to-ok fresh old 0 (omega (arith, old_length)),
        ),
        record {
          has_base = (put fresh 0 old, refl);
          sized = length-put fresh 0 old ∙ len;
          old = λ i h.
              get_elem?-put_inside fresh 0 old i i (omega (arith, old_length))
                (omega (arith, old_length)) (omega arith)
              ∙ get_elem?-take f.size (buffer f) i h;
        },
      )

  -- The last step of a write, in a file that is large enough.
  stored-Written :
      (g : File) (offset : ℕ) (bytes : List ℕ)
      → length (buffer g) ≡ g.size
      → g.size ≡ max f.size (offset + length bytes)
      → g.size < 2 ^ 64
      → ((i : ℕ) → i < f.size → get_elem? (buffer g) i ≡ get_elem? (buffer f) i)
      → Written f offset bytes (stored g (put (buffer g) offset bytes))
  stored-Written g offset bytes sized size small old =
      let (contents, size_kept) = buffer-stored g.base g.size offset bytes in
      let room : offset + length bytes ≤ length (buffer g) = omega (arith, sized, size) in
      let file : IsFile (stored g (put (buffer g) offset bytes)) = record {
        sized = ap length contents ∙ length-put (buffer g) offset bytes ∙ sized ∙ sym size_kept;
        in_memory = omega (arith, size_kept);
      } in
      record {
        file = file;
        size = size_kept ∙ size;
        inside = λ i h.
            ap (λ b. get_elem? b (offset + i)) contents
            ∙ get_elem?-put_inside (buffer g) offset bytes i (offset + i) room h refl;
        outside = λ i h out.
            ap (λ b. get_elem? b i) contents
            ∙ get_elem?-put_outside (buffer g) offset bytes i out
            ∙ old i h;
        read_back =
            read-take (stored g (put (buffer g) offset bytes)) offset (length bytes) file
              (omega (arith, sized)) (omega (arith, sized))
            ∙ ap (λ n. ok (take n (drop offset (buffer (stored g (put (buffer g) offset bytes))))))
                (omega (arith, size_kept, size))
            ∙ ap (λ b. ok (take (length bytes) (drop offset b))) contents
            ∙ ap ok (take-drop-put (buffer g) offset bytes room);
      }

  -- Writing into a well-formed file a range whose end is below 2^64 returns, if the heap has memory when
  -- the file has to grow. The file then is as large as it was or as the end of the write, the range holds the bytes, the rest
  -- is as it was, and reading the range gives the bytes back.
  pub write-Written :
      (offset : ℕ) (bytes : List ℕ)
      → offset + length bytes < 2 ^ 64
      → (f.size < offset + length bytes → Gives heap_alloc (offset + length bytes))
      → (f' : File) × (write heap_alloc f offset bytes ≡ ok f') × Written f offset bytes f'
  unfolding write
  write-Written offset bytes small gives =
      let sum : add64 offset (length bytes) ≡ offset + length bytes = omega arith in
      elim (Bool-cases (ltb f.size (offset + length bytes))) [
        | inl grows ↦
            let (g, eq, grown) =
              grow-Grown (offset + length bytes) (ground arith) (gives (ground arith)) in
            let (buf, e) = grown.has_base in
            let size : g.size ≡ offset + length bytes = ap (λ h. h.size) e in
            (
              stored g (put (buffer g) offset bytes),
              simp (
                write,
                sum,
                grows,
                eq,
                copy_to-ok (buffer g) bytes offset (omega (arith, grown.sized)),
              ),
              stored-Written g offset bytes (grown.sized ∙ sym size) (ground arith) (omega arith)
                  grown.old,
            )
        | inr fits ↦ (
          stored f (put (buffer f) offset bytes),
          simp (write, sum, fits, copy_to-ok (buffer f) bytes offset (ground (arith, is.sized))),
          stored-Written f offset bytes is.sized (ground arith) is.in_memory (λ i h. refl),
        )
      ]
