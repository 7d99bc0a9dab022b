-- ===== src/Base/Blocks.antt =====
-- Blocks of bytes: `memcpy` into a buffer, on lists (kernel/src/lib/mem.c).
use Prim.Native.Nat.{ℕ, zero, suc, ◌+◌, ◌<◌, ◌≤◌, max}
use mathlib.Core.Path.{◌≡◌, refl, ap}
use mathlib.Core.Logic.{◌⊎◌}
use mathlib.Core.List.{List, [], ◌∷◌}
use native.Mathlib.Omega.{arith}
use elysium_os.Base.Lists.{length, get_elem?, take, drop}

module _ {ℓ} {A : Type ℓ} where
  -- The bytes of `src` from `start` on; those that would lie behind the end are dropped.
  abbrev pub put : (dst : List A) (start : ℕ) (src : List A) → List A
  put [] start src = []
  put (d ∷ ds) zero [] = d ∷ ds
  put (d ∷ ds) zero (s ∷ ss) = s ∷ put ds zero ss
  put (d ∷ ds) (suc start) src = d ∷ put ds start src

  pub length-put :
      (dst : List A) (start : ℕ) (src : List A) → length (put dst start src) ≡ length dst
  length-put [] start src = refl
  length-put (d ∷ ds) zero [] = refl
  length-put (d ∷ ds) zero (s ∷ ss) = ap suc (length-put ds zero ss)
  length-put (d ∷ ds) (suc start) src = ap suc (length-put ds start src)

  pub get_elem?-put_inside :
      (dst : List A) (start : ℕ) (src : List A) (i k : ℕ)
      → start + length src ≤ length dst
      → i < length src
      → k ≡ start + i
      → get_elem? (put dst start src) k ≡ get_elem? src i
  get_elem?-put_inside [] start src i k fits lt e = absurd (omega arith)
  get_elem?-put_inside (d ∷ ds) zero [] i k fits lt e = absurd (omega arith)
  get_elem?-put_inside (d ∷ ds) zero (s ∷ ss) zero zero fits lt e = refl
  get_elem?-put_inside (d ∷ ds) zero (s ∷ ss) (suc i) zero fits lt e = absurd (omega arith)
  get_elem?-put_inside (d ∷ ds) zero (s ∷ ss) zero (suc k) fits lt e = absurd (omega arith)
  get_elem?-put_inside (d ∷ ds) zero (s ∷ ss) (suc i) (suc k) fits lt e =
      get_elem?-put_inside ds zero ss i k (omega arith) (omega arith) (omega arith)
  get_elem?-put_inside (d ∷ ds) (suc start) src i zero fits lt e = absurd (omega arith)
  get_elem?-put_inside (d ∷ ds) (suc start) src i (suc k) fits lt e =
      get_elem?-put_inside ds start src i k (omega arith) lt (omega arith)

  pub get_elem?-put_outside :
      (dst : List A) (start : ℕ) (src : List A) (i : ℕ)
      → (i < start) ⊎ (start + length src ≤ i)
      → get_elem? (put dst start src) i ≡ get_elem? dst i
  get_elem?-put_outside [] start src i out = refl
  get_elem?-put_outside (d ∷ ds) zero [] i out = refl
  get_elem?-put_outside (d ∷ ds) zero (s ∷ ss) zero out = absurd (ground arith)
  get_elem?-put_outside (d ∷ ds) zero (s ∷ ss) (suc i) out =
      get_elem?-put_outside ds zero ss i (ground arith)
  get_elem?-put_outside (d ∷ ds) (suc start) src zero out = refl
  get_elem?-put_outside (d ∷ ds) (suc start) src (suc i) out =
      get_elem?-put_outside ds start src i (ground arith)

  pub take-drop-put :
      (dst : List A) (start : ℕ) (src : List A)
      → start + length src ≤ length dst
      → take (length src) (drop start (put dst start src)) ≡ src
  take-drop-put [] zero [] fits = refl
  take-drop-put [] (suc start) [] fits = refl
  take-drop-put [] start (s ∷ ss) fits = absurd (omega arith)
  take-drop-put (d ∷ ds) zero [] fits = refl
  take-drop-put (d ∷ ds) zero (s ∷ ss) fits =
      ap (λ xs. s ∷ xs) (take-drop-put ds zero ss (omega arith))
  take-drop-put (d ∷ ds) (suc start) src fits = take-drop-put ds start src (omega arith)

  pub length-take : (n : ℕ) (xs : List A) → n ≤ length xs → length (take n xs) ≡ n
  length-take zero xs h = refl
  length-take (suc n) [] h = absurd (omega arith)
  length-take (suc n) (x ∷ xs) h = ap suc (length-take n xs (omega arith))

  pub get_elem?-take :
      (n : ℕ) (xs : List A) (i : ℕ) → i < n → get_elem? (take n xs) i ≡ get_elem? xs i
  get_elem?-take zero xs i h = absurd (omega arith)
  get_elem?-take (suc n) [] i h = refl
  get_elem?-take (suc n) (x ∷ xs) zero h = refl
  get_elem?-take (suc n) (x ∷ xs) (suc i) h = get_elem?-take n xs i (omega arith)

  -- What is left behind the block that was taken.
  pub drop-length-take : (n : ℕ) (xs : List A) → drop (length (take n xs)) xs ≡ drop n xs
  drop-length-take zero xs = refl
  drop-length-take (suc n) [] = refl
  drop-length-take (suc n) (x ∷ xs) = drop-length-take n xs

  pub drop-drop : (a b c : ℕ) (xs : List A) → c ≡ a + b → drop c xs ≡ drop b (drop a xs)
  drop-drop zero b c xs h = ap (λ n. drop n xs) (omega arith)
  drop-drop (suc a) b zero xs h = absurd (omega arith)
  drop-drop (suc a) zero (suc c) [] h = refl
  drop-drop (suc a) (suc b) (suc c) [] h = refl
  drop-drop (suc a) b (suc c) (x ∷ xs) h = drop-drop a b c xs (omega arith)

  pub length-take-drop :
      (n off : ℕ) (xs : List A) → off + length (take n (drop off xs)) ≤ max off (length xs)
  length-take-drop zero off xs = omega arith
  length-take-drop (suc n) zero [] = omega arith
  length-take-drop (suc n) zero (x ∷ xs) = let h = length-take-drop n 0 xs in omega arith
  length-take-drop (suc n) (suc off) [] = omega arith
  length-take-drop (suc n) (suc off) (x ∷ xs) =
      let h = length-take-drop (suc n) off xs in omega arith

  pub length-take_add :
      (n m k : ℕ) (xs : List A)
      → k ≡ n + m
      → length (take n xs) + length (take m (drop n xs)) ≡ length (take k xs)
  length-take_add zero m k xs h =
      let e : m ≡ k = omega arith in omega (arith, ap (λ n. length (take n xs)) e)
  length-take_add (suc n) m zero xs h = absurd (omega arith)
  length-take_add (suc n) zero (suc k) [] h = refl
  length-take_add (suc n) (suc m) (suc k) [] h = refl
  length-take_add (suc n) m (suc k) (x ∷ xs) h =
      let e = length-take_add n m k xs (omega arith) in omega arith

  pub get_elem?-drop :
      (n k i : ℕ) (xs : List A) → i ≡ n + k → get_elem? (drop n xs) k ≡ get_elem? xs i
  get_elem?-drop zero k i xs h = ap (get_elem? xs) (omega arith)
  get_elem?-drop (suc n) k zero xs h = absurd (omega arith)
  get_elem?-drop (suc n) k (suc i) [] h = refl
  get_elem?-drop (suc n) k (suc i) (x ∷ xs) h = get_elem?-drop n k i xs (omega arith)
