-- ===== src/Pmm/Blocks/Cover.antt =====
-- How often the blocks in the lists of kernel/src/memory/pmm.c cover a page.
use elysium_os.Base.{
  ℕ, zero, suc, ◌+◌, ◌^◌, ◌≤◌, ◌<◌, ◌≡◌, ◌≢◌, ◌⊎◌, inl, inr, Bool, true, false, ◌&&◌, List, [], ◌∷◌,
  some, length, get_elem?, set, leb, ltb, ◌==◌, arith, refl, ap, sym, subst, ◌∙◌, Bool-cases,
  some-eq, get_elem?-set_self, get_elem?-set_ne,
}
use elysium_os.Pmm.{Ref}
use native.Mathlib.Nat.{pow-succ'}

abbrev pub bit : Bool → ℕ
bit true = 1
bit false = 0

-- Whether the block of the order `order` at `ref` has the page `i` of the region `r`, as a number.
unfoldable pub inside : (order : ℕ) → Ref → (r i : ℕ) → ℕ
inside order ref r i = bit ((ref.region == r) && (leb ref.index i && ltb i (ref.index + 2 ^ order)))

-- The number of blocks of a list, of the lists from `order` on, and of blocks with their orders, that
-- have the page.
abbrev pub cover_refs : (order : ℕ) → List Ref → (r i : ℕ) → ℕ
cover_refs order [] r i = 0
cover_refs order (ref ∷ refs) r i = inside order ref r i + cover_refs order refs r i

abbrev pub cover_lists : (order : ℕ) → List (List Ref) → (r i : ℕ) → ℕ
cover_lists order [] r i = 0
cover_lists order (refs ∷ lists) r i = cover_refs order refs r i + cover_lists (suc order) lists r i

abbrev pub cover_blocks : List (ℕ × Ref) → (r i : ℕ) → ℕ
cover_blocks [] r i = 0
cover_blocks ((order, ref) ∷ blocks) r i = inside order ref r i + cover_blocks blocks r i

abbrev pub Among {ℓ} : {A : Type ℓ} → A → List A → Type ℓ
Among x xs = (k : ℕ) × (get_elem? xs k ≡ some x)

pub Among-cases {ℓ} : {A : Type ℓ} (x y : A) (ys : List A) → Among x (y ∷ ys) → (y ≡ x) ⊎ Among x ys
Among-cases x y ys (zero, h) = inl (some-eq h)
Among-cases x y ys (suc k, h) = inr (k, h)

abbrev pub Listed : List (List Ref) → (order : ℕ) → Ref → Type 0
Listed lists order ref = (refs : List Ref) × (get_elem? lists order ≡ some refs) × Among ref refs

pub inside-bound : (o : ℕ) (ref : Ref) (r i : ℕ) → inside o ref r i ≤ 1
unfolding inside
inside-bound o ref r i =
    elim (Bool-cases ((ref.region == r) && (leb ref.index i && ltb i (ref.index + 2 ^ o)))) [
      | inl h ↦ omega (arith, ap bit h)
      | inr h ↦ omega (arith, ap bit h)
    ]

abbrev pub Inside : (o : ℕ) → Ref → (r i : ℕ) → Type 0
Inside o ref r i = (ref.region ≡ r) × (ref.index ≤ i) × (i < ref.index + 2 ^ o)

pub inside-in : (o : ℕ) (ref : Ref) (r i : ℕ) → Inside o ref r i → inside o ref r i ≡ 1
unfolding inside
inside-in o ref r i (e, low, high) =
    let h : ((ref.region == r) && (leb ref.index i && ltb i (ref.index + 2 ^ o))) ≡ true =
      ground arith in
    ap bit h

pub inside-cases : (o : ℕ) (ref : Ref) (r i : ℕ) → Inside o ref r i ⊎ (inside o ref r i ≡ 0)
unfolding inside
inside-cases o ref r i =
    elim (Bool-cases ((ref.region == r) && (leb ref.index i && ltb i (ref.index + 2 ^ o)))) [
      | inl h ↦ inl (ground arith, ground arith, ground arith)
      | inr h ↦ inr (ap bit h)
    ]

-- A block is its lower and its upper half.
pub inside-halves :
    (o : ℕ) (ref : Ref) (r i : ℕ)
    → inside (suc o) ref r i
      ≡ inside o ref r i + inside o (record ref { index = ref.index + 2 ^ o }) r i
unfolding inside
inside-halves o ref r i =
    let e : 2 ^ suc o ≡ 2 ^ o + 2 ^ o = omega (arith, pow-succ' 2 o) in ground (arith, e)

pub cover_lists-set :
    (lists : List (List Ref)) (k o n : ℕ) (old new : List Ref) (r i : ℕ)
    → get_elem? lists k ≡ some old
    → n ≡ o + k
    → cover_lists o (set lists k new) r i + cover_refs n old r i
      ≡ cover_lists o lists r i + cover_refs n new r i
cover_lists-set [] k o n old new r i h e = absurd (ground arith)
cover_lists-set (refs ∷ lists) zero o n old new r i h e =
    let same : refs ≡ old = some-eq h in
    let there : n ≡ o = omega arith in
    omega (
      arith,
      ap (λ refs. cover_refs o refs r i) same,
      ap (λ n. cover_refs n old r i) there,
      ap (λ n. cover_refs n new r i) there,
    )
cover_lists-set (refs ∷ lists) (suc k) o n old new r i h e =
    omega (arith, cover_lists-set lists k (suc o) n old new r i h (omega arith))

pub Among-cover :
    (o : ℕ) (ref : Ref) (refs : List Ref) (r i : ℕ)
    → Among ref refs
    → inside o ref r i ≤ cover_refs o refs r i
Among-cover o ref [] r i (k, h) = absurd (ground arith)
Among-cover o ref (x ∷ refs) r i (zero, h) = omega (arith, ap (λ ref. inside o ref r i) (some-eq h))
Among-cover o ref (x ∷ refs) r i (suc k, h) = omega (arith, Among-cover o ref refs r i (k, h))

pub Listed-cover :
    (lists : List (List Ref)) (k o n : ℕ) (ref : Ref) (r i : ℕ)
    → Listed lists k ref
    → n ≡ o + k
    → inside n ref r i ≤ cover_lists o lists r i
Listed-cover [] k o n ref r i (refs, h, a) e = absurd (ground arith)
Listed-cover (refs' ∷ lists) zero o n ref r i (refs, h, a) e =
    let same : refs' ≡ refs = some-eq h in
    let there : n ≡ o = omega arith in
    omega (
      arith,
      Among-cover n ref refs r i a,
      ap (λ refs. cover_refs o refs r i) same,
      ap (λ n. cover_refs n refs r i) there,
    )
Listed-cover (refs' ∷ lists) (suc k) o n ref r i (refs, h, a) e =
    omega (arith, Listed-cover lists k (suc o) n ref r i (refs, h, a) (omega arith))

pub taken-cover :
    (o : ℕ) (ref : Ref) (blocks : List (ℕ × Ref)) (r i : ℕ)
    → Among (o, ref) blocks
    → inside o ref r i ≤ cover_blocks blocks r i
taken-cover o ref [] r i (k, h) = absurd (ground arith)
taken-cover o ref ((o', ref') ∷ blocks) r i (zero, h) =
    omega (arith, ap (λ b. inside (b.0) (b.1) r i) (some-eq h))
taken-cover o ref ((o', ref') ∷ blocks) r i (suc k, h) =
    omega (arith, taken-cover o ref blocks r i (k, h))

cover_refs-found :
    (o : ℕ) (refs : List Ref) (r i : ℕ)
    → 0 < cover_refs o refs r i
    → (ref : Ref) × Among ref refs × Inside o ref r i
cover_refs-found o [] r i h = absurd (omega arith)
cover_refs-found o (ref ∷ refs) r i h = elim (inside-cases o ref r i) [
  | inl there ↦ (ref, (0, refl), there)
  | inr out ↦
      let (ref', (k, a), there) = cover_refs-found o refs r i (omega arith) in
      (ref', (suc k, a), there)
]

-- A page that is covered is in a block.
pub cover_lists-found :
    (lists : List (List Ref)) (o : ℕ) (r i : ℕ)
    → 0 < cover_lists o lists r i
    → (k : ℕ) × (ref : Ref) × Listed lists k ref × Inside (o + k) ref r i
cover_lists-found [] o r i h = absurd (omega arith)
cover_lists-found (refs ∷ lists) o r i h = elim (Bool-cases (ltb 0 (cover_refs o refs r i))) [
  | inl here ↦
      let (ref, a, there) = cover_refs-found o refs r i (ground arith) in
      (0, ref, (refs, refl, a), subst (λ n. Inside n ref r i) (omega arith) there)
  | inr later ↦
      let (k, ref, l, there) = cover_lists-found lists (suc o) r i (ground arith) in
      (suc k, ref, l, subst (λ n. Inside n ref r i) (omega arith) there)
]

pub cover_blocks-found :
    (blocks : List (ℕ × Ref)) (r i : ℕ)
    → 0 < cover_blocks blocks r i
    → (o : ℕ) × (ref : Ref) × Among (o, ref) blocks × Inside o ref r i
cover_blocks-found [] r i h = absurd (omega arith)
cover_blocks-found ((o, ref) ∷ blocks) r i h = elim (inside-cases o ref r i) [
  | inl there ↦ (o, ref, (0, refl), there)
  | inr out ↦
      let (o', ref', (k, a), there) = cover_blocks-found blocks r i (omega arith) in
      (o', ref', (suc k, a), there)
]

-- What is in the lists after a change of one of them.
pub Listed-set :
    (lists : List (List Ref)) (k : ℕ) (new : List Ref) (o : ℕ) (ref : Ref)
    → k < length lists
    → Listed (set lists k new) o ref
    → ((o ≡ k) × Among ref new) ⊎ Listed lists o ref
Listed-set lists k new o ref fits (refs, h, a) = elim (Bool-cases (o == k)) [
  | inl same ↦
      let e : o ≡ k = ground arith in
      let e' : get_elem? (set lists k new) k ≡ some refs =
        subst (λ n. get_elem? (set lists k new) n ≡ some refs) e h in
      inl (e, subst (Among ref) (some-eq (sym e' ∙ get_elem?-set_self lists k new fits)) a)
  | inr other ↦
      let ne : k ≢ o = λ e. ground arith in inr (refs, sym (get_elem?-set_ne lists new ne) ∙ h, a)
]
