-- ===== src/Pmm/Blocks/Moves.antt =====
-- The steps of `pmm_alloc` and `pmm_free` (kernel/src/memory/pmm.c) as moves of blocks between the
-- lists, the allocated ones and those in hand.
use elysium_os.Base.{
  ℕ, suc, ◌+◌, ◌*◌, ◌^◌, ◌≤◌, ◌<◌, ◌≡◌, ◌≢◌, ◌⊎◌, inl, inr, true, false, List, [], ◌∷◌, some,
  length, get_elem?, get_or, set, arith, refl, ap, ap₂, sym, subst, ◌∙◌, some-eq, get_elem?-lt,
  length-set, get_elem?-some, get_or-some,
}
use elysium_os.Pmm.{Ref, Page, Region, used_pages, with_page}
use elysium_os.Pmm.Blocks.{Blocks, push}
use elysium_os.Pmm.Blocks.Cover.{
  inside, cover_refs, cover_lists, cover_blocks, Among, Among-cases, Listed, cover_lists-set,
  Listed-cover, taken-cover, Listed-set,
}
use elysium_os.Pmm.Blocks.Tiling.{
  IsPlaced, InPlace, IsHead, Tiled, given, pow_pos, inside_self, apart, set-cases, page-cases,
  InPlace-write, IsHead-write, IsHead-written,
}

abbrev pub written : Blocks → Ref → Region → Page → Blocks
written b ref g q = record b { regions = set b.regions ref.region (with_page g ref.index q) }

ref-eq :
    {r i : ℕ} {ref : Ref}
    → r ≡ ref.region
    → i ≡ ref.index
    → Path Ref (record { region = r; index = i }) ref
ref-eq {ref = ref} e e' = ap₂ (λ r i. record { region = r; index = i }) e e'

module _ {z : ℕ} {b : Blocks} {A H : List (ℕ × Ref)} where
  -- A listed block does not begin at a page of a block in hand, nor does an allocated one.
  Listed-apart :
      Tiled z b A H
      → (ref : Ref) (g : Region) (k : ℕ) (ref' : Ref) → get_elem? b.regions ref.region ≡ some g
      → 1 ≤ cover_blocks A ref.region ref.index + cover_blocks H ref.region ref.index
      → Listed b.lists k ref'
      → ref'.region ≡ ref.region
      → ref'.index ≢ ref.index
  Listed-apart t ref g k ref' there held l e e' =
      let one : inside k ref' ref.region ref.index ≡ 1 =
        subst (λ r. inside k ref' r ref.index ≡ 1) e
          (subst (λ i. inside k ref' ref'.region i ≡ 1) e' (inside_self k ref')) in
      absurd (
        omega (
          arith,
          one,
          Listed-cover b.lists k 0 k ref' ref.region ref.index l (omega arith),
          apart t ref.region g ref.index there,
        ))

  taken-apart :
      Tiled z b A H
      → (ref : Ref) (g : Region) (k : ℕ) (ref' : Ref) → get_elem? b.regions ref.region ≡ some g
      → 1 ≤ cover_blocks H ref.region ref.index
      → Among (k, ref') A
      → ref'.region ≡ ref.region
      → ref'.index ≢ ref.index
  taken-apart t ref g k ref' there held a e e' =
      let one : inside k ref' ref.region ref.index ≡ 1 =
        subst (λ r. inside k ref' r ref.index ≡ 1) e
          (subst (λ i. inside k ref' ref'.region i ≡ 1) e' (inside_self k ref')) in
      absurd (
        omega (
          arith,
          one,
          taken-cover k ref' A ref.region ref.index a,
          apart t ref.region g ref.index there,
        ))

  -- A write to a page of a block that is allocated or in hand, and a move between the two.
  pub write_moved :
      Tiled z b A H
      → (A' H' : List (ℕ × Ref)) (ref : Ref) (g : Region) (q : Page)
      → get_elem? b.regions ref.region ≡ some g
      → 1 ≤ cover_blocks A ref.region ref.index + cover_blocks H ref.region ref.index
      → ((r i : ℕ)
          → cover_blocks A' r i + cover_blocks H' r i ≡ cover_blocks A r i + cover_blocks H r i)
      → ((k : ℕ) (ref' : Ref)
          → Among (k, ref') A'
          → IsHead (written b ref g q).regions k ref' false)
      → ((k : ℕ) (ref' : Ref) → Among (k, ref') H' → InPlace b.regions k ref')
      → (q.free ≡ true) ⊎ ((k : ℕ) × Among (k, ref) A')
      → ((k : ℕ) (ref' : Ref)
          → ((ref'.region ≡ ref.region) → ref'.index ≢ ref.index)
          → Among (k, ref') A
          → Among (k, ref') A')
      → Tiled z (written b ref g q) A' H'
  write_moved t A' H' ref g q there held counts taken hand here elsewhere =
      let lt = get_elem?-lt b.regions ref.region g there in
      let g' = with_page g ref.index q in
      record {
        eight = t.eight;
        paged = λ r h e. elim (set-cases b.regions ref.region g' r h lt e) [
          | inl (e, e') ↦
              ap (λ g. length g.pages) e'
              ∙ length-set g.pages ref.index q
              ∙ t.paged ref.region g there
              ∙ sym (ap (λ g. g.page_count) e')
          | inr (ne, e) ↦ t.paged r h e
        ];
        bounded = λ r h e. elim (set-cases b.regions ref.region g' r h lt e) [
          | inl (e, e') ↦
              subst (λ g. g.base + g.page_count * 4096 < 2 ^ 64) (sym e')
                (t.bounded ref.region g there)
          | inr (ne, e) ↦ t.bounded r h e
        ];
        tiled = λ r h e i.
            let same : cover_lists 0 b.lists r i + (cover_blocks A' r i + cover_blocks H' r i)
                ≡ cover_lists 0 b.lists r i + (cover_blocks A r i + cover_blocks H r i) =
              ap (λ n. cover_lists 0 b.lists r i + n) (counts r i) in
            elim (set-cases b.regions ref.region g' r h lt e) [
              | inl (e, e') ↦
                  same
                  ∙ t.tiled r g (ap (get_elem? b.regions) e ∙ there) i
                  ∙ sym (ap (λ g. given z g i) e')
              | inr (ne, e) ↦ same ∙ t.tiled r h e i
            ];
        heads = λ k ref' l.
            IsHead-write b.regions ref.region ref.index g q k ref' true there
              (Listed-apart t ref g k ref' there held l) (t.heads k ref' l);
        taken = taken;
        hand = λ k ref' a.
            InPlace-write b.regions ref.region ref.index g q k ref' there (hand k ref' a);
        idle = λ r h i p e page low.
            elim (page-cases b.regions ref.region ref.index g q r h i p there e page) [
              | inl (e, e', e'') ↦ elim here [
                | inl free ↦ inl (ap (λ p. p.free) e'' ∙ free)
                | inr (k, a) ↦ inr (k, subst (λ ref. Among (k, ref) A') (sym (ref-eq e e')) a)
              ]
              | inr (ne, (h', e, page, n)) ↦
                  elim (t.idle r h' i p e page (subst (λ n. used_pages n ≤ i) (sym n) low)) [
                    | inl free ↦ inl free
                    | inr (k, a) ↦ inr (k, elsewhere k (record { region = r; index = i }) ne a)
                  ]
            ];
      }

  -- Writing to a page of a block in hand.
  pub write_page :
      Tiled z b A H
      → (ref : Ref) (g : Region) (q : Page) → get_elem? b.regions ref.region ≡ some g
      → 1 ≤ cover_blocks H ref.region ref.index
      → q.free ≡ true
      → Tiled z (written b ref g q) A H
  write_page t ref g q there held free =
      write_moved t A H ref g q there (omega arith) (λ r i. refl)
        (λ k ref' a.
          IsHead-write b.regions ref.region ref.index g q k ref' false there
            (taken-apart t ref g k ref' there held a) (t.taken k ref' a))
        t.hand (inl free) (λ k ref' ne a. a)

-- `refs` is `refs'` and the block at `ref`.
pub record Without (ref : Ref) (refs refs' : List Ref) : Type 0 where
  pub there : Among ref refs
  pub fewer : (x : Ref) → Among x refs' → Among x refs
  pub counted : (n r i : ℕ) → cover_refs n refs r i ≡ inside n ref r i + cover_refs n refs' r i

-- A block of a list is taken in hand.
pub take_out :
    {z : ℕ} {b : Blocks} {A H : List (ℕ × Ref)}
    → Tiled z b A H
    → (o : ℕ) (ref : Ref) (refs refs' : List Ref) → get_elem? b.lists o ≡ some refs
    → Without ref refs refs'
    → Tiled z (record b { lists = set b.lists o refs' }) A ((o, ref) ∷ H)
take_out {b = b} {H = H} t o ref refs refs' h without = record {
  eight = length-set b.lists o refs' ∙ t.eight;
  paged = t.paged;
  bounded = t.bounded;
  tiled = λ r g e i. omega (
    arith,
    t.tiled r g e i,
    cover_lists-set b.lists o 0 o refs refs' r i h (omega arith),
    without.counted o r i,
  );
  heads = λ k ref' l. elim (Listed-set b.lists o refs' k ref' (get_elem?-lt b.lists o refs h) l) [
    | inl (e, a) ↦ t.heads k ref' (refs, ap (get_elem? b.lists) e ∙ h, without.fewer ref' a)
    | inr l ↦ t.heads k ref' l
  ];
  taken = t.taken;
  hand = λ k ref' a. elim (Among-cases (k, ref') (o, ref) H a) [
    | inl e ↦
        let head = t.heads o ref (refs, h, without.there) in
        subst (λ x. InPlace b.regions (x.0) (x.1)) e
          (record { region = head.region; there = head.there; placed = head.placed })
    | inr a ↦ t.hand k ref' a
  ];
  idle = t.idle;
}

-- A block in hand whose page says what it is goes into its list.
pub put_back :
    {z : ℕ} {b : Blocks} {A H : List (ℕ × Ref)} (o : ℕ) (ref : Ref)
    → Tiled z b A ((o, ref) ∷ H)
    → IsHead b.regions o ref true
    → Tiled z (record b { lists = push o ref b.lists }) A H
put_back {b = b} o ref t head =
    let fits : o < length b.lists = omega (arith, t.eight, head.placed.small) in
    let (refs, h) = get_elem?-some b.lists o fits in
    let new : get_or b.lists o [] ≡ refs = get_or-some b.lists o [] refs h in
    record {
      eight = length-set b.lists o (ref ∷ get_or b.lists o []) ∙ t.eight;
      paged = t.paged;
      bounded = t.bounded;
      tiled = λ r g e i. omega (
        arith,
        t.tiled r g e i,
        cover_lists-set b.lists o 0 o refs (ref ∷ get_or b.lists o []) r i h (omega arith),
        ap (λ refs. cover_refs o refs r i) new,
      );
      heads = λ k ref' l. elim (Listed-set b.lists o (ref ∷ get_or b.lists o []) k ref' fits l) [
        | inl (e, a) ↦ elim (Among-cases ref' ref (get_or b.lists o []) a) [
          | inl e' ↦
              subst (λ k. IsHead b.regions k ref' true) (sym e)
                (subst (λ r. IsHead b.regions o r true) e' head)
          | inr a ↦ t.heads k ref' (refs, ap (get_elem? b.lists) e ∙ h, subst (Among ref') new a)
        ]
        | inr l ↦ t.heads k ref' l
      ];
      taken = t.taken;
      hand = λ k ref' (n, e). t.hand k ref' (suc n, e);
      idle = t.idle;
    }

-- The block in hand is handed out: its page is marked.
pub hand_out :
    {z : ℕ} {b : Blocks} {A : List (ℕ × Ref)} (o : ℕ) (ref : Ref) (g : Region)
    → Tiled z b A ((o, ref) ∷ [])
    → get_elem? b.regions ref.region ≡ some g
    → Tiled z (written b ref g (record { order = o; free = false })) ((o, ref) ∷ A) []
hand_out {z = z} {b = b} {A = A} o ref g t there =
    let held : 1 ≤ cover_blocks ((o, ref) ∷ []) ref.region ref.index =
      omega (arith, inside_self o ref) in
    let place = t.hand o ref (0, refl) in
    let same : place.region ≡ g = some-eq (sym place.there ∙ there) in
    let placed : IsPlaced g o ref.index = subst (λ g. IsPlaced g o ref.index) same place.placed in
    let fits : ref.index < length g.pages =
      omega (arith, t.paged ref.region g there, placed.high, pow_pos o) in
    write_moved t ((o, ref) ∷ A) [] ref g (record { order = o; free = false }) there (omega arith)
      (λ r i. omega arith)
      (λ k ref' a. elim (Among-cases (k, ref') (o, ref) A a) [
        | inl e ↦
            subst
              (λ x.
                IsHead
                  (set b.regions ref.region
                    (with_page g ref.index (record { order = o; free = false })))
                  (x.0) (x.1) false)
              e (IsHead-written b.regions g o ref false there fits placed)
        | inr a ↦
            IsHead-write b.regions ref.region ref.index g (record { order = o; free = false }) k
              ref' false there (taken-apart t ref g k ref' there held a) (t.taken k ref' a)
      ])
      (λ k ref' (n, e). absurd (ground (arith, e))) (inr (o, (0, refl)))
      (λ k ref' ne (n, e). (suc n, e))

-- An allocated block is taken back in hand: its page is marked free.
pub hand_in :
    {z : ℕ} {b : Blocks} {A : List (ℕ × Ref)} (o : ℕ) (ref : Ref) (g : Region)
    → Tiled z b ((o, ref) ∷ A) []
    → get_elem? b.regions ref.region ≡ some g
    → Tiled z (written b ref g (record { order = o; free = true })) A ((o, ref) ∷ [])
      × IsHead (written b ref g (record { order = o; free = true })).regions o ref true
hand_in {z = z} {b = b} {A = A} o ref g t there =
    let head = t.taken o ref (0, refl) in
    let same : head.region ≡ g = some-eq (sym head.there ∙ there) in
    let placed : IsPlaced g o ref.index = subst (λ g. IsPlaced g o ref.index) same head.placed in
    let fits : ref.index < length g.pages =
      omega (arith, t.paged ref.region g there, placed.high, pow_pos o) in
    let one = inside_self o ref in
    let away : (k : ℕ) (ref' : Ref)
        → Among (k, ref') A
        → (ref'.region ≡ ref.region)
        → ref'.index ≢ ref.index =
      λ k ref' a e e'.
        let two : inside k ref' ref.region ref.index ≡ 1 =
          subst (λ r. inside k ref' r ref.index ≡ 1) e
            (subst (λ i. inside k ref' ref'.region i ≡ 1) e' (inside_self k ref')) in
        omega (
          arith,
          one,
          two,
          taken-cover k ref' A ref.region ref.index a,
          apart t ref.region g ref.index there,
        ) in
    (
      write_moved t A ((o, ref) ∷ []) ref g (record { order = o; free = true }) there (omega arith)
          (λ r i. omega arith)
          (λ k ref' a.
            IsHead-write b.regions ref.region ref.index g (record { order = o; free = true }) k ref'
              false there (away k ref' a) (t.taken k ref' (suc (a.0), a.1)))
          (λ k ref' a. elim (Among-cases (k, ref') (o, ref) [] a) [
            | inl e ↦
                subst (λ x. InPlace b.regions (x.0) (x.1)) e
                  (record { region = g; there = there; placed = placed })
            | inr (n, e) ↦ absurd (ground (arith, e))
          ])
          (inl refl)
          (λ k ref' ne a. elim (Among-cases (k, ref') (o, ref) A a) [
            | inl e ↦ absurd (ne (sym (ap (λ x. (x.1).region) e)) (sym (ap (λ x. (x.1).index) e)))
            | inr a ↦ a
          ]),
      IsHead-written b.regions g o ref true there fits placed,
    )
