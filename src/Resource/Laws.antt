-- ===== src/Resource/Laws.antt =====
-- What the functions on the table of open files (kernel/src/sched/resource.c) promise.
use elysium_os.Base.{
  Result, done, failed, emfile, ebadf, ℕ, zero, suc, ◌+◌, ◌<◌, ◌≡◌, ◌≢◌, ◌⊎◌, inl, inr, true, false,
  Bool, panic, List, Bool-cases, ok-injective, [], ◌∷◌, Option, none, some, length, get_elem?, set,
  leb, ok, arith, refl, ap, sym, subst, length-set, get_elem?-set_self, get_elem?-set_ne,
  get_elem?-some, Option-cases, lt→ltb, ◌∙◌, some-eq,
}
use elysium_os.Resource.{
  Mode, Resource, Table, ℤ, pos, negsuc, find_free, resource_create, resource_remove, resource_get,
}

module _ {Node : Type 0} where
  pub record IsTable (t : Table Node) : Type 0 where
    pub counted : length t.resources ≡ t.count

  -- the cell is in use
  abbrev Used : List (Option (Resource Node)) → ℕ → Type 0
  Used cells i = (r : Resource Node) × (get_elem? cells i ≡ some (some r))

  -- the identifier is in use
  abbrev pub IsOpen : Table Node → ℕ → Type 0
  IsOpen t i = (r : Resource Node) × (resource_get t (pos i) ≡ ok (some r))

  Used-suc :
      (cells : List (Option (Resource Node))) (r : Resource Node) (n : ℕ)
      → ((i : ℕ) → i < n → Used cells i)
      → (i : ℕ) → i < suc n
      → Used (some r ∷ cells) i
  Used-suc cells r n h zero lt = (r, refl)
  Used-suc cells r n h (suc i) lt = h i (omega arith)

  find_free-scan :
      (cells : List (Option (Resource Node))) (id : ℕ)
      → ((find_free (length cells) id cells ≡ ok none)
          × ((i : ℕ) → i < length cells → Used cells i))
        ⊎ ((j : ℕ) × (find_free (length cells) id cells ≡ ok (some (id + j)))
            × (get_elem? cells j ≡ some none)
            × (j < length cells)
            × ((i : ℕ) → i < j → Used cells i))
  unfolding find_free
  find_free-scan [] id = inl (refl, λ i h. absurd (omega arith))
  find_free-scan (none ∷ cells) id =
      inr (0, ap (λ n. ok (some n)) (omega arith), refl, omega arith, λ i h. absurd (omega arith))
  find_free-scan (some r ∷ cells) id = elim (find_free-scan cells (suc id)) [
    | inl (eq, used) ↦ inl (eq, Used-suc cells r (length cells) used)
    | inr (j, eq, free, fits, used) ↦ inr (
      suc j,
      eq ∙ ap (λ n. ok (some n)) (omega arith),
      free,
      omega arith,
      Used-suc cells r j used,
    )
  ]

  resource_get-cell :
      (t : Table Node) (i : ℕ) (cell : Option (Resource Node))
      → IsTable t
      → i < t.count
      → get_elem? t.resources i ≡ some cell
      → resource_get t (pos i) ≡ ok cell
  unfolding resource_get
  resource_get-cell t i cell is fits h =
      let within : leb t.count i ≡ false = ground arith in simp (within, h)

  resource_get-same :
      (t t' : Table Node) (i : ℕ)
      → t.count ≡ t'.count
      → get_elem? t.resources i ≡ get_elem? t'.resources i
      → resource_get t' (pos i) ≡ resource_get t (pos i)
  unfolding resource_get
  resource_get-same t t' i e h = simp (e, h)

  set-restore :
      (cells : List (Option (Resource Node))) (j : ℕ) (r : Option (Resource Node))
      → get_elem? cells j ≡ some none
      → set (set cells j r) j none ≡ cells
  set-restore [] j r h = refl
  set-restore (c ∷ cells) zero r h = ap (λ c'. c' ∷ cells) (sym (some-eq h))
  set-restore (c ∷ cells) (suc j) r h = ap (λ cs. c ∷ cs) (set-restore cells j r h)

  resource_create-full :
      (room : Bool) (t : Table Node) (node : Node) (offset : ℕ) (mode : Mode)
      → find_free t.count 0 t.resources ≡ ok none
      → resource_create room t node offset mode ≡ ok (failed emfile, t)
  unfolding resource_create
  resource_create-full room t node offset mode h = rw (resource_create, h) refl

  resource_create-at :
      (room : Bool) (t : Table Node) (node : Node) (offset : ℕ) (mode : Mode) (j : ℕ)
      → find_free t.count 0 t.resources ≡ ok (some j)
      → j < length t.resources
      → room ≡ true
      → resource_create room t node offset mode
        ≡ ok (
          done j,
          record t {
            resources =
                set t.resources j (some (record { node = node; offset = offset; mode = mode }));
          },
        )
  unfolding resource_create
  resource_create-at room t node offset mode j h fits fitting =
      simp (resource_create, h, fitting, lt→ltb j (length t.resources) fits)

  resource_create-panic :
      (room : Bool) (t : Table Node) (node : Node) (offset : ℕ) (mode : Mode) (j : ℕ)
      → find_free t.count 0 t.resources ≡ ok (some j)
      → room ≡ false
      → resource_create room t node offset mode ≡ panic
  unfolding resource_create
  resource_create-panic room t node offset mode j h full = simp (resource_create, h, full)

  -- What follows of `resource_create` for the answer `a` and the table after it, `t'`.
  abbrev pub Created : Table Node → Resource Node → Result ℕ → Table Node → Type 0
  Created t r (failed e) t' = (e ≡ emfile) × (t' ≡ t) × ((i : ℕ) → i < t.count → IsOpen t i)
  Created t r (done id) t' =
      (id < t.count)
      × (resource_get t (pos id) ≡ ok none)
      × ((i : ℕ) → i < id → IsOpen t i)
      × (resource_get t' (pos id) ≡ ok (some r))
      × ((i : ℕ) → i ≢ id → resource_get t' (pos i) ≡ resource_get t (pos i))
      × (resource_remove t' (pos id) ≡ ok (done 0, t))

  -- Creating a resource in a well-formed table returns, if the heap has room for it or every identifier
  -- is in use. If every identifier is in use the answer is -EMFILE and the table is as before.
  -- Otherwise it is the lowest identifier that is not in use, which now leads to the resource; the
  -- others lead where they did; and removing it restores the table. The table stays well-formed. If the
  -- heap has no room and an identifier is not in use, the call panics.
  pub resource_create-Created :
      (room : Bool) (t : Table Node) (node : Node) (offset : ℕ) (mode : Mode)
      → IsTable t
      → ((room ≡ false)
          × (resource_create room t node offset mode ≡ panic)
          × ((i : ℕ) × (i < t.count) × (resource_get t (pos i) ≡ ok none)))
        ⊎ ((a : Result ℕ) × (t' : Table Node) × (resource_create room t node offset mode
              ≡ ok (a, t'))
            × IsTable t'
            × Created t (record { node = node; offset = offset; mode = mode }) a t')
  unfolding resource_remove
  resource_create-Created room t node offset mode is = elim (find_free-scan t.resources 0) [
    | inl (eq, used) ↦ inr (
      failed emfile,
      t,
      resource_create-full room t node offset mode
          (subst (λ n. find_free n 0 t.resources ≡ ok none) is.counted eq),
      is,
      (
        refl,
        refl,
        λ i h.
            let (r, e) = used i (omega (arith, is.counted)) in
            (r, resource_get-cell t i (some r) is h e),
      ),
    )
    | inr (j, eq, free, fits, used) ↦
        let r : Resource Node = record { node = node; offset = offset; mode = mode } in
        let t' : Table Node = record t { resources = set t.resources j (some r) } in
        let is' : IsTable t' = record {
          counted = length-set t.resources j (some r) ∙ is.counted;
        } in
        let found : find_free t.count 0 t.resources ≡ ok (some j) =
          subst (λ n. find_free n 0 t.resources ≡ ok (some j)) is.counted
            (eq ∙ ap (λ n. ok (some n)) (omega arith)) in
        let unused = resource_get-cell t j none is (omega (arith, is.counted)) free in
        elim (Bool-cases room) [
          | inr full ↦ inl (
            full,
            resource_create-panic room t node offset mode j found full,
            (j, omega (arith, is.counted), unused),
          )
          | inl fitting ↦ inr (
            done j,
            t',
            resource_create-at room t node offset mode j found fits fitting,
            is',
            (
              omega (arith, is.counted),
              unused,
              λ i h.
                  let (r, e) = used i h in
                  (r, resource_get-cell t i (some r) is (omega (arith, is.counted)) e),
              resource_get-cell t' j (some r) is' (omega (arith, is.counted))
                  (get_elem?-set_self t.resources j (some r) fits),
              λ i ne.
                  resource_get-same t t' i refl
                    (sym (get_elem?-set_ne t.resources (some r) (λ e. ne (sym e)))),
              simp (
                resource_remove,
                get_elem?-set_self t.resources j (some r) fits,
                set-restore t.resources j (some r) free,
              ),
            ),
          )
        ]
  ]

  -- Removing an identifier of a well-formed table always returns: -EBADF with the table as before if
  -- it is not in use, and otherwise 0, with a well-formed table in which it is not in use and the
  -- others lead where they did.
  pub resource_remove-Removed :
      (t : Table Node) (id : ℕ)
      → IsTable t
      → id < t.count
      → ((resource_get t (pos id) ≡ ok none) × (resource_remove t (pos id) ≡ ok (failed ebadf, t)))
        ⊎ (IsOpen t id
            × ((t' : Table Node) × (resource_remove t (pos id) ≡ ok (done 0, t'))
                × IsTable t'
                × (resource_get t' (pos id) ≡ ok none)
                × ((i : ℕ) → i ≢ id → resource_get t' (pos i) ≡ resource_get t (pos i))))
  unfolding resource_remove
  resource_remove-Removed t id is fits =
      let (cell, h) = get_elem?-some t.resources id (omega (arith, is.counted)) in
      elim (Option-cases cell) [
        | inl free ↦
            let h' : get_elem? t.resources id ≡ some none = h ∙ ap some free in
            inl (resource_get-cell t id none is fits h', simp (resource_remove, h'))
        | inr (r, used) ↦
            let h' : get_elem? t.resources id ≡ some (some r) = h ∙ ap some used in
            let t' : Table Node = record t { resources = set t.resources id none } in
            let is' : IsTable t' = record {
              counted = length-set t.resources id none ∙ is.counted;
            } in
            inr (
              (r, resource_get-cell t id (some r) is fits h'),
              (
                t',
                simp (resource_remove, h'),
                is',
                resource_get-cell t' id none is' fits
                    (get_elem?-set_self t.resources id none (omega (arith, is.counted))),
                λ i ne.
                    resource_get-same t t' i refl
                      (sym (get_elem?-set_ne t.resources none (λ e. ne (sym e)))),
              ),
            )
      ]

  -- Looking up an identifier in a well-formed table always returns.
  pub resource_get-Total :
      (t : Table Node) (id : ℤ)
      → IsTable t
      → (o : Option (Resource Node)) × (resource_get t id ≡ ok o)
  unfolding resource_get
  resource_get-Total t (negsuc n) is = (none, refl)
  resource_get-Total t (pos i) is = elim (Bool-cases (leb t.count i)) [
    | inl out ↦ (none, simp (out))
    | inr inside ↦
        let (cell, e) = get_elem?-some t.resources i (ground (arith, is.counted)) in
        (cell, resource_get-cell t i cell is (ground arith) e)
  ]

  IsOpen-lt : (t : Table Node) (i : ℕ) → IsOpen t i → i < t.count
  unfolding resource_get
  IsOpen-lt t i (r, h) = elim (Bool-cases (leb t.count i)) [
    | inl out ↦
        let shut : resource_get t (pos i) ≡ ok none = simp (resource_get, out) in
        let e : ok none ≡ ok (some r) = sym shut ∙ h in absurd (ground (arith, ok-injective e))
    | inr inside ↦ ground arith
  ]

  -- Writing to the object behind an identifier.
  pub resource_get-set :
      (t : Table Node) (i : ℕ) (r' : Resource Node)
      → IsTable t
      → IsOpen t i
      → IsTable (record t { resources = set t.resources i (some r') })
        × (resource_get (record t { resources = set t.resources i (some r') }) (pos i)
            ≡ ok (some r'))
        × ((j : ℕ)
            → j ≢ i
            → resource_get (record t { resources = set t.resources i (some r') }) (pos j)
              ≡ resource_get t (pos j))
  resource_get-set t i r' is used =
      let lt = IsOpen-lt t i used in
      let t' : Table Node = record t { resources = set t.resources i (some r') } in
      let is' : IsTable t' = record { counted = length-set t.resources i (some r') ∙ is.counted } in
      (
        is',
        resource_get-cell t' i (some r') is' lt
            (get_elem?-set_self t.resources i (some r') (omega (arith, is.counted))),
        λ j ne.
            resource_get-same t t' j refl
              (sym (get_elem?-set_ne t.resources (some r') (λ e. ne (sym e)))),
      )
