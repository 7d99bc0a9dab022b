-- ===== src/Vfs/Exclusive.antt =====
-- Path lookup (kernel/src/fs/vfs.c) with `exclusive` set.
use elysium_os.Base.{
  ℕ, ◌≡◌, ◌≤◌, inl, inr, Bool, true, false, List, [], ◌∷◌, ◌++◌, Option, ◌==◌, length, Result, done,
  failed, eexist, Run, ok, panic, undefined, assert, ◌>>=◌, ◌>>◌, ◌+◌, ok-injective, Bool-cases,
  refl, sym, ap, ◌∙◌, subst, arith,
}
use elysium_os.Vfs.{
  Call, carry_on, and_then, FileSystems, Create, moved, settled, enter, cross, lookup_ext,
}
use elysium_os.Vfs.Walk.{Component, flagged, components, walk, IsSettled, starts, lookup_ext-walk}

carry_on-done :
    {World A B : Type 0} (f : A → Call World B) (r : Run (Result A × World)) (b : B) (v : World)
    → carry_on f r ≡ ok (done b, v)
    → (a : A) × (w : World) × (f a w ≡ ok (done b, v))
carry_on-done f (ok (done a, w)) b v h = (a, w, h)
carry_on-done f (ok (failed e, w)) b v h = absurd (ground (arith, ap (λ r. r.0) (ok-injective h)))
carry_on-done f panic b v h = absurd (ground arith)
carry_on-done f undefined b v h = absurd (ground arith)

-- A call that cannot succeed after what comes first.
bind-refused :
    {World A B C : Type 0} (m : Run A) (f : A → Run (Result B × World)) (onward : B → Call World C)
    (c : C) (v : World)
    → ((a : A) → carry_on onward (f a) ≡ ok (done c, v) → ⊥)
    → carry_on onward (m >>= f) ≡ ok (done c, v)
    → ⊥
bind-refused (ok a) f onward c v refused h = refused a h
bind-refused panic f onward c v refused h = absurd (ground arith)
bind-refused undefined f onward c v refused h = absurd (ground arith)

abbrev first_flag : List Component → Bool
first_flag [] = false
first_flag (c ∷ cs) = c.1

at_most_one :
    (cs : List Component)
    → ((c d : Component) (ds : List Component) → cs ≡ c ∷ d ∷ ds → ⊥)
    → length cs ≤ 1
at_most_one [] h = omega arith
at_most_one (c ∷ []) h = omega arith
at_most_one (c ∷ d ∷ ds) h = absurd (h c d ds refl)

-- A component that others follow is flagged as one that does not end the path.
flagged-follow :
    (component : List ℕ) (rest : List Component) (c d : Component) (cs : List Component)
    → (rest ≡ c ∷ d ∷ cs → c.1 ≡ false)
    → flagged false component ++ rest ≡ c ∷ d ∷ cs
    → c.1 ≡ false
flagged-follow [] rest c d cs later h = later h
flagged-follow (x ∷ xs) rest c d cs later h = sym (ap first_flag h)

components-follow :
    (path component : List ℕ) (c d : Component) (cs : List Component)
    → components component path ≡ c ∷ d ∷ cs
    → c.1 ≡ false
unfolding components
components-follow [] [] c d cs h = absurd (ground arith)
components-follow [] (x ∷ xs) c d cs h = absurd (ground arith)
components-follow (y ∷ path) component c d cs h = elim (Bool-cases (y == 47)) [
  | inl slash ↦
      flagged-follow component (components [] path) c d cs (components-follow path [] c d cs)
        (simp slash at h)
  | inr other ↦ components-follow path (component ++ y ∷ []) c d cs (simp other at h)
]

module _ (fs : FileSystems) (create : Create) where
  open fs use {World, Node}

  settled-refused :
      (node : Node) (component : List ℕ) (r : Result Node × World)
      → settled fs create true false node component r ≡ ok (failed eexist, r.1)
  settled-refused node component (done n, w) = refl
  settled-refused node component (failed e, w) = refl

  enter-refused :
      (onward : Node → Call World Node) (component : List ℕ) (node : Node) (w : World) (n : Node)
      (v : World)
      → carry_on onward (enter fs create true false node component w) ≡ ok (done n, v)
      → ⊥
  unfolding enter
  enter-refused onward component node w n v =
      bind-refused
        (assert (fs.heap_room (1 + length component) w)
          >> fs.node_lookup node component w
          >>= moved fs node)
        (settled fs create true false node component) onward n v
        (λ r h. absurd (
          ground (
            arith,
            ap (λ r. r.0)
                (ok-injective (sym (ap (carry_on onward) (settled-refused node component r)) ∙ h)),
          )))

  walk-refused :
      (c d : Component) (cs : List Component) (node : Node) (w : World) (n : Node) (v : World)
      → c.1 ≡ false
      → walk fs create true node (c ∷ d ∷ cs) w ≡ ok (done n, v)
      → ⊥
  unfolding walk
  walk-refused c d cs node w n v follows h =
      let onward = λ (n : Node). and_then (cross fs n) (λ n. walk fs create true n (d ∷ cs)) in
      enter-refused onward (c.0) node w n v
        (sym (ap (λ b. carry_on onward (enter fs create true b node (c.0) w)) follows) ∙ h)

  -- An exclusive lookup that succeeds had a path of one component at most, so that a file in another
  -- directory is never created exclusively. It is stated for file systems in which nothing is mounted
  -- on the root of something that is mounted itself.
  pub lookup_ext-exclusive :
      (path : List ℕ) (cwd : Option Node) (w : World) (n : Node) (v : World)
      → IsSettled fs
      → lookup_ext fs path cwd create true w ≡ ok (done n, v)
      → length (components [] path) ≤ 1
  lookup_ext-exclusive path cwd w n v is_settled h = at_most_one (components [] path) (λ c d ds e.
      let (a, w₁, h₁) =
        carry_on-done (λ n. and_then (cross fs n) (λ n. walk fs create true n (components [] path)))
          (starts fs path cwd w) n v
          (sym (lookup_ext-walk fs create true is_settled path cwd w) ∙ h) in
      let (b, w₂, h₂) =
        carry_on-done (λ n. walk fs create true n (components [] path)) (cross fs a w₁) n v h₁ in
      walk-refused c d ds b w₂ n v (components-follow path [] c d ds e)
        (subst (λ l. walk fs create true b l w₂ ≡ ok (done n, v)) e h₂))
