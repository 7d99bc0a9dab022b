-- ===== src/Vfs/Walk.antt =====
-- Path lookup (kernel/src/fs/vfs.c) as a walk through the components of the path.
use elysium_os.Base.{
  ℕ, ◌≡◌, inl, inr, Bool, true, false, List, [], ◌∷◌, ◌++◌, Option, ◌==◌, if◌then◌else◌, Result,
  done, failed, Run, ok, panic, undefined, Bool-cases, refl, sym, ap, ◌∙◌,
}
use elysium_os.Vfs.{
  Call, carry_on, and_then, answer, FileSystems, Create, vfs_root, enter, cross, lookup_loop, begin,
  lookup_ext,
}

-- A component, and whether the path ends with it.
abbrev pub Component : Type 0
Component = List ℕ × Bool

abbrev pub flagged : (last : Bool) → List ℕ → List Component
flagged last [] = []
flagged last (c ∷ cs) = (c ∷ cs, last) ∷ []

-- The components of a path that are not empty, where `component` comes before it.
unfoldable pub components : (component path : List ℕ) → List Component
components component [] = flagged true component
components component (c ∷ path) =
    if c == 47
    then flagged false component ++ components [] path
    else components (component ++ c ∷ []) path

carry_on-answer : {World A : Type 0} (r : Run (Result A × World)) → carry_on answer r ≡ r
carry_on-answer (ok (done a, w)) = refl
carry_on-answer (ok (failed e, w)) = refl
carry_on-answer panic = refl
carry_on-answer undefined = refl

carry_on_ext :
    {World A B : Type 0} (f g : A → Call World B) (r : Run (Result A × World))
    → ((a : A) (w : World) → r ≡ ok (done a, w) → f a w ≡ g a w)
    → carry_on f r ≡ carry_on g r
carry_on_ext f g (ok (done a, w)) h = h a w refl
carry_on_ext f g (ok (failed e, w)) h = refl
carry_on_ext f g panic h = refl
carry_on_ext f g undefined h = refl

module _ (fs : FileSystems) where
  open fs use {World, Node}

  -- Nothing more is to be crossed where one crossing leads.
  abbrev pub IsSettled : Type 0
  IsSettled =
      (node : Node) (w : World) (node' : Node) (w' : World)
      → cross fs node w ≡ ok (done node', w')
      → cross fs node' w' ≡ ok (done node', w')

  -- Where a path begins.
  abbrev pub starts : (path : List ℕ) → Option Node → Call World Node
  starts [] cwd = begin fs cwd
  starts (c ∷ path) cwd = if c == 47 then vfs_root fs else begin fs cwd

module _ (fs : FileSystems) (create : Create) (exclusive : Bool) where
  open fs use {World, Node}

  -- Into one component after the next, and across what is mounted there.
  unfoldable pub walk : Node → List Component → Call World Node
  walk node [] = answer node
  walk node (c ∷ cs) =
      and_then (enter fs create exclusive (c.1) node (c.0))
        (λ node. and_then (cross fs node) (λ node. walk node cs))

  module _ (is_settled : IsSettled fs) where
    crossed_ext :
        (f g : Node → Call World Node) (node : Node) (w : World)
        → ((n : Node) (v : World) → cross fs n v ≡ ok (done n, v) → f n v ≡ g n v)
        → and_then (cross fs node) f w ≡ and_then (cross fs node) g w
    crossed_ext f g node w h =
        carry_on_ext f g (cross fs node w) (λ n v e. h n v (is_settled node w n v e))

    lookup_loop-walk :
        (path component : List ℕ) (node : Node) (w : World)
        → cross fs node w ≡ ok (done node, w)
        → lookup_loop fs create exclusive node component path w
          ≡ walk node (components component path) w
    unfolding lookup_loop walk components
    lookup_loop-walk [] [] node w here = here
    lookup_loop-walk [] (c ∷ cs) node w here =
        carry_on_ext (cross fs) (λ n. and_then (cross fs n) answer)
          (enter fs create exclusive true node (c ∷ cs) w)
          (λ n v e. sym (carry_on-answer (cross fs n v)))
    lookup_loop-walk (x ∷ path) [] node w here = elim (Bool-cases (x == 47)) [
      | inl slash ↦ simp slash (
          ap (carry_on (λ n. lookup_loop fs create exclusive n [] path)) here
          ∙ lookup_loop-walk path [] node w here)
      | inr other ↦ simp other (
          ap (carry_on (λ n. lookup_loop fs create exclusive n (x ∷ []) path)) here
          ∙ lookup_loop-walk path (x ∷ []) node w here)
    ]
    lookup_loop-walk (x ∷ path) (c ∷ cs) node w here = elim (Bool-cases (x == 47)) [
      | inl slash ↦ simp slash (
          carry_on_ext (λ n. and_then (cross fs n) (λ n. lookup_loop fs create exclusive n [] path))
            (λ n. and_then (cross fs n) (λ n. walk n (components [] path)))
            (enter fs create exclusive false node (c ∷ cs) w)
            (λ n v e.
              crossed_ext (λ n. lookup_loop fs create exclusive n [] path)
                (λ n. walk n (components [] path)) n v
                (λ n' v' here'. lookup_loop-walk path [] n' v' here')))
      | inr other ↦ simp other (
          ap (carry_on (λ n. lookup_loop fs create exclusive n (c ∷ cs ++ x ∷ []) path)) here
          ∙ lookup_loop-walk path (c ∷ cs ++ x ∷ []) node w here)
    ]

    -- The first round crosses before it enters anything.
    lookup_loop-begin :
        (path : List ℕ) (node : Node) (w : World)
        → lookup_loop fs create exclusive node [] path w
          ≡ and_then (cross fs node) (λ n. walk n (components [] path)) w
    unfolding lookup_loop walk components
    lookup_loop-begin [] node w = sym (carry_on-answer (cross fs node w))
    lookup_loop-begin (x ∷ path) node w = elim (Bool-cases (x == 47)) [
      | inl slash ↦ simp slash (
          crossed_ext (λ n. lookup_loop fs create exclusive n [] path)
            (λ n. walk n (components [] path)) node w
            (λ n' v' here'. lookup_loop-walk path [] n' v' here'))
      | inr other ↦ simp other (
          crossed_ext (λ n. lookup_loop fs create exclusive n (x ∷ []) path)
            (λ n. walk n (components (x ∷ []) path)) node w
            (λ n' v' here'. lookup_loop-walk path (x ∷ []) n' v' here'))
    ]

    -- The rounds over the characters come to a walk through the components that are not empty.
    pub lookup_ext-walk :
        (path : List ℕ) (cwd : Option Node) (w : World)
        → lookup_ext fs path cwd create exclusive w
          ≡ and_then
              (starts fs path cwd)
              (λ n. and_then (cross fs n) (λ n. walk n (components [] path)))
              w
    unfolding lookup_ext components
    lookup_ext-walk [] cwd w =
        carry_on_ext (λ n. lookup_loop fs create exclusive n [] [])
          (λ n. and_then (cross fs n) (λ n. walk n (components [] []))) (begin fs cwd w)
          (λ n v e. lookup_loop-begin [] n v)
    lookup_ext-walk (c ∷ path) cwd w = elim (Bool-cases (c == 47)) [
      | inl slash ↦ simp slash (
          carry_on_ext (λ n. lookup_loop fs create exclusive n [] path)
            (λ n. and_then (cross fs n) (λ n. walk n (components [] path))) (vfs_root fs w)
            (λ n v e. lookup_loop-begin path n v))
      | inr other ↦
          let rest = λ (n : Node). and_then (cross fs n) (λ n. walk n (components [] (c ∷ path))) in
          ap
            (λ b.
              (if b
                  then and_then (vfs_root fs) (λ n. lookup_loop fs create exclusive n [] path)
                  else and_then (begin fs cwd)
                      (λ n. lookup_loop fs create exclusive n [] (c ∷ path)))
                w)
            other
          ∙ carry_on_ext (λ n. lookup_loop fs create exclusive n [] (c ∷ path)) rest
              (begin fs cwd w) (λ n v e. lookup_loop-begin (c ∷ path) n v)
          ∙ sym (ap (λ b. and_then (if b then vfs_root fs else begin fs cwd) rest w) other)
    ]
