-- ===== src/Tmpfs/Tree/Names.antt =====
-- A directory as the list of its entries, and the search in it (kernel/src/fs/tmpfs.c).
use elysium_os.Base.{
  ℕ, zero, suc, ◌<◌, ◌≤◌, ◌≡◌, true, List, [], ◌∷◌, Option, none, some, length, get_elem?,
  if◌then◌else◌, ok, arith, refl, sym, subst, ◌∙◌, Bool-cases, inl, inr, eq→==,
}
use elysium_os.Tmpfs.Tree.{Name, str_eq, dir, Node, Tree, find_from, dir_find}

pub str_eq_same : (s : Name) → str_eq s s ≡ true
unfolding str_eq
str_eq_same [] = refl
str_eq_same (x ∷ xs) = simp (eq→== x x refl, str_eq_same xs)

pub str_eq→eq : (s t : Name) → str_eq s t ≡ true → s ≡ t
unfolding str_eq
str_eq→eq [] [] h = refl
str_eq→eq [] (y ∷ ys) h = absurd (ground arith)
str_eq→eq (x ∷ xs) [] h = absurd (ground arith)
str_eq→eq (x ∷ xs) (y ∷ ys) h =
    let first : x ≡ y = ground arith in let rest : xs ≡ ys = str_eq→eq xs ys (ground arith) in cc

-- an entry of a directory: a name, and the node that it leads to
abbrev pub Entries : Type 0
Entries = List (Name × ℕ)

-- The first entry of that name.
abbrev pub entry_of : Name → Entries → Option ℕ
entry_of name [] = none
entry_of name (e ∷ es) = if str_eq (e.0) name then some (e.1) else entry_of name es

-- The pointers from `head` on lead through the entries, each to an older node.
abbrev pub Lists : List Node → (bound : ℕ) → Option ℕ → Entries → Type 0
Lists nodes bound head [] = head ≡ none
Lists nodes bound head (e ∷ es) =
    (head ≡ some (e.1))
    × (e.1 < bound)
    × ((n : Node) × (get_elem? nodes (e.1) ≡ some n)
        × (n.name ≡ some (e.0))
        × Lists nodes (e.1) n.sibling_next es)

-- The node is a directory with these entries.
pub record IsDir (t : Tree) (i : ℕ) (es : Entries) : Type 0 where
  pub node : Node
  pub children : Option ℕ
  pub at : get_elem? t.nodes i ≡ some node
  pub kind : node.kind ≡ dir children
  pub entries : Lists t.nodes (length t.nodes) children es

pub Lists-bound :
    (nodes : List Node) (b b' : ℕ) (head : Option ℕ) (es : Entries)
    → b ≤ b'
    → Lists nodes b head es
    → Lists nodes b' head es
Lists-bound nodes b b' head [] h l = l
Lists-bound nodes b b' head (e ∷ es) h (at, lt, rest) = (at, omega arith, rest)

-- Nodes that keep their names and their places in the chains, whatever else becomes of them.
abbrev pub Keep : List Node → List Node → Type 0
Keep nodes nodes' =
    (i : ℕ) (n : Node)
    → get_elem? nodes i ≡ some n
    → (n' : Node) × (get_elem? nodes' i ≡ some n')
      × (n'.name ≡ n.name)
      × (n'.sibling_next ≡ n.sibling_next)

pub Lists-Keep :
    (nodes nodes' : List Node) (b : ℕ) (head : Option ℕ) (es : Entries)
    → Keep nodes nodes'
    → Lists nodes b head es
    → Lists nodes' b head es
Lists-Keep nodes nodes' b head [] keep l = l
Lists-Keep nodes nodes' b head (e ∷ es) keep (at, lt, (n, here, name, rest)) =
    let (n', here', name', next') = keep (e.1) n here in
    (
      at,
      lt,
      (
        n',
        here',
        name' ∙ name,
        subst (λ p. Lists nodes' (e.1) p es) (sym next')
            (Lists-Keep nodes nodes' (e.1) n.sibling_next es keep rest),
      ),
    )

find_from-Lists :
    (nodes : List Node) (fuel b : ℕ) (head : Option ℕ) (es : Entries) (name : Name)
    → b ≤ fuel
    → Lists nodes b head es
    → find_from fuel nodes head name ≡ ok (entry_of name es)
unfolding find_from
find_from-Lists nodes fuel b head [] name enough l = simp (find_from, l)
find_from-Lists nodes zero b head (e ∷ es) name enough (at, lt, rest) = absurd (omega arith)
find_from-Lists nodes (suc fuel) b head (e ∷ es) name enough (at, lt, (n, here, named, rest)) =
    let later = find_from-Lists nodes fuel (e.1) n.sibling_next es name (omega arith) rest in
    subst (λ p. find_from (suc fuel) nodes p name ≡ ok (entry_of name (e ∷ es))) (sym at)
      (elim (Bool-cases (str_eq (e.0) name)) [
        | inl same ↦ simp (find_from, here, named, same)
        | inr other ↦ simp (find_from, here, named, other, later)
      ])

-- `dir_find` answers for every directory: with the first entry of the name, or that there is none.
pub dir_find-entry_of :
    (t : Tree) (children : Option ℕ) (es : Entries) (name : Name)
    → Lists t.nodes (length t.nodes) children es
    → dir_find t children name ≡ ok (entry_of name es)
unfolding dir_find
dir_find-entry_of t children es name l =
    find_from-Lists t.nodes (length t.nodes) (length t.nodes) children es name (omega arith) l
