-- ===== src/Tmpfs/Tree/Laws.antt =====
-- Lookup and creation in directories (kernel/src/fs/tmpfs.c).
use elysium_os.Base.{
  ℕ, ◌+◌, ◌<◌, ◌≡◌, ◌≢◌, Bool, false, [], ◌∷◌, none, some, length, get_elem?, set, ◌==◌, ok, Result,
  done, failed, eexist, arith, refl, ap, sym, ◌∙◌, Bool-cases, Option-cases, inl, inr, ◌⊎◌, panic,
  some-eq, length-set, length-append, get_elem?-set_self, get_elem?-set_ne, get_elem?-lt,
  get_elem?-append_left, get_elem?-append_last, get_elem?-none,
}
use elysium_os.Tmpfs.Tree.{
  Name, str_eq, with_node, dir, Node, Tree, new_kind, new_node, add_node, found, node_lookup,
  node_make,
}
use elysium_os.Tmpfs.Tree.Names.{
  Entries, entry_of, IsDir, Lists-bound, Keep, Lists-Keep, dir_find-entry_of,
}

-- A name other than "." and "..".
pub record IsPlain (name : Name) : Type 0 where
  pub not_self : str_eq name (46 ∷ []) ≡ false
  pub not_parent : str_eq name (46 ∷ 46 ∷ []) ≡ false

-- Lookup of a plain name in a directory always returns: the node of its first entry of that name, or
-- -ENOENT if there is none.
pub node_lookup-entry_of :
    (t : Tree) (i : ℕ) (es : Entries) (name : Name)
    → IsDir t i es
    → IsPlain name
    → node_lookup t i name ≡ ok (found (entry_of name es))
unfolding node_lookup
node_lookup-entry_of t i es name d plain = simp (
  with_node,
  d.at,
  d.kind,
  plain.not_self,
  plain.not_parent,
  dir_find-entry_of t d.children es name d.entries,
)

-- The state after a node was made below `i`.
module _ (t : Tree) (i : ℕ) (es : Entries) (d : IsDir t i es) (is_dir : Bool) (name : Name) where
  abbrev parent_node : Node
  parent_node = record d.node { kind = dir (some (length t.nodes)) }

  abbrev made_node : Node
  made_node = new_node t (some i) d.children is_dir (some name)

  abbrev made : Tree
  made = add_node t (set t.nodes i parent_node) made_node

  fits : i < length t.nodes
  fits = get_elem?-lt t.nodes i d.node d.at

  made-length : length made.nodes ≡ length t.nodes + 1
  made-length =
      length-append (set t.nodes i parent_node) (made_node ∷ [])
      ∙ ap (λ n. n + 1) (length-set t.nodes i parent_node)

  made-new : get_elem? made.nodes (length t.nodes) ≡ some made_node
  made-new =
      get_elem?-append_last (set t.nodes i parent_node) made_node (length t.nodes)
        (sym (length-set t.nodes i parent_node))

  made-parent : get_elem? made.nodes i ≡ some parent_node
  made-parent =
      get_elem?-append_left (set t.nodes i parent_node) (made_node ∷ []) i
        (omega (arith, fits, length-set t.nodes i parent_node))
      ∙ get_elem?-set_self t.nodes i parent_node fits

  made-other :
      (j : ℕ) (n : Node) → i ≢ j → get_elem? t.nodes j ≡ some n → get_elem? made.nodes j ≡ some n
  made-other j n ne h =
      get_elem?-append_left (set t.nodes i parent_node) (made_node ∷ []) j
        (omega (arith, get_elem?-lt t.nodes j n h, length-set t.nodes i parent_node))
      ∙ get_elem?-set_ne t.nodes parent_node ne
      ∙ h

  made-Keep : Keep t.nodes made.nodes
  made-Keep j n h = elim (Bool-cases (i == j)) [
    | inl same ↦
        let e : i ≡ j = ground arith in
        let here : some d.node ≡ some n = sym d.at ∙ ap (get_elem? t.nodes) e ∙ h in
        (
          parent_node,
          ap (get_elem? made.nodes) (sym e) ∙ made-parent,
          ap (λ m. m.name) (some-eq here),
          ap (λ m. m.sibling_next) (some-eq here),
        )
    | inr other ↦ (n, made-other j n (ground arith) h, refl, refl)
  ]

  made-IsDir : IsDir made i ((name, length t.nodes) ∷ es)
  made-IsDir = record {
    node = parent_node;
    children = some (length t.nodes);
    at = made-parent;
    kind = refl;
    entries = (
      refl,
      omega (arith, made-length),
      (
        made_node,
        made-new,
        refl,
        Lists-Keep t.nodes made.nodes (length t.nodes) d.children es made-Keep d.entries,
      ),
    );
  }

  made-others : (j : ℕ) (fs : Entries) → i ≢ j → IsDir t j fs → IsDir made j fs
  made-others j fs ne e = record {
    node = e.node;
    children = e.children;
    at = made-other j e.node ne e.at;
    kind = e.kind;
    entries = Lists-Keep t.nodes made.nodes (length made.nodes) e.children fs made-Keep (
        Lists-bound t.nodes (length t.nodes) (length made.nodes) e.children fs
          (omega (arith, made-length)) e.entries);
  }

-- What follows of `tmpfs_node_mkdir` or `tmpfs_node_create` for its result and the tree after it.
abbrev pub Made : (t : Tree) (i : ℕ) → Entries → Bool → Name → Result ℕ → Tree → Type 0
Made t i es is_dir name (failed e) t' = (e ≡ eexist) × (t' ≡ t) × (entry_of name es ≢ none)
Made t i es is_dir name (done j) t' =
    (entry_of name es ≡ none)
    × IsDir t' i ((name, j) ∷ es)
    × ((k : ℕ) (fs : Entries) → i ≢ k → IsDir t k fs → IsDir t' k fs)
    × ((n : Node) × (get_elem? t'.nodes j ≡ some n)
        × (get_elem? t.nodes j ≡ none)
        × (n.parent ≡ some i)
        × (n.kind ≡ new_kind is_dir))

-- Creating a file or a directory in a directory returns, if the heap has room for the node or the name is
-- there. If the name is there the result is -EEXIST and nothing changes. Otherwise the result is a node
-- that was not there before, empty, with the directory as its parent; it stands first among the entries,
-- before the old ones, and every other directory has the entries it had. If the heap has no room and
-- the name is not there, the call panics.
pub node_make-Made :
    (room : Bool → Bool) (is_dir : Bool) (t : Tree) (i : ℕ) (es : Entries) (name : Name)
    → IsDir t i es
    → ((room is_dir ≡ false) × (entry_of name es ≡ none) × (node_make room is_dir t i name ≡ panic))
      ⊎ ((r : Result ℕ) × (t' : Tree) × (node_make room is_dir t i name ≡ ok (r, t'))
          × Made t i es is_dir name r t')
unfolding node_make
node_make-Made room is_dir t i es name d =
    let search = dir_find-entry_of t d.children es name d.entries in
    elim (Option-cases (entry_of name es)) [
      | inr (j, there) ↦ inr (
        failed eexist,
        t,
        simp (with_node, d.at, d.kind, search, there),
        (refl, refl, λ e. ground (arith, e, there)),
      )
      | inl none_there ↦ elim (Bool-cases (room is_dir)) [
        | inr full ↦
            inl (full, none_there, simp (with_node, d.at, d.kind, search, none_there, full))
        | inl fitting ↦ inr (
          done (length t.nodes),
          made t i es d is_dir name,
          simp (with_node, d.at, d.kind, search, none_there, fitting),
          (
            none_there,
            made-IsDir t i es d is_dir name,
            made-others t i es d is_dir name,
            (
              made_node t i es d is_dir name,
              made-new t i es d is_dir name,
              get_elem?-none t.nodes (length t.nodes) (omega arith),
              refl,
              refl,
            ),
          ),
        )
      ]
    ]
